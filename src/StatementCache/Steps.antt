-- ===== src/StatementCache/Steps.antt =====
-- The critical sections of the users of one cache, in any order. A user holds a statement from the
-- section that handed it out to the call of its releaser.
use oro.Base.{ℕ, suc, List, [], ◌∷◌, String, none, some, ◌≡◌, ◌<◌, eqb, if◌then◌else◌}
use oro.StatementCache.{Cache, entry_of, acquire_cached, acquire_prepared, release}

abbrev pub count : ℕ → List ℕ → ℕ
count x [] = 0
count x (y ∷ ys) = if eqb y x then suc (count x ys) else count x ys

abbrev pub remove : ℕ → List ℕ → List ℕ
remove x [] = []
remove x (y ∷ ys) = if eqb y x then ys else y ∷ remove x ys

pub record System : Type 0 where
  pub cache : Cache
  -- the statements whose releasers are still to be called
  pub holds : List ℕ

-- `prepare` is the second section of `acquire`; the driver returns a new statement.
pub data Step : System → System → Type 0 where
  hit :
      {s : System} (query : String) (stmt : ℕ)
      → (acquire_cached query s.cache).1 ≡ some stmt
      → Step s (record { cache = (acquire_cached query s.cache).0; holds = stmt ∷ s.holds })
  prepare :
      {s : System} (query : String) (stmt : ℕ)
      → entry_of stmt s.cache.entries ≡ none
      → Step s (record {
        cache = (acquire_prepared query stmt s.cache).0;
        holds = (acquire_prepared query stmt s.cache).1 ∷ s.holds;
      })
  release_one :
      {s : System} (stmt : ℕ)
      → 0 < count stmt s.holds
      → Step s (record { cache = release stmt s.cache; holds = remove stmt s.holds })

pub data Reach (s : System) : System → Type 0 where
  here : Reach s s
  next : {t u : System} → Reach s t → Step t u → Reach s u
