-- ===== src/StatementCache/Safety.antt =====
-- No user's statement is closed, and no statement is closed twice.
use oro.Base.{
  ℕ, ◌≤◌, ◌<◌, String, List, [], ◌∷◌, none, some, ◌≡◌, sym, ◌∙◌, inl, inr, arith, ℕ_discrete,
  Option-cases, leb, length, Bool-cases, subst,
}
use oro.Base.Int.{pos}
use oro.Base.Dict.{lookup, delete, lookup-insert_ne, lookup-delete}
use oro.Base.Text.{str_discrete}
use oro.StatementCache.{
  Entry, entry_of, item, retain, drop_entry, drop_statement, evict_locked, add_statement, released,
  release, acquire_cached, acquire_prepared,
}
use oro.StatementCache.Steps.{
  count, remove, System, Step, hit, prepare, release_one, Reach, here, next,
}
use oro.StatementCache.Counts.{count-remove_self, count-remove_ne}
use oro.StatementCache.Entries.{Cached, Meant, IsSound, dropped-IsSound}
use oro.StatementCache.Updates.{released-Meant, updated-IsSound, retain-IsSound, added-IsSound}

drop_statement-fresh :
    (stmt other : ℕ) (x : Entry) (entries : List (ℕ × Entry))
    → entry_of other entries ≡ some x
    → entry_of stmt entries ≡ none
    → entry_of stmt (drop_statement other entries) ≡ none
unfolding drop_statement
drop_statement-fresh stmt other x entries there fresh =
    rw (drop_statement, there)
      (lookup-insert_ne ℕ_discrete other stmt (drop_entry x) entries (λ same. clash same) ∙ fresh)
  where
    clash : other ≡ stmt → ⊥
    clash same = cc

delete-new :
    (query oldest : String) (items : List (String × ℕ))
    → item query items ≡ none
    → item query (delete str_discrete oldest items) ≡ none
delete-new query oldest items new = ground (arith, lookup-delete str_discrete oldest query items)

-- What holds after the eviction.
abbrev Evicted : List ℕ → String → ℕ → List String × List (String × ℕ) × List (ℕ × Entry) → Type 0
Evicted holds query stmt (order, items, entries) =
    IsSound items entries holds × (item query items ≡ none) × (entry_of stmt entries ≡ none)

evict_locked-Evicted :
    (max_size : ℕ) (holds : List ℕ) (query : String) (stmt : ℕ) (order : List String)
    (items : List (String × ℕ)) (entries : List (ℕ × Entry))
    → IsSound items entries holds
    → item query items ≡ none
    → entry_of stmt entries ≡ none
    → Evicted holds query stmt (evict_locked max_size order items entries)
unfolding evict_locked
evict_locked-Evicted max_size holds query stmt [] items entries sound new fresh =
    (sound, new, fresh)
evict_locked-Evicted max_size holds query stmt (oldest ∷ order) items entries sound new fresh =
    elim (Bool-cases (leb max_size (length items))) [
      | inr room ↦ rw (evict_locked, room) (sound, new, fresh)
      | inl full ↦ elim (Option-cases (item oldest items)) [
        | inl absent ↦
            rw (evict_locked, full, absent)
              (evict_locked-Evicted max_size holds query stmt order items entries sound new fresh)
        | inr (old, found) ↦
            let (x, there) = sound.stored oldest old found in
            rw (evict_locked, full, found)
              (evict_locked-Evicted max_size holds query stmt order
                (delete str_discrete oldest items) (drop_statement old entries)
                (dropped-IsSound items entries holds sound oldest old found)
                (delete-new query oldest items new)
                (drop_statement-fresh stmt old x entries there fresh))
      ]
    ]

abbrev pub SystemSound : System → Type 0
SystemSound s = IsSound s.cache.items s.cache.entries s.holds

pub new-SystemSound :
    (size : ℕ)
    → SystemSound (record {
      cache = record { max_size = size; items = []; order = []; entries = [] };
      holds = [];
    })
unfolding lookup
new-SystemSound size = record {
  meant = λ e x h. cc;
  held = λ e h. elim h [ ];
  stored = λ q e h. cc;
  one_query = λ q q' e h h'. cc;
}

hit-SystemSound :
    (s : System) (query : String) (stmt : ℕ)
    → SystemSound s
    → (acquire_cached query s.cache).1 ≡ some stmt
    → SystemSound (record { cache = (acquire_cached query s.cache).0; holds = stmt ∷ s.holds })
unfolding acquire_cached
hit-SystemSound s query stmt sound found = elim (Option-cases (item query s.cache.items)) [
  | inl absent ↦ absurd (ground arith)
  | inr (cached, there) ↦
      rw (acquire_cached, there)
        (subst (λ k. IsSound s.cache.items (retain cached s.cache.entries) (k ∷ s.holds))
          (same_stmt cached there)
          (retain-IsSound s.cache.items s.cache.entries s.holds sound query cached there))
]
  where
    same_stmt : (cached : ℕ) → item query s.cache.items ≡ some cached → cached ≡ stmt
    same_stmt cached there = ground arith

prepare-SystemSound :
    (s : System) (query : String) (stmt : ℕ)
    → SystemSound s
    → entry_of stmt s.cache.entries ≡ none
    → SystemSound (record {
      cache = (acquire_prepared query stmt s.cache).0;
      holds = (acquire_prepared query stmt s.cache).1 ∷ s.holds;
    })
unfolding acquire_prepared add_statement
prepare-SystemSound s query stmt sound fresh = elim (Option-cases (item query s.cache.items)) [
  | inl absent ↦
      let (kept, new, fresh') =
        evict_locked-Evicted s.cache.max_size s.holds query stmt s.cache.order s.cache.items
          s.cache.entries sound absent fresh in
      rw (acquire_prepared, absent) (added-IsSound _ _ s.holds kept query stmt new fresh')
  | inr (cached, there) ↦
      rw (acquire_prepared, there)
        (retain-IsSound s.cache.items s.cache.entries s.holds sound query cached there)
]

release-SystemSound :
    (s : System) (stmt : ℕ)
    → SystemSound s
    → 0 < count stmt s.holds
    → SystemSound (record { cache = release stmt s.cache; holds = remove stmt s.holds })
unfolding release
release-SystemSound s stmt sound used =
    let (entry, there) = sound.held stmt used in
    rw (release, there)
      (updated-IsSound s.cache.items s.cache.entries s.holds sound stmt entry (released entry)
        (remove stmt s.holds) there (λ e ne. count-remove_ne e stmt s.holds ne)
        (subst (λ uses. Meant s.cache.items uses stmt (released entry))
          (sym (count-remove_self stmt s.holds))
          (released-Meant s.cache.items (count stmt s.holds) stmt entry used
            (sound.meant stmt entry there))))

pub Step-SystemSound : {s t : System} → Step s t → SystemSound s → SystemSound t
Step-SystemSound {s} (hit query stmt found) sound = hit-SystemSound s query stmt sound found
Step-SystemSound {s} (prepare query stmt fresh) sound = prepare-SystemSound s query stmt sound fresh
Step-SystemSound {s} (release_one stmt used) sound = release-SystemSound s stmt sound used

pub Reach-SystemSound : {s t : System} → SystemSound s → Reach s t → SystemSound t
Reach-SystemSound sound here = sound
Reach-SystemSound sound (next r step) = Step-SystemSound step (Reach-SystemSound sound r)

module _ (size : ℕ) where
  abbrev pub start : System
  start = record {
    cache = record { max_size = size; items = []; order = []; entries = [] };
    holds = [];
  }

  -- Whatever the users of a new cache do and in whatever order, a statement whose releaser is still to
  -- be called has an entry, which counts exactly these calls, and is not closed.
  pub held-open :
      (s : System) (stmt : ℕ)
      → Reach start s
      → 0 < count stmt s.holds
      → (entry : Entry) × (entry_of stmt s.cache.entries ≡ some entry)
        × (entry.closes ≡ 0)
        × (entry.refs ≡ pos (count stmt s.holds))
  held-open s stmt r used =
      let sound = Reach-SystemSound (new-SystemSound size) r in
      let (entry, there) = sound.held stmt used in
      let meant = sound.meant stmt entry there in (entry, there, ground arith, meant.0)

  -- A statement that the cache prepared and kept is closed at most once, and exactly once as soon as it
  -- is neither cached nor in use: none is closed twice and none is forgotten.
  pub gone-closed :
      (s : System) (stmt : ℕ) (entry : Entry)
      → Reach start s
      → entry_of stmt s.cache.entries ≡ some entry
      → (entry.closes ≤ 1)
        × ((Cached s.cache.items stmt → ⊥) → count stmt s.holds ≡ 0 → entry.closes ≡ 1)
  gone-closed s stmt entry r there =
      let meant = (Reach-SystemSound (new-SystemSound size) r).meant stmt entry there in
      at_most s stmt entry meant
    where
      at_most :
          (s : System) (stmt : ℕ) (entry : Entry)
          → Meant s.cache.items (count stmt s.holds) stmt entry
          → (entry.closes ≤ 1)
            × ((Cached s.cache.items stmt → ⊥) → count stmt s.holds ≡ 0 → entry.closes ≡ 1)
      at_most s stmt entry (refs, inl (c, marked, closes)) =
          (omega arith, λ gone unused. absurd (gone c))
      at_most s stmt entry (refs, inr (gone, inl (used, marked, closes))) =
          (omega arith, λ _ unused. absurd (omega arith))
      at_most s stmt entry (refs, inr (gone, inr (unused, closes))) = (omega arith, λ _ _. closes)
