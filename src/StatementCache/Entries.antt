-- ===== src/StatementCache/Entries.antt =====
-- What the counts and flags of the entries mean, whatever statements are in use.
use oro.Base.{
  ℕ, ◌<◌, true, false, String, List, some, ◌≡◌, ◌≢◌, refl, ◌∙◌, ◌⊎◌, inl, inr, arith, ℕ_discrete,
  subst, if_cases,
}
use oro.Base.Int.{pos, leb_ℤ}
use oro.Base.Dict.{
  insert, delete, insert-cases, delete-cases, lookup-insert_self, lookup-insert_ne,
  lookup-delete_ne,
}
use oro.Base.Text.{str_discrete}
use oro.StatementCache.{Entry, entry_of, item, drop_entry, drop_statement}
use oro.StatementCache.Steps.{count}

-- The cache maps some text to the statement.
abbrev pub Cached : List (String × ℕ) → ℕ → Type 0
Cached items stmt = (query : String) × (item query items ≡ some stmt)

-- A cached statement is open and not marked. One that left the cache is open and marked while it is
-- in use, and was closed once when it is not.
abbrev pub Meant : List (String × ℕ) → ℕ → ℕ → Entry → Type 0
Meant items uses stmt entry =
    (entry.refs ≡ pos uses)
    × ((Cached items stmt × (entry.evicted ≡ false) × (entry.closes ≡ 0))
        ⊎ ((Cached items stmt → ⊥)
            × (((0 < uses) × (entry.evicted ≡ true) × (entry.closes ≡ 0))
                ⊎ ((uses ≡ 0) × (entry.closes ≡ 1)))))

pub record IsSound (items : List (String × ℕ)) (entries : List (ℕ × Entry)) (holds : List ℕ)
    : Type 0 where
  pub meant :
      (stmt : ℕ) (entry : Entry)
      → entry_of stmt entries ≡ some entry
      → Meant items (count stmt holds) stmt entry
  pub held :
      (stmt : ℕ) → 0 < count stmt holds → (entry : Entry) × (entry_of stmt entries ≡ some entry)
  pub stored :
      (query : String) (stmt : ℕ)
      → item query items ≡ some stmt
      → (entry : Entry) × (entry_of stmt entries ≡ some entry)
  -- Two texts have two statements.
  pub one_query :
      (q q' : String) (stmt : ℕ) → item q items ≡ some stmt → item q' items ≡ some stmt → q ≡ q'

-- An entry for the statement is there after any update.
pub entry-insert :
    (stmt e : ℕ) (entry : Entry) (entries : List (ℕ × Entry))
    → ((x : Entry) × (entry_of e entries ≡ some x)) ⊎ (stmt ≡ e)
    → (x : Entry) × (entry_of e (insert ℕ_discrete stmt entry entries) ≡ some x)
entry-insert stmt e entry entries h = elim (ℕ_discrete stmt e) [
  | yes p ↦ (
    entry,
    subst (λ e. entry_of e (insert ℕ_discrete stmt entry entries) ≡ some entry) p
        (lookup-insert_self ℕ_discrete stmt entry entries),
  )
  | no p ↦ elim h [
    | inl (x, found) ↦ (x, lookup-insert_ne ℕ_discrete stmt e entry entries p ∙ found)
    | inr q ↦ absurd (p q)
  ]
]

pub Meant-change :
    (items items' : List (String × ℕ)) (uses stmt : ℕ) (entry : Entry)
    → (Cached items stmt → Cached items' stmt)
    → (Cached items' stmt → Cached items stmt)
    → Meant items uses stmt entry
    → Meant items' uses stmt entry
Meant-change items items' uses stmt entry f g (refs, inl (cached, marked, closes)) =
    (refs, inl (f cached, marked, closes))
Meant-change items items' uses stmt entry f g (refs, inr (gone, state)) =
    (refs, inr (λ c. gone (g c), state))

dropped-Meant :
    (items items' : List (String × ℕ)) (uses stmt : ℕ) (entry : Entry)
    → Cached items stmt
    → (Cached items' stmt → ⊥)
    → Meant items uses stmt entry
    → Meant items' uses stmt (drop_entry entry)
dropped-Meant items items' uses stmt entry cached gone (refs, inr (never, state)) =
    absurd (never cached)
dropped-Meant items items' uses stmt entry cached gone (refs, inl (c, open_, once)) =
    if_cases (λ x. Meant items' uses stmt x) (leb_ℤ entry.refs (pos 0))
      (λ free. (refs, inr (gone, inr (ground arith, ground arith))))
      (λ used. (refs, inr (gone, inl (ground arith, refl, once))))

-- The statement of a removed text is cached no more, and any other stays.
delete-Cached :
    (query : String) (items : List (String × ℕ)) (e stmt : ℕ)
    → item query items ≡ some stmt
    → stmt ≢ e
    → Cached items e
    → Cached (delete str_discrete query items) e
delete-Cached query items e stmt found ne (q, h) =
    (q, lookup-delete_ne str_discrete query q items (λ same. ne (two_values same)) ∙ h)
  where
    two_values : query ≡ q → stmt ≡ e
    two_values same = cc

module _ (items : List (String × ℕ)) (entries : List (ℕ × Entry)) (holds : List ℕ)
    (sound : IsSound items entries holds) where
  -- A cached statement leaves the cache.
  pub dropped-IsSound :
      (query : String) (stmt : ℕ)
      → item query items ≡ some stmt
      → IsSound (delete str_discrete query items) (drop_statement stmt entries) holds
  unfolding drop_statement
  dropped-IsSound query stmt found =
      let (entry, there) = sound.stored query stmt found in
      let items' = delete str_discrete query items in
      let entries' = insert ℕ_discrete stmt (drop_entry entry) entries in
      rw (drop_statement, there)
        (record {
          meant = λ e x h. elim (insert-cases ℕ_discrete stmt e (drop_entry entry) entries x h) [
            | inl (same, is) ↦
                subst (λ e. Meant items' (count e holds) e x) same
                  (subst (λ x. Meant items' (count stmt holds) stmt x) is
                    (dropped-Meant items items' (count stmt holds) stmt entry (query, found)
                      (λ c.
                        let (ne, h') = delete-cases str_discrete query c.0 items stmt c.1 in
                        ne (sound.one_query query c.0 stmt found h'))
                      (sound.meant stmt entry there)))
            | inr (other, old) ↦
                Meant-change items items' (count e holds) e x
                  (delete-Cached query items e stmt found other)
                  (λ c. (c.0, (delete-cases str_discrete query c.0 items e c.1).1))
                  (sound.meant e x old)
          ];
          held = λ e h. entry-insert stmt e (drop_entry entry) entries (inl (sound.held e h));
          stored = λ q e h.
              entry-insert stmt e (drop_entry entry) entries
                (inl (sound.stored q e (delete-cases str_discrete query q items e h).1));
          one_query = λ q q' e h h'.
              sound.one_query q q' e (delete-cases str_discrete query q items e h).1
                (delete-cases str_discrete query q' items e h').1;
        })
