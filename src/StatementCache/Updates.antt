-- ===== src/StatementCache/Updates.antt =====
-- One update of the entries keeps them sound.
use oro.Base.{
  ℕ, zero, suc, ◌-◌, ◌<◌, false, ◌&&◌, String, List, ◌∷◌, none, some, ◌≡◌, ◌≢◌, refl, sym, ap, ◌∙◌,
  ◌⊎◌, inl, inr, arith, ℕ_discrete, subst, if_cases,
}
use oro.Base.Int.{pos, ◌+ℤ◌, ◌-ℤ◌, leb_ℤ, +ℤ_parts, -ℤ_parts, eq_of_parts}
use oro.Base.Dict.{insert, insert-cases, lookup-insert_self, lookup-insert_ne}
use oro.Base.Text.{str_discrete}
use oro.StatementCache.{Entry, entry_of, item, retain, released}
use oro.StatementCache.Steps.{count}
use oro.StatementCache.Counts.{count-cons_self, count-cons_ne}
use oro.StatementCache.Entries.{Cached, Meant, Meant-change, IsSound, entry-insert}

retained-Meant :
    (items : List (String × ℕ)) (uses stmt : ℕ) (entry : Entry)
    → Cached items stmt
    → Meant items uses stmt entry
    → Meant items (suc uses) stmt (record entry { refs = entry.refs +ℤ pos 1 })
retained-Meant items uses stmt entry cached (refs, inl (c, marked, closes)) = (
  ground (arith, +ℤ_parts entry.refs (pos 1), eq_of_parts (entry.refs +ℤ pos 1) (pos (suc uses))),
  inl (c, marked, closes),
)
retained-Meant items uses stmt entry cached (refs, inr (gone, state)) = absurd (gone cached)

fewer_refs :
    (uses : ℕ) (entry : Entry)
    → 0 < uses
    → entry.refs ≡ pos uses
    → entry.refs -ℤ pos 1 ≡ pos (uses - 1)
fewer_refs uses entry used refs =
    ground (arith, -ℤ_parts entry.refs (pos 1), eq_of_parts (entry.refs -ℤ pos 1) (pos (uses - 1)))

pub released-Meant :
    (items : List (String × ℕ)) (uses stmt : ℕ) (entry : Entry)
    → 0 < uses
    → Meant items uses stmt entry
    → Meant items (uses - 1) stmt (released entry)
released-Meant items uses stmt entry used (refs, inl (c, marked, closes)) =
    let fewer = fewer_refs uses entry used refs in
    if_cases (λ x. Meant items (uses - 1) stmt x)
      (leb_ℤ (entry.refs -ℤ pos 1) (pos 0) && entry.evicted) (λ last. absurd (ground arith))
      (λ _. (fewer, inl (c, marked, closes)))
released-Meant items uses stmt entry used (refs, inr (gone, inl (some_use, marked, closes))) =
    let fewer = fewer_refs uses entry used refs in
    if_cases (λ x. Meant items (uses - 1) stmt x)
      (leb_ℤ (entry.refs -ℤ pos 1) (pos 0) && entry.evicted)
      (λ last. (fewer, inr (gone, inr (ground arith, omega arith))))
      (λ more. (fewer, inr (gone, inl (ground arith, marked, closes))))
released-Meant items uses stmt entry used (refs, inr (gone, inr (none_use, closes))) =
    absurd (omega arith)

not_held : (k : ℕ) → (0 < k → ⊥) → k ≡ 0
not_held zero h = refl
not_held (suc k) h = absurd (h (omega arith))

module _ (items : List (String × ℕ)) (entries : List (ℕ × Entry)) (holds : List ℕ)
    (sound : IsSound items entries holds) where
  -- One entry and the number of its users change together.
  pub updated-IsSound :
      (stmt : ℕ) (old new : Entry) (holds' : List ℕ)
      → entry_of stmt entries ≡ some old
      → ((e : ℕ) → stmt ≢ e → count e holds' ≡ count e holds)
      → Meant items (count stmt holds') stmt new
      → IsSound items (insert ℕ_discrete stmt new entries) holds'
  updated-IsSound stmt old new holds' there others meant = record {
    meant = λ e x h. elim (insert-cases ℕ_discrete stmt e new entries x h) [
      | inl (same, is) ↦
          subst (λ e. Meant items (count e holds') e x) same
            (subst (λ x. Meant items (count stmt holds') stmt x) is meant)
      | inr (other, found) ↦
          subst (λ uses. Meant items uses e x) (sym (others e other)) (sound.meant e x found)
    ];
    held = λ e h. elim (ℕ_discrete stmt e) [
      | yes p ↦ entry-insert stmt e new entries (inr p)
      | no p ↦
          entry-insert stmt e new entries
            (inl (sound.held e (subst (λ (k : ℕ). 0 < k) (others e p) h)))
    ];
    stored = λ q e h. entry-insert stmt e new entries (inl (sound.stored q e h));
    one_query = sound.one_query;
  }

  pub retain-IsSound :
      (query : String) (stmt : ℕ)
      → item query items ≡ some stmt
      → IsSound items (retain stmt entries) (stmt ∷ holds)
  unfolding retain
  retain-IsSound query stmt found =
      let (entry, there) = sound.stored query stmt found in
      rw (retain, there)
        (updated-IsSound stmt entry (record entry { refs = entry.refs +ℤ pos 1 }) (stmt ∷ holds)
          there (λ e ne. count-cons_ne e stmt holds ne)
          (subst (λ uses. Meant items uses stmt (record entry { refs = entry.refs +ℤ pos 1 }))
            (sym (count-cons_self stmt holds))
            (retained-Meant items (count stmt holds) stmt entry (query, found)
              (sound.meant stmt entry there))))

  pub added-IsSound :
      (query : String) (stmt : ℕ)
      → item query items ≡ none
      → entry_of stmt entries ≡ none
      → IsSound
          (insert str_discrete query stmt items)
          (insert ℕ_discrete stmt (record { refs = pos 1; evicted = false; closes = 0 }) entries)
          (stmt ∷ holds)
  added-IsSound query stmt new fresh =
      let items' = insert str_discrete query stmt items in
      let entry : Entry = record { refs = pos 1; evicted = false; closes = 0 } in
      record {
        meant = λ e x h. elim (insert-cases ℕ_discrete stmt e entry entries x h) [
          | inl (same, is) ↦
              subst (λ e. Meant items' (count e (stmt ∷ holds)) e x) same
                (subst (λ x. Meant items' (count stmt (stmt ∷ holds)) stmt x) is new_meant)
          | inr (other, found) ↦
              subst (λ uses. Meant items' uses e x) (sym (count-cons_ne e stmt holds other))
                (Meant-change items items' (count e holds) e x
                  (λ c. (
                    c.0,
                    lookup-insert_ne str_discrete query c.0 stmt items (other_query c.0 e c.1)
                        ∙ c.1,
                  ))
                  (λ c. elim (insert-cases str_discrete query c.0 stmt items e c.1) [
                    | inl (_, q) ↦ absurd (other q)
                    | inr (_, old) ↦ (c.0, old)
                  ])
                  (sound.meant e x found))
        ];
        held = λ e h. elim (ℕ_discrete stmt e) [
          | yes p ↦ entry-insert stmt e entry entries (inr p)
          | no p ↦
              entry-insert stmt e entry entries
                (inl (sound.held e (subst (λ (k : ℕ). 0 < k) (count-cons_ne e stmt holds p) h)))
        ];
        stored = λ q e h. elim (insert-cases str_discrete query q stmt items e h) [
          | inl (_, same) ↦ entry-insert stmt e entry entries (inr same)
          | inr (_, old) ↦ entry-insert stmt e entry entries (inl (sound.stored q e old))
        ];
        one_query = λ q q' e h h'.
            one_text q q' e (insert-cases str_discrete query q stmt items e h)
              (insert-cases str_discrete query q' stmt items e h');
      }
    where
      other_query : (q : String) (e : ℕ) → item q items ≡ some e → query ≢ q
      other_query q e h same = cc

      unused : count stmt holds ≡ 0
      unused = not_held (count stmt holds) (λ h. let (x, there) = sound.held stmt h in cc)

      new_meant :
          Meant
            (insert str_discrete query stmt items)
            (count stmt (stmt ∷ holds))
            stmt
            (record { refs = pos 1; evicted = false; closes = 0 })
      new_meant = (
        ap pos (omega (arith, unused, count-cons_self stmt holds)),
        inl ((query, lookup-insert_self str_discrete query stmt items), refl, refl),
      )

      one_text :
          (q q' : String) (e : ℕ)
          → ((query ≡ q) × (stmt ≡ e)) ⊎ ((query ≢ q) × (item q items ≡ some e))
          → ((query ≡ q') × (stmt ≡ e)) ⊎ ((query ≢ q') × (item q' items ≡ some e))
          → q ≡ q'
      one_text q q' e (inl (a, b)) (inl (a', b')) = sym a ∙ a'
      one_text q q' e (inl (a, b)) (inr (a', b')) = let (x, there) = sound.stored q' e b' in cc
      one_text q q' e (inr (a, b)) (inl (a', b')) = let (x, there) = sound.stored q e b in cc
      one_text q q' e (inr (a, b)) (inr (a', b')) = sound.one_query q q' e b b'

-- Dropping other statements keeps a text and a statement new.
