-- ===== src/StatementCache/Tests.antt =====
-- A cache of one statement under two users.
use oro.Base.{ℕ, ◌≤◌, true, [], ◌∷◌, some, ◌≡◌, refl, arith, length, ℕ_discrete, Distinct}
use oro.Base.Int.{pos, ◌+ℤ◌, ◌-ℤ◌}
use oro.Base.Dict.{lookup, insert, delete, keys}
use oro.Base.Text.{str_discrete}
use oro.StatementCache.{
  Entry, Cache, entry_of, item, acquire_cached, acquire_prepared, add_statement, release,
  evict_locked, retain, drop_statement,
}
use oro.StatementCache.Steps.{System, Step, prepare, release_one, Reach, here, next, count}
use oro.StatementCache.Entries.{Cached}
use oro.StatementCache.Safety.{start, held-open, gone-closed}
use oro.StatementCache.Bounds.{reached-Fits}

abbrev first : System
first = record {
  cache = (acquire_prepared "a" 1 (start 1).cache).0;
  holds = (acquire_prepared "a" 1 (start 1).cache).1 ∷ [];
}

-- statement 1 is evicted while it is in use
abbrev second : System
second = record {
  cache = (acquire_prepared "b" 2 first.cache).0;
  holds = (acquire_prepared "b" 2 first.cache).1 ∷ first.holds;
}

abbrev third : System
third = record {
  cache = release 1 second.cache;
  holds = oro.StatementCache.Steps.remove 1 second.holds;
}

to_second : Reach (start 1) second
unfolding acquire_prepared add_statement evict_locked retain drop_statement lookup insert delete
    str_discrete ℕ_discrete
to_second = next (next here (prepare "a" 1 refl)) (prepare "b" 2 refl)

to_third : Reach (start 1) third
unfolding acquire_prepared add_statement evict_locked retain drop_statement lookup insert delete
    str_discrete ℕ_discrete
to_third = next to_second (release_one 1 (omega arith))

held-open_example :
    (entry : Entry) × (entry_of 1 second.cache.entries ≡ some entry)
    × (entry.closes ≡ 0)
    × (entry.refs ≡ pos (count 1 second.holds))
unfolding acquire_prepared add_statement evict_locked retain drop_statement lookup insert delete
    str_discrete ℕ_discrete
held-open_example = held-open 1 second 1 to_second (omega arith)

abbrev closed_entry : Entry
closed_entry = record { refs = pos 0; evicted = true; closes = 1 }

gone-closed_example :
    (1 ≤ 1) × ((Cached third.cache.items 1 → ⊥) → count 1 third.holds ≡ 0 → ◌≡◌ {A = ℕ} 1 1)
unfolding acquire_prepared add_statement evict_locked retain drop_statement release lookup insert
    delete str_discrete ℕ_discrete ◌+ℤ◌ ◌-ℤ◌
gone-closed_example = gone-closed 1 third 1 closed_entry to_third refl

reached-Fits_example :
    (length third.cache.items ≤ 1)
    × (third.cache.order ≡ keys third.cache.items)
    × Distinct (keys third.cache.items)
reached-Fits_example = reached-Fits 1 third (omega arith) to_third
