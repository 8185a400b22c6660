-- ===== src/StatementCache.antt =====
-- statement_cache.go: prepared statements kept by their SQL text, with reference counts. A statement
-- that `PrepareContext` returns is a number, and names the entry that holds it. A critical section
-- under the mutex is one function from state to state; calls of `Stmt.Close` are counted per entry.
pub mod Steps
mod Counts
mod Entries
mod Updates
mod Safety
mod Bounds
mod Tests
use oro.Base.{
  ℕ, zero, suc, ◌+◌, Bool, true, false, ◌&&◌, String, List, [], ◌∷◌, ◌++◌, Option, none, some,
  if◌then◌else◌, leb, length, ℕ_discrete,
}
use oro.Base.Int.{ℤ, pos, negsuc, ◌+ℤ◌, ◌-ℤ◌, leb_ℤ}
use oro.Base.Dict.{lookup, insert, delete, values}
use oro.Base.Text.{str_discrete}

-- cachedStatement, with the number of times that its statement was closed
pub record Entry : Type 0 where
  pub refs : ℤ
  pub evicted : Bool
  pub closes : ℕ

-- statementCache, and the entries that it or a user points to.
pub record Cache : Type 0 where
  pub max_size : ℕ
  pub items : List (String × ℕ)
  pub order : List String
  pub entries : List (ℕ × Entry)

-- newStatementCache: no cache for a size that is not positive
pub new_statement_cache : ℤ → Option Cache
new_statement_cache (pos (suc n)) =
    some (record { max_size = suc n; items = []; order = []; entries = [] })
new_statement_cache (pos zero) = none
new_statement_cache (negsuc n) = none

abbrev pub entry_of : ℕ → List (ℕ × Entry) → Option Entry
entry_of = lookup ℕ_discrete

abbrev pub item : String → List (String × ℕ) → Option ℕ
item = lookup str_discrete

-- `entry.refs++`
pub retain : ℕ → List (ℕ × Entry) → List (ℕ × Entry)
retain stmt entries = elim (entry_of stmt entries) [
  | none ↦ entries
  | some entry ↦ insert ℕ_discrete stmt (record entry { refs = entry.refs +ℤ pos 1 }) entries
]

abbrev pub close_entry : Entry → Entry
close_entry entry = record entry { closes = suc entry.closes }

-- what happens to an entry that leaves the cache
abbrev pub drop_entry : Entry → Entry
drop_entry entry =
    if leb_ℤ entry.refs (pos 0) then close_entry entry else record entry { evicted = true }

pub drop_statement : ℕ → List (ℕ × Entry) → List (ℕ × Entry)
drop_statement stmt entries = elim (entry_of stmt entries) [
  | none ↦ entries
  | some entry ↦ insert ℕ_discrete stmt (drop_entry entry) entries
]

-- evictLocked, over the order that is left
pub evict_locked :
    ℕ
    → List String
    → List (String × ℕ)
    → List (ℕ × Entry)
    → List String × List (String × ℕ) × List (ℕ × Entry)
unfolding drop_statement
evict_locked max_size [] items entries = ([], items, entries)
evict_locked max_size (oldest ∷ order) items entries = elim (leb max_size (length items)) [
  | false ↦ (oldest ∷ order, items, entries)
  | true ↦ elim (item oldest items) [
    | none ↦ evict_locked max_size order items entries
    | some stmt ↦
        evict_locked max_size order (delete str_discrete oldest items) (drop_statement stmt entries)
  ]
]

-- The first critical section of `acquire`: the statement, if the cache has it.
pub acquire_cached : String → Cache → Cache × Option ℕ
unfolding retain
acquire_cached query cache = elim (item query cache.items) [
  | none ↦ (cache, none)
  | some stmt ↦ (record cache { entries = retain stmt cache.entries }, some stmt)
]

-- a new entry, after the eviction
pub add_statement : String → ℕ → Cache → Cache
unfolding evict_locked
add_statement query stmt cache =
    let (order, items, entries) =
      evict_locked cache.max_size cache.order cache.items cache.entries in
    record cache {
      items = insert str_discrete query stmt items;
      order = order ++ query ∷ [];
      entries =
          insert ℕ_discrete stmt (record { refs = pos 1; evicted = false; closes = 0 }) entries;
    }

-- The second critical section, with the statement that was prepared meanwhile. The result is the
-- statement that the caller gets and the one that is closed because the race for the text was lost.
pub acquire_prepared : String → ℕ → Cache → Cache × ℕ × Option ℕ
unfolding retain add_statement
acquire_prepared query stmt cache = elim (item query cache.items) [
  | some cached ↦ (record cache { entries = retain cached cache.entries }, cached, some stmt)
  | none ↦ (add_statement query stmt cache, stmt, none)
]

abbrev pub released : Entry → Entry
released entry =
    let less = record entry { refs = entry.refs -ℤ pos 1 } in
    if leb_ℤ less.refs (pos 0) && less.evicted then close_entry less else less

-- the function that `releaser` returns
pub release : ℕ → Cache → Cache
release stmt cache = elim (entry_of stmt cache.entries) [
  | none ↦ cache
  | some entry ↦ record cache { entries = insert ℕ_discrete stmt (released entry) cache.entries }
]

pub close_all : List ℕ → List (ℕ × Entry) → List (ℕ × Entry)
close_all [] entries = entries
close_all (stmt ∷ stmts) entries = elim (entry_of stmt entries) [
  | none ↦ close_all stmts entries
  | some entry ↦ close_all stmts (insert ℕ_discrete stmt (close_entry entry) entries)
]

-- `close`, less the error that closing a statement may give
pub close : Cache → Cache
unfolding close_all
close cache = record cache {
  items = [];
  order = [];
  entries = close_all (values cache.items) cache.entries;
}
