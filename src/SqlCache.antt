-- ===== src/SqlCache.antt =====
-- sql_cache.go: compiled SQL kept under a key of the statement, and the compilation of a statement through
-- the cache. A dialect is its name and its compiler; `marshal` is json.Marshal.
pub mod Conditions
pub mod Keys
mod Args
mod Pieces
mod Bound
mod Rows
mod Selects
mod Hits
mod Escape
mod Tests
use oro.Base.{String, Option, none, some, false, Result, ok, err, if◌then◌else◌}
use oro.Base.Int.{ℤ}
use oro.Base.Text.{◌==◌, str_discrete}
use oro.QueryAst.{OroError, Any, Statement, CompiledSql}
use oro.Fifo.{Cache, new, get, set}
use oro.SqlCache.Keys.{lightweight_sql_cache_key}

-- sqlCache, which is nil for a size that is not positive
abbrev pub SqlCache : Type 0
SqlCache = Option (Cache String String)

pub new_sql_cache : ℤ → SqlCache
new_sql_cache max_size = new max_size false

-- sqlCache.get
pub get_sql : SqlCache → String → Option String
get_sql cache key = if key == "" then none else get str_discrete cache key

-- sqlCache.set
pub set_sql : SqlCache → String → String → SqlCache
set_sql cache key sql =
    if key == "" then cache else if sql == "" then cache else (set str_discrete cache key sql).0

pub record Dialect : Type 0 where
  pub name : String
  pub compile : Statement → Result OroError CompiledSql

-- a statement that is compiled and, under a key, put into the cache
pub compile_fresh :
    Dialect → Statement → Option String → SqlCache → SqlCache × Result OroError CompiledSql
unfolding set_sql
compile_fresh dialect statement key cache = elim (dialect.compile statement) [
  | err error ↦ (cache, err error)
  | ok compiled ↦ (elim key [ none ↦ cache | some k ↦ set_sql cache k compiled.sql ], ok compiled)
]

-- compileStatementSQL, with a connection
pub compile_statement_sql :
    (Any → Option String) → Dialect → Statement → SqlCache → SqlCache × Result OroError CompiledSql
unfolding get_sql compile_fresh
compile_statement_sql marshal dialect statement cache =
    elim (lightweight_sql_cache_key marshal dialect.name statement) [
      | none ↦ compile_fresh dialect statement none cache
      | some (key, args) ↦ elim (get_sql cache key) [
        | some sql ↦ (cache, ok (record { sql = sql; args = args }))
        | none ↦ compile_fresh dialect statement (some key) cache
      ]
    ]
