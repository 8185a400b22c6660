-- ===== src/Lib.antt =====
-- Oro is an ORM for Go. Query builders produce statements, a driver's dialect compiles a statement to
-- SQL with placeholders and the list of their arguments, and database/sql runs it. Schemas are
-- synchronised by comparing the table in the database with the one the model asks for; the changes go
-- to the dialect, which writes them as SQL. Strategies pick the shard of a query, and small caches keep
-- compiled and prepared things. Extensions build on the public interface: nested sets keep trees as
-- intervals in a table.
--
-- Which file models what (the children of a module hold its proofs and its tests):
--   Base        shared names, lists, association lists, integers and texts
--   QueryAst    internal/queryast/types.go: SelectAST is SelectAst, and so on; a field of type `any` is an
--               `Any`, whose constructors are the dynamic types that the code tells apart
--   Operators   where.go: IsSafeConditionOperator, IsSafeColumnOperator, NormalizeConditionOperator
--   Mysql       driver/mysql/dialect.go: compileX is compile_x. Ident quotes names and writes JSON paths
--               (internal/queryutil), Scan is how MySQL reads a text, Clauses and Conditions are the parts
--               that hold no query, Select the block that calls itself, Write the statements that change
--               rows, Schema the schema changes (and internal/sqlformat/default.go)
--   Meta        internal/meta/types.go: the table specifications
--   SyncDiff    internal/syncdiff/diff.go: DiffWithSnapshot is diff_with_snapshot
--   Fifo        internal/fifocache/cache.go: a method is a function from the cache to the new cache and
--               the calls of the callback
--   Shard       internal/shardstrategy/strategy.go: the strategies' Pick is pick_mod, pick_hash, pick_range
--   StatementCache  statement_cache.go: a critical section under the mutex is one function, Steps lets any
--               number of users take them in any order; a statement is the number of its entry
--   Transaction transaction.go: a `World` has the states that the handles (clones of a DB) point to and the
--               commands sent so far; the driver, the event handlers and the wait between attempts are a
--               `Driver`; a handler may send commands and open and close handles, its `Effects`; Errors tells which errors are retried
--   EventBus    internal/eventbus/bus.go and event.go: On gives the name and the id that the Unsubscribe
--               closes over; handlers are run by an argument and may change the bus
--   MemCache    internal/memcache/store.go: a method is a function from the store to the new store and its
--               result, at a time that is an argument; Get is get_read and, where it found an expired
--               item, get_forget, between which other calls may come
--   SqlCache    sql_cache.go: Conditions and Keys make the key of a statement and the arguments of a hit, and
--               compileStatementSQL takes the cache to the new cache and its result
--   NestedSet   extensions/nestedset: a table of rows; createAtNode, createRoot, DeleteSubtree and move are
--               functions on it, made of the updates that the code sends
--
-- A Go map is an association list or, where only its keys in order matter, a list; an error is a value of
-- `Result`. Integers that the code compares or shifts are unbounded here (positions, sizes, limits);
-- the bounds of int64 are written out in Shard, the wrap of a uint64 in EventBus. The only fuel is that of
-- the decimal digits in Base/Text, one more than the number, which has fewer digits than that.
--
-- Arguments of the definitions: json.Marshal (`marshal`), the hash of a shard (`sum64`), and fmt.Sprint and
-- String() of values that the code does not tell apart (`sprint`, `spelled`), the driver and the handlers of
-- a transaction (`driver`), the handlers of the bus (`call`), and the clock (`now`). Not modelled: the database
-- itself (an update of the nested sets is a map over the rows of one scope, in one transaction, and its
-- errors are left out), locks (what is done under one hold of a mutex is one step), the builders,
-- reflection over models, the other dialects, connections, the timeouts of transactions, and the cache of
-- rows.
pub mod Base
pub mod Fifo
pub mod QueryAst
pub mod Meta
pub mod SyncDiff
pub mod Operators
pub mod Mysql
pub mod NestedSet
pub mod Shard
pub mod StatementCache
pub mod Transaction
pub mod EventBus
pub mod MemCache
pub mod SqlCache
