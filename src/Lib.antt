-- ===== src/Lib.antt =====
-- lab-game, a chat game on an endless hexagonal maze: the geometry of the grid, the placement of the
-- gate chunks, the deterministic generation of a chunk, the limiter of outbound calls,
-- the scheduler of tasks, the ledger of accounts and items, and the ingestion of updates.
--
-- Parts and files:
--   Hexgrid models internal/hexgrid. Coord.antt has cells, chunks, directions and the distance (coord.go,
--   chunk.go, Distance of lattice.go), Face.antt the canonical faces (face.go), Lattice.antt the
--   super-lattice of chunks: Center, Locate, At, LocalCells and Border (lattice.go).
--   Gate models internal/gate. Spiral.antt has the spiral order of chunks and its index (spiral.go),
--   Next.antt the rule that places a new gate (next.go, errors.go), Depth.antt the distance of a cell to
--   the nearest gate (depth.go). Next scans Spiral; Depth visits rings of Spiral round the chunk that
--   Locate gives.
--   Maze models internal/maze. Draw.antt has the reductions of a random stream (draw.go), Graph.antt the
--   cell graph of a chunk (chunkgraph.go), Edges.antt and Carve the five algorithms for a spanning
--   structure (algorithms.go, algorithm.go), Params.antt the inputs (params.go), Islands.antt the island
--   cells and the extra passages (island.go, cycles.go, chunktype.go), Seed.antt the keys of the streams
--   (seed.go), Portal.antt the passages of a border (portal.go), Map.antt and Generate.antt the maps and
--   the passes of Generate (map.go, generate.go). Generate uses all of them.
--   Tg models parts of internal/tg: Schedule.antt the window schedules and Limiter.antt the rate limiter
--   over them (limit.go, with the types of class.go, gate.go and internal/config/transport.go), Attempt.antt
--   the outcome of an attempt (classifyAttempt of retry.go).
--   Scheduler models internal/scheduler. Cadence.antt has the cadence (cadence.go), Task.antt the types
--   (task.go, observe.go), Registry.antt the declarations (registry.go), Session.antt the calls of a
--   transaction, Claim.antt the discovery and the reclaim of due rows (claim.go), Settle.antt the
--   settlements (settle.go), Execute.antt the cycle of one task (execute.go), Drain.antt the deferred
--   settlements (settle.go), Worker.antt one run over a batch (worker.go), Schedule.antt, Reconcile.antt
--   and Liveness.antt the other statements on the table (schedule.go, reconcile.go, liveness.go). A run
--   drains, discovers and executes. Soundness follows the table over such runs, GivesUp a task over calls of
--   executeOne.
--   Store models internal/store. Books.antt has the tables, Documents.antt the documents of a batch
--   (basis.go, event.go), Post.antt the posting of a batch (post.go), Move.antt the movement of items
--   (move.go), which posts its batch with a hook that writes the movements.
--   Ingest models internal/ingest. Kind.antt has the table of kinds (kind.go), Router.antt the updates and
--   their routes (router.go, operation.go), State.antt the tables and observations (dead.go, observe.go),
--   Attempt.antt the attempts and the settlements (attempt.go, settle.go, offset.go), Loop.antt a cycle of
--   the loop (loop.go), Gate.antt the gate of outbound calls (gate.go). A cycle reads the offset, asks for
--   updates, and processes each by the handler of its kind.
--   Prelude passes library names on and has the tests, lists, integers and membership that the parts share.
--
-- Functions keep the name of their Go function in snake case, types keep theirs.
--
-- Numbers: a Go int32 is an integer, and every conversion to int32 and every int32 sum is wrapped to 32
-- bits (wrap32). A sum or product of Go's int64 that can leave it is wrapped to 64 bits (wrap64), once for a
-- polynomial, before its value is divided or compared; sums and distances of int32 coordinates stay in int64,
-- and a conversion to int32 gives the same bits with or without the wrap before it. The validation of the
-- parameters has no upper bound for a radius, so the theorems state theirs: below 2^30 the products of Locate,
-- CellCount, the bounds of LocalCells and, up to that ring, the index of the spiral do not wrap; from about
-- 1.5 * 10^9 on the loops of Locate may find nothing. Depth also needs the product of its last ring with the cells of a
-- chunk to stay in int64. Division and remainder are truncated as in Go.
-- Instants are integers of nanoseconds, not rounded to the microseconds of the database, and durations int64
-- values of them: Time.Sub saturates (saturate64). A uint64 of internal/maze/draw.go is a natural number, and
-- its sums are taken modulo 2^64.
-- An amount of the ledger is checked as a decimal, and then it is a whole number of 10^-5.
--
-- State and loops: code that draws takes and returns the number of values drawn so far (Draws); its results
-- are a value, Go's panic on an index out of range, or a cut-off. A loop without a structural bound takes
-- fuel. Depth needs as many iterations as the distances to one gate and the radius add up to, and one more. A
-- bounded draw needs as many tries as a fair stream has values in a row that it may reject. The
-- backtracker and the growing tree take two iterations for each cell, Prim and Wilson's outer loop one,
-- Wilson's random walk as many as the patience of the stream; isqrt takes its argument. Where fuel is not
-- shown to be enough below, a run that is cut off is not excluded.
--
-- The database: the scheduler's table is a list of rows, and each call is numbered. A Server says for the
-- number of a call whether it fails, what the clock reads, which rows others have locked and which handlers
-- are late. A transaction works on its own copy of the database, which COMMIT puts back; after a failed
-- statement it is aborted, and only a savepoint takes it back. The ledger is one transaction at a time: its
-- constraints are tested (of item_movement all but the foreign keys to item, scope and journal_entry), the
-- newest row of a table stands first, and after an error the caller rolls back.
-- The ingestion numbers its calls likewise; a statement's effects are written down where its COMMIT succeeds.
--
-- Parameters: SHA-256 and ChaCha8 (Crypto), the arithmetic of shopspring/decimal (DecimalOps), the handlers
-- of tasks and updates, the delay of a retry, the JSON check of a payload, strconv.Itoa and ParseInt, and
-- the text of an error. A fair stream is one that gives, for each bound, an accepted value within a given
-- number of tries.
--
-- Not modelled: internal/world, internal/chat, and the owners and the catalog of internal/store; timers,
-- goroutines and shutdown of the scheduler; statements of the ledger that fail for other reasons than a
-- constraint, and the range of numeric(30,5); the requests of the Telegram client, the timers and the
-- shutdown of the ingestion, the health endpoints and the configuration, which are effects and their order;
-- the tools and guards for tests; the text of most errors
-- and of String.
pub mod Prelude
pub mod Hexgrid
pub mod Gate
pub mod Maze
pub mod Tg
pub mod Scheduler
pub mod Store
pub mod Ingest
