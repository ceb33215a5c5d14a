-- ===== src/Scheduler/Execute.antt =====
-- The execution cycle of one task: internal/scheduler/execute.go.
pub mod Handle
pub mod Handled
pub mod Attempts
pub mod Claimed
pub mod Refines
use Prim.Native.String.{String, ◌++◌}
use lab_game.Prelude.{
  ℕ, suc, ◌==◌, ◌&&◌, not, Bool, true, false, if◌then◌else◌, List, [], ◌∷◌, filter, Option, none,
  some,
}
use lab_game.Prelude.Int.{ℤ, ◌-ℤ◌}
use lab_game.Scheduler.Task.{
  Task, Outcome, done, noop, failed, other, FailureKind, Observation, failure_none, failure_handler,
  failure_unregistered, failure_deadline, failure_rolled_back, failure_panic, Database, Config,
  Recurrence, PendingSettlement, Error, failed_call, failed_task, Result, ok, err,
}
use lab_game.Scheduler.Session.{
  Server, Session, Tx, pure, ◌>>=◌, ◌>>◌, wrap, wrapped, exec, read_settlement_instant, call,
}
use lab_game.Scheduler.Registry.{Entry, declaration}
use lab_game.Scheduler.Settle.{settle_outcome, settle_unregistered, error_text}
use lab_game.Scheduler.Claim.{reclaim}
use lab_game.Scheduler.Execute.Handle.{HandlerResult, run_handler_with_savepoint}

-- The committed database, the number of the next call, and the worker: its pending settlements, one for each id,
-- and what it reported to its observer, the latest first.
pub record World (D : Type 0) : Type 0 where
  pub database : Database D
  pub calls : ℕ
  pub pending : List PendingSettlement
  pub observed : List Observation

abbrev pub without : ℕ → List PendingSettlement → List PendingSettlement
without id ps = filter (λ p. not (p.id == id)) ps

-- The deferred settlement of an attempt that failed.
abbrev pub deferred : Task → Option Recurrence → String → PendingSettlement
deferred task recurrence reason = record {
  id = task.id;
  run_at = task.run_at;
  consecutive_failures = task.consecutive_failures;
  recurrence = recurrence;
  reason = reason;
}

abbrev pub failed_as : FailureKind → Task → Observation → Observation
failed_as kind task o = record o {
  outcome = failed;
  failure = kind;
  consecutive_failures = suc task.consecutive_failures;
}

-- The switch of settleAndAfter: the outcome, the failure and the error that are settled.
unfoldable pub classify : HandlerResult → Outcome × FailureKind × Option String
classify r = if r.panicked then (failed, failure_panic, r.handler_err) else elim r.release_err [
  | some e ↦ (failed, failure_rolled_back, some e)
  | none ↦ elim r.handler_err [
    | some e ↦ (failed, failure_handler, some e)
    | none ↦ (r.outcome, failure_none, none)
  ]
]

abbrev pub counted : Outcome → Task → ℕ
counted failed task = suc task.consecutive_failures
counted done task = 0
counted noop task = 0
counted other task = 0

abbrev pub is_some : {A : Type 0} → Option A → Bool
is_some none = false
is_some (some a) = true

-- The observation before the attempt is settled.
abbrev pub started : Task → ℤ → ℕ → Observation
started task t batch = record {
  type = task.type;
  lag = t -ℤ task.run_at;
  outcome = done;
  failure = failure_none;
  batch_size = batch;
  consecutive_failures = 0;
}

module _ {D : Type 0} where
  unfoldable pub enqueue_pending : PendingSettlement → World D → World D
  enqueue_pending p w = record w { pending = p ∷ without p.id w.pending }

  abbrev pub observe_task : Observation → World D → World D
  observe_task o w = record w { observed = o ∷ w.observed }

  -- BEGIN
  abbrev pub begin : Server → World D → Session D
  begin v w = record {
    database = w.database;
    aborted = false;
    calls = suc w.calls;
    now = v.clock w.calls;
  }

  -- The calls that a transaction made were made, also when it is rolled back by one more.
  abbrev pub after : Session D → World D → World D
  after s w = record w { calls = s.calls }

  abbrev pub rollback : Session D → World D → World D
  rollback s w = record w { calls = suc s.calls }

  -- The error of COMMIT with the world after it. An aborted transaction is rolled back and reported.
  unfoldable pub commit : Server → Session D → World D → Option String × World D
  commit v s w = elim (call v s).0 [
    | none ↦ (none, record w { database = s.database; calls = suc s.calls })
    | some e ↦ (some e, record w { calls = suc s.calls })
  ]

  -- From the settlement's result on.
  unfoldable pub finish :
      Server
      → Task
      → Option Recurrence
      → Outcome
      → FailureKind
      → Observation
      → Result (Unit {0})
      → Session D
      → World D
      → Result (Unit {0}) × World D
  finish v task recurrence outcome kind o (err e) s w =
      (err (failed_task "scheduler: settle task" task.id e), rollback s w)
  finish v task recurrence outcome kind o (ok tt) s w = elim (commit v s w).0 [
    | none ↦ (
      ok tt,
      observe_task
          (record o {
            outcome = outcome;
            failure = kind;
            consecutive_failures = counted outcome task;
          })
          (commit v s w).1,
    )
    | some e ↦ (
      ok tt,
      observe_task (failed_as failure_rolled_back task o) (
          enqueue_pending (deferred task recurrence ("commit failed: " ++ e))
            (rollback (record s { calls = suc s.calls }) w)),
    )
  ]

  unfoldable pub settle_and_after :
      Server
      → Config
      → Session D
      → Task
      → Entry D
      → HandlerResult
      → Observation
      → World D
      → Result (Unit {0}) × World D
  settle_and_after v c s task decl r o w =
      let (outcome, kind, e) = classify r in
      let settled = settle_outcome v c task decl outcome e s in
      let kept = finish v task decl.recurrence outcome kind o settled.0 settled.1 w in
      if r.panicked && is_some r.release_err
      then (
        ok tt,
        observe_task (failed_as failure_panic task o) (
            enqueue_pending (deferred task decl.recurrence (error_text r.handler_err)) (after s w)),
      )
      else kept

  -- The refusal of a task whose type is not declared.
  unfoldable pub refuse :
      Server → Config → Session D → Task → Observation → World D → Result (Unit {0}) × World D
  refuse v c s task o w =
      let settled = settle_unregistered v c task.id c.retry_max_delay s in
      let committed = commit v settled.1 w in
      elim settled.0 [
        | err e ↦ (
          err (failed_task "scheduler: settle unregistered task" task.id e),
          rollback settled.1 w,
        )
        | ok _ ↦ elim committed.0 [
          | some e ↦ (
            err (failed_task "scheduler: commit task" task.id (failed_call "" e)),
            record committed.1 { calls = suc committed.1.calls },
          )
          | none ↦ (
            ok tt,
            observe_task
                (record o {
                  outcome = failed;
                  failure = failure_unregistered;
                  consecutive_failures = task.consecutive_failures;
                })
                committed.1,
          )
        ]
      ]

  -- The handler's goroutine, and the select between its result and the deadline. A breach abandons the
  -- transaction, and one call from another connection terminates it.
  unfoldable pub run_declared :
      Server
      → Config
      → Session D
      → Task
      → Entry D
      → Observation
      → World D
      → Result (Unit {0}) × World D
  run_declared v c s task decl o w =
      let r = run_handler_with_savepoint v decl.handler task s in
      let settled = settle_and_after v c r.1 task decl r.0 o w in
      if v.late s.calls
      then (
        ok tt,
        observe_task (failed_as failure_deadline task o)
            (enqueue_pending (deferred task decl.recurrence "deadline exceeded") (rollback s w)),
      )
      else settled

  unfoldable pub read_execution_instant : Server → ℕ → Option Task → Tx D (Option (Task × ℤ))
  read_execution_instant v id none = pure none
  read_execution_instant v id (some task) = do
    t ← wrapped "scheduler: read execution instant for task" id (read_settlement_instant v)
    pure (some (task, t))

  -- From BEGIN to the execution instant: none where the row was skipped.
  unfoldable pub open_task : Server → ℕ → Tx D (Option (Task × ℤ))
  open_task v id = do
    wrapped "scheduler: set timeouts for task" id (exec v "" (λ rows. rows))
    found ← wrapped "scheduler: reclaim task" id (reclaim v id)
    read_execution_instant v id found

  -- The row was taken, settled, or moved on.
  unfoldable pub skip : Server → Session D → World D → Result (Unit {0}) × World D
  skip v s w =
      (elim (commit v s w).0 [ none ↦ ok tt | some e ↦ err (failed_call "" e) ], (commit v s w).1)

  unfoldable pub attempt_task :
      Server
      → Config
      → List (Entry D)
      → ℕ
      → Session D
      → World D
      → Option (Task × ℤ)
      → Result (Unit {0}) × World D
  attempt_task v c decls batch s w none = skip v s w
  attempt_task v c decls batch s w (some (task, t)) =
      let o = started task t batch in
      elim (declaration decls task.type) [
        | none ↦ refuse v c s task o w
        | some decl ↦ run_declared v c s task decl o w
      ]

  -- The connection is acquired and the transaction begun by one call each.
  unfoldable pub execute_one :
      Server → Config → List (Entry D) → ℕ → ℕ → World D → Result (Unit {0}) × World D
  execute_one v c decls id batch w =
      let acquired = record w { calls = suc w.calls } in
      let s = begin v acquired in
      let opened = open_task v id s in
      elim (v.fault w.calls) [
        | some e ↦ (
          err (failed_task "scheduler: acquire connection for task" id (failed_call "" e)),
          acquired,
        )
        | none ↦ elim (v.fault acquired.calls) [
          | some e ↦ (
            err (failed_task "scheduler: begin task" id (failed_call "" e)),
            record w { calls = suc acquired.calls },
          )
          | none ↦ elim opened.0 [
            | err e ↦ (err e, rollback opened.1 w)
            | ok found ↦ attempt_task v c decls batch opened.1 w found
          ]
        ]
      ]
