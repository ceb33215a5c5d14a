-- ===== src/Scheduler/Settle.antt =====
-- The settlement of a task: internal/scheduler/settle.go, but for the set of pending settlements.
pub mod Meaning
use Prim.Native.String.{String}
use lab_game.Prelude.{
  ℕ, suc, ◌-◌, ◌==◌, leb, if◌then◌else◌, List, map, filter, not, Option, none, some,
}
use lab_game.Prelude.Int.{ℤ, ◌+ℤ◌}
use lab_game.Scheduler.Task.{
  Task, Outcome, done, noop, failed, other, Row, pending, dead, Config, Recurrence, unknown_outcome,
}
use lab_game.Scheduler.Session.{Server, Tx, fail, ◌>>=◌, exec, read_settlement_instant}
use lab_game.Scheduler.Registry.{Entry}

-- UPDATE scheduled_task SET ... WHERE id = $1
unfoldable pub update_task : ℕ → (Row → Row) → List Row → List Row
update_task id f rows = map (λ r. if r.id == id then f r else r) rows

-- DELETE FROM scheduled_task WHERE id = $1
unfoldable pub delete_task : ℕ → List Row → List Row
delete_task id rows = filter (λ r. not (r.id == id)) rows

-- The SET clauses of the four statements.
abbrev pub set_run_at : ℤ → Row → Row
set_run_at at r = record r { run_at = at }

abbrev pub set_next : ℤ → Row → Row
set_next next r = record r { run_at = next; consecutive_failures = 0; last_error = none }

abbrev pub set_dead : ℕ → String → Row → Row
set_dead k reason r = record r { state = dead; consecutive_failures = k; last_error = some reason }

abbrev pub set_failed : ℕ → String → ℤ → Row → Row
set_failed k reason at r = record r {
  consecutive_failures = k;
  last_error = some reason;
  run_at = at;
}

-- The text of an error, or the empty text.
abbrev pub error_text : Option String → String
error_text none = ""
error_text (some e) = e

module _ {D : Type 0} (v : Server) (c : Config) where
  unfoldable pub settle_unregistered : ℕ → ℤ → Tx D (Unit {0})
  settle_unregistered id ceiling = do
    s ← read_settlement_instant v
    exec v "scheduler: settle unregistered" (update_task id (set_run_at (s +ℤ ceiling)))

  -- By the recurrence of the declaration.
  unfoldable pub settle_done_or_noop : Task → Option Recurrence → Tx D (Unit {0})
  settle_done_or_noop task none = exec v "scheduler: delete done task" (delete_task task.id)
  settle_done_or_noop task (some r) = do
    s ← read_settlement_instant v
    exec v "scheduler: reschedule recurrent task"
        (update_task task.id (set_next (r.cadence task.run_at s)))

  unfoldable pub settle_failed : Task → Option Recurrence → Option String → Tx D (Unit {0})
  settle_failed task none e =
      let k = suc task.consecutive_failures in
      if leb c.retry_max_attempts k
      then exec v "scheduler: give up on task" (update_task task.id (set_dead k (error_text e)))
      else (do
        s ← read_settlement_instant v
        exec v "scheduler: settle failed one-shot"
            (update_task task.id (set_failed k (error_text e) (s +ℤ c.exponential (k - 1)))))
  settle_failed task (some r) e =
      let k = suc task.consecutive_failures in
      do
        s ← read_settlement_instant v
        exec v "scheduler: settle failed recurrent"
            (update_task task.id (set_failed k (error_text e) (r.cadence task.run_at s)))

  unfoldable pub settle_outcome : Task → Entry D → Outcome → Option String → Tx D (Unit {0})
  settle_outcome task decl done e = settle_done_or_noop task decl.recurrence
  settle_outcome task decl noop e = settle_done_or_noop task decl.recurrence
  settle_outcome task decl failed e = settle_failed task decl.recurrence e
  settle_outcome task decl other e = fail unknown_outcome
