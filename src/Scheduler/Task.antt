-- ===== src/Scheduler/Task.antt =====
-- The values of the scheduler: internal/scheduler/task.go, registry.go, observe.go and settle.go, with the row of
-- internal/store/migrations/00002_scheduler.sql.
use Prim.Native.String.{String}
use lab_game.Prelude.{ℕ, List, Option}
use lab_game.Prelude.Int.{ℤ}

-- An id is only compared.
pub record Task : Type 0 where
  pub id : ℕ
  pub type : String
  pub instance_key : String
  pub payload : String
  pub run_at : ℤ
  pub consecutive_failures : ℕ

-- A value of Go's int outside the three constants is `other`.
pub data Outcome : Type 0 where
  done noop failed other : Outcome

pub data FailureKind : Type 0 where
  failure_none failure_handler failure_unregistered failure_deadline failure_rolled_back
        failure_panic :
      FailureKind

pub record Observation : Type 0 where
  pub type : String
  pub lag : ℤ
  pub outcome : Outcome
  pub failure : FailureKind
  pub batch_size : ℕ
  pub consecutive_failures : ℕ

-- The next occurrence from the previous one and an instant.
abbrev pub Cadence : Type 0
Cadence = ℤ → ℤ → ℤ

pub record Recurrence : Type 0 where
  pub cadence : Cadence
  pub config_key : String

pub data State : Type 0 where
  pending dead : State

-- A row of scheduled_task. A null column is `none`.
pub record Row : Type 0 where
  pub id : ℕ
  pub type : String
  pub instance_key : Option String
  pub payload : String
  pub run_at : ℤ
  pub state : State
  pub consecutive_failures : ℕ
  pub last_error : Option String

-- The database: the table of tasks, and whatever else the handlers write.
pub record Database (D : Type 0) : Type 0 where
  pub rows : List Row
  pub others : D

-- A call on the database fails with a text.
pub data Error : Type 0 where
  failed_call : String → String → Error
  failed_task : String → ℕ → Error → Error
  unknown_outcome unknown_type invalid_delay duplicate_task invalid_payload : Error

pub data Result (A : Type 0) : Type 0 where
  ok : A → Result A
  err : Error → Result A

pub record PendingSettlement : Type 0 where
  pub id : ℕ
  pub run_at : ℤ
  pub consecutive_failures : ℕ
  pub recurrence : Option Recurrence
  pub reason : String

-- The part of config.Scheduler that a worker reads. `exponential` is the delay of backoff.Exponential for the
-- configured base, ceiling and factor, by the number of the attempt: it is computed in floating point.
pub record Config : Type 0 where
  pub poll_interval : ℤ
  pub claim_limit : ℕ
  pub retry_max_attempts : ℕ
  pub retry_max_delay : ℤ
  pub task_timeout : ℤ
  pub exponential : ℕ → ℤ
