-- ===== src/Scheduler/Session.antt =====
-- What the scheduler relies on of the database server, and a transaction on it as a state with failure.
use Prim.Native.String.{String}
use lab_game.Prelude.{ℕ, suc, Bool, true, if◌then◌else◌, List, Option, none, some}
use lab_game.Prelude.Int.{ℤ}
use lab_game.Scheduler.Task.{Row, Database, Error, failed_call, failed_task, Result, ok, err}

-- The server's answers, by the number of the call: whether it fails, the instant that it reads, the rows that
-- other transactions hold locked, the id that it gives to a new row, and whether the deadline of a task passes first.
pub record Server : Type 0 where
  pub fault : ℕ → Option String
  pub clock : ℕ → ℤ
  pub locked : ℕ → ℕ → Bool
  pub sequence : ℕ → ℕ
  pub late : ℕ → Bool

-- A transaction in progress: the database as it sees it, whether a failed statement aborted it, the number of the
-- next call, and its now().
pub record Session (D : Type 0) : Type 0 where
  pub database : Database D
  pub aborted : Bool
  pub calls : ℕ
  pub now : ℤ

abbrev pub Tx : Type 0 → Type 0 → Type 0
Tx D A = Session D → Result A × Session D

-- Puts words and the task's id before an error.
abbrev pub wrap : {A : Type 0} → String → ℕ → Result A → Result A
wrap words id (ok a) = ok a
wrap words id (err e) = err (failed_task words id e)

module _ {D : Type 0} where
  abbrev pub pure : {A : Type 0} → A → Tx D A
  pure a s = (ok a, s)

  abbrev pub fail : {A : Type 0} → Error → Tx D A
  fail e s = (err e, s)

  infixl 5 ◌>>=◌ ◌>>◌
  abbrev pub ◌>>=◌ : {A B : Type 0} → Tx D A → (A → Tx D B) → Tx D B
  ◌>>=◌ m f s = elim (m s).0 [ ok a ↦ f a (m s).1 | err e ↦ (err e, (m s).1) ]

  abbrev pub ◌>>◌ : {A B : Type 0} → Tx D A → Tx D B → Tx D B
  m >> k = m >>= λ _. k

  abbrev pub wrapped : {A : Type 0} → String → ℕ → Tx D A → Tx D A
  wrapped words id m s = (wrap words id (m s).0, (m s).1)

  -- The error of a statement: every statement of an aborted transaction fails, and a failed one aborts it.
  unfoldable pub call : Server → Session D → Option String × Session D
  call v s =
      let next = record s { calls = suc s.calls } in
      if s.aborted
      then (
        some "current transaction is aborted, commands ignored until end of transaction block",
        next,
      )
      else elim (v.fault s.calls) [
        | none ↦ (none, next)
        | some e ↦ (some e, record next { aborted = true })
      ]

  abbrev pub change : (List Row → List Row) → Session D → Session D
  change f s = record s { database = record s.database { rows = f s.database.rows } }

  -- One statement on the table of tasks, with the words before its error.
  unfoldable pub exec : Server → String → (List Row → List Row) → Tx D (Unit {0})
  exec v words f s = elim (call v s).0 [
    | none ↦ (ok tt, change f (call v s).1)
    | some e ↦ (err (failed_call words e), (call v s).1)
  ]

  -- SELECT clock_timestamp()
  unfoldable pub read_settlement_instant : Server → Tx D ℤ
  read_settlement_instant v s = elim (call v s).0 [
    | none ↦ (ok (v.clock s.calls), (call v s).1)
    | some e ↦ (err (failed_call "scheduler: read settlement instant" e), (call v s).1)
  ]
