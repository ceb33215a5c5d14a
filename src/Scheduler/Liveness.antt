-- ===== src/Scheduler/Liveness.antt =====
-- The record of the process being alive, and the shift of overdue tasks after a downtime:
-- internal/scheduler/liveness.go.
use Prim.Native.String.{String}
use lab_game.Prelude.{ℕ, suc, Bool, true, false, if◌then◌else◌, List, count, Option, none, some}
use lab_game.Prelude.Int.{ℤ, pos, ◌+ℤ◌, ◌-ℤ◌, ◌/ℤ◌, ◌%ℤ◌, ltb_ℤ, eqb_ℤ}
use lab_game.Scheduler.Task.{Row, Database, Error, failed_call, Result, ok, err}
use lab_game.Scheduler.Session.{Server}
use lab_game.Scheduler.Claim.{is_due}
use lab_game.Scheduler.Drain.{update_where}

pub record Downtime : Type 0 where
  pub gap : ℤ
  pub shifted : ℕ
  pub seeded : Bool

-- The tasks, the row of process_liveness, and the number of the next call.
pub record Living (D : Type 0) : Type 0 where
  pub database : Database D
  pub seen_at : Option ℤ
  pub calls : ℕ

module _ (v : Server) (threshold : ℤ) where
  -- One call of the transaction: its error rolls everything back.
  abbrev pub step : {A : Type 0} → String → ℕ → Result A × ℕ → Result A × ℕ
  step words n rest = elim (v.fault n) [
    | none ↦ rest
    | some e ↦ (err (failed_call words e), suc (suc n))
  ]

  abbrev pub downtime : Option ℤ → ℤ → List Row → Downtime
  downtime none now rows = record { gap = pos 0; shifted = 0; seeded = true }
  downtime (some seen) now rows = record {
    gap = now -ℤ seen;
    shifted = if ltb_ℤ threshold (now -ℤ seen) then count (is_due now) rows else 0;
    seeded = false;
  }

  abbrev pub shifts : Option ℤ → ℤ → Bool
  shifts none now = false
  shifts (some seen) now = ltb_ℤ threshold (now -ℤ seen)

  abbrev pub absorbed : Option ℤ → ℤ → List Row → List Row
  absorbed none now rows = rows
  absorbed (some seen) now rows =
      if ltb_ℤ threshold (now -ℤ seen)
      then update_where (is_due now) (λ r. record r { run_at = r.run_at +ℤ (now -ℤ seen) }) rows
      else rows

module _ {D : Type 0} (v : Server) (threshold : ℤ) where
  -- Begin, the lock with the gap, the shift where it is made, the new instant, and the commit.
  unfoldable pub absorb_calls : Living D → Result (Unit {0}) × ℕ
  absorb_calls l =
      let n = l.calls in
      let m = if shifts v threshold l.seen_at (v.clock n) then suc (suc (suc n)) else suc (suc n) in
      let last =
        step v threshold "scheduler: absorb downtime: record seen_at" m
          (step v threshold "scheduler: absorb downtime: commit" (suc m) (ok tt, suc (suc m))) in
      elim (v.fault n) [
        | some e ↦ (err (failed_call "scheduler: absorb downtime: begin" e), suc n)
        | none ↦ step v threshold "scheduler: absorb downtime: lock liveness row" (suc n) (
            if shifts v threshold l.seen_at (v.clock n)
            then step v threshold "scheduler: absorb downtime: shift overdue rows" (suc (suc n))
                last
            else last)
      ]

  -- now() is the instant of BEGIN throughout.
  unfoldable pub absorb_downtime : Living D → Result Downtime × Living D
  absorb_downtime l =
      let now = v.clock l.calls in
      elim (absorb_calls l).0 [
        | err e ↦ (err e, record l { calls = (absorb_calls l).1 })
        | ok _ ↦ (
          ok (downtime v threshold l.seen_at now l.database.rows),
          record {
            database = record l.database {
              rows = absorbed v threshold l.seen_at now l.database.rows;
            };
            seen_at = some now;
            calls = (absorb_calls l).1;
          },
        )
      ]

  unfoldable pub refresh : Living D → Result (Unit {0}) × Living D
  refresh l = elim (v.fault l.calls) [
    | some e ↦ (err (failed_call "scheduler: liveness refresh" e), record l { calls = suc l.calls })
    | none ↦ (ok tt, record l { seen_at = some (v.clock l.calls); calls = suc l.calls })
  ]

-- Both are positive. The number of failures in a row that is let pass, rounded up.
unfoldable pub failure_tolerance : ℤ → ℤ → ℤ
failure_tolerance threshold interval =
    let n = threshold /ℤ interval in
    let m = if eqb_ℤ (threshold %ℤ interval) (pos 0) then n else n +ℤ pos 1 in
    if ltb_ℤ m (pos 1) then pos 1 else m

-- One tick of Run, by whether Refresh succeeded: it goes on with the failures so far, or ends with the error.
unfoldable pub tick : ℤ → Option Error → ℕ → Option Error × ℕ
tick tolerance none failures = (none, 0)
tick tolerance (some e) failures =
    if ltb_ℤ (pos (suc failures)) tolerance then (none, suc failures) else (some e, suc failures)
