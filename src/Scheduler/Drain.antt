-- ===== src/Scheduler/Drain.antt =====
-- The deferred settlements: internal/scheduler/settle.go, drainPending to deferredFailedStatement.
pub mod Drains
pub mod Deferred
use lab_game.Prelude.{
  ℕ, suc, ◌-◌, ◌==◌, leb, ltb, ◌&&◌, not, Bool, true, false, if◌then◌else◌, List, [], ◌∷◌, map,
  count, Option, none, some,
}
use lab_game.Prelude.Int.{ℤ, ◌+ℤ◌, eqb_ℤ}
use lab_game.Scheduler.Task.{
  Row, Database, Config, Recurrence, PendingSettlement, failed_call, failed_task, Result, ok, err,
}
use lab_game.Scheduler.Session.{Server, Session, Tx, pure, ◌>>=◌, call, change, wrap}
use lab_game.Scheduler.Settle.{set_dead, set_failed}
use lab_game.Scheduler.Claim.{is_pending, find_row}
use lab_game.Scheduler.Execute.{World, without}

-- id = $1 AND state = 'pending' AND run_at = $2
abbrev pub matches : PendingSettlement → Row → Bool
matches p r = r.id == p.id && (is_pending r.state && eqb_ℤ r.run_at p.run_at)

-- The SET clause, of the recurrence: it is one of three.
unfoldable pub deferred_failed_statement :
    Config → PendingSettlement → ℤ → Option Recurrence → Row → Row
deferred_failed_statement c p s none =
    let k = suc p.consecutive_failures in
    if leb c.retry_max_attempts k
    then set_dead k p.reason
    else set_failed k p.reason (s +ℤ c.exponential (k - 1))
deferred_failed_statement c p s (some r) =
    set_failed (suc p.consecutive_failures) p.reason (r.cadence p.run_at s)

-- The update of the rows that a condition picks.
abbrev pub update_where : (Row → Bool) → (Row → Row) → List Row → List Row
update_where q f rows = map (λ r. if q r then f r else r) rows

module _ {D : Type 0} (v : Server) (c : Config) where
  -- One statement of its own and, where it changed no row, one probe: whether to drop p from the set.
  unfoldable pub drain_one : PendingSettlement → ℤ → Tx D Bool
  drain_one p at s =
      let candidate = λ (r : Row). matches p r && not (v.locked s.calls r.id) in
      let updated = call v s in
      let probed = call v updated.1 in
      let found = find_row (matches p) s.database.rows in
      elim updated.0 [
        | some e ↦ (err (failed_call "" e), updated.1)
        | none ↦
            if ltb 0 (count candidate s.database.rows)
            then (
              ok true,
              change (update_where candidate (deferred_failed_statement c p at p.recurrence))
                  updated.1,
            )
            else elim probed.0 [
              | some e ↦ (err (failed_call "" e), probed.1)
              | none ↦ (ok (elim found [ none ↦ true | some r ↦ false ]), probed.1)
            ]
      ]

  -- A statement outside a transaction is committed when it succeeds, and aborts nothing when it fails.
  abbrev pub alone : World D → Session D
  alone w = record {
    database = w.database;
    aborted = false;
    calls = w.calls;
    now = v.clock w.calls;
  }

  abbrev pub committed : Session D → World D → World D
  committed s w = record w { database = s.database; calls = s.calls }

  -- The loop, over the items that were copied from the set, in whatever order.
  unfoldable pub drain_items : List PendingSettlement → ℤ → World D → Result (Unit {0}) × World D
  drain_items [] at w = (ok tt, w)
  drain_items (p ∷ ps) at w =
      let r = drain_one p at (alone w) in
      let next = committed r.1 w in
      let dropped = drain_items ps at (record next { pending = without p.id next.pending }) in
      let kept = drain_items ps at next in
      elim r.0 [
        | err e ↦ (err (failed_task "scheduler: drain task" p.id e), next)
        | ok gone ↦ if gone then dropped else kept
      ]

  unfoldable pub drain_pending : World D → Result (Unit {0}) × World D
  drain_pending w =
      let read = call v (alone w) in
      let next = record w { calls = suc w.calls } in
      let drained = drain_items w.pending (v.clock w.calls) next in
      elim w.pending [
        | [] ↦ (ok tt, w)
        | _ ∷ _ ↦ elim read.0 [
          | some e ↦ (err (failed_call "scheduler: read drain instant" e), next)
          | none ↦ drained
        ]
      ]
