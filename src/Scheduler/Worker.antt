-- ===== src/Scheduler/Worker.antt =====
-- A cycle of the worker: RunOnce and New of internal/scheduler/worker.go.
use lab_game.Prelude.{ℕ, List, [], ◌∷◌, length, Option, none, some}
use lab_game.Scheduler.Task.{Config, Error, Result, ok, err}
use lab_game.Scheduler.Session.{Server}
use lab_game.Scheduler.Registry.{Entry}
use lab_game.Scheduler.Claim.{discover_due}
use lab_game.Scheduler.Execute.{World, execute_one}
use lab_game.Scheduler.Drain.{alone, committed, drain_pending}

-- What is reported to the observer of the loop, but for its duration.
pub record LoopObservation : Type 0 where
  pub batch_size : ℕ
  pub err : Option Error

module _ {D : Type 0} (v : Server) (c : Config) (decls : List (Entry D)) where
  -- The first error ends the batch.
  unfoldable pub execute_batch : List ℕ → ℕ → World D → Result (Unit {0}) × World D
  execute_batch [] batch w = (ok tt, w)
  execute_batch (id ∷ ids) batch w =
      let r = execute_one v c decls id batch w in
      let rest = execute_batch ids batch r.1 in elim r.0 [ err e ↦ (err e, r.1) | ok _ ↦ rest ]

  abbrev pub reported : ℕ → Result (Unit {0}) → LoopObservation
  reported batch (ok _) = record { batch_size = batch; err = none }
  reported batch (err e) = record { batch_size = batch; err = some e }

  unfoldable pub run_once : World D → LoopObservation × Result (Unit {0}) × World D
  run_once w =
      let drained = drain_pending v c w in
      let found = discover_due v c.claim_limit (alone v c drained.1) in
      let next = committed v c found.1 drained.1 in
      elim drained.0 [
        | err e ↦ (reported 0 (err e), err e, drained.1)
        | ok _ ↦ elim found.0 [
          | err e ↦ (reported 0 (err e), err e, next)
          | ok ids ↦
              let r = execute_batch ids (length ids) next in (reported (length ids) r.0, r.0, r.1)
        ]
      ]
