-- ===== src/Scheduler/Reconcile.antt =====
-- The rows of the recurrent types: internal/scheduler/reconcile.go.
use Prim.Native.String.{String}
use lab_game.Prelude.{Bool, ◌&&◌, not, List, [], ◌∷◌, Option, none, some}
use lab_game.Prelude.Int.{ℤ, ◌+ℤ◌, ltb_ℤ}
use lab_game.Scheduler.Task.{Row, Config, Recurrence, failed_call, ok, err}
use lab_game.Scheduler.Session.{Server, Tx, pure, ◌>>◌, call, change}
use lab_game.Scheduler.Registry.{Entry}
use lab_game.Scheduler.Claim.{find_row}
use lab_game.Scheduler.Drain.{update_where}
use lab_game.Scheduler.Schedule.{conflicts, new_row}

-- reconcileCorrectSQL: a row that lies after the next occurrence, and by more than a poll interval ahead.
abbrev pub is_late : String → ℤ → ℤ → Row → Bool
is_late t next horizon r = conflicts t (some t) r && ltb_ℤ next r.run_at && ltb_ℤ horizon r.run_at

module _ {D : Type 0} (v : Server) where
  -- reconcileSeedSQL: the instance key is the type's name.
  unfoldable pub seed_row : String → ℤ → Tx D (Unit {0})
  seed_row t next s =
      let row = new_row (v.sequence s.calls) t (some t) "{}" next in
      elim (call v s).0 [
        | some e ↦ (err (failed_call "scheduler: reconcile: seed" e), (call v s).1)
        | none ↦ (
          ok tt,
          elim (find_row (conflicts t (some t)) s.database.rows) [
            | some r ↦ (call v s).1
            | none ↦ change (λ rows. row ∷ rows) (call v s).1
          ],
        )
      ]

  unfoldable pub correct : String → ℤ → ℤ → Tx D (Unit {0})
  correct t next poll_interval s =
      let horizon = v.clock s.calls +ℤ poll_interval in
      elim (call v s).0 [
        | some e ↦ (err (failed_call "scheduler: reconcile: correct" e), (call v s).1)
        | none ↦ (
          ok tt,
          change
              (update_where (λ r. is_late t next horizon r && not (v.locked s.calls r.id))
                (λ r. record r { run_at = next }))
              (call v s).1,
        )
      ]

  unfoldable pub reconcile_entry : Config → ℤ → String → Option Recurrence → Tx D (Unit {0})
  reconcile_entry c now t none = pure tt
  reconcile_entry c now t (some r) = do
    seed_row t (r.cadence now now)
    correct t (r.cadence now now) c.poll_interval

  -- The declarations in the order in which the map gives them. Each statement is committed on its own, so that
  -- `calls` and the database go on after a failure only in what was done before it.
  unfoldable pub reconcile_all : Config → ℤ → List (Entry D) → Tx D (Unit {0})
  reconcile_all c now [] = pure tt
  reconcile_all c now (d ∷ ds) = do
    reconcile_entry c now d.type d.recurrence
    reconcile_all c now ds

  unfoldable pub reconcile : Config → List (Entry D) → Tx D (Unit {0})
  reconcile c decls s = elim (call v s).0 [
    | some e ↦ (err (failed_call "scheduler: reconcile: read now" e), (call v s).1)
    | none ↦ reconcile_all c (v.clock s.calls) decls (call v s).1
  ]
