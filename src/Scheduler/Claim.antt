-- ===== src/Scheduler/Claim.antt =====
-- The claim of due tasks: internal/scheduler/claim.go.
use lab_game.Prelude.{
  ℕ, ◌==◌, ◌&&◌, ltb, ◌||◌, not, Bool, true, false, if◌then◌else◌, List, [], ◌∷◌, Option, none,
  some, filter, map, take,
}
use lab_game.Prelude.Int.{ℤ, leb_ℤ, ltb_ℤ, eqb_ℤ}
use lab_game.Scheduler.Task.{Task, State, pending, dead, Row, failed_call, failed_task, ok, err}
use lab_game.Scheduler.Session.{Server, Tx, call}

abbrev pub is_pending : State → Bool
is_pending pending = true
is_pending dead = false

-- WHERE state = 'pending' AND run_at <= now()
abbrev pub is_due : ℤ → Row → Bool
is_due now r = is_pending r.state && leb_ℤ r.run_at now

-- ORDER BY run_at, id
abbrev pub comes_before : Row → Row → Bool
comes_before a b = ltb_ℤ a.run_at b.run_at || (eqb_ℤ a.run_at b.run_at && ltb a.id b.id)

unfoldable pub insert_row : Row → List Row → List Row
insert_row r [] = r ∷ []
insert_row r (x ∷ xs) = if comes_before x r then x ∷ insert_row r xs else r ∷ x ∷ xs

unfoldable pub order_rows : List Row → List Row
order_rows [] = []
order_rows (x ∷ xs) = insert_row x (order_rows xs)

-- The first row that meets a condition.
unfoldable pub find_row : (Row → Bool) → List Row → Option Row
find_row p [] = none
find_row p (r ∷ rs) = if p r then some r else find_row p rs

-- A null instance key is read as the empty one.
abbrev pub task_of : Row → Task
task_of r = record {
  id = r.id;
  type = r.type;
  instance_key = elim r.instance_key [ none ↦ "" | some k ↦ k ];
  payload = r.payload;
  run_at = r.run_at;
  consecutive_failures = r.consecutive_failures;
}

module _ {D : Type 0} (v : Server) where
  -- Outside a transaction, now() is the instant of the statement. A locked row is passed over.
  unfoldable pub discover_due : ℕ → Tx D (List ℕ)
  discover_due limit s =
      let free =
        filter (λ r. is_due (v.clock s.calls) r && not (v.locked s.calls r.id)) s.database.rows in
      elim (call v s).0 [
        | none ↦ (ok (map (λ r. r.id) (take limit (order_rows free))), (call v s).1)
        | some e ↦ (err (failed_call "scheduler: discover due tasks" e), (call v s).1)
      ]

  unfoldable pub reclaim : ℕ → Tx D (Option Task)
  reclaim id s =
      let found =
        find_row (λ r. r.id == id && is_due s.now r && not (v.locked s.calls id)) s.database.rows in
      elim (call v s).0 [
        | none ↦ (ok (elim found [ none ↦ none | some r ↦ some (task_of r) ]), (call v s).1)
        | some e ↦ (err (failed_task "scheduler: reclaim task" id (failed_call "" e)), (call v s).1)
      ]
