-- ===== src/Scheduler/Schedule.antt =====
-- The insertion of a task and the enumeration of the dead ones: internal/scheduler/schedule.go.
use Prim.Native.String.{String}
use text.Mathlib.Text.{◌==◌}
use lab_game.Prelude.{
  ℕ, Bool, false, ◌&&◌, if◌then◌else◌, List, ◌∷◌, map, filter, take, Option, none, some, not,
}
use lab_game.Prelude.Int.{ℤ, pos, ◌+ℤ◌, ltb_ℤ}
use lab_game.Scheduler.Task.{
  Row, pending, failed_call, unknown_type, invalid_delay, invalid_payload, duplicate_task, ok, err,
}
use lab_game.Scheduler.Session.{Server, Tx, fail, call, change}
use lab_game.Scheduler.Registry.{Entry, declaration, empty}
use lab_game.Scheduler.Claim.{is_pending, find_row, order_rows}

-- A nil payload is `none`.
pub record Request : Type 0 where
  pub type : String
  pub instance_key : String
  pub payload : Option String
  pub delay : ℤ

pub record DeadTask : Type 0 where
  pub type : String
  pub instance_key : String
  pub run_at : ℤ
  pub consecutive_failures : ℕ
  pub last_error : String

-- NULLIF(key, '')
abbrev pub nullif : String → Option String
nullif key = if key == empty then none else some key

abbrev pub coalesce : Option String → String
coalesce none = ""
coalesce (some s) = s

-- The partial unique index on the identity of a pending row, for a key that is not null.
abbrev pub conflicts : String → Option String → Row → Bool
conflicts t none r = false
conflicts t (some key) r =
    is_pending r.state && r.type == t && elim r.instance_key [ none ↦ false | some k ↦ k == key ]

abbrev pub new_row : ℕ → String → Option String → String → ℤ → Row
new_row id t key payload at = record {
  id = id;
  type = t;
  instance_key = key;
  payload = payload;
  run_at = at;
  state = pending;
  consecutive_failures = 0;
  last_error = none;
}

-- `valid_json` is json.Valid, of the standard library.
unfoldable pub checked_payload : (String → Bool) → Option String → Option String
checked_payload valid_json none = some "null"
checked_payload valid_json (some p) = if valid_json p then some p else none

module _ {D : Type 0} (v : Server) where
  -- INSERT ... ON CONFLICT DO NOTHING RETURNING id
  unfoldable pub insert_task : Request → String → Tx D ℕ
  insert_task req payload s =
      let key = nullif req.instance_key in
      let row = new_row (v.sequence s.calls) req.type key payload (v.clock s.calls +ℤ req.delay) in
      elim (call v s).0 [
        | some e ↦ (err (failed_call "scheduler: insert scheduled_task" e), (call v s).1)
        | none ↦ elim (find_row (conflicts req.type key) s.database.rows) [
          | some r ↦ (err duplicate_task, (call v s).1)
          | none ↦ (ok row.id, change (λ rows. row ∷ rows) (call v s).1)
        ]
      ]

  unfoldable pub schedule : (String → Bool) → List (Entry D) → Request → Tx D ℕ
  schedule valid_json decls req = elim (declaration decls req.type) [
    | none ↦ fail unknown_type
    | some _ ↦
        if ltb_ℤ req.delay (pos 0)
        then fail invalid_delay
        else elim (checked_payload valid_json req.payload) [
          | none ↦ fail invalid_payload
          | some payload ↦ insert_task req payload
        ]
  ]

  unfoldable pub dead_tasks : ℕ → Tx D (List DeadTask)
  dead_tasks limit s =
      let dead_rows = order_rows (filter (λ r. not (is_pending r.state)) s.database.rows) in
      elim (call v s).0 [
        | some e ↦ (err (failed_call "scheduler: select dead tasks" e), (call v s).1)
        | none ↦ (
          ok (
              map
                (λ r. record {
                  type = r.type;
                  instance_key = coalesce r.instance_key;
                  run_at = r.run_at;
                  consecutive_failures = r.consecutive_failures;
                  last_error = coalesce r.last_error;
                })
                (take limit dead_rows)),
          (call v s).1,
        )
      ]
