-- ===== src/Store/Documents.antt =====
-- The documents of a journal entry, and events: internal/store/basis.go and event.go.
use Prim.Native.String.{String}
use text.Mathlib.Text.{◌==◌ as ◌==ₛ◌}
use lab_game.Prelude.{
  ℕ, ◌==◌, ◌&&◌, ◌||◌, not, Bool, false, if◌then◌else◌, List, [], ◌∷◌, Option, none, some,
}
use lab_game.Prelude.Int.{ℤ}
use lab_game.Store.Books.{
  Basis, player_operation, manual_correction, deferred_task, recurrent_task, event, Event, Document,
  operation_row, correction_row, deferred_row, recurrent_row, event_row, Books, already_posted,
  unknown_event_type, Result, ok, ◌>>=◌, ◌>>◌, fail_if,
}

-- An operation that is already there, by the unique key of player_operation.
unfoldable pub is_posted : String → String → List Document → Bool
is_posted source id [] = false
is_posted source id (operation_row s i ∷ ds) = (s ==ₛ source && i ==ₛ id) || is_posted source id ds
is_posted source id (correction_row a r ∷ ds) = is_posted source id ds
is_posted source id (deferred_row n t k r ∷ ds) = is_posted source id ds
is_posted source id (recurrent_row n t k r ∷ ds) = is_posted source id ds
is_posted source id (event_row e ∷ ds) = is_posted source id ds

-- The foreign key from event to event_type_definition.
unfoldable pub is_event_type : String → List String → Bool
is_event_type t [] = false
is_event_type t (x ∷ xs) = x ==ₛ t || is_event_type t xs

abbrev null_if_zero : ℕ → Option ℕ
null_if_zero n = if n == 0 then none else some n

abbrev null_if_empty : String → Option String
null_if_empty s = if s ==ₛ "" then none else some s

unfoldable pub insert_operation : String → String → List Document → Result (List Document)
insert_operation source id ds =
    fail_if (is_posted source id ds) already_posted >> ok (operation_row source id ∷ ds)

unfoldable pub insert_correction : String → String → List Document → Result (List Document)
insert_correction actor reason ds = ok (correction_row actor reason ∷ ds)

unfoldable pub insert_deferred : ℕ → String → String → ℤ → List Document → Result (List Document)
insert_deferred id type key run_at ds =
    ok (deferred_row (null_if_zero id) type (null_if_empty key) run_at ∷ ds)

unfoldable pub insert_recurrent : ℕ → String → String → ℤ → List Document → Result (List Document)
insert_recurrent id type key run_at ds =
    ok (recurrent_row (null_if_zero id) type (null_if_empty key) run_at ∷ ds)

-- COALESCE of the payload with the empty object.
abbrev with_payload : Event → Event
with_payload e = record e { payload = elim e.payload [ none ↦ some "{}" | some p ↦ some p ] }

unfoldable pub insert_event : Event → List String → List Document → Result (List Document)
insert_event e types ds =
    fail_if (not (is_event_type e.event_type types)) unknown_event_type
    >> ok (event_row (with_payload e) ∷ ds)

unfoldable pub insert_basis : Basis → List String → List Document → Result (List Document)
insert_basis (player_operation source id) types ds = insert_operation source id ds
insert_basis (manual_correction actor reason) types ds = insert_correction actor reason ds
insert_basis (deferred_task id type key run_at) types ds = insert_deferred id type key run_at ds
insert_basis (recurrent_task id type key run_at) types ds = insert_recurrent id type key run_at ds
insert_basis (event e) types ds = insert_event e types ds

-- AppendEvent, without the id that it returns.
unfoldable pub append_event : Event → Books → Result Books
append_event e b =
    insert_event e b.event_types b.documents >>= λ ds. ok (record b { documents = ds })
