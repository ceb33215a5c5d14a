-- ===== src/Ingest/Router.antt =====
-- Updates and their routes: internal/ingest/router.go and operation.go.
pub mod Accepted
use Prim.Native.String.{String, ◌++◌, compare}
use text.Mathlib.Text.{◌==◌, is_lt}
use lab_game.Prelude.{
  ℕ, Bool, true, false, if◌then◌else◌, ◌⊎◌, inl, inr, List, [], ◌∷◌, map, Option, none, some,
}
use lab_game.Prelude.Int.{ℤ}
use lab_game.Ingest.Kind.{Raw, no_kind, callback_query, known_kind, derive}

-- An absent callback query has the empty operation id.
pub record Update : Type 0 where
  pub raw : Raw
  pub kind : String
  pub operation_id : String
  pub callback_query_operation_id : String

pub data IngestError : Type 0 where
  empty_id_space empty_id : IngestError
  unknown_kind duplicate_route : String → IngestError

unfoldable pub operation_id : String → String → IngestError ⊎ String
operation_id space id =
    if space == ""
    then inl empty_id_space
    else if id == ""
    then inl empty_id
    else inr (space ++ ":" ++ id)

abbrev id_space_update : String
id_space_update = "update_id"

abbrev id_space_callback_query : String
id_space_callback_query = "callback_query.id"

-- `itoa` is strconv.Itoa.
module _ (itoa : ℤ → String) where
  unfoldable pub new_update : Raw → IngestError ⊎ Update
  new_update raw = elim (operation_id id_space_update (itoa raw.update_id)) [
    | inl e ↦ inl e
    | inr op ↦
        let u : Update = record {
          raw = raw;
          kind = derive raw;
          operation_id = op;
          callback_query_operation_id = "";
        } in
        elim (raw.payload callback_query) [
          | none ↦ inr u
          | some p ↦ elim (operation_id id_space_callback_query p.id) [
            | inl e ↦ inl e
            | inr cq ↦ inr (record u { callback_query_operation_id = cq })
          ]
        ]
  ]

-- How a handler ended, with the effects that its transaction holds where it returned nil.
pub data Handled (D : Type 0) : Type 0 where
  returned : D → Handled D
  already_posted errored panicked : String → Handled D

-- A handler runs as one call, whose number stands for all that may differ from one run to the next.
abbrev pub Handler : Type 0 → Type 0
Handler D = ℕ → Update → D → Handled D

pub record Route (D : Type 0) : Type 0 where
  pub kind : String
  pub handler : Handler D

unfoldable pub insert_kind : String → List String → List String
insert_kind k [] = k ∷ []
insert_kind k (j ∷ js) =
    let rest = insert_kind k js in if is_lt (compare j k) then j ∷ rest else k ∷ j ∷ js

unfoldable pub sort_kinds : List String → List String
sort_kinds [] = []
sort_kinds (k ∷ ks) = insert_kind k (sort_kinds ks)

module _ {D : Type 0} where
  -- The map of a router, the newest route first.
  unfoldable pub lookup : List (Route D) → String → Option (Handler D)
  lookup [] k = none
  lookup (r ∷ rs) k = if r.kind == k then some r.handler else lookup rs k

  unfoldable pub check_route : Route D → List (Route D) → Option IngestError
  check_route r seen =
      if known_kind r.kind
      then elim (lookup seen r.kind) [ none ↦ none | some h ↦ some (duplicate_route r.kind) ]
      else some (unknown_kind r.kind)

  unfoldable pub add_routes : List (Route D) → List (Route D) → IngestError ⊎ List (Route D)
  add_routes [] seen = inr seen
  add_routes (r ∷ rs) seen = elim (check_route r seen) [
    | some e ↦ inl e
    | none ↦ add_routes rs (r ∷ seen)
  ]

  unfoldable pub new_router : List (Route D) → IngestError ⊎ List (Route D)
  new_router rs = add_routes rs []

  unfoldable pub kinds : List (Route D) → List String
  kinds rs = sort_kinds (map (λ r. r.kind) rs)
