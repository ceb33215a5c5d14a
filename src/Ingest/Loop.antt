-- ===== src/Ingest/Loop.antt =====
-- One cycle of the update loop: internal/ingest/loop.go.
use Prim.Native.String.{String, ◌++◌}
use lab_game.Prelude.{ℕ, ◌+◌, inl, inr, List, [], ◌∷◌, length, Option, none, some}
use lab_game.Prelude.Int.{ℤ}
use lab_game.Ingest.Kind.{Raw, no_kind}
use lab_game.Ingest.Router.{Update, IngestError, new_update, Route, lookup}
use lab_game.Ingest.State.{LoopObservation, World, Server, after, observe_loop}
use lab_game.Ingest.Attempt.{settle_unrouted, run_attempts}

-- What PollOnce returns: ErrPollDiscarded is an error of its own.
pub data Cycle : Type 0 where
  done poll_discarded : Cycle
  cycle_failed : String → Cycle

-- An update that could not be derived.
abbrev pub underived : Raw → Update
underived raw = record {
  raw = raw;
  kind = no_kind;
  operation_id = "";
  callback_query_operation_id = "";
}

abbrev pub cycle_observation : ℕ → Option String → LoopObservation
cycle_observation n e = record { batch_size = n; error = e }

-- `itoa` is strconv.Itoa, `error_text` the text of an error, and `attempts` is Config.RetryMaxAttempts.
module _ {D : Type 0} (itoa : ℤ → String) (error_text : IngestError → String) (attempts : ℕ) where
  unfoldable pub process_update : Server → List (Route D) → Raw → World D → Option String × World D
  process_update v routes raw w = elim (new_update itoa raw) [
    | inl e ↦ settle_unrouted v (underived raw) (some (error_text e)) w
    | inr u ↦ elim (lookup routes u.kind) [
      | none ↦ settle_unrouted v u none w
      | some h ↦ run_attempts v attempts h u w
    ]
  ]

  -- The batch up to its first error.
  unfoldable pub process_all :
      Server → List (Route D) → List Raw → World D → Option String × World D
  process_all v routes [] w = (none, w)
  process_all v routes (raw ∷ raws) w =
      let one = process_update v routes raw w in
      let rest = process_all v routes raws one.1 in
      elim one.0 [ some e ↦ (some e, one.1) | none ↦ rest ]

  -- From the batch on.
  unfoldable pub settle_batch : Server → List (Route D) → List Raw → World D → Cycle × World D
  settle_batch v routes raws w =
      let processed = process_all v routes raws w in
      (
        elim processed.0 [ none ↦ done | some e ↦ cycle_failed e ],
        observe_loop (cycle_observation (length raws) processed.0) processed.1,
      )

  -- The offset is read by one call, and getUpdates is the next one.
  unfoldable pub poll_once : Server → List (Route D) → World D → Cycle × World D
  poll_once v routes w =
      let asked = w.calls + 1 in
      let raws = v.updates asked w.tables.offset in
      let settled = settle_batch v routes raws (after (w.calls + 2) w) in
      elim (v.fault w.calls) [
        | some e ↦ (
          cycle_failed ("ingest: read offset: " ++ e),
          observe_loop (cycle_observation 0 (some ("ingest: read offset: " ++ e))) (after asked w),
        )
        | none ↦ elim (v.stopped asked) [
          | some e ↦
              (poll_discarded, observe_loop (cycle_observation 0 none) (after (w.calls + 2) w))
          | none ↦ elim (v.fault asked) [
            | some e ↦ (
              cycle_failed e,
              observe_loop (cycle_observation 0 (some e)) (after (w.calls + 2) w),
            )
            | none ↦ settled
          ]
        ]
      ]
