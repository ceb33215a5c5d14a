-- ===== src/Ingest/State.antt =====
-- The state of the ingestion: the tables of internal/store/migrations/00004_ingest.sql, with the records of
-- internal/ingest/dead.go and observe.go.
use Prim.Native.String.{String}
use lab_game.Prelude.{ℕ, List, ◌∷◌, Option}
use lab_game.Prelude.Int.{ℤ, ltb_ℤ}
use lab_game.Prelude.{if◌then◌else◌}
use lab_game.Ingest.Kind.{Raw}

-- Without created_at. The newest row of the table stands first.
pub record DeadUpdate : Type 0 where
  pub update_id : ℤ
  pub kind : String
  pub chat_id : Option ℤ
  pub consecutive_failures : ℕ
  pub last_error : String

-- The offset that the next poll transmits, the updates given up, and the effects of handlers.
pub record Tables (D : Type 0) : Type 0 where
  pub offset : ℤ
  pub dead : List DeadUpdate
  pub effects : D

pub data Outcome : Type 0 where
  handled duplicate unrouted failed panic given_up : Outcome

-- Without the duration. The lag counts from the date of the update, where it has one.
pub record Observation : Type 0 where
  pub kind : String
  pub attempt : ℕ
  pub outcome : Outcome
  pub lag_from : Option ℤ
  pub derivation_failed : Option String

pub record LoopObservation : Type 0 where
  pub batch_size : ℕ
  pub error : Option String

-- `calls` numbers the calls that left the process. The newest observation stands first.
pub record World (D : Type 0) : Type 0 where
  pub tables : Tables D
  pub calls : ℕ
  pub observed : List Observation
  pub cycles : List LoopObservation

-- What answers: which call fails, which wait ends by the context, what getUpdates gives for an offset, and whether
-- Stop cancelled that call.
pub record Server : Type 0 where
  pub fault : ℕ → Option String
  pub cancelled : ℕ → Option String
  pub updates : ℕ → ℤ → List Raw
  pub stopped : ℕ → Option String

-- UPDATE ingest_offset, guarded and monotone.
unfoldable pub advanced : ℤ → ℤ → ℤ
advanced next offset = if ltb_ℤ offset next then next else offset

abbrev pub after : {D : Type 0} → ℕ → World D → World D
after n w = record w { calls = n }

abbrev pub observe_update : {D : Type 0} → Observation → World D → World D
observe_update o w = record w { observed = o ∷ w.observed }

abbrev pub observe_loop : {D : Type 0} → LoopObservation → World D → World D
observe_loop o w = record w { cycles = o ∷ w.cycles }
