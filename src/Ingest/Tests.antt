-- ===== src/Ingest/Tests.antt =====
-- The theorems of the ingestion at concrete inputs.
use Prim.Native.String.{String}
use lab_game.Prelude.{
  ℕ, suc, ◌≡◌, refl, inr, true, false, if◌then◌else◌, List, [], ◌∷◌, map, Option, none, some, arith,
}
use text.Mathlib.Text.{◌==◌}
use lab_game.Prelude.Int.{ℤ, pos, ◌+ℤ◌, ◌<ℤ◌}
use lab_game.Prelude.Members.{◌∈◌, Distinct}
use lab_game.Ingest.Kind.{Raw, known_kind, find_row, derive_among}
use lab_game.Ingest.Router.{
  IngestError, operation_id, new_update, Handler, returned, errored, Route, lookup, check_route,
  add_routes, new_router,
}
use lab_game.Ingest.Router.Accepted.{new_router-Accepted}
use lab_game.Ingest.State.{World, Server, advanced}
use lab_game.Ingest.Attempt.{
  conclude, attempt_once, attempts_from, run_attempts, settle_given_up, settle_unrouted,
  advance_offset_fresh,
}
use lab_game.Ingest.Gate.{
  chat_known, Lookup, Refusal, holds_id, new_gate, ask_player, allow_id, allow_known, allow_call,
}
use lab_game.Ingest.Gate.Allowed.{IsConfirmed, IsJustified, allow_call-IsJustified}
use lab_game.Ingest.Loop.{done, process_update, process_all, settle_batch, poll_once}
use lab_game.Ingest.Batch.{Ascending, Batch, poll_once-Batch}
use lab_game.Ingest.Progress.{Works, poll_once_passes}

abbrev itoa : ℤ → String
itoa i = "7"

abbrev message : IngestError → String
message e = "malformed"

abbrev raw : ℕ → String → Raw
raw i kind = record {
  update_id = pos i;
  payload =
      λ k. if k == kind then some (record { date = pos 1; chat_id = pos 5; id = "" }) else none;
}

-- Counts the messages it handles.
abbrev counting : Handler ℕ
counting n u d = returned (suc d)

abbrev failing : Handler ℕ
failing n u d = errored "no"

abbrev routes : List (Route ℕ)
routes =
    record { kind = "message"; handler = counting }
    ∷ record { kind = "poll"; handler = failing }
    ∷ []

abbrev server : Server
server = record {
  fault = λ n. none;
  cancelled = λ n. none;
  updates = λ n o. raw 7 "message" ∷ raw 8 "poll" ∷ raw 10 "no_such_kind" ∷ [];
  stopped = λ n. none;
}

abbrev world : World ℕ
world = record {
  tables = record { offset = pos 7; dead = []; effects = 0 };
  calls = 0;
  observed = [];
  cycles = [];
}

server-Works : Works server
server-Works n = (refl, refl)

accepts :
    new_router routes
    ≡ inr (
        record { kind = "poll"; handler = failing }
        ∷ record { kind = "message"; handler = counting }
        ∷ [])
unfolding new_router add_routes check_route lookup find_row
accepts = refl

new_router-Accepted_example :
    Distinct (map (λ r. r.kind) routes)
    × ((r : Route ℕ)
        → r ∈ routes
        → lookup
            (record { kind = "poll"; handler = failing }
              ∷ record { kind = "message"; handler = counting }
              ∷ [])
            r.kind
          ≡ some r.handler)
    × ((k : String) (f : Handler ℕ)
        → lookup
            (record { kind = "poll"; handler = failing }
              ∷ record { kind = "message"; handler = counting }
              ∷ [])
            k
          ≡ some f
        → known_kind k ≡ true)
new_router-Accepted_example = new_router-Accepted routes _ accepts

-- The message is counted, the poll is given up after two attempts, and the last update is unrouted.
counts_and_buries :
    ((poll_once itoa message 2 server routes world).1.tables.effects ≡ 1)
    × ((poll_once itoa message 2 server routes world).1.tables.offset ≡ pos 11)
    × (map
          (λ d. d.consecutive_failures)
          (poll_once itoa message 2 server routes world).1.tables.dead
        ≡ 2 ∷ [])
unfolding poll_once settle_batch process_all process_update new_update operation_id derive_among
    lookup find_row run_attempts attempts_from attempt_once conclude settle_given_up settle_unrouted
    advance_offset_fresh advanced ◌+ℤ◌
counts_and_buries = (refl, refl, refl)

ascends : Ascending (pos 7) (server.updates 1 (pos 7))
unfolding ◌+ℤ◌
ascends = (omega arith, (omega arith, (omega arith, tt)))

poll_once-Batch_example :
    Batch itoa message 2 server routes
      (server.updates 1 (pos 7))
      (record world { calls = 2 })
      (poll_once itoa message 2 server routes world).1.tables
      ((poll_once itoa message 2 server routes world).0 ≡ done)
poll_once-Batch_example = poll_once-Batch itoa message 2 server routes world ascends

poll_once_passes_example :
    ((poll_once itoa message 2 server routes world).0 ≡ done)
    × ((r : Raw)
        → r ∈ server.updates 1 (pos 7)
        → r.update_id <ℤ (poll_once itoa message 2 server routes world).1.tables.offset)
poll_once_passes_example =
    poll_once_passes itoa message 2 server server-Works routes world refl ascends

abbrev parse_int : String → Option ℤ
parse_int s = if s == "5" then some (pos 5) else none

-- Everybody is a player, and the bot is nowhere.
abbrev players : Lookup
players = record { player_exists = λ n i. inr true; bot_present_in_chat = λ n i. inr false }

no_id-IsConfirmed : IsConfirmed players []
unfolding holds_id
no_id-IsConfirmed i h = absurd (cc)

allow_call-IsJustified_example :
    ((allow_call parse_int players (chat_known "5") (new_gate (pos 5 ∷ []))).0 ≡ none
      → IsJustified parse_int players (new_gate (pos 5 ∷ [])) (chat_known "5"))
    × IsConfirmed players
        (allow_call parse_int players (chat_known "5") (new_gate (pos 5 ∷ []))).1.cache
    × ((allow_call parse_int players (chat_known "5") (new_gate (pos 5 ∷ []))).1.allowed
        ≡ pos 5 ∷ [])
    × ((e : Refusal)
        → (allow_call parse_int players (chat_known "5") (new_gate (pos 5 ∷ []))).0 ≡ some e
        → (allow_call parse_int players (chat_known "5") (new_gate (pos 5 ∷ []))).1.cache ≡ [])
unfolding new_gate
allow_call-IsJustified_example =
    allow_call-IsJustified parse_int players (chat_known "5") (new_gate (pos 5 ∷ []))
      no_id-IsConfirmed

asks_both :
    allow_call parse_int players (chat_known "5") (new_gate (pos 5 ∷ []))
    ≡ (none, record { allowed = pos 5 ∷ []; cache = pos 5 ∷ []; asked = 2 })
unfolding allow_call allow_known allow_id ask_player holds_id new_gate
asks_both = refl
