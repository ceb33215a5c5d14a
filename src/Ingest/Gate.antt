-- ===== src/Ingest/Gate.antt =====
-- The gate of outbound calls: internal/ingest/gate.go.
pub mod Allowed
use Prim.Native.String.{String, ◌++◌}
use lab_game.Prelude.{
  ℕ, suc, ◌≡◌, refl, Bool, true, false, if◌then◌else◌, ◌||◌, ◌⊎◌, inl, inr, List, [], ◌∷◌, Option,
  none, some,
}
use lab_game.Prelude.Int.{ℤ, eqb_ℤ}

-- tg.ChatTarget with the key of a known chat.
pub data Target : Type 0 where
  chat_none chat_unknown chat_other : Target
  chat_known : String → Target

-- DestinationLookup: the answers to the two questions, by the number of the question.
pub record Lookup : Type 0 where
  pub player_exists : ℕ → ℤ → String ⊎ Bool
  pub bot_present_in_chat : ℕ → ℤ → String ⊎ Bool

-- ErrChatRefused, with its reason.
pub data Refusal : Type 0 where
  unverifiable unknown_target not_an_integer not_known : Refusal
  presence_lookup player_lookup : String → Refusal

-- The ids of players that were found, and the number of questions asked.
pub record Gate : Type 0 where
  pub allowed : List ℤ
  pub cache : List ℤ
  pub asked : ℕ

unfoldable pub holds_id : ℤ → List ℤ → Bool
holds_id i [] = false
holds_id i (j ∷ js) = eqb_ℤ i j || holds_id i js

unfoldable pub new_gate : List ℤ → Gate
new_gate allowed = record { allowed = allowed; cache = []; asked = 0 }

-- The lookup of the player, and the cache.
unfoldable pub ask_player : Lookup → ℤ → Gate → Option Refusal × Gate
ask_player l id g =
    let after : Gate = record g { asked = suc g.asked } in
    elim (l.player_exists g.asked id) [
      | inl e ↦ (some (player_lookup e), after)
      | inr exists ↦
          if exists then (none, record after { cache = id ∷ g.cache }) else (some not_known, after)
    ]

unfoldable pub allow_id : Lookup → ℤ → Gate → Option Refusal × Gate
allow_id l id g =
    let after : Gate = record g { asked = suc g.asked } in
    if holds_id id g.cache
    then (none, g)
    else if holds_id id g.allowed
    then elim (l.bot_present_in_chat g.asked id) [
      | inl e ↦ (some (presence_lookup e), after)
      | inr present ↦ if present then (none, after) else ask_player l id after
    ]
    else ask_player l id g

-- `parse_int` is strconv.ParseInt in base 10 for 64 bits.
module _ (parse_int : String → Option ℤ) where
  unfoldable pub allow_known : Lookup → String → Gate → Option Refusal × Gate
  allow_known l key g = elim (parse_int key) [
    | none ↦ (some not_an_integer, g)
    | some id ↦ allow_id l id g
  ]

  -- AllowCall
  unfoldable pub allow_call : Lookup → Target → Gate → Option Refusal × Gate
  allow_call l chat_none g = (none, g)
  allow_call l chat_unknown g = (some unverifiable, g)
  allow_call l (chat_known key) g = allow_known l key g
  allow_call l chat_other g = (some unknown_target, g)
