-- ===== src/Ingest/Kind.antt =====
-- The kinds of updates: internal/ingest/kind.go.
use Prim.Native.String.{String}
use text.Mathlib.Text.{◌==◌}
use lab_game.Prelude.{Bool, true, false, if◌then◌else◌, List, [], ◌∷◌, Option, none, some}
use lab_game.Prelude.Int.{ℤ}

-- What the code reads of a payload. A kind whose payload has no date or no chat leaves that field unread; `id` is the
-- identifier of a callback query.
pub record Payload : Type 0 where
  pub date : ℤ
  pub chat_id : ℤ
  pub id : String

-- telego.Update: an optional payload for each JSON tag.
pub record Raw : Type 0 where
  pub update_id : ℤ
  pub payload : String → Option Payload

-- A row of the table says whether the payload has a date and a chat.
pub record KindRow : Type 0 where
  pub kind : String
  pub date : Bool
  pub chat_id : Bool

abbrev row : String → Bool → Bool → KindRow
row kind date chat_id = record { kind = kind; date = date; chat_id = chat_id }

abbrev pub no_kind : String
no_kind = ""

abbrev pub callback_query : String
callback_query = "callback_query"

abbrev pub kind_table : List KindRow
kind_table =
    row "message" true true
    ∷ row "edited_message" true true
    ∷ row "channel_post" true true
    ∷ row "edited_channel_post" true true
    ∷ row "business_connection" true false
    ∷ row "business_message" true true
    ∷ row "edited_business_message" true true
    ∷ row "deleted_business_messages" false true
    ∷ row "guest_message" true true
    ∷ row "message_reaction" true true
    ∷ row "message_reaction_count" true true
    ∷ row "inline_query" false false
    ∷ row "chosen_inline_result" false false
    ∷ row "callback_query" false false
    ∷ row "shipping_query" false false
    ∷ row "pre_checkout_query" false false
    ∷ row "purchased_paid_media" false false
    ∷ row "poll" false false
    ∷ row "poll_answer" false false
    ∷ row "my_chat_member" true true
    ∷ row "chat_member" true true
    ∷ row "chat_join_request" true true
    ∷ row "chat_boost" false true
    ∷ row "removed_chat_boost" false true
    ∷ row "managed_bot" false false
    ∷ row "subscription" false false
    ∷ []

unfoldable pub find_row : String → List KindRow → Option KindRow
find_row k [] = none
find_row k (r ∷ rows) = if r.kind == k then some r else find_row k rows

abbrev pub row_for_kind : String → Option KindRow
row_for_kind k = find_row k kind_table

abbrev pub known_kind : String → Bool
known_kind k = elim (row_for_kind k) [ none ↦ false | some r ↦ true ]

-- The first row whose payload is there.
unfoldable pub derive_among : List KindRow → Raw → String
derive_among [] u = no_kind
derive_among (r ∷ rows) u = elim (u.payload r.kind) [ none ↦ derive_among rows u | some p ↦ r.kind ]

abbrev pub derive : Raw → String
derive u = derive_among kind_table u

-- A payload's field, where the row of the derived kind has it.
abbrev extract : (KindRow → Bool) → (Payload → ℤ) → Raw → Option ℤ
extract has get u = elim (row_for_kind (derive u)) [
  | none ↦ none
  | some r ↦ if has r then elim (u.payload r.kind) [ none ↦ none | some p ↦ some (get p) ] else none
]

abbrev pub date_of : Raw → Option ℤ
date_of u = extract (λ r. r.date) (λ p. p.date) u

abbrev pub chat_of : Raw → Option ℤ
chat_of u = extract (λ r. r.chat_id) (λ p. p.chat_id) u
