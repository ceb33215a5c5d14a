-- ===== src/Tg/Attempt.antt =====
-- The outcome of an attempt: classifyAttempt of internal/tg/retry.go.
use lab_game.Prelude.{Bool, true, false, not, if◌then◌else◌, Option, none, some}
use lab_game.Prelude.Int.{ℤ, pos, ◌*ℤ◌, ltb_ℤ, leb_ℤ, eqb_ℤ}

pub record Outcome : Type 0 where
  pub retryable : Bool
  pub ambiguous : Bool
  pub retry_after : ℤ

-- The decoded envelope, as far as the classification reads it: the seconds of its parameters, where it has an error
-- with parameters.
abbrev pub Response : Type 0
Response = Option ℤ

abbrev second : ℤ
second = pos 1000000000

abbrev retry_wait : Response → ℤ
retry_wait none = pos 0
retry_wait (some seconds) = if ltb_ℤ (pos 0) seconds then seconds *ℤ second else pos 0

-- The cases stand in the order of the source's switch.
unfoldable pub classify_attempt : ℤ → Response → Bool → Outcome
classify_attempt http_status resp wrote =
    if eqb_ℤ http_status (pos 429)
    then record { retryable = true; ambiguous = false; retry_after = retry_wait resp }
    else (if leb_ℤ (pos 500) http_status
        then record { retryable = true; ambiguous = false; retry_after = pos 0 }
        else (if not (eqb_ℤ http_status (pos 0))
            then record { retryable = false; ambiguous = false; retry_after = pos 0 }
            else (if wrote
                then record { retryable = false; ambiguous = true; retry_after = pos 0 }
                else record { retryable = true; ambiguous = false; retry_after = pos 0 })))
