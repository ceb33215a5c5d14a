-- ===== src/Scheduler/Cadence.antt =====
-- The recurrence of a periodic task: internal/scheduler/cadence.go. Instants and durations are nanoseconds: an instant
-- is an integer, a duration an int64 value.
pub mod CatchUp
use lab_game.Prelude.{if◌then◌else◌, ◌-◌, ◌^◌}
use lab_game.Prelude.Int.{ℤ, pos, negsuc, ◌+ℤ◌, ◌-ℤ◌, ◌*ℤ◌, ◌/ℤ◌, ltb_ℤ, wrap64}

-- Time.Sub: the difference of two instants, or the least or greatest Duration where it is none.
unfoldable pub saturate64 : ℤ → ℤ
saturate64 a =
    if ltb_ℤ (pos (2 ^ 63 - 1)) a
    then pos (2 ^ 63 - 1)
    else (if ltb_ℤ a (negsuc (2 ^ 63 - 1)) then negsuc (2 ^ 63 - 1) else a)

-- The closure that Every returns, with the period that it captures.
unfoldable pub every : ℤ → ℤ → ℤ → ℤ
unfolding saturate64
every period prev now =
    let elapsed = saturate64 (now -ℤ prev) in
    let k = wrap64 (elapsed /ℤ period +ℤ pos 1) in
    if ltb_ℤ elapsed (pos 0) then prev +ℤ period else prev +ℤ wrap64 (k *ℤ period)
