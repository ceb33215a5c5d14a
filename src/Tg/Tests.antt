-- ===== src/Tg/Tests.antt =====
-- The theorems of the rate limiter at concrete inputs.
use lab_game.Prelude.{refl, arith, [], ◌∷◌, some, ◌++◌, inl, inr, ap, get_lt, ◌+◌}
use lab_game.Prelude.Int.{pos, ◌+ℤ◌, ◌-ℤ◌}
use lab_game.Prelude.Members.{◌∈◌, All-mem}
use lab_game.Tg.Schedule.{
  Window, Schedule, unordered_schedule, ordered_schedule, new_schedule, holds, commit, earliest,
  search, insert_grant, windows_hold, window_holds, apart,
}
use lab_game.Tg.Schedule.Spaced.{KeepsWindows, commit-KeepsWindows}
use lab_game.Tg.Schedule.Earliest.{IsPositive}
use lab_game.Tg.Schedule.Found.{Found, earliest-Found}
use lab_game.Tg.Schedule.Sound.{IsSound, new_schedule-IsSound}
use lab_game.Tg.Limiter.{
  MethodClass, class_message, class_edit, class_other, Rate, ClassLimits, TransportLimits,
  new_limiter, Call, chat_known, acquire, global_of, class_limits, pace_windows, quota_windows,
  ceil_div,
}
use lab_game.Tg.Limiter.Sound.{LimiterIsSound}
use lab_game.Tg.Limiter.Acquire.{IsAcquired, acquire-IsAcquired}

abbrev two_in_ten : Window
two_in_ten = record { count = 2; per = pos 10 }

abbrev empty : Schedule
empty = new_schedule ordered_schedule (two_in_ten ∷ [])

two_in_ten-IsPositive : (w : Window) → w ∈ two_in_ten ∷ [] → IsPositive w
two_in_ten-IsPositive = All-mem IsPositive (two_in_ten ∷ []) ((omega arith, omega arith), tt)

-- Grants at 0 and 3: the next one is at 10.
abbrev busy : Schedule
busy = record { kind = ordered_schedule; windows = two_in_ten ∷ []; grants = pos 0 ∷ pos 3 ∷ [] }

earliest-Found_example : Found busy (pos 4) (earliest busy (pos 4))
earliest-Found_example = earliest-Found busy (pos 4) two_in_ten-IsPositive

-- With two grants, no two grants stand two places apart.
busy_kept : KeepsWindows busy.grants busy.windows
busy_kept w (inl e) j a b ea eb =
    absurd (omega (arith, get_lt busy.grants (j + w.count) b eb, ap (λ (v : Window). v.count) e))
busy_kept w (inr m) j a b ea eb = absurd m

commit-KeepsWindows_example : KeepsWindows (commit busy (pos 10)).grants busy.windows
unfolding holds search insert_grant windows_hold window_holds apart ◌-ℤ◌
commit-KeepsWindows_example = commit-KeepsWindows busy (pos 10) busy_kept refl

abbrev unbounded : Rate
unbounded = record { count = pos 0; per = pos 0 }

abbrev none_bounded : ClassLimits
none_bounded = record { global_rate = unbounded; chat_rate = unbounded; chat_cap = unbounded }

-- Thirty messages a second, one a second to a chat, and twenty a minute to it.
abbrev limits : TransportLimits
limits = record {
  message = record {
    global_rate = record { count = pos 30; per = pos 1000 };
    chat_rate = record { count = pos 1; per = pos 1000 };
    chat_cap = record { count = pos 20; per = pos 60000 };
  };
  edit = none_bounded;
  other = none_bounded;
}

fresh-LimiterIsSound : LimiterIsSound (new_limiter limits)
unfolding new_limiter global_of class_limits pace_windows quota_windows ceil_div ◌+ℤ◌ ◌-ℤ◌
fresh-LimiterIsSound = record { globals = globals; of_chats = tt; to_come = to_come }
  where
    globals : (c : MethodClass) → IsSound (global_of (new_limiter limits) c)
    globals class_message =
        new_schedule-IsSound unordered_schedule (pace_windows limits.message.global_rate) (
          All-mem IsPositive (pace_windows limits.message.global_rate)
            ((omega arith, omega arith), ((omega arith, omega arith), tt)))
    globals class_edit = new_schedule-IsSound unordered_schedule [] (λ w m. absurd m)
    globals class_other = new_schedule-IsSound unordered_schedule [] (λ w m. absurd m)

    to_come :
        (c : MethodClass) (w : Window)
        → w
          ∈ pace_windows (class_limits (new_limiter limits) c).chat_rate
            ++ quota_windows (class_limits (new_limiter limits) c).chat_cap
        → IsPositive w
    to_come class_message =
        All-mem IsPositive
          (pace_windows limits.message.chat_rate ++ quota_windows limits.message.chat_cap)
          ((omega arith, omega arith), ((omega arith, omega arith), tt))
    to_come class_edit = λ w m. absurd m
    to_come class_other = λ w m. absurd m

abbrev call : Call
call = record { class = class_message; chat = record { key = 52 ∷ 50 ∷ []; target = chat_known } }

acquire-IsAcquired_example :
    IsAcquired (pos 7) (some (pos 9)) (acquire (new_limiter limits) call (pos 7) (some (pos 9)))
acquire-IsAcquired_example =
    acquire-IsAcquired (new_limiter limits) call (pos 7) (some (pos 9)) fresh-LimiterIsSound
