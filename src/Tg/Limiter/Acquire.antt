-- ===== src/Tg/Limiter/Acquire.antt =====
-- About acquire, internal/tg/limit.go.
use mathlib.Core.Path.{subst}
use lab_game.Prelude.{◌≡◌, refl, Bool, true, false, Option, none, some, if◌then◌else◌}
use lab_game.Prelude.Int.{ℤ, ◌≤ℤ◌}
use lab_game.Tg.Schedule.{Schedule, commit, evict}
use lab_game.Tg.Schedule.Sound.{IsSound, evict-IsSound}
use lab_game.Tg.Limiter.{
  Limiter, Call, ChatKey, chat_schedule, global_of, put_global, store_chat, on_chat, functions_of,
  is_past, acquire_fixed_point, acquire, Acquired, granted, past_deadline, no_convergence,
}
use lab_game.Tg.Limiter.Converge.{Accept, acquire_fixed_point-Settled}
use lab_game.Tg.Limiter.Sound.{
  LimiterIsSound, OptionSound, chat_schedule-OptionSound, put_global-Sound, store_chat-Sound,
  on_chat-Sound, settled-IsSound,
}

-- The limiter that is left is sound, and a grant is neither before now nor after the deadline.
pub record IsAcquired (now : ℤ) (deadline : Option ℤ) (r : Limiter × Acquired) : Type 0 where
  pub sound : LimiterIsSound r.0
  pub in_time : (t : ℤ) → r.1 ≡ granted t → (now ≤ℤ t) × (is_past deadline t ≡ false)

settled_global :
    (global : Schedule) (o : Option (ChatKey × Schedule)) (t : ℤ)
    → IsSound global
    → Accept (functions_of global o) t t
    → IsSound (commit global t)
settled_global global none t h a = settled-IsSound global t h a.0
settled_global global (some x) t h a = settled-IsSound global t h a.0

settled_chat :
    (global : Schedule) (o : Option (ChatKey × Schedule)) (t : ℤ)
    → OptionSound o
    → Accept (functions_of global o) t t
    → OptionSound (on_chat (λ s. commit s t) o)
settled_chat global none t h a = tt
settled_chat global (some x) t h a = settled-IsSound x.1 t h a.1.0

granted_inj : (a b : ℤ) → granted a ≡ granted b → a ≡ b
granted_inj a b e = cc

-- acquire keeps the invariant on every path, and a grant that it returns is not before now and not after the deadline.
-- The invariant says that each schedule's grants keep its windows, whose counts and lengths are positive.
pub acquire-IsAcquired :
    (l : Limiter) (call : Call) (now : ℤ) (deadline : Option ℤ)
    → LimiterIsSound l
    → IsAcquired now deadline (acquire l call now deadline)
unfolding acquire
acquire-IsAcquired l call now deadline h =
    ends (acquire_fixed_point now (functions_of global chat))
      (acquire_fixed_point-Settled now (functions_of global chat))
  where
    global : Schedule
    global = evict (global_of l call.class) now

    chat : Option (ChatKey × Schedule)
    chat = on_chat (λ s. evict s now) (chat_schedule l call)

    global_sound : IsSound global
    global_sound = evict-IsSound (global_of l call.class) now (h.globals call.class)

    chat_sound : OptionSound chat
    chat_sound =
        on_chat-Sound (λ s. evict s now) (chat_schedule l call) (λ s k. evict-IsSound s now k)
          (chat_schedule-OptionSound l call h)

    evicted : Limiter
    evicted = store_chat (put_global l call.class global) chat

    evicted_sound : LimiterIsSound evicted
    evicted_sound =
        store_chat-Sound (put_global l call.class global) chat
          (put_global-Sound l call.class global h global_sound) chat_sound

    committed : ℤ → Limiter
    committed t =
        store_chat (put_global l call.class (commit global t)) (on_chat (λ s. commit s t) chat)

    in_time :
        (t : ℤ) (past : Bool)
        → is_past deadline t ≡ past
        → now ≤ℤ t
        → Accept (functions_of global chat) t t
        → IsAcquired now deadline
            (if past then (evicted, past_deadline) else (committed t, granted t))
    in_time t true e le a = record { sound = evicted_sound; in_time = λ u f. absurd cc }
    in_time t false e le a = record {
      sound =
          store_chat-Sound (put_global l call.class (commit global t))
            (on_chat (λ s. commit s t) chat)
            (put_global-Sound l call.class (commit global t) h
              (settled_global global chat t global_sound a))
            (settled_chat global chat t chat_sound a);
      in_time = λ u f.
          let same = granted_inj t u f in
          (subst (λ v. now ≤ℤ v) same le, subst (λ v. is_past deadline v ≡ false) same e);
    }

    ends :
        (found : ℤ × Bool)
        → (found.1 ≡ true → (now ≤ℤ found.0) × Accept (functions_of global chat) found.0 found.0)
        → IsAcquired now deadline (
            if found.1
            then (if is_past deadline found.0
                then (evicted, past_deadline)
                else (committed found.0, granted found.0))
            else (evicted, no_convergence))
    ends (t, true) settled = let k = settled refl in in_time t (is_past deadline t) refl k.0 k.1
    ends (t, false) settled = record { sound = evicted_sound; in_time = λ u f. absurd cc }
