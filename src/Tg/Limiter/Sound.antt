-- ===== src/Tg/Limiter/Sound.antt =====
-- The invariant of the limiter of internal/tg/limit.go, and its writes.
use mathlib.Core.Path.{subst}
use lab_game.Prelude.{
  ◌≡◌, refl, sym, ap, arith, Bool, true, false, List, [], ◌∷◌, ◌++◌, Option, none, some,
  if◌then◌else◌,
}
use lab_game.Prelude.Int.{ℤ, ◌≤ℤ◌, eq_of_parts}
use lab_game.Prelude.Members.{◌∈◌}
use lab_game.Tg.Schedule.{Window, Schedule, ordered_schedule, new_schedule, earliest, commit, holds}
use lab_game.Tg.Schedule.Earliest.{IsPositive}
use lab_game.Tg.Schedule.Found.{earliest-Found}
use lab_game.Tg.Schedule.Sound.{IsSound, new_schedule-IsSound, commit-IsSound}
use lab_game.Tg.Limiter.{
  Limiter, TransportLimits, Call, MethodClass, class_message, class_edit, class_other, ChatKey,
  class_limits, pace_windows, quota_windows, chat_key_of, chat_of, put_chat, chat_schedule,
  global_of, put_global, store_chat, on_chat, key_eq,
}

-- The windows that the limits give to a chat of a class.
abbrev pub chat_windows : Limiter → MethodClass → List Window
chat_windows l c =
    pace_windows (class_limits l c).chat_rate ++ quota_windows (class_limits l c).chat_cap

abbrev pub AllSound : List (ChatKey × Schedule) → Type 0
AllSound [] = Unit {0}
AllSound (x ∷ xs) = IsSound x.1 × AllSound xs

-- Every schedule is sound, and so is each one that is still to be built.
pub record LimiterIsSound (l : Limiter) : Type 0 where
  pub globals : (c : MethodClass) → IsSound (global_of l c)
  pub of_chats : AllSound l.chats
  pub to_come : (c : MethodClass) (w : Window) → w ∈ chat_windows l c → IsPositive w

abbrev pub OptionSound : Option (ChatKey × Schedule) → Type 0
OptionSound none = Unit {0}
OptionSound (some x) = IsSound x.1

abbrev LookupSound : Option Schedule → Type 0
LookupSound none = Unit {0}
LookupSound (some s) = IsSound s

chat_of-LookupSound :
    (xs : List (ChatKey × Schedule)) (k : ChatKey) → AllSound xs → LookupSound (chat_of xs k)
unfolding chat_of
chat_of-LookupSound [] k h = tt
chat_of-LookupSound (x ∷ xs) k h = go (key_eq x.0 k) (chat_of-LookupSound xs k h.1)
  where
    go :
        (b : Bool) → LookupSound (chat_of xs k) → LookupSound (if b then some x.1 else chat_of xs k)
    go true r = h.0
    go false r = r

put_chat-AllSound :
    (xs : List (ChatKey × Schedule)) (k : ChatKey) (s : Schedule)
    → AllSound xs
    → IsSound s
    → AllSound (put_chat xs k s)
unfolding put_chat
put_chat-AllSound [] k s h q = (q, tt)
put_chat-AllSound (x ∷ xs) k s h q = go (key_eq x.0 k) (put_chat-AllSound xs k s h.1 q)
  where
    go :
        (b : Bool)
        → AllSound (put_chat xs k s)
        → AllSound (if b then (k, s) ∷ xs else x ∷ put_chat xs k s)
    go true r = (q, h.1)
    go false r = (h.0, r)

pub chat_schedule-OptionSound :
    (l : Limiter) (call : Call) → LimiterIsSound l → OptionSound (chat_schedule l call)
unfolding chat_schedule
chat_schedule-OptionSound l call h = by_key (chat_key_of call)
  where
    built :
        (k : ChatKey) (ws : List Window)
        → ((w : Window) → w ∈ ws → IsPositive w)
        → OptionSound
            (elim ws [ [] ↦ none | w ∷ rest ↦ some (k, new_schedule ordered_schedule (w ∷ rest)) ])
    built k [] p = tt
    built k (w ∷ ws) p = new_schedule-IsSound ordered_schedule (w ∷ ws) p

    looked_up :
        (k : ChatKey) (o : Option Schedule)
        → LookupSound o
        → OptionSound (elim o [
          | some s ↦ some (k, s)
          | none ↦ elim (chat_windows l call.class) [
            | [] ↦ none
            | w ∷ ws ↦ some (k, new_schedule ordered_schedule (w ∷ ws))
          ]
        ])
    looked_up k (some s) p = p
    looked_up k none p = built k (chat_windows l call.class) (h.to_come call.class)

    by_key :
        (o : Option ChatKey)
        → OptionSound (elim o [
          | none ↦ none
          | some k ↦ elim (chat_of l.chats k) [
            | some s ↦ some (k, s)
            | none ↦ elim (chat_windows l call.class) [
              | [] ↦ none
              | w ∷ ws ↦ some (k, new_schedule ordered_schedule (w ∷ ws))
            ]
          ]
        ])
    by_key none = tt
    by_key (some k) = looked_up k (chat_of l.chats k) (chat_of-LookupSound l.chats k h.of_chats)

global_put :
    (l : Limiter) (c : MethodClass) (s : Schedule)
    → ((d : MethodClass) → IsSound (global_of l d))
    → IsSound s
    → (d : MethodClass) → IsSound (global_of (put_global l c s) d)
unfolding global_of put_global
global_put l class_message s h q class_message = q
global_put l class_message s h q class_edit = h class_edit
global_put l class_message s h q class_other = h class_other
global_put l class_edit s h q class_message = h class_message
global_put l class_edit s h q class_edit = q
global_put l class_edit s h q class_other = h class_other
global_put l class_other s h q class_message = h class_message
global_put l class_other s h q class_edit = h class_edit
global_put l class_other s h q class_other = q

same_chats : (l : Limiter) (c : MethodClass) (s : Schedule) → (put_global l c s).chats ≡ l.chats
unfolding put_global
same_chats l class_message s = refl
same_chats l class_edit s = refl
same_chats l class_other s = refl

same_limits : (l : Limiter) (c : MethodClass) (s : Schedule) → (put_global l c s).limits ≡ l.limits
unfolding put_global
same_limits l class_message s = refl
same_limits l class_edit s = refl
same_limits l class_other s = refl

-- What a class may have depends on the limits only.
same_windows :
    (l m : Limiter) (c : MethodClass) → m.limits ≡ l.limits → chat_windows m c ≡ chat_windows l c
unfolding class_limits
same_windows l m class_message e =
    ap
      (λ (t : TransportLimits).
        pace_windows t.message.chat_rate ++ quota_windows t.message.chat_cap)
      e
same_windows l m class_edit e =
    ap (λ (t : TransportLimits). pace_windows t.edit.chat_rate ++ quota_windows t.edit.chat_cap) e
same_windows l m class_other e =
    ap (λ (t : TransportLimits). pace_windows t.other.chat_rate ++ quota_windows t.other.chat_cap) e

pub put_global-Sound :
    (l : Limiter) (c : MethodClass) (s : Schedule)
    → LimiterIsSound l
    → IsSound s
    → LimiterIsSound (put_global l c s)
put_global-Sound l c s h q = record {
  globals = global_put l c s h.globals q;
  of_chats = subst AllSound (sym (same_chats l c s)) h.of_chats;
  to_come = λ d w m.
      h.to_come d w
        (subst (λ ws. w ∈ ws) (same_windows l (put_global l c s) d (same_limits l c s)) m);
}

pub store_chat-Sound :
    (l : Limiter) (o : Option (ChatKey × Schedule))
    → LimiterIsSound l
    → OptionSound o
    → LimiterIsSound (store_chat l o)
unfolding global_of class_limits
store_chat-Sound l none h q = h
store_chat-Sound l (some x) h q = record {
  globals = globals';
  of_chats = put_chat-AllSound l.chats x.0 x.1 h.of_chats q;
  to_come = λ d w m.
      h.to_come d w (subst (λ ws. w ∈ ws) (same_windows l (store_chat l (some x)) d refl) m);
}
  where
    globals' : (c : MethodClass) → IsSound (global_of (store_chat l (some x)) c)
    globals' class_message = h.globals class_message
    globals' class_edit = h.globals class_edit
    globals' class_other = h.globals class_other

pub on_chat-Sound :
    (f : Schedule → Schedule) (o : Option (ChatKey × Schedule))
    → ((s : Schedule) → IsSound s → IsSound (f s))
    → OptionSound o
    → OptionSound (on_chat f o)
on_chat-Sound f none h q = tt
on_chat-Sound f (some x) h q = h x.1 q

-- An instant that earliest maps to itself keeps the schedule's windows.
pub settled-IsSound : (s : Schedule) (t : ℤ) → IsSound s → earliest s t ≤ℤ t → IsSound (commit s t)
settled-IsSound s t h le =
    let f = earliest-Found s t h.positive in
    let ge : t ≤ℤ earliest s t = f.not_before in
    let e : earliest s t ≡ t = eq_of_parts (earliest s t) t (omega arith) in
    commit-IsSound s t h (subst (λ u. holds s u ≡ true) e f.is_held)
