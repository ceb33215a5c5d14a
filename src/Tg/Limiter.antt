-- ===== src/Tg/Limiter.antt =====
-- The rate limiter of outbound calls: internal/tg/limit.go, with the limits of internal/config/transport.go and the
-- Call of internal/tg/gate.go. The mutex makes acquire one step.
pub mod Converge
pub mod Sound
pub mod Acquire
use lab_game.Prelude.{
  ℕ, zero, suc, ◌+◌, Bool, true, false, ◌&&◌, ◌==◌, if◌then◌else◌, List, [], ◌∷◌, ◌++◌, Option,
  none, some,
}
use lab_game.Prelude.Int.{ℤ, pos, pos_part, ◌+ℤ◌, ◌-ℤ◌, ◌/ℤ◌, ltb_ℤ, leb_ℤ, eqb_ℤ}
use lab_game.Tg.Schedule.{
  Window, Schedule, ordered_schedule, unordered_schedule, new_schedule, earliest, commit, evict,
}

pub data MethodClass : Type 0 where
  class_message class_edit class_other : MethodClass

pub data ChatTarget : Type 0 where
  chat_none chat_unknown chat_known : ChatTarget

-- A key is its bytes.
pub record ChatRef : Type 0 where
  pub key : List ℕ
  pub target : ChatTarget

pub record Call : Type 0 where
  pub class : MethodClass
  pub chat : ChatRef

pub record Rate : Type 0 where
  pub count : ℤ
  pub per : ℤ

pub record ClassLimits : Type 0 where
  pub global_rate : Rate
  pub chat_rate : Rate
  pub chat_cap : Rate

pub record TransportLimits : Type 0 where
  pub message : ClassLimits
  pub edit : ClassLimits
  pub other : ClassLimits

unfoldable pub ceil_div : ℤ → ℤ → ℤ
ceil_div w n = (w +ℤ n -ℤ pos 1) /ℤ n

unfoldable pub pace_windows : Rate → List Window
unfolding ceil_div
pace_windows r =
    let pace : Window = record { count = 1; per = ceil_div r.per r.count } in
    let bound : Window = record { count = pos_part r.count; per = r.per } in
    if leb_ℤ r.count (pos 0)
    then []
    else (if (pace.count == bound.count) && eqb_ℤ pace.per bound.per
        then pace ∷ []
        else pace ∷ bound ∷ [])

unfoldable pub quota_windows : Rate → List Window
quota_windows r =
    if leb_ℤ r.count (pos 0) then [] else record { count = pos_part r.count; per = r.per } ∷ []

pub record ChatKey : Type 0 where
  pub key : List ℕ
  pub class : MethodClass

-- The bytes of "\x00unknown".
abbrev pub unknown_chat_key : List ℕ
unknown_chat_key = 0 ∷ 117 ∷ 110 ∷ 107 ∷ 110 ∷ 111 ∷ 119 ∷ 110 ∷ []

-- The three schedules of a class, and the map of those of a chat, by their keys.
pub record Limiter : Type 0 where
  pub global_message : Schedule
  pub global_edit : Schedule
  pub global_other : Schedule
  pub chats : List (ChatKey × Schedule)
  pub limits : TransportLimits

unfoldable pub new_limiter : TransportLimits → Limiter
unfolding pace_windows new_schedule
new_limiter limits = record {
  global_message = new_schedule unordered_schedule (pace_windows limits.message.global_rate);
  global_edit = new_schedule unordered_schedule (pace_windows limits.edit.global_rate);
  global_other = new_schedule unordered_schedule (pace_windows limits.other.global_rate);
  chats = [];
  limits = limits;
}

unfoldable pub class_limits : Limiter → MethodClass → ClassLimits
class_limits l class_message = l.limits.message
class_limits l class_edit = l.limits.edit
class_limits l class_other = l.limits.other

unfoldable pub global_of : Limiter → MethodClass → Schedule
global_of l class_message = l.global_message
global_of l class_edit = l.global_edit
global_of l class_other = l.global_other

unfoldable pub put_global : Limiter → MethodClass → Schedule → Limiter
put_global l class_message s = record l { global_message = s }
put_global l class_edit s = record l { global_edit = s }
put_global l class_other s = record l { global_other = s }

abbrev bytes_eq : List ℕ → List ℕ → Bool
bytes_eq [] [] = true
bytes_eq (x ∷ xs) (y ∷ ys) = (x == y) && bytes_eq xs ys
bytes_eq _ _ = false

abbrev class_eq : MethodClass → MethodClass → Bool
class_eq class_message class_message = true
class_eq class_edit class_edit = true
class_eq class_other class_other = true
class_eq _ _ = false

abbrev key_eq : ChatKey → ChatKey → Bool
key_eq a b = bytes_eq a.key b.key && class_eq a.class b.class

unfoldable pub chat_of : List (ChatKey × Schedule) → ChatKey → Option Schedule
chat_of [] k = none
chat_of (x ∷ xs) k = if key_eq x.0 k then some x.1 else chat_of xs k

unfoldable pub put_chat : List (ChatKey × Schedule) → ChatKey → Schedule → List (ChatKey × Schedule)
put_chat [] k s = (k, s) ∷ []
put_chat (x ∷ xs) k s = if key_eq x.0 k then (k, s) ∷ xs else x ∷ put_chat xs k s

-- The key of a call's chat schedule; `none` for a call that addresses no chat.
unfoldable pub chat_key_of : Call → Option ChatKey
chat_key_of call = elim call.chat.target [
  | chat_none ↦ none
  | chat_unknown ↦ some (record { key = unknown_chat_key; class = call.class })
  | chat_known ↦ some (record { key = call.chat.key; class = call.class })
]

-- chatScheduleLocked: the schedule with its key, built if it has windows. Its insertion into the map is put_chat, which
-- the callers of this function do with the schedule that they evict.
unfoldable pub chat_schedule : Limiter → Call → Option (ChatKey × Schedule)
unfolding chat_key_of chat_of class_limits pace_windows quota_windows new_schedule
chat_schedule l call = elim (chat_key_of call) [
  | none ↦ none
  | some k ↦ elim (chat_of l.chats k) [
    | some s ↦ some (k, s)
    | none ↦
        let cl = class_limits l call.class in
        elim (pace_windows cl.chat_rate ++ quota_windows cl.chat_cap) [
          | [] ↦ none
          | w ∷ ws ↦ some (k, new_schedule ordered_schedule (w ∷ ws))
        ]
  ]
]

abbrev pub max_acquire_passes : ℕ
max_acquire_passes = 4096

-- The inner loop of a pass: the latest of the instants that the functions give for t.
unfoldable pub latest : List (ℤ → ℤ) → ℤ → ℤ → ℤ
latest [] t next = next
latest (f ∷ fs) t next = latest fs t (if ltb_ℤ next (f t) then f t else next)

unfoldable pub fixed_point_from : ℕ → List (ℤ → ℤ) → ℤ → ℤ × Bool
unfolding latest
fixed_point_from zero fs t = (t, false)
fixed_point_from (suc passes) fs t =
    let next = latest fs t t in
    let rest = fixed_point_from passes fs next in if ltb_ℤ t next then rest else (t, true)

unfoldable pub acquire_fixed_point : ℤ → List (ℤ → ℤ) → ℤ × Bool
unfolding fixed_point_from
acquire_fixed_point start fs = fixed_point_from max_acquire_passes fs start

-- What acquire returns: the instant, a refusal because of the deadline, or the error.
pub data Acquired : Type 0 where
  granted : ℤ → Acquired
  past_deadline : Acquired
  no_convergence : Acquired

abbrev pub is_past : Option ℤ → ℤ → Bool
is_past none t = false
is_past (some deadline) t = ltb_ℤ deadline t

abbrev pub store_chat : Limiter → Option (ChatKey × Schedule) → Limiter
store_chat l none = l
store_chat l (some (k, s)) = record l { chats = put_chat l.chats k s }

abbrev pub on_chat :
    (Schedule → Schedule) → Option (ChatKey × Schedule) → Option (ChatKey × Schedule)
on_chat f none = none
on_chat f (some (k, s)) = some (k, f s)

abbrev pub functions_of : Schedule → Option (ChatKey × Schedule) → List (ℤ → ℤ)
functions_of global none = earliest global ∷ []
functions_of global (some (k, s)) = earliest global ∷ earliest s ∷ []

unfoldable pub acquire : Limiter → Call → ℤ → Option ℤ → Limiter × Acquired
unfolding chat_schedule global_of put_global put_chat evict commit earliest acquire_fixed_point
acquire l call now deadline =
    let global = evict (global_of l call.class) now in
    let chat = on_chat (λ s. evict s now) (chat_schedule l call) in
    let evicted = store_chat (put_global l call.class global) chat in
    let found = acquire_fixed_point now (functions_of global chat) in
    let committed =
      store_chat (put_global l call.class (commit global found.0))
        (on_chat (λ s. commit s found.0) chat) in
    if found.1
    then (if is_past deadline found.0
        then (evicted, past_deadline)
        else (committed, granted found.0))
    else (evicted, no_convergence)
