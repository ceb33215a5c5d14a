-- ===== src/Tg/Schedule.antt =====
-- The window schedule of one limiter key: internal/tg/limit.go. Instants and durations are nanoseconds.
pub mod Sound
pub mod Spaced
pub mod Earliest
pub mod Candidates
pub mod Found
use lab_game.Prelude.{
  ℕ, zero, suc, ◌+◌, ◌-◌, Bool, true, false, ◌&&◌, leb, if◌then◌else◌, List, [], ◌∷◌, ◌++◌, length,
  get_elem?, map, filter, Option, none, some,
}
use lab_game.Prelude.Int.{ℤ, pos, neg_ℤ, ◌+ℤ◌, ◌-ℤ◌, ltb_ℤ, leb_ℤ}

pub record Window : Type 0 where
  pub count : ℕ
  pub per : ℤ

pub data ScheduleKind : Type 0 where
  ordered_schedule unordered_schedule : ScheduleKind

pub record Schedule : Type 0 where
  pub kind : ScheduleKind
  pub windows : List Window
  pub grants : List ℤ

unfoldable pub new_schedule : ScheduleKind → List Window → Schedule
new_schedule kind windows = record { kind = kind; windows = windows; grants = [] }

unfoldable pub max_per_from : List Window → ℤ → ℤ
max_per_from [] m = m
max_per_from (w ∷ ws) m = max_per_from ws (if ltb_ℤ m w.per then w.per else m)

unfoldable pub max_per : Schedule → ℤ
unfolding max_per_from
max_per s = max_per_from s.windows (pos 0)

-- sort.Search for the first grant that is not before t, in the ascending list of the grants.
unfoldable pub search : List ℤ → ℤ → ℕ
search [] t = 0
search (g ∷ gs) t = if ltb_ℤ g t then suc (search gs t) else 0

-- The grants with t at the place that sort.Search finds for it: the function `at` of holds, and commit's list.
unfoldable pub insert_grant : List ℤ → ℤ → List ℤ
insert_grant [] t = t ∷ []
insert_grant (g ∷ gs) t = if ltb_ℤ g t then g ∷ insert_grant gs t else t ∷ g ∷ gs

abbrev pub spaced_by : Option ℤ → Option ℤ → ℤ → Bool
spaced_by (some a) (some b) per = leb_ℤ per (b -ℤ a)
spaced_by _ _ per = true

-- at(k).Sub(at(j)) >= per, which the loop skips for k beyond the list. Its j is never beyond it.
unfoldable pub apart : List ℤ → ℕ → ℕ → ℤ → Bool
apart grants j k per = spaced_by (get_elem? grants j) (get_elem? grants k) per

-- The inner loop of holds, over `left` values of j.
unfoldable pub window_holds : List ℤ → Window → ℕ → ℕ → Bool
unfolding apart
window_holds grants w j zero = true
window_holds grants w j (suc left) =
    apart grants j (j + w.count) w.per && window_holds grants w (suc j) left

unfoldable pub windows_hold : List ℤ → List Window → ℕ → Bool
unfolding window_holds
windows_hold grants [] idx = true
windows_hold grants (w ∷ ws) idx =
    window_holds grants w (idx - w.count) (suc idx - (idx - w.count)) && windows_hold grants ws idx

unfoldable pub holds : Schedule → ℤ → Bool
unfolding search insert_grant windows_hold
holds s t = windows_hold (insert_grant s.grants t) s.windows (search s.grants t)

abbrev pub last_of : List ℤ → ℤ → ℤ
last_of [] d = d
last_of (x ∷ xs) d = last_of xs x

unfoldable pub raise : Schedule → ℤ → ℤ
raise s candidate = elim s.kind [
  | unordered_schedule ↦ candidate
  | ordered_schedule ↦
      if ltb_ℤ candidate (last_of s.grants candidate) then last_of s.grants candidate else candidate
]

-- Where a grant's window expires, after the candidate.
unfoldable pub expiries : ℤ → List Window → List ℤ → List ℤ
expiries candidate [] grants = []
expiries candidate (w ∷ ws) grants =
    filter (λ t. ltb_ℤ candidate t) (map (λ g. g +ℤ w.per) grants) ++ expiries candidate ws grants

-- sort.Slice by Before.
abbrev pub sort_times : List ℤ → List ℤ
sort_times [] = []
sort_times (t ∷ ts) = insert_grant (sort_times ts) t

unfoldable pub first_that_holds : Schedule → List ℤ → Option ℤ
unfolding holds
first_that_holds s [] = none
first_that_holds s (t ∷ ts) = if holds s t then some t else first_that_holds s ts

unfoldable pub earliest : Schedule → ℤ → ℤ
unfolding raise expiries first_that_holds insert_grant
earliest s candidate =
    let from = raise s candidate in
    let candidates = sort_times (from ∷ expiries from s.windows s.grants) in
    elim s.windows [
      | [] ↦ from
      | w ∷ ws ↦ elim (first_that_holds s candidates) [
        | some t ↦ t
        | none ↦ last_of candidates from
      ]
    ]

unfoldable pub commit : Schedule → ℤ → Schedule
unfolding insert_grant
commit s t = elim s.windows [
  | [] ↦ s
  | w ∷ ws ↦ record { kind = s.kind; windows = s.windows; grants = insert_grant s.grants t }
]

abbrev pub drop_before : ℤ → List ℤ → List ℤ
drop_before threshold [] = []
drop_before threshold (g ∷ gs) = if ltb_ℤ g threshold then drop_before threshold gs else g ∷ gs

unfoldable pub evict : Schedule → ℤ → Schedule
unfolding max_per
evict s now =
    let m = max_per s in
    if leb_ℤ m (pos 0) then s else record {
      kind = s.kind;
      windows = s.windows;
      grants = drop_before (now +ℤ neg_ℤ m) s.grants;
    }
