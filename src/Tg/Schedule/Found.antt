-- ===== src/Tg/Schedule/Found.antt =====
-- About earliest, internal/tg/limit.go.
use mathlib.Core.Path.{subst}
use lab_game.Prelude.{
  ◌≡◌, refl, sym, ap, arith, true, Bool-cases, inl, inr, List, [], ◌∷◌, Option, some, none,
  if◌then◌else◌,
}
use lab_game.Prelude.Int.{ℤ, ◌+ℤ◌, ◌≤ℤ◌, ltb_ℤ}
use lab_game.Prelude.Members.{◌∈◌}
use lab_game.Tg.Schedule.{
  Window, Schedule, ScheduleKind, ordered_schedule, unordered_schedule, holds, windows_hold,
  sort_times, last_of, raise, expiries, first_that_holds, earliest,
}
use lab_game.Tg.Schedule.Earliest.{IsPositive, Outside, holds-Outside}
use lab_game.Tg.Schedule.Candidates.{
  mem-sort_times, after_candidate, mem-expiries, greatest, first_that_holds_lem,
}

le-raise : (s : Schedule) (c : ℤ) → c ≤ℤ raise s c
unfolding raise
le-raise s c = go s.kind
  where
    go :
        (k : ScheduleKind)
        → c ≤ℤ elim k [
          | unordered_schedule ↦ c
          | ordered_schedule ↦ if ltb_ℤ c (last_of s.grants c) then last_of s.grants c else c
        ]
    go unordered_schedule = omega arith
    go ordered_schedule = elim (Bool-cases (ltb_ℤ c (last_of s.grants c))) [
      | inl e ↦ rw e (ground (arith, e))
      | inr e ↦ rw e (omega arith)
    ]

-- The candidates, before they are sorted.
abbrev from_of : Schedule → ℤ → List ℤ
from_of s c = raise s c ∷ expiries (raise s c) s.windows s.grants

greatest-holds :
    (s : Schedule) (c : ℤ) (w : Window)
    → w ∈ s.windows
    → ((v : Window) → v ∈ s.windows → IsPositive v)
    → (t : ℤ) × (first_that_holds s (sort_times (from_of s c)) ≡ some t)
      × (holds s t ≡ true)
      × (c ≤ℤ t)
greatest-holds s c w m h =
    let from = raise s c in
    let (top, n, most) = greatest from (expiries from s.windows s.grants) in
    let out : (v : Window) → v ∈ s.windows → IsPositive v × Outside s.grants top v = λ v i. (
      h v i,
      λ g k. elim (Bool-cases (ltb_ℤ from (g +ℤ v.per))) [
        | inl e ↦
            most (g +ℤ v.per)
              (inr (mem-expiries from s.windows s.grants v g i k (ground (arith, e))))
        | inr e ↦
            let below : g +ℤ v.per ≤ℤ from = ground (arith, e) in
            let up = most from (inl refl) in omega arith
      ],
    ) in
    let (t, f, q, i) =
      first_that_holds_lem s (sort_times (from_of s c)) top ((mem-sort_times (from_of s c) top).1 n)
        (holds-Outside s top w m out) in
    (
      t,
      f,
      q,
      elim ((mem-sort_times (from_of s c) t).0 i) [
        | inl e ↦ rw e (le-raise s c)
        | inr j ↦
            let up = le-raise s c in omega (arith, after_candidate from s.windows s.grants t j)
      ],
    )

-- Every window is kept with a grant at t, and t is not before c.
pub record Found (s : Schedule) (c t : ℤ) : Type 0 where
  pub is_held : holds s t ≡ true
  pub not_before : c ≤ℤ t

earliest_lem :
    (kind : ScheduleKind) (w : Window) (ws : List Window) (gs : List ℤ) (c t : ℤ)
    → let s : Schedule = record { kind = kind; windows = w ∷ ws; grants = gs } in
      first_that_holds s (sort_times (from_of s c)) ≡ some t → earliest s c ≡ t
unfolding earliest
earliest_lem kind w ws gs c t f =
    let s : Schedule = record { kind = kind; windows = w ∷ ws; grants = gs } in
    ap
      (λ (o : Option ℤ). elim o [
        | some u ↦ u
        | none ↦ last_of (sort_times (from_of s c)) (raise s c)
      ])
      f

of_parts :
    (kind : ScheduleKind) (ws : List Window) (gs : List ℤ) (c : ℤ)
    → ((v : Window) → v ∈ ws → IsPositive v)
    → let s : Schedule = record { kind = kind; windows = ws; grants = gs } in
      Found s c (earliest s c)
unfolding earliest holds windows_hold
of_parts kind [] gs c h = record {
  is_held = refl;
  not_before = le-raise (record { kind = kind; windows = []; grants = gs }) c;
}
of_parts kind (w ∷ ws) gs c h =
    let s : Schedule = record { kind = kind; windows = w ∷ ws; grants = gs } in
    let (t, f, q, le) = greatest-holds s c w (inl refl) h in
    subst (Found s c) (sym (earliest_lem kind w ws gs c t f))
      (record { is_held = q; not_before = le })

-- Where each window has a count from 1 and a positive length, earliest returns an instant that is not before its
-- candidate and for which holds is true.
pub earliest-Found :
    (s : Schedule) (c : ℤ)
    → ((v : Window) → v ∈ s.windows → IsPositive v)
    → Found s c (earliest s c)
earliest-Found s c h = of_parts s.kind s.windows s.grants c h
