-- ===== src/Tg/Limiter/Converge.antt =====
-- About acquireFixedPoint, internal/tg/limit.go.
use lab_game.Prelude.{
  ℕ, zero, suc, ◌≡◌, refl, arith, Bool, true, false, Bool-cases, inl, inr, List, [], ◌∷◌,
  if◌then◌else◌,
}
use lab_game.Prelude.Int.{ℤ, ◌≤ℤ◌, ltb_ℤ}
use lab_game.Tg.Limiter.{latest, fixed_point_from, acquire_fixed_point, max_acquire_passes}

-- f t is not after t, for each function of the list.
abbrev pub Accept : List (ℤ → ℤ) → ℤ → ℤ → Type 0
Accept [] t bound = Unit {0}
Accept (f ∷ fs) t bound = (f t ≤ℤ bound) × Accept fs t bound

latest_lem :
    (fs : List (ℤ → ℤ)) (t next : ℤ) → (next ≤ℤ latest fs t next) × Accept fs t (latest fs t next)
unfolding latest
latest_lem [] t next = (omega arith, tt)
latest_lem (f ∷ fs) t next = elim (Bool-cases (ltb_ℤ next (f t))) [
  | inl e ↦ let k = latest_lem fs t (f t) in rw e (ground (arith, e, k.0), (k.0, k.1))
  | inr e ↦ let k = latest_lem fs t next in rw e (k.0, (ground (arith, e, k.0), k.1))
]

Accept-less : (fs : List (ℤ → ℤ)) (t a b : ℤ) → a ≤ℤ b → Accept fs t a → Accept fs t b
Accept-less [] t a b le h = tt
Accept-less (f ∷ fs) t a b le h = let k = h.0 in (omega arith, Accept-less fs t a b le h.1)

abbrev Settled : List (ℤ → ℤ) → ℤ → ℤ × Bool → Type 0
Settled fs start r = r.1 ≡ true → (start ≤ℤ r.0) × Accept fs r.0 r.0

fixed_point_from_lem :
    (passes : ℕ) (fs : List (ℤ → ℤ)) (start : ℤ)
    → Settled fs start (fixed_point_from passes fs start)
unfolding fixed_point_from
fixed_point_from_lem zero fs start = λ e. absurd (cc)
fixed_point_from_lem (suc passes) fs start =
    pass (ltb_ℤ start (latest fs start start)) refl
      (fixed_point_from passes fs (latest fs start start))
      (fixed_point_from_lem passes fs (latest fs start start))
  where
    pass :
        (b : Bool)
        → ltb_ℤ start (latest fs start start) ≡ b
        → (rest : ℤ × Bool) → Settled fs (latest fs start start) rest
        → Settled fs start (if b then rest else (start, true))
    pass true e rest h q =
        let k = h q in let up = (latest_lem fs start start).0 in (omega (arith, k.0), k.1)
    pass false e rest h q = (
      omega arith,
      Accept-less fs start (latest fs start start) start (ground (arith, e))
          (latest_lem fs start start).1,
    )

-- Where the search converges, its instant is not before the start, and each function maps it to an instant that is not
-- after it.
pub acquire_fixed_point-Settled :
    (start : ℤ) (fs : List (ℤ → ℤ))
    → (acquire_fixed_point start fs).1 ≡ true
    → (start ≤ℤ (acquire_fixed_point start fs).0)
      × Accept fs (acquire_fixed_point start fs).0 (acquire_fixed_point start fs).0
unfolding acquire_fixed_point
acquire_fixed_point-Settled start fs = fixed_point_from_lem max_acquire_passes fs start
