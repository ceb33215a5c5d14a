-- ===== src/Maze/Draw/Bounds.antt =====
-- About boundedDraw, internal/maze/draw.go.
use lab_game.Prelude.{
  ℕ, zero, suc, ◌+◌, ◌^◌, ◌≤◌, ◌<◌, ◌≡◌, refl, ap, ◌∙◌, arith, ltb, leb, Bool-cases, true, false,
  ◌⊎◌, inl, inr, List, [], ◌∷◌, length, get_elem?, some,
}
use native.Mathlib.Nat.{mod-lt}
use lab_game.Maze.Draw.{
  Stream, Run, ok, panic, out_of_fuel, Draws, ◌>>=◌, sample, reject_from, bounded_draw, load,
}

-- Among any `patience` values in a row, one is below the limit of the bound n.
abbrev pub IsFair : Stream → Type 0
IsFair s =
    (n p : ℕ) → 1 < n → n < 2 ^ 64 → (i : ℕ) × (i < s.patience) × (s.values (p + i) < reject_from n)

-- The code ends with a value for which P holds, at a call count that is not smaller.
abbrev pub EndsIn : {A : Type 0} → (A → Type 0) → ℕ → Run A → Type 0
EndsIn {A} P p r = (a : A) × (q : ℕ) × (r ≡ ok a q) × (p ≤ q) × P a

-- A bind whose first part ends goes on with its value.
pub >>=-ok :
    {A B : Type 0} (m : Draws A) (f : A → Draws B) {p q : ℕ} {a : A} {r : Run B}
    → m p ≡ ok a q
    → f a q ≡ r
    → (m >>= f) p ≡ r
>>=-ok m f e h =
    ap (λ o. elim o [ ok a q ↦ f a q | panic ↦ panic | out_of_fuel ↦ out_of_fuel ]) e ∙ h

sample_ends :
    (s : Stream) (n k p i : ℕ)
    → 1 < n
    → i < k
    → s.values (p + i) < reject_from n
    → EndsIn (λ v. v < n) p (sample s n k p)
unfolding sample
sample_ends s n zero p i hn lt h = absurd (omega arith)
sample_ends s n (suc k) p zero hn lt h =
    let e : ltb (s.values p) (reject_from n) ≡ true = ground (arith, h) in
    rw e (_, _, refl, omega arith, mod-lt (s.values p) (omega arith))
sample_ends s n (suc k) p (suc i) hn lt h =
    let same : s.values (suc p + i) ≡ s.values (p + suc i) = ap s.values (omega arith) in
    let r = sample_ends s n k (suc p) i hn (omega arith) (rw same h) in
    elim (Bool-cases (ltb (s.values p) (reject_from n))) [
      | inl e ↦ rw e (_, _, refl, omega arith, mod-lt (s.values p) (omega arith))
      | inr e ↦ rw e (r.0, r.1, r.2, omega (arith, r.3), r.4)
    ]

-- With a fair stream, a bounded draw ends with a value in [0, n), for bounds below 2^64, and with 0 for the bound 0.
pub bounded_draw-EndsIn :
    (s : Stream) (n p : ℕ)
    → IsFair s
    → n < 2 ^ 64
    → EndsIn (λ v. (v < n) ⊎ ((v ≡ 0) × (n ≡ 0))) p (bounded_draw s n p)
unfolding bounded_draw
bounded_draw-EndsIn s zero p fair hn = (0, p, refl, omega arith, inr (refl, refl))
bounded_draw-EndsIn s (suc zero) p fair hn = (0, p, refl, omega arith, inl (omega arith))
bounded_draw-EndsIn s (suc (suc n)) p fair hn =
    let f = fair (suc (suc n)) p (omega arith) hn in
    let r = sample_ends s (suc (suc n)) s.patience p f.0 (omega arith) f.1 f.2 in
    let e : leb (suc (suc n)) 1 ≡ false = ground arith in rw e (r.0, r.1, r.2, r.3, inl r.4)

pub load_ok :
    {A : Type 0} (xs : List A) (i p : ℕ)
    → i < length xs
    → (a : A) × (get_elem? xs i ≡ some a) × (load xs i p ≡ ok a p)
unfolding load
load_ok [] i p h = absurd (omega arith)
load_ok (x ∷ xs) zero p h = (x, refl, refl)
load_ok (x ∷ xs) (suc i) p h = load_ok xs i p (omega arith)
