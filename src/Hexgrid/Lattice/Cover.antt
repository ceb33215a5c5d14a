-- ===== src/Hexgrid/Lattice/Cover.antt =====
-- The arithmetic under Locate, internal/hexgrid/lattice.go: the cells of the super-basis and their corners.
use lab_game.Prelude.{
  ℕ, zero, suc, ◌-◌, ap, inl, inr, leb, Bool-cases, ◌+◌, ◌*◌, ◌≤◌, ◌<◌, ◌≡◌, ◌⊎◌, arith,
}

-- The number of cells of a chunk.
abbrev pub cells : ℕ → ℕ
cells r = suc (3 * r * r + 3 * r)

pub cancel_le : (n u v k : ℕ) → n * u ≤ n * v + k → k < n → u ≤ v
cancel_le n u v k h lt = grind arith

mul_le : (m a n : ℕ) → a < n → m * a + m ≤ m * n
mul_le m a n h = grind arith

module _ (r a b xp xn yp yn : ℕ) (ha : a < cells r) (hb : b < cells r)
    (ex : cells r * xp ≡ cells r * xn + (2 * r + 1) * a + r * b)
    (ey : cells r * yp + r * a ≡ cells r * yn + (r + 1) * b) where
  x_nonneg : xn ≤ xp
  x_nonneg = cancel_le (cells r) xn xp 0 (omega arith) (omega arith)

  x_le : xp ≤ xn + 3 * r
  x_le =
      cancel_le (cells r) xp (xn + 3 * r) (3 * r * r)
        (omega (arith, mul_le (2 * r + 1) a (cells r) ha, mul_le r b (cells r) hb)) (omega arith)

  y_ge : yn ≤ yp + r
  y_ge = cancel_le (cells r) yn (yp + r) 0 (omega (arith, mul_le r a (cells r) ha)) (omega arith)

  y_le : yp ≤ yn + r
  y_le =
      cancel_le (cells r) yp (yn + r) (3 * r * r + 2 * r)
        (omega (arith, mul_le (r + 1) b (cells r) hb)) (omega arith)

  s_nonneg : xn + yn ≤ xp + yp
  s_nonneg = cancel_le (cells r) (xn + yn) (xp + yp) 0 (omega arith) (omega arith)

  s_le : xp + yp ≤ xn + yn + 3 * r + 1
  s_le =
      cancel_le (cells r) (xp + yp) (xn + yn + 3 * r + 1) (3 * r * r)
        (omega (arith, mul_le (r + 1) a (cells r) ha, mul_le (2 * r + 1) b (cells r) hb))
        (omega arith)

  pub displaced : (xn ≤ xp) × (xp ≤ xn + 3 * r) × (yn ≤ yp + r) × (yp ≤ yn + r)
  displaced = (x_nonneg, x_le, y_ge, y_le)

  -- The displacement from the lower corner is within `r` of one of the four corners.
  pub covered :
      (xn ≤ xp)
        × (xp ≤ xn + r)
        × (yp ≤ yn + r)
        × (yn ≤ yp + r)
        × (xp + yp ≤ xn + yn + r)
        × (xn + yn ≤ xp + yp)
      ⊎ (xn ≤ xp)
        × (xp ≤ xn + 2 * r)
        × (yn + 1 ≤ yp)
        × (yp ≤ yn + r)
        × (xn + yn + r + 1 ≤ xp + yp)
        × (xp + yp ≤ xn + yn + 3 * r + 1)
      ⊎ (xn + r + 1 ≤ xp)
        × (xp ≤ xn + 3 * r)
        × (yp ≤ yn)
        × (yn ≤ yp + r)
        × (xn + yn + 1 ≤ xp + yp)
        × (xp + yp ≤ xn + yn + 2 * r + 1)
      ⊎ (xn + 2 * r + 1 ≤ xp)
        × (xp ≤ xn + 3 * r)
        × (yn + 2 ≤ yp + r)
        × (yp ≤ yn + r)
        × (xn + yn + 2 * r + 2 ≤ xp + yp)
        × (xp + yp ≤ xn + yn + 3 * r + 1)
  covered = grind (arith, x_nonneg, x_le, y_ge, y_le, s_nonneg, s_le)

gap : (a b : ℕ) → ((k : ℕ) × (a ≡ b + k)) ⊎ ((k : ℕ) × (b ≡ a + suc k))
gap a b = elim (Bool-cases (leb b a)) [
  | inl h ↦ inl (a - b, ground arith)
  | inr h ↦ inr (b - a - 1, ground arith)
]

mul : (m : ℕ) {a b : ℕ} → a ≡ b → a * m ≡ b * m
mul m e = ap (λ (t : ℕ). t * m) e

module _ (r : ℕ) where
  same_signs :
      (k l : ℕ)
      → k * (2 * r + 1) + l * r ≤ 2 * r
      → k * (r + 1) + l * (2 * r + 1) ≤ 2 * r
      → (k ≡ 0) × (l ≡ 0)
  same_signs zero zero h g = (omega arith, omega arith)
  same_signs (suc k) l h g = absurd (omega arith)
  same_signs zero (suc l) h g = absurd (omega arith)

  other_signs :
      (k l : ℕ)
      → k * (2 * r + 1) ≤ l * r + 2 * r
      → k * r + l * (r + 1) ≤ 2 * r
      → l * (2 * r + 1) ≤ k * (r + 1) + 2 * r
      → (k ≡ 0) × (l ≡ 0)
  other_signs zero zero h g f = (omega arith, omega arith)
  other_signs (suc k) zero h g f = absurd (omega arith)
  other_signs zero (suc l) h g f = absurd (omega arith)
  other_signs (suc k) (suc l) h g f = absurd (omega arith)

  scaled :
      {a b : ℕ}
      → a ≡ b
      → (a * (2 * r + 1) ≡ b * (2 * r + 1)) × (a * r ≡ b * r) × (a * (r + 1) ≡ b * (r + 1))
  scaled e = (mul (2 * r + 1) e, mul r e, mul (r + 1) e)

  -- Two points of the super-lattice at distance 2r or less are one point.
  pub apart :
      (kp kn lp ln : ℕ)
      → (kp * (2 * r + 1) + lp * r ≤ kn * (2 * r + 1) + ln * r + 2 * r)
        × (kn * (2 * r + 1) + ln * r ≤ kp * (2 * r + 1) + lp * r + 2 * r)
      → (kn * r + lp * (r + 1) ≤ kp * r + ln * (r + 1) + 2 * r)
        × (kp * r + ln * (r + 1) ≤ kn * r + lp * (r + 1) + 2 * r)
      → (kp * (r + 1) + lp * (2 * r + 1) ≤ kn * (r + 1) + ln * (2 * r + 1) + 2 * r)
        × (kn * (r + 1) + ln * (2 * r + 1) ≤ kp * (r + 1) + lp * (2 * r + 1) + 2 * r)
      → (kp ≡ kn) × (lp ≡ ln)
  apart kp kn lp ln x y s = elim (gap kp kn) [
    | inl (k, ek) ↦ elim (gap lp ln) [
      | inl (l, el) ↦
          let u = scaled ek in
          let v = scaled el in
          let z = same_signs k l (omega arith) (omega arith) in (omega arith, omega arith)
      | inr (l, el) ↦
          let u = scaled ek in
          let v = scaled el in
          let z = other_signs k (suc l) (omega arith) (omega arith) (omega arith) in
          (omega arith, omega arith)
    ]
    | inr (k, ek) ↦ elim (gap lp ln) [
      | inl (l, el) ↦
          let u = scaled ek in
          let v = scaled el in
          let z = other_signs (suc k) l (omega arith) (omega arith) (omega arith) in
          (omega arith, omega arith)
      | inr (l, el) ↦
          let u = scaled ek in
          let v = scaled el in
          let z = same_signs (suc k) (suc l) (omega arith) (omega arith) in
          (omega arith, omega arith)
    ]
  ]
