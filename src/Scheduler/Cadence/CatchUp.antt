-- ===== src/Scheduler/Cadence/CatchUp.antt =====
-- About Every, internal/scheduler/cadence.go.
use native.Mathlib.Nat.{div-add-mod', mod-lt}
use lab_game.Prelude.{
  ℕ, suc, ◌+◌, ◌*◌, ◌/◌, ◌<◌, ◌≤◌, ◌≡◌, refl, ap, arith, if◌then◌else◌, le→ltb, lt→ltb, lt_cases,
  inl, inr, ◌-◌, ◌^◌,
}
use lab_game.Prelude.Int.{
  ℤ, pos, negsuc, pos_part, neg_part, ◌+ℤ◌, ◌-ℤ◌, ◌*ℤ◌, ◌/ℤ◌, ◌<ℤ◌, ltb_ℤ, +ℤ_parts, -ℤ_parts,
  one_part, add_pos, mul_pos, wrap64, wrap64_self,
}
use lab_game.Scheduler.Cadence.{every, saturate64}

-- The occurrence is k periods after the previous one, for a k from 1, and it is the first such after now.
pub record IsNextOccurrence (period : ℕ) (prev now next : ℤ) : Type 0 where
  pub k : ℕ
  pub at_least_one : 1 ≤ k
  pub occurs : next ≡ prev +ℤ pos (k * period)
  pub in_future : now <ℤ next
  pub first : (j : ℕ) → 1 ≤ j → now <ℤ prev +ℤ pos (j * period) → k ≤ j

le_of_mul : (k j period now : ℕ) → (k * period ≤ now) → now < j * period → k < j
le_of_mul k j period now h g = grind arith

mul_mono : (k d : ℕ) → 0 < d → k ≤ k * d
mul_mono k d h = grind arith

div_le : (n d : ℕ) → 0 < d → n / d ≤ n
div_le n d h = omega (arith, mul_mono (n / d) d h, div-add-mod' n d)

-- Nothing is missed while now lies before the previous occurrence.
early :
    (period : ℕ) (prev now : ℤ)
    → 0 < period
    → now <ℤ prev
    → IsNextOccurrence period prev now (prev +ℤ pos period)
early period prev now h lt = record {
  k = 1;
  at_least_one = omega arith;
  occurs = ap (λ t. prev +ℤ pos t) (omega arith);
  in_future = omega (arith, +ℤ_parts prev (pos period));
  first = λ j one later. one;
}

missed :
    (period n : ℕ) (prev now : ℤ)
    → 0 < period
    → n + neg_part now + pos_part prev ≡ pos_part now + neg_part prev
    → IsNextOccurrence period prev now (prev +ℤ pos ((n / period + 1) * period))
missed period n prev now h e =
    let whole = div-add-mod' n period in
    let less = mod-lt n h in
    let below : n < (n / period + 1) * period = omega arith in
    record {
      k = n / period + 1;
      at_least_one = omega arith;
      occurs = refl;
      in_future = omega (arith, +ℤ_parts prev (pos ((n / period + 1) * period)));
      first = λ j one later.
          let sum = +ℤ_parts prev (pos (j * period)) in
          let g : n < j * period = omega (arith, one_part prev, one_part now) in
          let lt = le_of_mul (n / period) j period n (omega arith) g in omega arith;
    }

saturate64_pos : (n : ℕ) → n < 2 ^ 63 → saturate64 (pos n) ≡ pos n
unfolding saturate64
saturate64_pos n h = ground arith

saturate64_negsuc : (n : ℕ) → (m : ℕ) × (saturate64 (negsuc n) ≡ negsuc m)
unfolding saturate64
saturate64_negsuc n = elim (lt_cases n (2 ^ 63)) [
  | inl lt ↦ (n, ground arith)
  | inr le ↦ (2 ^ 63 - 1, ground arith)
]

every_elapsed : ℕ → ℤ → ℤ → ℤ
every_elapsed period prev elapsed =
    if ltb_ℤ elapsed (pos 0)
    then prev +ℤ pos period
    else prev +ℤ wrap64 (wrap64 (elapsed /ℤ pos period +ℤ pos 1) *ℤ pos period)

elapsed_cases :
    (period : ℕ) (prev now e : ℤ)
    → 0 < period
    → pos_part e + period < 2 ^ 63
    → pos_part e + neg_part now + pos_part prev ≡ neg_part e + pos_part now + neg_part prev
    → IsNextOccurrence period prev now (every_elapsed period prev (saturate64 e))
unfolding every_elapsed
elapsed_cases period prev now (pos n) h fits p =
    let whole = div-add-mod' n period in
    let count : n / period ≤ n = div_le n period h in
    rw
      (
        saturate64_pos n (omega arith),
        le→ltb (n + 0) 0 (omega arith),
        add_pos (n / period) 1,
        wrap64_self (pos (n / period + 1)) (omega arith, omega arith),
        mul_pos (n / period + 1) period,
        wrap64_self (pos ((n / period + 1) * period)) (omega arith, omega arith),
      )
      (missed period n prev now h (omega arith))
elapsed_cases period prev now (negsuc n) h fits p =
    let (m, e) = saturate64_negsuc n in
    rw (e, lt→ltb 0 (0 + suc m) (omega arith)) (early period prev now h (omega arith))

-- For a positive period, Every gives the first occurrence after now, however many periods were missed: where the time
-- from the previous occurrence to now and one more period are together below 2^63 nanoseconds.
pub every-IsNextOccurrence :
    (period : ℕ) (prev now : ℤ)
    → 0 < period
    → pos_part (now -ℤ prev) + period < 2 ^ 63
    → IsNextOccurrence period prev now (every (pos period) prev now)
unfolding every every_elapsed
every-IsNextOccurrence period prev now h fits =
    elapsed_cases period prev now (now -ℤ prev) h fits (-ℤ_parts now prev)
