-- ===== src/Gate/Depth/Rings.antt =====
-- About ringChunksAround and lowerBound, internal/gate/depth.go.
use mathlib.Core.Path.{subst}
use native.Mathlib.Nat.{div-add-mod', mod-lt}
use lab_game.Prelude.{
  ◌==◌, false, ℕ, zero, suc, ◌+◌, ◌-◌, ◌*◌, ◌/◌, ◌^◌, ◌≤◌, ◌<◌, ◌≡◌, refl, sym, ap, ◌∙◌, arith, inl,
  inr, le_cases,
}
use lab_game.Prelude.Int.{
  ℤ, pos, pos_part, ◌+ℤ◌, ◌-ℤ◌, ◌≤ℤ◌, add_pos, mul_pos, sub_pos, +ℤ_parts, -ℤ_parts, one_part,
  wrap32, wrap32_self, wrap64_self, eq_of_parts,
}
use lab_game.Prelude.Members.{◌∈◌}
use lab_game.Hexgrid.Coord.{Chunk, distance, origin, InRange, coord_ext}
use lab_game.Hexgrid.Coord.Metric.{distance_lem, distance_zero}
use lab_game.Hexgrid.Lattice.Cover.{cells}
use lab_game.Hexgrid.Lattice.Center.{cell_count_lem}
use lab_game.Hexgrid.Lattice.Corner.{lattice}
use lab_game.Gate.Spiral.{sides, ring_chunk}
use lab_game.Gate.Spiral.Met.{Met, chunk-Met}
use lab_game.Hexgrid.Lattice.Unique.{mul_mono}
use lab_game.Gate.Spiral.Index.{lt_of_mul}
use lab_game.Gate.Depth.{ceil_div64, lower_bound, offset_by, ring_from, ring_chunks_around}

mem-ring_from :
    (centre : Chunk) (n p left k : ℕ)
    → p ≤ k
    → k < p + left
    → offset_by centre (ring_chunk n k) ∈ ring_from centre n p left
unfolding ring_from
mem-ring_from centre n p zero k h g = absurd (omega arith)
mem-ring_from centre n p (suc left) k h g = elim (le_cases p k h) [
  | inl e ↦ inl (ap (λ (t : ℕ). offset_by centre (ring_chunk n t)) (sym e))
  | inr lt ↦ inr (mem-ring_from centre n (suc p) left k lt (omega arith))
]

add_back : (a b : ℤ) → a +ℤ (b -ℤ a) ≡ b
add_back a b = omega (arith, +ℤ_parts a (b -ℤ a), -ℤ_parts b a, eq_of_parts (a +ℤ (b -ℤ a)) b)

suc-ne-zero : (n : ℕ) → (suc n == 0) ≡ false
suc-ne-zero n = ground arith

at_position :
    (centre g : Chunk) (n : ℕ) (off : Chunk)
    → Met (suc n) off
    → suc n < 2 ^ 31
    → offset_by centre off ≡ g
    → g ∈ ring_chunks_around centre (suc n)
unfolding ring_chunks_around
at_position centre g n off m hn back =
    let here =
      mem-ring_from centre (suc n) 0 (sides * suc n) m.p (omega arith) (omega (arith, m.in_walk)) in
    rw (suc-ne-zero n) (
      subst (λ c. c ∈ ring_from centre (suc n) 0 (sides * suc n))
        (ap (offset_by centre) (m.met hn) ∙ back) here)

-- Every chunk in int32 range at distance n, below 2^31, from a centre is among the chunks that the
-- search visits in ring n.
pub mem-ring_chunks_around :
    (centre g : Chunk) (n : ℕ)
    → InRange g
    → n < 2 ^ 31
    → distance centre g ≡ pos n
    → g ∈ ring_chunks_around centre n
unfolding ring_chunks_around
mem-ring_chunks_around centre g zero inside hn e = inl (sym ((distance_zero centre g).0 e))
mem-ring_chunks_around centre g (suc n) inside hn e =
    let off : Chunk = record { q = g.q -ℤ centre.q; r = g.r -ℤ centre.r } in
    let d : distance origin off ≡ pos (suc n) =
      distance_lem origin off
      ∙ ap pos (
          omega
            (arith, ap pos_part (sym (distance_lem centre g) ∙ e), -ℤ_parts, +ℤ_parts, one_part)) in
    at_position centre g n off (chunk-Met (suc n) off (omega arith) d) hn (
      coord_ext _ _ (ap wrap32 (add_back centre.q g.q) ∙ wrap32_self g.q inside.0)
        (ap wrap32 (add_back centre.r g.r) ∙ wrap32_self g.r inside.1))

lower_bound_parts :
    (r ring : ℕ)
    → r < 2 ^ 30
    → ring * cells r < 2 ^ 62
    → lower_bound (lattice r) ring ≡ pos ((ring * cells r + (2 * r + 1) - 1) / (2 * r + 1)) -ℤ pos r
unfolding lower_bound ceil_div64
lower_bound_parts r ring hr product =
    rw
      (
        cell_count_lem r hr,
        mul_pos 2 r,
        add_pos (2 * r) 1,
        mul_pos ring (cells r),
        wrap64_self (pos (ring * cells r)) (omega arith, omega arith),
        add_pos (ring * cells r) (2 * r + 1),
        sub_pos (ring * cells r + (2 * r + 1)) 1 (omega arith),
        wrap64_self (pos (ring * cells r + (2 * r + 1) - 1)) (omega arith, omega arith),
      )
      refl

div_lt : (a b k : ℕ) → a < k * b → a / b < k
div_lt a b k h = lt_of_mul (a / b) k b (omega (arith, div-add-mod' a b))

le_div : (a b k : ℕ) → 0 < b → k * b ≤ a → k ≤ a / b
le_div a b k hb h =
    let lt : k < a / b + 1 =
      lt_of_mul k (a / b + 1) b (omega (arith, div-add-mod' a b, mod-lt a hb)) in
    omega arith

-- The bound of a ring holds for every chunk of that ring and of the rings behind it.
pub lower_bound_le :
    (r ring n d : ℕ)
    → r < 2 ^ 30
    → ring * cells r < 2 ^ 62
    → cells r * n ≤ (2 * r + 1) * (d + r)
    → ring ≤ n
    → lower_bound (lattice r) ring ≤ℤ pos d
lower_bound_le r ring n d hr product h le =
    let m = mul_mono (cells r) ring n le in
    let lt = div_lt (ring * cells r + (2 * r + 1) - 1) (2 * r + 1) (d + r + 1) (omega arith) in
    rw (lower_bound_parts r ring hr product) (omega (arith, -ℤ_parts))

-- The bound grows with the ring.
pub le-lower_bound :
    (r ring : ℕ)
    → r < 2 ^ 30
    → ring * cells r < 2 ^ 62
    → pos ring ≤ℤ lower_bound (lattice r) ring +ℤ pos r
le-lower_bound r ring hr product =
    let m = mul_mono ring (2 * r + 1) (cells r) (omega arith) in
    let le =
      le_div (ring * cells r + (2 * r + 1) - 1) (2 * r + 1) ring (omega arith) (omega arith) in
    rw (lower_bound_parts r ring hr product) (omega (arith, -ℤ_parts, +ℤ_parts))
