-- ===== src/Gate/Spiral/Met.antt =====
-- About the walk of a ring: internal/gate/spiral.go.
use native.Mathlib.Nat.{div-add-mod', mul-add-mod_self_right}
use lab_game.Prelude.{
  ℕ, zero, suc, ◌+◌, ◌-◌, ◌*◌, ◌/◌, ◌%◌, ◌^◌, ◌≤◌, ◌<◌, ◌≡◌, refl, sym, ap, ◌∙◌, arith, inl, inr,
  lt_cases, mod_small, mod_once,
}
use lab_game.Prelude.Int.{pos, neg_ℤ, neg_ℤ_parts, neg_of, eq_of_parts, wrap32, wrap32_self, wrap64}
use lab_game.Hexgrid.Coord.{Chunk, coord_ext, Direction, dir_e, index_of, origin, distance}
use lab_game.Gate.Spiral.{direction_at, ring_chunk, spiral_index}
use lab_game.Gate.Spiral.Ring.{neg_of_parts, floor_mod64_pos, side_chunk_lem}
use lab_game.Gate.Spiral.Index.{in_ring, chunk-IsPoint, spiral_index-point}

direction_at-index_of : (d : Direction) → direction_at (index_of d) ≡ d
unfolding direction_at
direction_at-index_of dir_e = refl
direction_at-index_of d = refl

mul_cancel : (a b n : ℕ) → 0 < n → a * n ≡ b * n → a ≡ b
mul_cancel a b n h e = grind arith

div_of : (k n t : ℕ) → t < n → ((k * n + t) / n ≡ k) × ((k * n + t) % n ≡ t)
div_of k n t h =
    let m = mul-add-mod_self_right k n t ∙ mod_small t n h in
    (mul_cancel _ k n (omega arith) (omega (arith, div-add-mod' (k * n + t) n)), m)

turn_forth : (n v : ℕ) → v < 6 * n → ((v + 6 * n - n / 2) % (6 * n) + n / 2) % (6 * n) ≡ v
turn_forth n v h = elim (lt_cases (v + 6 * n - n / 2) (6 * n)) [
  | inl lt ↦ rw (mod_small _ (6 * n) lt) (mod_once _ _ (omega arith) (omega arith) ∙ omega arith)
  | inr le ↦
      rw (mod_once (v + 6 * n - n / 2) (6 * n) le (omega arith))
        (mod_small _ _ (omega arith) ∙ omega arith)
]

-- The walk of ring n starts at (n, -floor(n / 2)).
pub ring_start :
    (n : ℕ)
    → 0 < n
    → n < 2 ^ 31
    → let start : Chunk = record { q = wrap32 (pos n); r = wrap32 (neg_ℤ (pos (n / 2))) } in
      ring_chunk n 0 ≡ start
unfolding ring_chunk direction_at
ring_start n hn hw =
    let small : 0 + n / 2 < 6 * n = omega arith in
    let side = div_of 0 n (n / 2) (omega arith) in
    let e : 0 + n / 2 ≡ 0 * n + n / 2 = omega arith in
    let r : neg_ℤ (pos (n / 2)) ≡ neg_of (n / 2) = omega (
      arith,
      neg_ℤ_parts (pos (n / 2)),
      neg_of_parts (n / 2),
      eq_of_parts (neg_ℤ (pos (n / 2))) (neg_of (n / 2)),
    ) in
    rw (floor_mod64_pos (0 + n / 2) (6 * n), mod_small (0 + n / 2) (6 * n) small, e, side.0, side.1)
      (side_chunk_lem n dir_e (n / 2) (omega arith) hw
        ∙ coord_ext _ _ (sym (wrap32_self (pos n) (omega arith))) (
            sym (ap wrap32 r ∙ wrap32_self (neg_of (n / 2)) (omega (arith, neg_of_parts (n / 2))))))

-- Where the ring walk meets a chunk.
pub record Met (n : ℕ) (ch : Chunk) : Type 0 where
  pub p : ℕ
  pub in_walk : p < 6 * n
  pub numbered : spiral_index ch ≡ wrap64 (pos (1 + 3 * n * (n - 1) + p))
  pub met : n < 2 ^ 31 → ring_chunk n p ≡ ch

-- Every chunk at distance n, from 1 to 2^31 - 1, is met by the walk of ring n.
pub chunk-Met : (n : ℕ) (ch : Chunk) → 0 < n → distance origin ch ≡ pos n → Met n ch
unfolding ring_chunk
chunk-Met n ch hn e =
    let s = chunk-IsPoint n ch hn e in
    let v = index_of s.d * n + s.t in
    let lt = in_ring n s.d s.t s.on_side in
    let q = (v + 6 * n - n / 2) % (6 * n) in
    record {
      p = q;
      in_walk = omega arith;
      numbered = ap spiral_index s.is_point ∙ spiral_index-point n s.d s.t s.on_side;
      met = λ hw.
          rw
            (
              floor_mod64_pos (q + n / 2) (6 * n),
              turn_forth n v lt,
              (div_of (index_of s.d) n s.t s.on_side).0,
              (div_of (index_of s.d) n s.t s.on_side).1,
              direction_at-index_of,
            )
            (side_chunk_lem n s.d s.t s.on_side hw ∙ sym s.is_point);
    }

-- A ring number is at most that of a larger index.
pub ring_bound : (n top : ℕ) → n * (n - 1) < top * (top + 1) → n ≤ top
ring_bound zero top h = omega arith
ring_bound (suc m) top h = elim (lt_cases top (suc m)) [
  | inl lt ↦ absurd (grind arith)
  | inr le ↦ le
]

pub next_ring : (n : ℕ) → 0 < n → suc n * (suc n - 1) ≡ n * (n - 1) + 2 * n
next_ring zero h = absurd (omega arith)
next_ring (suc m) h =
    let e : suc (suc m) - 1 ≡ suc m = omega arith in
    let f : suc m - 1 ≡ m = omega arith in rw (e, f) (omega arith)
