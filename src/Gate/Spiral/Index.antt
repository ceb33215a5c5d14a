-- ===== src/Gate/Spiral/Index.antt =====
-- About SpiralIndex on the chunks of a ring, internal/gate/spiral.go.
use native.Mathlib.Nat.{div-add-mod'}
use lab_game.Prelude.{
  ℕ, zero, suc, ◌+◌, ◌-◌, ◌*◌, ◌/◌, ◌%◌, ◌^◌, ◌<◌, ◌≡◌, refl, sym, ap, ◌∙◌, arith, inl, inr,
  lt_cases, mod_small, mod_once,
}
use lab_game.Prelude.Int.{
  ℤ, pos, negsuc, pos_part, ◌+ℤ◌, ◌-ℤ◌, ◌*ℤ◌, +ℤ_parts, -ℤ_parts, one_part, eq_of_parts, add_pos,
  mul_pos, sub_pos, sub_pos_lt, wrap64, wrap64_self, mul_bound,
}
use lab_game.Hexgrid.Coord.{
  Chunk, Direction, dir_e, dir_ne, dir_nw, dir_w, dir_sw, dir_se, index_of, origin, distance,
  coord_ext,
}
use lab_game.Hexgrid.Coord.Metric.{norm, distance_lem}
use lab_game.Gate.Spiral.{sides, floor_mod64, direction_at, ring_chunk, spiral_index}
use lab_game.Gate.Spiral.Ring.{
  neg_of_parts, floor_mod64_pos, point, side_chunk_lem, distance-point, side_of-point,
}

negsuc-add : (k m : ℕ) → suc k < m → negsuc k +ℤ pos m ≡ pos (m - suc k)
unfolding ◌+ℤ◌
negsuc-add k m h = ground arith

floor_mod64-sub :
    (a h m : ℕ) → a < m → h < m → floor_mod64 (pos a -ℤ pos h) (pos m) ≡ pos ((a + m - h) % m)
unfolding floor_mod64
floor_mod64-sub a h m ha hh = elim (lt_cases a h) [
  | inr le ↦
      rw
        (
          sub_pos a h le,
          mod_small (a - h) m (omega arith),
          mod_once (a + m - h) m (omega arith) (omega arith),
        )
        (ground arith)
  | inl lt ↦
      rw
        (
          sub_pos_lt a h lt,
          mod_small (suc (h - a - 1)) m (omega arith),
          negsuc-add (h - a - 1) m (omega arith),
          mod_small (a + m - h) m (omega arith),
        )
        (ground arith)
]

index_of-direction_at : (k : ℕ) → k < 6 → index_of (direction_at k) ≡ k
unfolding direction_at
index_of-direction_at zero h = refl
index_of-direction_at (suc zero) h = refl
index_of-direction_at (suc (suc zero)) h = refl
index_of-direction_at (suc (suc (suc zero))) h = refl
index_of-direction_at (suc (suc (suc (suc zero)))) h = refl
index_of-direction_at (suc (suc (suc (suc (suc k))))) h = omega arith

-- The walk starts n / 2 places behind corner 0, and SpiralIndex takes that back.
turn_back : (n p : ℕ) → p < 6 * n → ((p + n / 2) % (6 * n) + 6 * n - n / 2) % (6 * n) ≡ p
turn_back n p h = elim (lt_cases (p + n / 2) (6 * n)) [
  | inl lt ↦
      rw (mod_small (p + n / 2) (6 * n) lt) (mod_once _ _ (omega arith) (omega arith) ∙ omega arith)
  | inr le ↦
      rw (mod_once (p + n / 2) (6 * n) le (omega arith)) (mod_small _ _ (omega arith) ∙ omega arith)
]

pub in_ring : (n : ℕ) (d : Direction) (t : ℕ) → t < n → index_of d * n + t < 6 * n
in_ring n dir_e t h = omega arith
in_ring n d t h = omega arith

number :
    (n : ℕ) (d : Direction) (t : ℕ)
    → t < n
    → pos 1
        +ℤ pos 3 *ℤ pos n *ℤ (pos n -ℤ pos 1)
        +ℤ floor_mod64 (pos (index_of d) *ℤ pos n +ℤ pos t -ℤ pos (n / 2)) (pos sides *ℤ pos n)
      ≡ pos (1 + 3 * n * (n - 1) + (index_of d * n + t + 6 * n - n / 2) % (6 * n))
number n d t h = rw (sub_pos n 1 (omega arith)) (
    simp (mul_pos, add_pos)
      (rw
        (
          floor_mod64-sub (index_of d * n + t) (n / 2) (6 * n) (in_ring n d t h) (omega arith),
          add_pos,
        )
        refl))

pub spiral_index-point :
    (n : ℕ) (d : Direction) (t : ℕ)
    → t < n
    → spiral_index (point n d t)
      ≡ wrap64 (pos (1 + 3 * n * (n - 1) + (index_of d * n + t + 6 * n - n / 2) % (6 * n)))
unfolding spiral_index
spiral_index-point n d t h =
    rw (distance-point n d t h, side_of-point n d t h) (rw (number n d t h) (ground arith))

-- The side and the place of walk position p of ring n.
record Stands (n p : ℕ) : Type 0 where
  pub d : Direction
  pub t : ℕ
  pub on_side : t < n
  pub counts : index_of d * n + t ≡ (p + n / 2) % (6 * n)
  pub is_point : ring_chunk n p ≡ point n d t

pub lt_of_mul : (a b n : ℕ) → a * n < b * n → a < b
lt_of_mul a b n h = grind arith

ring_chunk-Stands : (n p : ℕ) → 0 < n → p < 6 * n → n < 2 ^ 31 → Stands n p
unfolding ring_chunk
ring_chunk-Stands n p hn hp hw =
    let e = (p + n / 2) % (6 * n) in
    let six : e / n < 6 = lt_of_mul (e / n) 6 n (omega (arith, div-add-mod' e n)) in
    record {
      d = direction_at (e / n);
      t = e % n;
      on_side = omega arith;
      counts = rw (index_of-direction_at (e / n) six) (div-add-mod' e n);
      is_point =
          rw (floor_mod64_pos (p + n / 2) (6 * n))
            (side_chunk_lem n (direction_at (e / n)) (e % n) (omega arith) hw);
    }

-- The indices of the rings below 2^30 are int64 values, and those below 2^31 are determined by their low 64 bits.
pub index_lt : (n p : ℕ) → 0 < n → p < 6 * n → n < 2 ^ 30 → 1 + 3 * n * (n - 1) + p < 2 ^ 63
index_lt n p hn hp h =
    omega (arith, mul_bound n (n - 1) (2 ^ 30) (2 ^ 30) (omega arith) (omega arith))

pub index_low_bits : (n p : ℕ) → 0 < n → p < 6 * n → n < 2 ^ 31 → 1 + 3 * n * (n - 1) + p < 2 ^ 64
index_low_bits n p hn hp h =
    omega (arith, mul_bound n (n - 1) (2 ^ 31) (2 ^ 31) (omega arith) (omega arith))

-- Position p of the walk of ring n, from 1 to 2^30 - 1, is at distance n and has the index 1 + 3n(n -
-- 1) + p.
pub spiral_index-ring_chunk :
    (n p : ℕ)
    → 0 < n
    → p < 6 * n
    → n < 2 ^ 30
    → (spiral_index (ring_chunk n p) ≡ pos (1 + 3 * n * (n - 1) + p))
      × (distance origin (ring_chunk n p) ≡ pos n)
spiral_index-ring_chunk n p hn hp hw =
    let s = ring_chunk-Stands n p hn hp (omega arith) in
    (
      ap spiral_index s.is_point
          ∙ spiral_index-point n s.d s.t s.on_side
          ∙ ap (λ k. wrap64 (pos (1 + 3 * n * (n - 1) + k))) (rw s.counts (turn_back n p hp))
          ∙ wrap64_self _ (index_lt n p hn hp hw, omega arith),
      ap (distance origin) s.is_point ∙ distance-point n s.d s.t s.on_side,
    )

-- Every chunk at distance n is a point of ring n.
pub record IsPoint (n : ℕ) (ch : Chunk) : Type 0 where
  pub d : Direction
  pub t : ℕ
  pub on_side : t < n
  pub is_point : ch ≡ point n d t

ruleset point_facts = (arith, neg_of_parts, +ℤ_parts, -ℤ_parts, one_part)

coords-IsPoint : (n : ℕ) (q r : ℤ) → 0 < n → norm q r ≡ n → IsPoint n (record { q = q; r = r })
coords-IsPoint n (pos a) (pos zero) hn e = record {
  d = dir_e;
  t = 0;
  on_side = hn;
  is_point = coord_ext _ _ (omega (point_facts, eq_of_parts)) (omega (point_facts, eq_of_parts));
}
coords-IsPoint n (pos a) (pos (suc b)) hn e = record {
  d = dir_se;
  t = a;
  on_side = omega point_facts;
  is_point = coord_ext _ _ (omega (point_facts, eq_of_parts)) (omega (point_facts, eq_of_parts));
}
coords-IsPoint n (negsuc a) (negsuc b) hn e = record {
  d = dir_nw;
  t = suc a;
  on_side = omega point_facts;
  is_point = coord_ext _ _ (omega (point_facts, eq_of_parts)) (omega (point_facts, eq_of_parts));
}
coords-IsPoint n (pos zero) (negsuc b) hn e = record {
  d = dir_nw;
  t = 0;
  on_side = hn;
  is_point = coord_ext _ _ (omega (point_facts, eq_of_parts)) (omega (point_facts, eq_of_parts));
}
coords-IsPoint n (pos (suc a)) (negsuc b) hn e = elim (lt_cases (suc b) n) [
  | inl lt ↦ record {
    d = dir_e;
    t = suc b;
    on_side = lt;
    is_point = coord_ext _ _ (omega (point_facts, eq_of_parts)) (omega (point_facts, eq_of_parts));
  }
  | inr le ↦ record {
    d = dir_ne;
    t = n - suc a;
    on_side = omega arith;
    is_point = coord_ext _ _ (omega (point_facts, eq_of_parts)) (omega (point_facts, eq_of_parts));
  }
]
coords-IsPoint n (negsuc a) (pos b) hn e = elim (lt_cases b n) [
  | inl lt ↦ record {
    d = dir_w;
    t = b;
    on_side = lt;
    is_point = coord_ext _ _ (omega (point_facts, eq_of_parts)) (omega (point_facts, eq_of_parts));
  }
  | inr le ↦ record {
    d = dir_sw;
    t = n - suc a;
    on_side = omega arith;
    is_point = coord_ext _ _ (omega (point_facts, eq_of_parts)) (omega (point_facts, eq_of_parts));
  }
]

pub chunk-IsPoint : (n : ℕ) (ch : Chunk) → 0 < n → distance origin ch ≡ pos n → IsPoint n ch
chunk-IsPoint n ch hn e =
    coords-IsPoint n ch.q ch.r hn
      (omega (arith, ap pos_part (sym (distance_lem origin ch) ∙ e), -ℤ_parts, +ℤ_parts, one_part))
