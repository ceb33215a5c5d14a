-- ===== src/Gate/Spiral/Ring.antt =====
-- About the sides of a ring, internal/gate/spiral.go.
use lab_game.Prelude.{ℕ, zero, suc, ◌+◌, ◌*◌, ◌%◌, ◌^◌, ◌<◌, ◌≡◌, refl, ap, ◌∙◌, arith}
use lab_game.Prelude.Int.{
  ℤ, pos, pos_part, neg_part, ◌+ℤ◌, ◌-ℤ◌, ◌*ℤ◌, neg_ℤ, neg_of, wrap32, wrap32_self, IsInt32,
  +ℤ_parts, -ℤ_parts, *ℤ_parts, neg_ℤ_parts, one_part, eq_of_parts,
}
use lab_game.Hexgrid.Coord.{
  Chunk, Direction, dir_e, dir_ne, dir_nw, dir_w, dir_sw, dir_se, neighbor, origin, distance,
  direction_deltas, coord_ext,
}
use lab_game.Hexgrid.Coord.Metric.{distance_lem}
use lab_game.Gate.Spiral.{delta, floor_mod64, side_chunk, side_of}

pub floor_mod64_pos : (a b : ℕ) → floor_mod64 (pos a) (pos b) ≡ pos (a % b)
unfolding floor_mod64
floor_mod64_pos a b = ground arith

delta_lem : (d : Direction) → delta d ≡ direction_deltas d
unfolding delta neighbor direction_deltas wrap32 ◌+ℤ◌
delta_lem dir_e = refl
delta_lem d = refl

-- Point t of side d, by its coordinates.
abbrev pub point : ℕ → Direction → ℕ → Chunk
point n dir_e t = record { q = pos n; r = neg_of t }
point n dir_ne t = record { q = pos n -ℤ pos t; r = neg_of n }
point n dir_nw t = record { q = neg_of t; r = pos t -ℤ pos n }
point n dir_w t = record { q = neg_of n; r = pos t }
point n dir_sw t = record { q = pos t -ℤ pos n; r = pos n }
point n dir_se t = record { q = pos t; r = pos n -ℤ pos t }

coordinate :
    (n t : ℕ) (u v w : ℤ)
    → pos_part w + (n * neg_part u + t * neg_part v)
      ≡ neg_part w + (n * pos_part u + t * pos_part v)
    → IsInt32 w
    → wrap32 (pos n *ℤ u +ℤ pos t *ℤ v) ≡ w
coordinate n t u v w e h =
    ap wrap32 (
      omega (
        arith,
        +ℤ_parts (pos n *ℤ u) (pos t *ℤ v),
        *ℤ_parts (pos n) u,
        *ℤ_parts (pos t) v,
        eq_of_parts (pos n *ℤ u +ℤ pos t *ℤ v) w,
      ))
    ∙ wrap32_self w h

-- n steps of `u` and t steps of `v` end at `w`, in int32 range.
abbrev Arrives : ℕ → ℕ → ℤ → ℤ → ℤ → Type 0
Arrives n t u v w =
    (pos_part w + (n * neg_part u + t * neg_part v)
      ≡ neg_part w + (n * pos_part u + t * pos_part v))
    × IsInt32 w

arrive :
    (n t : ℕ) (c s w : Chunk)
    → Arrives n t c.q s.q w.q × Arrives n t c.r s.r w.r
    → let there : Chunk = record {
      q = wrap32 (pos n *ℤ c.q +ℤ pos t *ℤ s.q);
      r = wrap32 (pos n *ℤ c.r +ℤ pos t *ℤ s.r);
    } in
      there ≡ w
arrive n t c s w h =
    coord_ext _ _ (coordinate n t c.q s.q w.q h.0.0 h.0.1) (coordinate n t c.r s.r w.r h.1.0 h.1.1)

pub neg_of_parts : (n : ℕ) → (pos_part (neg_of n) ≡ 0) × (neg_part (neg_of n) ≡ n)
neg_of_parts zero = (refl, refl)
neg_of_parts (suc n) = (refl, refl)

ruleset ring_facts = (arith, neg_of_parts, +ℤ_parts, -ℤ_parts, neg_ℤ_parts, one_part)

pub side_chunk_lem :
    (n : ℕ) (d : Direction) (t : ℕ) → t < n → n < 2 ^ 31 → side_chunk n d t ≡ point n d t
unfolding side_chunk direction_deltas
side_chunk_lem n dir_e t ht hn =
    rw (delta_lem dir_e, delta_lem dir_nw) (arrive n t _ _ _ (omega ring_facts))
side_chunk_lem n dir_ne t ht hn =
    rw (delta_lem dir_ne, delta_lem dir_w) (arrive n t _ _ _ (omega ring_facts))
side_chunk_lem n dir_nw t ht hn =
    rw (delta_lem dir_nw, delta_lem dir_sw) (arrive n t _ _ _ (omega ring_facts))
side_chunk_lem n dir_w t ht hn =
    rw (delta_lem dir_w, delta_lem dir_se) (arrive n t _ _ _ (omega ring_facts))
side_chunk_lem n dir_sw t ht hn =
    rw (delta_lem dir_sw, delta_lem dir_e) (arrive n t _ _ _ (omega ring_facts))
side_chunk_lem n dir_se t ht hn =
    rw (delta_lem dir_se, delta_lem dir_ne) (arrive n t _ _ _ (omega ring_facts))

-- Every point of ring n is at distance n from the centre chunk.
pub distance-point : (n : ℕ) (d : Direction) (t : ℕ) → t < n → distance origin (point n d t) ≡ pos n
distance-point n dir_e t h = distance_lem origin _ ∙ ap pos (omega ring_facts)
distance-point n d t h = distance_lem origin _ ∙ ap pos (omega ring_facts)

module _ (n t : ℕ) (h : t < n) where
  minus_t : pos n -ℤ (pos n -ℤ pos t) ≡ pos t
  minus_t = omega (arith, -ℤ_parts, eq_of_parts (pos n -ℤ (pos n -ℤ pos t)) (pos t))

  plus_n : pos t -ℤ pos n +ℤ pos n ≡ pos t
  plus_n = omega (arith, -ℤ_parts, +ℤ_parts, eq_of_parts (pos t -ℤ pos n +ℤ pos n) (pos t))

  negated : neg_ℤ (neg_of t) ≡ pos t
  negated = omega (ring_facts, eq_of_parts (neg_ℤ (neg_of t)) (pos t))

-- The switch of SpiralIndex finds the side and the place on it.
pub side_of-point :
    (n : ℕ) (d : Direction) (t : ℕ) → t < n → side_of (pos n) (point n d t) ≡ (d, pos t)
unfolding side_of
side_of-point n dir_e t h = ground (
  arith,
  neg_of_parts n,
  neg_of_parts t,
  neg_ℤ_parts (pos n),
  neg_ℤ_parts (pos n),
  -ℤ_parts (neg_ℤ (pos n)) (neg_of t),
  -ℤ_parts (pos n) (pos t),
  -ℤ_parts (pos t) (pos n),
  negated n t h,
)
side_of-point n dir_ne t h = ground (
  arith,
  neg_of_parts n,
  neg_of_parts t,
  neg_ℤ_parts (pos n),
  neg_ℤ_parts (pos n -ℤ pos t),
  -ℤ_parts (neg_ℤ (pos n -ℤ pos t)) (neg_of n),
  -ℤ_parts (pos n) (pos t),
  -ℤ_parts (pos t) (pos n),
  minus_t n t h,
)
side_of-point n dir_nw t h = ground (
  arith,
  neg_of_parts n,
  neg_of_parts t,
  neg_ℤ_parts (pos n),
  neg_ℤ_parts (neg_of t),
  -ℤ_parts (neg_ℤ (neg_of t)) (pos t -ℤ pos n),
  -ℤ_parts (pos n) (pos t),
  -ℤ_parts (pos t) (pos n),
  negated n t h,
)
side_of-point n dir_w t h = ground (
  arith,
  neg_of_parts n,
  neg_of_parts t,
  neg_ℤ_parts (pos n),
  neg_ℤ_parts (neg_of n),
  -ℤ_parts (neg_ℤ (neg_of n)) (pos t),
  -ℤ_parts (pos n) (pos t),
  -ℤ_parts (pos t) (pos n),
  negated n t h,
)
side_of-point n dir_sw t h = ground (
  arith,
  neg_of_parts n,
  neg_of_parts t,
  neg_ℤ_parts (pos n),
  neg_ℤ_parts (pos t -ℤ pos n),
  -ℤ_parts (neg_ℤ (pos t -ℤ pos n)) (pos n),
  -ℤ_parts (pos n) (pos t),
  -ℤ_parts (pos t) (pos n),
  plus_n n t h,
)
side_of-point n dir_se t h = ground (
  arith,
  neg_of_parts n,
  neg_of_parts t,
  neg_ℤ_parts (pos n),
  neg_ℤ_parts (pos t),
  -ℤ_parts (neg_ℤ (pos t)) (pos n -ℤ pos t),
  -ℤ_parts (pos n) (pos t),
  -ℤ_parts (pos t) (pos n),
  negated n t h,
)
