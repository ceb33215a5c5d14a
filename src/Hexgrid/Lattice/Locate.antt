-- ===== src/Hexgrid/Lattice/Locate.antt =====
-- About Locate and At, internal/hexgrid/lattice.go.
use lab_game.Prelude.{ℕ, ◌+◌, ◌^◌, ◌≤◌, ◌<◌, ◌≡◌, ◌≢◌, refl, ◌∙◌, ap, arith, Option, none, some}
use lab_game.Prelude.Int.{
  ℤ, pos, pos_part, neg_part, ◌+ℤ◌, ◌-ℤ◌, ◌≤ℤ◌, +ℤ_parts, -ℤ_parts, eq_of_parts, wrap32,
  wrap32_self, IsInt32,
}
use lab_game.Hexgrid.Lattice.Unique.{place_lem}
use lab_game.Hexgrid.Coord.{Coord, Chunk, distance, origin, InRange, coord_ext}
use lab_game.Hexgrid.Coord.Metric.{norm, distance_lem}
use lab_game.Hexgrid.Lattice.{center_q, center_r, search_candidates, locate, at, fallback}
use lab_game.Hexgrid.Lattice.Cover.{apart}
use lab_game.Hexgrid.Lattice.Center.{center_q_parts, center_r_parts}
use lab_game.Hexgrid.Lattice.Corner.{shift_q, shift_r, lattice, IsNear}
use lab_game.Hexgrid.Lattice.Search.{Finds, FindsOne, search-FindsOne}

-- The two nested loops of Locate always find a chunk, for each radius from 0 to 2^30 - 1 and each cell
-- in int32 range: the return statement below them is never reached.
pub search_candidates-ne-none :
    (r : ℕ) (c : Coord) → r < 2 ^ 30 → InRange c → search_candidates (lattice r) c ≢ none
search_candidates-ne-none r c hr inside e = subst⁻ (search-FindsOne r c hr inside)
  where
    subst⁻ : FindsOne r c (search_candidates (lattice r) c) → ⊥
    subst⁻ f = rw e at f

pub locate-Finds : (r : ℕ) (c : Coord) → r < 2 ^ 30 → InRange c → Finds r c (locate (lattice r) c)
unfolding locate
locate-Finds r c hr inside = go (search_candidates (lattice r) c) (search-FindsOne r c hr inside)
  where
    go :
        (o : Option (Chunk × Coord))
        → FindsOne r c o
        → Finds r c (elim o [ some found ↦ found | none ↦ fallback (lattice r) c ])
    go none h = absurd h
    go (some found) h = h

shift_cancel : (a b : ℤ) → b +ℤ (a -ℤ b) ≡ a
shift_cancel a b = omega (arith, +ℤ_parts b (a -ℤ b), -ℤ_parts a b, eq_of_parts (b +ℤ (a -ℤ b)) a)

shift_back : (b a : ℤ) → b +ℤ a -ℤ b ≡ a
shift_back b a = omega (arith, +ℤ_parts b a, -ℤ_parts (b +ℤ a) b, eq_of_parts (b +ℤ a -ℤ b) a)

sub_zero : (a : ℤ) → a -ℤ pos 0 ≡ a
sub_zero a = omega (arith, -ℤ_parts a (pos 0), eq_of_parts (a -ℤ pos 0) a)

pub distance-origin : (c : Coord) → distance c origin ≡ pos (norm c.q c.r)
distance-origin c = distance_lem c origin ∙ rw (sub_zero c.q, sub_zero c.r) refl

-- Every cell lies within the radius of the centre that Locate gives, and At takes the answer of Locate
-- back to the cell: for each radius from 0 to 2^30 - 1 and each cell in int32 range.
pub at-locate :
    (r : ℕ) (c : Coord)
    → r < 2 ^ 30
    → InRange c
    → (at (lattice r) (locate (lattice r) c).0 (locate (lattice r) c).1 ≡ c)
      × (distance (locate (lattice r) c).1 origin ≤ℤ pos r)
unfolding at
at-locate r c hr inside =
    let f = locate-Finds r c hr inside in
    let e = f.placed ∙ place_lem r c f.i f.j f.near_enough inside (omega arith) in
    rw (e, distance-origin)
      (
        coord_ext _ _ (ap wrap32 (shift_cancel c.q _) ∙ wrap32_self c.q inside.0)
            (ap wrap32 (shift_cancel c.r _) ∙ wrap32_self c.r inside.1),
        omega (arith, f.near_enough),
      )

-- Two centres within the radius of one cell are one centre.
same_center :
    (r : ℕ) (c : Coord) (i j k l : ℤ) → IsNear r c i j → IsNear r c k l → (i ≡ k) × (j ≡ l)
same_center r c i j k l h g =
    let e =
      apart r (pos_part i + neg_part k) (neg_part i + pos_part k) (pos_part j + neg_part l)
        (neg_part j + pos_part l)
        (
          omega (
            arith,
            center_q_parts r i j,
            center_q_parts r k l,
            center_r_parts r i j,
            center_r_parts r k l,
            -ℤ_parts c.q (center_q (pos r) i j),
            -ℤ_parts c.q (center_q (pos r) k l),
            -ℤ_parts c.r (center_r (pos r) i j),
            -ℤ_parts c.r (center_r (pos r) k l),
            +ℤ_parts (shift_q r c i j) (shift_r r c i j),
            +ℤ_parts (shift_q r c k l) (shift_r r c k l),
          ),
          omega (
            arith,
            center_q_parts r i j,
            center_q_parts r k l,
            center_r_parts r i j,
            center_r_parts r k l,
            -ℤ_parts c.q (center_q (pos r) i j),
            -ℤ_parts c.q (center_q (pos r) k l),
            -ℤ_parts c.r (center_r (pos r) i j),
            -ℤ_parts c.r (center_r (pos r) k l),
            +ℤ_parts (shift_q r c i j) (shift_r r c i j),
            +ℤ_parts (shift_q r c k l) (shift_r r c k l),
          ),
        )
        (
          omega (
            arith,
            center_q_parts r i j,
            center_q_parts r k l,
            center_r_parts r i j,
            center_r_parts r k l,
            -ℤ_parts c.q (center_q (pos r) i j),
            -ℤ_parts c.q (center_q (pos r) k l),
            -ℤ_parts c.r (center_r (pos r) i j),
            -ℤ_parts c.r (center_r (pos r) k l),
            +ℤ_parts (shift_q r c i j) (shift_r r c i j),
            +ℤ_parts (shift_q r c k l) (shift_r r c k l),
          ),
          omega (
            arith,
            center_q_parts r i j,
            center_q_parts r k l,
            center_r_parts r i j,
            center_r_parts r k l,
            -ℤ_parts c.q (center_q (pos r) i j),
            -ℤ_parts c.q (center_q (pos r) k l),
            -ℤ_parts c.r (center_r (pos r) i j),
            -ℤ_parts c.r (center_r (pos r) k l),
            +ℤ_parts (shift_q r c i j) (shift_r r c i j),
            +ℤ_parts (shift_q r c k l) (shift_r r c k l),
          ),
        )
        (
          omega (
            arith,
            center_q_parts r i j,
            center_q_parts r k l,
            center_r_parts r i j,
            center_r_parts r k l,
            -ℤ_parts c.q (center_q (pos r) i j),
            -ℤ_parts c.q (center_q (pos r) k l),
            -ℤ_parts c.r (center_r (pos r) i j),
            -ℤ_parts c.r (center_r (pos r) k l),
            +ℤ_parts (shift_q r c i j) (shift_r r c i j),
            +ℤ_parts (shift_q r c k l) (shift_r r c k l),
          ),
          omega (
            arith,
            center_q_parts r i j,
            center_q_parts r k l,
            center_r_parts r i j,
            center_r_parts r k l,
            -ℤ_parts c.q (center_q (pos r) i j),
            -ℤ_parts c.q (center_q (pos r) k l),
            -ℤ_parts c.r (center_r (pos r) i j),
            -ℤ_parts c.r (center_r (pos r) k l),
            +ℤ_parts (shift_q r c i j) (shift_r r c i j),
            +ℤ_parts (shift_q r c k l) (shift_r r c k l),
          ),
        ) in
    (omega (arith, eq_of_parts i k), omega (arith, eq_of_parts j l))

-- Locate takes the cell that At gives for a chunk and a local coordinate within the radius back to
-- both, for a radius below 2^30, where the two sums of At stay in the int32 range.
pub locate-at :
    (r : ℕ) (ch local : Coord)
    → r < 2 ^ 30
    → distance local origin ≤ℤ pos r
    → IsInt32 (center_q (pos r) ch.q ch.r +ℤ local.q)
    → IsInt32 (center_r (pos r) ch.q ch.r +ℤ local.r)
    → locate (lattice r) (at (lattice r) ch local) ≡ (ch, local)
unfolding at
locate-at r ch local hr near hq hrr =
    let c : Coord = record {
      q = center_q (pos r) ch.q ch.r +ℤ local.q;
      r = center_r (pos r) ch.q ch.r +ℤ local.r;
    } in
    let f = locate-Finds r c hr (hq, hrr) in
    let n : norm local.q local.r ≤ r =
      let n' : pos (norm local.q local.r) ≤ℤ pos r = rw distance-origin at near in omega arith in
    let eq = shift_back (center_q (pos r) ch.q ch.r) local.q in
    let er = shift_back (center_r (pos r) ch.q ch.r) local.r in
    let here : IsNear r c ch.q ch.r = rw (eq, er) n in
    let same = same_center r c f.i f.j ch.q ch.r f.near_enough here in
    rw (wrap32_self _ hq, wrap32_self _ hrr)
      (f.placed
        ∙ place_lem r c f.i f.j f.near_enough (hq, hrr) (omega arith)
        ∙ rw (same.0, same.1, eq, er) refl)
