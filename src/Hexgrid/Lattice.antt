-- ===== src/Hexgrid/Lattice.antt =====
-- The super-lattice of hexagonal chunks: internal/hexgrid/lattice.go.
-- Every conversion to int32 is `wrap32`. An int64 sum of products is wrapped once, by `wrap64`, before its value is
-- divided or compared: its low bits are those of Go's step by step. Under a `wrap32` that changes nothing.
pub mod Cover
pub mod Center
pub mod Corner
pub mod Search
pub mod Unique
pub mod Locate
pub mod Lengths
pub mod Cells
pub mod Spread
use lab_game.Prelude.{
  ℕ, zero, suc, Bool, true, false, not, ◌&&◌, Option, none, some, List, [], ◌∷◌, ◌++◌, map,
  if◌then◌else◌,
}
use lab_game.Prelude.Int.{
  ℤ, pos, pos_part, ◌+ℤ◌, ◌-ℤ◌, ◌*ℤ◌, ◌/ℤ◌, ◌%ℤ◌, neg_ℤ, ltb_ℤ, leb_ℤ, eqb_ℤ, wrap32, wrap64,
}
use mathlib.Core.List.{reverse}
use lab_game.Hexgrid.Coord.{
  Coord, Chunk, Direction, dir_e, dir_ne, dir_nw, dir_w, opposite, neighbor, origin, abs64,
}
use lab_game.Hexgrid.Face.{Face, face_of}

pub record Lattice : Type 0 where
  pub radius : ℤ

abbrev pub bool_ne : Bool → Bool → Bool
bool_ne true b = not b
bool_ne false b = b

unfoldable pub floor_div64 : ℤ → ℤ → ℤ
floor_div64 a b =
    let r = a %ℤ b in
    if not (eqb_ℤ r (pos 0)) && bool_ne (ltb_ℤ r (pos 0)) (ltb_ℤ b (pos 0))
    then a /ℤ b -ℤ pos 1
    else a /ℤ b

unfoldable pub cell_count : Lattice → ℤ
cell_count l = wrap64 (pos 3 *ℤ l.radius *ℤ l.radius +ℤ pos 3 *ℤ l.radius +ℤ pos 1)

-- The two axial coordinates of the centre of chunk (i, j), before the conversion to int32.
abbrev pub center_q : ℤ → ℤ → ℤ → ℤ
center_q r i j = i *ℤ (pos 2 *ℤ r +ℤ pos 1) +ℤ j *ℤ r

abbrev pub center_r : ℤ → ℤ → ℤ → ℤ
center_r r i j = neg_ℤ i *ℤ r +ℤ j *ℤ (r +ℤ pos 1)

unfoldable pub center : Lattice → Chunk → Coord
center l ch = record {
  q = wrap32 (center_q l.radius ch.q ch.r);
  r = wrap32 (center_r l.radius ch.q ch.r);
}

unfoldable pub offset : Lattice → Direction → Coord
unfolding center
offset l d = center l (neighbor origin d)

-- One round of the inner loop of Locate: the candidate chunk (i, j), if it is near enough.
unfoldable pub candidate : Lattice → Coord → ℤ → ℤ → Option (Chunk × Coord)
candidate l c i j =
    let dq = wrap64 (c.q -ℤ center_q l.radius i j) in
    let dr = wrap64 (c.r -ℤ center_r l.radius i j) in
    if leb_ℤ (wrap64 (abs64 dq +ℤ abs64 dr +ℤ abs64 (wrap64 (dq +ℤ dr))) /ℤ pos 2) l.radius
    then some (record { q = wrap32 i; r = wrap32 j }, record { q = wrap32 dq; r = wrap32 dr })
    else none

abbrev pub or_else : Option (Chunk × Coord) → Option (Chunk × Coord) → Option (Chunk × Coord)
or_else (some a) b = some a
or_else none b = b

-- The estimates that Locate searches from.
abbrev pub i_star : Lattice → Coord → ℤ
i_star l c = floor_div64 (wrap64 ((l.radius +ℤ pos 1) *ℤ c.q -ℤ l.radius *ℤ c.r)) (cell_count l)

abbrev pub j_star : Lattice → Coord → ℤ
j_star l c =
    floor_div64 (wrap64 (l.radius *ℤ c.q +ℤ (pos 2 *ℤ l.radius +ℤ pos 1) *ℤ c.r)) (cell_count l)

-- The two nested loops over {0, 1}, in their order.
unfoldable pub search_candidates : Lattice → Coord → Option (Chunk × Coord)
search_candidates l c =
    let i = i_star l c in
    let j = j_star l c in
    or_else (candidate l c (i +ℤ pos 0) (j +ℤ pos 0)) (
      or_else (candidate l c (i +ℤ pos 0) (j +ℤ pos 1)) (
        or_else (candidate l c (i +ℤ pos 1) (j +ℤ pos 0))
          (candidate l c (i +ℤ pos 1) (j +ℤ pos 1))))

-- What Locate returns below its loops.
abbrev pub fallback : Lattice → Coord → Chunk × Coord
fallback l c =
    let i = i_star l c in
    let j = j_star l c in
    (
      record { q = wrap32 i; r = wrap32 j },
      record {
        q = wrap32 (c.q -ℤ center_q l.radius i j);
        r = wrap32 (c.r -ℤ center_r l.radius i j);
      },
    )

unfoldable pub locate : Lattice → Coord → Chunk × Coord
unfolding search_candidates candidate
locate l c = elim (search_candidates l c) [ some found ↦ found | none ↦ fallback l c ]

unfoldable pub at : Lattice → Chunk → Coord → Coord
at l ch local = record {
  q = wrap32 (center_q l.radius ch.q ch.r +ℤ local.q);
  r = wrap32 (center_r l.radius ch.q ch.r +ℤ local.r);
}

abbrev pub max32 : ℤ → ℤ → ℤ
max32 a b = if ltb_ℤ b a then a else b

abbrev pub min32 : ℤ → ℤ → ℤ
min32 a b = if ltb_ℤ a b then a else b

-- The values of `for x := lo; ...; x++`, `n` of them.
unfoldable pub upward : ℤ → ℕ → List ℤ
upward lo zero = []
upward lo (suc n) = lo ∷ upward (lo +ℤ pos 1) n

-- The values of `for x := lo; x <= hi; x++`. Its counter does not wrap for hi < 2^31 - 1.
unfoldable pub range : ℤ → ℤ → List ℤ
unfolding upward
range lo hi = upward lo (pos_part (hi +ℤ pos 1 -ℤ lo))

abbrev pub row_cells : ℤ → ℤ → List Coord
row_cells r row =
    map (λ q. record { q = q; r = row })
      (range (max32 (wrap32 (neg_ℤ r)) (wrap32 (neg_ℤ r -ℤ row))) (min32 r (wrap32 (r -ℤ row))))

abbrev pub rows_cells : ℤ → List ℤ → List Coord
rows_cells r [] = []
rows_cells r (row ∷ rows) = row_cells r row ++ rows_cells r rows

unfoldable pub local_cells : Lattice → List Coord
unfolding range
local_cells l = rows_cells l.radius (range (wrap32 (neg_ℤ l.radius)) l.radius)

abbrev border_faces : (ℤ → Coord) → Direction → Direction → List ℤ → List Face
border_faces cell lone secondary [] = []
border_faces cell lone secondary (x ∷ xs) =
    face_of (cell x) secondary ∷ face_of (cell x) lone ∷ border_faces cell lone secondary xs

-- The reversal in place at the end of canonicalBorder is `reverse`.
unfoldable pub canonical_border : (ℤ → Coord) → Direction → Direction → ℤ → ℤ → List Face
unfolding range face_of
canonical_border cell lone secondary lo hi =
    reverse (face_of (cell lo) lone ∷ border_faces cell lone secondary (range (lo +ℤ pos 1) hi))

unfoldable pub base_border : Lattice → Direction → List Face
unfolding canonical_border
base_border l dir_e =
    canonical_border (λ x. record { q = l.radius; r = x }) dir_e dir_ne (wrap32 (neg_ℤ l.radius))
      (pos 0)
base_border l dir_ne =
    canonical_border (λ x. record { q = x; r = wrap32 (neg_ℤ l.radius) }) dir_ne dir_nw (pos 0)
      l.radius
base_border l _ =
    canonical_border (λ x. record { q = x; r = wrap32 (neg_ℤ l.radius -ℤ x) }) dir_nw dir_w
      (wrap32 (neg_ℤ l.radius)) (pos 0)

abbrev translate : Coord → List Face → List Face
translate o fs =
    map
      (λ (f : Face).
        let c : Coord = record { q = wrap32 (f.cell.q +ℤ o.q); r = wrap32 (f.cell.r +ℤ o.r) } in
        let g : Face = record { cell = c; dir = f.dir } in g)
      fs

-- The canonical directions build their list, the others translate that of their opposite.
unfoldable pub border : Lattice → Direction → List Face
unfolding base_border offset opposite
border l dir_e = base_border l dir_e
border l dir_ne = base_border l dir_ne
border l dir_nw = base_border l dir_nw
border l d = translate (offset l d) (base_border l (opposite d))
