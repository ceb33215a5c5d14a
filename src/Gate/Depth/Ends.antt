-- ===== src/Gate/Depth/Ends.antt =====
-- About the loop of depthSearch and NewSet, internal/gate/depth.go.
use mathlib.Core.Path.{subst}
use lab_game.Prelude.{
  ℕ, zero, suc, ◌+◌, ◌*◌, ◌^◌, ◌≤◌, ◌<◌, ◌≡◌, refl, sym, ap, ◌∙◌, arith, ◌⊎◌, inl, inr, le_cases,
  lt_cases, List, [], ◌∷◌, Option, some, none, Bool, true, false, ◌&&◌, Bool-cases,
}
use lab_game.Prelude.Int.{ℤ, pos, ◌+ℤ◌, ◌-ℤ◌, ◌≤ℤ◌, leb_ℤ, +ℤ_parts, one_part, IsInt32, mul_bound}
use lab_game.Prelude.Members.{◌∈◌}
use lab_game.Hexgrid.Coord.{Coord, Chunk, InRange}
use lab_game.Hexgrid.Coord.Metric.{norm, distance_lem}
use lab_game.Hexgrid.Lattice.{center, center_q, center_r, locate}
use lab_game.Hexgrid.Lattice.Corner.{lattice}
use lab_game.Hexgrid.Lattice.Cover.{cells}
use lab_game.Hexgrid.Lattice.Spread.{distance-center}
use lab_game.Gate.Depth.{
  GateSet, Best, visit, search_rings, depth_search, depth, ring_chunks_around, lower_bound,
}
use lab_game.Gate.Depth.Rings.{mem-ring_chunks_around, lower_bound_le, le-lower_bound}
use lab_game.Gate.Depth.Nearest.{to_gate, IsLeast, Kept, Kept-less, visit-Kept}

abbrev pub gates : ℕ → List Chunk → GateSet
gates r ms = record { lattice = lattice r; members = ms }

-- The chunk that the search starts from.
abbrev pub start_chunk : ℕ → Coord → Chunk
start_chunk r cell = (locate (lattice r) cell).0

-- The chunk distance of a gate from the chunk of the cell, and the distance of its centre.
abbrev pub far : ℕ → Coord → Chunk → ℕ
far r cell g = norm ((start_chunk r cell).q -ℤ g.q) ((start_chunk r cell).r -ℤ g.r)

abbrev pub gap : ℕ → Coord → Chunk → ℕ
gap r cell g = norm (cell.q -ℤ (center (lattice r) g).q) (cell.r -ℤ (center (lattice r) g).r)

-- No coordinate that the search computes for the gate leaves the int32 range.
pub record Fits (r : ℕ) (cell : Coord) (g : Chunk) : Type 0 where
  pub chunk_fits : InRange g
  pub q_fits : IsInt32 (center_q (pos r) g.q g.r)
  pub r_fits : IsInt32 (center_r (pos r) g.q g.r)
  pub near_enough : far r cell g < 2 ^ 31

module _ (r : ℕ) (ms : List Chunk) (cell : Coord) (hr : r < 2 ^ 30) (hc : InRange cell)
    (fits : (g : Chunk) → g ∈ ms → Fits r cell g) where
  abbrev Seen : ℕ → Chunk → Type 0
  Seen ring g = far r cell g < ring

  within :
      (h : Chunk) (ring : ℕ)
      → ring * cells r < 2 ^ 62
      → h ∈ ms
      → ring ≤ far r cell h
      → lower_bound (lattice r) ring ≤ℤ pos (gap r cell h)
  within h ring product m le =
      let f = fits h m in
      lower_bound_le r ring (far r cell h) (gap r cell h) hr product
        (distance-center r cell h (far r cell h) (gap r cell h) hr hc (f.q_fits, f.r_fits)
          (distance_lem (start_chunk r cell) h) (distance_lem cell (center (lattice r) h)))
        le

  to_gate_lem : (h : Chunk) → to_gate (gates r ms) cell h ≡ pos (gap r cell h)
  to_gate_lem h = distance_lem cell (center (lattice r) h)

  stop-IsLeast :
      (ring : ℕ) (d : ℤ)
      → ring * cells r < 2 ^ 62
      → Kept (gates r ms) cell (Seen ring) (d, true)
      → leb_ℤ d (lower_bound (lattice r) ring) ≡ true
      → IsLeast (gates r ms) cell d
  stop-IsLeast ring d product k e = record {
    gate = k.0.0;
    is_member = k.0.1;
    reached = k.0.2;
    least = λ h m. elim (lt_cases (far r cell h) ring) [
      | inl seen ↦ k.1 h m seen
      | inr le ↦ rw (to_gate_lem h) (ground (arith, within h ring product m le, e))
    ];
  }

  stops :
      (g : Chunk) (ring : ℕ) (best : Best)
      → ring * cells r < 2 ^ 62
      → g ∈ ms
      → ring ≡ gap r cell g + far r cell g + r + 1
      → Kept (gates r ms) cell (Seen ring) best
      → best.1 && leb_ℤ best.0 (lower_bound (lattice r) ring) ≡ true
  stops g ring (d, false) product m e k = absurd (k g m (omega arith))
  stops g ring (d, true) product m e k =
      let le : d ≤ℤ pos (gap r cell g) =
        subst (λ x. d ≤ℤ x) (to_gate_lem g) (k.1 g m (omega arith)) in
      let bound = le-lower_bound r ring hr product in
      let sum = +ℤ_parts (lower_bound (lattice r) ring) (pos r) in
      ground (
        arith,
        one_part (lower_bound (lattice r) ring +ℤ pos r),
        one_part d,
        one_part (lower_bound (lattice r) ring),
      )

  visited :
      (ring : ℕ) (best : Best)
      → Kept (gates r ms) cell (Seen ring) best
      → Kept
          (gates r ms)
          cell
          (Seen (suc ring))
          (visit (gates r ms) cell (ring_chunks_around (start_chunk r cell) ring) best)
  visited ring best k =
      let chs = ring_chunks_around (start_chunk r cell) ring in
      Kept-less (gates r ms) cell (λ g. Seen ring g ⊎ (g ∈ chs)) (Seen (suc ring))
        (visit (gates r ms) cell chs best)
        (λ g m o. elim (le_cases (far r cell g) ring (omega arith)) [
          | inr lt ↦ inl lt
          | inl e ↦
              let f = fits g m in
              inr (
                mem-ring_chunks_around (start_chunk r cell) g ring f.chunk_fits
                  (subst (λ t. t < 2 ^ 31) e f.near_enough)
                  (distance_lem (start_chunk r cell) g ∙ ap pos e))
        ])
        (visit-Kept (gates r ms) cell (Seen ring) chs best k)

  abbrev pub Ended : Option (ℤ × Bool × ℤ) → Type 0
  Ended o = (d : ℤ) × (last : ℤ) × (o ≡ some (d, true, last)) × IsLeast (gates r ms) cell d

  stopped :
      (ring : ℕ) (d : ℤ) (found : Bool) (last : ℤ)
      → ring * cells r < 2 ^ 62
      → Kept (gates r ms) cell (Seen ring) (d, found)
      → found && leb_ℤ d (lower_bound (lattice r) ring) ≡ true
      → Ended (some (d, true, last))
  stopped ring d false last product k e = absurd (ground (arith, e))
  stopped ring d true last product k e = (d, last, refl, stop-IsLeast ring d product k e)

  pub search_rings-Ended :
      (g : Chunk)
      → g ∈ ms
      → (gap r cell g + far r cell g + r + 1) * cells r < 2 ^ 62
      → (fuel ring : ℕ) (best : Best) (last : ℤ) → ring ≤ gap r cell g + far r cell g + r + 1
      → gap r cell g + far r cell g + r + 1 < ring + fuel
      → Kept (gates r ms) cell (Seen ring) best
      → Ended (search_rings (gates r ms) cell (start_chunk r cell) fuel ring best last)
  unfolding search_rings
  search_rings-Ended g m small zero ring best last le lt k = absurd (omega arith)
  search_rings-Ended g m small (suc fuel) ring (d, found) last le lt k =
      let most =
        mul_bound ring (cells r) (gap r cell g + far r cell g + r + 1) (cells r) le (omega arith) in
      let product : ring * cells r < 2 ^ 62 = omega arith in
      elim (Bool-cases (found && leb_ℤ d (lower_bound (lattice r) ring))) [
        | inr e ↦ elim (le_cases ring _ le) [
          | inl last_one ↦ absurd (cc (sym e ∙ stops g ring (d, found) product m last_one k))
          | inr less ↦ rw e (
              search_rings-Ended g m small fuel (suc ring) _ (pos ring) less (omega arith)
                (visited ring (d, found) k))
        ]
        | inl e ↦ rw e (stopped ring d found last product k e)
      ]

depth-found :
    (r : ℕ) (h : Chunk) (hs : List Chunk) (cell : Coord) (fuel : ℕ) (d last : ℤ)
    → search_rings (gates r (h ∷ hs)) cell (start_chunk r cell) fuel 0 (pos 0, false) (pos 0)
      ≡ some (d, true, last)
    → depth fuel (gates r (h ∷ hs)) cell ≡ some (d, true)
unfolding depth depth_search
depth-found r h hs cell fuel d last e =
    ap
      (λ (o : Option (ℤ × Bool × ℤ)). elim o [
        | none ↦ none
        | some (d, found, last) ↦ some (d, found)
      ])
      e

-- Depth ends and returns the least distance of the cell to a centre of a gate chunk, and true, when
-- the set holds a gate g and the loop has more iterations than the distances of the cell and of its
-- chunk to g and the radius add up to. The radius is below 2^30, this sum times the cells of a chunk
-- is below 2^62, the cell is in the int32 range, and no coordinate computed for a gate leaves it.
pub depth-IsLeast :
    (r : ℕ) (ms : List Chunk) (cell : Coord) (g : Chunk) (fuel : ℕ)
    → r < 2 ^ 30
    → InRange cell
    → ((h : Chunk) → h ∈ ms → Fits r cell h)
    → g ∈ ms
    → (gap r cell g + far r cell g + r + 1) * cells r < 2 ^ 62
    → gap r cell g + far r cell g + r + 1 < fuel
    → (d : ℤ) × (depth fuel (gates r ms) cell ≡ some (d, true)) × IsLeast (gates r ms) cell d
depth-IsLeast r [] cell g fuel hr hc fits m small lt = absurd m
depth-IsLeast r (h ∷ hs) cell g fuel hr hc fits m small lt =
    let found =
      search_rings-Ended r (h ∷ hs) cell hr hc fits g m small fuel 0 (pos 0, false) (pos 0)
        (omega arith) (omega arith) (λ t n. ground arith) in
    (found.0, depth-found r h hs cell fuel found.0 found.1 found.2, found.3)
