-- ===== src/Hexgrid/Lattice/Cells.antt =====
-- About LocalCells, internal/hexgrid/lattice.go.
use mathlib.Core.Path.{subst, ap₂}
use lab_game.Prelude.{
  ℕ, zero, suc, ◌+◌, ◌≤◌, ◌<◌, ◌^◌, ◌≡◌, refl, sym, ap, inl, inr, ◌↔◌, arith, List, [], ◌∷◌, length,
  le_cases,
}
use lab_game.Prelude.Int.{
  ℤ, pos, pos_part, neg_part, ◌+ℤ◌, ◌-ℤ◌, ◌≤ℤ◌, neg_ℤ, +ℤ_parts, -ℤ_parts, neg_ℤ_parts, one_part,
  eq_of_parts, wrap32,
}
use lab_game.Prelude.Members.{◌∈◌, mem-append, mem-map, Distinct, Distinct-append, Distinct-map}
use lab_game.Hexgrid.Coord.{Coord, distance, origin, coord_ext}
use lab_game.Hexgrid.Coord.Metric.{norm}
use lab_game.Hexgrid.Lattice.{
  Lattice, upward, range, local_cells, row_cells, rows_cells, max32, min32, cell_count,
}
use lab_game.Hexgrid.Lattice.Center.{cell_count_lem}
use lab_game.Hexgrid.Lattice.Locate.{distance-origin}
use lab_game.Hexgrid.Lattice.Lengths.{
  lowest_lem, row_ends_lem, length-lower, length-upper, upward-append, length-rows_cells-append,
}

mem-upward :
    (lo : ℤ) (n : ℕ) (x : ℤ)
    → (x ∈ upward lo n) ↔ ((lo ≤ℤ x) × (pos_part x + neg_part lo < pos_part lo + neg_part x + n))
unfolding upward
mem-upward lo zero x = (λ h. absurd h, λ h. absurd (omega arith))
mem-upward lo (suc n) x =
    let ih = mem-upward (lo +ℤ pos 1) n x in
    let p = +ℤ_parts lo (pos 1) in
    (
      elim [
        | inl e ↦ (
          omega (arith, ap pos_part e, ap neg_part e),
          omega (arith, ap pos_part e, ap neg_part e),
        )
        | inr m ↦ (omega (arith, ih.0 m), omega (arith, ih.0 m))
      ],
      λ h. elim (le_cases (pos_part lo + neg_part x) (pos_part x + neg_part lo) h.0) [
        | inl e ↦ inl (eq_of_parts x lo (sym e))
        | inr lt ↦ inr (ih.1 (omega arith, omega arith))
      ],
    )

-- `for x := lo; x <= hi; x++` runs over the integers from lo to hi.
pub mem-range : (lo hi x : ℤ) → (x ∈ range lo hi) ↔ ((lo ≤ℤ x) × (x ≤ℤ hi))
unfolding range
mem-range lo hi x =
    let n = hi +ℤ pos 1 -ℤ lo in
    let p = +ℤ_parts hi (pos 1) in
    let q = -ℤ_parts (hi +ℤ pos 1) lo in
    let m = mem-upward lo (pos_part n) x in
    (
      λ h. let b = m.0 h in (omega arith, omega (arith, one_part n)),
      λ h. m.1 (omega arith, omega arith),
    )

row_size : (r : ℕ) (row : ℤ) → neg_ℤ (pos r) ≤ℤ row → row ≤ℤ pos r → pos_part row + neg_part row ≤ r
row_size r row lo hi = omega (arith, neg_ℤ_parts (pos r), one_part row, one_part (neg_ℤ (pos r)))

-- The bounds of a row are those of the hexagon.
row_bounds :
    (r : ℕ) (row x : ℤ)
    → (((neg_ℤ (pos r) ≤ℤ row) × (row ≤ℤ pos r))
        × ((max32 (neg_ℤ (pos r)) (neg_ℤ (pos r) -ℤ row) ≤ℤ x)
            × (x ≤ℤ min32 (pos r) (pos r -ℤ row))))
      ↔ (norm x row ≤ r)
row_bounds r row x =
    let a = neg_ℤ_parts (pos r) in
    let b = -ℤ_parts (neg_ℤ (pos r)) row in
    let c = -ℤ_parts (pos r) row in
    let d = +ℤ_parts x row in
    let e = one_part x in
    let f = one_part row in let g = one_part (x +ℤ row) in (ground arith, ground arith)

mem-row_cells :
    (r row : ℤ) (c : Coord)
    → (c ∈ row_cells r row) ↔ (
        (c.r ≡ row)
        × (max32 (wrap32 (neg_ℤ r)) (wrap32 (neg_ℤ r -ℤ row)) ≤ℤ c.q)
        × (c.q ≤ℤ min32 r (wrap32 (r -ℤ row))))
mem-row_cells r row c =
    let f : ℤ → Coord = λ q. record { q = q; r = row } in
    let lo = max32 (wrap32 (neg_ℤ r)) (wrap32 (neg_ℤ r -ℤ row)) in
    let hi = min32 r (wrap32 (r -ℤ row)) in
    let m = mem-map f c (range lo hi) in
    let n = mem-range lo hi in
    (
      λ h.
          let (q, k, e) = m.0 h in
          let b = (n q).0 k in
          let g = subst (λ t. (lo ≤ℤ t) × (t ≤ℤ hi)) (ap (λ (z : Coord). z.q) (sym e)) b in
          (ap (λ (z : Coord). z.r) e, g.0, g.1),
      λ (e, below, above). m.1 (c.q, (n c.q).1 (below, above), coord_ext _ _ refl e),
    )

mem-rows_cells :
    (r : ℤ) (rows : List ℤ) (c : Coord)
    → (c ∈ rows_cells r rows) ↔ ((c.r ∈ rows) × (c ∈ row_cells r c.r))
mem-rows_cells r [] c = (λ h. absurd h, λ h. absurd h.0)
mem-rows_cells r (row ∷ rows) c =
    let ih = mem-rows_cells r rows c in
    let m = mem-append c (row_cells r row) (rows_cells r rows) in
    let n = mem-row_cells r row c in
    (
      λ h. elim (m.0 h) [
        | inl k ↦ (inl (n.0 k).0, subst (λ t. c ∈ row_cells r t) (sym (n.0 k).0) k)
        | inr k ↦ (inr (ih.0 k).0, (ih.0 k).1)
      ],
      λ (i, k).
          m.1 (elim i [
            | inl e ↦ inl (subst (λ t. c ∈ row_cells r t) e k)
            | inr j ↦ inr (ih.1 (j, k))
          ]),
    )

-- LocalCells holds exactly the cells at distance at most the radius from the origin, for a radius
-- below 2^30.
pub mem-local_cells :
    (r : ℕ) (c : Coord)
    → r < 2 ^ 30
    → (c ∈ local_cells (record { radius = pos r })) ↔ (distance c origin ≤ℤ pos r)
unfolding local_cells
mem-local_cells r c hr =
    let e = lowest_lem r hr in
    let m = mem-rows_cells (pos r) (range (wrap32 (neg_ℤ (pos r))) (pos r)) c in
    let n = mem-range (wrap32 (neg_ℤ (pos r))) (pos r) c.r in
    let k = mem-row_cells (pos r) c.r c in
    let b = row_bounds r c.r c.q in
    (
      λ h.
          let x = m.0 h in
          let y : (neg_ℤ (pos r) ≤ℤ c.r) × (c.r ≤ℤ pos r) =
            subst (λ t. (t ≤ℤ c.r) × (c.r ≤ℤ pos r)) e (n.0 x.0) in
          let f = row_ends_lem r c.r hr (row_size r c.r y.0 y.1) in
          let z : (max32 (neg_ℤ (pos r)) (neg_ℤ (pos r) -ℤ c.r) ≤ℤ c.q)
              × (c.q ≤ℤ min32 (pos r) (pos r -ℤ c.r)) =
            (
              subst (λ t. t ≤ℤ c.q) (ap₂ max32 e f.0) (k.0 x.1).1,
              subst (λ t. c.q ≤ℤ min32 (pos r) t) f.1 (k.0 x.1).2,
            ) in
          rw distance-origin (omega (arith, b.0 (y, z))),
      λ h.
          let h' : pos (norm c.q c.r) ≤ℤ pos r = rw distance-origin at h in
          let y = b.1 (omega arith) in
          let f = row_ends_lem r c.r hr (row_size r c.r y.0.0 y.0.1) in
          m.1 (
            n.1 (subst (λ t. (t ≤ℤ c.r) × (c.r ≤ℤ pos r)) (sym e) y.0),
            k.1 (
              refl,
              subst (λ t. t ≤ℤ c.q) (sym (ap₂ max32 e f.0)) y.1.0,
              subst (λ t. c.q ≤ℤ min32 (pos r) t) (sym f.1) y.1.1,
            ),
          ),
    )

Distinct-upward : (lo : ℤ) (n : ℕ) → Distinct (upward lo n)
unfolding upward
Distinct-upward lo zero = tt
Distinct-upward lo (suc n) = (
  λ m. omega (arith, (mem-upward (lo +ℤ pos 1) n lo).0 m, +ℤ_parts lo (pos 1)),
  Distinct-upward (lo +ℤ pos 1) n,
)

Distinct-rows_cells : (r : ℤ) (rows : List ℤ) → Distinct rows → Distinct (rows_cells r rows)
unfolding range
Distinct-rows_cells r [] h = tt
Distinct-rows_cells r (row ∷ rows) h =
    Distinct-append (row_cells r row) (rows_cells r rows)
      (Distinct-map (λ (q : ℤ). let c : Coord = record { q = q; r = row } in c)
        (λ a b e. ap (λ (c : Coord). c.q) e) _ (Distinct-upward _ _))
      (Distinct-rows_cells r rows h.1)
      (λ c m n.
        h.0
          (subst (λ t. t ∈ rows) ((mem-row_cells r row c).0 m).0 ((mem-rows_cells r rows c).0 n).0))

-- LocalCells holds no cell twice.
pub local_cells-Distinct : (l : Lattice) → Distinct (local_cells l)
unfolding local_cells
local_cells-Distinct l =
    Distinct-rows_cells l.radius (range (wrap32 (neg_ℤ l.radius)) l.radius) (Distinct-upward _ _)

-- LocalCells holds CellCount cells, for a radius below 2^30.
pub length-local_cells :
    (r : ℕ)
    → r < 2 ^ 30
    → pos (length (local_cells (record { radius = pos r })))
      ≡ cell_count (record { radius = pos r })
unfolding local_cells range
length-local_cells r hr =
    let lo = neg_ℤ (pos r) in
    let count : pos_part (pos r +ℤ pos 1 -ℤ lo) ≡ r + suc r = omega (
      arith,
      neg_ℤ_parts (pos r),
      +ℤ_parts (pos r) (pos 1),
      -ℤ_parts (pos r +ℤ pos 1) lo,
      one_part (pos r +ℤ pos 1 -ℤ lo),
    ) in
    let middle : pos 0 ≡ lo +ℤ pos r =
      omega (arith, neg_ℤ_parts (pos r), +ℤ_parts lo (pos r), eq_of_parts (pos 0) (lo +ℤ pos r)) in
    rw (lowest_lem r hr, count, upward-append lo (pos 0) r (suc r) middle, cell_count_lem r hr)
      (ap pos (
        omega (
          arith,
          length-rows_cells-append (pos r) (upward lo r) (upward (pos 0) (suc r)),
          length-lower r hr r r lo (omega (arith, neg_ℤ_parts (pos r))) (omega arith) (omega arith),
          length-upper r hr 0 (suc r) (pos 0) (omega arith) (omega arith),
        )))
