-- ===== src/Hexgrid/Lattice/Lengths.antt =====
-- The lengths of the rows of cells: LocalCells of internal/hexgrid/lattice.go.
use Prim.Native.Nat.add
use lab_game.Prelude.{
  ℕ, zero, suc, ◌+◌, ◌*◌, ◌^◌, ◌<◌, ◌≤◌, ◌≡◌, refl, ap, arith, List, [], ◌∷◌, ◌++◌, length,
  length-append, length-map,
}
use lab_game.Prelude.Int.{
  ℤ, pos, pos_part, neg_part, ◌+ℤ◌, ◌-ℤ◌, neg_ℤ, +ℤ_parts, -ℤ_parts, neg_ℤ_parts, one_part,
  eq_of_parts, wrap32, wrap32_self,
}
use lab_game.Hexgrid.Lattice.{upward, range, row_cells, rows_cells}

length-upward : (lo : ℤ) (n : ℕ) → length (upward lo n) ≡ n
unfolding upward
length-upward lo zero = refl
length-upward lo (suc n) = ap suc (length-upward (lo +ℤ pos 1) n)

-- The bounds of the loops do not wrap for a radius below 2^30.
pub lowest_lem : (r : ℕ) → r < 2 ^ 30 → wrap32 (neg_ℤ (pos r)) ≡ neg_ℤ (pos r)
lowest_lem r hr = wrap32_self _ (
  omega (arith, neg_ℤ_parts (pos r), one_part (neg_ℤ (pos r))),
  omega (arith, neg_ℤ_parts (pos r), one_part (neg_ℤ (pos r))),
)

pub row_ends_lem :
    (r : ℕ) (row : ℤ)
    → r < 2 ^ 30
    → pos_part row + neg_part row ≤ r
    → (wrap32 (neg_ℤ (pos r) -ℤ row) ≡ neg_ℤ (pos r) -ℤ row)
      × (wrap32 (pos r -ℤ row) ≡ pos r -ℤ row)
row_ends_lem r row hr h =
    let a = neg_ℤ_parts (pos r) in
    let b = -ℤ_parts (neg_ℤ (pos r)) row in
    let c = -ℤ_parts (pos r) row in
    let e = one_part (neg_ℤ (pos r) -ℤ row) in
    let f = one_part (pos r -ℤ row) in
    (wrap32_self _ (omega arith, omega arith), wrap32_self _ (omega arith, omega arith))

-- The row at height row has 2r + 1 - |row| cells.
length-row_cells :
    (r : ℕ) (row : ℤ)
    → r < 2 ^ 30
    → pos_part row + neg_part row ≤ r
    → length (row_cells (pos r) row) + (pos_part row + neg_part row) ≡ 2 * r + 1
unfolding range
length-row_cells r row hr h =
    let lo = neg_ℤ (pos r) in
    let lo' = neg_ℤ (pos r) -ℤ row in
    let hi = pos r in
    let hi' = pos r -ℤ row in
    let ends = row_ends_lem r row hr h in
    rw (length-map, length-upward, lowest_lem r hr, ends.0, ends.1)
      (ground (
        arith,
        neg_ℤ_parts (pos r),
        -ℤ_parts lo row,
        -ℤ_parts hi row,
        one_part row,
        +ℤ_parts hi (pos 1),
        +ℤ_parts hi' (pos 1),
        -ℤ_parts (hi +ℤ pos 1) lo,
        -ℤ_parts (hi' +ℤ pos 1) lo,
        -ℤ_parts (hi +ℤ pos 1) lo',
        -ℤ_parts (hi' +ℤ pos 1) lo',
        one_part (hi +ℤ pos 1 -ℤ lo),
        one_part (hi' +ℤ pos 1 -ℤ lo),
        one_part (hi +ℤ pos 1 -ℤ lo'),
        one_part (hi' +ℤ pos 1 -ℤ lo'),
      ))

-- The rows below the centre, the first of them at -k.
pub length-lower :
    (r : ℕ) (hr : r < 2 ^ 30) (k n : ℕ) (lo : ℤ)
    → pos_part lo + k ≡ neg_part lo
    → k ≤ r
    → n ≤ k
    → 2 * length (rows_cells (pos r) (upward lo n)) + n * (2 * k + 1) ≡ n * (4 * r + 2) + n * n
unfolding upward
length-lower r hr k zero lo e h g = omega arith
length-lower r hr zero (suc n) lo e h g = absurd (omega arith)
length-lower r hr (suc k) (suc n) lo e h g = omega (
  arith,
  length-append (row_cells (pos r) lo) (rows_cells (pos r) (upward (lo +ℤ pos 1) n)),
  length-row_cells r lo hr (omega (arith, one_part lo)),
  one_part lo,
  length-lower r hr k n (lo +ℤ pos 1) (omega (arith, +ℤ_parts lo (pos 1))) (omega arith)
      (omega arith),
)

-- The centre row and those above it, the first of them at k.
pub length-upper :
    (r : ℕ) (hr : r < 2 ^ 30) (k n : ℕ) (lo : ℤ)
    → pos_part lo ≡ k + neg_part lo
    → k + n ≤ suc r
    → 2 * length (rows_cells (pos r) (upward lo n)) + n * (2 * k) + n * n ≡ n * (4 * r + 3)
unfolding upward
length-upper r hr k zero lo e h = omega arith
length-upper r hr k (suc n) lo e h = omega (
  arith,
  length-append (row_cells (pos r) lo) (rows_cells (pos r) (upward (lo +ℤ pos 1) n)),
  length-row_cells r lo hr (omega (arith, one_part lo)),
  one_part lo,
  length-upper r hr (suc k) n (lo +ℤ pos 1) (omega (arith, +ℤ_parts lo (pos 1))) (omega arith),
)

pub upward-append :
    (lo mid : ℤ) (m n : ℕ) → mid ≡ lo +ℤ pos m → upward lo (m + n) ≡ upward lo m ++ upward mid n
unfolding upward
upward-append lo mid zero n e =
    let same : mid ≡ lo =
      omega (arith, ap pos_part e, ap neg_part e, +ℤ_parts lo (pos 0), eq_of_parts mid lo) in
    rw (add.zero n, same) refl
upward-append lo mid (suc m) n e =
    let next : mid ≡ lo +ℤ pos 1 +ℤ pos m = omega (
      arith,
      ap pos_part e,
      ap neg_part e,
      +ℤ_parts lo (pos (suc m)),
      +ℤ_parts lo (pos 1),
      +ℤ_parts (lo +ℤ pos 1) (pos m),
      eq_of_parts mid (lo +ℤ pos 1 +ℤ pos m),
    ) in
    rw (add.suc m n) (ap (λ t. lo ∷ t) (upward-append (lo +ℤ pos 1) mid m n next))

pub length-rows_cells-append :
    (r : ℤ) (xs ys : List ℤ)
    → length (rows_cells r (xs ++ ys)) ≡ length (rows_cells r xs) + length (rows_cells r ys)
length-rows_cells-append r [] ys = omega arith
length-rows_cells-append r (x ∷ xs) ys = omega (
  arith,
  length-append (row_cells r x) (rows_cells r (xs ++ ys)),
  length-append (row_cells r x) (rows_cells r xs),
  length-rows_cells-append r xs ys,
)
