-- ===== src/Hexgrid/Lattice/Search.antt =====
-- About the loops of Locate, internal/hexgrid/lattice.go.
use lab_game.Prelude.{
  ℕ, ◌+◌, ◌<◌, ◌^◌, ◌≡◌, refl, ◌∙◌, ◌⊎◌, inl, inr, arith, Option, none, some, Bool-cases,
  if◌then◌else◌, leb, leb→le,
}
use lab_game.Prelude.Int.{ℤ, pos, ◌+ℤ◌, +ℤ_parts, one_part, wrap32, wrap64_self, IsInt64, add_pos}
use lab_game.Hexgrid.Coord.{Coord, Chunk, InRange, abs64}
use lab_game.Hexgrid.Coord.Metric.{norm, size, length_lem, abs64_lem}
use lab_game.Hexgrid.Lattice.{candidate, search_candidates, or_else}
use lab_game.Hexgrid.Lattice.Corner.{
  shift_q, shift_r, lattice, IsNear, IsShort, corner-IsShort, some_corner,
}

abbrev pub place : ℕ → Coord → ℤ → ℤ → Chunk × Coord
place r c i j = (
  record { q = wrap32 i; r = wrap32 j },
  record { q = wrap32 (shift_q r c i j); r = wrap32 (shift_r r c i j) },
)

IsShort-IsInt64 : (a : ℤ) → IsShort a → IsInt64 a
IsShort-IsInt64 a h = (omega arith, omega arith)

add-IsInt64 : (a b : ℤ) → IsShort a → IsShort b → IsInt64 (a +ℤ b)
add-IsInt64 a b h k =
    (omega (arith, +ℤ_parts a b, one_part (a +ℤ b)), omega (arith, +ℤ_parts a b, one_part (a +ℤ b)))

lengths-IsInt64 : (a b : ℤ) → IsShort a → IsShort b → IsInt64 (abs64 a +ℤ abs64 b +ℤ abs64 (a +ℤ b))
lengths-IsInt64 a b h k =
    let sum : abs64 a +ℤ abs64 b +ℤ abs64 (a +ℤ b) ≡ pos (size a + size b + size (a +ℤ b)) =
      simp (abs64_lem, add_pos) refl in
    rw sum (omega (arith, +ℤ_parts a b, one_part (a +ℤ b), one_part a, one_part b), omega arith)

candidate_lem :
    (r : ℕ) (c : Coord) (i j : ℤ)
    → IsShort (shift_q r c i j)
    → IsShort (shift_r r c i j)
    → candidate (lattice r) c i j ≡ (
        if leb (norm (shift_q r c i j) (shift_r r c i j) + 0) (r + 0)
        then some (place r c i j)
        else none)
unfolding candidate
candidate_lem r c i j hq hr =
    rw
      (
        wrap64_self (shift_q r c i j) (IsShort-IsInt64 _ hq),
        wrap64_self (shift_r r c i j) (IsShort-IsInt64 _ hr),
        wrap64_self _ (add-IsInt64 (shift_q r c i j) (shift_r r c i j) hq hr),
        wrap64_self _ (lengths-IsInt64 (shift_q r c i j) (shift_r r c i j) hq hr),
      )
      (simp length_lem)

candidate_cases :
    (r : ℕ) (c : Coord) (i j : ℤ)
    → IsShort (shift_q r c i j)
    → IsShort (shift_r r c i j)
    → (candidate (lattice r) c i j ≡ none) × (r < norm (shift_q r c i j) (shift_r r c i j))
      ⊎ (candidate (lattice r) c i j ≡ some (place r c i j)) × IsNear r c i j
candidate_cases r c i j hq hr =
    elim (Bool-cases (leb (norm (shift_q r c i j) (shift_r r c i j) + 0) (r + 0))) [
      | inl e ↦ inr (candidate_lem r c i j hq hr ∙ rw e refl, ground (arith, leb→le _ _ e))
      | inr e ↦ inl (candidate_lem r c i j hq hr ∙ rw e refl, ground (arith, e))
    ]

-- `found` is the answer of one candidate that is near enough.
pub record Finds (r : ℕ) (c : Coord) (found : Chunk × Coord) : Type 0 where
  pub i : ℤ
  pub j : ℤ
  pub near_enough : IsNear r c i j
  pub placed : found ≡ place r c i j

abbrev pub FindsOne : ℕ → Coord → Option (Chunk × Coord) → Type 0
FindsOne r c none = ⊥
FindsOne r c (some found) = Finds r c found

candidate-FindsOne :
    (r : ℕ) (c : Coord) (i j : ℤ) (rest : Option (Chunk × Coord))
    → IsShort (shift_q r c i j) × IsShort (shift_r r c i j)
    → (IsNear r c i j ⊎ FindsOne r c rest)
    → FindsOne r c (or_else (candidate (lattice r) c i j) rest)
candidate-FindsOne r c i j rest short h = elim (candidate_cases r c i j short.0 short.1) [
  | inr (e, n) ↦ rw e (record { i = i; j = j; near_enough = n; placed = refl })
  | inl (e, far) ↦ rw e (elim h [ inl n ↦ absurd (omega arith) | inr f ↦ f ])
]

last-FindsOne :
    (r : ℕ) (c : Coord) (i j : ℤ)
    → IsShort (shift_q r c i j) × IsShort (shift_r r c i j)
    → IsNear r c i j
    → FindsOne r c (candidate (lattice r) c i j)
last-FindsOne r c i j short h = elim (candidate_cases r c i j short.0 short.1) [
  | inr (e, n) ↦ rw e (record { i = i; j = j; near_enough = n; placed = refl })
  | inl (e, far) ↦ absurd (omega arith)
]

pub search-FindsOne :
    (r : ℕ) (c : Coord) → r < 2 ^ 30 → InRange c → FindsOne r c (search_candidates (lattice r) c)
unfolding search_candidates
search-FindsOne r c hr inside =
    let s00 = corner-IsShort r c hr inside 0 0 (omega arith) (omega arith) in
    let s01 = corner-IsShort r c hr inside 0 1 (omega arith) (omega arith) in
    let s10 = corner-IsShort r c hr inside 1 0 (omega arith) (omega arith) in
    let s11 = corner-IsShort r c hr inside 1 1 (omega arith) (omega arith) in
    elim (some_corner r c hr inside) [
      | inl h ↦ candidate-FindsOne r c _ _ _ s00 (inl h)
      | inr (inl h) ↦
          candidate-FindsOne r c _ _ _ s00 (inr (candidate-FindsOne r c _ _ _ s01 (inl h)))
      | inr (inr (inl h)) ↦
          candidate-FindsOne r c _ _ _ s00 (
            inr (candidate-FindsOne r c _ _ _ s01 (inr (candidate-FindsOne r c _ _ _ s10 (inl h)))))
      | inr (inr (inr h)) ↦ candidate-FindsOne r c _ _ _ s00 (
          inr (
            candidate-FindsOne r c _ _ _ s01
              (inr (candidate-FindsOne r c _ _ _ s10 (inr (last-FindsOne r c _ _ s11 h))))))
    ]
