-- ===== src/Gate/Spiral/Order.antt =====
-- About Spiral and SpiralIndex, internal/gate/spiral.go.
use mathlib.Core.Path.{subst, ap₂}
use lab_game.Prelude.{
  ℕ, zero, suc, ◌+◌, ◌-◌, ◌*◌, ◌^◌, ◌≤◌, ◌<◌, ◌≡◌, ◌↔◌, refl, sym, ap, ◌∙◌, arith, inl, inr,
  lt_cases, List, [], ◌∷◌, length, get_elem?, lt→ltb, le→ltb, some, some_inj, ◌≢◌,
}
use lab_game.Prelude.Int.{pos, pos_part, neg_part, ◌-ℤ◌, ◌≤ℤ◌, wrap64, wrap64_self, wrap64_inj}
use lab_game.Hexgrid.Coord.{Chunk, origin, distance}
use lab_game.Hexgrid.Coord.Metric.{distance_zero, distance_lem, norm}
use lab_game.Gate.Spiral.{ring_chunk, spiral_index, walk, spiral}
use lab_game.Gate.Spiral.Index.{spiral_index-ring_chunk, index_lt, index_low_bits}
use lab_game.Gate.Spiral.Met.{chunk-Met, ring_bound, next_ring}

-- The chunks of a list lie in the rings up to `top` and have the indices from `i` on.
abbrev pub Numbered : ℕ → ℕ → List Chunk → Type 0
Numbered top i [] = Unit {0}
Numbered top i (ch ∷ chs) =
    ((spiral_index ch ≡ pos i) × (distance origin ch ≤ℤ pos top)) × Numbered top (suc i) chs

walk-Numbered :
    (top count n p : ℕ)
    → top < 2 ^ 30
    → 0 < n
    → p < 6 * n
    → 3 * n * (n - 1) + p + count ≤ 3 * top * (top + 1)
    → Numbered top (1 + 3 * n * (n - 1) + p) (walk count n p) × (length (walk count n p) ≡ count)
unfolding walk
walk-Numbered top zero n p ht hn hp hb = (tt, refl)
walk-Numbered top (suc count) n p ht hn hp hb =
    let le : n ≤ top = ring_bound n top (omega arith) in
    let at = spiral_index-ring_chunk n p hn hp (omega arith) in
    let here : (spiral_index (ring_chunk n p) ≡ pos (1 + 3 * n * (n - 1) + p))
        × (distance origin (ring_chunk n p) ≤ℤ pos top) =
      (at.0, subst (λ t. t ≤ℤ pos top) (sym at.1) (omega arith)) in
    elim (lt_cases (suc p) (6 * n)) [
      | inl lt ↦
          let rest = walk-Numbered top count n (suc p) ht hn lt (omega arith) in
          rw (lt→ltb (suc p) (6 * n) lt) (
            (here, subst (λ i. Numbered top i (walk count n (suc p))) (omega arith) rest.0),
            ap suc rest.1,
          )
      | inr ge ↦
          let rest =
            walk-Numbered top count (suc n) 0 ht (omega arith) (omega arith)
              (omega (arith, next_ring n hn)) in
          rw (le→ltb (suc p) (6 * n) ge) (
            (
              here,
              subst (λ i. Numbered top i (walk count (suc n) 0)) (omega (arith, next_ring n hn))
                  rest.0,
            ),
            ap suc rest.1,
          )
    ]

spiral_index-origin : spiral_index origin ≡ pos 0
unfolding spiral_index
spiral_index-origin = rw ((distance_zero origin origin).1 refl) refl

-- The first chunks of Spiral have the indices 0, 1, 2 and so on, as long as their rings are below
-- 2^30.
pub spiral-Numbered :
    (top k : ℕ)
    → top < 2 ^ 30
    → k ≤ 1 + 3 * top * (top + 1)
    → Numbered top 0 (spiral k) × (length (spiral k) ≡ k)
unfolding spiral
spiral-Numbered top zero ht hk = (tt, refl)
spiral-Numbered top (suc k) ht hk =
    let rest = walk-Numbered top k 1 0 ht (omega arith) (omega arith) (omega arith) in
    (
      ((spiral_index-origin, rw ((distance_zero origin origin).1 refl) (omega arith)), rest.0),
      ap suc rest.1,
    )

pub Numbered-get :
    (top i : ℕ) (chs : List Chunk) (j : ℕ) (ch : Chunk)
    → Numbered top i chs
    → get_elem? chs j ≡ some ch
    → (spiral_index ch ≡ pos (i + j)) × (distance origin ch ≤ℤ pos top)
Numbered-get top i [] j ch h e = cc
Numbered-get top i (x ∷ xs) zero ch h e =
    subst (λ c. (spiral_index c ≡ pos (i + 0)) × (distance origin c ≤ℤ pos top)) (some_inj x ch e)
      (h.0.0 ∙ ap pos (omega arith), h.0.1)
Numbered-get top i (x ∷ xs) (suc j) ch h e =
    let rest = Numbered-get top (suc i) xs j ch h.1 e in (rest.0 ∙ ap pos (omega arith), rest.1)

get_some : {A : Type 0} (xs : List A) (i : ℕ) → i < length xs → (a : A) × (get_elem? xs i ≡ some a)
get_some [] i h = absurd (omega arith)
get_some (x ∷ xs) zero h = (x, refl)
get_some (x ∷ xs) (suc i) h = get_some xs i (omega arith)

ring_mono : (n m : ℕ) → 0 < n → n < m → n * (n - 1) + 2 * n ≤ m * (m - 1)
ring_mono (suc n) (suc m) hn h =
    let e : suc n - 1 ≡ n = omega arith in
    let f : suc m - 1 ≡ m = omega arith in rw (e, f) (grind arith)
ring_mono zero m hn h = absurd (omega arith)
ring_mono (suc n) zero hn h = absurd (omega arith)

-- The index of a chunk shows its ring and its place on it.
same_ring :
    (n m p q : ℕ)
    → 0 < n
    → 0 < m
    → p < 6 * n
    → q < 6 * m
    → 1 + 3 * n * (n - 1) + p ≡ 1 + 3 * m * (m - 1) + q
    → (n ≡ m) × (p ≡ q)
same_ring n m p q hn hm hp hq e = elim (lt_cases n m) [
  | inl lt ↦ absurd (omega (arith, ring_mono n m hn lt))
  | inr le ↦ elim (lt_cases m n) [
    | inl lt ↦ absurd (omega (arith, ring_mono m n hm lt))
    | inr le' ↦
        let same : n ≡ m = omega arith in
        (same, omega (arith, ap (λ (t : ℕ). 3 * t * (t - 1)) same))
  ]
]

-- The index of a chunk in the rings from 1 on is not that of the centre chunk.
index-ne-zero :
    (ch : Chunk) (n : ℕ)
    → distance origin ch ≡ pos (suc n)
    → suc n < 2 ^ 31
    → spiral_index ch ≢ pos 0
index-ne-zero ch n d hn e =
    let m = chunk-Met (suc n) ch (omega arith) d in
    let zero_bits : pos 0 ≡ wrap64 (pos 0) = sym (wrap64_self (pos 0) (omega arith, omega arith)) in
    let same =
      wrap64_inj _ 0 (index_low_bits (suc n) m.p (omega arith) m.in_walk hn) (omega arith)
        (sym m.numbered ∙ e ∙ zero_bits) in
    omega arith

-- Two chunks with one SpiralIndex are one chunk, for chunks at distances below 2^31.
pub spiral_index_inj :
    (a b : Chunk) (n m : ℕ)
    → distance origin a ≡ pos n
    → distance origin b ≡ pos m
    → n < 2 ^ 31
    → m < 2 ^ 31
    → spiral_index a ≡ spiral_index b
    → a ≡ b
spiral_index_inj a b zero zero da db hn hm e =
    sym ((distance_zero origin a).0 da) ∙ (distance_zero origin b).0 db
spiral_index_inj a b zero (suc m) da db hn hm e = absurd (
    index-ne-zero b m db hm
      (sym e ∙ ap spiral_index (sym ((distance_zero origin a).0 da)) ∙ spiral_index-origin))
spiral_index_inj a b (suc n) zero da db hn hm e = absurd (
    index-ne-zero a n da hn
      (e ∙ ap spiral_index (sym ((distance_zero origin b).0 db)) ∙ spiral_index-origin))
spiral_index_inj a b (suc n) (suc m) da db hn hm e =
    let ma = chunk-Met (suc n) a (omega arith) da in
    let mb = chunk-Met (suc m) b (omega arith) db in
    let low =
      wrap64_inj _ _ (index_low_bits (suc n) ma.p (omega arith) ma.in_walk hn)
        (index_low_bits (suc m) mb.p (omega arith) mb.in_walk hm)
        (sym ma.numbered ∙ e ∙ mb.numbered) in
    let s =
      same_ring (suc n) (suc m) ma.p mb.p (omega arith) (omega arith) ma.in_walk mb.in_walk low in
    sym (ma.met hn) ∙ ap₂ ring_chunk s.0 s.1 ∙ mb.met hm

-- No index is negative, in the rings below 2^30.
pub spiral_index_pos :
    (ch : Chunk) (n : ℕ)
    → distance origin ch ≡ pos n
    → n < 2 ^ 30
    → (j : ℕ) × (spiral_index ch ≡ pos j)
spiral_index_pos ch zero e h =
    (0, ap spiral_index (sym ((distance_zero origin ch).0 e)) ∙ spiral_index-origin)
spiral_index_pos ch (suc n) e h =
    let m = chunk-Met (suc n) ch (omega arith) e in
    (_, m.numbered ∙ wrap64_self _ (index_lt (suc n) m.p (omega arith) m.in_walk h, omega arith))

-- Entry j of Spiral is the chunk with SpiralIndex j, for chunks at distances below 2^31 and prefixes
-- of Spiral that stay in rings below 2^30.
pub spiral-spiral_index :
    (top k j n : ℕ) (ch : Chunk)
    → top < 2 ^ 30
    → k ≤ 1 + 3 * top * (top + 1)
    → j < k
    → distance origin ch ≡ pos n
    → n < 2 ^ 31
    → (get_elem? (spiral k) j ≡ some ch) ↔ (spiral_index ch ≡ pos j)
spiral-spiral_index top k j n ch ht hk hj d hn =
    let (num, len) = spiral-Numbered top k ht hk in
    (
      λ e. (Numbered-get top 0 (spiral k) j ch num e).0 ∙ ap pos (omega arith),
      λ e.
          let (found, g) = get_some (spiral k) j (omega arith) in
          let (i, near) = Numbered-get top 0 (spiral k) j found num g in
          let same =
            spiral_index_inj ch found n (norm (origin.q -ℤ found.q) (origin.r -ℤ found.r)) d
              (distance_lem origin found) hn
              (omega (
                arith,
                near,
                ap pos_part (distance_lem origin found),
                ap neg_part (distance_lem origin found),
              ))
              (e ∙ sym (i ∙ ap pos (omega arith))) in
          g ∙ ap some (sym same),
    )
