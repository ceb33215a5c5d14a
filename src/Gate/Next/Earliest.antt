-- ===== src/Gate/Next/Earliest.antt =====
-- About Next and farEnough, internal/gate/next.go.
use mathlib.Core.Path.{subst}
use lab_game.Prelude.{
  ℕ, ◌+◌, ◌-◌, ◌*◌, ◌^◌, ◌≤◌, ◌<◌, ◌≡◌, refl, sym, ap, ◌∙◌, arith, inl, inr, List, [], ◌∷◌,
  get_elem?, get_lt, le→ltb, some, Bool-cases, if◌then◌else◌,
}
use lab_game.Prelude.Int.{
  pos, pos_part, neg_part, ◌+ℤ◌, ◌-ℤ◌, ◌≤ℤ◌, ◌<ℤ◌, ltb_ℤ, add_pos, mul_pos, mul_bound, wrap64_self,
  +ℤ_parts,
}
use lab_game.Prelude.Members.{◌∈◌}
use lab_game.Hexgrid.Coord.{Chunk, origin, distance}
use lab_game.Hexgrid.Coord.Metric.{distance_triangle, distance_lem, distance_comm, norm}
use lab_game.Gate.Spiral.{spiral, spiral_index, ring_chunk}
use lab_game.Gate.Spiral.Order.{
  Numbered-get, spiral_index_pos, spiral-Numbered, spiral-spiral_index,
}
use lab_game.Gate.Spiral.Met.{ring_start}
use lab_game.Gate.Spiral.Index.{spiral_index-ring_chunk}
use lab_game.Gate.Next.{ok, farthest, scan, next}
use lab_game.Gate.Next.First.{Admissible, scan_lem, Rejects-get, IsFirst-Stands}

-- Farthest is at least its start and every distance in the list.
farthest_lem :
    (chs : List Chunk) (m : ℕ)
    → (top : ℕ) × (farthest chs (pos m) ≡ pos top)
      × (m ≤ top)
      × ((c : Chunk) → c ∈ chs → distance origin c ≤ℤ pos top)
unfolding farthest
farthest_lem [] m = (m, refl, omega arith, λ c h. absurd h)
farthest_lem (x ∷ xs) m =
    let d = norm (origin.q -ℤ x.q) (origin.r -ℤ x.r) in
    let e = distance_lem origin x in
    elim (Bool-cases (ltb_ℤ (pos m) (pos d))) [
      | inl more ↦
          let (top, eq, le, all) = farthest_lem xs d in
          (
            top,
            ap (λ t. farthest xs (if ltb_ℤ (pos m) t then t else pos m)) e ∙ rw more eq,
            ground (arith, more),
            λ c. elim [ inl h ↦ rw (h, e) (omega arith) | inr h ↦ all c h ],
          )
      | inr less ↦
          let (top, eq, le, all) = farthest_lem xs m in
          (
            top,
            ap (λ t. farthest xs (if ltb_ℤ (pos m) t then t else pos m)) e ∙ rw less eq,
            le,
            λ c. elim [ inl h ↦ rw (h, e) (ground (arith, less)) | inr h ↦ all c h ],
          )
    ]

-- What the placement rule asks for: an admissible chunk, and none before it in Spiral's order.
pub record IsNext (created gates : List Chunk) (k : ℕ) (ch : Chunk) : Type 0 where
  pub admissible : Admissible created gates k ch
  pub earliest :
      (c : Chunk)
      → distance origin c <ℤ pos (2 ^ 30)
      → spiral_index c <ℤ spiral_index ch
      → ¬ Admissible created gates k c

-- The search over the rings up to `n + k`, with the first chunk behind them for a fallback.
module _ (created gates : List Chunk) (k n : ℕ)
    (near_created : (c : Chunk) → c ∈ created → distance origin c ≤ℤ pos n)
    (near_gates : (c : Chunk) → c ∈ gates → distance origin c ≤ℤ pos n)
    (small : n + k + 1 < 2 ^ 30) where
  abbrev bound : ℕ
  bound = n + k

  abbrev scanned : List Chunk
  scanned = spiral (1 + 3 * bound * (bound + 1))

  abbrev behind : Chunk
  behind = ring_chunk (bound + 1) 0

  behind_lem :
      (spiral_index behind ≡ pos (1 + 3 * (bound + 1) * bound))
      × (distance origin behind ≡ pos (bound + 1))
  behind_lem =
      let s = spiral_index-ring_chunk (bound + 1) 0 (omega arith) (omega arith) small in
      let e : bound + 1 - 1 ≡ bound = omega arith in (s.0 ∙ rw e (ap pos (omega arith)), s.1)

  behind-Admissible : Admissible created gates k behind
  behind-Admissible = record {
    is_new = λ m.
        omega (arith, near_created behind m, ap pos_part behind_lem.1, ap neg_part behind_lem.1);
    spaced = λ g m. omega (
      arith,
      near_gates g m,
      ap pos_part behind_lem.1,
      ap neg_part behind_lem.1,
      distance_triangle origin g behind,
      +ℤ_parts (distance origin g) (distance g behind),
      ap pos_part (distance_comm g behind),
      ap neg_part (distance_comm g behind),
    );
  }

  -- A chunk with an index below the scanned ones' number stands among them, at that index.
  in_scanned :
      (c : Chunk)
      → distance origin c <ℤ pos (2 ^ 30)
      → (top : ℕ) → top ≤ 1 + 3 * bound * (bound + 1)
      → spiral_index c <ℤ pos top
      → (j : ℕ) × (j < top) × (get_elem? scanned j ≡ some c)
  in_scanned c d top ht i =
      let m = norm (origin.q -ℤ c.q) (origin.r -ℤ c.r) in
      let e = distance_lem origin c in
      let (j, ej) = spiral_index_pos c m e (omega (arith, ap pos_part e, ap neg_part e)) in
      let lt : j < top = omega (arith, ap pos_part ej, ap neg_part ej) in
      (
        j,
        lt,
        (spiral-spiral_index bound (1 + 3 * bound * (bound + 1)) j m c (omega arith) (omega arith)
              (omega arith) e (omega (arith, ap pos_part e, ap neg_part e))).1
            ej,
      )

  scan-IsNext : IsNext created gates k (scan created gates (pos k) scanned behind)
  scan-IsNext =
      let num = spiral-Numbered bound (1 + 3 * bound * (bound + 1)) (omega arith) (omega arith) in
      elim (scan_lem created gates k (omega arith) scanned behind) [
        | inl f ↦
            let s = IsFirst-Stands created gates k (omega arith) f in
            let here = (Numbered-get bound 0 scanned s.i _ num.0 s.at).0 in
            let inside = get_lt scanned s.i _ s.at in
            record {
              admissible = s.admissible;
              earliest = λ c d i.
                  let (j, lt, at) =
                    in_scanned c d s.i (omega (arith, num.1))
                      (subst (λ t. spiral_index c <ℤ t) (here ∙ ap pos (omega arith)) i) in
                  s.before j c lt at;
            }
        | inr (e, r) ↦ rw e (record {
          admissible = behind-Admissible;
          earliest = λ c d i.
              let (j, lt, at) =
                in_scanned c d (1 + 3 * bound * (bound + 1)) (omega arith)
                  (subst (λ t. spiral_index c <ℤ t) (behind_lem.0 ∙ ap pos (omega arith)) i) in
              Rejects-get created gates k (omega arith) scanned j c r at;
        })
      ]

scan_count_lt : (n k : ℕ) → n + k + 1 < 2 ^ 30 → 1 + 3 * (n + k) * (n + k + 1) < 2 ^ 63
scan_count_lt n k h =
    omega (arith, mul_bound (n + k) (n + k + 1) (2 ^ 30) (2 ^ 30) (omega arith) (omega arith))

-- For k >= 0 and chunks so near that the ring behind the search is below 2^30, Next succeeds with
-- the earliest chunk of Spiral that is not created and that is further than k from every gate.
pub next-IsNext :
    (created gates : List Chunk) (k : ℕ)
    → farthest gates (farthest created (pos 0)) +ℤ pos (k + 1) <ℤ pos (2 ^ 30)
    → (ch : Chunk) × (next created gates (pos k) ≡ ok ch) × IsNext created gates k ch
unfolding next
next-IsNext created gates k h =
    let (m, em, lm, hm) = farthest_lem created 0 in
    let (n, en, ln, hn) = farthest_lem gates m in
    let en' : farthest gates (farthest created (pos 0)) ≡ pos n = ap (farthest gates) em ∙ en in
    let small : n + k + 1 < 2 ^ 30 = omega (
      arith,
      +ℤ_parts (farthest gates (farthest created (pos 0))) (pos (k + 1)),
      ap pos_part en',
      ap neg_part en',
    ) in
    let near : (c : Chunk) → c ∈ created → distance origin c ≤ℤ pos n =
      λ c i. let f = hm c i in omega arith in
    (
      _,
      rw
          (
            en',
            add_pos n k,
            wrap64_self (pos (n + k)) (omega arith, omega arith),
            le→ltb (k + 0) 0 (omega arith),
          )
          (simp (add_pos, mul_pos)
            (rw
              (
                wrap64_self (pos (1 + 3 * (n + k) * (n + k + 1)))
                    (scan_count_lt n k small, omega arith),
                wrap64_self (pos (n + k + 1)) (omega arith, omega arith),
              )
              (ap (λ f. ok (scan created gates (pos k) (spiral (1 + 3 * (n + k) * (n + k + 1))) f))
                (sym (ring_start (n + k + 1) (omega arith) (omega arith)))))),
      scan-IsNext created gates k n near hn small,
    )
