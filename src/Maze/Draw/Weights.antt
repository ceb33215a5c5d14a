-- ===== src/Maze/Draw/Weights.antt =====
-- About weightedPick, internal/maze/draw.go.
use lab_game.Prelude.{
  ℕ, suc, ◌+◌, ◌^◌, ◌≤◌, ◌<◌, ◌≡◌, refl, ap, ◌∙◌, arith, true, false, ltb, inl, inr, List, [], ◌∷◌,
  get_elem?, Option, some, mod_small, Bool-cases,
}
use lab_game.Maze.Draw.{Stream, ok, bounded_draw, total_of, pick_at, weighted_pick}
use lab_game.Maze.Draw.Bounds.{IsFair, EndsIn, bounded_draw-EndsIn, >>=-ok}

abbrev pub sum : List ℕ → ℕ
sum [] = 0
sum (w ∷ ws) = w + sum ws

total_of_lem : (ws : List ℕ) (t : ℕ) → t + sum ws < 2 ^ 64 → total_of ws t ≡ t + sum ws
total_of_lem [] t h = omega arith
total_of_lem (w ∷ ws) t h =
    ap (total_of ws) (mod_small (t + w) (2 ^ 64) (omega arith))
    ∙ total_of_lem ws (t + w) (omega arith)
    ∙ omega arith

-- The index has a weight, and it is not zero.
pub record IsWeighted (ws : List ℕ) (k : ℕ) : Type 0 where
  pub weight : ℕ
  pub stands : get_elem? ws k ≡ some weight
  pub positive : 0 < weight

later : (w : ℕ) (ws : List ℕ) (k : ℕ) → IsWeighted ws k → IsWeighted (w ∷ ws) (suc k)
later w ws k h = record { weight = h.weight; stands = h.stands; positive = h.positive }

pick_here :
    (v w : ℕ) (ws : List ℕ) (acc i : ℕ)
    → acc + w < 2 ^ 64
    → ltb v (acc + w) ≡ true
    → pick_at v (w ∷ ws) acc i ≡ some i
pick_here v w ws acc i small here = rw (mod_small (acc + w) (2 ^ 64) small, here) refl

pick_on :
    (v w : ℕ) (ws : List ℕ) (acc i : ℕ) (o : Option ℕ)
    → acc + w < 2 ^ 64
    → ltb v (acc + w) ≡ false
    → pick_at v ws (acc + w) (suc i) ≡ o
    → pick_at v (w ∷ ws) acc i ≡ o
pick_on v w ws acc i o small after f = rw (mod_small (acc + w) (2 ^ 64) small, after) f

pick_at_lem :
    (v : ℕ) (ws : List ℕ) (acc i : ℕ)
    → acc ≤ v
    → v < acc + sum ws
    → acc + sum ws < 2 ^ 64
    → (j : ℕ) × (pick_at v ws acc i ≡ some (i + j)) × IsWeighted ws j
pick_at_lem v [] acc i le lt small = absurd (omega arith)
pick_at_lem v (w ∷ ws) acc i le lt small = elim (Bool-cases (ltb v (acc + w))) [
  | inl here ↦ (
    0,
    pick_here v w ws acc i (omega arith) here ∙ ap some (omega arith),
    record { weight = w; stands = refl; positive = ground (arith, here) },
  )
  | inr after ↦
      let (j, f, h) =
        pick_at_lem v ws (acc + w) (suc i) (ground (arith, after)) (omega arith) (omega arith) in
      let shifted : suc i + j ≡ i + suc j = omega arith in
      (suc j, pick_on v w ws acc i _ (omega arith) after (f ∙ ap some shifted), later w ws j h)
]

picked :
    (s : Stream) (ws : List ℕ) (p q v j : ℕ)
    → bounded_draw s (total_of ws 0) p ≡ ok v q
    → pick_at v ws 0 0 ≡ some (0 + j)
    → weighted_pick s ws p ≡ ok j q
unfolding weighted_pick
picked s ws p q v j e f =
    let j' : 0 + j ≡ j = omega arith in
    >>=-ok (bounded_draw s (total_of ws 0)) _ e (rw (f, j') refl)

-- With a fair stream and weights that sum up to a positive number below 2^64, weightedPick ends with an index
-- that has a weight, and the weight is not zero.
pub weighted_pick-IsWeighted :
    (s : Stream) (ws : List ℕ) (p : ℕ)
    → IsFair s
    → 0 < sum ws
    → sum ws < 2 ^ 64
    → EndsIn (IsWeighted ws) p (weighted_pick s ws p)
weighted_pick-IsWeighted s ws p fair some_weight small =
    let t = total_of_lem ws 0 (omega arith) in
    let (v, q, e, le, hv) = bounded_draw-EndsIn s (total_of ws 0) p fair (omega arith) in
    let (j, f, h) = pick_at_lem v ws 0 0 (omega arith) (omega arith) (omega arith) in
    (j, q, picked s ws p q v j e f, le, h)
