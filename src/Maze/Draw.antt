-- ===== src/Maze/Draw.antt =====
-- The reductions of a stream of random values: internal/maze/draw.go.
pub mod Bounds
pub mod Rearrange
pub mod Weights
use lab_game.Prelude.{
  ℕ, zero, suc, ◌+◌, ◌-◌, ◌/◌, ◌%◌, ◌^◌, Bool, ltb, leb, if◌then◌else◌, List, [], ◌∷◌, Option, none,
  some, length, get_elem?, set, ◌*◌,
}

-- A stream is not code of the repository (ChaCha8): `values p` is the value of its call number p of Uint64.
-- `patience` bounds the calls that one bounded draw makes.
pub record Stream : Type 0 where
  pub values : ℕ → ℕ
  pub patience : ℕ

-- The result of code that draws: a value with the number of calls of Uint64 made so far, Go's panic on
-- an index out of range, or a loop that was cut off.
pub data Run (A : Type 0) : Type 0 where
  ok : A → ℕ → Run A
  panic out_of_fuel : Run A

-- Code that draws, from the number of calls made before it.
abbrev pub Draws : Type 0 → Type 0
Draws A = ℕ → Run A

infixl 5 ◌>>=◌ ◌>>◌
abbrev pub ◌>>=◌ : {A B : Type 0} → Draws A → (A → Draws B) → Draws B
◌>>=◌ m f p = elim (m p) [ ok a q ↦ f a q | panic ↦ panic | out_of_fuel ↦ out_of_fuel ]

abbrev pub ◌>>◌ : {A B : Type 0} → Draws A → Draws B → Draws B
◌>>◌ m k p = elim (m p) [ ok a q ↦ k q | panic ↦ panic | out_of_fuel ↦ out_of_fuel ]

abbrev pub ret : {A : Type 0} → A → Draws A
ret a p = ok a p

abbrev pub cut_off : {A : Type 0} → Draws A
cut_off p = out_of_fuel

-- xs[i]
unfoldable pub load : {A : Type 0} → List A → ℕ → Draws A
load xs i p = elim (get_elem? xs i) [ some a ↦ ok a p | none ↦ panic ]

abbrev pub max_uint64 : ℕ
max_uint64 = 2 ^ 64 - 1

-- The values from here on are rejected.
abbrev pub reject_from : ℕ → ℕ
reject_from n = max_uint64 - max_uint64 % n

unfoldable pub sample : Stream → ℕ → ℕ → Draws ℕ
sample s n zero p = out_of_fuel
sample s n (suc k) p =
    let rest = sample s n k (suc p) in
    if ltb (s.values p) (reject_from n) then ok (s.values p % n) (suc p) else rest

unfoldable pub bounded_draw : Stream → ℕ → Draws ℕ
bounded_draw s n = if leb n 1 then ret 0 else sample s n s.patience

-- xs[boundedDraw(s, uint64(len(xs)))]
unfoldable pub pick : {A : Type 0} → Stream → List A → Draws A
pick s xs = bounded_draw s (length xs) >>= load xs

unfoldable pub swap : {A : Type 0} → List A → ℕ → ℕ → Draws (List A)
swap xs i j = do x ← load xs i; y ← load xs j; ret (set (set xs i y) j x)

-- The loop of shuffle, from index i down to 1.
unfoldable pub shuffle_from : {A : Type 0} → Stream → ℕ → List A → Draws (List A)
shuffle_from s zero xs = ret xs
shuffle_from s (suc i) xs = do
  j ← bounded_draw s (suc i + 1)
  ys ← swap xs (suc i) j
  shuffle_from s i ys

unfoldable pub shuffle : {A : Type 0} → Stream → List A → Draws (List A)
shuffle s xs = shuffle_from s (length xs - 1) xs

abbrev pub total_of : List ℕ → ℕ → ℕ
total_of [] total = total
total_of (w ∷ ws) total = total_of ws ((total + w) % 2 ^ 64)

-- The second loop of weightedPick, from index i on: `none` when it runs to the end.
abbrev pub pick_at : ℕ → List ℕ → ℕ → ℕ → Option ℕ
pick_at v [] acc i = none
pick_at v (w ∷ ws) acc i =
    let sum = (acc + w) % 2 ^ 64 in
    let rest = pick_at v ws sum (suc i) in if ltb v sum then some i else rest

-- The weights are never empty, so that the index below the loop is not negative.
unfoldable pub weighted_pick : Stream → List ℕ → Draws ℕ
weighted_pick s weights = do
  v ← bounded_draw s (total_of weights 0)
  elim (pick_at v weights 0 0) [ some i ↦ ret i | none ↦ ret (length weights - 1) ]

unfoldable pub biased_newest : Stream → ℕ → Draws Bool
biased_newest s threshold p = ok (ltb (s.values p / 2 ^ 32) threshold) (suc p)
