-- ===== src/Maze/Portal/Spread.antt =====
-- About nonConsecutivePositions, internal/maze/portal.go.
use mathlib.Core.Path.{subst}
use lab_game.Prelude.{
  ℕ, zero, suc, ◌+◌, ◌-◌, ◌*◌, ◌≤◌, ◌<◌, ◌^◌, ◌≡◌, refl, ap, ◌∙◌, arith, Bool, true, false, leb,
  Bool-cases, ◌⊎◌, inl, inr, ◌==◌, ==_iff, List, [], ◌∷◌, length, take, length-take, numbers, count,
  if◌then◌else◌,
}
use lab_game.Prelude.Members.{◌∈◌, Distinct}
use lab_game.Maze.Draw.{Stream, ok, shuffle}
use lab_game.Maze.Draw.Bounds.{IsFair, EndsIn, >>=-ok}
use lab_game.Maze.Draw.Rearrange.{Rearranges, shuffle-Rearranges, count_pos, pos_count}
use lab_game.Maze.Portal.{insert, sort, spread, non_consecutive_positions}

-- From lo on, each position is below the bound, and at least two behind the one before it.
abbrev pub Gaps : ℕ → ℕ → List ℕ → Type 0
Gaps bound lo [] = Unit {0}
Gaps bound lo (p ∷ ps) = (lo ≤ p) × (p < bound) × Gaps bound (p + 2) ps

abbrev Ascending : ℕ → ℕ → List ℕ → Type 0
Ascending bound lo [] = Unit {0}
Ascending bound lo (x ∷ xs) = (lo ≤ x) × (x < bound) × Ascending bound (x + 1) xs

Ascending-less :
    (bound lo lo' : ℕ) (xs : List ℕ) → lo' ≤ lo → Ascending bound lo xs → Ascending bound lo' xs
Ascending-less bound lo lo' [] le h = tt
Ascending-less bound lo lo' (x ∷ xs) le h = (omega (arith, h.0), h.1, h.2)

insert-Ascending :
    (bound lo x : ℕ) (ys : List ℕ)
    → Ascending bound lo ys
    → lo ≤ x
    → x < bound
    → ¬ (x ∈ ys)
    → Ascending bound lo (insert x ys)
insert-Ascending bound lo x [] h le lt out = (le, lt, tt)
insert-Ascending bound lo x (y ∷ ys) h le lt out = elim (Bool-cases (leb x y)) [
  | inl e ↦
      let before : x + 1 ≤ y = strictly x y (λ same. out (inl same)) (ground (arith, e)) in
      rw e (le, lt, (before, h.1, h.2))
  | inr e ↦
      let after : y + 1 ≤ x = ground (arith, e) in
      rw e (h.0, h.1, insert-Ascending bound (y + 1) x ys h.2 after lt (λ m. out (inr m)))
]
  where
    strictly : (x y : ℕ) → ¬ (x ≡ y) → x ≤ y → x + 1 ≤ y
    strictly x y ne le = grind arith

mem-insert : (x a : ℕ) (ys : List ℕ) → a ∈ insert x ys → (a ≡ x) ⊎ (a ∈ ys)
mem-insert x a [] m = m
mem-insert x a (y ∷ ys) m = go (leb x y) m (mem-insert x a ys)
  where
    go :
        (b : Bool)
        → a ∈ (if b then x ∷ y ∷ ys else y ∷ insert x ys)
        → (a ∈ insert x ys → (a ≡ x) ⊎ (a ∈ ys))
        → (a ≡ x) ⊎ (a ∈ y ∷ ys)
    go true n ih = n
    go false (inl e) ih = inr (inl e)
    go false (inr n) ih = elim (ih n) [ inl e ↦ inl e | inr k ↦ inr (inr k) ]

mem-sort : (a : ℕ) (xs : List ℕ) → a ∈ sort xs → a ∈ xs
mem-sort a [] m = m
mem-sort a (x ∷ xs) m = elim (mem-insert x a (sort xs) m) [
  | inl e ↦ inl e
  | inr n ↦ inr (mem-sort a xs n)
]

sort-Ascending :
    (bound : ℕ) (xs : List ℕ)
    → Distinct xs
    → ((x : ℕ) → x ∈ xs → x < bound)
    → Ascending bound 0 (sort xs)
sort-Ascending bound [] d h = tt
sort-Ascending bound (x ∷ xs) d h =
    insert-Ascending bound 0 x (sort xs) (sort-Ascending bound xs d.1 (λ y m. h y (inr m)))
      (omega arith) (h x (inl refl)) (λ m. d.0 (mem-sort x xs m))

length-insert : (x : ℕ) (ys : List ℕ) → length (insert x ys) ≡ suc (length ys)
length-insert x [] = refl
length-insert x (y ∷ ys) = elim (Bool-cases (leb x y)) [
  | inl e ↦ rw e refl
  | inr e ↦ rw e (ap suc (length-insert x ys))
]

length-sort : (xs : List ℕ) → length (sort xs) ≡ length xs
length-sort [] = refl
length-sort (x ∷ xs) = length-insert x (sort xs) ∙ ap suc (length-sort xs)

-- The ranks are added: consecutive ones leave a place between them.
spread-Gaps :
    (slots chosen i lo : ℕ) (xs : List ℕ)
    → Ascending slots lo xs
    → i + length xs ≡ chosen
    → Gaps (slots + chosen - 1) (lo + i) (spread i xs)
unfolding spread
spread-Gaps slots chosen i lo [] h e = tt
spread-Gaps slots chosen i lo (x ∷ xs) h e =
    let rest = spread-Gaps slots chosen (suc i) (x + 1) xs h.2 (omega arith) in
    let shift : x + 1 + suc i ≡ x + i + 2 = omega arith in
    (
      omega (arith, h.0),
      omega (arith, h.1),
      subst (λ n. Gaps (slots + chosen - 1) n (spread (suc i) xs)) shift rest,
    )

length-spread : (i : ℕ) (xs : List ℕ) → length (spread i xs) ≡ length xs
unfolding spread
length-spread i [] = refl
length-spread i (x ∷ xs) = ap suc (length-spread (suc i) xs)

mem-numbers : (from n x : ℕ) → x ∈ numbers from n → (from ≤ x) × (x < from + n)
mem-numbers from zero x m = absurd m
mem-numbers from (suc n) x (inl e) = (omega arith, omega arith)
mem-numbers from (suc n) x (inr m) =
    let h = mem-numbers (suc from) n x m in (omega arith, omega arith)

count-below : (x from n : ℕ) → x < from → count (λ t. t == x) (numbers from n) ≡ 0
count-below x from zero h = refl
count-below x from (suc n) h =
    let e : (from == x) ≡ false = ground arith in
    rw e (omega (arith, count-below x (suc from) n (omega arith)))

count-numbers : (x from n : ℕ) → count (λ t. t == x) (numbers from n) ≤ 1
count-numbers x from zero = omega arith
count-numbers x from (suc n) = elim (Bool-cases (from == x)) [
  | inl e ↦
      let same : from ≡ x = (==_iff from x).0 e in
      rw e (omega (arith, count-below x (suc from) n (omega arith)))
  | inr e ↦ rw e (omega (arith, count-numbers x (suc from) n))
]

self_eq : (x : ℕ) → (x == x) ≡ true
self_eq x = (==_iff x x).1 refl

counts-Distinct : (xs : List ℕ) → ((x : ℕ) → count (λ t. t == x) xs ≤ 1) → Distinct xs
counts-Distinct [] h = tt
counts-Distinct (x ∷ xs) h = (
  λ m.
      let once : (if true then 1 else 0) + count (λ t. t == x) xs ≤ 1 = rw (self_eq x) at (h x) in
      absurd (omega (arith, pos_count (λ t. t == x) xs x m (self_eq x))),
  counts-Distinct xs (λ y. omega (arith, h y)),
)

count-take : (p : ℕ → Bool) (n : ℕ) (xs : List ℕ) → count p (take n xs) ≤ count p xs
count-take p zero xs = omega arith
count-take p (suc n) [] = omega arith
count-take p (suc n) (x ∷ xs) = omega (arith, count-take p n xs)

mem-take : (n : ℕ) (xs : List ℕ) (x : ℕ) → x ∈ take n xs → x ∈ xs
mem-take zero xs x m = absurd m
mem-take (suc n) [] x m = absurd m
mem-take (suc n) (y ∷ ys) x (inl e) = inl e
mem-take (suc n) (y ∷ ys) x (inr m) = inr (mem-take n ys x m)

length-numbers : (from n : ℕ) → length (numbers from n) ≡ n
length-numbers from zero = refl
length-numbers from (suc n) = ap suc (length-numbers (suc from) n)

-- A part of a rearranged pool holds ranks of the pool, and none twice.
module _ (slots n : ℕ) (pool : List ℕ) (r : Rearranges pool (numbers 0 slots)) where
  chosen-Distinct : Distinct (take n pool)
  chosen-Distinct = counts-Distinct (take n pool) (λ x. omega (
    arith,
    count-take (λ t. t == x) n pool,
    r.same_counts (λ t. t == x),
    count-numbers x 0 slots,
  ))

  chosen_below : (x : ℕ) → x ∈ take n pool → x < slots
  chosen_below x m =
      let k = pos_count (λ t. t == x) pool x (mem-take n pool x m) (self_eq x) in
      let (y, i, e) =
        count_pos (λ t. t == x) (numbers 0 slots) (omega (arith, r.same_counts (λ t. t == x))) in
      let same = (==_iff y x).0 e in omega (arith, (mem-numbers 0 slots y i).1)

-- The positions are as many as wanted, below l, and no two of them are the same or neighbours.
pub record IsApart (l count : ℕ) (ps : List ℕ) : Type 0 where
  pub as_many : length ps ≡ count
  pub gaps : Gaps l 0 ps

positions_step :
    (s : Stream) (l n p q : ℕ) (pool : List ℕ)
    → shuffle s (numbers 0 (l + 1 - suc n)) p ≡ ok pool q
    → non_consecutive_positions s l (suc n) p ≡ ok (spread 0 (sort (take (suc n) pool))) q
unfolding non_consecutive_positions
positions_step s l n p q pool e = >>=-ok (shuffle s (numbers 0 (l + 1 - suc n))) _ e refl

-- With a fair stream, and a count for which the border of length l has room, nonConsecutivePositions ends with that many
-- ascending positions below l, each at least two behind the one before it.
pub non_consecutive_positions-IsApart :
    (s : Stream) (l count p : ℕ)
    → IsFair s
    → 2 * count ≤ l + 1
    → l < 2 ^ 63
    → EndsIn (IsApart l count) p (non_consecutive_positions s l count p)
unfolding non_consecutive_positions
non_consecutive_positions-IsApart s l zero p fair room small =
    ([], p, refl, omega arith, record { as_many = refl; gaps = tt })
non_consecutive_positions-IsApart s l (suc n) p fair room small =
    let slots = l + 1 - suc n in
    let (pool, q, e, le, r) =
      shuffle-Rearranges s (numbers 0 slots) p fair (omega (arith, length-numbers 0 slots)) in
    let some_ranks = take (suc n) pool in
    let size : length (sort some_ranks) ≡ suc n = omega (
      arith,
      length-sort some_ranks,
      length-take (suc n) pool,
      r.same_length,
      length-numbers 0 slots,
    ) in
    let gaps =
      spread-Gaps slots (suc n) 0 0 (sort some_ranks)
        (sort-Ascending slots some_ranks (chosen-Distinct slots (suc n) pool r)
          (chosen_below slots (suc n) pool r))
        (omega arith) in
    let bound : slots + suc n - 1 ≡ l = omega arith in
    (
      spread 0 (sort some_ranks),
      q,
      positions_step s l n p q pool e,
      le,
      record {
        as_many = length-spread 0 (sort some_ranks) ∙ size;
        gaps = subst (λ b. Gaps b 0 (spread 0 (sort some_ranks))) bound gaps;
      },
    )
