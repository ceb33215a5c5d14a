-- ===== src/Maze/Draw/Rearrange.antt =====
-- About shuffle, internal/maze/draw.go.
use lab_game.Prelude.{
  ap, sym, true, false, inl, inr, if◌then◌else◌, Bool-cases, ℕ, zero, suc, ◌+◌, ◌-◌, ◌^◌, ◌≤◌, ◌<◌,
  ◌≡◌, refl, ◌∙◌, arith, Bool, List, [], ◌∷◌, length, get_elem?, set, count, length-set, some,
  some_inj,
}
use lab_game.Prelude.Members.{◌∈◌}
use lab_game.Maze.Draw.{Stream, Run, ok, bounded_draw, swap, shuffle_from, shuffle, load}
use lab_game.Maze.Draw.Bounds.{IsFair, EndsIn, bounded_draw-EndsIn, load_ok, >>=-ok}

-- The same elements, each as often, in some order.
pub record Rearranges {A : Type 0} (ys xs : List A) : Type 0 where
  pub same_length : length ys ≡ length xs
  pub same_counts : (p : A → Bool) → count p ys ≡ count p xs

module _ {A : Type 0} where
  Rearranges-trans : (zs ys xs : List A) → Rearranges zs ys → Rearranges ys xs → Rearranges zs xs
  Rearranges-trans zs ys xs r t = record {
    same_length = r.same_length ∙ t.same_length;
    same_counts = λ p. r.same_counts p ∙ t.same_counts p;
  }

  count-set :
      (p : A → Bool) (xs : List A) (i : ℕ) (a v : A)
      → get_elem? xs i ≡ some a
      → count p (set xs i v) + count p (a ∷ []) ≡ count p xs + count p (v ∷ [])
  count-set p [] i a v e = absurd cc
  count-set p (x ∷ xs) zero a v e = rw (some_inj x a e) (omega arith)
  count-set p (x ∷ xs) (suc i) a v e = omega (arith, count-set p xs i a v e)

  get-set_self : (xs : List A) (i : ℕ) (v : A) → i < length xs → get_elem? (set xs i v) i ≡ some v
  get-set_self [] i v h = absurd (omega arith)
  get-set_self (x ∷ xs) zero v h = refl
  get-set_self (x ∷ xs) (suc i) v h = get-set_self xs i v (omega arith)

  -- What stands at j after a write of the element of j to i.
  get-set_same :
      (xs : List A) (i j : ℕ) (b : A) → get_elem? xs j ≡ some b → get_elem? (set xs i b) j ≡ some b
  get-set_same [] i j b e = absurd cc
  get-set_same (x ∷ xs) zero zero b e = refl
  get-set_same (x ∷ xs) zero (suc j) b e = e
  get-set_same (x ∷ xs) (suc i) zero b e = e
  get-set_same (x ∷ xs) (suc i) (suc j) b e = get-set_same xs i j b e

  swap_ok :
      (xs : List A) (i j p : ℕ) (a b : A)
      → load xs i p ≡ ok a p
      → load xs j p ≡ ok b p
      → swap xs i j p ≡ ok (set (set xs i b) j a) p
  unfolding swap
  swap_ok xs i j p a b la lb = >>=-ok (load xs i) _ la (>>=-ok (load xs j) _ lb refl)

  swap_ends :
      (xs : List A) (i j p : ℕ)
      → i < length xs
      → j < length xs
      → (ys : List A) × (swap xs i j p ≡ ok ys p) × Rearranges ys xs
  unfolding swap
  swap_ends xs i j p hi hj =
      let (a, ga, la) = load_ok xs i p hi in
      let (b, gb, lb) = load_ok xs j p hj in
      (
        set (set xs i b) j a,
        swap_ok xs i j p a b la lb,
        record {
          same_length = length-set (set xs i b) j a ∙ length-set xs i b;
          same_counts = λ t. omega (
            arith,
            count-set t (set xs i b) j b a (get-set_same xs i j b gb),
            count-set t xs i a b ga,
          );
        },
      )

  shuffle_step :
      (s : Stream) (i : ℕ) (xs : List A) (p j q : ℕ) (ys : List A) (result : Run (List A))
      → bounded_draw s (suc i + 1) p ≡ ok j q
      → swap xs (suc i) j q ≡ ok ys q
      → shuffle_from s i ys q ≡ result
      → shuffle_from s (suc i) xs p ≡ result
  unfolding shuffle_from
  shuffle_step s i xs p j q ys result e f g =
      >>=-ok (bounded_draw s (suc i + 1)) _ e (>>=-ok (swap xs (suc i) j) (shuffle_from s i) f g)

  shuffle_from_ends :
      (s : Stream) (i : ℕ) (xs : List A) (p : ℕ)
      → IsFair s
      → i ≤ length xs - 1
      → length xs < 2 ^ 64
      → EndsIn (λ ys. Rearranges ys xs) p (shuffle_from s i xs p)
  unfolding shuffle_from
  shuffle_from_ends s zero xs p fair hi hl =
      (xs, p, refl, omega arith, record { same_length = refl; same_counts = λ t. refl })
  shuffle_from_ends s (suc i) xs p fair hi hl =
      let (j, q, e, le, hj) = bounded_draw-EndsIn s (suc i + 1) p fair (omega arith) in
      let (ys, f, r) = swap_ends xs (suc i) j q (omega arith) (omega arith) in
      let (zs, t, g, le', r') =
        shuffle_from_ends s i ys q fair (omega (arith, r.same_length))
          (omega (arith, r.same_length)) in
      (
        zs,
        t,
        shuffle_step s i xs p j q ys (ok zs t) e f g,
        omega arith,
        Rearranges-trans zs ys xs r' r,
      )

  -- With a fair stream and a list shorter than 2^64, shuffle ends without a panic, and its list has
  -- the same elements, each as often.
  pub shuffle-Rearranges :
      (s : Stream) (xs : List A) (p : ℕ)
      → IsFair s
      → length xs < 2 ^ 64
      → EndsIn (λ ys. Rearranges ys xs) p (shuffle s xs p)
  unfolding shuffle
  shuffle-Rearranges s xs p fair hl = shuffle_from_ends s (length xs - 1) xs p fair (omega arith) hl

module _ {A : Type 0} where
  pub count_pos : (p : A → Bool) (fs : List A) → 0 < count p fs → (f : A) × (f ∈ fs) × (p f ≡ true)
  count_pos p [] h = absurd (omega arith)
  count_pos p (f ∷ fs) h = elim (Bool-cases (p f)) [
    | inl e ↦ (f, inl refl, e)
    | inr e ↦
        let k : 0 < (if false then 1 else 0) + count p fs = rw e at h in
        let (g, m, q) = count_pos p fs (omega arith) in (g, inr m, q)
  ]

  pub pos_count : (p : A → Bool) (fs : List A) (f : A) → f ∈ fs → p f ≡ true → 0 < count p fs
  pos_count p [] f m e = absurd m
  pos_count p (g ∷ gs) f (inl same) e =
      let e' : p g ≡ true = ap p (sym same) ∙ e in rw e' (omega arith)
  pos_count p (g ∷ gs) f (inr m) e = omega (arith, pos_count p gs f m e)
