-- ===== src/Store/Move/Order.antt =====
-- The order of a batch of movements: internal/store/move.go.
use lab_game.Prelude.{
  ℕ, ◌≡◌, sym, ltb, Bool, true, false, if◌then◌else◌, List, [], ◌∷◌, map, ◌⊎◌, inl, inr,
}
use lab_game.Prelude.Members.{◌∈◌, Distinct}
use lab_game.Store.Move.{Movement, insert_by_item, sort_by_item}

abbrev pub items_of : List (ℕ × Movement) → List ℕ
items_of xs = map (λ x. x.0) xs

mem-insert_by_item :
    (y x : ℕ × Movement) (xs : List (ℕ × Movement)) → y ∈ x ∷ xs → y ∈ insert_by_item x xs
unfolding insert_by_item
mem-insert_by_item y x [] m = m
mem-insert_by_item y x (z ∷ zs) m = go (ltb z.0 x.0) m (mem-insert_by_item y x zs)
  where
    go :
        (b : Bool)
        → y ∈ x ∷ z ∷ zs
        → (y ∈ x ∷ zs → y ∈ insert_by_item x zs)
        → y ∈ (if b then z ∷ insert_by_item x zs else x ∷ z ∷ zs)
    go false m ih = m
    go true (inl e) ih = inr (ih (inl e))
    go true (inr (inl e)) ih = inl e
    go true (inr (inr n)) ih = inr (ih (inr n))

pub mem-sort_by_item : (y : ℕ × Movement) (xs : List (ℕ × Movement)) → y ∈ xs → y ∈ sort_by_item xs
unfolding sort_by_item
mem-sort_by_item y (x ∷ xs) (inl e) = mem-insert_by_item y x (sort_by_item xs) (inl e)
mem-sort_by_item y (x ∷ xs) (inr m) =
    mem-insert_by_item y x (sort_by_item xs) (inr (mem-sort_by_item y xs m))
mem-sort_by_item y [] m = absurd m

items-insert_by_item :
    (i : ℕ) (x : ℕ × Movement) (xs : List (ℕ × Movement))
    → i ∈ items_of (insert_by_item x xs)
    → (i ≡ x.0) ⊎ (i ∈ items_of xs)
unfolding insert_by_item
items-insert_by_item i x [] m = m
items-insert_by_item i x (z ∷ zs) m = go (ltb z.0 x.0) m (items-insert_by_item i x zs)
  where
    go :
        (b : Bool)
        → i ∈ items_of (if b then z ∷ insert_by_item x zs else x ∷ z ∷ zs)
        → (i ∈ items_of (insert_by_item x zs) → (i ≡ x.0) ⊎ (i ∈ items_of zs))
        → (i ≡ x.0) ⊎ (i ∈ items_of (z ∷ zs))
    go false m ih = m
    go true (inl e) ih = inr (inl e)
    go true (inr n) ih = elim (ih n) [ inl e ↦ inl e | inr k ↦ inr (inr k) ]

pub items-sort_by_item :
    (i : ℕ) (xs : List (ℕ × Movement)) → i ∈ items_of (sort_by_item xs) → i ∈ items_of xs
unfolding sort_by_item
items-sort_by_item i [] m = m
items-sort_by_item i (x ∷ xs) m = elim (items-insert_by_item i x (sort_by_item xs) m) [
  | inl e ↦ inl e
  | inr n ↦ inr (items-sort_by_item i xs n)
]

insert_by_item-mem :
    (y x : ℕ × Movement) (xs : List (ℕ × Movement)) → y ∈ insert_by_item x xs → y ∈ x ∷ xs
unfolding insert_by_item
insert_by_item-mem y x [] m = m
insert_by_item-mem y x (z ∷ zs) m = go (ltb z.0 x.0) m (insert_by_item-mem y x zs)
  where
    go :
        (b : Bool)
        → y ∈ (if b then z ∷ insert_by_item x zs else x ∷ z ∷ zs)
        → (y ∈ insert_by_item x zs → y ∈ x ∷ zs)
        → y ∈ x ∷ z ∷ zs
    go false m ih = m
    go true (inl e) ih = inr (inl e)
    go true (inr n) ih = elim (ih n) [ inl e ↦ inl e | inr k ↦ inr (inr k) ]

-- Sorting adds no movement.
pub sort_by_item-mem : (y : ℕ × Movement) (xs : List (ℕ × Movement)) → y ∈ sort_by_item xs → y ∈ xs
unfolding sort_by_item
sort_by_item-mem y [] m = m
sort_by_item-mem y (x ∷ xs) m = elim (insert_by_item-mem y x (sort_by_item xs) m) [
  | inl e ↦ inl e
  | inr n ↦ inr (sort_by_item-mem y xs n)
]

insert_by_item-Distinct :
    (x : ℕ × Movement) (xs : List (ℕ × Movement))
    → ¬ (x.0 ∈ items_of xs)
    → Distinct (items_of xs)
    → Distinct (items_of (insert_by_item x xs))
unfolding insert_by_item
insert_by_item-Distinct x [] n d = (n, tt)
insert_by_item-Distinct x (z ∷ zs) n d =
    go (ltb z.0 x.0) (insert_by_item-Distinct x zs (λ m. n (inr m)) d.1)
  where
    go :
        (b : Bool)
        → Distinct (items_of (insert_by_item x zs))
        → Distinct (items_of (if b then z ∷ insert_by_item x zs else x ∷ z ∷ zs))
    go false ih = (n, d)
    go true ih = (
      λ m. elim (items-insert_by_item z.0 x zs m) [ inl e ↦ n (inl (sym e)) | inr k ↦ d.0 k ],
      ih,
    )

pub sort_by_item-Distinct :
    (xs : List (ℕ × Movement)) → Distinct (items_of xs) → Distinct (items_of (sort_by_item xs))
unfolding sort_by_item
sort_by_item-Distinct [] d = tt
sort_by_item-Distinct (x ∷ xs) d =
    insert_by_item-Distinct x (sort_by_item xs) (λ m. d.0 (items-sort_by_item x.0 xs m))
      (sort_by_item-Distinct xs d.1)
