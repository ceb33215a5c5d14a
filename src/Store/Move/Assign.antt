-- ===== src/Store/Move/Assign.antt =====
-- The items of a batch of movements are distinct: internal/store/move.go.
use lab_game.Prelude.{
  ℕ, suc, ◌<◌, ◌≤◌, ◌≡◌, ◌≢◌, refl, sym, ap, ◌∙◌, ◌==◌, ◌||◌, not, Bool, true, false, if◌then◌else◌,
  List, [], ◌∷◌, has, Option, none, some, ◌⊎◌, inl, inr, arith, ==_iff, some_inj,
}
use lab_game.Prelude.Members.{◌∈◌, Distinct}
use lab_game.Store.Books.{
  MovementRow, ok, ◌>>=◌, ◌>>◌, fail_if, or_fail, self_move, mint_not_from_world, duplicate_item,
  unknown_item,
}
use lab_game.Store.Move.{
  Movement, check_shape, check_known, assign, minted, head, item_holder, last_read,
}
use lab_game.Store.Move.Order.{items_of}
use lab_game.Store.Move.Chain.{heads_among-mem}

-- The shape of one movement, and the rest.
shape_parts :
    (seen : List ℕ) (m : Movement) (ms : List Movement)
    → check_shape seen (m ∷ ms) ≡ ok tt
    → ((m.item ≡ 0) × (check_shape seen ms ≡ ok tt))
      ⊎ ((m.item ≢ 0) × (has seen m.item ≡ false) × (check_shape (m.item ∷ seen) ms ≡ ok tt))
unfolding check_shape
shape_parts seen m ms h =
    go (m.from == m.to) (m.item == 0) ((==_iff m.item 0).0) ((==_iff m.item 0).1) (m.from == 1)
      (has seen m.item) refl h
  where
    go :
        (a b : Bool)
        → (b ≡ true → m.item ≡ 0)
        → (m.item ≡ 0 → b ≡ true)
        → (w d : Bool) → has seen m.item ≡ d
        → (fail_if a self_move
            >> (if b
                then fail_if (not w) mint_not_from_world >> check_shape seen ms
                else fail_if d duplicate_item >> check_shape (m.item ∷ seen) ms))
          ≡ ok tt
        → ((m.item ≡ 0) × (check_shape seen ms ≡ ok tt))
          ⊎ ((m.item ≢ 0) × (has seen m.item ≡ false) × (check_shape (m.item ∷ seen) ms ≡ ok tt))
    go true b k l w d e h = absurd (cc)
    go false true k l true d e h = inl (k refl, h)
    go false true k l false d e h = absurd (cc)
    go false false k l w true e h = absurd (cc)
    go false false k l w false e h = inr (λ z. cc (l z), e, h)

-- Every named item was given its id before.
abbrev pub AreKnown : ℕ → List Movement → Type 0
AreKnown n [] = Unit {0}
AreKnown n (m ∷ ms) = ((m.item ≡ 0) ⊎ (m.item ≤ n)) × AreKnown n ms

pub head-mem :
    (i : ℕ) (rows : List MovementRow) (r : MovementRow)
    → head i rows ≡ some r
    → (r ∈ rows) × (r.item ≡ i)
head-mem i rows r h = heads_among-mem rows i rows r (go (item_holder i rows) h)
  where
    go : (xs : List MovementRow) → last_read xs ≡ some r → r ∈ xs
    go [] h = absurd (cc)
    go (x ∷ xs) h = inl (sym (some_inj x r h))

pub check_known-AreKnown :
    (n : ℕ) (rows : List MovementRow) (ms : List Movement)
    → ((r : MovementRow) → r ∈ rows → r.item ≤ n)
    → check_known rows ms ≡ ok tt
    → AreKnown n ms
unfolding check_known
check_known-AreKnown n rows [] below h = tt
check_known-AreKnown n rows (m ∷ ms) below h =
    go (m.item == 0) ((==_iff m.item 0).0) (head m.item rows) refl h
      (check_known-AreKnown n rows ms below)
  where
    go :
        (b : Bool)
        → (b ≡ true → m.item ≡ 0)
        → (o : Option MovementRow) → head m.item rows ≡ o
        → (if b then check_known rows ms else or_fail o unknown_item >>= λ r. check_known rows ms)
          ≡ ok tt
        → (check_known rows ms ≡ ok tt → AreKnown n ms)
        → AreKnown n (m ∷ ms)
    go true k o e h ih = (inl (k refl), ih h)
    go false k none e h ih = absurd (cc)
    go false k (some r) e h ih =
        let (i, same) = head-mem m.item rows r e in (inr (omega (arith, below r i, same)), ih h)

-- An assigned item was named and is not among those seen, or it was minted.
assigned :
    (n k : ℕ) (seen : List ℕ) (ms : List Movement) (i : ℕ)
    → n ≤ k
    → AreKnown n ms
    → check_shape seen ms ≡ ok tt
    → i ∈ items_of (assign k ms)
    → (k < i) ⊎ ((i ≤ n) × (has seen i ≡ false))
unfolding assign
assigned n k seen [] i l a h m = absurd m
assigned n k seen (x ∷ xs) i l a h m = elim (shape_parts seen x xs h) [
  | inl (z, rest) ↦
      minted_one (x.item == 0) ((==_iff x.item 0).1 z) m
        (assigned n (suc k) seen xs i (omega arith) a.1 rest)
  | inr (nz, unseen, rest) ↦
      named_one (x.item == 0) (λ e. nz ((==_iff x.item 0).0 e)) m nz unseen
        (assigned n k (x.item ∷ seen) xs i l a.1 rest)
]
  where
    minted_one :
        (b : Bool)
        → b ≡ true
        → i ∈ items_of (if b then (suc k, x) ∷ assign (suc k) xs else (x.item, x) ∷ assign k xs)
        → (i ∈ items_of (assign (suc k) xs) → (suc k < i) ⊎ ((i ≤ n) × (has seen i ≡ false)))
        → (k < i) ⊎ ((i ≤ n) × (has seen i ≡ false))
    minted_one true q (inl e) ih = inl (omega (arith, e))
    minted_one true q (inr m) ih = elim (ih m) [ inl p ↦ inl (omega arith) | inr p ↦ inr p ]
    minted_one false q m ih = absurd (cc)

    named_one :
        (b : Bool)
        → b ≢ true
        → i ∈ items_of (if b then (suc k, x) ∷ assign (suc k) xs else (x.item, x) ∷ assign k xs)
        → x.item ≢ 0
        → has seen x.item ≡ false
        → (i ∈ items_of (assign k xs) → (k < i) ⊎ ((i ≤ n) × (has (x.item ∷ seen) i ≡ false)))
        → (k < i) ⊎ ((i ≤ n) × (has seen i ≡ false))
    named_one true q m nz u ih = absurd (q refl)
    named_one false q (inl e) nz u ih =
        inr (elim a.0 [ inl z ↦ absurd (nz z) | inr p ↦ omega (arith, e) ], ap (has seen) e ∙ u)
    named_one false q (inr m) nz u ih = elim (ih m) [
      | inl p ↦ inl p
      | inr p ↦ inr (p.0, or_right (i == x.item) (has seen i) p.1)
    ]
      where
        or_right : (c d : Bool) → (c || d) ≡ false → d ≡ false
        or_right true d h = absurd (cc)
        or_right false d h = h

pub assign-Distinct :
    (n k : ℕ) (seen : List ℕ) (ms : List Movement)
    → n ≤ k
    → AreKnown n ms
    → check_shape seen ms ≡ ok tt
    → Distinct (items_of (assign k ms))
unfolding assign
assign-Distinct n k seen [] l a h = tt
assign-Distinct n k seen (x ∷ xs) l a h = elim (shape_parts seen x xs h) [
  | inl (z, rest) ↦
      minted_one (x.item == 0) ((==_iff x.item 0).1 z)
        (assign-Distinct n (suc k) seen xs (omega arith) a.1 rest)
        (λ m. elim (assigned n (suc k) seen xs (suc k) (omega arith) a.1 rest m) [
          | inl p ↦ omega arith
          | inr p ↦ omega (arith, p.0)
        ])
  | inr (nz, unseen, rest) ↦
      named_one (x.item == 0) (λ e. nz ((==_iff x.item 0).0 e))
        (assign-Distinct n k (x.item ∷ seen) xs l a.1 rest)
        (λ m. elim (assigned n k (x.item ∷ seen) xs x.item l a.1 rest m) [
          | inl p ↦ elim a.0 [ inl z ↦ nz z | inr q ↦ omega arith ]
          | inr p ↦
              self_seen (x.item == x.item) ((==_iff x.item x.item).1 refl) (has seen x.item) p.1
        ])
]
  where
    minted_one :
        (b : Bool)
        → b ≡ true
        → Distinct (items_of (assign (suc k) xs))
        → ¬ (suc k ∈ items_of (assign (suc k) xs))
        → Distinct
            (items_of (if b then (suc k, x) ∷ assign (suc k) xs else (x.item, x) ∷ assign k xs))
    minted_one true q d n = (n, d)
    minted_one false q d n = absurd (cc)

    named_one :
        (b : Bool)
        → b ≢ true
        → Distinct (items_of (assign k xs))
        → ¬ (x.item ∈ items_of (assign k xs))
        → Distinct
            (items_of (if b then (suc k, x) ∷ assign (suc k) xs else (x.item, x) ∷ assign k xs))
    named_one true q d n = absurd (q refl)
    named_one false q d n = (n, d)

    self_seen : (b : Bool) → b ≡ true → (c : Bool) → (b || c) ≢ false
    self_seen true q c h = cc
    self_seen false q c h = cc

pub minted_le : (k : ℕ) (ms : List Movement) → k ≤ minted k ms
unfolding minted
minted_le k [] = omega arith
minted_le k (m ∷ ms) = go (m.item == 0) (minted_le k ms) (minted_le (suc k) ms)
  where
    go :
        (b : Bool)
        → k ≤ minted k ms
        → suc k ≤ minted (suc k) ms
        → k ≤ minted (if b then suc k else k) ms
    go true p q = omega arith
    go false p q = p

-- Every item of the batch was given its id when the movements are written.
pub assign-minted :
    (n k : ℕ) (ms : List Movement)
    → n ≤ k
    → AreKnown n ms
    → (x : ℕ × Movement) → x ∈ assign k ms
    → x.0 ≤ minted k ms
unfolding assign minted
assign-minted n k [] l a x m = absurd m
assign-minted n k (y ∷ ys) l a x m =
    go (y.item == 0) ((==_iff y.item 0).1) m (assign-minted n (suc k) ys (omega arith) a.1 x)
      (assign-minted n k ys l a.1 x)
  where
    go :
        (b : Bool)
        → (y.item ≡ 0 → b ≡ true)
        → x ∈ (if b then (suc k, y) ∷ assign (suc k) ys else (y.item, y) ∷ assign k ys)
        → (x ∈ assign (suc k) ys → x.0 ≤ minted (suc k) ys)
        → (x ∈ assign k ys → x.0 ≤ minted k ys)
        → x.0 ≤ minted (if b then suc k else k) ys
    go true z (inl e) p q = omega (arith, ap (λ u. u.0) e, minted_le (suc k) ys)
    go true z (inr m) p q = p m
    go false z (inl e) p q = elim a.0 [
      | inl w ↦ absurd (cc (z w))
      | inr w ↦ omega (arith, ap (λ u. u.0) e, minted_le k ys)
    ]
    go false z (inr m) p q = q m

-- A minted item has a fresh id.
pub assign-fresh :
    (n k : ℕ) (ms : List Movement)
    → n ≤ k
    → (x : ℕ × Movement) → x ∈ assign k ms
    → x.1.item ≡ 0
    → n < x.0
unfolding assign
assign-fresh n k [] l x m z = absurd m
assign-fresh n k (y ∷ ys) l x m z =
    go (y.item == 0) ((==_iff y.item 0).1) m (λ q. assign-fresh n (suc k) ys (omega arith) x q z)
      (λ q. assign-fresh n k ys l x q z)
  where
    go :
        (b : Bool)
        → (y.item ≡ 0 → b ≡ true)
        → x ∈ (if b then (suc k, y) ∷ assign (suc k) ys else (y.item, y) ∷ assign k ys)
        → (x ∈ assign (suc k) ys → n < x.0)
        → (x ∈ assign k ys → n < x.0)
        → n < x.0
    go true w (inl e) p q = omega (arith, ap (λ u. u.0) e)
    go true w (inr m) p q = p m
    go false w (inl e) p q = absurd (cc (w (sym (ap (λ u. u.1.item) e) ∙ z)))
    go false w (inr m) p q = q m
