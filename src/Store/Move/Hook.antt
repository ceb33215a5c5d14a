-- ===== src/Store/Move/Hook.antt =====
-- The hook of Move: internal/store/move.go.
use mathlib.Core.Path.{subst}
use lab_game.Prelude.{
  ℕ, ◌≡◌, refl, sym, ap, ◌∙◌, ◌==◌, Bool, true, false, if◌then◌else◌, List, [], ◌∷◌, Option, none,
  some, inl, inr, arith, ==_iff,
}
use lab_game.Prelude.Members.{◌∈◌, mem-map}
use lab_game.Store.Books.{MovementRow, Books, ok, >>=-ok, ok_inj}
use lab_game.Store.Post.Balanced.{KeepsBooks}
use lab_game.Store.Move.{
  Movement, new_item, check_shape, assign, minted, sort_by_item, head, item_holder, last_read,
  predecessor, insert_movement, insert_movements, move_hook,
}
use lab_game.Store.Move.Order.{items-sort_by_item, sort_by_item-Distinct, sort_by_item-mem}
use lab_game.Store.Move.Chain.{Earlier, Continues, heads_among-mem}
use lab_game.Store.Move.Assign.{
  AreKnown, head-mem, assign-Distinct, assign-minted, assign-fresh, minted_le,
}
use lab_game.Store.Move.Written.{
  IsChained, IsSingle, Moved, insert_movement-ok, insert_movements-Moved,
}

-- Only the items and the movements are changed by the hook.
insert_movements-kept :
    (entry : ℕ) (start : List MovementRow) (xs : List (ℕ × Movement)) (b b' : Books)
    → insert_movements entry start xs b ≡ ok b'
    → (b'.accounts ≡ b.accounts) × (b'.balances ≡ b.balances) × (b'.postings ≡ b.postings)
unfolding insert_movements
insert_movements-kept entry start [] b b' e =
    let same = sym (ok_inj b b' e) in
    (ap (λ x. x.accounts) same, ap (λ x. x.balances) same, ap (λ x. x.postings) same)
insert_movements-kept entry start (x ∷ xs) b b' e =
    let (mid, first, rest) =
      >>=-ok (insert_movement entry (predecessor start x) x b) (insert_movements entry start xs) b'
        e in
    let same = insert_movement-ok entry (predecessor start x) x b mid first in
    let (a, v, p) = insert_movements-kept entry start xs mid b' rest in
    (a ∙ ap (λ x. x.accounts) same, v ∙ ap (λ x. x.balances) same, p ∙ ap (λ x. x.postings) same)

pub move_hook-KeepsBooks : (ms : List Movement) → KeepsBooks (move_hook ms)
unfolding move_hook
move_hook-KeepsBooks ms entry x y e h =
    let (a, v, p) =
      insert_movements-kept entry x.movements (sort_by_item (assign x.items ms))
        (record x { items = minted x.items ms }) y e in
    (record { kinds = λ k. rw (a, p) (h.kinds k); balances = rw (a, v, p) h.balances }, a)

predecessor-Earlier :
    (b : Books) → IsChained b → (x : ℕ × Movement) → Earlier b.moves (predecessor b.movements x)
predecessor-Earlier b h x = go (x.1.item == new_item) (head x.0 b.movements) refl
  where
    go :
        (c : Bool) (o : Option MovementRow)
        → head x.0 b.movements ≡ o
        → Earlier b.moves (if c then none else elim o [ none ↦ none | some r ↦ some r.id ])
    go true o e = tt
    go false none e = tt
    go false (some r) e = h.rows r (head-mem x.0 b.movements r e).0

-- The predecessor of a movement is the one row of its item in the view, or there is none.
predecessor-Continues :
    (b : Books) (ms : List Movement)
    → IsChained b
    → (x : ℕ × Movement) → x ∈ assign b.items ms
    → Continues (predecessor b.movements x) (item_holder x.0 b.movements)
predecessor-Continues b ms h x m =
    go (x.1.item == new_item) ((==_iff x.1.item new_item).0) (item_holder x.0 b.movements) refl
      (h.single x.0)
  where
    go :
        (c : Bool)
        → (c ≡ true → x.1.item ≡ new_item)
        → (rows : List MovementRow) → item_holder x.0 b.movements ≡ rows
        → IsSingle rows
        → Continues
            (if c then none else elim (last_read rows) [ none ↦ none | some r ↦ some r.id ])
            rows
    go true k [] e s = refl
    go true k (r ∷ rs) e s =
        let here : r ∈ item_holder x.0 b.movements = subst (λ t. r ∈ t) (sym e) (inl refl) in
        let (there, item) = heads_among-mem b.movements x.0 b.movements r here in
        absurd (
          omega (
            arith,
            h.items r there,
            item,
            assign-fresh b.items b.items ms (omega arith) x m (k refl),
          ))
    go false k [] e s = refl
    go false k (r ∷ []) e s = λ t. elim [ inl q ↦ ap (λ z. z.id) q | inr q ↦ absurd q ]
    go false k (r ∷ q ∷ rs) e s = absurd s

pub move_hook-Moved :
    (ms : List Movement) (entry : ℕ) (b b' : Books)
    → IsChained b
    → AreKnown b.items ms
    → check_shape [] ms ≡ ok tt
    → move_hook ms entry b ≡ ok b'
    → Moved (sort_by_item (assign b.items ms)) (record b { items = minted b.items ms }) b'
unfolding move_hook
move_hook-Moved ms entry b b' h known shape e =
    insert_movements-Moved entry b.movements b.moves (sort_by_item (assign b.items ms))
      (record b { items = minted b.items ms }) b' (predecessor-Earlier b h) (omega arith)
      (λ i m.
        let (x, n, same) =
          (mem-map (λ x. x.0) i (assign b.items ms)).0
            (items-sort_by_item i (assign b.items ms) m) in
        let p = assign-minted b.items b.items ms (omega arith) known x n in omega arith)
      (sort_by_item-Distinct (assign b.items ms)
        (assign-Distinct b.items b.items [] ms (omega arith) known shape))
      (λ x m. predecessor-Continues b ms h x (sort_by_item-mem x (assign b.items ms) m))
      (record {
        rows = h.rows;
        items = λ r m. let p = h.items r m in omega (arith, minted_le b.items ms);
        earlier = h.earlier;
        single = h.single;
      })
      e
