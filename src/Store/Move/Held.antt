-- ===== src/Store/Move/Held.antt =====
-- Where the items of a move are after it: internal/store/move.go.
use lab_game.Prelude.{ℕ, suc, ◌≡◌, sym, ap, ◌∙◌, List, [], ◌++◌, map, Option}
use lab_game.Prelude.Members.{◌∈◌}
use lab_game.Store.Books.{Basis, Books, Result, ok, ◌>>=◌, fail_if, no_movements, >>=-ok, ok_inj}
use lab_game.Store.Post.{Posting, post, is_empty}
use lab_game.Store.Post.Balanced.{IsBooked, post-IsBooked, post-Ran}
use lab_game.Store.Move.{
  Movement, check_shape, check_known, check_holders, all_legs, assign, item_holder, move_hook, move,
}
use lab_game.Store.Move.Order.{items_of, mem-sort_by_item, items-sort_by_item}
use lab_game.Store.Move.Assign.{check_known-AreKnown}
use lab_game.Store.Move.Written.{IsChained, IsHeld}
use lab_game.Store.Move.Hook.{move_hook-KeepsBooks, move_hook-Moved}

module _ (basis : Option Basis) (ms : List Movement) (ps : List Posting) (b : Books) where
  -- The parts of move from the end up.
  abbrev posts : List Posting → Result (List ℕ × Books)
  posts ls =
      post basis (move_hook ms) (ps ++ ls) b >>= λ b'. ok (map (λ x. x.0) (assign b.items ms), b')

  abbrev takes_legs : Unit {0} → Result (List ℕ × Books)
  takes_legs u = all_legs b.accounts ms >>= posts

  abbrev checks_holders : Unit {0} → Result (List ℕ × Books)
  checks_holders u = check_holders b.movements ms >>= takes_legs

  abbrev checks_known : Unit {0} → Result (List ℕ × Books)
  checks_known u = check_known b.movements ms >>= checks_holders

  abbrev checks_shape : Unit {0} → Result (List ℕ × Books)
  checks_shape u = check_shape [] ms >>= checks_known

  -- The shape was checked, the items were known, and the batch was posted.
  move_parts :
      (ids : List ℕ) (b' : Books)
      → move basis ms ps b ≡ ok (ids, b')
      → (ls : List Posting) × (check_shape [] ms ≡ ok tt)
        × (check_known b.movements ms ≡ ok tt)
        × (post basis (move_hook ms) (ps ++ ls) b ≡ ok b')
        × (ids ≡ items_of (assign b.items ms))
  unfolding move
  move_parts ids b' e =
      let (u, some_moves, e1) =
        >>=-ok (fail_if (is_empty ms) no_movements) checks_shape (ids, b') e in
      let (_, shape, e2) = >>=-ok (check_shape [] ms) checks_known (ids, b') e1 in
      let (_, known, e3) = >>=-ok (check_known b.movements ms) checks_holders (ids, b') e2 in
      let (_, holders, e4) = >>=-ok (check_holders b.movements ms) takes_legs (ids, b') e3 in
      let (ls, legs, e5) = >>=-ok (all_legs b.accounts ms) posts (ids, b') e4 in
      let (b2, posted, e6) =
        >>=-ok (post basis (move_hook ms) (ps ++ ls) b)
          (λ x. ok (map (λ x. x.0) (assign b.items ms), x)) (ids, b') e5 in
      let same = ok_inj _ (ids, b') e6 in
      (ls, shape, known, posted ∙ ap (λ x. ok x.1) same, ap (λ x. x.0) (sym same))

  -- Where Move accepts a batch, from books that are in order, the books are in order after it, the ids that it returns
  -- are those of the movements' items, minted ones included, the view item_holder has exactly one row of each of these
  -- items, which names the holder that it was moved to, and the rows of every other item are what they were. That the
  -- view has at most one row of each item is part of the order.
  pub move-IsHeld :
      (ids : List ℕ) (b' : Books)
      → IsBooked b
      → IsChained b
      → move basis ms ps b ≡ ok (ids, b')
      → IsBooked b'
        × IsChained b'
        × (ids ≡ items_of (assign b.items ms))
        × ((x : ℕ × Movement) → x ∈ assign b.items ms → IsHeld b'.movements x.0 x.1.to)
        × ((j : ℕ) → ¬ (j ∈ ids) → item_holder j b'.movements ≡ item_holder j b.movements)
  move-IsHeld ids b' booked h e =
      let (ls, shape, known, posted, same) = move_parts ids b' e in
      let r = post-Ran basis (move_hook ms) (ps ++ ls) b b' posted in
      let before : Books = record b { documents = r.documents; entries = suc b.entries } in
      let chained : IsChained before = record {
        rows = h.rows;
        items = h.items;
        earlier = h.earlier;
        single = h.single;
      } in
      let moved =
        move_hook-Moved ms b.entries before r.hooked chained
          (check_known-AreKnown b.items b.movements ms h.items known) shape r.ran in
      (
        post-IsBooked basis (move_hook ms) (ps ++ ls) b b' (move_hook-KeepsBooks ms) booked posted,
        rw r.entered (record {
          rows = moved.chained.rows;
          items = moved.chained.items;
          earlier = moved.chained.earlier;
          single = moved.chained.single;
        }),
        same,
        λ x m. rw r.entered (moved.held x (mem-sort_by_item x (assign b.items ms) m)),
        λ j out.
            rw r.entered
              (moved.others j (λ m. out (rw same (items-sort_by_item j (assign b.items ms) m)))),
      )
