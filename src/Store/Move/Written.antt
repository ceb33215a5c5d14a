-- ===== src/Store/Move/Written.antt =====
-- What the writing of movements leaves: internal/store/move.go.
use mathlib.Core.Path.{subst}
use lab_game.Prelude.{
  ℕ, suc, ◌≤◌, ◌≡◌, refl, sym, ap, ◌∙◌, ◌==◌, ◌||◌, not, Bool, true, false, List, [], ◌∷◌, Option,
  none, some, inl, inr, arith, Bool-cases, ==_iff,
}
use lab_game.Prelude.Members.{◌∈◌, Distinct, mem-map}
use lab_game.Store.Books.{
  MovementRow, Books, ok, ◌>>◌, fail_if, move_conflict, check_violation, >>=-ok, ok_inj,
}
use lab_game.Store.Move.{
  Movement, is_linked, is_taken, item_holder, breaks_check, predecessor, insert_movement,
  insert_movements,
}
use lab_game.Store.Move.Order.{items_of}
use lab_game.Store.Move.Chain.{Earlier, Continues, item_holder_new, item_holder_other}

abbrev pub IsSingle : List MovementRow → Type 0
IsSingle [] = Unit {0}
IsSingle (r ∷ []) = Unit {0}
IsSingle (r ∷ s ∷ rs) = ⊥

-- The ids of the rows, of their items and of their predecessors were given before, and the view item_holder has at
-- most one row of each item.
pub record IsChained (b : Books) : Type 0 where
  pub rows : (r : MovementRow) → r ∈ b.movements → r.id ≤ b.moves
  pub items : (r : MovementRow) → r ∈ b.movements → r.item ≤ b.items
  pub earlier : (r : MovementRow) → r ∈ b.movements → Earlier b.moves r.prev
  pub single : (i : ℕ) → IsSingle (item_holder i b.movements)

-- The view has exactly one row of the item, and it names the holder.
abbrev pub IsHeld : List MovementRow → ℕ → ℕ → Type 0
IsHeld rows i holder = (r : MovementRow) × (item_holder i rows ≡ r ∷ []) × (r.to ≡ holder)

-- What the writing of movements leaves.
pub record Moved (xs : List (ℕ × Movement)) (b b' : Books) : Type 0 where
  pub chained : IsChained b'
  pub held : (x : ℕ × Movement) → x ∈ xs → IsHeld b'.movements x.0 x.1.to
  pub others :
      (j : ℕ) → ¬ (j ∈ items_of xs) → item_holder j b'.movements ≡ item_holder j b.movements
  pub grown : b.moves ≤ b'.moves
  pub kept :
      (b'.accounts ≡ b.accounts)
      × (b'.balances ≡ b.balances)
      × (b'.postings ≡ b.postings)
      × (b'.items ≡ b.items)

weaken : (n m : ℕ) (o : Option ℕ) → n ≤ m → Earlier n o → Earlier m o
weaken n m none l e = tt
weaken n m (some p) l e = omega arith

abbrev new_row : ℕ → Option ℕ → ℕ × Movement → Books → MovementRow
new_row entry prev x b = record {
  id = suc b.moves;
  item = x.0;
  prev = prev;
  from = x.1.from;
  to = x.1.to;
  entry = entry;
}

pub insert_movement-ok :
    (entry : ℕ) (prev : Option ℕ) (x : ℕ × Movement) (b b' : Books)
    → insert_movement entry prev x b ≡ ok b'
    → b' ≡ record b { moves = suc b.moves; movements = new_row entry prev x b ∷ b.movements }
unfolding insert_movement
insert_movement-ok entry prev x b b' h =
    go (breaks_check prev x.1)
      (not (is_linked x.0 prev x.1.from b.movements) || is_taken x.0 prev x.1.from b.movements) h
  where
    after : Books
    after = record b { moves = suc b.moves; movements = new_row entry prev x b ∷ b.movements }

    go :
        (c d : Bool)
        → (fail_if c check_violation >> fail_if d move_conflict >> ok after) ≡ ok b'
        → b' ≡ after
    go true d h = absurd (cc)
    go false true h = absurd (cc)
    go false false h = sym (ok_inj after b' h)

module _ (entry : ℕ) (start : List MovementRow) (n : ℕ) where
  -- The first movement, and then the others.
  inserted :
      (x : ℕ × Movement) (xs : List (ℕ × Movement)) (b b' : Books)
      → Earlier n (predecessor start x)
      → n ≤ b.moves
      → x.0 ≤ b.items
      → ¬ (x.0 ∈ items_of xs)
      → Continues (predecessor start x) (item_holder x.0 b.movements)
      → IsChained b
      → Moved xs
          (record b {
            moves = suc b.moves;
            movements = new_row entry (predecessor start x) x b ∷ b.movements;
          })
          b'
      → Moved (x ∷ xs) b b'
  inserted x xs b b' prev l known once next h moved = record {
    chained = moved.chained;
    held = λ y m. elim m [
      | inl e ↦ rw e (
        row,
        moved.others x.0 once
            ∙ item_holder_new b.moves row b.movements (omega arith) early h.earlier next,
        refl,
      )
      | inr k ↦ moved.held y k
    ];
    others = λ j out.
        moved.others j (λ k. out (inr k)) ∙ item_holder_other j row b.movements (λ e. out (inl e));
    grown = let g = moved.grown in omega arith;
    kept = moved.kept;
  }
    where
      row : MovementRow
      row = new_row entry (predecessor start x) x b

      early : Earlier b.moves row.prev
      early = weaken n b.moves (predecessor start x) l prev

  step-IsChained :
      (x : ℕ × Movement) (b : Books)
      → Earlier n (predecessor start x)
      → n ≤ b.moves
      → x.0 ≤ b.items
      → Continues (predecessor start x) (item_holder x.0 b.movements)
      → IsChained b
      → IsChained (record b {
        moves = suc b.moves;
        movements = new_row entry (predecessor start x) x b ∷ b.movements;
      })
  step-IsChained x b prev l known next h = record {
    rows = λ r m. elim m [ inl e ↦ rw e (omega arith) | inr k ↦ let p = h.rows r k in omega arith ];
    items = λ r m. elim m [ inl e ↦ rw e known | inr k ↦ h.items r k ];
    earlier = λ r m. elim m [
      | inl e ↦ rw e (weaken n (suc b.moves) (predecessor start x) (omega arith) prev)
      | inr k ↦ weaken b.moves (suc b.moves) r.prev (omega arith) (h.earlier r k)
    ];
    single = λ i. elim (Bool-cases (i == x.0)) [
      | inl q ↦
          rw
            (
              (==_iff i x.0).0 q,
              item_holder_new b.moves row b.movements (omega arith)
                  (weaken n b.moves (predecessor start x) l prev) h.earlier next,
            )
            tt
      | inr q ↦ rw (item_holder_other i row b.movements (λ e. cc ((==_iff i x.0).1 e))) (h.single i)
    ];
  }
    where
      row : MovementRow
      row = new_row entry (predecessor start x) x b

  pub insert_movements-Moved :
      (xs : List (ℕ × Movement)) (b b' : Books)
      → ((x : ℕ × Movement) → Earlier n (predecessor start x))
      → n ≤ b.moves
      → ((i : ℕ) → i ∈ items_of xs → i ≤ b.items)
      → Distinct (items_of xs)
      → ((x : ℕ × Movement)
          → x ∈ xs
          → Continues (predecessor start x) (item_holder x.0 b.movements))
      → IsChained b
      → insert_movements entry start xs b ≡ ok b'
      → Moved xs b b'
  unfolding insert_movements
  insert_movements-Moved [] b b' prev l known d next h e =
      subst (Moved [] b) (ok_inj b b' e) (record {
        chained = h;
        held = λ x m. absurd m;
        others = λ j n. refl;
        grown = omega arith;
        kept = (refl, refl, refl, refl);
      })
  insert_movements-Moved (x ∷ xs) b b' prev l known d next h e =
      let (mid, first, rest) =
        >>=-ok (insert_movement entry (predecessor start x) x b) (insert_movements entry start xs)
          b' e in
      let same = insert_movement-ok entry (predecessor start x) x b mid first in
      inserted x xs b b' (prev x) l (known x.0 (inl refl)) d.0 (next x (inl refl)) h (
        insert_movements-Moved xs _ b' prev (omega arith) (λ i m. known i (inr m)) d.1
          (λ y m.
            subst (Continues (predecessor start y))
              (sym (
                item_holder_other y.0 (new_row entry (predecessor start x) x b) b.movements (λ e.
                  d.0
                    (subst (λ i. i ∈ items_of xs) e ((mem-map (λ x. x.0) y.0 xs).1 (y, m, refl))))))
              (next y (inr m)))
          (step-IsChained x b (prev x) l (known x.0 (inl refl)) (next x (inl refl)) h)
          (ap (insert_movements entry start xs) (sym same) ∙ rest))
