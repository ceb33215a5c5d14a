-- ===== src/Store/Move/Chain.antt =====
-- The chain of an item's movements: the view item_holder of internal/store/migrations/00007_item_machine.sql.
use mathlib.Core.Path.{ap₂}
use lab_game.Prelude.{
  ℕ, ◌<◌, ◌≤◌, ◌≡◌, ◌≢◌, refl, sym, ap, ◌∙◌, ◌==◌, ◌&&◌, ◌||◌, not, Bool, true, false,
  if◌then◌else◌, List, [], ◌∷◌, Option, none, some, inl, inr, arith, ==_iff, Bool-cases,
}
use lab_game.Prelude.Members.{◌∈◌}
use lab_game.Store.Books.{MovementRow}
use lab_game.Store.Move.{has_successor, heads_among, item_holder}

-- A predecessor was given its id before.
abbrev pub Earlier : ℕ → Option ℕ → Type 0
Earlier n none = Unit {0}
Earlier n (some p) = p ≤ n

no_successor :
    (n : ℕ) (r : MovementRow) (rows : List MovementRow)
    → n < r.id
    → ((s : MovementRow) → s ∈ rows → Earlier n s.prev)
    → has_successor r rows ≡ false
unfolding has_successor
no_successor n r [] l h = refl
no_successor n r (s ∷ ss) l h =
    go s.prev (h s (inl refl)) (s.item == r.item) (no_successor n r ss l (λ x m. h x (inr m)))
  where
    go :
        (o : Option ℕ)
        → Earlier n o
        → (b : Bool) → has_successor r ss ≡ false
        → ((b && elim o [ none ↦ false | some p ↦ p == r.id ]) || has_successor r ss) ≡ false
    go none e true ih = ih
    go none e false ih = ih
    go (some p) e b ih = ground arith

pub heads_among-mem :
    (all : List MovementRow) (i : ℕ) (rows : List MovementRow) (r : MovementRow)
    → r ∈ heads_among all i rows
    → (r ∈ rows) × (r.item ≡ i)
unfolding heads_among
heads_among-mem all i [] r h = absurd h
heads_among-mem all i (s ∷ ss) r h =
    go (s.item == i) ((==_iff s.item i).0) (has_successor s all) h (heads_among-mem all i ss r)
  where
    go :
        (b : Bool)
        → (b ≡ true → s.item ≡ i)
        → (c : Bool) → r ∈ (if b && not c then s ∷ heads_among all i ss else heads_among all i ss)
        → (r ∈ heads_among all i ss → (r ∈ ss) × (r.item ≡ i))
        → (r ∈ s ∷ ss) × (r.item ≡ i)
    go true k false (inl e) ih = (inl e, ap (λ x. x.item) e ∙ k refl)
    go true k false (inr h) ih = (inr (ih h).0, (ih h).1)
    go true k true h ih = (inr (ih h).0, (ih h).1)
    go false k c h ih = (inr (ih h).0, (ih h).1)

-- A row that follows the heads of an item: it names the one row that has no successor, or none where there is none.
abbrev pub Continues : Option ℕ → List MovementRow → Type 0
Continues none heads = heads ≡ []
Continues (some p) heads = (s : MovementRow) → s ∈ heads → s.id ≡ p

-- The successor takes the place of its predecessor among the heads.
heads_among-closed :
    (i : ℕ) (r : MovementRow) (all rows : List MovementRow)
    → r.item ≡ i
    → Continues r.prev (heads_among all i rows)
    → heads_among (r ∷ all) i rows ≡ []
unfolding heads_among has_successor
heads_among-closed i r all [] e h = refl
heads_among-closed i r all (s ∷ ss) e h =
    go r.prev (s.item == i) ((==_iff s.item i).0) (r.item == s.item) ((==_iff r.item s.item).1)
      (has_successor s all) h (heads_among-closed i r all ss e)
  where
    named : Option ℕ → Bool
    named o = elim o [ none ↦ false | some p ↦ p == s.id ]

    go :
        (o : Option ℕ) (b : Bool)
        → (b ≡ true → s.item ≡ i)
        → (d : Bool) → (r.item ≡ s.item → d ≡ true)
        → (c : Bool)
        → Continues o (if b && not c then s ∷ heads_among all i ss else heads_among all i ss)
        → (Continues o (heads_among all i ss) → heads_among (r ∷ all) i ss ≡ [])
        → (if b && not ((d && elim o [ none ↦ false | some p ↦ p == s.id ]) || c)
            then s ∷ heads_among (r ∷ all) i ss
            else heads_among (r ∷ all) i ss)
          ≡ []
    go o false k d m c h ih = ih h
    go none true k d m false h ih = absurd (cc)
    go none true k true m true h ih = ih h
    go none true k false m true h ih = ih h
    go (some p) true k d m false h ih =
        rw (m (e ∙ sym (k refl)), (==_iff p s.id).1 (sym (h s (inl refl))))
          (ih (λ t n. h t (inr n)))
    go (some p) true k true m true h ih = elim (Bool-cases (p == s.id)) [
      | inl q ↦ rw q (ih h)
      | inr q ↦ rw q (ih h)
    ]
    go (some p) true k false m true h ih = ih h

-- After a new row that continues the chain of its item, the view has that row alone for the item.
pub item_holder_new :
    (n : ℕ) (r : MovementRow) (rows : List MovementRow)
    → n < r.id
    → Earlier n r.prev
    → ((s : MovementRow) → s ∈ rows → Earlier n s.prev)
    → Continues r.prev (item_holder r.item rows)
    → item_holder r.item (r ∷ rows) ≡ r ∷ []
unfolding heads_among
item_holder_new n r rows l e h c =
    rw
      (
        no_successor n r (r ∷ rows) l (λ s m. elim m [ inl q ↦ rw q e | inr k ↦ h s k ]),
        (==_iff r.item r.item).1 refl,
        heads_among-closed r.item r rows rows refl c,
      )
      refl

heads_among_other :
    (j : ℕ) (r : MovementRow) (all rows : List MovementRow)
    → j ≢ r.item
    → heads_among (r ∷ all) j rows ≡ heads_among all j rows
unfolding heads_among has_successor
heads_among_other j r all [] n = refl
heads_among_other j r all (s ∷ ss) n =
    go (s.item == j) ((==_iff s.item j).0) (r.item == s.item) ((==_iff r.item s.item).0)
      (heads_among_other j r all ss n)
  where
    named : Bool
    named = elim r.prev [ none ↦ false | some p ↦ p == s.id ]

    go :
        (b : Bool)
        → (b ≡ true → s.item ≡ j)
        → (c : Bool) → (c ≡ true → r.item ≡ s.item)
        → heads_among (r ∷ all) j ss ≡ heads_among all j ss
        → (if b && not ((c && named) || has_successor s all)
            then s ∷ heads_among (r ∷ all) j ss
            else heads_among (r ∷ all) j ss)
          ≡ (if b && not (has_successor s all)
              then s ∷ heads_among all j ss
              else heads_among all j ss)
    go false h c k ih = ih
    go true h true k ih = absurd (n (sym (h refl) ∙ sym (k refl)))
    go true h false k ih =
        ap₂ (λ x y. if not (has_successor s all) then x else y) (ap (λ x. s ∷ x) ih) ih

-- The view stays as it is for any other item.
pub item_holder_other :
    (j : ℕ) (r : MovementRow) (rows : List MovementRow)
    → j ≢ r.item
    → item_holder j (r ∷ rows) ≡ item_holder j rows
unfolding heads_among
item_holder_other j r rows n = go (r.item == j) ((==_iff r.item j).0)
  where
    go :
        (b : Bool)
        → (b ≡ true → r.item ≡ j)
        → (if b && not (has_successor r (r ∷ rows))
            then r ∷ heads_among (r ∷ rows) j rows
            else heads_among (r ∷ rows) j rows)
          ≡ heads_among rows j rows
    go true h = absurd (n (sym (h refl)))
    go false h = heads_among_other j r rows rows n
