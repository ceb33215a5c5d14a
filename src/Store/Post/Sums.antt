-- ===== src/Store/Post/Sums.antt =====
-- The sums that the batch of a posting changes: internal/store/post.go.
use Prim.Native.String.{String}
use text.Mathlib.Text.{◌==◌ as ◌==ₛ◌}
use text.Mathlib.TextEquality.{eq_iff}
use lab_game.Prelude.{
  ℕ, ◌≡◌, refl, sym, ap, ◌∙◌, ◌==◌, ◌&&◌, Bool, true, false, if◌then◌else◌, List, [], ◌∷◌, ◌⊎◌, inl,
  inr, arith,
}
use lab_game.Prelude.Int.{ℤ, pos, ◌+ℤ◌, eqb_ℤ, eq_of_parts, int_laws}
use lab_game.Store.Books.{Account, PostingRow}
use lab_game.Store.Post.{Entry, kind_of, delta, kind_sum, balanced_from, insert_postings}

-- The sum of an account's postings.
unfoldable pub total : ℕ → List PostingRow → ℤ
total i [] = pos 0
total i (r ∷ rs) = if i == r.account then r.amount +ℤ total i rs else total i rs

-- The sum of the postings on the accounts of a kind.
unfoldable pub kind_total : List Account → String → List PostingRow → ℤ
kind_total accts k [] = pos 0
kind_total accts k (r ∷ rs) =
    if kind_of accts r.account ==ₛ k
    then r.amount +ℤ kind_total accts k rs
    else kind_total accts k rs

zero_add : (x : ℤ) → x ≡ pos 0 +ℤ x
zero_add x = omega int_laws

move_out : (d x t : ℤ) → d +ℤ (x +ℤ t) ≡ (x +ℤ d) +ℤ t
move_out d x t = omega int_laws

pub total-insert_postings :
    (i entry : ℕ) (es : List Entry) (rows : List PostingRow)
    → total i (insert_postings entry es rows) ≡ delta i es +ℤ total i rows
unfolding total insert_postings delta
total-insert_postings i entry [] rows = zero_add (total i rows)
total-insert_postings i entry (e ∷ es) rows = total-insert_postings i entry es _ ∙ go (i == e.0)
  where
    go :
        (b : Bool)
        → delta i es +ℤ (if b then e.1 +ℤ total i rows else total i rows)
          ≡ (if b then e.1 +ℤ delta i es else delta i es) +ℤ total i rows
    go true = move_out (delta i es) e.1 (total i rows)
    go false = refl

pub kind_total-insert_postings :
    (accts : List Account) (k : String) (entry : ℕ) (es : List Entry) (rows : List PostingRow)
    → kind_total accts k (insert_postings entry es rows)
      ≡ kind_sum accts k es +ℤ kind_total accts k rows
unfolding kind_total insert_postings kind_sum
kind_total-insert_postings accts k entry [] rows = zero_add (kind_total accts k rows)
kind_total-insert_postings accts k entry (e ∷ es) rows =
    kind_total-insert_postings accts k entry es _ ∙ go (kind_of accts e.0 ==ₛ k)
  where
    go :
        (b : Bool)
        → kind_sum accts k es
            +ℤ (if b then e.1 +ℤ kind_total accts k rows else kind_total accts k rows)
          ≡ (if b then e.1 +ℤ kind_sum accts k es else kind_sum accts k es)
            +ℤ kind_total accts k rows
    go true = move_out (kind_sum accts k es) e.1 (kind_total accts k rows)
    go false = refl

pub eqb_ℤ→eq : (x y : ℤ) → eqb_ℤ x y ≡ true → x ≡ y
eqb_ℤ→eq x y h = eq_of_parts x y (ground arith)

-- Every kind sums to zero: one that the batch does not name has no posting in it.
pub balanced_from-kind_sum :
    (accts : List Account) (all es : List Entry) (k : String)
    → balanced_from accts all es ≡ true
    → (kind_sum accts k all ≡ pos 0) ⊎ (kind_sum accts k es ≡ pos 0)
unfolding balanced_from kind_sum
balanced_from-kind_sum accts all [] k h = inr refl
balanced_from-kind_sum accts all (e ∷ es) k h =
    let (zero, rest) = both (eqb_ℤ (kind_sum accts (kind_of accts e.0) all) (pos 0)) _ h in
    go (kind_of accts e.0 ==ₛ k) refl (eqb_ℤ→eq _ _ zero)
      (balanced_from-kind_sum accts all es k rest)
  where
    both : (a b : Bool) → (a && b) ≡ true → (a ≡ true) × (b ≡ true)
    both true b h = (refl, h)
    both false b h = absurd (cc)

    go :
        (b : Bool)
        → (kind_of accts e.0 ==ₛ k) ≡ b
        → kind_sum accts (kind_of accts e.0) all ≡ pos 0
        → (kind_sum accts k all ≡ pos 0) ⊎ (kind_sum accts k es ≡ pos 0)
        → (kind_sum accts k all ≡ pos 0)
          ⊎ ((if b then e.1 +ℤ kind_sum accts k es else kind_sum accts k es) ≡ pos 0)
    go true q z ih =
        inl (ap (λ x. kind_sum accts x all) (sym ((eq_iff (kind_of accts e.0) k).0 q)) ∙ z)
    go false q z ih = ih
