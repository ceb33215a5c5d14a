-- ===== src/Store/Post/Balances.antt =====
-- What the updates of a batch make of the balances: internal/store/post.go.
use lab_game.Prelude.{
  ℕ, ◌<◌, ◌≤◌, ◌≡◌, ◌≢◌, refl, sym, ap, ◌∙◌, ◌==◌, ◌&&◌, not, Bool, true, false, if◌then◌else◌,
  List, [], ◌∷◌, Option, none, some, ◌⊎◌, inl, inr, arith, ==_iff,
}
use lab_game.Prelude.Int.{ℤ, pos, ◌+ℤ◌, ◌≤ℤ◌, ltb_ℤ, eqb_ℤ, int_laws}
use lab_game.Prelude.Members.{◌∈◌}
use lab_game.Store.Books.{
  Account, ok, ◌>>=◌, or_fail, fail_if, overdraft, balance_row_missing, >>=-ok, ok_inj,
}
use lab_game.Store.Post.{
  Entry, insert_id, account_ids, controlled, delta, find_balance, put_balance, update_balance,
  update_balances,
}
use lab_game.Store.Post.Sums.{eqb_ℤ→eq}

-- Ascending, so that no id stands twice.
abbrev Above : ℕ → List ℕ → Type 0
Above i [] = Unit {0}
Above i (j ∷ js) = (i < j) × Above j js

abbrev pub Ascending : List ℕ → Type 0
Ascending [] = Unit {0}
Ascending (j ∷ js) = Above j js

Above-not_mem : (i k : ℕ) (js : List ℕ) → Above i js → k ≤ i → ¬ (k ∈ js)
Above-not_mem i k [] h l m = m
Above-not_mem i k (j ∷ js) h l (inl e) = omega (arith, h.0, e)
Above-not_mem i k (j ∷ js) h l (inr m) = Above-not_mem j k js h.1 (omega (arith, h.0)) m

pub mem_dec : (i : ℕ) (js : List ℕ) → (i ∈ js) ⊎ (¬ (i ∈ js))
mem_dec i [] = inr (λ m. m)
mem_dec i (j ∷ js) = let ih = mem_dec i js in ground arith

insert_id-Above : (i j : ℕ) (js : List ℕ) → j < i → Above j js → Above j (insert_id i js)
unfolding insert_id
insert_id-Above i j [] l h = (l, tt)
insert_id-Above i j (k ∷ ks) l h = let ih = insert_id-Above i k ks in ground arith

insert_id-Ascending : (i : ℕ) (js : List ℕ) → Ascending js → Ascending (insert_id i js)
unfolding insert_id
insert_id-Ascending i [] h = tt
insert_id-Ascending i (j ∷ js) h = let ih = insert_id-Above i j js in ground arith

pub account_ids-Ascending : (es : List Entry) → Ascending (account_ids es)
unfolding account_ids
account_ids-Ascending [] = tt
account_ids-Ascending (e ∷ es) = insert_id-Ascending e.0 (account_ids es) (account_ids-Ascending es)

mem-insert_id : (k i : ℕ) (js : List ℕ) → (k ≡ i) ⊎ (k ∈ js) → k ∈ insert_id i js
unfolding insert_id
mem-insert_id k i [] m = m
mem-insert_id k i (j ∷ js) m = let ih = mem-insert_id k i js in ground arith

-- An account that the batch does not name has no delta.
pub delta_none : (k : ℕ) (es : List Entry) → ¬ (k ∈ account_ids es) → delta k es ≡ pos 0
unfolding delta account_ids
delta_none k [] n = refl
delta_none k (e ∷ es) n =
    go (k == e.0) ((==_iff k e.0).0) (delta_none k es (λ m. n (mem-insert_id k e.0 _ (inr m))))
  where
    go :
        (b : Bool)
        → (b ≡ true → k ≡ e.0)
        → delta k es ≡ pos 0
        → (if b then e.1 +ℤ delta k es else delta k es) ≡ pos 0
    go true h ih = absurd (n (mem-insert_id k e.0 (account_ids es) (inl (h refl))))
    go false h ih = ih

-- What an update of some balances leaves of the balance of an account.
abbrev pub Moved : List Entry → List ℕ → List (ℕ × ℤ) → ℕ → ℤ → Type 0
Moved es is bs k w =
    (v : ℤ) × (find_balance k bs ≡ some v)
    × (k ∈ is → w ≡ v +ℤ delta k es)
    × (¬ (k ∈ is) → w ≡ v)
    × (pos 0 ≤ℤ v → pos 0 ≤ℤ w)

find_balance-put_balance :
    (k i : ℕ) (x : ℤ) (bs : List (ℕ × ℤ)) (w : ℤ)
    → find_balance k (put_balance i x bs) ≡ some w
    → ((k ≡ i) × (w ≡ x)) ⊎ ((k ≢ i) × (find_balance k bs ≡ some w))
unfolding find_balance put_balance
find_balance-put_balance k i x [] w h = absurd (cc)
find_balance-put_balance k i x ((j, v) ∷ bs) w h =
    let ih = find_balance-put_balance k i x bs w in ground arith

update_balance_lem :
    (k i : ℕ) (d : ℤ) (bs bs' : List (ℕ × ℤ)) (w : ℤ)
    → update_balance i d bs ≡ ok bs'
    → find_balance k bs' ≡ some w
    → ((k ≡ i) × (v : ℤ) × (find_balance i bs ≡ some v) × (w ≡ v +ℤ d) × (pos 0 ≤ℤ w))
      ⊎ ((k ≢ i) × (find_balance k bs ≡ some w))
unfolding update_balance
update_balance_lem k i d bs bs' w h f = go (find_balance i bs) refl h
  where
    go :
        (o : Option ℤ)
        → find_balance i bs ≡ o
        → (or_fail o balance_row_missing >>= λ v.
            fail_if (ltb_ℤ (v +ℤ d) (pos 0)) overdraft >>= λ u. ok (put_balance i (v +ℤ d) bs))
          ≡ ok bs'
        → ((k ≡ i) × (v : ℤ) × (find_balance i bs ≡ some v) × (w ≡ v +ℤ d) × (pos 0 ≤ℤ w))
          ⊎ ((k ≢ i) × (find_balance k bs ≡ some w))
    go none e h = absurd (cc)
    go (some v) e h = step (ltb_ℤ (v +ℤ d) (pos 0)) refl h
      where
        step :
            (b : Bool)
            → ltb_ℤ (v +ℤ d) (pos 0) ≡ b
            → (fail_if b overdraft >>= λ u. ok (put_balance i (v +ℤ d) bs)) ≡ ok bs'
            → ((k ≡ i) × (v : ℤ) × (find_balance i bs ≡ some v) × (w ≡ v +ℤ d) × (pos 0 ≤ℤ w))
              ⊎ ((k ≢ i) × (find_balance k bs ≡ some w))
        step true l h = absurd (cc)
        step false l h =
            elim (find_balance-put_balance k i (v +ℤ d) bs w
              (ap (find_balance k) (ok_inj _ _ h) ∙ f)) [
                | inl (same, x) ↦ inl (same, v, e, x, rw x (ground arith))
                | inr (other, x) ↦ inr (other, x)
              ]

pub add_zero : (v d : ℤ) → d ≡ pos 0 → v ≡ v +ℤ d
add_zero v d e = rw e (omega int_laws)

tail : (i : ℕ) (is : List ℕ) → Above i is → Ascending is
tail i [] h = tt
tail i (j ∷ js) h = h.1

module _ (es : List Entry) (i : ℕ) (is : List ℕ) (asc : Above i is) (k : ℕ) (w : ℤ)
    (bs : List (ℕ × ℤ)) where
  -- One balance was updated, and then the rest.
  done_one :
      (v : ℤ)
      → (k ∈ is → w ≡ v +ℤ delta k es)
      → (¬ (k ∈ is) → w ≡ v)
      → (pos 0 ≤ℤ v → pos 0 ≤ℤ w)
      → ((k ≡ i) × (u : ℤ) × (find_balance i bs ≡ some u) × (v ≡ u +ℤ delta i es) × (pos 0 ≤ℤ v))
        ⊎ ((k ≢ i) × (find_balance k bs ≡ some v))
      → Moved es (i ∷ is) bs k w
  done_one v moved kept sign (inl (same, u, found, e, p)) =
      let out = Above-not_mem i k is asc (omega (arith, same)) in
      (
        u,
        ap (λ x. find_balance x bs) same ∙ found,
        λ m. kept out ∙ e ∙ ap (λ x. u +ℤ delta x es) (sym same),
        λ n. absurd (n (inl same)),
        λ q. sign p,
      )
  done_one v moved kept sign (inr (other, found)) = (
    v,
    found,
    λ m. elim m [ inl e ↦ absurd (other e) | inr n ↦ moved n ],
    λ n. kept (λ m. n (inr m)),
    sign,
  )

  -- The balance of i was left alone, where its delta is zero or it is not the account in question.
  done_none : Moved es is bs k w → (k ≡ i → delta i es ≡ pos 0) → Moved es (i ∷ is) bs k w
  done_none (v, found, moved, kept, sign) zero = (
    v,
    found,
    λ m. elim m [
      | inl e ↦
          kept (Above-not_mem i k is asc (omega (arith, e)))
          ∙ add_zero v _ (ap (λ x. delta x es) e ∙ zero e)
      | inr n ↦ moved n
    ],
    λ n. kept (λ m. n (inr m)),
    sign,
  )

pub update_balances_lem :
    (accts : List Account) (es : List Entry) (is : List ℕ) (bs bs' : List (ℕ × ℤ)) (k : ℕ) (w : ℤ)
    → Ascending is
    → update_balances accts es is bs ≡ ok bs'
    → controlled accts k ≡ true
    → find_balance k bs' ≡ some w
    → Moved es is bs k w
unfolding update_balances
update_balances_lem accts es [] bs bs' k w asc h c f =
    (w, ap (find_balance k) (ok_inj _ _ h) ∙ f, λ m. absurd m, λ n. refl, λ p. p)
update_balances_lem accts es (i ∷ is) bs bs' k w asc h c f =
    go (controlled accts i) refl (eqb_ℤ (delta i es) (pos 0)) refl h
      (λ xs. update_balances_lem accts es is xs bs' k w (tail i is asc))
  where
    go :
        (b : Bool)
        → controlled accts i ≡ b
        → (z : Bool) → eqb_ℤ (delta i es) (pos 0) ≡ z
        → (if b && not z
            then update_balance i (delta i es) bs >>= update_balances accts es is
            else update_balances accts es is bs)
          ≡ ok bs'
        → ((xs : List (ℕ × ℤ))
            → update_balances accts es is xs ≡ ok bs'
            → controlled accts k ≡ true
            → find_balance k bs' ≡ some w
            → Moved es is xs k w)
        → Moved es (i ∷ is) bs k w
    go true q false r h ih =
        let (bs1, u, rest) =
          >>=-ok (update_balance i (delta i es) bs) (update_balances accts es is) bs' h in
        let (v, found, moved, kept, sign) = ih bs1 rest c f in
        done_one es i is asc k w bs v moved kept sign
          (update_balance_lem k i (delta i es) bs bs1 v u found)
    go true q true r h ih =
        done_none es i is asc k w bs (ih bs h c f) (λ e. eqb_ℤ→eq (delta i es) (pos 0) r)
    go false q z r h ih =
        done_none es i is asc k w bs (ih bs h c f) (λ e. absurd (cc (ap (controlled accts) e)))
