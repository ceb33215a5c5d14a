-- ===== src/Store/Post/Balanced.antt =====
-- About a posted batch: internal/store/post.go.
use Prim.Native.String.{String}
use lab_game.Prelude.{
  ℕ, suc, ◌≡◌, refl, sym, ap, ◌∙◌, not, Bool, true, false, List, Option, none, some, ◌⊎◌, inl, inr,
}
use lab_game.Prelude.Int.{ℤ, pos, ◌+ℤ◌, ◌≤ℤ◌, int_laws}
use lab_game.Prelude.Members.{◌∈◌}
use lab_game.Store.Books.{
  Document, Books, Basis, Result, ok, ◌>>=◌, fail_if, unbalanced, unknown_account, empty_batch,
  >>=-ok, fail_if-ok, ok_inj,
}
use lab_game.Store.Documents.{insert_basis}
use lab_game.Store.Post.{
  Entry, Posting, account_ids, controlled, delta, balanced_from, find_balance, update_balances,
  insert_postings, post_entries, post, checked, all_known, is_empty,
}
use lab_game.Store.Post.Sums.{
  total, kind_total, total-insert_postings, kind_total-insert_postings, balanced_from-kind_sum,
}
use lab_game.Store.Post.Balances.{
  mem_dec, account_ids-Ascending, delta_none, add_zero, update_balances_lem,
}

-- The postings of each kind sum to zero, and each balance of a controlled account is the sum of its postings and
-- not negative.
pub record IsBooked (b : Books) : Type 0 where
  pub kinds : (k : String) → kind_total b.accounts k b.postings ≡ pos 0
  pub balances :
      (i : ℕ) (v : ℤ)
      → controlled b.accounts i ≡ true
      → find_balance i b.balances ≡ some v
      → (v ≡ total i b.postings) × (pos 0 ≤ℤ v)

-- A hook that changes no account and keeps the books.
abbrev pub KeepsBooks : (ℕ → Books → Result Books) → Type 0
KeepsBooks hook =
    (entry : ℕ) (x y : Books)
    → hook entry x ≡ ok y
    → IsBooked x
    → IsBooked y × (y.accounts ≡ x.accounts)

either : {A : Type 0} → A ⊎ A → A
either (inl a) = a
either (inr a) = a

add_zeros : (a b : ℤ) → a ≡ pos 0 → b ≡ pos 0 → a +ℤ b ≡ pos 0
add_zeros a b h k = rw (h, k) (omega int_laws)

swap_add : (a b : ℤ) → a +ℤ b ≡ b +ℤ a
swap_add a b = omega int_laws

-- The balances and the postings of a batch, put into the books.
entered_IsBooked :
    (es : List Entry) (entry : ℕ) (b : Books) (bs : List (ℕ × ℤ))
    → IsBooked b
    → balanced_from b.accounts es es ≡ true
    → update_balances b.accounts es (account_ids es) b.balances ≡ ok bs
    → IsBooked (record b { balances = bs; postings = insert_postings entry es b.postings })
entered_IsBooked es entry b bs h even updated = record {
  kinds = λ k.
      kind_total-insert_postings b.accounts k entry es b.postings
      ∙ add_zeros _ _ (either (balanced_from-kind_sum b.accounts es es k even)) (h.kinds k);
  balances = λ i w c f.
      let (v, found, moved, kept, sign) =
        update_balances_lem b.accounts es (account_ids es) b.balances bs i w
          (account_ids-Ascending es) updated c f in
      let (old, nonneg) = h.balances i v c found in
      (
        booked i v w old moved kept ∙ sym (total-insert_postings i entry es b.postings),
        sign nonneg,
      );
}
  where
    booked :
        (i : ℕ) (v w : ℤ)
        → v ≡ total i b.postings
        → (i ∈ account_ids es → w ≡ v +ℤ delta i es)
        → (¬ (i ∈ account_ids es) → w ≡ v)
        → w ≡ delta i es +ℤ total i b.postings
    booked i v w old moved kept = go (mem_dec i (account_ids es))
      where
        go : (i ∈ account_ids es) ⊎ (¬ (i ∈ account_ids es)) → w ≡ delta i es +ℤ total i b.postings
        go (inl m) = moved m ∙ ap (λ x. x +ℤ delta i es) old ∙ swap_add _ _
        go (inr n) =
            kept n
            ∙ old
            ∙ add_zero (total i b.postings) (delta i es) (delta_none i es n)
            ∙ swap_add _ _

not-false : (b : Bool) → not b ≡ false → b ≡ true
not-false true h = refl
not-false false h = absurd (cc)

-- A batch of checked entries that was posted: the hook ran after the basis was inserted, and then the balances and
-- the postings of the batch were entered.
pub record Ran (hook : ℕ → Books → Result Books) (b b' : Books) : Type 0 where
  pub entries : List Entry
  pub documents : List Document
  pub hooked : Books
  pub updated : List (ℕ × ℤ)
  pub even : balanced_from b.accounts entries entries ≡ true
  pub ran : hook b.entries (record b { documents = documents; entries = suc b.entries }) ≡ ok hooked
  pub updates :
      update_balances b.accounts entries (account_ids entries) hooked.balances ≡ ok updated
  pub entered : b' ≡ record hooked {
    balances = updated;
    postings = insert_postings b.entries entries hooked.postings;
  }

module _ (d : Basis) (hook : ℕ → Books → Result Books) (es : List Entry) (b : Books) where
  -- The effects of post_entries from the last one on, from the hook on, and so on up.
  abbrev enters : Books → Result Books
  enters hooked = update_balances b.accounts es (account_ids es) hooked.balances >>= λ bs.
      ok (record hooked { balances = bs; postings = insert_postings b.entries es hooked.postings })

  abbrev hooks : List Document → Result Books
  hooks documents =
      hook b.entries (record b { documents = documents; entries = suc b.entries }) >>= enters

  abbrev inserts : Unit {0} → Result Books
  inserts u = insert_basis d b.event_types b.documents >>= hooks

  abbrev balances : Unit {0} → Result Books
  balances u = fail_if (not (balanced_from b.accounts es es)) unbalanced >>= inserts

  post_entries-Ran : (b' : Books) → post_entries d hook es b ≡ ok b' → Ran hook b b'
  unfolding post_entries
  post_entries-Ran b' e =
      let (u, known, e1) =
        >>=-ok (fail_if (not (all_known b.accounts (account_ids es))) unknown_account) balances b'
          e in
      let (w, even, e2) =
        >>=-ok (fail_if (not (balanced_from b.accounts es es)) unbalanced) inserts b' e1 in
      let (documents, inserted, e3) =
        >>=-ok (insert_basis d b.event_types b.documents) hooks b' e2 in
      let (hooked, ran, e4) =
        >>=-ok (hook b.entries (record b { documents = documents; entries = suc b.entries })) enters
          b' e3 in
      let (bs, updates, e5) =
        >>=-ok (update_balances b.accounts es (account_ids es) hooked.balances)
          (λ bs. ok (record hooked {
            balances = bs;
            postings = insert_postings b.entries es hooked.postings;
          }))
          b' e4 in
      record {
        entries = es;
        documents = documents;
        hooked = hooked;
        updated = bs;
        even = not-false _ (fail_if-ok _ _ w even);
        ran = ran;
        updates = updates;
        entered = sym (ok_inj _ b' e5);
      }

pub post-Ran :
    (basis : Option Basis) (hook : ℕ → Books → Result Books) (ps : List Posting) (b b' : Books)
    → post basis hook ps b ≡ ok b'
    → Ran hook b b'
unfolding post
post-Ran none hook ps b b' e = absurd (cc)
post-Ran (some d) hook ps b b' e =
    let (u, some_posting, e1) =
      >>=-ok (fail_if (is_empty ps) empty_batch)
        (λ u. checked ps >>= λ es. post_entries d hook es b) b' e in
    let (es, valid, e2) = >>=-ok (checked ps) (λ es. post_entries d hook es b) b' e1 in
    post_entries-Ran d hook es b b' e2

-- A batch that post accepts, with a hook that keeps the books as the one of Move does, leaves the books of accounts
-- as they must be: the postings of every kind sum to zero, and the balance of every controlled account is the sum of
-- its postings and is not negative.
pub post-IsBooked :
    (basis : Option Basis) (hook : ℕ → Books → Result Books) (ps : List Posting) (b b' : Books)
    → KeepsBooks hook
    → IsBooked b
    → post basis hook ps b ≡ ok b'
    → IsBooked b'
post-IsBooked basis hook ps b b' keeps h e =
    let p = post-Ran basis hook ps b b' e in
    let (k, same) =
      keeps b.entries _ p.hooked p.ran (record { kinds = h.kinds; balances = h.balances }) in
    rw p.entered (
      entered_IsBooked p.entries b.entries p.hooked p.updated k
        (ap (λ a. balanced_from a p.entries p.entries) same ∙ p.even)
        (ap (λ a. update_balances a p.entries (account_ids p.entries) p.hooked.balances) same
          ∙ p.updates))
