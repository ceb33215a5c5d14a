-- ===== src/Store/Post.antt =====
-- A batch of postings: internal/store/post.go.
pub mod Sums
pub mod Balances
pub mod Balanced
use Prim.Native.String.{String}
use text.Mathlib.Text.{◌==◌ as ◌==ₛ◌}
use lab_game.Prelude.{
  ℕ, suc, ◌+◌, ◌*◌, ◌/◌, ◌%◌, ◌^◌, ◌==◌, ltb, ◌&&◌, ◌||◌, not, Bool, true, false, if◌then◌else◌,
  List, [], ◌∷◌, map, Option, none, some,
}
use lab_game.Prelude.Int.{ℤ, pos, negsuc, neg_of, pos_part, neg_part, ◌+ℤ◌, ltb_ℤ, eqb_ℤ}
use lab_game.Store.Documents.{insert_basis}
use lab_game.Store.Books.{
  Account, Basis, player_operation, manual_correction, deferred_task, recurrent_task, event,
  PostingRow, Books, StoreError, no_basis, empty_batch, invalid_amount, unknown_account, unbalanced,
  already_posted, overdraft, balance_row_missing, unknown_event_type, Result, ok, err, ◌>>=◌, ◌>>◌,
  fail_if, or_fail,
}

-- decimal.Decimal: coefficient * 10^-scale.
pub record Decimal : Type 0 where
  pub coefficient : ℤ
  pub scale : ℕ

abbrev pub magnitude : ℤ → ℕ
magnitude a = pos_part a + neg_part a

-- Not zero, no more than five fractional digits, and below 10^25.
unfoldable pub valid_amount : Decimal → Bool
valid_amount d =
    not (magnitude d.coefficient == 0)
    && (magnitude d.coefficient * 10 ^ 5) % 10 ^ d.scale == 0
    && ltb (magnitude d.coefficient) (10 ^ 25 * 10 ^ d.scale)

-- A valid amount as a whole number of 10^-5. Sums of such amounts are exact.
unfoldable pub units : Decimal → ℤ
units d = elim d.coefficient [
  | pos n ↦ pos (n * 10 ^ 5 / 10 ^ d.scale)
  | negsuc n ↦ neg_of (suc n * 10 ^ 5 / 10 ^ d.scale)
]

pub record Posting : Type 0 where
  pub account : ℕ
  pub amount : Decimal

-- A posting whose amount was checked.
abbrev pub Entry : Type 0
Entry = ℕ × ℤ

unfoldable pub checked : List Posting → Result (List Entry)
checked [] = ok []
checked (p ∷ ps) = do
  fail_if (not (valid_amount p.amount)) invalid_amount
  rest ← checked ps
  ok ((p.account, units p.amount) ∷ rest)

-- Sorted, and each id once.
unfoldable pub insert_id : ℕ → List ℕ → List ℕ
insert_id i [] = i ∷ []
insert_id i (j ∷ js) =
    let rest = insert_id i js in if ltb i j then i ∷ j ∷ js else if i == j then j ∷ js else j ∷ rest

unfoldable pub account_ids : List Entry → List ℕ
account_ids [] = []
account_ids ((i, x) ∷ es) = insert_id i (account_ids es)

unfoldable pub find_account : ℕ → List Account → Option Account
find_account i [] = none
find_account i (a ∷ accts) = if a.id == i then some a else find_account i accts

abbrev pub kind_of : List Account → ℕ → String
kind_of accts i = elim (find_account i accts) [ none ↦ "" | some a ↦ a.kind ]

abbrev pub controlled : List Account → ℕ → Bool
controlled accts i = elim (find_account i accts) [ none ↦ false | some a ↦ a.controlled ]

abbrev pub is_known : List Account → ℕ → Bool
is_known accts i = elim (find_account i accts) [ none ↦ false | some a ↦ true ]

unfoldable pub all_known : List Account → List ℕ → Bool
all_known accts [] = true
all_known accts (i ∷ is) = is_known accts i && all_known accts is

-- deltaByID
unfoldable pub delta : ℕ → List Entry → ℤ
delta i [] = pos 0
delta i ((j, x) ∷ es) = if i == j then x +ℤ delta i es else delta i es

-- sumByKind
unfoldable pub kind_sum : List Account → String → List Entry → ℤ
kind_sum accts k [] = pos 0
kind_sum accts k ((j, x) ∷ es) =
    if kind_of accts j ==ₛ k then x +ℤ kind_sum accts k es else kind_sum accts k es

-- Each kind that the batch names sums to zero.
unfoldable pub balanced_from : List Account → List Entry → List Entry → Bool
balanced_from accts all [] = true
balanced_from accts all ((j, x) ∷ es) =
    eqb_ℤ (kind_sum accts (kind_of accts j) all) (pos 0) && balanced_from accts all es

unfoldable pub find_balance : ℕ → List (ℕ × ℤ) → Option ℤ
find_balance i [] = none
find_balance i ((j, v) ∷ bs) = if i == j then some v else find_balance i bs

unfoldable pub put_balance : ℕ → ℤ → List (ℕ × ℤ) → List (ℕ × ℤ)
put_balance i w [] = []
put_balance i w ((j, v) ∷ bs) = if i == j then (j, w) ∷ bs else (j, v) ∷ put_balance i w bs

-- UPDATE account_balance SET balance = balance + $2, with the CHECK on the column.
unfoldable pub update_balance : ℕ → ℤ → List (ℕ × ℤ) → Result (List (ℕ × ℤ))
update_balance i d bs = do
  v ← or_fail (find_balance i bs) balance_row_missing
  fail_if (ltb_ℤ (v +ℤ d) (pos 0)) overdraft
  ok (put_balance i (v +ℤ d) bs)

unfoldable pub update_balances :
    List Account → List Entry → List ℕ → List (ℕ × ℤ) → Result (List (ℕ × ℤ))
update_balances accts es [] bs = ok bs
update_balances accts es (i ∷ is) bs =
    if controlled accts i && not (eqb_ℤ (delta i es) (pos 0))
    then update_balance i (delta i es) bs >>= update_balances accts es is
    else update_balances accts es is bs

unfoldable pub insert_postings : ℕ → List Entry → List PostingRow → List PostingRow
insert_postings entry [] rows = rows
insert_postings entry ((j, x) ∷ es) rows =
    insert_postings entry es (record { entry = entry; account = j; amount = x } ∷ rows)

abbrev pub is_empty : {A : Type 0} → List A → Bool
is_empty [] = true
is_empty (x ∷ xs) = false

-- The effects of a batch whose amounts were checked, from the selection of the accounts on. The hook is called with
-- the id of the journal entry, before any balance is changed.
unfoldable pub post_entries : Basis → (ℕ → Books → Result Books) → List Entry → Books → Result Books
post_entries basis hook es b = do
  fail_if (not (all_known b.accounts (account_ids es))) unknown_account
  fail_if (not (balanced_from b.accounts es es)) unbalanced
  documents ← insert_basis basis b.event_types b.documents
  hooked ← hook b.entries (record b { documents = documents; entries = suc b.entries })
  balances ← update_balances b.accounts es (account_ids es) hooked.balances
  ok (record hooked {
    balances = balances;
    postings = insert_postings b.entries es hooked.postings;
  })

-- A nil basis is `none`. A result is a transaction that the caller may commit: after an error it rolls back.
unfoldable pub post :
    Option Basis → (ℕ → Books → Result Books) → List Posting → Books → Result Books
post basis hook ps b = do
  document ← or_fail basis no_basis
  fail_if (is_empty ps) empty_batch
  es ← checked ps
  post_entries document hook es b

abbrev no_hook : ℕ → Books → Result Books
no_hook entry b = ok b

-- Post
unfoldable pub post_batch : Option Basis → List Posting → Books → Result Books
post_batch basis ps b = post basis no_hook ps b
