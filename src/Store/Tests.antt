-- ===== src/Store/Tests.antt =====
-- The theorems of the ledger at concrete inputs.
use lab_game.Prelude.{ℕ, ◌≡◌, refl, true, false, List, [], ◌∷◌, Option, none, some, arith}
use lab_game.Prelude.Int.{ℤ, pos, negsuc, ◌+ℤ◌}
use lab_game.Prelude.Members.{◌∈◌}
use lab_game.Store.Books.{
  Account, free, used, Basis, player_operation, operation_row, Books, ok, ok_inj,
}
use mathlib.Core.Path.{subst}
use lab_game.Store.Documents.{is_posted, insert_basis, insert_operation}
use lab_game.Store.Post.{
  Posting, Decimal, valid_amount, units, checked, insert_id, account_ids, find_account, all_known,
  delta, kind_sum, balanced_from, find_balance, put_balance, update_balance, update_balances,
  insert_postings, post_entries, post,
}
use lab_game.Store.Post.Sums.{total, kind_total}
use lab_game.Store.Post.Balanced.{IsBooked, KeepsBooks, post-IsBooked}
use lab_game.Store.Move.{
  Movement, check_shape, check_known, check_holders, heads_among, has_successor, item_holder,
  capacity, legs, all_legs, assign, minted, insert_by_item, sort_by_item, is_taken, is_linked,
  insert_movement, insert_movements, move_hook, move,
}
use lab_game.Store.Move.Order.{items_of}
use lab_game.Store.Move.Written.{IsChained, IsHeld}
use lab_game.Store.Move.Held.{move-IsHeld}

-- The money of the world and of a player, and the slots of the world and of a holder.
abbrev accounts : List Account
accounts =
    record { id = 1; scope = 1; kind = "money"; controlled = false; capacity_role = none }
    ∷ record { id = 3; scope = 2; kind = "money"; controlled = true; capacity_role = none }
    ∷ record { id = 5; scope = 1; kind = "slots"; controlled = false; capacity_role = some free }
    ∷ record { id = 6; scope = 1; kind = "slots"; controlled = false; capacity_role = some used }
    ∷ record { id = 7; scope = 2; kind = "slots"; controlled = false; capacity_role = some free }
    ∷ record { id = 8; scope = 2; kind = "slots"; controlled = false; capacity_role = some used }
    ∷ []

abbrev books : Books
books = record {
  accounts = accounts;
  balances = (3, pos 0) ∷ [];
  event_types = [];
  documents = [];
  entries = 0;
  postings = [];
  items = 4;
  moves = 0;
  movements = [];
}

books-IsBooked : IsBooked books
unfolding kind_total total find_account find_balance
books-IsBooked = record { kinds = λ k. refl; balances = λ i v c f. ground arith }

books-IsChained : IsChained books
unfolding heads_among
books-IsChained = record {
  rows = λ r m. absurd m;
  items = λ r m. absurd m;
  earlier = λ r m. absurd m;
  single = λ i. tt;
}

abbrev amount : ℤ → Decimal
amount c = record { coefficient = c; scale = 0 }

abbrev payment : List Posting
payment =
    record { account = 1; amount = amount (negsuc 4) }
    ∷ record { account = 3; amount = amount (pos 5) }
    ∷ []

abbrev basis : Option Basis
basis = some (player_operation "telegram" "update_id:1")

no_hook-KeepsBooks : KeepsBooks (λ entry b. ok b)
no_hook-KeepsBooks entry x y e h =
    subst (λ z. IsBooked z × (z.accounts ≡ x.accounts)) (ok_inj x y e) (h, refl)

abbrev paid : Books
paid = record books {
  balances = (3, pos 500000) ∷ [];
  documents = operation_row "telegram" "update_id:1" ∷ [];
  entries = 1;
  postings =
      record { entry = 0; account = 3; amount = pos 500000 }
      ∷ record { entry = 0; account = 1; amount = negsuc 499999 }
      ∷ [];
}

pays : post basis (λ entry b. ok b) payment books ≡ ok paid
unfolding post post_entries checked valid_amount units account_ids insert_id all_known find_account
    balanced_from kind_sum insert_basis insert_operation is_posted update_balances update_balance
    delta find_balance put_balance insert_postings ◌+ℤ◌
pays = refl

post-IsBooked_example : IsBooked paid
post-IsBooked_example =
    post-IsBooked basis (λ entry b. ok b) payment books paid no_hook-KeepsBooks books-IsBooked pays

-- A fresh item goes from the world to the holder 2.
abbrev minting : List Movement
minting = record { item = 0; from = 1; to = 2 } ∷ []

abbrev granted : Books
granted = record books {
  documents = operation_row "telegram" "update_id:1" ∷ [];
  entries = 1;
  items = 5;
  moves = 1;
  movements = record { id = 1; item = 5; prev = none; from = 1; to = 2; entry = 0 } ∷ [];
  postings =
      record { entry = 0; account = 8; amount = pos 100000 }
      ∷ record { entry = 0; account = 7; amount = negsuc 99999 }
      ∷ record { entry = 0; account = 6; amount = negsuc 99999 }
      ∷ record { entry = 0; account = 5; amount = pos 100000 }
      ∷ [];
}

mints : move basis minting [] books ≡ ok (5 ∷ [], granted)
unfolding move check_shape check_known check_holders all_legs legs capacity move_hook
    insert_movements insert_movement sort_by_item insert_by_item assign minted is_linked is_taken
    heads_among post post_entries checked valid_amount units account_ids insert_id all_known
    find_account balanced_from kind_sum insert_basis insert_operation is_posted update_balances
    update_balance delta find_balance put_balance insert_postings ◌+ℤ◌
mints = refl

granted-InOrder : IsBooked granted × IsChained granted
granted-InOrder =
    let r =
      move-IsHeld basis minting [] books (5 ∷ []) granted books-IsBooked books-IsChained mints in
    (r.0, r.1)

-- The item goes back to the world, and the holder gets another.
abbrev exchange : List Movement
exchange = record { item = 5; from = 2; to = 1 } ∷ record { item = 0; from = 1; to = 2 } ∷ []

abbrev next_basis : Option Basis
next_basis = some (player_operation "telegram" "update_id:2")

abbrev exchanged : Books
exchanged = record granted {
  documents = operation_row "telegram" "update_id:2" ∷ granted.documents;
  entries = 2;
  items = 6;
  moves = 3;
  movements =
      record { id = 3; item = 6; prev = none; from = 1; to = 2; entry = 1 }
      ∷ record { id = 2; item = 5; prev = some 1; from = 2; to = 1; entry = 1 }
      ∷ granted.movements;
  postings =
      record { entry = 1; account = 8; amount = pos 100000 }
      ∷ record { entry = 1; account = 7; amount = negsuc 99999 }
      ∷ record { entry = 1; account = 6; amount = negsuc 99999 }
      ∷ record { entry = 1; account = 5; amount = pos 100000 }
      ∷ record { entry = 1; account = 6; amount = pos 100000 }
      ∷ record { entry = 1; account = 5; amount = negsuc 99999 }
      ∷ record { entry = 1; account = 8; amount = negsuc 99999 }
      ∷ record { entry = 1; account = 7; amount = pos 100000 }
      ∷ granted.postings;
}

exchanges : move next_basis exchange [] granted ≡ ok (5 ∷ 6 ∷ [], exchanged)
unfolding move check_shape check_known check_holders all_legs legs capacity move_hook
    insert_movements insert_movement sort_by_item insert_by_item assign minted is_linked is_taken
    heads_among has_successor post post_entries checked valid_amount units account_ids insert_id
    all_known find_account balanced_from kind_sum insert_basis insert_operation is_posted
    update_balances update_balance delta find_balance put_balance insert_postings ◌+ℤ◌
exchanges = refl

move-IsHeld_example :
    IsBooked exchanged
    × IsChained exchanged
    × (5 ∷ 6 ∷ [] ≡ items_of (assign 5 exchange))
    × ((x : ℕ × Movement) → x ∈ assign 5 exchange → IsHeld exchanged.movements x.0 x.1.to)
    × ((j : ℕ)
        → ¬ (j ∈ 5 ∷ 6 ∷ [])
        → item_holder j exchanged.movements ≡ item_holder j granted.movements)
move-IsHeld_example =
    move-IsHeld next_basis exchange [] granted (5 ∷ 6 ∷ []) exchanged granted-InOrder.0
      granted-InOrder.1 exchanges
