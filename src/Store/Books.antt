-- ===== src/Store/Books.antt =====
-- The tables and errors of the ledger: internal/store/post.go, basis.go, enums.go and errors.go, with the tables of
-- internal/store/migrations/00001_ledger_core.sql and 00007_item_machine.sql.
use Prim.Native.String.{String}
use lab_game.Prelude.{ℕ, ◌≡◌, refl, Bool, true, false, List, Option, none, some}
use lab_game.Prelude.Int.{ℤ}

pub data CapacityRole : Type 0 where
  free used : CapacityRole

-- A row of account, with its definition and scope.
pub record Account : Type 0 where
  pub id : ℕ
  pub scope : ℕ
  pub kind : String
  pub controlled : Bool
  pub capacity_role : Option CapacityRole

-- An event, with the dimensions that may be absent. A nil payload is `none`.
pub record Event : Type 0 where
  pub event_type : String
  pub player_id : Option ℕ
  pub chat_id : Option ℕ
  pub maze_id : Option ℤ
  pub depth : Option ℤ
  pub payload : Option String

-- The document that a batch is posted under: a task has its id, type, instance key and instant.
pub data Basis : Type 0 where
  player_operation manual_correction : String → String → Basis
  deferred_task recurrent_task : ℕ → String → String → ℤ → Basis
  event : Event → Basis

-- A row of one of the five tables of documents.
pub data Document : Type 0 where
  operation_row correction_row : String → String → Document
  deferred_row recurrent_row : Option ℕ → String → Option String → ℤ → Document
  event_row : Event → Document

-- An amount is a whole number of 10^-5, as the column numeric(30,5) holds it.
pub record PostingRow : Type 0 where
  pub entry : ℕ
  pub account : ℕ
  pub amount : ℤ

pub record MovementRow : Type 0 where
  pub id : ℕ
  pub item : ℕ
  pub prev : Option ℕ
  pub from : ℕ
  pub to : ℕ
  pub entry : ℕ

-- The newest row of a table stands first. `entries`, `items` and `moves` are the numbers of rows that the sequences
-- gave ids to.
pub record Books : Type 0 where
  pub accounts : List Account
  pub balances : List (ℕ × ℤ)
  pub event_types : List String
  pub documents : List Document
  pub entries : ℕ
  pub postings : List PostingRow
  pub items : ℕ
  pub moves : ℕ
  pub movements : List MovementRow

pub data StoreError : Type 0 where
  no_basis empty_batch invalid_amount unknown_account unbalanced already_posted overdraft
        balance_row_missing :
      StoreError
  unknown_event_type invalid_owner : StoreError
  no_movements self_move duplicate_item mint_not_from_world unknown_item not_current_holder :
      StoreError
  no_capacity_account move_conflict check_violation : StoreError

pub data Result (A : Type 0) : Type 0 where
  ok : A → Result A
  err : StoreError → Result A

infixl 5 ◌>>=◌ ◌>>◌
abbrev pub ◌>>=◌ : {A B : Type 0} → Result A → (A → Result B) → Result B
ok a >>= f = f a
err e >>= f = err e

abbrev pub ◌>>◌ : {B : Type 0} → Result (Unit {0}) → Result B → Result B
m >> k = m >>= λ _. k

-- An error where a test holds.
abbrev pub fail_if : Bool → StoreError → Result (Unit {0})
fail_if true e = err e
fail_if false e = ok tt

abbrev pub or_fail : {A : Type 0} → Option A → StoreError → Result A
or_fail none e = err e
or_fail (some a) e = ok a

pub >>=-ok :
    {A B : Type 0} (m : Result A) (f : A → Result B) (b : B)
    → (m >>= f) ≡ ok b
    → (a : A) × (m ≡ ok a) × (f a ≡ ok b)
>>=-ok (ok a) f b h = (a, refl, h)
>>=-ok (err e) f b h = absurd (cc)

pub fail_if-ok : (b : Bool) (e : StoreError) (u : Unit {0}) → fail_if b e ≡ ok u → b ≡ false
fail_if-ok true e u h = absurd (cc)
fail_if-ok false e u h = refl

pub ok_inj : {A : Type 0} (a b : A) → ok a ≡ ok b → a ≡ b
ok_inj a b h = cc
