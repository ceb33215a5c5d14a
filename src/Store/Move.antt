-- ===== src/Store/Move.antt =====
-- The movement of items: internal/store/move.go, with the view item_holder and the constraints of item_movement of
-- internal/store/migrations/00007_item_machine.sql.
pub mod Order
pub mod Assign
pub mod Chain
pub mod Written
pub mod Hook
pub mod Held
use Prim.Native.String.{String}
use text.Mathlib.Text.{◌==◌ as ◌==ₛ◌}
use lab_game.Prelude.{
  ℕ, zero, suc, ltb, ◌==◌, ◌&&◌, ◌||◌, not, Bool, true, false, if◌then◌else◌, List, [], ◌∷◌, ◌++◌,
  map, has, Option, none, some,
}
use lab_game.Prelude.Int.{ℤ, pos, negsuc}
use lab_game.Store.Books.{
  Account, CapacityRole, free, used, Basis, MovementRow, Books, StoreError, no_movements, self_move,
  duplicate_item, mint_not_from_world, unknown_item, not_current_holder, no_capacity_account,
  move_conflict, check_violation, Result, ok, err, ◌>>=◌, ◌>>◌, fail_if, or_fail,
}
use lab_game.Store.Post.{Posting, Decimal, post, is_empty}

-- `new_item` in the place of an item's id asks for a fresh one.
pub record Movement : Type 0 where
  pub item : ℕ
  pub from : ℕ
  pub to : ℕ

abbrev pub new_item : ℕ
new_item = 0

abbrev pub world_holder : ℕ
world_holder = 1

-- The first loop, with the items named so far.
unfoldable pub check_shape : List ℕ → List Movement → Result (Unit {0})
check_shape seen [] = ok tt
check_shape seen (m ∷ ms) =
    fail_if (m.from == m.to) self_move
    >> (if m.item == new_item
        then fail_if (not (m.from == world_holder)) mint_not_from_world >> check_shape seen ms
        else fail_if (has seen m.item) duplicate_item >> check_shape (m.item ∷ seen) ms)

-- A movement of the same item that names a row as its predecessor.
unfoldable pub has_successor : MovementRow → List MovementRow → Bool
has_successor r [] = false
has_successor r (s ∷ ss) =
    (s.item == r.item && elim s.prev [ none ↦ false | some p ↦ p == r.id ]) || has_successor r ss

-- The rows of an item that have no successor among all the rows.
unfoldable pub heads_among : List MovementRow → ℕ → List MovementRow → List MovementRow
heads_among all i [] = []
heads_among all i (r ∷ rs) =
    let rest = heads_among all i rs in
    if r.item == i && not (has_successor r all) then r ∷ rest else rest

-- The rows of the view item_holder for an item, the newest first.
abbrev pub item_holder : ℕ → List MovementRow → List MovementRow
item_holder i rows = heads_among rows i rows

abbrev pub last_read : List MovementRow → Option MovementRow
last_read [] = none
last_read (r ∷ rs) = some r

-- What the maps of Move hold for an item: of several rows the last that was read, here in the order of their
-- insertion. The query asks for no order.
abbrev pub head : ℕ → List MovementRow → Option MovementRow
head i rows = last_read (item_holder i rows)

unfoldable pub check_known : List MovementRow → List Movement → Result (Unit {0})
check_known rows [] = ok tt
check_known rows (m ∷ ms) =
    if m.item == new_item
    then check_known rows ms
    else or_fail (head m.item rows) unknown_item >>= λ r. check_known rows ms

unfoldable pub check_holders : List MovementRow → List Movement → Result (Unit {0})
check_holders rows [] = ok tt
check_holders rows (m ∷ ms) =
    if m.item == new_item
    then check_holders rows ms
    else or_fail (head m.item rows) unknown_item >>= λ r.
        fail_if (not (r.to == m.from)) not_current_holder >> check_holders rows ms

abbrev is_role : CapacityRole → Option CapacityRole → Bool
is_role free (some free) = true
is_role free (some used) = false
is_role used (some used) = true
is_role used (some free) = false
is_role free none = false
is_role used none = false

-- The slots account of a holder in a role.
unfoldable pub capacity : CapacityRole → ℕ → List Account → Option ℕ
capacity role holder [] = none
capacity role holder (a ∷ accts) =
    if a.scope == holder && (a.kind ==ₛ "slots" && is_role role a.capacity_role)
    then some a.id
    else capacity role holder accts

abbrev unit_amount : ℤ → ℕ → Posting
unit_amount c account = record { account = account; amount = record { coefficient = c; scale = 0 } }

-- The postings of a movement, on the accounts of both holders.
unfoldable pub legs : List Account → Movement → Result (List Posting)
legs accts m = do
  from_free ← or_fail (capacity free m.from accts) no_capacity_account
  from_used ← or_fail (capacity used m.from accts) no_capacity_account
  to_free ← or_fail (capacity free m.to accts) no_capacity_account
  to_used ← or_fail (capacity used m.to accts) no_capacity_account
  ok (
      unit_amount (pos 1) from_free
      ∷ unit_amount (negsuc 0) from_used
      ∷ unit_amount (negsuc 0) to_free
      ∷ unit_amount (pos 1) to_used
      ∷ [])

unfoldable pub all_legs : List Account → List Movement → Result (List Posting)
all_legs accts [] = ok []
all_legs accts (m ∷ ms) = do ls ← legs accts m; rest ← all_legs accts ms; ok (ls ++ rest)

-- Each movement with its item, minted in the order of the movements: the sequence has given `items` ids before.
unfoldable pub assign : ℕ → List Movement → List (ℕ × Movement)
assign items [] = []
assign items (m ∷ ms) =
    if m.item == new_item
    then (suc items, m) ∷ assign (suc items) ms
    else (m.item, m) ∷ assign items ms

unfoldable pub minted : ℕ → List Movement → ℕ
minted items [] = items
minted items (m ∷ ms) = minted (if m.item == new_item then suc items else items) ms

-- By ascending item.
unfoldable pub insert_by_item : ℕ × Movement → List (ℕ × Movement) → List (ℕ × Movement)
insert_by_item x [] = x ∷ []
insert_by_item x (y ∷ ys) =
    let rest = insert_by_item x ys in if ltb y.0 x.0 then y ∷ rest else x ∷ y ∷ ys

unfoldable pub sort_by_item : List (ℕ × Movement) → List (ℕ × Movement)
sort_by_item [] = []
sort_by_item (x ∷ xs) = insert_by_item x (sort_by_item xs)

-- prev_movement_id IS NOT DISTINCT FROM $2
abbrev same_prev : Option ℕ → Option ℕ → Bool
same_prev none none = true
same_prev (some p) (some q) = p == q
same_prev none (some q) = false
same_prev (some p) none = false

-- item_movement_successor_key
unfoldable pub is_taken : ℕ → Option ℕ → ℕ → List MovementRow → Bool
is_taken item prev from [] = false
is_taken item prev from (r ∷ rs) =
    (r.item == item && (same_prev r.prev prev && r.from == from)) || is_taken item prev from rs

-- item_movement_chain_fk
unfoldable pub is_linked : ℕ → Option ℕ → ℕ → List MovementRow → Bool
is_linked item none from rows = true
is_linked item (some p) from [] = false
is_linked item (some p) from (r ∷ rs) =
    (r.id == p && (r.item == item && r.to == from)) || is_linked item (some p) from rs

-- item_movement_genesis_from_world and item_movement_holders_differ, violated. Move names neither.
abbrev pub breaks_check : Option ℕ → Movement → Bool
breaks_check prev m =
    elim prev [ none ↦ not (m.from == world_holder) | some p ↦ false ] || m.from == m.to

-- The INSERT, less the foreign keys to item, scope and journal_entry.
unfoldable pub insert_movement : ℕ → Option ℕ → ℕ × Movement → Books → Result Books
insert_movement entry prev (item, m) b =
    fail_if (breaks_check prev m) check_violation
    >> fail_if
        (not (is_linked item prev m.from b.movements) || is_taken item prev m.from b.movements)
        move_conflict
    >> ok (record b {
      moves = suc b.moves;
      movements =
          record {
            id = suc b.moves;
            item = item;
            prev = prev;
            from = m.from;
            to = m.to;
            entry = entry;
          }
          ∷ b.movements;
    })

-- The predecessor is the head that was read at the start, and a minted item has none.
abbrev pub predecessor : List MovementRow → ℕ × Movement → Option ℕ
predecessor start (item, m) =
    if m.item == new_item then none else elim (head item start) [ none ↦ none | some r ↦ some r.id ]

unfoldable pub insert_movements : ℕ → List MovementRow → List (ℕ × Movement) → Books → Result Books
insert_movements entry start [] b = ok b
insert_movements entry start (x ∷ xs) b =
    insert_movement entry (predecessor start x) x b >>= insert_movements entry start xs

-- The hook of the posting: the minting, and the movements by ascending item.
unfoldable pub move_hook : List Movement → ℕ → Books → Result Books
move_hook ms entry b =
    insert_movements entry b.movements (sort_by_item (assign b.items ms))
      (record b { items = minted b.items ms })

-- The ids of the moved items, with the books after the move.
unfoldable pub move : Option Basis → List Movement → List Posting → Books → Result (List ℕ × Books)
move basis ms ps b = do
  fail_if (is_empty ms) no_movements
  check_shape [] ms
  check_known b.movements ms
  check_holders b.movements ms
  ls ← all_legs b.accounts ms
  b' ← post basis (move_hook ms) (ps ++ ls) b
  ok (map (λ x. x.0) (assign b.items ms), b')
