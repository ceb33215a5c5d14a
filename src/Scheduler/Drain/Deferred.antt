-- ===== src/Scheduler/Drain/Deferred.antt =====
-- What a drain does to the row of a deferred settlement: drainOne of internal/scheduler/settle.go.
use Prim.Native.String.{String}
use lab_game.Prelude.{
  ℕ, ◌<◌, ◌≡◌, ◌≢◌, refl, sym, ap, ◌∙◌, ◌==◌, ◌&&◌, not, Bool, true, false, if◌then◌else◌, List, [],
  ◌∷◌, count, Option, none, some, inl, inr, arith,
}
use lab_game.Prelude.Int.{ℤ, eqb_ℤ}
use lab_game.Prelude.Members.{◌∈◌}
use lab_game.Scheduler.Task.{
  Row, pending, failed, Config, Recurrence, PendingSettlement, Result, ok,
}
use lab_game.Scheduler.Session.{Server, Session, call}
use lab_game.Scheduler.Settle.Meaning.{replace, settled, failed_row}
use lab_game.Scheduler.Claim.{task_of, is_pending, find_row}
use lab_game.Scheduler.Execute.{deferred}
use lab_game.Scheduler.Drain.{matches, update_where, drain_one}
use lab_game.Scheduler.Drain.Drains.{
  candidate, Drains, applied, moved_on, locked, failing, drain_one-Drains,
}

-- The rows that a condition picks are those with an id.
update_where-replace :
    (q : Row → Bool) (f : Row → Row) (id : ℕ) (rows : List Row)
    → ((x : Row) → x ∈ rows → q x ≡ (x.id == id))
    → update_where q f rows ≡ replace id (λ x. some (f x)) rows
unfolding replace
update_where-replace q f id [] h = refl
update_where-replace q f id (x ∷ xs) h =
    let ih = update_where-replace q f id xs (λ y m. h y (inr m)) in
    rw (h x (inl refl)) (ground arith)

count_pos : (q : Row → Bool) (rows : List Row) (r : Row) → r ∈ rows → q r ≡ true → 0 < count q rows
count_pos q [] r m h = absurd m
count_pos q (x ∷ xs) r (inl e) h = rw (ap q (sym e) ∙ h) (omega arith)
count_pos q (x ∷ xs) r (inr m) h = omega (arith, count_pos q xs r m h)

find_row-none :
    (q : Row → Bool) (rows : List Row) → find_row q rows ≡ none → (r : Row) → r ∈ rows → q r ≢ true
unfolding find_row
find_row-none q [] e r m h = absurd m
find_row-none q (x ∷ xs) e r (inl n) h = go (q x) (ap q (sym n) ∙ h) e
  where
    go : (b : Bool) → b ≡ true → (if b then some x else find_row q xs) ≢ none
    go true b e = cc
    go false b e = cc
find_row-none q (x ∷ xs) e r (inr m) h = go (q x) e (λ d. find_row-none q xs d r m h)
  where
    go : (b : Bool) → (if b then some x else find_row q xs) ≡ none → (find_row q xs ≡ none → ⊥) → ⊥
    go true e ih = cc
    go false e ih = ih e

self : (n : ℕ) → (n == n) ≡ true
self n = ground arith

left_true : (a b : Bool) → (a && b) ≡ true → a ≡ true
left_true true b h = refl
left_true false b h = cc

picks :
    {D : Type 0} (v : Server) (s : Session D) (r x : Row) (rec : Option Recurrence)
    (reason : String)
    → r.state ≡ pending
    → v.locked s.calls r.id ≡ false
    → (x.id ≡ r.id → x ≡ r)
    → candidate v (deferred (task_of r) rec reason) s x ≡ (x.id == r.id)
picks v s r x rec reason st free same = go (x.id == r.id) refl
  where
    rest : Row → Bool
    rest y = (is_pending y.state && eqb_ℤ y.run_at r.run_at) && not (v.locked s.calls y.id)

    here : rest r ≡ true
    here = rw (st, free) (ground arith)

    go :
        (b : Bool)
        → (x.id == r.id) ≡ b
        → ((b && (is_pending x.state && eqb_ℤ x.run_at r.run_at)) && not (v.locked s.calls x.id))
          ≡ b
    go false e = refl
    go true e = ap rest (same (ground arith)) ∙ here

call_works :
    {D : Type 0} (v : Server) (s : Session D)
    → v.fault s.calls ≡ none
    → s.aborted ≡ false
    → (call v s).0 ≡ none
unfolding call
call_works v s works active = rw (active, works) refl

-- A deferred settlement that reaches its row while nobody else has changed or locked it makes of the table what a
-- failed settlement in the attempt would have made of it at the same instant, where no other row has its id.
pub drain_one-settled :
    {D : Type 0} (v : Server) (c : Config) (at : ℤ) (s : Session D) (r : Row)
    (rec : Option Recurrence) (reason : String)
    → r ∈ s.database.rows
    → ((x : Row) → x ∈ s.database.rows → x.id ≡ r.id → x ≡ r)
    → r.state ≡ pending
    → v.locked s.calls r.id ≡ false
    → v.fault s.calls ≡ none
    → s.aborted ≡ false
    → ((drain_one v c (deferred (task_of r) rec reason) at s).0 ≡ ok true)
      × ((drain_one v c (deferred (task_of r) rec reason) at s).1.database.rows
          ≡ replace r.id (settled c (task_of r) rec failed reason at) s.database.rows)
drain_one-settled {D} v c at s r rec reason m alone st free works active =
    go (drain_one v c p at s) (drain_one-Drains v c p at s)
  where
    p : PendingSettlement
    p = deferred (task_of r) rec reason

    same : (x : Row) → x ∈ s.database.rows → candidate v p s x ≡ (x.id == r.id)
    same x n = picks v s r x rec reason st free (alone x n)

    here : candidate v p s r ≡ true
    here = same r m ∙ self r.id

    some_row : 0 < count (candidate v p s) s.database.rows
    some_row = count_pos (candidate v p s) s.database.rows r m here

    go :
        (q : Result Bool × Session D)
        → Drains v c p at s q
        → (q.0 ≡ ok true)
          × (q.1.database.rows
              ≡ replace r.id (settled c (task_of r) rec failed reason at) s.database.rows)
    go _ (applied t n rows others) = (
      refl,
      rows
          ∙ update_where-replace (candidate v p s)
              (failed_row c rec r.consecutive_failures r.run_at reason at) r.id s.database.rows
              same,
    )
    go _ (moved_on t none_such d) =
        absurd
          (find_row-none (matches p) s.database.rows none_such r m (left_true (matches p r) _ here))
    go _ (locked t x found n d) = absurd (omega (arith, some_row, n))
    go _ (failing e t d n) = absurd (omega (arith, some_row, n (call_works v s works active)))
