-- ===== src/Scheduler/Execute/Claimed.antt =====
-- What executeOne claims before the handler runs: internal/scheduler/execute.go and claim.go.
use Prim.Native.String.{String}
use mathlib.Core.Path.{subst}
use lab_game.Prelude.{
  ℕ, ◌≡◌, refl, sym, ap, ◌∙◌, ◌==◌, ◌≤◌, ◌&&◌, not, Bool, true, false, if◌then◌else◌, List, [], ◌∷◌,
  Option, none, some, inl, inr, arith, some_inj, leb,
}
use lab_game.Prelude.Int.{ℤ, ◌≤ℤ◌}
use lab_game.Prelude.Members.{◌∈◌}
use lab_game.Scheduler.Task.{
  Task, Row, State, pending, dead, Error, failed_call, failed_task, Result, ok, err,
}
use lab_game.Scheduler.Session.{
  Server, Session, Tx, pure, ◌>>=◌, call, change, exec, wrap, wrapped, read_settlement_instant,
}
use lab_game.Scheduler.Settle.Meaning.{Called, answered, lost, call-Called}
use lab_game.Scheduler.Claim.{task_of, is_pending, is_due, find_row, reclaim}
use lab_game.Scheduler.Execute.{open_task, read_execution_instant}

-- The row is in the table, pending, and due.
abbrev pub Claimed : List Row → ℤ → ℕ → Row → Type 0
Claimed rows now id r = (r ∈ rows) × (r.id ≡ id) × (r.state ≡ pending) × (r.run_at ≤ℤ now)

-- A step that changes nothing ends with a value of some kind, or fails.
pub data Reads {D A : Type 0} (P : A → Type 0) (s : Session D) : Result A × Session D → Type 0 where
  read :
      (a : A) (t : Session D) → P a → t.database ≡ s.database → t.now ≡ s.now → Reads P s (ok a, t)
  unread : (e : Error) (t : Session D) → Reads P s (err e, t)

module _ {D A : Type 0} where
  then-Reads :
      {B : Type 0} {P : A → Type 0} {Q : B → Type 0} (s : Session D) (k : A → Tx D B)
      (r : Result A × Session D)
      → Reads P s r
      → ((a : A) (t : Session D)
          → P a
          → t.database ≡ s.database
          → t.now ≡ s.now
          → Reads Q s (k a t))
      → Reads Q s (elim r.0 [ ok a ↦ k a r.1 | err e ↦ (err e, r.1) ])
  then-Reads s k _ (read a t p d n) h = h a t p d n
  then-Reads s k _ (unread e t) h = unread e t

  wrap-Reads :
      {P : A → Type 0} (words : String) (id : ℕ) (s : Session D) (r : Result A × Session D)
      → Reads P s r
      → Reads P s (wrap words id r.0, r.1)
  wrap-Reads words id s _ (read a t p d n) = read a t p d n
  wrap-Reads words id s _ (unread e t) = unread _ t

find_row_lem :
    (p : Row → Bool) (rows : List Row) (r : Row)
    → find_row p rows ≡ some r
    → (r ∈ rows) × (p r ≡ true)
unfolding find_row
find_row_lem p [] r e = absurd (cc)
find_row_lem p (x ∷ xs) r e = go (p x) refl e (λ h. find_row_lem p xs r h)
  where
    go :
        (b : Bool)
        → p x ≡ b
        → (if b then some x else find_row p xs) ≡ some r
        → (find_row p xs ≡ some r → (r ∈ xs) × (p r ≡ true))
        → (r ∈ x ∷ xs) × (p r ≡ true)
    go true h q ih = let same = some_inj x r q in (inl (sym same), ap p (sym same) ∙ h)
    go false h q ih = (inr (ih q).0, (ih q).1)

pub is_pending_iff : (s : State) → is_pending s ≡ true → s ≡ pending
is_pending_iff pending e = refl
is_pending_iff dead e = absurd (cc)

claims :
    (rows : List Row) (now : ℤ) (id : ℕ) (locked : Bool) (r : Row)
    → find_row (λ x. x.id == id && is_due now x && not locked) rows ≡ some r
    → Claimed rows now id r
claims rows now id locked r e =
    let (m, q) = find_row_lem (λ x. x.id == id && is_due now x && not locked) rows r e in
    let (same, state, due) = parts r.id id (is_pending r.state) locked _ _ q in
    (m, same, is_pending_iff r.state state, due)
  where
    parts :
        (i j : ℕ) (b l : Bool) (x y : ℕ)
        → (i == j && (b && leb x y) && not l) ≡ true
        → (i ≡ j) × (b ≡ true) × (x ≤ y)
    parts i j b l x y h = ground arith

abbrev Found : List Row → ℤ → ℕ → Option Task → Type 0
Found rows now id none = Unit {0}
Found rows now id (some task) = (r : Row) × Claimed rows now id r × (task ≡ task_of r)

-- What open_task claims, with the execution instant.
abbrev pub Opened : List Row → ℤ → ℕ → Option (Task × ℤ) → Type 0
Opened rows now id none = Unit {0}
Opened rows now id (some (task, t)) = (r : Row) × Claimed rows now id r × (task ≡ task_of r)

module _ {D A : Type 0} where
  shift-Reads :
      {P Q : A → Type 0} (n s : Session D) (r : Result A × Session D)
      → ((a : A) → P a → Q a)
      → n.database ≡ s.database
      → n.now ≡ s.now
      → Reads P n r
      → Reads Q s r
  shift-Reads n s _ pq d m (read a t p e k) = read a t (pq a p) (e ∙ d) (k ∙ m)
  shift-Reads n s _ pq d m (unread e t) = unread e t

module _ {D : Type 0} (v : Server) where
  set_timeouts-Reads : (s : Session D) → Reads (λ u. Unit {0}) s (exec v "" (λ rows. rows) s)
  unfolding exec
  set_timeouts-Reads s = go (call v s) (call-Called v s)
    where
      go :
          (q : Option String × Session D)
          → Called s q
          → Reads {A = Unit {0}}
              (λ u. Unit {0})
              s
              (elim q.0 [
                | none ↦ (ok tt, change (λ rows. rows) q.1)
                | some e ↦ (err (failed_call "" e), q.1)
              ])
      go _ (answered n) = read tt _ tt refl refl
      go _ (lost e t n k) = unread _ _

  read_instant-Reads : (s : Session D) → Reads (λ t. Unit {0}) s (read_settlement_instant v s)
  unfolding read_settlement_instant
  read_instant-Reads s = go (call v s) (call-Called v s)
    where
      go :
          (q : Option String × Session D)
          → Called s q
          → Reads {A = ℤ}
              (λ t. Unit {0})
              s
              (elim q.0 [
                | none ↦ (ok (v.clock s.calls), q.1)
                | some e ↦ (err (failed_call "scheduler: read settlement instant" e), q.1)
              ])
      go _ (answered n) = read _ _ tt refl refl
      go _ (lost e t n k) = unread _ _

  reclaim-Reads :
      (id : ℕ) (s : Session D) → Reads (Found s.database.rows s.now id) s (reclaim v id s)
  unfolding reclaim
  reclaim-Reads id s = go (call v s) (call-Called v s)
    where
      found : Option Row
      found =
          find_row (λ r. r.id == id && is_due s.now r && not (v.locked s.calls id)) s.database.rows

      claimed :
          (o : Option Row)
          → found ≡ o
          → Found s.database.rows s.now id (elim o [ none ↦ none | some r ↦ some (task_of r) ])
      claimed none e = tt
      claimed (some r) e = (r, claims s.database.rows s.now id (v.locked s.calls id) r e, refl)

      go :
          (q : Option String × Session D)
          → Called s q
          → Reads {A = Option Task} (Found s.database.rows s.now id) s (elim q.0 [
            | none ↦ (ok (elim found [ none ↦ none | some r ↦ some (task_of r) ]), q.1)
            | some e ↦ (err (failed_task "scheduler: reclaim task" id (failed_call "" e)), q.1)
          ])
      go _ (answered n) = read _ _ (claimed found refl) refl refl
      go _ (lost e t n k) = unread _ _

  pub open_task-Reads :
      (id : ℕ) (s : Session D) → Reads (Opened s.database.rows s.now id) s (open_task v id s)
  unfolding open_task read_execution_instant
  open_task-Reads id s =
      then-Reads s
        (λ u. wrapped "scheduler: reclaim task" id (reclaim v id) >>= read_execution_instant v id)
        (wrapped "scheduler: set timeouts for task" id (exec v "" (λ rows. rows)) s)
        (wrap-Reads _ id s _ (set_timeouts-Reads s))
        (λ u t p d n.
          shift-Reads t s _ (λ a q. carried a t s d n q) d n
            (then-Reads t (read_execution_instant v id)
              (wrapped "scheduler: reclaim task" id (reclaim v id) t)
              (wrap-Reads _ id t _ (reclaim-Reads id t)) (λ a x q e m. instant t x a q e m)))
    where
      carried :
          (a : Option (Task × ℤ)) (t s : Session D)
          → t.database ≡ s.database
          → t.now ≡ s.now
          → Opened t.database.rows t.now id a
          → Opened s.database.rows s.now id a
      carried none t s d n q = tt
      carried (some a) t s d n (r, (m, i, st, due), e) =
          (r, (subst (λ y. r ∈ y.rows) d m, i, st, subst (λ y. r.run_at ≤ℤ y) n due), e)

      instant :
          (t x : Session D) (a : Option Task)
          → Found t.database.rows t.now id a
          → x.database ≡ t.database
          → x.now ≡ t.now
          → Reads (Opened t.database.rows t.now id) t (read_execution_instant v id a x)
      instant t x none q e m = read none x tt e m
      instant t x (some task) q e m =
          shift-Reads x t _ (λ a p. p) e m
            (then-Reads x (λ i. pure (some (task, i)))
              (wrapped "scheduler: read execution instant for task" id (read_settlement_instant v)
                x)
              (wrap-Reads _ id x _ (read_instant-Reads x)) (λ i y u k l. read _ y q k l))
