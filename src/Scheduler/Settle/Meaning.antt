-- ===== src/Scheduler/Settle/Meaning.antt =====
-- What a settlement means for the task's row: the abstract side of internal/scheduler/settle.go.
use Prim.Native.String.{String}
use lab_game.Prelude.{
  ℕ, suc, ◌-◌, ◌==◌, leb, ◌≡◌, refl, sym, ap, ◌∙◌, Bool, true, false, if◌then◌else◌, List, [], ◌∷◌,
  Option, none, some, arith,
}
use lab_game.Prelude.Int.{ℤ, ◌+ℤ◌}
use lab_game.Scheduler.Task.{
  Task, Outcome, done, noop, failed, other, Row, Config, Recurrence, Result, ok, err, Error,
  failed_call,
}
use lab_game.Scheduler.Session.{
  Server, Session, Tx, ◌>>=◌, change, call, exec, read_settlement_instant,
}
use lab_game.Scheduler.Registry.{Entry}
use lab_game.Scheduler.Settle.{
  update_task, delete_task, set_run_at, set_next, set_dead, set_failed, error_text,
  settle_unregistered, settle_done_or_noop, settle_failed, settle_outcome,
}

-- Each row with the id becomes what a function makes of it, or is deleted.
unfoldable pub replace : ℕ → (Row → Option Row) → List Row → List Row
replace id f [] = []
replace id f (r ∷ rs) =
    let rest = replace id f rs in
    if r.id == id then elim (f r) [ none ↦ rest | some x ↦ x ∷ rest ] else r ∷ rest

-- The row after a failed attempt, by the failures and the due instant before it.
abbrev pub failed_row : Config → Option Recurrence → ℕ → ℤ → String → ℤ → Row → Row
failed_row c none k due reason at =
    if leb c.retry_max_attempts (suc k)
    then set_dead (suc k) reason
    else set_failed (suc k) reason (at +ℤ c.exponential (suc k - 1))
failed_row c (some r) k due reason at = set_failed (suc k) reason (r.cadence due at)

-- The row after an attempt that was settled at an instant.
abbrev pub settled : Config → Task → Option Recurrence → Outcome → String → ℤ → Row → Option Row
settled c task none done reason at row = none
settled c task (some r) done reason at row = some (set_next (r.cadence task.run_at at) row)
settled c task none noop reason at row = none
settled c task (some r) noop reason at row = some (set_next (r.cadence task.run_at at) row)
settled c task rec failed reason at row =
    some (failed_row c rec task.consecutive_failures task.run_at reason at row)
settled c task rec other reason at row = some row

update-replace :
    (id : ℕ) (f : Row → Row) (rows : List Row)
    → update_task id f rows ≡ replace id (λ r. some (f r)) rows
unfolding update_task replace
update-replace id f [] = refl
update-replace id f (r ∷ rs) = let ih = update-replace id f rs in ground arith

delete-replace : (id : ℕ) (rows : List Row) → delete_task id rows ≡ replace id (λ r. none) rows
unfolding delete_task replace
delete-replace id [] = refl
delete-replace id (r ∷ rs) = let ih = delete-replace id rs in ground arith

-- What a statement can come to: an aborted transaction has no successful statement.
pub data Called {D : Type 0} (s : Session D) : Option String × Session D → Type 0 where
  answered : s.aborted ≡ false → Called s (none, record s { calls = suc s.calls })
  lost :
      (e : String) (t : Session D)
      → t.aborted ≡ true
      → t.database ≡ s.database
      → Called s (some e, t)

-- What a settlement can come to: the rows are changed at an instant, or it fails.
pub data Settles {D : Type 0} (s : Session D) (id : ℕ) (f : ℤ → Row → Option Row)
    : Result (Unit {0}) × Session D → Type 0 where
  settles :
      (at : ℤ) (t : Session D)
      → s.aborted ≡ false
      → t.database.rows ≡ replace id (f at) s.database.rows
      → t.database.others ≡ s.database.others
      → Settles s id f (ok tt, t)
  fails : (e : Error) (t : Session D) → Settles s id f (err e, t)

module _ {D : Type 0} (v : Server) where
  pub call-Called : (s : Session D) → Called s (call v s)
  unfolding call
  call-Called s = go s.aborted (v.fault s.calls) refl
    where
      next : Session D
      next = record s { calls = suc s.calls }

      go :
          (b : Bool) (o : Option String)
          → s.aborted ≡ b
          → Called s (
              if b
              then (
                some
                    "current transaction is aborted, commands ignored until end of transaction block",
                next,
              )
              else elim o [
                | none ↦ (none, next)
                | some e ↦ (some e, record next { aborted = true })
              ])
      go true o h = lost _ _ h refl
      go false none h = answered h
      go false (some e) h = lost _ _ refl refl

  exec-Settles :
      (words : String) (id : ℕ) (f : ℤ → Row → Option Row) (g : List Row → List Row) (at : ℤ)
      (s : Session D)
      → g s.database.rows ≡ replace id (f at) s.database.rows
      → Settles s id f (exec v words g s)
  unfolding exec
  exec-Settles words id f g at s h = go (call v s) (call-Called s)
    where
      go :
          (r : Option String × Session D)
          → Called s r
          → Settles s id f (elim r.0 [
            | none ↦ (ok tt, change g r.1)
            | some e ↦ (err (failed_call words e), r.1)
          ])
      go _ (answered n) = settles at _ n h refl
      go _ (lost e t n k) = fails _ _

  carry :
      {id : ℕ} {f : ℤ → Row → Option Row} (n s : Session D) (r : Result (Unit {0}) × Session D)
      → n.database ≡ s.database
      → n.aborted ≡ s.aborted
      → Settles n id f r
      → Settles s id f r
  carry {id} {f} n s _ d a (settles at t h rows others) =
      settles at t (sym a ∙ h) (rows ∙ ap (λ x. replace id (f at) x.rows) d)
        (others ∙ ap (λ x. x.others) d)
  carry n s _ d a (fails e t) = fails e t

  read-Settles :
      {id : ℕ} {f : ℤ → Row → Option Row} (k : ℤ → Tx D (Unit {0})) (s : Session D)
      → ((at : ℤ) (n : Session D) → Settles n id f (k at n))
      → Settles s id f ((read_settlement_instant v >>= k) s)
  unfolding read_settlement_instant
  read-Settles {id} {f} k s each = go (call v s) (call-Called s)
    where
      reading : Option String × Session D → Result ℤ × Session D
      reading r = elim r.0 [
        | none ↦ (ok (v.clock s.calls), r.1)
        | some e ↦ (err (failed_call "scheduler: read settlement instant" e), r.1)
      ]

      go :
          (r : Option String × Session D)
          → Called s r
          → Settles s id f
              (elim (reading r).0 [ ok a ↦ k a (reading r).1 | err e ↦ (err e, (reading r).1) ])
      go _ (answered n) = carry _ s _ refl refl (each _ _)
      go _ (lost e t n h) = fails _ _

  -- A row changed at the instant that is read.
  later-Settles :
      (words : String) (id : ℕ) (h : ℤ → Row → Row) (s : Session D)
      → Settles s id
          (λ at r. some (h at r))
          ((read_settlement_instant v >>= λ at. exec v words (update_task id (h at))) s)
  later-Settles words id h s = read-Settles _ s (λ at n.
      exec-Settles words id (λ t r. some (h t r)) (update_task id (h at)) at n
        (update-replace id (h at) n.database.rows))

  module _ (c : Config) (task : Task) where
    done-Settles :
        (rec : Option Recurrence) (reason : String) (s : Session D)
        → Settles s task.id (settled c task rec done reason) (settle_done_or_noop v c task rec s)
    unfolding settle_done_or_noop
    done-Settles none reason s =
        exec-Settles "scheduler: delete done task" task.id (λ at r. none) (delete_task task.id)
          (v.clock 0) s (delete-replace task.id s.database.rows)
    done-Settles (some r) reason s =
        later-Settles "scheduler: reschedule recurrent task" task.id
          (λ at. set_next (r.cadence task.run_at at)) s

    noop-Settles :
        (rec : Option Recurrence) (reason : String) (s : Session D)
        → Settles s task.id (settled c task rec noop reason) (settle_done_or_noop v c task rec s)
    noop-Settles none reason s = done-Settles none reason s
    noop-Settles (some r) reason s = done-Settles (some r) reason s

    failed-Settles :
        (rec : Option Recurrence) (e : Option String) (s : Session D)
        → Settles s task.id
            (settled c task rec failed (error_text e))
            (settle_failed v c task rec e s)
    unfolding settle_failed
    failed-Settles none e s = go (leb c.retry_max_attempts (suc task.consecutive_failures))
      where
        k : ℕ
        k = suc task.consecutive_failures

        later : ℤ → Row → Row
        later at = set_failed k (error_text e) (at +ℤ c.exponential (k - 1))

        gone : Row → Row
        gone = set_dead k (error_text e)

        go :
            (b : Bool)
            → Settles s task.id
                (λ at r. some ((if b then gone else later at) r))
                ((if b
                    then exec v "scheduler: give up on task" (update_task task.id gone)
                    else (read_settlement_instant v >>= λ at.
                        exec v "scheduler: settle failed one-shot"
                          (update_task task.id (later at))))
                  s)
        go true =
            exec-Settles "scheduler: give up on task" task.id (λ at r. some (gone r))
              (update_task task.id gone) (v.clock 0) s (update-replace task.id gone s.database.rows)
        go false = later-Settles "scheduler: settle failed one-shot" task.id later s
    failed-Settles (some r) e s =
        later-Settles "scheduler: settle failed recurrent" task.id
          (failed_row c (some r) task.consecutive_failures task.run_at (error_text e)) s

    -- Every settlement comes to the abstract one of its outcome.
    pub settle_outcome-Settles :
        (decl : Entry D) (o : Outcome) (e : Option String) (s : Session D)
        → Settles s task.id
            (settled c task decl.recurrence o (error_text e))
            (settle_outcome v c task decl o e s)
    unfolding settle_outcome
    settle_outcome-Settles decl done e s = done-Settles decl.recurrence (error_text e) s
    settle_outcome-Settles decl noop e s = noop-Settles decl.recurrence (error_text e) s
    settle_outcome-Settles decl failed e s = failed-Settles decl.recurrence e s
    settle_outcome-Settles decl other e s = fails _ _

    pub settle_unregistered-Settles :
        (ceiling : ℤ) (s : Session D)
        → Settles s task.id
            (λ at r. some (set_run_at (at +ℤ ceiling) r))
            (settle_unregistered v c task.id ceiling s)
    unfolding settle_unregistered
    settle_unregistered-Settles ceiling s =
        later-Settles "scheduler: settle unregistered" task.id (λ at. set_run_at (at +ℤ ceiling)) s
