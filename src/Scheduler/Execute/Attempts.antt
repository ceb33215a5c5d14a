-- ===== src/Scheduler/Execute/Attempts.antt =====
-- The attempt that one execution cycle makes, without statements and transactions: executeOne of
-- internal/scheduler/execute.go against its contract.
use Prim.Native.String.{String, ◌++◌}
use lab_game.Prelude.{
  ℕ, suc, ◌≡◌, ◌≢◌, refl, ap, ◌∙◌, ◌&&◌, Bool, true, false, if◌then◌else◌, ◌∷◌, Option, none, some,
}
use lab_game.Prelude.Int.{ℤ}
use lab_game.Scheduler.Task.{
  Outcome, done, failed, FailureKind, Observation, Row, Config, failure_rolled_back, failure_panic,
  failure_deadline, Result, ok,
}
use lab_game.Scheduler.Session.{Server, Session, call}
use lab_game.Scheduler.Registry.{Entry, returned}
use lab_game.Scheduler.Settle.{error_text}
use lab_game.Scheduler.Settle.Meaning.{
  replace, settled, Called, answered, lost, call-Called, Settles, settles, fails,
  settle_outcome-Settles,
}
use lab_game.Scheduler.Claim.{task_of}
use lab_game.Scheduler.Execute.{
  World, without, deferred, commit, finish, observe_task, enqueue_pending, failed_as, rollback,
  counted, classify, settle_and_after, run_declared, is_some, after,
}
use lab_game.Scheduler.Execute.Handle.{HandlerResult, run_handler_with_savepoint}
use lab_game.Scheduler.Execute.Handled.{
  Handled, kept, undone, spoilt, kept_result, run_handler_with_savepoint-Handled,
}

-- Exactly one observation is reported, with an outcome.
abbrev pub Reports : {D : Type 0} → World D → World D → Outcome → Type 0
Reports w w' o = (x : Observation) × (w'.observed ≡ x ∷ w.observed) × (x.outcome ≡ o)

-- What an attempt of a declared task may do, by its row.
pub data Attempted {D : Type 0} (c : Config) (r : Row) (decl : Entry D) (w w' : World D)
    : Type 0 where
  -- An error: nothing is changed or reported, and the row is as due as it was.
  unchanged :
      w'.database ≡ w.database
      → w'.pending ≡ w.pending
      → w'.observed ≡ w.observed
      → Attempted c r decl w w'
  -- The handler was done: what it left is kept, and its row is settled.
  completed :
      (before : Session D) (at : ℤ)
      → before.database ≡ w.database
      → (decl.handler (task_of r) before).0 ≡ returned done none
      → w'.database.rows
        ≡ replace r.id
            (settled c (task_of r) decl.recurrence done "" at)
            (decl.handler (task_of r) before).1.database.rows
      → w'.database.others ≡ (decl.handler (task_of r) before).1.database.others
      → w'.pending ≡ w.pending
      → Reports w w' done
      → Attempted c r decl w w'
  -- The handler was not: nothing that it wrote is kept, and its row is settled.
  discarded :
      (o : Outcome) (reason : String) (at : ℤ)
      → o ≢ done
      → w'.database.rows
        ≡ replace r.id (settled c (task_of r) decl.recurrence o reason at) w.database.rows
      → w'.database.others ≡ w.database.others
      → w'.pending ≡ w.pending
      → Reports w w' o
      → Attempted c r decl w w'
  -- The transaction was lost: the failure is left for a later drain.
  postponed :
      (reason : String)
      → w'.database ≡ w.database
      → w'.pending ≡ deferred (task_of r) decl.recurrence reason ∷ without r.id w.pending
      → Reports w w' failed
      → Attempted c r decl w w'

module _ {D : Type 0} (v : Server) (c : Config) (r : Row) (decl : Entry D) (o : Observation)
    (w : World D) where
  -- COMMIT after a settlement that was made.
  commit-Attempted :
      (outcome : Outcome) (kind : FailureKind) (t : Session D)
      → ((n : ℕ) (x : Observation)
          → x.outcome ≡ outcome
          → Attempted c r decl w
              (record w { database = t.database; calls = n; observed = x ∷ w.observed }))
      → Attempted c r decl w (finish v (task_of r) decl.recurrence outcome kind o (ok tt) t w).1
  unfolding finish commit enqueue_pending
  commit-Attempted outcome kind t made = go (call v t) (call-Called v t)
    where
      committed : Option String × Session D → Option String × World D
      committed q = elim q.0 [
        | none ↦ (none, record w { database = t.database; calls = suc t.calls })
        | some e ↦ (some e, record w { calls = suc t.calls })
      ]

      concluded : Option String × World D → Result (Unit {0}) × World D
      concluded q = elim q.0 [
        | none ↦ (
          ok tt,
          observe_task
              (record o {
                outcome = outcome;
                failure = kind;
                consecutive_failures = counted outcome (task_of r);
              })
              q.1,
        )
        | some e ↦ (
          ok tt,
          observe_task (failed_as failure_rolled_back (task_of r) o) (
              enqueue_pending (deferred (task_of r) decl.recurrence ("commit failed: " ++ e))
                (rollback (record t { calls = suc t.calls }) w)),
        )
      ]

      go :
          (q : Option String × Session D)
          → Called t q
          → Attempted c r decl w (concluded (committed q)).1
      go _ (answered n) = made _ _ refl
      go _ (lost e s n k) = postponed ("commit failed: " ++ e) refl refl (_, refl, refl)

  -- A settlement on what the handler left.
  completed-Attempted :
      (kind : FailureKind) (before s : Session D)
      → before.database ≡ w.database
      → (decl.handler (task_of r) before).0 ≡ returned done none
      → s.database ≡ (decl.handler (task_of r) before).1.database
      → (q : Result (Unit {0}) × Session D)
      → Settles s r.id (settled c (task_of r) decl.recurrence done "") q
      → Attempted c r decl w (finish v (task_of r) decl.recurrence done kind o q.0 q.1 w).1
  unfolding finish
  completed-Attempted kind before s d e k _ (fails x t) = unchanged refl refl refl
  completed-Attempted kind before s d e k _ (settles at t a rows others) =
      commit-Attempted done kind t (λ n x q.
        completed before at d e
          (rows
            ∙ ap (λ y. replace r.id (settled c (task_of r) decl.recurrence done "" at) y.rows) k)
          (others ∙ ap (λ y. y.others) k) refl (x, refl, q))

  completed_as :
      (kind : FailureKind) (before s : Session D)
      → before.database ≡ w.database
      → (decl.handler (task_of r) before).0 ≡ returned done none
      → s.database ≡ (decl.handler (task_of r) before).1.database
      → (q : Result (Unit {0}) × Session D)
      → Settles s r.id
          (settled c
            (task_of r)
            decl.recurrence
            (classify kept_result).0
            (error_text (classify kept_result).2))
          q
      → Attempted c r decl w
          (finish v (task_of r) decl.recurrence (classify kept_result).0 kind o q.0 q.1 w).1
  unfolding classify
  completed_as kind before s d e k q h = completed-Attempted kind before s d e k q h

  -- A settlement on the database of before the handler's call.
  discarded-Attempted :
      (outcome : Outcome) (kind : FailureKind) (reason : String) (s : Session D)
      → outcome ≢ done
      → s.database ≡ w.database
      → (q : Result (Unit {0}) × Session D)
      → Settles s r.id (settled c (task_of r) decl.recurrence outcome reason) q
      → Attempted c r decl w (finish v (task_of r) decl.recurrence outcome kind o q.0 q.1 w).1
  unfolding finish
  discarded-Attempted outcome kind reason s ne k _ (fails x t) = unchanged refl refl refl
  discarded-Attempted outcome kind reason s ne k _ (settles at t a rows others) =
      commit-Attempted outcome kind t (λ n x q.
        discarded outcome reason at ne
          (rows
            ∙ ap
                (λ y. replace r.id (settled c (task_of r) decl.recurrence outcome reason at) y.rows)
                k)
          (others ∙ ap (λ y. y.others) k) refl (x, refl, q))

  -- In an aborted transaction no settlement is made.
  spoilt-Attempted :
      (outcome : Outcome) (kind : FailureKind) (reason : String) (s : Session D)
      → s.aborted ≡ true
      → (q : Result (Unit {0}) × Session D)
      → Settles s r.id (settled c (task_of r) decl.recurrence outcome reason) q
      → Attempted c r decl w (finish v (task_of r) decl.recurrence outcome kind o q.0 q.1 w).1
  unfolding finish
  spoilt-Attempted outcome kind reason s n _ (fails x t) = unchanged refl refl refl
  spoilt-Attempted outcome kind reason s n _ (settles at t a rows others) = absurd (cc)

  -- The test of settleAndAfter before any settlement.
  held :
      (b : Bool) (reason : String) (s : Session D) (q : Result (Unit {0}) × World D)
      → Attempted c r decl w q.1
      → Attempted c r decl w
          (if b
            then (
              ok tt,
              observe_task
                  (failed_as failure_panic (task_of r) o)
                  (enqueue_pending (deferred (task_of r) decl.recurrence reason) (after s w)),
            )
            else q).1
  unfolding enqueue_pending
  held true reason s q h = postponed reason refl refl (_, refl, refl)
  held false reason s q h = h

  not_kept :
      (s : Session D) (x : HandlerResult)
      → ((kind : FailureKind) (q : Result (Unit {0}) × Session D)
          → Settles s r.id
              (settled c (task_of r) decl.recurrence (classify x).0 (error_text (classify x).2))
              q
          → Attempted c r decl w
              (finish v (task_of r) decl.recurrence (classify x).0 kind o q.0 q.1 w).1)
      → Attempted c r decl w (settle_and_after v c s (task_of r) decl x o w).1
  unfolding settle_and_after
  not_kept s x h = held (x.panicked && is_some x.release_err) (error_text x.handler_err) s _ (
      h (classify x).1 _
        (settle_outcome-Settles v c (task_of r) decl (classify x).0 (classify x).2 s))

  settle_and_after-Attempted :
      (s : Session D)
      → s.database ≡ w.database
      → (q : HandlerResult × Session D) → Handled decl.handler (task_of r) s q
      → Attempted c r decl w (settle_and_after v c q.1 (task_of r) decl q.0 o w).1
  settle_and_after-Attempted s d _ (kept before t b e k) =
      not_kept t kept_result (λ kind. completed_as kind before t (b ∙ d) e k)
  settle_and_after-Attempted s d _ (undone x t k ne) =
      not_kept t x (λ kind. discarded-Attempted (classify x).0 kind _ t ne (k ∙ d))
  settle_and_after-Attempted s d _ (spoilt x t a) =
      not_kept t x (λ kind. spoilt-Attempted (classify x).0 kind _ t a)

  -- Both branches of the select.
  pub run_declared-Attempted :
      (s : Session D)
      → s.database ≡ w.database
      → Attempted c r decl w (run_declared v c s (task_of r) decl o w).1
  unfolding run_declared enqueue_pending
  run_declared-Attempted s d = go (v.late s.calls)
    where
      go :
          (b : Bool)
          → Attempted c r decl w
              (if b
                then (
                  ok tt,
                  observe_task (failed_as failure_deadline (task_of r) o) (
                      enqueue_pending
                        (deferred (task_of r) decl.recurrence "deadline exceeded")
                        (rollback s w)),
                )
                else settle_and_after v c
                    (run_handler_with_savepoint v decl.handler (task_of r) s).1
                    (task_of r)
                    decl
                    (run_handler_with_savepoint v decl.handler (task_of r) s).0
                    o
                    w).1
      go true = postponed "deadline exceeded" refl refl (_, refl, refl)
      go false =
          settle_and_after-Attempted s d _
            (run_handler_with_savepoint-Handled v decl.handler (task_of r) s)
