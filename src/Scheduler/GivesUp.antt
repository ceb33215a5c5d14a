-- ===== src/Scheduler/GivesUp.antt =====
-- About a task that keeps failing: executeOne of internal/scheduler/execute.go on a server that works.
pub mod Eventually
use Prim.Native.String.{String}
use mathlib.Core.Path.{subst}
use lab_game.Prelude.{
  ℕ, suc, zero, ◌+◌, ◌-◌, ◌≤◌, ◌<◌, ◌≡◌, ◌≢◌, refl, sym, ap, ◌∙◌, ◌==◌, leb, ◌&&◌, not, Bool, true,
  false, if◌then◌else◌, List, [], ◌∷◌, Option, none, some, inl, inr, arith, map, ==_iff,
}
use lab_game.Prelude.Int.{ℤ, pos_part, neg_part, ◌≤ℤ◌, leb_ℤ, ◌+ℤ◌}
use lab_game.Prelude.Members.{◌∈◌, mem-map}
use lab_game.Scheduler.Task.{
  FailureKind, failure_none, failure_handler, Task, Outcome, failed, Row, State, pending, dead,
  Config, Recurrence, Result, ok, err,
}
use lab_game.Scheduler.Session.{Server, Session, ◌>>=◌, call, exec, read_settlement_instant}
use lab_game.Scheduler.Registry.{Entry, Return, returned, declaration}
use lab_game.Scheduler.Settle.{
  update_task, set_dead, set_failed, error_text, settle_outcome, settle_failed,
}
use lab_game.Scheduler.Claim.{task_of, is_due, is_pending, find_row, reclaim}
use lab_game.Scheduler.Execute.{
  World, rollback, started, refuse, execute_one, attempt_task, open_task, skip, run_declared,
  settle_and_after, finish, commit, classify, read_execution_instant,
}
use lab_game.Scheduler.Execute.Handle.{
  run_handler_with_savepoint, discard, rollback_to, release, HandlerResult, is_done, recovered,
}

-- No call fails, no row is locked, and no deadline passes.
abbrev pub calm : (ℕ → ℤ) → (ℕ → ℕ) → Server
calm clock sequence = record {
  fault = λ n. none;
  clock = clock;
  locked = λ n id. false;
  sequence = sequence;
  late = λ n. false;
}

module _ {D : Type 0} (clock : ℕ → ℤ) (sequence : ℕ → ℕ) (c : Config) (decls : List (Entry D))
    (id : ℕ) where
  -- One call of executeOne with the id of the task.
  abbrev pub poll : World D → World D
  poll w = (execute_one (calm clock sequence) c decls id 1 w).1

  -- What reclaim looks for.
  abbrev claimable : ℤ → Row → Bool
  claimable now r = r.id == id && is_due now r && not false

  -- The session in which the row is claimed.
  abbrev claiming : World D → Session D
  claiming w = record {
    database = w.database;
    aborted = false;
    calls = suc (suc (suc (suc w.calls)));
    now = clock (suc w.calls);
  }

  abbrev concluded : World D → Result (Option (Task × ℤ)) × Session D → World D
  concluded w q =
      (elim q.0 as (λ x. Result (Unit {0}) × World D) [
        | err e ↦ (err e, rollback q.1 w)
        | ok found ↦ attempt_task (calm clock sequence) c decls 1 q.1 w found
      ]).1

  -- The cycle by what reclaim found.
  abbrev poll_of : World D → Option Row → World D
  poll_of w o = concluded w (
      read_execution_instant (calm clock sequence) id
        (elim o as (λ x. Option Task) [ none ↦ none | some r ↦ some (task_of r) ]) (claiming w))

  poll-poll_of :
      (w : World D)
      → poll w ≡ poll_of w (find_row (claimable (clock (suc w.calls))) w.database.rows)
  unfolding execute_one attempt_task open_task call exec reclaim read_execution_instant
  poll-poll_of w = refl

  poll_skips :
      (w : World D)
      → find_row (claimable (clock (suc w.calls))) w.database.rows ≡ none
      → poll w ≡ record w { calls = suc (suc (suc (suc (suc w.calls)))) }
  unfolding attempt_task skip commit call read_execution_instant
  poll_skips w h = poll-poll_of w ∙ ap (poll_of w) h

  -- The attempt by the declaration, on the session after the execution instant was read.
  abbrev attempt_of : World D → Row → Option (Entry D) → World D
  attempt_of w r o =
      let s = record (claiming w) { calls = suc (suc (suc (suc (suc w.calls)))) } in
      let x = started (task_of r) (clock (suc (suc (suc (suc w.calls))))) 1 in
      (elim o as (λ x. Result (Unit {0}) × World D) [
        | none ↦ refuse (calm clock sequence) c s (task_of r) x w
        | some decl ↦ run_declared (calm clock sequence) c s (task_of r) decl x w
      ]).1

  -- The session at the savepoint.
  abbrev saved : World D → Session D
  saved w = record (claiming w) { calls = suc (suc (suc (suc (suc (suc w.calls))))) }

  -- The settlement by what the handler returned, and by the recurrence.
  abbrev settled_of : World D → Row → Entry D → Return → Option Recurrence → World D
  settled_of w r d ret rec =
      let v = calm clock sequence in
      let left = (d.handler (task_of r) (saved w)).1 in
      let x = started (task_of r) (clock (suc (suc (suc (suc w.calls))))) 1 in
      let q =
        if is_done (recovered ret)
        then release v (saved w) left
        else discard v (saved w) (recovered ret) left in
      (settle_and_after v c q.1 (task_of r) (record d { recurrence = rec }) q.0 x w).1

  attempt-settled_of :
      (w : World D) (r : Row) (d : Entry D)
      → attempt_of w r (some d) ≡ settled_of w r d (d.handler (task_of r) (saved w)).0 d.recurrence
  unfolding run_declared run_handler_with_savepoint call
  attempt-settled_of w r d = refl

  -- The row after the failure.
  abbrev failed_once : Row → String → ℤ → Row → Row
  failed_once r reason at =
      if leb c.retry_max_attempts (suc r.consecutive_failures)
      then set_dead (suc r.consecutive_failures) reason
      else set_failed (suc r.consecutive_failures) reason at

  -- The world after a failed attempt.
  abbrev FailsOnce : ℕ → World D → Row → World D → Type 0
  FailsOnce i w r w' =
      (reason : String) × (at : ℤ) × (w'.database.rows
        ≡ update_task i (failed_once r reason at) w.database.rows)

  -- settleFailed of a one-shot and what follows it, by whether its failures are spent.
  abbrev finished_of : World D → Row → String → Session D → FailureKind → Bool → World D
  finished_of w r reason s kind b =
      let v = calm clock sequence in
      let k = suc r.consecutive_failures in
      let q =
        (if b
            then exec v "scheduler: give up on task" (update_task r.id (set_dead k reason))
            else (read_settlement_instant v >>= λ t.
                exec v "scheduler: settle failed one-shot"
                  (update_task r.id (set_failed k reason (t +ℤ c.exponential (k - 1))))))
          s in
      let x = started (task_of r) (clock (suc (suc (suc (suc w.calls))))) 1 in
      (finish v (task_of r) none failed kind x q.0 q.1 w).1

  finished_of-rows :
      (w : World D) (r : Row) (reason : String) (s : Session D) (kind : FailureKind) (b : Bool)
      → s.aborted ≡ false
      → (finished_of w r reason s kind b).database.rows
        ≡ update_task r.id
            (if b
              then set_dead (suc r.consecutive_failures) reason
              else set_failed
                  (suc r.consecutive_failures)
                  reason
                  (clock s.calls +ℤ c.exponential (suc r.consecutive_failures - 1)))
            s.database.rows
  unfolding finish commit call exec read_settlement_instant
  finished_of-rows w r reason s kind true open_tx = rw open_tx refl
  finished_of-rows w r reason s kind false open_tx = rw open_tx refl

  settled_of-FailsOnce :
      (w : World D) (r : Row) (d : Entry D) (e : Option String)
      → FailsOnce r.id w r (settled_of w r d (returned failed e) none)
  unfolding settle_and_after classify discard rollback_to settle_outcome settle_failed
  settled_of-FailsOnce w r d none = (
    "",
    _,
    finished_of-rows w r "" _ failure_none (leb c.retry_max_attempts (suc r.consecutive_failures))
        refl,
  )
  settled_of-FailsOnce w r d (some e) = (
    e,
    _,
    finished_of-rows w r e _ failure_handler (leb c.retry_max_attempts (suc r.consecutive_failures))
        refl,
  )

  -- Every attempt fails, with an error or without one.
  abbrev pub AlwaysFails : Entry D → Type 0
  AlwaysFails d =
      (task : Task) (s : Session D)
      → (e : Option String) × ((d.handler task s).0 ≡ returned failed e)

  poll_of-attempt_of :
      (w : World D) (r : Row) → poll_of w (some r) ≡ attempt_of w r (declaration decls r.type)
  unfolding attempt_task read_execution_instant read_settlement_instant call
  poll_of-attempt_of w r = refl

  poll_fails :
      (w : World D) (r : Row) (d : Entry D)
      → find_row (claimable (clock (suc w.calls))) w.database.rows ≡ some r
      → r.id ≡ id
      → declaration decls r.type ≡ some d
      → d.recurrence ≡ none
      → AlwaysFails d
      → FailsOnce id w r (poll w)
  poll_fails w r d h same k n fails =
      let (e, ret) = fails (task_of r) (saved w) in
      subst (FailsOnce id w r)
        (sym (
          poll-poll_of w
          ∙ ap (poll_of w) h
          ∙ poll_of-attempt_of w r
          ∙ ap (attempt_of w r) k
          ∙ attempt-settled_of w r d
          ∙ ap (λ x. settled_of w r d x d.recurrence) ret
          ∙ ap (settled_of w r d (returned failed e)) n))
        (subst (λ i. FailsOnce i w r (settled_of w r d (returned failed e) none)) same
          (settled_of-FailsOnce w r d e))
