-- ===== src/Scheduler/Execute/Refines.antt =====
-- About the cycle of one task: executeOne of internal/scheduler/execute.go.
use Prim.Native.String.{String}
use lab_game.Prelude.{ℕ, suc, ◌≡◌, refl, ap, ◌∙◌, List, Option, none, some}
use lab_game.Prelude.Int.{ℤ, ◌+ℤ◌}
use lab_game.Scheduler.Task.{
  Task, failed, Observation, Row, Config, failed_call, failed_task, failure_unregistered, Result,
  ok, err,
}
use lab_game.Scheduler.Session.{Server, Session, call}
use lab_game.Scheduler.Registry.{Entry, declaration}
use lab_game.Scheduler.Settle.{set_run_at}
use lab_game.Scheduler.Settle.Meaning.{
  replace, Called, answered, lost, call-Called, Settles, settles, fails,
  settle_unregistered-Settles,
}
use lab_game.Scheduler.Claim.{task_of}
use lab_game.Scheduler.Execute.{
  World, commit, skip, refuse, attempt_task, open_task, execute_one, rollback, begin, started,
  observe_task, run_declared,
}
use lab_game.Scheduler.Execute.Attempts.{Reports, Attempted, run_declared-Attempted}
use lab_game.Scheduler.Execute.Claimed.{Claimed, Reads, read, unread, Opened, open_task-Reads}

-- What a cycle of one id may do.
pub data Executed {D : Type 0} (v : Server) (c : Config) (decls : List (Entry D)) (id : ℕ)
    (w w' : World D) : Type 0 where
  -- An error, or a row that is not to be had: nothing is changed or reported.
  idle :
      w'.database ≡ w.database
      → w'.pending ≡ w.pending
      → w'.observed ≡ w.observed
      → Executed v c decls id w w'
  -- A type that is not declared: the row is pushed out by the longest delay, and its failures stay.
  refused :
      (r : Row) (at : ℤ)
      → Claimed w.database.rows (v.clock (suc w.calls)) id r
      → declaration decls r.type ≡ none
      → w'.database.rows
        ≡ replace r.id (λ x. some (set_run_at (at +ℤ c.retry_max_delay) x)) w.database.rows
      → w'.database.others ≡ w.database.others
      → w'.pending ≡ w.pending
      → Reports w w' failed
      → Executed v c decls id w w'
  attempted :
      (r : Row) (decl : Entry D)
      → Claimed w.database.rows (v.clock (suc w.calls)) id r
      → declaration decls r.type ≡ some decl
      → Attempted c r decl w w'
      → Executed v c decls id w w'

module _ {D : Type 0} (v : Server) (c : Config) (decls : List (Entry D)) (id : ℕ)
    (w : World D) where
  skip-Executed : (s : Session D) → s.database ≡ w.database → Executed v c decls id w (skip v s w).1
  unfolding skip commit
  skip-Executed s d = go (call v s) (call-Called v s)
    where
      committed : Option String × Session D → Option String × World D
      committed q = elim q.0 [
        | none ↦ (none, record w { database = s.database; calls = suc s.calls })
        | some e ↦ (some e, record w { calls = suc s.calls })
      ]

      go : (q : Option String × Session D) → Called s q → Executed v c decls id w (committed q).1
      go _ (answered n) = idle d refl refl
      go _ (lost e t n k) = idle refl refl refl

  refuse-Executed :
      (r : Row) (o : Observation) (s : Session D)
      → Claimed w.database.rows (v.clock (suc w.calls)) id r
      → declaration decls r.type ≡ none
      → s.database ≡ w.database
      → Executed v c decls id w (refuse v c s (task_of r) o w).1
  unfolding refuse commit
  refuse-Executed r o s claimed none_such d =
      go _ (settle_unregistered-Settles v c (task_of r) c.retry_max_delay s)
    where
      committed : Session D → Option String × Session D → Option String × World D
      committed t q = elim q.0 [
        | none ↦ (none, record w { database = t.database; calls = suc t.calls })
        | some e ↦ (some e, record w { calls = suc t.calls })
      ]

      concluded : Option String × World D → Result (Unit {0}) × World D
      concluded k = elim k.0 [
        | some e ↦ (
          err (failed_task "scheduler: commit task" r.id (failed_call "" e)),
          record k.1 { calls = suc k.1.calls },
        )
        | none ↦ (
          ok tt,
          observe_task
              (record o {
                outcome = failed;
                failure = failure_unregistered;
                consecutive_failures = r.consecutive_failures;
              })
              k.1,
        )
      ]

      settled : Result (Unit {0}) × Session D → Result (Unit {0}) × World D
      settled q = elim q.0 [
        | err e ↦ (err (failed_task "scheduler: settle unregistered task" r.id e), rollback q.1 w)
        | ok _ ↦ concluded (committed q.1 (call v q.1))
      ]

      made :
          (at : ℤ) (t : Session D)
          → t.database.rows
            ≡ replace r.id (λ x. some (set_run_at (at +ℤ c.retry_max_delay) x)) s.database.rows
          → t.database.others ≡ s.database.others
          → (q : Option String × Session D) → Called t q
          → Executed v c decls id w (concluded (committed t q)).1
      made at t rows others _ (answered n) =
          refused r at claimed none_such
            (rows
              ∙ ap (λ y. replace r.id (λ x. some (set_run_at (at +ℤ c.retry_max_delay) x)) y.rows)
                  d)
            (others ∙ ap (λ y. y.others) d) refl (_, refl, refl)
      made at t rows others _ (lost e x n k) = idle refl refl refl

      go :
          (q : Result (Unit {0}) × Session D)
          → Settles s r.id (λ at x. some (set_run_at (at +ℤ c.retry_max_delay) x)) q
          → Executed v c decls id w (settled q).1
      go _ (fails e t) = idle refl refl refl
      go _ (settles at t a rows others) = made at t rows others (call v t) (call-Called v t)

  attempt_task-Executed :
      (batch : ℕ) (s : Session D) (found : Option (Task × ℤ))
      → s.database ≡ w.database
      → Opened w.database.rows (v.clock (suc w.calls)) id found
      → Executed v c decls id w (attempt_task v c decls batch s w found).1
  unfolding attempt_task
  attempt_task-Executed batch s none d h = skip-Executed s d
  attempt_task-Executed batch s (some a) d (r, claimed, e) =
      rw e (go (declaration decls r.type) refl)
    where
      o : Observation
      o = started (task_of r) a.1 batch

      go :
          (found : Option (Entry D))
          → declaration decls r.type ≡ found
          → Executed v c decls id w
              (elim found as (λ x. Result (Unit {0}) × World D) [
                | none ↦ refuse v c s (task_of r) o w
                | some decl ↦ run_declared v c s (task_of r) decl o w
              ]).1
      go none h = refuse-Executed r o s claimed h d
      go (some decl) h = attempted r decl claimed h (run_declared-Attempted v c r decl o w s d)

  -- The whole cycle of an id, whatever the server answers, does what its contract allows: nothing, a refusal,
  -- or an attempt.
  pub execute_one-Executed :
      (batch : ℕ) → Executed v c decls id w (execute_one v c decls id batch w).1
  unfolding execute_one
  execute_one-Executed batch = acquired (v.fault w.calls)
    where
      s : Session D
      s = begin v (record w { calls = suc w.calls })

      concluded : Result (Option (Task × ℤ)) × Session D → Result (Unit {0}) × World D
      concluded q = elim q.0 [
        | err e ↦ (err e, rollback q.1 w)
        | ok found ↦ attempt_task v c decls batch q.1 w found
      ]

      begun : Option String → Result (Unit {0}) × World D
      begun o = elim o [
        | some e ↦ (
          err (failed_task "scheduler: begin task" id (failed_call "" e)),
          record w { calls = suc (suc w.calls) },
        )
        | none ↦ concluded (open_task v id s)
      ]

      opened :
          (q : Result (Option (Task × ℤ)) × Session D)
          → Reads (Opened w.database.rows (v.clock (suc w.calls)) id) s q
          → Executed v c decls id w (concluded q).1
      opened _ (read found t h d n) = attempt_task-Executed batch t found d h
      opened _ (unread e t) = idle refl refl refl

      begins : (o : Option String) → Executed v c decls id w (begun o).1
      begins none = opened (open_task v id s) (open_task-Reads v id s)
      begins (some e) = idle refl refl refl

      acquired :
          (o : Option String)
          → Executed v c decls id w
              (elim o as (λ x. Result (Unit {0}) × World D) [
                | some e ↦ (
                  err (failed_task "scheduler: acquire connection for task" id (failed_call "" e)),
                  record w { calls = suc w.calls },
                )
                | none ↦ begun (v.fault (suc w.calls))
              ]).1
      acquired none = begins (v.fault (suc w.calls))
      acquired (some e) = idle refl refl refl
