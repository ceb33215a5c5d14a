-- ===== src/Scheduler/Execute/Handled.antt =====
-- What a handler's call under the savepoint leaves: runHandlerWithSavepoint of internal/scheduler/execute.go.
use Prim.Native.String.{String, ◌++◌}
use lab_game.Prelude.{
  suc, ◌≡◌, ◌≢◌, refl, ◌∙◌, Bool, true, false, if◌then◌else◌, Option, none, some,
}
use lab_game.Scheduler.Task.{Task, done, noop, failed, other}
use lab_game.Scheduler.Session.{Server, Session, call}
use lab_game.Scheduler.Registry.{Return, returned, panicked, Handler}
use lab_game.Scheduler.Settle.Meaning.{Called, answered, lost, call-Called}
use lab_game.Scheduler.Execute.{classify}
use lab_game.Scheduler.Execute.Handle.{
  HandlerResult, recovered, is_done, rollback_to, release, discard, run_handler_with_savepoint,
}

abbrev pub kept_result : HandlerResult
kept_result = record { outcome = done; handler_err = none; release_err = none; panicked = false }

-- The handler's writes are kept, or undone, or the transaction is lost with them.
pub data Handled {D : Type 0} (h : Handler D) (task : Task) (s : Session D)
    : HandlerResult × Session D → Type 0 where
  kept :
      (before : Session D) (t : Session D)
      → before.database ≡ s.database
      → (h task before).0 ≡ returned done none
      → t.database ≡ (h task before).1.database
      → Handled h task s (kept_result, t)
  undone :
      (r : HandlerResult) (t : Session D)
      → t.database ≡ s.database
      → (classify r).0 ≢ done
      → Handled h task s (r, t)
  spoilt : (r : HandlerResult) (t : Session D) → t.aborted ≡ true → Handled h task s (r, t)

done_returned : (r : Return) → is_done (recovered r) ≡ true → r ≡ returned done none
done_returned (returned done none) e = refl
done_returned (returned noop none) e = cc
done_returned (returned failed none) e = cc
done_returned (returned other none) e = cc
done_returned (returned o (some t)) e = cc
done_returned (panicked t) e = cc

not_done :
    (r : Return)
    → is_done (recovered r) ≡ false
    → (classify (record (recovered r) { release_err = none })).0 ≢ done
unfolding classify
not_done (returned done none) e = absurd (cc)
not_done (returned noop none) e = λ q. cc
not_done (returned failed none) e = λ q. cc
not_done (returned other none) e = λ q. cc
not_done (returned o (some t)) e = λ q. cc
not_done (panicked t) e = λ q. cc

-- ROLLBACK TO restores the database of the savepoint, or the transaction is lost.
data Back {D : Type 0} (saved : Session D) : Option String × Session D → Type 0 where
  restored : (t : Session D) → t.database ≡ saved.database → Back saved (none, t)
  stuck : (e : String) (t : Session D) → t.aborted ≡ true → Back saved (some e, t)

rollback_to-Back :
    {D : Type 0} (v : Server) (saved s : Session D) → Back saved (rollback_to v saved s)
unfolding rollback_to
rollback_to-Back {D} v saved s = go (v.fault s.calls)
  where
    next : Session D
    next = record s { calls = suc s.calls }

    go :
        (o : Option String)
        → Back saved (elim o [
          | none ↦ (none, record next { database = saved.database; aborted = saved.aborted })
          | some e ↦ (some e, record next { aborted = true })
        ])
    go none = restored _ refl
    go (some e) = stuck _ _ refl

module _ {D : Type 0} (v : Server) (h : Handler D) (task : Task) where
  release-Handled :
      (s before : Session D)
      → before.database ≡ s.database
      → (h task before).0 ≡ returned done none
      → Handled h task s (release v before (h task before).1)
  unfolding release classify
  release-Handled s before d e = go (call v left) (call-Called v left)
    where
      left : Session D
      left = (h task before).1

      lose :
          (x : String) (b : Option String × Session D)
          → Back before b
          → Handled h task s (
            record {
              outcome = failed;
              handler_err = none;
              release_err = some (elim b.0 [
                | none ↦ "release failed: " ++ x
                | some y ↦ "scheduler: rollback after failed release: " ++ (x ++ ("\n" ++ y))
              ]);
              panicked = false;
            },
            b.1,
          )
      lose x _ (restored t k) = undone _ t (k ∙ d) (λ q. cc)
      lose x _ (stuck y t k) = spoilt _ t k

      go :
          (r : Option String × Session D)
          → Called left r
          → Handled h task s (elim r.0 [
            | none ↦ (kept_result, r.1)
            | some x ↦ (
              record {
                outcome = failed;
                handler_err = none;
                release_err = some (elim (rollback_to v before r.1).0 [
                  | none ↦ "release failed: " ++ x
                  | some b ↦ "scheduler: rollback after failed release: " ++ (x ++ ("\n" ++ b))
                ]);
                panicked = false;
              },
              (rollback_to v before r.1).1,
            )
          ])
      go _ (answered n) = kept before _ d e refl
      go _ (lost x t n k) = lose x (rollback_to v before t) (rollback_to-Back v before t)

  discard-Handled :
      (s before : Session D)
      → before.database ≡ s.database
      → (r : Return) → is_done (recovered r) ≡ false
      → (left : Session D) → Handled h task s (discard v before (recovered r) left)
  unfolding discard classify
  discard-Handled s before d r e left =
      go (rollback_to v before left) (rollback_to-Back v before left)
    where
      go :
          (b : Option String × Session D)
          → Back before b
          → Handled h task s (
            record (recovered r) {
              release_err = elim b.0 [
                | none ↦ none
                | some y ↦ some ("scheduler: rollback to savepoint: " ++ y)
              ];
            },
            b.1,
          )
      go _ (restored t k) = undone _ t (k ∙ d) (not_done r e)
      go _ (stuck y t k) = spoilt _ t k

  pub run_handler_with_savepoint-Handled :
      (s : Session D) → Handled h task s (run_handler_with_savepoint v h task s)
  unfolding run_handler_with_savepoint
  run_handler_with_savepoint-Handled s = go (call v s) (call-Called v s)
    where
      ran : Session D → HandlerResult × Session D
      ran b =
          if is_done (recovered (h task b).0)
          then release v b (h task b).1
          else discard v b (recovered (h task b).0) (h task b).1

      ran-Handled : (b : Session D) → b.database ≡ s.database → Handled h task s (ran b)
      ran-Handled b d = branch (is_done (recovered (h task b).0)) refl
        where
          branch :
              (x : Bool)
              → is_done (recovered (h task b).0) ≡ x
              → Handled h task s (
                  if x
                  then release v b (h task b).1
                  else discard v b (recovered (h task b).0) (h task b).1)
          branch true q = release-Handled s b d (done_returned (h task b).0 q)
          branch false q = discard-Handled s b d (h task b).0 q (h task b).1

      go :
          (r : Option String × Session D)
          → Called s r
          → Handled h task s (elim r.0 [
            | some e ↦ (
              record {
                outcome = failed;
                handler_err = some ("scheduler: savepoint: " ++ e);
                release_err = none;
                panicked = false;
              },
              r.1,
            )
            | none ↦ ran r.1
          ])
      go _ (answered n) = ran-Handled _ refl
      go _ (lost e t n k) = spoilt _ t n
