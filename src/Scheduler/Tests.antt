-- ===== src/Scheduler/Tests.antt =====
-- The theorems of the scheduler at concrete inputs.
use Prim.Native.String.{String}
use text.Mathlib.Text.{◌==◌}
use lab_game.Prelude.{
  ℕ, suc, ◌+◌, ◌≡◌, Bool, true, false, if◌then◌else◌, refl, sym, ◌∙◌, List, [], ◌∷◌, none, some,
  inl, inr, arith, map, some_inj,
}
use lab_game.Prelude.Int.{pos, ◌+ℤ◌, pos_part, ◌-ℤ◌, -ℤ_parts, one_part}
use lab_game.Prelude.Members.{◌∈◌, Distinct}
use lab_game.Scheduler.Task.{failed, Row, pending, Config, ok}
use lab_game.Scheduler.Session.{Server, Session, exec, call, read_settlement_instant}
use lab_game.Scheduler.Registry.{
  Handler, returned, Declaration, Entry, declaration, new_registry, register, check_declaration,
  check_recurrence,
}
use lab_game.Scheduler.Registry.Accepted.{IsEntryOf, new_registry-Accepted}
use lab_game.Scheduler.Settle.Meaning.{replace, settled}
use lab_game.Scheduler.Claim.{task_of, reclaim, find_row}
use lab_game.Scheduler.Settle.{settle_outcome, settle_failed, update_task}
use lab_game.Scheduler.Execute.{
  World, deferred, execute_one, open_task, read_execution_instant, attempt_task, run_declared,
  settle_and_after, finish, classify, commit,
}
use lab_game.Scheduler.Execute.Handle.{run_handler_with_savepoint, discard, rollback_to}
use lab_game.Scheduler.Execute.Refines.{Executed, execute_one-Executed}
use lab_game.Scheduler.Drain.{drain_one, drain_pending}
use lab_game.Scheduler.Drain.Deferred.{drain_one-settled}
use lab_game.Scheduler.Soundness.Runs.{IsSound, KeepsSound, HandlersKeep}
use lab_game.Scheduler.Soundness.Reachable.{here, next, executes, drains, Reach-IsSound}
use lab_game.Scheduler.GivesUp.{calm}
use lab_game.Scheduler.GivesUp.Eventually.{Eventually, GivenUp, gives_up}
use lab_game.Scheduler.Cadence.{every}
use lab_game.Scheduler.Cadence.CatchUp.{IsNextOccurrence, every-IsNextOccurrence}

-- Three occurrences were missed.
every-IsNextOccurrence_example :
    IsNextOccurrence 60 (pos 1000) (pos 1185) (every (pos 60) (pos 1000) (pos 1185))
every-IsNextOccurrence_example =
    every-IsNextOccurrence 60 (pos 1000) (pos 1185) (omega arith)
      (omega (arith, -ℤ_parts (pos 1185) (pos 1000), one_part (pos 1185 -ℤ pos 1000)))

abbrev three_attempts : Config
three_attempts = record {
  poll_interval = pos 10;
  claim_limit = 5;
  retry_max_attempts = 3;
  retry_max_delay = pos 100;
  task_timeout = pos 50;
  exponential = λ n. pos (5 + n);
}

-- A handler that counts its calls in the rest of the database, and fails.
abbrev failing : Handler ℕ
failing task s = (
  returned failed (some "no"),
  record s { database = record s.database { others = suc s.database.others } },
)

abbrev wave : Entry ℕ
wave = record { type = "wave"; handler = failing; recurrence = none }

abbrev row : Row
row = record {
  id = 7;
  type = "wave";
  instance_key = none;
  payload = "null";
  run_at = pos 0;
  state = pending;
  consecutive_failures = 1;
  last_error = none;
}

abbrev world : World ℕ
world = record {
  database = record { rows = row ∷ []; others = 0 };
  calls = 0;
  pending = [];
  observed = [];
}

abbrev ticking : Server
ticking = calm (λ n. pos n) (λ n. n)

execute_one-Executed_example :
    Executed ticking three_attempts
      (wave ∷ [])
      7
      world
      (execute_one ticking three_attempts (wave ∷ []) 7 1 world).1
execute_one-Executed_example = execute_one-Executed ticking three_attempts (wave ∷ []) 7 world 1

-- The clock stands at 7 when the failure is settled, and the second delay is 6.
failing_counts :
    (execute_one ticking three_attempts (wave ∷ []) 7 1 world).1.database.rows
    ≡ record row { consecutive_failures = 2; last_error = some "no"; run_at = pos 13 } ∷ []
unfolding execute_one open_task exec call reclaim read_execution_instant find_row
    read_settlement_instant attempt_task declaration run_declared settle_and_after
    run_handler_with_savepoint discard finish settle_outcome classify rollback_to ◌+ℤ◌ commit
    settle_failed update_task
failing_counts = refl

abbrev session : Session ℕ
session = record { database = world.database; aborted = false; calls = 0; now = pos 0 }

only_row : (x : Row) → x ∈ row ∷ [] → x.id ≡ 7 → x ≡ row
only_row x (inl e) i = e
only_row x (inr e) i = absurd e

drain_one-settled_example :
    ((drain_one ticking three_attempts (deferred (task_of row) none "late") (pos 9) session).0
      ≡ ok true)
    × ((drain_one ticking three_attempts
          (deferred (task_of row) none "late")
          (pos 9)
          session).1.database.rows
        ≡ replace 7 (settled three_attempts (task_of row) none failed "late" (pos 9)) (row ∷ []))
drain_one-settled_example =
    drain_one-settled ticking three_attempts (pos 9) session row none "late" (inl refl) only_row
      refl refl refl refl

abbrev all_waves : ℕ → String
all_waves id = "wave"

handlers_keep : HandlersKeep three_attempts (wave ∷ []) all_waves
unfolding declaration
handlers_keep t d = go ("wave" == t)
  where
    go :
        (b : Bool)
        → (if b then some wave else none) ≡ some d
        → KeepsSound three_attempts (wave ∷ []) all_waves d.handler
    go true e = rw (sym (some_inj wave d e)) (λ task s h. h)
    go false e = absurd (cc)

world-IsSound : IsSound three_attempts (wave ∷ []) all_waves world
world-IsSound = record {
  rows = record {
    each = λ r m. elim m [
      | inl e ↦
          rw e (record { typed = refl; gave_up = λ s. absurd (cc); retries = λ s one. omega arith })
      | inr n ↦ absurd n
    ];
    unique = λ x y m n i. elim m [
      | inl e ↦ elim n [ inl f ↦ e ∙ sym f | inr k ↦ absurd k ]
      | inr k ↦ absurd k
    ];
  };
  settlements = λ p m. absurd m;
}

abbrev after_two : World ℕ
after_two =
    (drain_pending ticking three_attempts
      (execute_one ticking three_attempts (wave ∷ []) 7 1 world).1).1

Reach-IsSound_example : IsSound three_attempts (wave ∷ []) all_waves after_two
Reach-IsSound_example =
    Reach-IsSound {v = ticking} world after_two (omega arith) handlers_keep world-IsSound
      (next (next here (executes world 7 1)) (drains _))

wave_declared : declaration (wave ∷ []) "wave" ≡ some wave
unfolding declaration
wave_declared = refl

gives_up_example :
    Eventually
      (λ n. pos n)
      (λ n. n)
      three_attempts
      (wave ∷ [])
      7
      (GivenUp (λ n. pos n) (λ n. n) three_attempts (wave ∷ []) 7)
      world
gives_up_example =
    gives_up (λ n. pos n) (λ n. n) three_attempts (wave ∷ []) 7 wave
      (λ t. (pos_part t, λ k le. omega arith)) 1 world row wave_declared refl
      (λ task s. (some "no", refl)) (record { present = inl refl; named = refl; alone = only_row })
      refl refl

abbrev declared : Declaration ℕ
declared = record {
  type = "wave";
  handler = some failing;
  recurrence = some (some (every (pos 60)), "wave.period");
}

abbrev accepted : List (Entry ℕ)
accepted =
    record {
      type = "wave";
      handler = failing;
      recurrence = some (record { cadence = every (pos 60); config_key = "wave.period" });
    }
    ∷ []

accepts : new_registry (declared ∷ []) ≡ inr accepted
unfolding new_registry register check_declaration check_recurrence declaration
accepts = refl

new_registry-Accepted_example :
    Distinct (map (λ (d : Declaration ℕ). d.type) (declared ∷ []))
    × ((d : Declaration ℕ)
        → d ∈ declared ∷ []
        → (e : Entry ℕ) × IsEntryOf d e × (declaration accepted d.type ≡ some e))
new_registry-Accepted_example = new_registry-Accepted (declared ∷ []) accepted accepts
