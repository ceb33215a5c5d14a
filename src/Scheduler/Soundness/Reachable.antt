-- ===== src/Scheduler/Soundness/Reachable.antt =====
-- About every run: cycles of the worker, drains, and insertions, in any order.
use Prim.Native.String.{String}
use lab_game.Prelude.{
  ℕ, ◌<◌, ◌≡◌, ◌≢◌, refl, sym, ap, ◌∙◌, Bool, true, false, if◌then◌else◌, List, ◌∷◌, Option, none,
  some, inl, inr,
}
use lab_game.Prelude.Int.{ℤ, pos, ltb_ℤ, ◌+ℤ◌}
use lab_game.Prelude.Members.{◌∈◌}
use lab_game.Scheduler.Task.{
  Row, Config, Result, ok, err, failed_call, duplicate_task, unknown_type, invalid_delay,
  invalid_payload, Error,
}
use lab_game.Scheduler.Session.{Server, Session, fail, call, change}
use lab_game.Scheduler.Registry.{Entry, declaration}
use lab_game.Scheduler.Settle.Meaning.{Called, answered, lost, call-Called}
use lab_game.Scheduler.Claim.{find_row}
use lab_game.Scheduler.Execute.{World, execute_one}
use lab_game.Scheduler.Drain.{drain_pending, alone, committed}
use lab_game.Scheduler.Schedule.{
  Request, schedule, insert_task, checked_payload, new_row, nullif, conflicts,
}
use lab_game.Scheduler.Soundness.Rows.{AreSound, IsSoundRow}
use lab_game.Scheduler.Soundness.Runs.{
  IsSound, HandlersKeep, execute_one-IsSound, drain_pending-IsSound,
}

-- What an insertion leaves: the rows, or the rows and a fresh one.
data Inserts {D : Type 0} (v : Server) (req : Request) (s : Session D)
    : Result ℕ × Session D → Type 0 where
  refuses : (e : Error) (t : Session D) → t.database ≡ s.database → Inserts v req s (err e, t)
  inserts :
      (key : Option String) (payload : String) (at : ℤ) (t : Session D)
      → t.database ≡ record s.database {
        rows = new_row (v.sequence s.calls) req.type key payload at ∷ s.database.rows;
      }
      → Inserts v req s (ok (v.sequence s.calls), t)

module _ {D : Type 0} (v : Server) (req : Request) (s : Session D) where
  insert_task-Inserts : (payload : String) → Inserts v req s (insert_task v req payload s)
  unfolding insert_task
  insert_task-Inserts payload =
      go (call v s) (call-Called v s) (find_row (conflicts req.type key) s.database.rows)
    where
      key : Option String
      key = nullif req.instance_key

      row : Row
      row = new_row (v.sequence s.calls) req.type key payload (v.clock s.calls +ℤ req.delay)

      go :
          (q : Option String × Session D)
          → Called s q
          → (o : Option Row)
          → Inserts v req s (elim q.0 [
            | some e ↦ (err (failed_call "scheduler: insert scheduled_task" e), q.1)
            | none ↦ elim o as (λ x. Result ℕ × Session D) [
              | some r ↦ (err duplicate_task, q.1)
              | none ↦ (ok row.id, change (λ rows. row ∷ rows) q.1)
            ]
          ])
      go _ (answered n) none = inserts key payload _ _ refl
      go _ (answered n) (some r) = refuses _ _ refl
      go _ (lost e t n d) o = refuses _ t d

  schedule-Inserts :
      (valid_json : String → Bool) (decls : List (Entry D))
      → Inserts v req s (schedule v valid_json decls req s)
  unfolding schedule
  schedule-Inserts valid_json decls =
      go (declaration decls req.type) (ltb_ℤ req.delay (pos 0))
        (checked_payload valid_json req.payload)
    where
      go :
          (o : Option (Entry D)) (b : Bool) (p : Option String)
          → Inserts v req s (
              (elim o as (λ x. Session D → Result ℕ × Session D) [
                | none ↦ fail unknown_type
                | some d ↦
                    if b
                    then fail invalid_delay
                    else elim p as (λ x. Session D → Result ℕ × Session D) [
                      | none ↦ fail invalid_payload
                      | some payload ↦ insert_task v req payload
                    ]
              ])
                s)
      go none b p = refuses _ s refl
      go (some d) true p = refuses _ s refl
      go (some d) false none = refuses _ s refl
      go (some d) false (some payload) = insert_task-Inserts payload

-- A fresh row is sound where retries are allowed at all.
insert-AreSound :
    {D : Type 0} (c : Config) (decls : List (Entry D)) (type_of : ℕ → String) (rows : List Row)
    (id : ℕ) (t : String) (key : Option String) (payload : String) (at : ℤ)
    → 0 < c.retry_max_attempts
    → AreSound c decls type_of rows
    → ((x : Row) → x ∈ rows → x.id ≢ id)
    → t ≡ type_of id
    → AreSound c decls type_of (new_row id t key payload at ∷ rows)
insert-AreSound c decls type_of rows id t key payload at some_try h fresh typed = record {
  each = λ r m. elim m [ inl e ↦ rw e new_sound | inr n ↦ h.each r n ];
  unique = λ x y m n e. one x y m n e;
}
  where
    row : Row
    row = new_row id t key payload at

    new_sound : IsSoundRow c decls type_of row
    new_sound = record { typed = typed; gave_up = λ s. absurd (cc); retries = λ s one. some_try }

    one : (x y : Row) → x ∈ row ∷ rows → y ∈ row ∷ rows → x.id ≡ y.id → x ≡ y
    one x y (inl e) (inl f) i = e ∙ sym f
    one x y (inl e) (inr n) i = absurd (fresh y n (sym i ∙ ap (λ r. r.id) e))
    one x y (inr m) (inl f) i = absurd (fresh x m (i ∙ ap (λ r. r.id) f))
    one x y (inr m) (inr n) i = h.unique x y m n i

-- A step of the system: a cycle of one id, a drain, or a transaction of its own that schedules a task under an id
-- that the sequence has not given before.
pub data Step {D : Type 0} (v : Server) (c : Config) (decls : List (Entry D)) (type_of : ℕ → String)
    : World D → World D → Type 0 where
  executes :
      (w : World D) (id batch : ℕ) → Step v c decls type_of w (execute_one v c decls id batch w).1
  drains : (w : World D) → Step v c decls type_of w (drain_pending v c w).1
  schedules :
      (w : World D) (valid_json : String → Bool) (req : Request)
      → ((x : Row) → x ∈ w.database.rows → x.id ≢ v.sequence w.calls)
      → req.type ≡ type_of (v.sequence w.calls)
      → Step v c decls type_of w (committed v c (schedule v valid_json decls req (alone v c w)).1 w)

pub data Reach {D : Type 0} (v : Server) (c : Config) (decls : List (Entry D))
    (type_of : ℕ → String) (w : World D) : World D → Type 0 where
  here : Reach v c decls type_of w w
  next :
      {x y : World D}
      → Reach v c decls type_of w x
      → Step v c decls type_of x y
      → Reach v c decls type_of w y

module _ {D : Type 0} {v : Server} {c : Config} {decls : List (Entry D)}
    {type_of : ℕ → String} where
  schedules-IsSound :
      (req : Request) (w : World D)
      → 0 < c.retry_max_attempts
      → IsSound c decls type_of w
      → ((x : Row) → x ∈ w.database.rows → x.id ≢ v.sequence w.calls)
      → req.type ≡ type_of (v.sequence w.calls)
      → (q : Result ℕ × Session D) → Inserts v req (alone v c w) q
      → IsSound c decls type_of (committed v c q.1 w)
  schedules-IsSound req w some_try h fresh typed _ (refuses e t d) = record {
    rows = rw d h.rows;
    settlements = h.settlements;
  }
  schedules-IsSound req w some_try h fresh typed _ (inserts key payload at t d) = record {
    rows = rw d (
        insert-AreSound c decls type_of w.database.rows (v.sequence w.calls) req.type key payload at
          some_try h.rows fresh typed);
    settlements = h.settlements;
  }

  Step-IsSound :
      {w w' : World D}
      → 0 < c.retry_max_attempts
      → HandlersKeep c decls type_of
      → Step v c decls type_of w w'
      → IsSound c decls type_of w
      → IsSound c decls type_of w'
  Step-IsSound some_try keep (executes w id batch) h = execute_one-IsSound v id batch w keep h
  Step-IsSound some_try keep (drains w) h = drain_pending-IsSound v w h
  Step-IsSound some_try keep (schedules w valid_json req fresh typed) h =
      schedules-IsSound req w some_try h fresh typed _
        (schedule-Inserts v req (alone v c w) valid_json decls)

  -- Over every run from a sound world the table stays sound, whatever fails: a row is dead only if its type is a
  -- declared one-shot with the configured number of failures, so that a recurrent or undeclared type never dies,
  -- and a pending one-shot has had fewer. Handlers leave sound tables, and the sequence gives no id twice.
  pub Reach-IsSound :
      (w w' : World D)
      → 0 < c.retry_max_attempts
      → HandlersKeep c decls type_of
      → IsSound c decls type_of w
      → Reach v c decls type_of w w'
      → IsSound c decls type_of w'
  Reach-IsSound w _ some_try keep h here = h
  Reach-IsSound w w' some_try keep h (next r s) =
      Step-IsSound some_try keep s (Reach-IsSound w _ some_try keep h r)
