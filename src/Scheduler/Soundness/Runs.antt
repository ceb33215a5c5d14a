-- ===== src/Scheduler/Soundness/Runs.antt =====
-- The runs of a worker and of those who schedule tasks, and what each step keeps: executeOne, drainPending and
-- Schedule of internal/scheduler.
use Prim.Native.String.{String}
use mathlib.Core.Path.{subst}
use lab_game.Prelude.{
  ℕ, suc, ◌≡◌, refl, sym, ap, ◌∙◌, ◌==◌, ◌&&◌, not, Bool, true, false, if◌then◌else◌, List, [], ◌∷◌,
  Option, none, some, inl, inr, arith, some_inj,
}
use lab_game.Prelude.Int.{ℤ}
use lab_game.Prelude.Members.{◌∈◌}
use lab_game.Scheduler.Task.{
  Task, Outcome, done, failed, Row, pending, Config, PendingSettlement, failed_call, failed_task,
  Result, ok, err,
}
use lab_game.Scheduler.Session.{Server, Session, call}
use lab_game.Scheduler.Registry.{Entry, Handler, declaration}
use lab_game.Scheduler.Settle.Meaning.{replace, settled}
use lab_game.Scheduler.Claim.{task_of, is_pending}
use lab_game.Scheduler.Execute.{World, without, deferred, execute_one}
use lab_game.Scheduler.Execute.Attempts.{Attempted, unchanged, completed, discarded, postponed}
use lab_game.Scheduler.Execute.Claimed.{Claimed, is_pending_iff}
use lab_game.Scheduler.Execute.Refines.{Executed, idle, refused, attempted, execute_one-Executed}
use lab_game.Scheduler.Drain.{drain_one, drain_items, drain_pending, alone, committed}
use lab_game.Scheduler.Drain.Drains.{
  applied, moved_on, locked, failing, Drains, drain_one-Drains, candidate,
}
use lab_game.Scheduler.Soundness.Rows.{
  AreSound, IsSoundRow, IsSoundPending, replace-AreSound, update_where-AreSound, settled-IsSoundRow,
  failed_row-IsSoundRow, failed_row-id,
}

candidate_parts :
    (i j : ℕ) (b l f : Bool) → ((i == j && (b && l)) && f) ≡ true → (i ≡ j) × (b ≡ true)
candidate_parts i j b l f h = ground arith

mem-without :
    (id : ℕ) (q : PendingSettlement) (ps : List PendingSettlement) → q ∈ without id ps → q ∈ ps
mem-without id q [] m = m
mem-without id q (p ∷ ps) m = go (p.id == id) m (mem-without id q ps)
  where
    go :
        (b : Bool)
        → q ∈ (if not b then p ∷ without id ps else without id ps)
        → (q ∈ without id ps → q ∈ ps)
        → q ∈ p ∷ ps
    go true n ih = inr (ih n)
    go false (inl n) ih = inl n
    go false (inr n) ih = inr (ih n)

module _ {D : Type 0} (c : Config) (decls : List (Entry D)) (type_of : ℕ → String) where
  -- A handler leaves a sound table of a sound one.
  abbrev pub KeepsSound : Handler D → Type 0
  KeepsSound h =
      (task : Task) (s : Session D)
      → AreSound c decls type_of s.database.rows
      → AreSound c decls type_of (h task s).1.database.rows

  pub record IsSound (w : World D) : Type 0 where
    pub rows : AreSound c decls type_of w.database.rows
    pub settlements : (p : PendingSettlement) → p ∈ w.pending → IsSoundPending c decls type_of p

  abbrev pub HandlersKeep : Type 0
  HandlersKeep = (t : String) (d : Entry D) → declaration decls t ≡ some d → KeepsSound d.handler

module _ {D : Type 0} {c : Config} {decls : List (Entry D)} {type_of : ℕ → String} where
  same-IsSound :
      (w w' : World D)
      → IsSound c decls type_of w
      → w'.database ≡ w.database
      → w'.pending ≡ w.pending
      → IsSound c decls type_of w'
  same-IsSound w w' h d p = record {
    rows = subst (λ y. AreSound c decls type_of y.rows) (sym d) h.rows;
    settlements =
        subst (λ y. (q : PendingSettlement) → q ∈ y → IsSoundPending c decls type_of q) (sym p)
          h.settlements;
  }

  changed-IsSound :
      (w w' : World D) (rows : List Row)
      → IsSound c decls type_of w
      → AreSound c decls type_of rows
      → w'.database.rows ≡ rows
      → w'.pending ≡ w.pending
      → IsSound c decls type_of w'
  changed-IsSound w w' rows h k d p = record {
    rows = subst (AreSound c decls type_of) (sym d) k;
    settlements =
        subst (λ y. (q : PendingSettlement) → q ∈ y → IsSoundPending c decls type_of q) (sym p)
          h.settlements;
  }

  settled-AreSound :
      (r : Row) (d : Entry D) (o : Outcome) (reason : String) (at : ℤ) (rows : List Row)
      → AreSound c decls type_of rows
      → r.type ≡ type_of r.id
      → declaration decls r.type ≡ some d
      → ((x : Row) → x ∈ rows → x.id ≡ r.id → o ≡ failed → x.state ≡ pending)
      → AreSound c decls type_of
          (replace r.id (settled c (task_of r) d.recurrence o reason at) rows)
  settled-AreSound r d o reason at rows h t e st = replace-AreSound r.id _ rows h (λ x y m i q.
      settled-IsSoundRow (task_of r) x y d o reason at (h.each x m) (st x m i)
        (ap (declaration decls) ((h.each x m).typed ∙ ap type_of i ∙ sym t) ∙ e) q)

  Attempted-IsSound :
      (r : Row) (d : Entry D) (w w' : World D) (now : ℤ) (id : ℕ)
      → IsSound c decls type_of w
      → KeepsSound c decls type_of d.handler
      → Claimed w.database.rows now id r
      → declaration decls r.type ≡ some d
      → Attempted c r d w w'
      → IsSound c decls type_of w'
  Attempted-IsSound r d w w' now id h keeps claim e (unchanged a b x) = same-IsSound w w' h a b
  Attempted-IsSound r d w w' now id h keeps claim e (completed before at b ret rows others p x) =
      changed-IsSound w w' _ h
        (settled-AreSound r d done "" at _
          (keeps (task_of r) before (subst (λ y. AreSound c decls type_of y.rows) (sym b) h.rows))
          ((h.rows.each r claim.0).typed) e (λ x m i q. absurd (cc)))
        rows p
  Attempted-IsSound r d w w' now id h keeps claim e (discarded o reason at ne rows others p x) =
      changed-IsSound w w' _ h
        (settled-AreSound r d o reason at w.database.rows h.rows ((h.rows.each r claim.0).typed) e
          (λ x m i q. ap (λ y. y.state) (h.rows.unique x r m claim.0 i) ∙ claim.2))
        rows p
  Attempted-IsSound r d w w' now id h keeps claim e (postponed reason db p x) = record {
    rows = subst (λ y. AreSound c decls type_of y.rows) (sym db) h.rows;
    settlements =
        subst (λ y. (q : PendingSettlement) → q ∈ y → IsSoundPending c decls type_of q) (sym p) put;
  }
    where
      put :
          (q : PendingSettlement)
          → q ∈ deferred (task_of r) d.recurrence reason ∷ without r.id w.pending
          → IsSoundPending c decls type_of q
      put q (inl n) = rw n (d, ap (declaration decls) (sym (h.rows.each r claim.0).typed) ∙ e, refl)
      put q (inr n) = h.settlements q (mem-without r.id q w.pending n)

  pub execute_one-IsSound :
      (v : Server) (id batch : ℕ) (w : World D)
      → HandlersKeep c decls type_of
      → IsSound c decls type_of w
      → IsSound c decls type_of (execute_one v c decls id batch w).1
  execute_one-IsSound v id batch w keep h =
      go (execute_one v c decls id batch w).1 (execute_one-Executed v c decls id w batch)
    where
      go : (w' : World D) → Executed v c decls id w w' → IsSound c decls type_of w'
      go w' (idle d p o) = same-IsSound w w' h d p
      go w' (refused r at claim none_such rows others p x) =
          changed-IsSound w w' _ h
            (replace-AreSound r.id _ w.database.rows h.rows (λ z y m i q.
              let k = h.rows.each z m in
              subst (λ u. IsSoundRow c decls type_of u × (u.id ≡ z.id)) (some_inj _ y q)
                (record { typed = k.typed; gave_up = k.gave_up; retries = k.retries }, refl)))
            rows p
      go w' (attempted r d claim e a) =
          Attempted-IsSound r d w w' _ id h (keep r.type d e) claim e a

  drained_rows :
      (v : Server) (p : PendingSettlement) (at : ℤ) (s : Session D)
      → AreSound c decls type_of s.database.rows
      → IsSoundPending c decls type_of p
      → (q : Result Bool × Session D) → Drains v c p at s q
      → AreSound c decls type_of q.1.database.rows
  drained_rows v p at s h k _ (applied t n rows others) =
      subst (AreSound c decls type_of) (sym rows) (
        update_where-AreSound (candidate v p s) _ s.database.rows h (λ x m e.
          let (same, state) = candidate_parts x.id p.id (is_pending x.state) _ _ e in
          let (d, found, rec) = k in
          (
            failed_row-IsSoundRow x d p.recurrence p.consecutive_failures p.run_at p.reason at
                (h.each x m) (is_pending_iff x.state state)
                (ap (declaration decls) ((h.each x m).typed ∙ ap type_of same) ∙ found) (sym rec),
            failed_row-id c p.recurrence p.consecutive_failures p.run_at p.reason at x,
          )))
  drained_rows v p at s h k _ (moved_on t n d) =
      subst (λ y. AreSound c decls type_of y.rows) (sym d) h
  drained_rows v p at s h k _ (locked t r m n d) =
      subst (λ y. AreSound c decls type_of y.rows) (sym d) h
  drained_rows v p at s h k _ (failing e t d n) =
      subst (λ y. AreSound c decls type_of y.rows) (sym d) h

  drain_items-IsSound :
      (v : Server) (ps : List PendingSettlement) (at : ℤ) (w : World D)
      → ((p : PendingSettlement) → p ∈ ps → IsSoundPending c decls type_of p)
      → IsSound c decls type_of w
      → IsSound c decls type_of (drain_items v c ps at w).1
  unfolding drain_items
  drain_items-IsSound v [] at w k h = h
  drain_items-IsSound v (p ∷ ps) at w k h =
      go (λ u. drain_items-IsSound v ps at u (λ q m. k q (inr m)))
        (drain_one v c p at (alone v c w)).0
    where
      next : World D
      next = committed v c (drain_one v c p at (alone v c w)).1 w

      next-IsSound : IsSound c decls type_of next
      next-IsSound = record {
        rows =
            drained_rows v p at (alone v c w) h.rows (k p (inl refl)) _
              (drain_one-Drains v c p at (alone v c w));
        settlements = h.settlements;
      }

      less : World D
      less = record next { pending = without p.id next.pending }

      less-IsSound : IsSound c decls type_of less
      less-IsSound = record {
        rows = next-IsSound.rows;
        settlements = λ q m. h.settlements q (mem-without p.id q w.pending m);
      }

      go :
          ((u : World D)
            → IsSound c decls type_of u
            → IsSound c decls type_of (drain_items v c ps at u).1)
          → (r : Result Bool)
          → IsSound c decls type_of
              (elim r as (λ x. Result (Unit {0}) × World D) [
                | err e ↦ (err (failed_task "scheduler: drain task" p.id e), next)
                | ok gone ↦ if gone then drain_items v c ps at less else drain_items v c ps at next
              ]).1
      go ih (err e) = next-IsSound
      go ih (ok true) = ih less less-IsSound
      go ih (ok false) = ih next next-IsSound

  pub drain_pending-IsSound :
      (v : Server) (w : World D)
      → IsSound c decls type_of w
      → IsSound c decls type_of (drain_pending v c w).1
  unfolding drain_pending
  drain_pending-IsSound v w h = go w.pending (call v (alone v c w)).0
    where
      next : World D
      next = record w { calls = suc w.calls }

      next-IsSound : IsSound c decls type_of next
      next-IsSound = record { rows = h.rows; settlements = h.settlements }

      drained : Result (Unit {0}) × World D
      drained = drain_items v c w.pending (v.clock w.calls) next

      go :
          (ps : List PendingSettlement) (o : Option String)
          → IsSound c decls type_of
              (elim ps as (λ x. Result (Unit {0}) × World D) [
                | [] ↦ (ok tt, w)
                | _ ∷ _ ↦ elim o as (λ x. Result (Unit {0}) × World D) [
                  | some e ↦ (err (failed_call "scheduler: read drain instant" e), next)
                  | none ↦ drained
                ]
              ]).1
      go [] o = h
      go (p ∷ ps) (some e) = next-IsSound
      go (p ∷ ps) none =
          drain_items-IsSound v w.pending (v.clock w.calls) next h.settlements next-IsSound
