-- ===== src/Scheduler/Soundness/Rows.antt =====
-- The rows that the scheduler's table may hold, and the changes that keep them so.
use Prim.Native.String.{String}
use mathlib.Core.Path.{subst}
use lab_game.Prelude.{
  ℕ, suc, ◌-◌, ◌≤◌, ◌<◌, ◌≡◌, ◌≢◌, refl, sym, ap, ◌∙◌, leb, Bool, true, false, if◌then◌else◌, List,
  Option, none, some, ◌⊎◌, inl, inr, arith, some_inj,
}
use lab_game.Prelude.Int.{ℤ, ◌+ℤ◌}
use lab_game.Prelude.Members.{◌∈◌, mem-map}
use lab_game.Scheduler.Task.{
  Task, Outcome, done, noop, failed, other, Row, pending, dead, Config, Recurrence,
  PendingSettlement,
}
use lab_game.Scheduler.Registry.{Entry, declaration}
use lab_game.Scheduler.Settle.{set_next, set_dead, set_failed}
use lab_game.Scheduler.Settle.Meaning.{replace, settled, failed_row}
use lab_game.Scheduler.Drain.{update_where}
use lab_game.Scheduler.Soundness.Origins.{Origin, mem-replace}

abbrev pub IsOneShot : {D : Type 0} → List (Entry D) → String → Type 0
IsOneShot {D} decls t = (d : Entry D) × (declaration decls t ≡ some d) × (d.recurrence ≡ none)

one_recurrence :
    {D : Type 0} (decls : List (Entry D)) (t : String) (d : Entry D)
    → declaration decls t ≡ some d
    → IsOneShot decls t
    → d.recurrence ≡ none
one_recurrence decls t d e (x, h, n) = ap (λ y. y.recurrence) (some_inj d x (sym e ∙ h)) ∙ n

pub failed_row-id :
    (c : Config) (rec : Option Recurrence) (k : ℕ) (due : ℤ) (reason : String) (at : ℤ) (x : Row)
    → (failed_row c rec k due reason at x).id ≡ x.id
failed_row-id c (some r) k due reason at x = refl
failed_row-id c none k due reason at x = go (leb c.retry_max_attempts (suc k))
  where
    go :
        (b : Bool)
        → ((if b
              then set_dead (suc k) reason
              else set_failed (suc k) reason (at +ℤ c.exponential (suc k - 1)))
            x).id
          ≡ x.id
    go true = refl
    go false = refl

-- The ids do not stand for two types: `type_of` is the type of the row that an id was given to.
module _ {D : Type 0} (c : Config) (decls : List (Entry D)) (type_of : ℕ → String) where
  -- A dead row is a one-shot task with the configured number of failures. A pending one-shot has had fewer.
  pub record IsSoundRow (r : Row) : Type 0 where
    pub typed : r.type ≡ type_of r.id
    pub gave_up :
        r.state ≡ dead → IsOneShot decls r.type × (c.retry_max_attempts ≤ r.consecutive_failures)
    pub retries :
        r.state ≡ pending → IsOneShot decls r.type → r.consecutive_failures < c.retry_max_attempts

  pub record AreSound (rows : List Row) : Type 0 where
    pub each : (r : Row) → r ∈ rows → IsSoundRow r
    pub unique : (x y : Row) → x ∈ rows → y ∈ rows → x.id ≡ y.id → x ≡ y

  -- The recurrence of a pending settlement is that of its task's declaration.
  abbrev pub IsSoundPending : PendingSettlement → Type 0
  IsSoundPending p =
      (d : Entry D) × (declaration decls (type_of p.id) ≡ some d) × (p.recurrence ≡ d.recurrence)

module _ {D : Type 0} {c : Config} {decls : List (Entry D)} {type_of : ℕ → String} where
  pub failed_row-IsSoundRow :
      (x : Row) (d : Entry D) (rec : Option Recurrence) (k : ℕ) (due : ℤ) (reason : String) (at : ℤ)
      → IsSoundRow c decls type_of x
      → x.state ≡ pending
      → declaration decls x.type ≡ some d
      → d.recurrence ≡ rec
      → IsSoundRow c decls type_of (failed_row c rec k due reason at x)
  failed_row-IsSoundRow x d (some r) k due reason at h st e q = record {
    typed = h.typed;
    gave_up = λ s. absurd (cc);
    retries = λ s one. let n = one_recurrence decls x.type d e one in absurd (cc);
  }
  failed_row-IsSoundRow x d none k due reason at h st e q =
      go (leb c.retry_max_attempts (suc k)) refl
    where
      go :
          (b : Bool)
          → leb c.retry_max_attempts (suc k) ≡ b
          → IsSoundRow c decls type_of (
              (if b
                  then set_dead (suc k) reason
                  else set_failed (suc k) reason (at +ℤ c.exponential (suc k - 1)))
                x)
      go true l = record {
        typed = h.typed;
        gave_up = λ s. ((d, e, q), ground arith);
        retries = λ s one. absurd (cc);
      }
      go false l = record {
        typed = h.typed;
        gave_up = λ s. absurd (cc);
        retries = λ s one. ground arith;
      }

  -- A settlement other than a failure needs no pending row.
  pub settled-IsSoundRow :
      (task : Task) (x y : Row) (d : Entry D) (o : Outcome) (reason : String) (at : ℤ)
      → IsSoundRow c decls type_of x
      → (o ≡ failed → x.state ≡ pending)
      → declaration decls x.type ≡ some d
      → settled c task d.recurrence o reason at x ≡ some y
      → IsSoundRow c decls type_of y × (y.id ≡ x.id)
  settled-IsSoundRow task x y d o reason at h st e q = go o d.recurrence refl st q
    where
      rescheduled :
          (r : Recurrence) (next : ℤ)
          → d.recurrence ≡ some r
          → IsSoundRow c decls type_of (set_next next x)
      rescheduled r next m = record {
        typed = h.typed;
        gave_up = λ s. let n = one_recurrence decls x.type d e (h.gave_up s).0 in absurd (cc);
        retries = λ s one. let n = one_recurrence decls x.type d e one in absurd (cc);
      }

      same :
          (z : Row)
          → IsSoundRow c decls type_of z
          → z.id ≡ x.id
          → some z ≡ some y
          → IsSoundRow c decls type_of y × (y.id ≡ x.id)
      same z k i m =
          let n = some_inj z y m in
          (subst (IsSoundRow c decls type_of) n k, ap (λ u. u.id) (sym n) ∙ i)

      go :
          (o : Outcome) (rec : Option Recurrence)
          → d.recurrence ≡ rec
          → (o ≡ failed → x.state ≡ pending)
          → settled c task rec o reason at x ≡ some y
          → IsSoundRow c decls type_of y × (y.id ≡ x.id)
      go done none m st q = absurd (cc)
      go done (some r) m st q =
          same (set_next (r.cadence task.run_at at) x) (rescheduled r (r.cadence task.run_at at) m)
            refl q
      go noop none m st q = absurd (cc)
      go noop (some r) m st q =
          same (set_next (r.cadence task.run_at at) x) (rescheduled r (r.cadence task.run_at at) m)
            refl q
      go failed none m st q =
          same (failed_row c none task.consecutive_failures task.run_at reason at x)
            (failed_row-IsSoundRow x d none task.consecutive_failures task.run_at reason at h
              (st refl) e m)
            (failed_row-id c none task.consecutive_failures task.run_at reason at x) q
      go failed (some r) m st q =
          same (failed_row c (some r) task.consecutive_failures task.run_at reason at x)
            (failed_row-IsSoundRow x d (some r) task.consecutive_failures task.run_at reason at h
              (st refl) e m)
            refl q
      go other rec m st q = same x h refl q

  pub replace-AreSound :
      (id : ℕ) (f : Row → Option Row) (rows : List Row)
      → AreSound c decls type_of rows
      → ((x y : Row)
          → x ∈ rows
          → x.id ≡ id
          → f x ≡ some y
          → IsSoundRow c decls type_of y × (y.id ≡ x.id))
      → AreSound c decls type_of (replace id f rows)
  replace-AreSound id f rows h k = record {
    each = λ y m. sound y (mem-replace id f rows y m);
    unique = λ a b m n e. one a b (mem-replace id f rows a m) (mem-replace id f rows b n) e;
  }
    where
      sound : (y : Row) → Origin id f rows y → IsSoundRow c decls type_of y
      sound y (x, m, inl (i, e)) = (k x y m i e).0
      sound y (x, m, inr (n, e)) = rw e (h.each x m)

      id_of : (y : Row) (o : Origin id f rows y) → y.id ≡ o.0.id
      id_of y (x, m, inl (i, e)) = (k x y m i e).1
      id_of y (x, m, inr (n, e)) = ap (λ u. u.id) e

      one : (a b : Row) → Origin id f rows a → Origin id f rows b → a.id ≡ b.id → a ≡ b
      one a b (x, m, o) (z, n, q) e =
          image a b x z (h.unique x z m n (sym (id_of a (x, m, o)) ∙ e ∙ id_of b (z, n, q))) o q
        where
          image :
              (a b x z : Row)
              → x ≡ z
              → ((x.id ≡ id) × (f x ≡ some a)) ⊎ ((x.id ≢ id) × (a ≡ x))
              → ((z.id ≡ id) × (f z ≡ some b)) ⊎ ((z.id ≢ id) × (b ≡ z))
              → a ≡ b
          image a b x z same (inl (i, u)) (inl (j, w)) = some_inj a b (sym u ∙ ap f same ∙ w)
          image a b x z same (inl (i, u)) (inr (j, w)) = absurd (j (ap (λ r. r.id) (sym same) ∙ i))
          image a b x z same (inr (i, u)) (inl (j, w)) = absurd (i (ap (λ r. r.id) same ∙ j))
          image a b x z same (inr (i, u)) (inr (j, w)) = u ∙ same ∙ sym w

  -- The rows that a condition picks are changed and keep their ids.
  pub update_where-AreSound :
      (q : Row → Bool) (f : Row → Row) (rows : List Row)
      → AreSound c decls type_of rows
      → ((x : Row) → x ∈ rows → q x ≡ true → IsSoundRow c decls type_of (f x) × ((f x).id ≡ x.id))
      → AreSound c decls type_of (update_where q f rows)
  update_where-AreSound q f rows h k = record {
    each = λ y m. let (x, n, e) = (mem-map changed y rows).0 m in rw e (sound x n (q x) refl).0;
    unique = λ a b m n e.
        let (x, i, u) = (mem-map changed a rows).0 m in
        let (z, j, w) = (mem-map changed b rows).0 n in
        u
        ∙ ap changed (
            h.unique x z i j (
              sym (sound x i (q x) refl).1
              ∙ ap (λ r. r.id) (sym u)
              ∙ e
              ∙ ap (λ r. r.id) w
              ∙ (sound z j (q z) refl).1))
        ∙ sym w;
  }
    where
      changed : Row → Row
      changed x = if q x then f x else x

      sound :
          (x : Row)
          → x ∈ rows
          → (b : Bool) → q x ≡ b
          → IsSoundRow c decls type_of (if b then f x else x) × ((if b then f x else x).id ≡ x.id)
      sound x m true e = k x m e
      sound x m false e = (h.each x m, refl)
