-- ===== src/Scheduler/GivesUp/Eventually.antt =====
-- Cycle after cycle, as time goes on.
use Prim.Native.String.{String}
use mathlib.Core.Path.{subst}
use lab_game.Prelude.{
  ℕ, suc, zero, ◌+◌, ◌≤◌, ◌≡◌, ◌≢◌, refl, sym, ap, ◌∙◌, ◌==◌, leb, ◌&&◌, not, Bool, true, false,
  if◌then◌else◌, List, [], ◌∷◌, none, some, inl, inr, arith, ==_iff,
}
use lab_game.Prelude.Int.{ℤ, ◌≤ℤ◌, leb_ℤ}
use lab_game.Prelude.Members.{◌∈◌, mem-map}
use lab_game.Scheduler.Task.{Row, pending, dead, Config}
use lab_game.Scheduler.Registry.{Entry, declaration}
use lab_game.Scheduler.Settle.{update_task, set_dead, set_failed}
use lab_game.Scheduler.Claim.{is_pending, find_row}
use lab_game.Scheduler.Execute.{World}
use lab_game.Scheduler.GivesUp.{poll, claimable, poll_skips, poll_fails, AlwaysFails}

find_one :
    (p : Row → Bool) (rows : List Row) (r : Row)
    → r ∈ rows
    → p r ≡ true
    → ((x : Row) → x ∈ rows → p x ≡ true → x ≡ r)
    → find_row p rows ≡ some r
unfolding find_row
find_one p [] r m h only = absurd m
find_one p (x ∷ xs) r m h only = go (p x) refl m (λ n. find_one p xs r n h (λ y k. only y (inr k)))
  where
    go :
        (b : Bool)
        → p x ≡ b
        → r ∈ x ∷ xs
        → (r ∈ xs → find_row p xs ≡ some r)
        → (if b then some x else find_row p xs) ≡ some r
    go true e m ih = ap some (only x (inl refl) e)
    go false e (inl n) ih = absurd (cc (ap p n))
    go false e (inr n) ih = ih n

find_no :
    (p : Row → Bool) (rows : List Row)
    → ((x : Row) → x ∈ rows → p x ≢ true)
    → find_row p rows ≡ none
unfolding find_row
find_no p [] h = refl
find_no p (x ∷ xs) h = go (p x) refl (find_no p xs (λ y m. h y (inr m)))
  where
    go : (b : Bool) → p x ≡ b → find_row p xs ≡ none → (if b then some x else find_row p xs) ≡ none
    go true e n = absurd (h x (inl refl) e)
    go false e n = n

-- The one row of an id.
pub record IsOnly (id : ℕ) (rows : List Row) (r : Row) : Type 0 where
  pub present : r ∈ rows
  pub named : r.id ≡ id
  pub alone : (x : Row) → x ∈ rows → x.id ≡ id → x ≡ r

update_task-IsOnly :
    (id : ℕ) (f : Row → Row) (rows : List Row) (r : Row)
    → IsOnly id rows r
    → (f r).id ≡ r.id
    → IsOnly id (update_task id f rows) (f r)
unfolding update_task
update_task-IsOnly id f rows r h same = record {
  present =
      (mem-map changed (f r) rows).1 (r, h.present, hit (r.id == id) ((==_iff r.id id).1 h.named));
  named = same ∙ h.named;
  alone = λ y m i.
      let (x, n, e) = (mem-map changed y rows).0 m in
      e
      ∙ image x n (x.id == id) ((==_iff x.id id).0) (λ q. (==_iff x.id id).1 q)
          (ap (λ z. z.id) (sym e) ∙ i);
}
  where
    changed : Row → Row
    changed x = if x.id == id then f x else x

    hit : (b : Bool) → b ≡ true → f r ≡ (if b then f r else r)
    hit true e = refl
    hit false e = absurd (cc)

    image :
        (x : Row)
        → x ∈ rows
        → (b : Bool) → (b ≡ true → x.id ≡ id)
        → (x.id ≡ id → b ≡ true)
        → (if b then f x else x).id ≡ id
        → (if b then f x else x) ≡ f r
    image x n true k l i = ap f (h.alone x n (k refl))
    image x n false k l i = absurd (cc (l i))

choose : (E : Type 0) (b : Bool) → (b ≡ true → E) → (b ≡ false → E) → E
choose E true f g = f refl
choose E false f g = g refl

claimable_parts :
    (i j : ℕ) (b l : Bool) → (i == j && (b && l) && not false) ≡ true → (i ≡ j) × (l ≡ true)
claimable_parts i j b l h = ground arith

module _ {D : Type 0} (clock : ℕ → ℤ) (sequence : ℕ → ℕ) (c : Config) (decls : List (Entry D))
    (id : ℕ) where
  -- Now, or after some more cycles.
  pub data Eventually (P : World D → Type 0) : World D → Type 0 where
    now : (w : World D) → P w → Eventually P w
    later : (w : World D) → Eventually P (poll clock sequence c decls id w) → Eventually P w

  -- The row is dead, after the configured number of failures.
  abbrev pub GivenUp : World D → Type 0
  GivenUp w =
      (x : Row) × (x ∈ w.database.rows)
      × (x.id ≡ id)
      × (x.state ≡ dead)
      × (x.consecutive_failures ≡ c.retry_max_attempts)

  finds :
      (w : World D) (r : Row)
      → IsOnly id w.database.rows r
      → r.state ≡ pending
      → leb_ℤ r.run_at (clock (suc w.calls)) ≡ true
      → find_row (claimable clock sequence c decls id (clock (suc w.calls))) w.database.rows
        ≡ some r
  finds w r h st due =
      find_one _ w.database.rows r h.present (rw (st, h.named) (ground arith))
        (λ x m e. h.alone x m (claimable_parts x.id id (is_pending x.state) _ e).0)

  finds_no :
      (w : World D) (r : Row)
      → IsOnly id w.database.rows r
      → leb_ℤ r.run_at (clock (suc w.calls)) ≡ false
      → find_row (claimable clock sequence c decls id (clock (suc w.calls))) w.database.rows ≡ none
  finds_no w r h early = find_no _ w.database.rows (λ x m e.
      let (i, l) = claimable_parts x.id id (is_pending x.state) _ e in
      let same = h.alone x m i in absurd (cc (ap (λ z. leb_ℤ z.run_at (clock (suc w.calls))) same)))

  -- Cycles pass until the row is due.
  waits :
      (P : World D → Type 0) (r : Row) (n m : ℕ) (w : World D)
      → ((k : ℕ) → n ≤ k → r.run_at ≤ℤ clock k)
      → ((u : World D)
          → IsOnly id u.database.rows r
          → leb_ℤ r.run_at (clock (suc u.calls)) ≡ true
          → Eventually P u)
      → IsOnly id w.database.rows r
      → n ≤ suc w.calls + m
      → Eventually P w
  waits P r n zero w passed attempt h e =
      attempt w h (let q = passed (suc w.calls) (omega arith) in ground arith)
  waits P r n (suc m) w passed attempt h e =
      let skipped : World D = record w { calls = suc (suc (suc (suc (suc w.calls)))) } in
      let rest =
        waits P r n m skipped passed attempt
          (record { present = h.present; named = h.named; alone = h.alone }) (omega arith) in
      choose (Eventually P w) (leb_ℤ r.run_at (clock (suc w.calls))) (attempt w h) (λ l. later w (
        subst (Eventually P) (sym (poll_skips clock sequence c decls id w (finds_no w r h l)))
          rest))

  -- The one row after an attempt that failed, by whether the failures are spent.
  failed_once-IsOnly :
      (w : World D) (r : Row) (d : Entry D) (b : Bool)
      → IsOnly id w.database.rows r
      → r.state ≡ pending
      → leb_ℤ r.run_at (clock (suc w.calls)) ≡ true
      → declaration decls r.type ≡ some d
      → d.recurrence ≡ none
      → AlwaysFails clock sequence c decls id d
      → leb c.retry_max_attempts (suc r.consecutive_failures) ≡ b
      → (reason : String) × (at : ℤ) × IsOnly id (poll clock sequence c decls id w).database.rows (
          (if b
              then set_dead (suc r.consecutive_failures) reason
              else set_failed (suc r.consecutive_failures) reason at)
            r)
  failed_once-IsOnly w r d b h st due found one fails spent =
      let (reason, at, rows) =
        poll_fails clock sequence c decls id w r d (finds w r h st due) h.named found one fails in
      let f : Bool → Row → Row = λ x.
        if x
        then set_dead (suc r.consecutive_failures) reason
        else set_failed (suc r.consecutive_failures) reason at in
      (
        reason,
        at,
        subst (λ x. IsOnly id x (f b r))
            (sym (rows ∙ ap (λ x. update_task id (f x) w.database.rows) spent))
            (update_task-IsOnly id (f b) w.database.rows r h (keeps b reason at)),
      )
    where
      keeps :
          (b : Bool) (reason : String) (at : ℤ)
          → ((if b
                then set_dead (suc r.consecutive_failures) reason
                else set_failed (suc r.consecutive_failures) reason at)
              r).id
            ≡ r.id
      keeps true reason at = refl
      keeps false reason at = refl

  module _ (d : Entry D) (passes : (t : ℤ) → (i : ℕ) × ((k : ℕ) → i ≤ k → t ≤ℤ clock k)) where
    -- On a server that works, whose clock passes every instant, a declared one-shot task whose handler always reports
    -- a failure is dead after some calls of executeOne with its id, with the configured number of failures: from a table
    -- in which its row is the one with its id, pending, with fewer failures.
    pub gives_up :
        (n : ℕ) (w : World D) (r : Row)
        → declaration decls r.type ≡ some d
        → d.recurrence ≡ none
        → AlwaysFails clock sequence c decls id d
        → IsOnly id w.database.rows r
        → r.state ≡ pending
        → r.consecutive_failures + suc n ≡ c.retry_max_attempts
        → Eventually GivenUp w
    gives_up zero w r found one fails h st e =
        let (i, passed) = passes r.run_at in
        waits GivenUp r i i w passed
          (λ u k l.
            let (reason, at, only) =
              failed_once-IsOnly u r d true k st l found one fails (ground arith) in
            later u (now _ (_, only.present, only.named, refl, omega arith)))
          h (omega arith)
    gives_up (suc n) w r found one fails h st e =
        let (i, passed) = passes r.run_at in
        waits GivenUp r i i w passed
          (λ u k l.
            let (reason, at, only) =
              failed_once-IsOnly u r d false k st l found one fails (ground arith) in
            later u (gives_up n _ _ found one fails only st (omega arith)))
          h (omega arith)
