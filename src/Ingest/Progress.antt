-- ===== src/Ingest/Progress.antt =====
-- About the end of a cycle: internal/ingest/loop.go and settle.go.
use Prim.Native.String.{String}
use mathlib.Core.Path.{subst}
use lab_game.Prelude.{
  ℕ, zero, suc, ◌+◌, ◌==◌, ◌≡◌, refl, ap, ◌∙◌, ◌⊎◌, inl, inr, List, [], ◌∷◌, ◌++◌, Bool, true,
  false, if◌then◌else◌, Option, none, some, arith,
}
use lab_game.Prelude.Int.{ℤ, ◌<ℤ◌}
use lab_game.Prelude.Members.{◌∈◌}
use lab_game.Ingest.Kind.{Raw}
use lab_game.Ingest.Router.{Update, IngestError, new_update, Handler, Route, lookup}
use lab_game.Ingest.State.{World, Server}
use lab_game.Ingest.Attempt.{
  advance_offset_fresh, settle_unrouted, settle_given_up, attempt_once, attempts_from, run_attempts,
}
use lab_game.Ingest.Loop.{done, underived, process_update, process_all, settle_batch, poll_once}
use lab_game.Ingest.Batch.{Ascending, poll_once-Batch}

-- No call fails, and no wait is cut short.
abbrev pub Works : Server → Type 0
Works v = (n : ℕ) → (v.fault n ≡ none) × (v.cancelled n ≡ none)

module _ {D : Type 0} (v : Server) (works : Works v) where
  settle_unrouted_ends :
      (u : Update) (o : Option String) (w : World D) → (settle_unrouted v u o w).0 ≡ none
  unfolding settle_unrouted advance_offset_fresh
  settle_unrouted_ends u o w =
      let a = (works w.calls).0 in
      let b = (works (w.calls + 1)).0 in let c = (works (w.calls + 2)).0 in ground arith

  settle_given_up_ends :
      (u : Update) (k : ℕ) (o : Option String) (w : World D) → (settle_given_up v u k o w).0 ≡ none
  unfolding settle_given_up
  settle_given_up_ends u k o w =
      let a = (works w.calls).0 in
      let b = (works (w.calls + 1)).0 in
      let c = (works (w.calls + 2)).0 in let d = (works (w.calls + 3)).0 in ground arith

  -- Whatever the handler does.
  attempts_from_ends :
      (h : Handler D) (u : Update) (attempts left k : ℕ) (last : Option String) (w : World D)
      → (attempts_from v h u attempts left k last w).0 ≡ none
  unfolding attempts_from
  attempts_from_ends h u attempts zero k last w = settle_given_up_ends u attempts last w
  attempts_from_ends h u attempts (suc left) k last w =
      go next.0.0 (suc k == attempts) (v.cancelled next.1.calls) ((works next.1.calls).1)
        (attempts_from_ends h u attempts left (suc k) next.0.1 next.1)
    where
      next : (Bool × Option String) × World D
      next = attempt_once v h u k w

      rest : Option String × World D
      rest = attempts_from v h u attempts left (suc k) next.0.1 next.1

      go :
          (b c : Bool) (o : Option String)
          → o ≡ none
          → rest.0 ≡ none
          → (if b
              then (none, next.1)
              else if c
              then settle_given_up v u attempts next.0.1 next.1
              else elim o as (λ x. Option String × World D) [
                | some s ↦ (some s, next.1)
                | none ↦ rest
              ]).0
            ≡ none
      go true c o e ih = refl
      go false true o e ih = settle_given_up_ends u attempts next.0.1 next.1
      go false false none e ih = ih
      go false false (some s) e ih = absurd (cc)

module _ {D : Type 0} (itoa : ℤ → String) (error_text : IngestError → String) (attempts : ℕ)
    (v : Server) (works : Works v) (routes : List (Route D)) where
  process_update_ends :
      (raw : Raw) (w : World D) → (process_update itoa error_text attempts v routes raw w).0 ≡ none
  unfolding process_update run_attempts
  process_update_ends raw w = go (new_update itoa raw)
    where
      go :
          (r : IngestError ⊎ Update)
          → (elim r as (λ x. Option String × World D) [
            | inl e ↦ settle_unrouted v (underived raw) (some (error_text e)) w
            | inr u ↦ elim (lookup routes u.kind) as (λ x. Option String × World D) [
              | none ↦ settle_unrouted v u none w
              | some h ↦ run_attempts v attempts h u w
            ]
          ]).0
            ≡ none
      go (inl e) = settle_unrouted_ends v works (underived raw) (some (error_text e)) w
      go (inr u) = route (lookup routes u.kind)
        where
          route :
              (o : Option (Handler D))
              → (elim o as (λ x. Option String × World D) [
                | none ↦ settle_unrouted v u none w
                | some h ↦ run_attempts v attempts h u w
              ]).0
                ≡ none
          route none = settle_unrouted_ends v works u none w
          route (some h) = attempts_from_ends v works h u attempts attempts 0 none w

  process_all_ends :
      (raws : List Raw) (w : World D)
      → (process_all itoa error_text attempts v routes raws w).0 ≡ none
  unfolding process_all
  process_all_ends [] w = refl
  process_all_ends (raw ∷ raws) w =
      rw (process_update_ends raw w, process_all)
        (process_all_ends raws (process_update itoa error_text attempts v routes raw w).1)

  poll_once_ends :
      (w : World D)
      → v.stopped (w.calls + 1) ≡ none
      → (poll_once itoa error_text attempts v routes w).0 ≡ done
  unfolding poll_once settle_batch
  poll_once_ends w s =
      let a = (works w.calls).0 in
      let b = (works (w.calls + 1)).0 in
      let c =
        process_all_ends (v.updates (w.calls + 1) w.tables.offset)
          (record w { calls = w.calls + 2 }) in
      ground arith

  -- Where no call fails and nothing is cancelled, a cycle over ascending updates ends without an error, and the offset
  -- has passed each of them, whatever the handlers do: an update that always fails does not block the loop.
  pub poll_once_passes :
      (w : World D)
      → v.stopped (w.calls + 1) ≡ none
      → Ascending w.tables.offset (v.updates (w.calls + 1) w.tables.offset)
      → ((poll_once itoa error_text attempts v routes w).0 ≡ done)
        × ((r : Raw)
            → r ∈ v.updates (w.calls + 1) w.tables.offset
            → r.update_id <ℤ (poll_once itoa error_text attempts v routes w).1.tables.offset)
  poll_once_passes w s h =
      let ends = poll_once_ends w s in
      let b = poll_once-Batch itoa error_text attempts v routes w h in
      (
        ends,
        λ r m. b.below r (
            subst (λ x. r ∈ x)
              (b.split ∙ ap (λ x. b.settled ++ x) (b.complete ends) ∙ append_nil b.settled) m),
      )
    where
      append_nil : (xs : List Raw) → xs ++ [] ≡ xs
      append_nil [] = refl
      append_nil (x ∷ xs) = ap (λ y. x ∷ y) (append_nil xs)
