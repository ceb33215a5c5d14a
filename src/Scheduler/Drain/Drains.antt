-- ===== src/Scheduler/Drain/Drains.antt =====
-- What one statement of the drain does: drainOne of internal/scheduler/settle.go.
use Prim.Native.String.{String}
use lab_game.Prelude.{
  ◌<◌, ◌≡◌, refl, ap, ◌∙◌, ltb, ◌&&◌, not, Bool, true, false, if◌then◌else◌, List, count, Option,
  none, some, arith,
}
use lab_game.Prelude.Int.{ℤ}
use lab_game.Scheduler.Task.{
  Row, Config, Recurrence, PendingSettlement, Error, Result, ok, err, failed_call,
}
use lab_game.Scheduler.Session.{Server, Session, call, change}
use lab_game.Scheduler.Settle.Meaning.{failed_row, Called, answered, lost, call-Called}
use lab_game.Scheduler.Claim.{find_row}
use lab_game.Scheduler.Drain.{matches, deferred_failed_statement, update_where, drain_one}

pub deferred_failed_statement_lem :
    (c : Config) (p : PendingSettlement) (at : ℤ) (rec : Option Recurrence)
    → deferred_failed_statement c p at rec
      ≡ failed_row c rec p.consecutive_failures p.run_at p.reason at
unfolding deferred_failed_statement
deferred_failed_statement_lem c p at none = refl
deferred_failed_statement_lem c p at (some r) = refl

abbrev pub candidate : {D : Type 0} → Server → PendingSettlement → Session D → Row → Bool
candidate v p s r = matches p r && not (v.locked s.calls r.id)

-- What one deferred settlement may do.
pub data Drains {D : Type 0} (v : Server) (c : Config) (p : PendingSettlement) (at : ℤ)
    (s : Session D) : Result Bool × Session D → Type 0 where
  -- The row is as it was at the claim: it is failed, and p is dropped.
  applied :
      (t : Session D)
      → 0 < count (candidate v p s) s.database.rows
      → t.database.rows
        ≡ update_where
            (candidate v p s)
            (failed_row c p.recurrence p.consecutive_failures p.run_at p.reason at)
            s.database.rows
      → t.database.others ≡ s.database.others
      → Drains v c p at s (ok true, t)
  -- The row is gone or has moved on: p is dropped.
  moved_on :
      (t : Session D)
      → find_row (matches p) s.database.rows ≡ none
      → t.database ≡ s.database
      → Drains v c p at s (ok true, t)
  -- The row is locked: p is kept.
  locked :
      (t : Session D) (r : Row)
      → find_row (matches p) s.database.rows ≡ some r
      → count (candidate v p s) s.database.rows ≡ 0
      → t.database ≡ s.database
      → Drains v c p at s (ok false, t)
  failing :
      (e : Error) (t : Session D)
      → t.database ≡ s.database
      → ((call v s).0 ≡ none → count (candidate v p s) s.database.rows ≡ 0)
      → Drains v c p at s (err e, t)

module _ {D : Type 0} (v : Server) (c : Config) (p : PendingSettlement) (at : ℤ)
    (s : Session D) where
  pub drain_one-Drains : Drains v c p at s (drain_one v c p at s)
  unfolding drain_one
  drain_one-Drains = go (call v s) refl (call-Called v s)
    where
      rows : List Row
      rows = s.database.rows

      unmatched : Session D → Option String × Session D → Result Bool × Session D
      unmatched t q = elim q.0 [
        | some e ↦ (err (failed_call "" e), q.1)
        | none ↦ (ok (elim (find_row (matches p) rows) [ none ↦ true | some r ↦ false ]), q.1)
      ]

      updated : Session D → Result Bool × Session D
      updated t =
          if ltb 0 (count (candidate v p s) rows)
          then (
            ok true,
            change (update_where (candidate v p s) (deferred_failed_statement c p at p.recurrence))
                t,
          )
          else unmatched t (call v t)

      probed :
          (t x : Session D) (o : Option Row)
          → find_row (matches p) rows ≡ o
          → count (candidate v p s) rows ≡ 0
          → x.database ≡ s.database
          → Drains v c p at s (ok (elim o [ none ↦ true | some r ↦ false ]), x)
      probed t x none e n d = moved_on x e d
      probed t x (some r) e n d = locked x r e n d

      probe :
          (t : Session D)
          → t.database ≡ s.database
          → count (candidate v p s) rows ≡ 0
          → (q : Option String × Session D) → Called t q
          → Drains v c p at s (unmatched t q)
      probe t d n _ (answered a) = probed t _ (find_row (matches p) rows) refl n d
      probe t d n _ (lost e x a k) = failing _ x (k ∙ d) (λ q. n)

      choose :
          (t : Session D)
          → t.database ≡ s.database
          → (b : Bool) → ltb 0 (count (candidate v p s) rows) ≡ b
          → Drains v c p at s (
              if b
              then (
                ok true,
                change
                    (update_where (candidate v p s) (deferred_failed_statement c p at p.recurrence))
                    t,
              )
              else unmatched t (call v t))
      choose t d true h =
          applied _ (ground arith)
            (ap
                (λ y.
                  update_where (candidate v p s) (deferred_failed_statement c p at p.recurrence)
                    y.rows)
                d
              ∙ ap (λ f. update_where (candidate v p s) f rows)
                  (deferred_failed_statement_lem c p at p.recurrence))
            (ap (λ y. y.others) d)
      choose t d false h = probe t d (ground arith) (call v t) (call-Called v t)

      go :
          (q : Option String × Session D)
          → call v s ≡ q
          → Called s q
          → Drains v c p at s
              (elim q.0 [ some e ↦ (err (failed_call "" e), q.1) | none ↦ updated q.1 ])
      go _ h (answered a) = choose _ refl (ltb 0 (count (candidate v p s) rows)) refl
      go _ h (lost e t a k) = failing _ t k (λ q. absurd (cc))
