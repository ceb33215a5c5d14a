-- ===== src/Ingest/Batch.antt =====
-- The offset after a cycle of the update loop: PollOnce of internal/ingest/loop.go.
use Prim.Native.String.{String, ◌++◌ as ◌++ₛ◌}
use mathlib.Core.Path.{subst}
use lab_game.Prelude.{
  ℕ, ◌+◌, ◌≡◌, refl, sym, ap, ◌∙◌, inl, inr, List, [], ◌∷◌, ◌++◌, Option, none, some, arith, lt→ltb,
}
use lab_game.Prelude.Int.{ℤ, pos, pos_part, neg_part, ◌+ℤ◌, ◌≤ℤ◌, ◌<ℤ◌, int_laws}
use lab_game.Prelude.Members.{◌∈◌}
use lab_game.Ingest.Kind.{Raw}
use lab_game.Ingest.Router.{IngestError, Route}
use lab_game.Ingest.State.{Tables, World, Server, advanced, observe_loop}
use lab_game.Ingest.Loop.{
  Cycle, done, poll_discarded, cycle_failed, process_update, process_all, cycle_observation,
  settle_batch, poll_once,
}
use lab_game.Ingest.Settled.{once, given_up}
use lab_game.Ingest.Cycle.{
  Processed, malformed, unrouted, routed, new_update-raw, process_update-Processed,
}

-- Ids from the offset on, each above the one before it.
abbrev pub Ascending : ℤ → List Raw → Type 0
Ascending o [] = Unit {0}
Ascending o (r ∷ rs) = (o ≤ℤ r.update_id) × Ascending (r.update_id +ℤ pos 1) rs

Ascending-mem : (o : ℤ) (r : Raw) (rs : List Raw) → Ascending o rs → r ∈ rs → o ≤ℤ r.update_id
Ascending-mem o r [] h m = absurd m
Ascending-mem o r (s ∷ rs) h (inl e) = rw e h.0
Ascending-mem o r (s ∷ rs) h (inr m) =
    let l = Ascending-mem (s.update_id +ℤ pos 1) r rs h.1 m in omega (int_laws, h.0, l)

advanced_next : (o i : ℤ) → o ≤ℤ i → advanced (i +ℤ pos 1) o ≡ i +ℤ pos 1
unfolding advanced
advanced_next o i h =
    rw
      (lt→ltb (pos_part o + neg_part (i +ℤ pos 1)) (pos_part (i +ℤ pos 1) + neg_part o)
        (omega (int_laws, h)))
      refl

module _ {D : Type 0} (itoa : ℤ → String) (error_text : IngestError → String) (attempts : ℕ) where
  module _ (v : Server) (routes : List (Route D)) where
    Settled-offset :
        (raw : Raw) (w : World D) (t : Tables D)
        → Processed itoa error_text attempts v routes raw w t
        → t.offset ≡ advanced (raw.update_id +ℤ pos 1) w.tables.offset
    Settled-offset raw w t (malformed e n same) = ap (λ x. x.offset) same
    Settled-offset raw w t (unrouted u n m same) = ap (λ x. x.offset) same
    Settled-offset raw w t (routed u h n m (once k last x l f (j, inl (d, e, same)))) =
        ap (λ x. x.offset) same
        ∙ ap (λ r. advanced (r.update_id +ℤ pos 1) w.tables.offset) (new_update-raw itoa raw u n)
    Settled-offset raw w t (routed u h n m (once k last x l f (j, inr (d, e, same)))) =
        ap (λ x. x.offset) same
        ∙ ap (λ r. advanced (r.update_id +ℤ pos 1) w.tables.offset) (new_update-raw itoa raw u n)
    Settled-offset raw w t (routed u h n m (given_up last x f same)) =
        ap (λ x. x.offset) same
        ∙ ap (λ r. advanced (r.update_id +ℤ pos 1) w.tables.offset) (new_update-raw itoa raw u n)

    abbrev process : Raw → World D → Option String × World D
    process raw w = process_update itoa error_text attempts v routes raw w

    -- Updates that were settled one after the other.
    pub data Settles : List Raw → World D → Tables D → Type 0 where
      all_settled : {w : World D} {t : Tables D} → t ≡ w.tables → Settles [] w t
      then :
          {raw : Raw} {raws : List Raw} {w : World D} {t : Tables D}
          → Processed itoa error_text attempts v routes raw w (process raw w).1.tables
          → Settles raws (process raw w).1 t
          → Settles (raw ∷ raws) w t

    -- A batch was settled up to some update, and the offset stands between the two parts. The batch was settled to its
    -- end where `All` holds.
    pub record Batch (raws : List Raw) (w : World D) (t : Tables D) (All : Type 0) : Type 0 where
      pub settled : List Raw
      pub left : List Raw
      pub split : raws ≡ settled ++ left
      pub runs : Settles settled w t
      pub grown : w.tables.offset ≤ℤ t.offset
      pub below : (r : Raw) → r ∈ settled → r.update_id <ℤ t.offset
      pub above : (r : Raw) → r ∈ left → t.offset ≤ℤ r.update_id
      pub complete : All → left ≡ []

    stopped_at :
        (raws : List Raw) (w : World D) (t : Tables D) (All : Type 0)
        → Ascending w.tables.offset raws
        → t ≡ w.tables
        → ¬ All
        → Batch raws w t All
    stopped_at raws w t All h same n = record {
      settled = [];
      left = raws;
      split = refl;
      runs = all_settled same;
      grown = rw same (omega arith);
      below = λ r m. absurd m;
      above = λ r m. rw same (Ascending-mem w.tables.offset r raws h m);
      complete = λ a. absurd (n a);
    }

    process_all-Batch :
        (raws : List Raw) (w : World D)
        → Ascending w.tables.offset raws
        → Batch raws w
            (process_all itoa error_text attempts v routes raws w).1.tables
            ((process_all itoa error_text attempts v routes raws w).0 ≡ none)
    unfolding process_all
    process_all-Batch [] w h = record {
      settled = [];
      left = [];
      split = refl;
      runs = all_settled refl;
      grown = omega arith;
      below = λ r m. absurd m;
      above = λ r m. absurd m;
      complete = λ a. refl;
    }
    process_all-Batch (raw ∷ raws) w h =
        let (p, q) = process_update-Processed itoa error_text attempts v routes raw w in
        go (process raw w).0 p q (λ k. process_all-Batch raws (process raw w).1 k)
      where
        rest : Option String × World D
        rest = process_all itoa error_text attempts v routes raws (process raw w).1

        go :
            (o : Option String)
            → (o ≡ none
                → Processed itoa error_text attempts v routes raw w (process raw w).1.tables)
            → ((e : String) → o ≡ some e → (process raw w).1.tables ≡ w.tables)
            → (Ascending (process raw w).1.tables.offset raws
                → Batch raws (process raw w).1 rest.1.tables (rest.0 ≡ none))
            → Batch
                (raw ∷ raws)
                w
                (elim o as (λ x. Option String × World D) [
                  | some e ↦ (some e, (process raw w).1)
                  | none ↦ rest
                ]).1.tables
                ((elim o as (λ x. Option String × World D) [
                  | some e ↦ (some e, (process raw w).1)
                  | none ↦ rest
                ]).0
                  ≡ none)
        go (some e) p q ih = stopped_at (raw ∷ raws) w _ _ h (q e refl) (λ n. absurd (cc))
        go none p q ih =
            let now =
              Settled-offset raw w _ (p refl) ∙ advanced_next w.tables.offset raw.update_id h.0 in
            let b = ih (subst (λ o. Ascending o raws) (sym now) h.1) in
            let further = subst (λ o. o ≤ℤ rest.1.tables.offset) now b.grown in
            record {
              settled = raw ∷ b.settled;
              left = b.left;
              split = ap (λ x. raw ∷ x) b.split;
              runs = then (p refl) b.runs;
              grown = omega (int_laws, h.0, further);
              below =
                  λ r m. elim m [ inl e ↦ rw e (omega (int_laws, further)) | inr n ↦ b.below r n ];
              above = b.above;
              complete = b.complete;
            }

    settle_batch-Batch :
        (raws : List Raw) (w : World D)
        → Ascending w.tables.offset raws
        → Batch raws w
            (settle_batch itoa error_text attempts v routes raws w).1.tables
            ((settle_batch itoa error_text attempts v routes raws w).0 ≡ done)
    unfolding settle_batch
    settle_batch-Batch raws w h =
        let b = process_all-Batch raws w h in
        record {
          settled = b.settled;
          left = b.left;
          split = b.split;
          runs = b.runs;
          grown = b.grown;
          below = b.below;
          above = b.above;
          complete =
              λ e. b.complete (ok (process_all itoa error_text attempts v routes raws w).0 e);
        }
      where
        ok :
            (o : Option String)
            → elim o as (λ x. Cycle) [ none ↦ done | some e ↦ cycle_failed e ] ≡ done
            → o ≡ none
        ok none e = refl
        ok (some x) e = absurd (cc)

    -- Where getUpdates answers as documented, with ascending ids from the offset on, PollOnce settles the updates of
    -- its batch in order up to some update, each in one of the ways of Processed, and leaves the offset above each
    -- settled update and not above any other; where it returns no error, the whole batch is settled.
    pub poll_once-Batch :
        (w : World D)
        → Ascending w.tables.offset (v.updates (w.calls + 1) w.tables.offset)
        → Batch
            (v.updates (w.calls + 1) w.tables.offset)
            (record w { calls = w.calls + 2 })
            (poll_once itoa error_text attempts v routes w).1.tables
            ((poll_once itoa error_text attempts v routes w).0 ≡ done)
    unfolding poll_once
    poll_once-Batch w h = go (v.fault w.calls) (v.stopped (w.calls + 1)) (v.fault (w.calls + 1))
      where
        raws : List Raw
        raws = v.updates (w.calls + 1) w.tables.offset

        begun : World D
        begun = record w { calls = w.calls + 2 }

        settled : Cycle × World D
        settled = settle_batch itoa error_text attempts v routes raws begun

        asked : World D
        asked = record w { calls = w.calls + 1 }

        Leaves : Cycle × World D → Type 0
        Leaves q = Batch raws begun q.1.tables (q.0 ≡ done)

        go :
            (a b c : Option String)
            → Leaves (elim a as (λ x. Cycle × World D) [
              | some e ↦ (
                cycle_failed ("ingest: read offset: " ++ₛ e),
                observe_loop (cycle_observation 0 (some ("ingest: read offset: " ++ₛ e))) asked,
              )
              | none ↦ elim b as (λ x. Cycle × World D) [
                | some e ↦ (poll_discarded, observe_loop (cycle_observation 0 none) begun)
                | none ↦ elim c as (λ x. Cycle × World D) [
                  | some e ↦ (cycle_failed e, observe_loop (cycle_observation 0 (some e)) begun)
                  | none ↦ settled
                ]
              ]
            ])
        go (some e) b c = stopped_at raws begun _ _ h refl (λ n. absurd (cc))
        go none (some e) c = stopped_at raws begun _ _ h refl (λ n. absurd (cc))
        go none none (some e) = stopped_at raws begun _ _ h refl (λ n. absurd (cc))
        go none none none = settle_batch-Batch raws begun h
