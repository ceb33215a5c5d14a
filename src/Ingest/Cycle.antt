-- ===== src/Ingest/Cycle.antt =====
-- What a cycle of the update loop leaves of its batch: internal/ingest/loop.go.
use Prim.Native.String.{String}
use lab_game.Prelude.{ℕ, ◌≡◌, refl, sym, ap, ◌∙◌, ◌⊎◌, inl, inr, List, Option, none, some}
use lab_game.Prelude.Int.{ℤ, pos, ◌+ℤ◌}
use lab_game.Ingest.Kind.{Raw, Payload, callback_query, derive}
use lab_game.Ingest.Router.{Update, IngestError, operation_id, new_update, Handler, Route, lookup}
use lab_game.Ingest.State.{Tables, World, Server, advanced}
use lab_game.Ingest.Attempt.{settle_unrouted, run_attempts}
use lab_game.Ingest.Loop.{underived, process_update}
use lab_game.Ingest.Settled.{passed, Settled, settle_unrouted_lem, run_attempts-Ran}

pub new_update-raw :
    (itoa : ℤ → String) (raw : Raw) (u : Update) → new_update itoa raw ≡ inr u → u.raw ≡ raw
unfolding new_update
new_update-raw itoa raw u = go (operation_id _ _) (raw.payload callback_query)
  where
    with_callback : Update → IngestError ⊎ String → IngestError ⊎ Update
    with_callback a o = elim o [
      | inl e ↦ inl e
      | inr cq ↦ inr (record a { callback_query_operation_id = cq })
    ]

    derived : String → Update
    derived op = record {
      raw = raw;
      kind = derive raw;
      operation_id = op;
      callback_query_operation_id = "";
    }

    inr_inj : {a b : Update} → ◌≡◌ {A = IngestError ⊎ Update} (inr a) (inr b) → a ≡ b
    inr_inj h = cc

    with_callback-raw :
        (op : String) (o : IngestError ⊎ String)
        → with_callback (derived op) o ≡ inr u
        → u.raw ≡ raw
    with_callback-raw op (inl e) h = absurd (cc)
    with_callback-raw op (inr cq) h = ap (λ a. a.raw) (sym (inr_inj h))

    go :
        (o : IngestError ⊎ String) (q : Option Payload)
        → elim o as (λ x. IngestError ⊎ Update) [
          | inl e ↦ inl e
          | inr op ↦ elim q as (λ x. IngestError ⊎ Update) [
            | none ↦ inr (derived op)
            | some p ↦ with_callback (derived op) (operation_id "callback_query.id" p.id)
          ]
        ]
          ≡ inr u
        → u.raw ≡ raw
    go (inl e) q h = absurd (cc)
    go (inr op) none h = ap (λ a. a.raw) (sym (inr_inj h))
    go (inr op) (some p) h = with_callback-raw op (operation_id "callback_query.id" p.id) h

module _ {D : Type 0} (itoa : ℤ → String) (error_text : IngestError → String) (attempts : ℕ) where
  -- How an update was settled: it could not be derived, it has no route, or its handler was tried.
  pub data Processed (v : Server) (routes : List (Route D)) (raw : Raw) (w : World D) (t : Tables D)
      : Type 0 where
    malformed :
        (e : IngestError)
        → new_update itoa raw ≡ inl e
        → t ≡ passed (underived raw) w.tables
        → Processed v routes raw w t
    unrouted :
        (u : Update)
        → new_update itoa raw ≡ inr u
        → lookup routes u.kind ≡ none
        → t ≡ passed (underived raw) w.tables
        → Processed v routes raw w t
    routed :
        (u : Update) (h : Handler D)
        → new_update itoa raw ≡ inr u
        → lookup routes u.kind ≡ some h
        → Settled v h u attempts w t
        → Processed v routes raw w t

  abbrev Did : Server → List (Route D) → Raw → World D → Option String × World D → Type 0
  Did v routes raw w q =
      (q.0 ≡ none → Processed v routes raw w q.1.tables)
      × ((e : String) → q.0 ≡ some e → q.1.tables ≡ w.tables)

  -- An update is settled in one of the ways above, or there is an error and nothing has changed.
  pub process_update-Processed :
      (v : Server) (routes : List (Route D)) (raw : Raw) (w : World D)
      → Did v routes raw w (process_update itoa error_text attempts v routes raw w)
  unfolding process_update
  process_update-Processed v routes raw w = go (new_update itoa raw) refl
    where
      go :
          (r : IngestError ⊎ Update)
          → new_update itoa raw ≡ r
          → Did v routes raw w (elim r as (λ x. Option String × World D) [
            | inl e ↦ settle_unrouted v (underived raw) (some (error_text e)) w
            | inr u ↦ elim (lookup routes u.kind) as (λ x. Option String × World D) [
              | none ↦ settle_unrouted v u none w
              | some h ↦ run_attempts v attempts h u w
            ]
          ])
      go (inl e) n =
          let (p, q) = settle_unrouted_lem v (underived raw) (some (error_text e)) w in
          (λ s. malformed e n (p s), q)
      go (inr u) n = route (lookup routes u.kind) refl
        where
          route :
              (o : Option (Handler D))
              → lookup routes u.kind ≡ o
              → Did v routes raw w (elim o as (λ x. Option String × World D) [
                | none ↦ settle_unrouted v u none w
                | some h ↦ run_attempts v attempts h u w
              ])
          route none m =
              let (p, q) = settle_unrouted_lem v u none w in
              (
                λ s. unrouted u n m (
                    p s
                    ∙ ap
                        (λ x. record w.tables {
                          offset = advanced (x.update_id +ℤ pos 1) w.tables.offset;
                        })
                        (new_update-raw itoa raw u n)),
                q,
              )
          route (some h) m =
              let (p, q) = run_attempts-Ran v attempts h u w in (λ s. routed u h n m (p s), q)
