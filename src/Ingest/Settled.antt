-- ===== src/Ingest/Settled.antt =====
-- What the settlement of an update leaves: internal/ingest/attempt.go and settle.go.
use Prim.Native.String.{String}
use mathlib.Core.Path.{subst}
use lab_game.Prelude.{
  ℕ, zero, suc, ◌+◌, ◌<◌, ◌≡◌, refl, ap, ◌∙◌, ◌==◌, ==_iff, Bool, true, false, if◌then◌else◌, ◌⊎◌,
  inl, inr, ◌∷◌, Option, none, some, arith, Option-cases,
}
use lab_game.Ingest.Router.{Update, Handler, Handled, returned, already_posted, errored, panicked}
use lab_game.Ingest.State.{Tables, World, Server, advanced}
use lab_game.Ingest.Attempt.{
  next_of, dead_update, advance_offset_fresh, settle_unrouted, settle_given_up, conclude,
  attempt_once, attempts_from, run_attempts,
}

module _ {D : Type 0} where
  -- The offset has passed the update.
  abbrev pub passed : Update → Tables D → Tables D
  passed u t = record t { offset = advanced (next_of u) t.offset }

  -- One attempt settled the update: its handler returned, and its effects came with the offset, or it reported a
  -- duplicate, and its effects were dropped.
  abbrev pub Once : Handler D → Update → Tables D → Tables D → Type 0
  Once h u t t' =
      (n : ℕ) × (((d : D) × (h n u t.effects ≡ returned d)
          × (t' ≡ record (passed u t) { effects = d }))
        ⊎ ((e : String) × (h n u t.effects ≡ already_posted e) × (t' ≡ passed u t)))

  pub advance_offset_fresh_lem :
      (v : Server) (u : Update) (w : World D)
      → ((advance_offset_fresh v u w).0 ≡ none
          → (advance_offset_fresh v u w).1.tables ≡ passed u w.tables)
        × ((e : String)
            → (advance_offset_fresh v u w).0 ≡ some e
            → (advance_offset_fresh v u w).1.tables ≡ w.tables)
  unfolding advance_offset_fresh
  advance_offset_fresh_lem v u w = (ground arith, λ e. ground arith)

  pub settle_unrouted_lem :
      (v : Server) (u : Update) (o : Option String) (w : World D)
      → ((settle_unrouted v u o w).0 ≡ none
          → (settle_unrouted v u o w).1.tables ≡ passed u w.tables)
        × ((e : String)
            → (settle_unrouted v u o w).0 ≡ some e
            → (settle_unrouted v u o w).1.tables ≡ w.tables)
  unfolding settle_unrouted
  settle_unrouted_lem v u o w =
      let (p, q) = advance_offset_fresh_lem v u w in
      (ground arith, λ e. let r = q e in ground arith)

  -- The update was given up.
  abbrev pub buried : Update → ℕ → Option String → Tables D → Tables D
  buried u attempts last t = record (passed u t) { dead = dead_update u attempts last ∷ t.dead }

  settle_given_up_lem :
      (v : Server) (u : Update) (k : ℕ) (o : Option String) (w : World D)
      → ((settle_given_up v u k o w).0 ≡ none
          → (settle_given_up v u k o w).1.tables ≡ buried u k o w.tables)
        × ((e : String)
            → (settle_given_up v u k o w).0 ≡ some e
            → (settle_given_up v u k o w).1.tables ≡ w.tables)
  unfolding settle_given_up
  settle_given_up_lem v u k o w = (ground arith, λ e. ground arith)

  returned_lem :
      (v : Server) (u : Update) (k n : ℕ) (d : D) (w : World D)
      → ((conclude v u k n (returned d) w).0.0 ≡ true
          → (conclude v u k n (returned d) w).1.tables ≡ record (passed u w.tables) { effects = d })
        × ((conclude v u k n (returned d) w).0.0 ≡ false
            → (conclude v u k n (returned d) w).1.tables ≡ w.tables)
  unfolding conclude
  returned_lem v u k n d w = (ground arith, ground arith)

  already_posted_lem :
      (v : Server) (u : Update) (k n : ℕ) (x : String) (w : World D)
      → ((conclude v u k n (already_posted x) w).0.0 ≡ true
          → (conclude v u k n (already_posted x) w).1.tables ≡ passed u w.tables)
        × ((conclude v u k n (already_posted x) w).0.0 ≡ false
            → (conclude v u k n (already_posted x) w).1.tables ≡ w.tables)
  unfolding conclude
  already_posted_lem v u k n x w =
      let (p, q) = advance_offset_fresh_lem v u (record w { calls = n + 2 }) in
      (
        ground arith,
        elim (Option-cases (advance_offset_fresh v u (record w { calls = n + 2 })).0) [
          | inl e ↦ rw (e, conclude) (λ t. absurd (cc))
          | inr (x, e) ↦ rw (e, conclude) (λ t. q x e)
        ],
      )

  conclude_lem :
      (v : Server) (h : Handler D) (u : Update) (k n : ℕ) (r : Handled D) (w : World D)
      → h n u w.tables.effects ≡ r
      → ((conclude v u k n r w).0.0 ≡ true → Once h u w.tables (conclude v u k n r w).1.tables)
        × ((conclude v u k n r w).0.0 ≡ false → (conclude v u k n r w).1.tables ≡ w.tables)
  unfolding conclude
  conclude_lem v h u k n (returned d) w e =
      let (p, q) = returned_lem v u k n d w in (λ t. (n, inl (d, e, p t)), q)
  conclude_lem v h u k n (already_posted x) w e =
      let (p, q) = already_posted_lem v u k n x w in (λ t. (n, inr (x, e, p t)), q)
  conclude_lem v h u k n (errored x) w e = (λ p. absurd (cc), λ p. refl)
  conclude_lem v h u k n (panicked x) w e = (λ p. absurd (cc), λ p. refl)

  -- An attempt that does not settle the update leaves nothing.
  attempt_once_lem :
      (v : Server) (h : Handler D) (u : Update) (k : ℕ) (w : World D)
      → ((attempt_once v h u k w).0.0 ≡ true → Once h u w.tables (attempt_once v h u k w).1.tables)
        × ((attempt_once v h u k w).0.0 ≡ false → (attempt_once v h u k w).1.tables ≡ w.tables)
  unfolding attempt_once
  attempt_once_lem v h u k w =
      let (p, q) = conclude_lem v h u k (w.calls + 1) (h (w.calls + 1) u w.tables.effects) w refl in
      (ground arith, ground arith)

  -- Some attempts in a row, none of which settled the update.
  pub data Failed (v : Server) (h : Handler D) (u : Update) (w : World D)
      : ℕ → Option String → World D → Type 0 where
    start : Failed v h u w 0 none w
    again :
        (k : ℕ) (last : Option String) (x : World D)
        → Failed v h u w k last x
        → (attempt_once v h u k x).0.0 ≡ false
        → Failed v h u w (suc k) (attempt_once v h u k x).0.1 (attempt_once v h u k x).1

  Failed-tables :
      (v : Server) (h : Handler D) (u : Update) (w x : World D) (k : ℕ) (last : Option String)
      → Failed v h u w k last x
      → x.tables ≡ w.tables
  Failed-tables v h u w _ _ _ start = refl
  Failed-tables v h u w _ _ _ (again k last x before e) =
      (attempt_once_lem v h u k x).1 e ∙ Failed-tables v h u w x k last before

  -- How a routed update was settled: by an attempt after some that failed, or given up after all of them did.
  pub data Settled (v : Server) (h : Handler D) (u : Update) (attempts : ℕ) (w : World D)
      (t : Tables D) : Type 0 where
    once :
        (k : ℕ) (last : Option String) (x : World D)
        → k < attempts
        → Failed v h u w k last x
        → Once h u w.tables t
        → Settled v h u attempts w t
    given_up :
        (last : Option String) (x : World D)
        → Failed v h u w attempts last x
        → t ≡ buried u attempts last w.tables
        → Settled v h u attempts w t

  -- Settled where there is no error, and nothing changed where there is one.
  abbrev pub Ran : Server → Handler D → Update → ℕ → World D → Option String × World D → Type 0
  Ran v h u attempts w q =
      (q.0 ≡ none → Settled v h u attempts w q.1.tables)
      × ((e : String) → q.0 ≡ some e → q.1.tables ≡ w.tables)

  give_up-Ran :
      (v : Server) (h : Handler D) (u : Update) (attempts : ℕ) (last : Option String)
      (w x : World D)
      → Failed v h u w attempts last x
      → Ran v h u attempts w (settle_given_up v u attempts last x)
  give_up-Ran v h u attempts last w x f =
      let same = Failed-tables v h u w x attempts last f in
      let (p, q) = settle_given_up_lem v u attempts last x in
      (λ e. given_up last x f (p e ∙ ap (buried u attempts last) same), λ s e. q s e ∙ same)

  attempts_from-Ran :
      (v : Server) (h : Handler D) (u : Update) (attempts left k : ℕ) (last : Option String)
      (w x : World D)
      → k + left ≡ attempts
      → Failed v h u w k last x
      → Ran v h u attempts w (attempts_from v h u attempts left k last x)
  unfolding attempts_from
  attempts_from-Ran v h u attempts zero k last w x e f =
      give_up-Ran v h u attempts last w x
        (subst (λ n. Failed v h u w n last x) (omega (arith, e)) f)
  attempts_from-Ran v h u attempts (suc left) k last w x e f =
      go (attempt_once v h u k x).0.0 refl (suc k == attempts) ((==_iff (suc k) attempts).0)
        (v.cancelled (attempt_once v h u k x).1.calls)
        (λ g. attempts_from-Ran v h u attempts left (suc k) _ w _ (omega (arith, e)) g)
    where
      next : (Bool × Option String) × World D
      next = attempt_once v h u k x

      rest : Option String × World D
      rest = attempts_from v h u attempts left (suc k) next.0.1 next.1

      same : x.tables ≡ w.tables
      same = Failed-tables v h u w x k last f

      tried : next.0.0 ≡ false → Failed v h u w (suc k) next.0.1 next.1
      tried p = again k last x f p

      go :
          (b : Bool)
          → next.0.0 ≡ b
          → (c : Bool) → (c ≡ true → suc k ≡ attempts)
          → (o : Option String)
          → (Failed v h u w (suc k) next.0.1 next.1 → Ran v h u attempts w rest)
          → Ran v h u attempts w (
              if b
              then (none, next.1)
              else if c
              then settle_given_up v u attempts next.0.1 next.1
              else elim o [ some s ↦ (some s, next.1) | none ↦ rest ])
      go true p c q o ih = (
        λ n.
            once k last x (omega (arith, e)) f
              (subst (λ t. Once h u t next.1.tables) same ((attempt_once_lem v h u k x).0 p)),
        λ s n. absurd (cc),
      )
      go false p true q o ih =
          give_up-Ran v h u attempts next.0.1 w next.1
            (subst (λ n. Failed v h u w n next.0.1 next.1) (q refl) (tried p))
      go false p false q (some s) ih =
          (λ n. absurd (cc), λ t n. Failed-tables v h u w next.1 (suc k) next.0.1 (tried p))
      go false p false q none ih = ih (tried p)

  pub run_attempts-Ran :
      (v : Server) (attempts : ℕ) (h : Handler D) (u : Update) (w : World D)
      → Ran v h u attempts w (run_attempts v attempts h u w)
  unfolding run_attempts
  run_attempts-Ran v attempts h u w =
      attempts_from-Ran v h u attempts attempts 0 none w w (omega arith) start
