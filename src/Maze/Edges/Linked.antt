-- ===== src/Maze/Edges/Linked.antt =====
-- About edgeKey and the walks through an edgeSet, internal/maze/algorithms.go.
use lab_game.Prelude.{ℕ, ◌≡◌, refl, sym, ap, ◌∙◌, arith, [], ◌∷◌, ltb, ◌⊎◌, inl, inr, Bool-cases}
use lab_game.Prelude.Members.{◌∈◌}
use lab_game.Maze.Edges.{EdgeKey, EdgeSet, new_edge_key}
use mathlib.Core.Path.{subst}

-- A walk through faces of the set.
pub data Linked (e : EdgeSet) : ℕ → ℕ → Type 0 where
  stay : (a : ℕ) → Linked e a a
  step : (a b c : ℕ) → new_edge_key a b ∈ e → Linked e b c → Linked e a c

-- Each face joins two cells that the faces behind it do not link: the set has no cycle.
abbrev pub IsForest : EdgeSet → Type 0
IsForest [] = Unit {0}
IsForest (k ∷ e) = (¬ Linked e k.0 k.1) × IsForest e

pub new_edge_key_comm : (a b : ℕ) → new_edge_key a b ≡ new_edge_key b a
unfolding new_edge_key
new_edge_key_comm a b = elim (Bool-cases (ltb b a)) [
  | inl e ↦ elim (Bool-cases (ltb a b)) [
    | inl f ↦ absurd (ground (arith, e, f))
    | inr f ↦ rw (e, f) refl
  ]
  | inr e ↦ elim (Bool-cases (ltb a b)) [
    | inl f ↦ rw (e, f) refl
    | inr f ↦
        let same : a ≡ b = ground (arith, e, f) in
        rw (e, f) (ap (λ (x : ℕ). (a, x)) (sym same) ∙ ap (λ (x : ℕ). (x, a)) same)
  ]
]

-- The ends of a key, in one of their two orders.
pub new_edge_key_ends : (a b : ℕ) → (new_edge_key a b ≡ (a, b)) ⊎ (new_edge_key a b ≡ (b, a))
unfolding new_edge_key
new_edge_key_ends a b = elim (Bool-cases (ltb b a)) [
  | inl e ↦ rw e (inr refl)
  | inr e ↦ rw e (inl refl)
]

-- A key determines its two ends, up to their order.
pub new_edge_key_inj :
    (c d a b : ℕ) → new_edge_key c d ≡ new_edge_key a b → ((c ≡ a) × (d ≡ b)) ⊎ ((c ≡ b) × (d ≡ a))
new_edge_key_inj c d a b k = elim (new_edge_key_ends c d) [
  | inl e ↦ elim (new_edge_key_ends a b) [
    | inl f ↦ inl (pair_inj c d a b (sym e ∙ k ∙ f))
    | inr f ↦ inr (pair_inj c d b a (sym e ∙ k ∙ f))
  ]
  | inr e ↦ elim (new_edge_key_ends a b) [
    | inl f ↦ let p = pair_inj d c a b (sym e ∙ k ∙ f) in inr (p.1, p.0)
    | inr f ↦ let p = pair_inj d c b a (sym e ∙ k ∙ f) in inl (p.1, p.0)
  ]
]
  where
    pair_inj : (c d a b : ℕ) → Path EdgeKey (c, d) (a, b) → (c ≡ a) × (d ≡ b)
    pair_inj c d a b p = (ap (λ (t : EdgeKey). t.0) p, ap (λ (t : EdgeKey). t.1) p)

module _ (e : EdgeSet) where
  pub Linked-trans : (a b c : ℕ) → Linked e a b → Linked e b c → Linked e a c
  Linked-trans _ _ c (stay a) m = m
  Linked-trans _ _ c (step a x b k l) m = step a x c k (Linked-trans x b c l m)

  pub Linked-sym : (a b : ℕ) → Linked e a b → Linked e b a
  Linked-sym _ _ (stay a) = stay a
  Linked-sym _ _ (step a x b k l) =
      Linked-trans b x a (Linked-sym x b l)
        (step x a a (subst (λ t. t ∈ e) (new_edge_key_comm a x) k) (stay a))

  pub Linked-more : (k : EdgeKey) (a b : ℕ) → Linked e a b → Linked (k ∷ e) a b
  Linked-more k _ _ (stay a) = stay a
  Linked-more k _ _ (step a x b m l) = step a x b (inr m) (Linked-more k x b l)
