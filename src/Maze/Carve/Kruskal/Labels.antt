-- ===== src/Maze/Carve/Kruskal/Labels.antt =====
-- About the label array of buildKruskal, internal/maze/algorithms.go.
use mathlib.Core.Path.{subst}
use lab_game.Prelude.{
  ℕ, zero, suc, ◌+◌, ◌≡◌, refl, sym, ap, ◌∙◌, arith, List, [], ◌∷◌, map, get_elem?, numbers, ◌==◌,
  ==_iff, if◌then◌else◌, false, Bool-cases, ◌⊎◌, inl, inr, some, some_inj,
}
use lab_game.Prelude.Members.{◌∈◌}
use lab_game.Maze.Edges.{EdgeSet, new_edge_key, add}
use lab_game.Maze.Edges.Linked.{
  Linked, stay, step, IsForest, Linked-trans, Linked-sym, Linked-more, new_edge_key_ends,
  new_edge_key_inj,
}
use lab_game.Maze.Carve.Kruskal.{relabel}

-- The label array agrees with the faces opened so far, and these have no cycle.
pub record Labels (label : List ℕ) (opened : EdgeSet) : Type 0 where
  pub links :
      (a b x : ℕ) → get_elem? label a ≡ some x → get_elem? label b ≡ some x → Linked opened a b
  pub shares :
      (a b : ℕ)
      → new_edge_key a b ∈ opened
      → (x : ℕ) → get_elem? label a ≡ some x
      → get_elem? label b ≡ some x
  pub acyclic : IsForest opened

abbrev renamed : ℕ → ℕ → ℕ → ℕ
renamed old replacement l = if l == old then replacement else l

get-map :
    (f : ℕ → ℕ) (xs : List ℕ) (i x : ℕ)
    → get_elem? xs i ≡ some x
    → get_elem? (map f xs) i ≡ some (f x)
get-map f [] i x e = absurd cc
get-map f (y ∷ ys) zero x e = ap (λ t. some (f t)) (some_inj y x e)
get-map f (y ∷ ys) (suc i) x e = get-map f ys i x e

get-map_back :
    (f : ℕ → ℕ) (xs : List ℕ) (i z : ℕ)
    → get_elem? (map f xs) i ≡ some z
    → (x : ℕ) × (get_elem? xs i ≡ some x) × (f x ≡ z)
get-map_back f [] i z e = absurd cc
get-map_back f (y ∷ ys) zero z e = (y, refl, some_inj (f y) z e)
get-map_back f (y ∷ ys) (suc i) z e = get-map_back f ys i z e

-- Linked cells have one label.
pub Linked-shares :
    (label : List ℕ) (opened : EdgeSet)
    → Labels label opened
    → (a b x : ℕ) → Linked opened a b
    → get_elem? label a ≡ some x
    → get_elem? label b ≡ some x
Linked-shares label opened h _ _ x (stay a) e = e
Linked-shares label opened h _ _ x (step a c b k l) e =
    Linked-shares label opened h c b x l (h.shares a c k x e)

get-numbers : (from n i x : ℕ) → get_elem? (numbers from n) i ≡ some x → x ≡ from + i
get-numbers from zero i x e = absurd cc
get-numbers from (suc n) zero x e = sym (some_inj from x e) ∙ omega arith
get-numbers from (suc n) (suc i) x e = get-numbers (suc from) n i x e ∙ omega arith

-- At first, each cell has a label of its own.
pub numbers-Labels : (n : ℕ) → Labels (numbers 0 n) []
numbers-Labels n = record {
  links = λ a b x e f.
      let same : a ≡ b = omega (arith, get-numbers 0 n a x e, get-numbers 0 n b x f) in
      subst (λ t. Linked [] a t) same (stay a);
  shares = λ a b k. absurd k;
  acyclic = tt;
}

module _ (label : List ℕ) (opened : EdgeSet) (h : Labels label opened) (a b x y : ℕ)
    (ea : get_elem? label a ≡ some x) (eb : get_elem? label b ≡ some y)
    (apart : (x == y) ≡ false) where
  joined : Linked (new_edge_key a b ∷ opened) a b
  joined = step a b b (inl refl) (stay b)

  wider : (c d : ℕ) → Linked opened c d → Linked (new_edge_key a b ∷ opened) c d
  wider c d l = Linked-more opened (new_edge_key a b) c d l

  -- From a cell with the old label to one with the label of b.
  across :
      (c d : ℕ)
      → get_elem? label c ≡ some x
      → get_elem? label d ≡ some y
      → Linked (new_edge_key a b ∷ opened) c d
  across c d ec ed =
      Linked-trans (new_edge_key a b ∷ opened) c a d (wider c a (h.links c a x ec ea))
        (Linked-trans (new_edge_key a b ∷ opened) a b d joined (wider b d (h.links b d y eb ed)))

  link :
      (c d u v : ℕ)
      → get_elem? label c ≡ some u
      → get_elem? label d ≡ some v
      → renamed x y u ≡ renamed x y v
      → Linked (new_edge_key a b ∷ opened) c d
  link c d u v ec ed same = elim (Bool-cases (u == x)) [
    | inl eu ↦ elim (Bool-cases (v == x)) [
      | inl ev ↦
          wider c d
            (h.links c d x (ec ∙ ap some ((==_iff u x).0 eu)) (ed ∙ ap some ((==_iff v x).0 ev)))
      | inr ev ↦
          let e : v ≡ y = ground (arith, same, eu, ev) in
          across c d (ec ∙ ap some ((==_iff u x).0 eu)) (ed ∙ ap some e)
    ]
    | inr eu ↦ elim (Bool-cases (v == x)) [
      | inl ev ↦
          let e : u ≡ y = ground (arith, same, eu, ev) in
          Linked-sym (new_edge_key a b ∷ opened) d c
            (across d c (ed ∙ ap some ((==_iff v x).0 ev)) (ec ∙ ap some e))
      | inr ev ↦
          let e : v ≡ u = ground (arith, same, eu, ev) in
          wider c d (h.links c d u ec (ed ∙ ap some e))
    ]
  ]

  -- The cells of b's component keep their label, those of a's get it.
  share :
      (c d : ℕ)
      → (new_edge_key c d ≡ new_edge_key a b) ⊎ (new_edge_key c d ∈ opened)
      → (u : ℕ) → get_elem? label c ≡ some u
      → (v : ℕ) × (get_elem? label d ≡ some v) × (renamed x y u ≡ renamed x y v)
  share c d (inr k) u ec = (u, h.shares c d k u ec, refl)
  share c d (inl k) u ec = elim (new_edge_key_inj c d a b k) [
    | inl e ↦
        let eu : u ≡ x = some_inj u x (sym ec ∙ ap (get_elem? label) e.0 ∙ ea) in
        (y, ap (get_elem? label) e.1 ∙ eb, ground (arith, eu))
    | inr e ↦
        let eu : u ≡ y = some_inj u y (sym ec ∙ ap (get_elem? label) e.0 ∙ eb) in
        (x, ap (get_elem? label) e.1 ∙ ea, ground (arith, eu))
  ]

  not-Linked : ¬ Linked opened (new_edge_key a b).0 (new_edge_key a b).1
  not-Linked = elim (new_edge_key_ends a b) [
    | inl e ↦ rw e (clash a b ea eb)
    | inr e ↦ rw e (λ l. clash a b ea eb (Linked-sym opened b a l))
  ]
    where
      clash :
          (c d : ℕ) → get_elem? label c ≡ some x → get_elem? label d ≡ some y → ¬ Linked opened c d
      clash c d ec ed l =
          let e : x ≡ y = some_inj x y (sym (Linked-shares label opened h c d x l ec) ∙ ed) in
          absurd (ground (arith, e, apart))

  pub joined-Labels : Labels (relabel x y label) (add opened a b)
  unfolding relabel add
  joined-Labels = record {
    links = λ c d z ec ed.
        let (u, eu, ru) = get-map_back (renamed x y) label c z ec in
        let (v, ev, rv) = get-map_back (renamed x y) label d z ed in
        link c d u v eu ev (ru ∙ sym rv);
    shares = λ c d k z ec.
        let (u, eu, ru) = get-map_back (renamed x y) label c z ec in
        let (v, ev, e) = share c d k u eu in
        get-map (renamed x y) label d v ev ∙ ap some (sym e ∙ ru);
    acyclic = (not-Linked, h.acyclic);
  }
