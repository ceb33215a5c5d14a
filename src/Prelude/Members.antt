-- ===== src/Prelude/Members.antt =====
-- Occurrence in a list as a predicate by recursion, which the tactics read.
use mathlib.Core.Path.{subst}
use lab_game.Prelude.{◌≡◌, refl, sym, ap, ◌∙◌, ◌⊎◌, inl, inr, ◌↔◌, arith, List, [], ◌∷◌, ◌++◌, map}

infix 40 ◌∈◌
abbrev pub ◌∈◌ : {A : Type 0} → A → List A → Type 0
a ∈ [] = ⊥
a ∈ x ∷ xs = (a ≡ x) ⊎ (a ∈ xs)

abbrev pub All : {A : Type 0} → (A → Type 0) → List A → Type 0
All P [] = Unit {0}
All P (x ∷ xs) = P x × All P xs

-- No element stands twice.
abbrev pub Distinct : {A : Type 0} → List A → Type 0
Distinct [] = Unit {0}
Distinct (x ∷ xs) = (¬ (x ∈ xs)) × Distinct xs

module _ {A : Type 0} where
  pub mem-append : (a : A) (xs ys : List A) → (a ∈ xs ++ ys) ↔ ((a ∈ xs) ⊎ (a ∈ ys))
  mem-append a [] ys = (λ h. inr h, elim [ inl h ↦ absurd h | inr h ↦ h ])
  mem-append a (x ∷ xs) ys = let ih = mem-append a xs ys in (ground arith, ground arith)

  pub mem-map :
      {B : Type 0} (f : B → A) (a : A) (xs : List B)
      → (a ∈ map f xs) ↔ ((b : B) × (b ∈ xs) × (a ≡ f b))
  mem-map f a [] = (λ h. absurd h, λ h. h.1)
  mem-map f a (x ∷ xs) =
      let ih = mem-map f a xs in
      (
        elim [ inl e ↦ (x, inl refl, e) | inr m ↦ let (b, h, e) = ih.0 m in (b, inr h, e) ],
        λ (b, m, e). elim m [ inl h ↦ inl (e ∙ ap f h) | inr h ↦ inr (ih.1 (b, h, e)) ],
      )

  pub All-mem : (P : A → Type 0) (xs : List A) → All P xs → (a : A) → a ∈ xs → P a
  All-mem P [] h a m = absurd m
  All-mem P (x ∷ xs) h a (inl e) = rw e h.0
  All-mem P (x ∷ xs) h a (inr m) = All-mem P xs h.1 a m

  pub Distinct-append :
      (xs ys : List A)
      → Distinct xs
      → Distinct ys
      → ((a : A) → a ∈ xs → ¬ (a ∈ ys))
      → Distinct (xs ++ ys)
  Distinct-append [] ys h k apart = k
  Distinct-append (x ∷ xs) ys h k apart = (
    λ m. elim ((mem-append x xs ys).0 m) [ inl n ↦ h.0 n | inr n ↦ apart x (inl refl) n ],
    Distinct-append xs ys h.1 k (λ a m. apart a (inr m)),
  )

  pub Distinct-map :
      {B : Type 0} (f : B → A)
      → ((a b : B) → f a ≡ f b → a ≡ b)
      → (xs : List B) → Distinct xs
      → Distinct (map f xs)
  Distinct-map f inj [] h = tt
  Distinct-map f inj (x ∷ xs) h = (
    λ m. let (b, n, e) = (mem-map f (f x) xs).0 m in h.0 (subst (λ y. y ∈ xs) (sym (inj x b e)) n),
    Distinct-map f inj xs h.1,
  )
