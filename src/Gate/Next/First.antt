-- ===== src/Gate/Next/First.antt =====
-- The first chunk that Next may take: internal/gate/next.go.
use mathlib.Core.Path.{subst}
use lab_game.Prelude.{
  ℕ, zero, suc, ◌+◌, ◌^◌, ◌<◌, ◌≡◌, ◌↔◌, refl, sym, ap, ◌∙◌, arith, ◌⊎◌, inl, inr, List, [], ◌∷◌,
  get_elem?, some_inj, some, true, false, Bool-cases,
}
use lab_game.Prelude.Int.{pos, ◌+ℤ◌, ◌≤ℤ◌, ltb_ℤ, add_pos, wrap64, wrap64_self}
use lab_game.Prelude.Members.{◌∈◌}
use lab_game.Hexgrid.Coord.{Chunk, distance}
use lab_game.Hexgrid.Coord.Steps.{coord_eq_iff}
use lab_game.Gate.Next.{contains, far_enough, scan}

pub contains_iff : (chs : List Chunk) (ch : Chunk) → (contains chs ch ≡ true) ↔ (ch ∈ chs)
unfolding contains
contains_iff [] ch = (λ h. cc, λ h. absurd h)
contains_iff (x ∷ xs) ch =
    let ih = contains_iff xs ch in let e = coord_eq_iff ch x in (ground arith, ground arith)

-- A chunk may be a gate: it is new, and no gate is within distance k.
pub record Admissible (created gates : List Chunk) (k : ℕ) (ch : Chunk) : Type 0 where
  pub is_new : ¬ (ch ∈ created)
  pub spaced : (g : Chunk) → g ∈ gates → pos (k + 1) ≤ℤ distance ch g

far_enough_iff :
    (ch : Chunk) (gates : List Chunk) (k : ℕ)
    → k + 1 < 2 ^ 63
    → (far_enough ch gates (pos k) ≡ true)
      ↔ ((g : Chunk) → g ∈ gates → pos (k + 1) ≤ℤ distance ch g)
unfolding far_enough
far_enough_iff ch [] k hk = (λ h g m. absurd m, λ h. refl)
far_enough_iff ch (x ∷ xs) k hk =
    let ih = far_enough_iff ch xs k hk in
    let one = ap wrap64 (add_pos k 1) ∙ wrap64_self (pos (k + 1)) (hk, omega arith) in
    elim (Bool-cases (ltb_ℤ (distance ch x) (wrap64 (pos k +ℤ pos 1)))) [
      | inl near ↦ rw near (λ h. cc, λ h. absurd (ground (arith, near, one, h x (inl refl))))
      | inr far ↦ rw far (
        λ h g. elim [ inl e ↦ rw e (ground (arith, far, one)) | inr m ↦ ih.0 h g m ],
        λ h. ih.1 (λ g m. h g (inr m)),
      )
    ]

abbrev Rejects : List Chunk → List Chunk → ℕ → List Chunk → Type 0
Rejects created gates k [] = Unit {0}
Rejects created gates k (ch ∷ chs) = (¬ Admissible created gates k ch) × Rejects created gates k chs

-- A chunk of a list is admissible, and those before it are not.
pub data IsFirst (created gates : List Chunk) (k : ℕ) : List Chunk → Chunk → Type 0 where
  here :
      (ch : Chunk) (chs : List Chunk)
      → Admissible created gates k ch
      → IsFirst created gates k (ch ∷ chs) ch
  later :
      (x : Chunk) (chs : List Chunk) (ch : Chunk)
      → ¬ Admissible created gates k x
      → IsFirst created gates k chs ch
      → IsFirst created gates k (x ∷ chs) ch

module _ (created gates : List Chunk) (k : ℕ) (hk : k + 1 < 2 ^ 63) where
  admit :
      (ch : Chunk)
      → contains created ch ≡ false
      → far_enough ch gates (pos k) ≡ true
      → Admissible created gates k ch
  admit ch new far = record {
    is_new = λ m. cc (sym new ∙ (contains_iff created ch).1 m);
    spaced = (far_enough_iff ch gates k hk).0 far;
  }

  pass :
      (x : Chunk) (xs : List Chunk) (ch fallback : Chunk)
      → ¬ Admissible created gates k x
      → IsFirst created gates k xs ch ⊎ (ch ≡ fallback) × Rejects created gates k xs
      → IsFirst created gates k (x ∷ xs) ch ⊎ (ch ≡ fallback) × Rejects created gates k (x ∷ xs)
  pass x xs ch fallback out (inl f) = inl (later x xs ch out f)
  pass x xs ch fallback out (inr (e, r)) = inr (e, (out, r))

  -- The loop returns the first admissible chunk, or the fallback where there is none.
  pub scan_lem :
      (chs : List Chunk) (fallback : Chunk)
      → IsFirst created gates k chs (scan created gates (pos k) chs fallback)
        ⊎ (scan created gates (pos k) chs fallback ≡ fallback) × Rejects created gates k chs
  unfolding scan
  scan_lem [] fallback = inr (refl, tt)
  scan_lem (x ∷ xs) fallback =
      let rest = scan_lem xs fallback in
      elim (Bool-cases (contains created x)) [
        | inl old ↦
            rw old (pass x xs _ fallback (λ a. a.is_new ((contains_iff created x).0 old)) rest)
        | inr new ↦ elim (Bool-cases (far_enough x gates (pos k))) [
          | inl far ↦ rw (new, far) (inl (here x xs (admit x new far)))
          | inr near ↦
              rw (new, near)
                (pass x xs _ fallback
                  (λ a. absurd (cc (sym near ∙ (far_enough_iff x gates k hk).1 a.spaced))) rest)
        ]
      ]

  pub Rejects-get :
      (chs : List Chunk) (j : ℕ) (c : Chunk)
      → Rejects created gates k chs
      → get_elem? chs j ≡ some c
      → ¬ Admissible created gates k c
  Rejects-get [] j c r e = cc
  Rejects-get (x ∷ xs) zero c r e = subst (λ t. ¬ Admissible created gates k t) (some_inj x c e) r.0
  Rejects-get (x ∷ xs) (suc j) c r e = Rejects-get xs j c r.1 e

  -- Where the first admissible chunk stands, and what stands before it.
  pub record Stands (chs : List Chunk) (ch : Chunk) : Type 0 where
    pub i : ℕ
    pub at : get_elem? chs i ≡ some ch
    pub admissible : Admissible created gates k ch
    pub before :
        (j : ℕ) (c : Chunk) → j < i → get_elem? chs j ≡ some c → ¬ Admissible created gates k c

  pub IsFirst-Stands :
      {chs : List Chunk} {ch : Chunk} → IsFirst created gates k chs ch → Stands chs ch
  IsFirst-Stands (here ch chs a) = record {
    i = 0;
    at = refl;
    admissible = a;
    before = λ j c h. absurd (omega arith);
  }
  IsFirst-Stands (later x chs ch out f) =
      let s = IsFirst-Stands f in
      record {
        i = suc s.i;
        at = s.at;
        admissible = s.admissible;
        before = elim [
          | zero ↦ λ c h e. subst (λ t. ¬ Admissible created gates k t) (some_inj x c e) out
          | suc j ↦ λ c h e. s.before j c (omega arith) e
        ];
      }
