-- ===== src/Tg/Schedule/Candidates.antt =====
-- About the candidates of earliest, internal/tg/limit.go.
use lab_game.Prelude.{
  ◌≡◌, refl, sym, ap, ◌∙◌, ◌↔◌, arith, Bool, true, false, Bool-cases, ◌⊎◌, inl, inr, List, [], ◌∷◌,
  map, filter, some, if◌then◌else◌,
}
use lab_game.Prelude.Int.{ℤ, ◌+ℤ◌, ◌≤ℤ◌, ◌<ℤ◌, ltb_ℤ}
use lab_game.Prelude.Members.{◌∈◌, mem-append, mem-map}
use lab_game.Tg.Schedule.{
  Window, Schedule, insert_grant, holds, sort_times, expiries, first_that_holds,
}

mem-insert_grant : (gs : List ℤ) (t a : ℤ) → (a ∈ insert_grant gs t) ↔ ((a ≡ t) ⊎ (a ∈ gs))
unfolding insert_grant
mem-insert_grant [] t a = (λ h. h, λ h. h)
mem-insert_grant (g ∷ gs) t a = go (ltb_ℤ g t) (mem-insert_grant gs t a)
  where
    go :
        (b : Bool)
        → (a ∈ insert_grant gs t) ↔ ((a ≡ t) ⊎ (a ∈ gs))
        → (a ∈ (if b then g ∷ insert_grant gs t else t ∷ g ∷ gs)) ↔ ((a ≡ t) ⊎ (a ∈ g ∷ gs))
    go false ih = (λ h. h, λ h. h)
    go true ih = (
      elim [ inl e ↦ inr (inl e) | inr m ↦ elim (ih.0 m) [ inl e ↦ inl e | inr n ↦ inr (inr n) ] ],
      elim [ inl e ↦ inr (ih.1 (inl e)) | inr (inl e) ↦ inl e | inr (inr n) ↦ inr (ih.1 (inr n)) ],
    )

pub mem-sort_times : (ts : List ℤ) (a : ℤ) → (a ∈ sort_times ts) ↔ (a ∈ ts)
mem-sort_times [] a = (λ h. h, λ h. h)
mem-sort_times (t ∷ ts) a =
    let ih = mem-sort_times ts a in
    let i = mem-insert_grant (sort_times ts) t a in
    (
      λ h. elim (i.0 h) [ inl e ↦ inl e | inr m ↦ inr (ih.0 m) ],
      elim [ inl e ↦ i.1 (inl e) | inr m ↦ i.1 (inr (ih.1 m)) ],
    )

mem-filter : (p : ℤ → Bool) (xs : List ℤ) (a : ℤ) → (a ∈ filter p xs) ↔ ((a ∈ xs) × (p a ≡ true))
mem-filter p [] a = (λ h. absurd h, λ h. absurd h.0)
mem-filter p (x ∷ xs) a = go (p x) refl (mem-filter p xs a)
  where
    go :
        (b : Bool)
        → p x ≡ b
        → (a ∈ filter p xs) ↔ ((a ∈ xs) × (p a ≡ true))
        → (a ∈ (if b then x ∷ filter p xs else filter p xs)) ↔ ((a ∈ x ∷ xs) × (p a ≡ true))
    go true e ih = (
      elim [ inl same ↦ (inl same, ap p same ∙ e) | inr m ↦ let k = ih.0 m in (inr k.0, k.1) ],
      λ (m, q). elim m [ inl same ↦ inl same | inr n ↦ inr (ih.1 (n, q)) ],
    )
    go false e ih = (
      λ m. let k = ih.0 m in (inr k.0, k.1),
      λ (m, q). elim m [ inl same ↦ absurd (cc (sym q ∙ ap p same ∙ e)) | inr n ↦ ih.1 (n, q) ],
    )

pub after_candidate :
    (candidate : ℤ) (ws : List Window) (gs : List ℤ) (a : ℤ)
    → a ∈ expiries candidate ws gs
    → candidate <ℤ a
unfolding expiries
after_candidate candidate [] gs a m = absurd m
after_candidate candidate (w ∷ ws) gs a m =
    elim ((mem-append a (filter (λ t. ltb_ℤ candidate t) (map (λ g. g +ℤ w.per) gs))
        (expiries candidate ws gs)).0
      m) [
        | inl n ↦
            let k = ((mem-filter (λ t. ltb_ℤ candidate t) (map (λ g. g +ℤ w.per) gs) a).0 n).1 in
            ground (arith, k)
        | inr n ↦ after_candidate candidate ws gs a n
      ]

pub mem-expiries :
    (candidate : ℤ) (ws : List Window) (gs : List ℤ) (w : Window) (g : ℤ)
    → w ∈ ws
    → g ∈ gs
    → candidate <ℤ g +ℤ w.per
    → g +ℤ w.per ∈ expiries candidate ws gs
unfolding expiries
mem-expiries candidate [] gs w g m n lt = absurd m
mem-expiries candidate (v ∷ vs) gs w g m n lt =
    (mem-append (g +ℤ w.per) (filter (λ t. ltb_ℤ candidate t) (map (λ x. x +ℤ v.per) gs))
        (expiries candidate vs gs)).1
      (elim m [
        | inl same ↦
            let t : ltb_ℤ candidate (g +ℤ w.per) ≡ true = ground (arith, lt) in
            inl (
              (mem-filter (λ t. ltb_ℤ candidate t) (map (λ x. x +ℤ v.per) gs) (g +ℤ w.per)).1 (
                (mem-map (λ x. x +ℤ v.per) (g +ℤ w.per) gs).1
                    (g, n, ap (λ (u : Window). g +ℤ u.per) same),
                t,
              ))
        | inr k ↦ inr (mem-expiries candidate vs gs w g k n lt)
      ])

-- A list that is not empty has a greatest element.
pub greatest : (x : ℤ) (xs : List ℤ) → (m : ℤ) × (m ∈ x ∷ xs) × ((y : ℤ) → y ∈ x ∷ xs → y ≤ℤ m)
greatest x [] = (x, inl refl, λ y. elim [ inl e ↦ rw e (omega arith) | inr n ↦ absurd n ])
greatest x (z ∷ zs) =
    let (m, n, h) = greatest z zs in
    elim (Bool-cases (ltb_ℤ m x)) [
      | inl e ↦
          let lt : m <ℤ x = ground (arith, e) in
          (
            x,
            inl refl,
            λ y. elim [ inl same ↦ rw same (omega arith) | inr k ↦ omega (arith, h y k) ],
          )
      | inr e ↦
          let le : x ≤ℤ m = ground (arith, e) in
          (m, inr n, λ y. elim [ inl same ↦ rw same (omega arith) | inr k ↦ h y k ])
    ]

pub first_that_holds_lem :
    (s : Schedule) (ts : List ℤ) (m : ℤ)
    → m ∈ ts
    → holds s m ≡ true
    → (t : ℤ) × (first_that_holds s ts ≡ some t) × (holds s t ≡ true) × (t ∈ ts)
unfolding first_that_holds
first_that_holds_lem s [] m n h = absurd n
first_that_holds_lem s (t ∷ ts) m n h = elim (Bool-cases (holds s t)) [
  | inl e ↦ (t, rw e refl, e, inl refl)
  | inr e ↦ elim n [
    | inl same ↦ absurd (cc (sym h ∙ ap (holds s) same ∙ e))
    | inr k ↦ let (u, f, q, i) = first_that_holds_lem s ts m k h in (u, rw e f, q, inr i)
  ]
]
