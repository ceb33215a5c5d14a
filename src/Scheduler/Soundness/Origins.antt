-- ===== src/Scheduler/Soundness/Origins.antt =====
-- Where the rows of a changed table come from: internal/scheduler/settle.go.
use lab_game.Prelude.{
  ℕ, ◌≡◌, ◌≢◌, refl, sym, ap, ◌∙◌, ◌==◌, Bool, true, false, if◌then◌else◌, List, [], ◌∷◌, Option,
  none, some, ◌⊎◌, inl, inr, ==_iff,
}
use lab_game.Prelude.Members.{◌∈◌}
use lab_game.Scheduler.Task.{Row}
use lab_game.Scheduler.Settle.Meaning.{replace}

-- Where a row of a changed table comes from.
abbrev pub Origin : ℕ → (Row → Option Row) → List Row → Row → Type 0
Origin id f rows y =
    (x : Row) × (x ∈ rows) × (((x.id ≡ id) × (f x ≡ some y)) ⊎ ((x.id ≢ id) × (y ≡ x)))

widen :
    (id : ℕ) (f : Row → Option Row) (x : Row) (xs : List Row) (y : Row)
    → Origin id f xs y
    → Origin id f (x ∷ xs) y
widen id f x xs y (z, m, e) = (z, inr m, e)

pub mem-replace :
    (id : ℕ) (f : Row → Option Row) (rows : List Row) (y : Row)
    → y ∈ replace id f rows
    → Origin id f rows y
unfolding replace
mem-replace id f [] y m = absurd m
mem-replace id f (x ∷ xs) y m =
    go (x.id == id) (f x) ((==_iff x.id id).0) (λ e h. absurd (cc ((==_iff x.id id).1 h))) refl
      (λ n. widen id f x xs y (mem-replace id f xs y n)) m
  where
    rest : List Row
    rest = replace id f xs

    go :
        (b : Bool) (o : Option Row)
        → (b ≡ true → x.id ≡ id)
        → (b ≡ false → x.id ≢ id)
        → f x ≡ o
        → (y ∈ rest → Origin id f (x ∷ xs) y)
        → y
          ∈ (if b then elim o as (λ u. List Row) [ none ↦ rest | some z ↦ z ∷ rest ] else x ∷ rest)
        → Origin id f (x ∷ xs) y
    go false o h k e ih (inl n) = (x, inl refl, inr (k refl, n))
    go false o h k e ih (inr n) = ih n
    go true none h k e ih n = ih n
    go true (some z) h k e ih (inl n) = (x, inl refl, inl (h refl, e ∙ ap some (sym n)))
    go true (some z) h k e ih (inr n) = ih n
