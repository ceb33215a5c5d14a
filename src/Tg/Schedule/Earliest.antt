-- ===== src/Tg/Schedule/Earliest.antt =====
-- About holds at an instant that is outside every window, internal/tg/limit.go.
use lab_game.Prelude.{
  ℕ, zero, suc, ◌+◌, ◌-◌, ◌≤◌, ◌<◌, ◌≡◌, refl, sym, ap, ◌∙◌, arith, true, Bool-cases, inl, inr,
  le_cases, List, [], ◌∷◌, length, get_elem?, get_lt, Option, some, none, some_inj,
}
use lab_game.Prelude.Int.{
  ℤ, pos, pos_part, neg_part, ◌+ℤ◌, ◌-ℤ◌, ◌≤ℤ◌, ◌<ℤ◌, ltb_ℤ, +ℤ_parts, -ℤ_parts,
}
use lab_game.Prelude.Members.{◌∈◌}
use lab_game.Tg.Schedule.{
  Window, Schedule, search, insert_grant, spaced_by, apart, window_holds, windows_hold, holds,
}
use lab_game.Tg.Schedule.Spaced.{get-insert_before, get-insert_after}

-- A window that the configuration can give.
abbrev pub IsPositive : Window → Type 0
IsPositive w = (1 ≤ w.count) × (pos 0 <ℤ w.per)

-- The grants all lie out of the windows that end at t.
abbrev pub Outside : List ℤ → ℤ → Window → Type 0
Outside gs t w = (g : ℤ) → g ∈ gs → g +ℤ w.per ≤ℤ t

get-mem : (gs : List ℤ) (i : ℕ) (g : ℤ) → get_elem? gs i ≡ some g → g ∈ gs
get-mem [] i g e = absurd cc
get-mem (x ∷ xs) zero g e = inl (sym (some_inj x g e))
get-mem (x ∷ xs) (suc i) g e = inr (get-mem xs i g e)

search-length : (gs : List ℤ) (t : ℤ) → ((g : ℤ) → g ∈ gs → g <ℤ t) → search gs t ≡ length gs
unfolding search
search-length [] t h = refl
search-length (g ∷ gs) t h =
    let lt : ltb_ℤ g t ≡ true = ground (arith, h g (inl refl)) in
    rw lt (ap suc (search-length gs t (λ x m. h x (inr m))))

get-insert_here : (gs : List ℤ) (t : ℤ) → get_elem? (insert_grant gs t) (search gs t) ≡ some t
unfolding search insert_grant
get-insert_here [] t = refl
get-insert_here (g ∷ gs) t = elim (Bool-cases (ltb_ℤ g t)) [
  | inl e ↦ rw e (get-insert_here gs t)
  | inr e ↦ rw e refl
]

apart_intro :
    (grants : List ℤ) (j k : ℕ) (per : ℤ)
    → ((a b : ℤ) → get_elem? grants j ≡ some a → get_elem? grants k ≡ some b → per ≤ℤ b -ℤ a)
    → apart grants j k per ≡ true
unfolding apart
apart_intro grants j k per h = go (get_elem? grants j) (get_elem? grants k) h
  where
    go :
        (x y : Option ℤ)
        → ((a b : ℤ) → x ≡ some a → y ≡ some b → per ≤ℤ b -ℤ a)
        → spaced_by x y per ≡ true
    go none y f = refl
    go (some a) none f = refl
    go (some a) (some b) f = let le = f a b refl refl in ground arith

window_holds_intro :
    (grants : List ℤ) (w : Window) (j left : ℕ)
    → ((i : ℕ) → j ≤ i → i < j + left → apart grants i (i + w.count) w.per ≡ true)
    → window_holds grants w j left ≡ true
unfolding window_holds
window_holds_intro grants w j zero h = refl
window_holds_intro grants w j (suc left) h =
    rw
      (
        h j (omega arith) (omega arith),
        window_holds_intro grants w (suc j) left (λ i le lt. h i (omega arith) (omega arith)),
      )
      refl

module _ (gs : List ℤ) (t : ℤ) where
  Outside-apart :
      (w : Window) (i : ℕ)
      → IsPositive w
      → Outside gs t w
      → search gs t ≡ length gs
      → search gs t - w.count ≤ i
      → i < search gs t - w.count + (suc (search gs t) - (search gs t - w.count))
      → apart (insert_grant gs t) i (i + w.count) w.per ≡ true
  Outside-apart w i p out len lo hi =
      apart_intro (insert_grant gs t) i (i + w.count) w.per (λ a b ea eb.
        elim (le_cases (search gs t) (i + w.count) (omega arith)) [
          | inl here ↦
              let ga = get-mem gs i a (sym (get-insert_before gs t i (omega (arith, p.0))) ∙ ea) in
              let gb =
                some_inj t b
                  (sym (get-insert_here gs t) ∙ ap (get_elem? (insert_grant gs t)) here ∙ eb) in
              omega
                (arith, out a ga, +ℤ_parts a w.per, -ℤ_parts b a, ap pos_part gb, ap neg_part gb)
          | inr beyond ↦ absurd (no_place (i + w.count) b beyond eb)
        ])
    where
      no_place : (k : ℕ) (b : ℤ) → search gs t < k → get_elem? (insert_grant gs t) k ≡ some b → ⊥
      no_place zero b lt e = absurd (omega arith)
      no_place (suc k) b lt e =
          absurd
            (omega (arith, len, get_lt gs k b (sym (get-insert_after gs t k (omega arith)) ∙ e)))

  windows_hold-Outside :
      (ws : List Window)
      → ((w : Window) → w ∈ ws → IsPositive w × Outside gs t w)
      → search gs t ≡ length gs
      → windows_hold (insert_grant gs t) ws (search gs t) ≡ true
  unfolding windows_hold
  windows_hold-Outside [] h len = refl
  windows_hold-Outside (w ∷ ws) h len =
      let k = h w (inl refl) in
      rw
        (
          window_holds_intro (insert_grant gs t) w (search gs t - w.count)
              (suc (search gs t) - (search gs t - w.count))
              (λ i lo hi. Outside-apart w i k.0 k.1 len lo hi),
          windows_hold-Outside ws (λ v m. h v (inr m)) len,
        )
        refl

-- Behind the expiry of every window of every grant, holds is true.
pub holds-Outside :
    (s : Schedule) (t : ℤ) (w : Window)
    → w ∈ s.windows
    → ((v : Window) → v ∈ s.windows → IsPositive v × Outside s.grants t v)
    → holds s t ≡ true
unfolding holds
holds-Outside s t w m h = windows_hold-Outside s.grants t s.windows h (
    search-length s.grants t
      (λ g n. let k = h w m in omega (arith, k.1 g n, k.0.1, +ℤ_parts g w.per)))
