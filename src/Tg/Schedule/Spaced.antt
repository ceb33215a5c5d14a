-- ===== src/Tg/Schedule/Spaced.antt =====
-- About holds and commit, internal/tg/limit.go.
use mathlib.Core.Path.{subst}
use lab_game.Prelude.{
  ℕ, zero, suc, ◌+◌, ◌-◌, ◌≤◌, ◌<◌, ◌≡◌, refl, sym, ap, ◌∙◌, arith, Bool, true, ◌&&◌, Bool-cases,
  inl, inr, le_cases, lt_cases, List, [], ◌∷◌, get_elem?, some,
}
use lab_game.Prelude.Int.{ℤ, ◌-ℤ◌, ◌≤ℤ◌, ltb_ℤ, leb_ℤ}
use lab_game.Prelude.Members.{◌∈◌}
use lab_game.Tg.Schedule.{
  Window, Schedule, search, insert_grant, spaced_by, apart, window_holds, windows_hold, holds,
  commit,
}

-- No half-open interval of the window's length holds more than its count of grants: the grants that stand count places
-- apart are the length apart.
abbrev pub KeepsWindow : List ℤ → Window → Type 0
KeepsWindow grants w =
    (j : ℕ) (a b : ℤ)
    → get_elem? grants j ≡ some a
    → get_elem? grants (j + w.count) ≡ some b
    → w.per ≤ℤ b -ℤ a

abbrev pub KeepsWindows : List ℤ → List Window → Type 0
KeepsWindows grants ws = (w : Window) → w ∈ ws → KeepsWindow grants w

both_true : (a b : Bool) → a && b ≡ true → (a ≡ true) × (b ≡ true)
both_true a b e = ground arith

commit_grants :
    (s : Schedule) (t : ℤ) (w : Window)
    → w ∈ s.windows
    → (commit s t).grants ≡ insert_grant s.grants t
unfolding commit
commit_grants s t w m = go s.windows m refl
  where
    go :
        (ws : List Window) → w ∈ ws → s.windows ≡ ws → (commit s t).grants ≡ insert_grant s.grants t
    go [] n e = absurd n
    go (x ∷ xs) n e = rw e refl

pub get-insert_before :
    (gs : List ℤ) (t : ℤ) (k : ℕ)
    → k < search gs t
    → get_elem? (insert_grant gs t) k ≡ get_elem? gs k
unfolding search insert_grant
get-insert_before [] t k h = absurd (omega arith)
get-insert_before (g ∷ gs) t k h = elim (Bool-cases (ltb_ℤ g t)) [
  | inr e ↦ absurd (nothing_before (rw e at h))
  | inl e ↦ rw e (past k (rw e at h) (get-insert_before gs t))
]
  where
    nothing_before : k < 0 → ⊥
    nothing_before n = absurd (omega arith)

    past :
        (k : ℕ)
        → k < suc (search gs t)
        → ((i : ℕ) → i < search gs t → get_elem? (insert_grant gs t) i ≡ get_elem? gs i)
        → get_elem? (g ∷ insert_grant gs t) k ≡ get_elem? (g ∷ gs) k
    past zero n ih = refl
    past (suc k) n ih = ih k (omega arith)

pub get-insert_after :
    (gs : List ℤ) (t : ℤ) (k : ℕ)
    → search gs t ≤ k
    → get_elem? (insert_grant gs t) (suc k) ≡ get_elem? gs k
unfolding search insert_grant
get-insert_after [] t k h = refl
get-insert_after (g ∷ gs) t k h = elim (Bool-cases (ltb_ℤ g t)) [
  | inr e ↦ rw e refl
  | inl e ↦ rw e (past k (rw e at h) (get-insert_after gs t))
]
  where
    past :
        (k : ℕ)
        → suc (search gs t) ≤ k
        → ((i : ℕ) → search gs t ≤ i → get_elem? (insert_grant gs t) (suc i) ≡ get_elem? gs i)
        → get_elem? (insert_grant gs t) k ≡ get_elem? (g ∷ gs) k
    past zero n ih = absurd (omega arith)
    past (suc k) n ih = ih k (omega arith)

-- What holds tests: each pair of places from j on.
window_holds_lem :
    (grants : List ℤ) (w : Window) (j left i : ℕ)
    → window_holds grants w j left ≡ true
    → j ≤ i
    → i < j + left
    → apart grants i (i + w.count) w.per ≡ true
unfolding window_holds
window_holds_lem grants w j zero i e le lt = absurd (omega arith)
window_holds_lem grants w j (suc left) i e le lt = elim (le_cases j i le) [
  | inl same ↦ subst (λ k. apart grants k (k + w.count) w.per ≡ true) same (both_true _ _ e).0
  | inr less ↦ window_holds_lem grants w (suc j) left i (both_true _ _ e).1 less (omega arith)
]

apart_lem :
    (grants : List ℤ) (j k : ℕ) (per a b : ℤ)
    → apart grants j k per ≡ true
    → get_elem? grants j ≡ some a
    → get_elem? grants k ≡ some b
    → per ≤ℤ b -ℤ a
unfolding apart
apart_lem grants j k per a b e ea eb =
    let t : leb_ℤ per (b -ℤ a) ≡ true =
      sym
        (ap (λ o. spaced_by o (get_elem? grants k) per) ea ∙ ap (λ o. spaced_by (some a) o per) eb)
      ∙ e in
    ground (arith, t)

windows_hold_lem :
    (grants : List ℤ) (ws : List Window) (idx : ℕ)
    → windows_hold grants ws idx ≡ true
    → (w : Window) → w ∈ ws
    → window_holds grants w (idx - w.count) (suc idx - (idx - w.count)) ≡ true
unfolding windows_hold
windows_hold_lem grants [] idx e w m = absurd m
windows_hold_lem grants (x ∷ xs) idx e w (inl same) =
    subst (λ v. window_holds grants v (idx - v.count) (suc idx - (idx - v.count)) ≡ true) (sym same)
      (both_true _ _ e).0
windows_hold_lem grants (x ∷ xs) idx e w (inr m) =
    windows_hold_lem grants xs idx (both_true _ _ e).1 w m

insert-KeepsWindow :
    (gs : List ℤ) (t : ℤ) (w : Window)
    → KeepsWindow gs w
    → window_holds
        (insert_grant gs t)
        w
        (search gs t - w.count)
        (suc (search gs t) - (search gs t - w.count))
      ≡ true
    → KeepsWindow (insert_grant gs t) w
insert-KeepsWindow gs t w h e j a b ea eb = elim (lt_cases (j + w.count) (search gs t)) [
  | inl before ↦
      h j a b (sym (get-insert_before gs t j (omega arith)) ∙ ea)
        (sym (get-insert_before gs t (j + w.count) before) ∙ eb)
  | inr reach ↦ elim (lt_cases (search gs t) j) [
    | inl after ↦ behind j after ea eb
    | inr touches ↦
        apart_lem (insert_grant gs t) j (j + w.count) w.per a b
          (window_holds_lem (insert_grant gs t) w (search gs t - w.count)
            (suc (search gs t) - (search gs t - w.count)) j e (omega arith) (omega arith))
          ea eb
  ]
]
  where
    behind :
        (j : ℕ)
        → search gs t < j
        → get_elem? (insert_grant gs t) j ≡ some a
        → get_elem? (insert_grant gs t) (j + w.count) ≡ some b
        → w.per ≤ℤ b -ℤ a
    behind zero after fa fb = absurd (omega arith)
    behind (suc i) after fa fb =
        let shift : suc i + w.count ≡ suc (i + w.count) = omega arith in
        h i a b (sym (get-insert_after gs t i (omega arith)) ∙ fa) (
          sym (get-insert_after gs t (i + w.count) (omega arith))
          ∙ ap (get_elem? (insert_grant gs t)) (sym shift)
          ∙ fb)

-- A committed grant for which holds is true keeps every window that the grants before it keep, wherever it stands
-- among them.
pub commit-KeepsWindows :
    (s : Schedule) (t : ℤ)
    → KeepsWindows s.grants s.windows
    → holds s t ≡ true
    → KeepsWindows (commit s t).grants s.windows
unfolding holds
commit-KeepsWindows s t h e w m =
    subst (λ gs. KeepsWindow gs w) (sym (commit_grants s t w m))
      (insert-KeepsWindow s.grants t w (h w m)
        (windows_hold_lem (insert_grant s.grants t) s.windows (search s.grants t) e w m))
