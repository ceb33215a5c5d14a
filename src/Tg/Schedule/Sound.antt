-- ===== src/Tg/Schedule/Sound.antt =====
-- The invariant of a schedule of internal/tg/limit.go, and its writes.
use lab_game.Prelude.{
  suc, ◌+◌, ◌≡◌, ap, ◌∙◌, arith, Bool, true, false, List, [], ◌∷◌, get_elem?, if◌then◌else◌,
}
use lab_game.Prelude.Int.{ℤ, pos, neg_ℤ, ◌+ℤ◌, ltb_ℤ, leb_ℤ}
use lab_game.Prelude.Members.{◌∈◌}
use lab_game.Tg.Schedule.{
  Window, Schedule, ScheduleKind, new_schedule, holds, commit, evict, max_per, drop_before,
}
use lab_game.Tg.Schedule.Spaced.{KeepsWindow, KeepsWindows, commit-KeepsWindows}
use lab_game.Tg.Schedule.Earliest.{IsPositive}

pub record IsSound (s : Schedule) : Type 0 where
  pub positive : (w : Window) → w ∈ s.windows → IsPositive w
  pub kept : KeepsWindows s.grants s.windows

pub new_schedule-IsSound :
    (kind : ScheduleKind) (ws : List Window)
    → ((w : Window) → w ∈ ws → IsPositive w)
    → IsSound (new_schedule kind ws)
unfolding new_schedule
new_schedule-IsSound kind ws h = record { positive = h; kept = λ w m j a b ea eb. absurd cc }

commit_parts :
    (kind : ScheduleKind) (ws : List Window) (gs : List ℤ) (t : ℤ)
    → let s : Schedule = record { kind = kind; windows = ws; grants = gs } in
      IsSound s → holds s t ≡ true → IsSound (commit s t)
unfolding commit
commit_parts kind [] gs t h e = h
commit_parts kind (w ∷ ws) gs t h e =
    let s : Schedule = record { kind = kind; windows = w ∷ ws; grants = gs } in
    record { positive = h.positive; kept = commit-KeepsWindows s t h.kept e }

pub commit-IsSound : (s : Schedule) (t : ℤ) → IsSound s → holds s t ≡ true → IsSound (commit s t)
commit-IsSound s t h e = commit_parts s.kind s.windows s.grants t h e

tail-KeepsWindow : (g : ℤ) (gs : List ℤ) (w : Window) → KeepsWindow (g ∷ gs) w → KeepsWindow gs w
tail-KeepsWindow g gs w h j a b ea eb =
    let shift : suc j + w.count ≡ suc (j + w.count) = omega arith in
    h (suc j) a b ea (ap (get_elem? (g ∷ gs)) shift ∙ eb)

drop_before-KeepsWindow :
    (threshold : ℤ) (gs : List ℤ) (w : Window)
    → KeepsWindow gs w
    → KeepsWindow (drop_before threshold gs) w
drop_before-KeepsWindow threshold [] w h = h
drop_before-KeepsWindow threshold (g ∷ gs) w h =
    go (ltb_ℤ g threshold) (drop_before-KeepsWindow threshold gs w (tail-KeepsWindow g gs w h))
  where
    go :
        (b : Bool)
        → KeepsWindow (drop_before threshold gs) w
        → KeepsWindow (if b then drop_before threshold gs else g ∷ gs) w
    go true k = k
    go false k = h

-- Eviction keeps the invariant.
pub evict-IsSound : (s : Schedule) (now : ℤ) → IsSound s → IsSound (evict s now)
unfolding evict
evict-IsSound s now h = go (leb_ℤ (max_per s) (pos 0))
  where
    left : Schedule
    left = record {
      kind = s.kind;
      windows = s.windows;
      grants = drop_before (now +ℤ neg_ℤ (max_per s)) s.grants;
    }

    go : (b : Bool) → IsSound (if b then s else left)
    go true = h
    go false = record {
      positive = h.positive;
      kept = λ w m. drop_before-KeepsWindow (now +ℤ neg_ℤ (max_per s)) s.grants w (h.kept w m);
    }
