-- ===== src/Gate/Depth/Nearest.antt =====
-- About the variables of depthSearch, internal/gate/depth.go.
use mathlib.Core.Path.{subst}
use lab_game.Prelude.{
  ◌≡◌, refl, sym, ◌∙◌, arith, ◌⊎◌, inl, inr, List, [], ◌∷◌, Bool, true, false, ◌&&◌, ◌||◌, not,
  Bool-cases, if◌then◌else◌,
}
use lab_game.Prelude.Int.{ℤ, ◌≤ℤ◌, ltb_ℤ}
use lab_game.Prelude.Members.{◌∈◌}
use lab_game.Hexgrid.Coord.{Coord, Chunk, distance}
use lab_game.Hexgrid.Lattice.{center}
use lab_game.Gate.Next.{contains}
use lab_game.Gate.Next.First.{contains_iff}
use lab_game.Gate.Depth.{GateSet, Best, visit, depth}

module _ (s : GateSet) (cell : Coord) where
  -- The distance of the cell to the centre of a gate chunk.
  abbrev pub to_gate : Chunk → ℤ
  to_gate g = distance cell (center s.lattice g)

  -- d is the least distance to a gate.
  pub record IsLeast (d : ℤ) : Type 0 where
    pub gate : Chunk
    pub is_member : gate ∈ s.members
    pub reached : d ≡ to_gate gate
    pub least : (h : Chunk) → h ∈ s.members → d ≤ℤ to_gate h

  -- The variables of the search, when the gates with `seen` have been visited.
  abbrev pub Kept : (Chunk → Type 0) → Best → Type 0
  Kept seen (d, false) = (g : Chunk) → g ∈ s.members → ¬ seen g
  Kept seen (d, true) =
      ((g : Chunk) × (g ∈ s.members) × (d ≡ to_gate g))
      × ((h : Chunk) → h ∈ s.members → seen h → d ≤ℤ to_gate h)

  pub Kept-less :
      (seen other : Chunk → Type 0) (best : Best)
      → ((g : Chunk) → g ∈ s.members → other g → seen g)
      → Kept seen best
      → Kept other best
  Kept-less seen other (d, false) f k = λ g m o. k g m (f g m o)
  Kept-less seen other (d, true) f k = (k.0, λ h m o. k.1 h m (f h m o))

  abbrev visit_one : Chunk → Best → Best
  visit_one ch (depth, found) =
      let d = to_gate ch in
      if contains s.members ch && (not found || ltb_ℤ d depth) then (d, true) else (depth, found)

  compare_one :
      (seen : Chunk → Type 0) (ch : Chunk) (d : ℤ) (found : Bool)
      → ch ∈ s.members
      → Kept seen (d, found)
      → Kept
          (λ g. seen g ⊎ (g ≡ ch))
          (if not found || ltb_ℤ (to_gate ch) d then (to_gate ch, true) else (d, found))
  compare_one seen ch d false m k =
      ((ch, m, refl), λ h mh. elim [ inl o ↦ absurd (k h mh o) | inr e ↦ rw e (omega arith) ])
  compare_one seen ch d true m k = elim (Bool-cases (ltb_ℤ (to_gate ch) d)) [
    | inl less ↦ rw less (
      (ch, m, refl),
      λ h mh. elim [ inl o ↦ ground (arith, less, k.1 h mh o) | inr e ↦ rw e (omega arith) ],
    )
    | inr more ↦
        rw more (k.0, λ h mh. elim [ inl o ↦ k.1 h mh o | inr e ↦ rw e (ground (arith, more)) ])
  ]

  visit_one-Kept :
      (seen : Chunk → Type 0) (ch : Chunk) (best : Best)
      → Kept seen best
      → Kept (λ g. seen g ⊎ (g ≡ ch)) (visit_one ch best)
  visit_one-Kept seen ch (d, found) k = elim (Bool-cases (contains s.members ch)) [
    | inr out ↦ rw out (
        Kept-less seen _ (d, found)
          (λ g m. elim [
            | inl o ↦ o
            | inr e ↦
                absurd
                  (cc (sym out ∙ (contains_iff s.members ch).1 (subst (λ t. t ∈ s.members) e m)))
          ])
          k)
    | inl member ↦ rw member (compare_one seen ch d found ((contains_iff s.members ch).0 member) k)
  ]

  pub visit-Kept :
      (seen : Chunk → Type 0) (chs : List Chunk) (best : Best)
      → Kept seen best
      → Kept (λ g. seen g ⊎ (g ∈ chs)) (visit s cell chs best)
  unfolding visit
  visit-Kept seen [] best k =
      Kept-less seen _ best (λ g m. elim [ inl o ↦ o | inr no_one ↦ absurd no_one ]) k
  visit-Kept seen (ch ∷ chs) (d, found) k =
      let next =
        visit-Kept (λ g. seen g ⊎ (g ≡ ch)) chs (visit_one ch (d, found))
          (visit_one-Kept seen ch (d, found) k) in
      Kept-less (λ g. (seen g ⊎ (g ≡ ch)) ⊎ (g ∈ chs)) _
        (visit s cell chs (visit_one ch (d, found)))
        (λ g m. elim [ inl o ↦ inl (inl o) | inr (inl e) ↦ inl (inr e) | inr (inr n) ↦ inr n ]) next
