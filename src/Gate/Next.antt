-- ===== src/Gate/Next.antt =====
-- The placement rule: internal/gate/next.go and errors.go. A Go map that is used as a set of chunks
-- is the list of its keys.
pub mod First
pub mod Earliest
use lab_game.Prelude.{ℕ, ◌+◌, Bool, true, false, ◌&&◌, not, ◌||◌, if◌then◌else◌, List, [], ◌∷◌}
use lab_game.Prelude.Int.{ℤ, pos, pos_part, ◌+ℤ◌, ◌*ℤ◌, ◌/ℤ◌, neg_ℤ, ltb_ℤ, wrap32, wrap64}
use lab_game.Hexgrid.Coord.{Chunk, origin, distance, coord_eq}
use lab_game.Gate.Spiral.{spiral}

-- The errors of the package.
pub data GateError : Type 0 where
  negative_k negative_radius : GateError

pub data Result (A : Type 0) : Type 0 where
  ok : A → Result A
  err : GateError → Result A

-- A lookup in a set of chunks.
unfoldable pub contains : List Chunk → Chunk → Bool
contains [] ch = false
contains (x ∷ xs) ch = coord_eq ch x || contains xs ch

-- The loop that keeps the largest distance from the centre chunk.
unfoldable pub farthest : List Chunk → ℤ → ℤ
farthest [] m = m
farthest (ch ∷ chs) m = let d = distance origin ch in farthest chs (if ltb_ℤ m d then d else m)

unfoldable pub far_enough : Chunk → List Chunk → ℤ → Bool
far_enough ch [] k = true
far_enough ch (g ∷ gs) k =
    if ltb_ℤ (distance ch g) (wrap64 (k +ℤ pos 1)) then false else far_enough ch gs k

-- The loop over Spiral, on the chunks that it scans.
unfoldable pub scan : List Chunk → List Chunk → ℤ → List Chunk → Chunk → Chunk
unfolding contains far_enough
scan created gates k [] fallback = fallback
scan created gates k (ch ∷ chs) fallback =
    let rest = scan created gates k chs fallback in
    if contains created ch then rest else (if far_enough ch gates k then ch else rest)

unfoldable pub next : List Chunk → List Chunk → ℤ → Result Chunk
unfolding farthest scan
next created gates k =
    if ltb_ℤ k (pos 0)
    then err negative_k
    else let bound = wrap64 (farthest gates (farthest created (pos 0)) +ℤ k) in
      let scan_count = wrap64 (pos 1 +ℤ pos 3 *ℤ bound *ℤ (bound +ℤ pos 1)) in
      let fallback_ring = wrap64 (bound +ℤ pos 1) in
      ok (
        scan created gates k (spiral (pos_part scan_count))
          (record { q = wrap32 fallback_ring; r = wrap32 (neg_ℤ (fallback_ring /ℤ pos 2)) }))
