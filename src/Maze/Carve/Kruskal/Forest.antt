-- ===== src/Maze/Carve/Kruskal/Forest.antt =====
-- About buildKruskal, internal/maze/algorithms.go.
use mathlib.Core.Path.{subst}
use lab_game.Prelude.{
  ℕ, zero, suc, ◌<◌, ◌^◌, ◌≡◌, refl, sym, ap, ◌∙◌, arith, List, [], ◌∷◌, length, length-map,
  numbers, ◌==◌, ==_iff, true, false, Bool, ◌&&◌, Bool-cases, ◌⊎◌, inl, inr, some,
}
use lab_game.Prelude.Members.{◌∈◌}
use lab_game.Maze.Draw.{Stream, Run, ok, load, shuffle}
use lab_game.Maze.Draw.Bounds.{IsFair, EndsIn, load_ok, >>=-ok}
use lab_game.Maze.Draw.Rearrange.{count_pos, pos_count, Rearranges, shuffle-Rearranges}
use lab_game.Maze.Graph.{ChunkGraph, InteriorFace, cell_count, interior_faces}
use lab_game.Maze.Graph.Faces.{IsInner, interior_faces-IsInner, mem-filter}
use lab_game.Maze.Edges.{EdgeKey, EdgeSet, new_edge_key, add, non_island_interior_faces}
use lab_game.Maze.Edges.Linked.{Linked, stay, step, IsForest, Linked-more}
use lab_game.Maze.Carve.Kruskal.{relabel, join_faces, build_kruskal}
use lab_game.Maze.Carve.Kruskal.Labels.{Labels, numbers-Labels, joined-Labels}

-- The faces opened are faces of the list, have no cycle, and link the ends of each face of it.
pub record Spans (fs : List InteriorFace) (opened e : EdgeSet) : Type 0 where
  pub acyclic : IsForest e
  pub spans : (f : InteriorFace) → f ∈ fs → Linked e f.a f.b
  pub keeps : (a b : ℕ) → Linked opened a b → Linked e a b
  pub only :
      (k : EdgeKey)
      → k ∈ e
      → (k ∈ opened) ⊎ ((f : InteriorFace) × (f ∈ fs) × (k ≡ new_edge_key f.a f.b))

abbrev pub InBounds : ℕ → List InteriorFace → Type 0
InBounds n fs = (f : InteriorFace) → f ∈ fs → (f.a < n) × (f.b < n)

-- One iteration, with the labels read.
skip_face :
    (f : InteriorFace) (fs : List InteriorFace) (label : List ℕ) (opened : EdgeSet) (p x y : ℕ)
    (r : Run EdgeSet)
    → load label f.a p ≡ ok x p
    → load label f.b p ≡ ok y p
    → (x == y) ≡ true
    → join_faces fs label opened p ≡ r
    → join_faces (f ∷ fs) label opened p ≡ r
unfolding join_faces
skip_face f fs label opened p x y r lx ly e h =
    >>=-ok (load label f.a) _ lx (>>=-ok (load label f.b) _ ly (rw e h))

open_face :
    (f : InteriorFace) (fs : List InteriorFace) (label : List ℕ) (opened : EdgeSet) (p x y : ℕ)
    (r : Run EdgeSet)
    → load label f.a p ≡ ok x p
    → load label f.b p ≡ ok y p
    → (x == y) ≡ false
    → join_faces fs (relabel x y label) (add opened f.a f.b) p ≡ r
    → join_faces (f ∷ fs) label opened p ≡ r
unfolding join_faces
open_face f fs label opened p x y r lx ly e h =
    >>=-ok (load label f.a) _ lx (>>=-ok (load label f.b) _ ly (rw e h))

skip-Spans :
    (f : InteriorFace) (fs : List InteriorFace) (opened e : EdgeSet)
    → Linked opened f.a f.b
    → Spans fs opened e
    → Spans (f ∷ fs) opened e
skip-Spans f fs opened e l s = record {
  acyclic = s.acyclic;
  spans = λ g. elim [ inl same ↦ rw same (s.keeps f.a f.b l) | inr m ↦ s.spans g m ];
  keeps = s.keeps;
  only = λ k m. elim (s.only k m) [ inl o ↦ inl o | inr o ↦ inr (o.0, inr o.1, o.2) ];
}

open-Spans :
    (f : InteriorFace) (fs : List InteriorFace) (opened e : EdgeSet)
    → Linked (add opened f.a f.b) f.a f.b
    → Spans fs (add opened f.a f.b) e
    → Spans (f ∷ fs) opened e
unfolding add
open-Spans f fs opened e l s = record {
  acyclic = s.acyclic;
  spans = λ g. elim [ inl same ↦ rw same (s.keeps f.a f.b l) | inr m ↦ s.spans g m ];
  keeps = λ a b k. s.keeps a b (Linked-more opened (new_edge_key f.a f.b) a b k);
  only = λ k m. elim (s.only k m) [
    | inl (inl here) ↦ inr (f, inl refl, here)
    | inl (inr o) ↦ inl o
    | inr o ↦ inr (o.0, inr o.1, o.2)
  ];
}

length-relabel : (x y : ℕ) (label : List ℕ) → length (relabel x y label) ≡ length label
unfolding relabel
length-relabel x y label = length-map label _

link_opened : (opened : EdgeSet) (a b : ℕ) → Linked (add opened a b) a b
unfolding add
link_opened opened a b = step a b b (inl refl) (stay b)

join_faces-Spans :
    (fs : List InteriorFace) (label : List ℕ) (opened : EdgeSet) (p : ℕ)
    → Labels label opened
    → InBounds (length label) fs
    → (e : EdgeSet) × (join_faces fs label opened p ≡ ok e p) × Spans fs opened e
unfolding join_faces
join_faces-Spans [] label opened p h inside = (
  opened,
  refl,
  record { acyclic = h.acyclic; spans = λ f m. absurd m; keeps = λ a b l. l; only = λ k m. inl m },
)
join_faces-Spans (f ∷ fs) label opened p h inside =
    let ends = inside f (inl refl) in
    let (x, gx, lx) = load_ok label f.a p ends.0 in
    let (y, gy, ly) = load_ok label f.b p ends.1 in
    elim (Bool-cases (x == y)) [
      | inl e ↦
          let same : some y ≡ some x = ap some (sym ((==_iff x y).0 e)) in
          let (r, g, s) = join_faces-Spans fs label opened p h (λ g m. inside g (inr m)) in
          (
            r,
            skip_face f fs label opened p x y (ok r p) lx ly e g,
            skip-Spans f fs opened r (h.links f.a f.b x gx (gy ∙ same)) s,
          )
      | inr e ↦
          let inside' : InBounds (length (relabel x y label)) fs =
            subst (λ n. InBounds n fs) (sym (length-relabel x y label)) (λ g m. inside g (inr m)) in
          let (r, g, s) =
            join_faces-Spans fs (relabel x y label) (add opened f.a f.b) p
              (joined-Labels label opened h f.a f.b x y gx gy e) inside' in
          (
            r,
            open_face f fs label opened p x y (ok r p) lx ly e g,
            open-Spans f fs opened r (link_opened opened f.a f.b) s,
          )
    ]

-- A rearranged list has the same faces, up to their directions.
abbrev ends_eq : InteriorFace → InteriorFace → Bool
ends_eq f g = (g.a == f.a) && (g.b == f.b)

-- Faces with the ends of f stand in both lists.
mem-Rearranges :
    (ys xs : List InteriorFace) (f : InteriorFace)
    → Rearranges ys xs
    → f ∈ xs
    → (g : InteriorFace) × (g ∈ ys) × (g.a ≡ f.a) × (g.b ≡ f.b)
mem-Rearranges ys xs f r m =
    let self : ends_eq f f ≡ true = ground arith in
    let k = pos_count (ends_eq f) xs f m self in
    let (g, n, e) = count_pos (ends_eq f) ys (omega (arith, r.same_counts (ends_eq f))) in
    (g, n, ground (arith, e), ground (arith, e))

kruskal_step :
    (g : ChunkGraph) (islands : List ℕ) (s : Stream) (p q : ℕ) (fs : List InteriorFace)
    (e : EdgeSet)
    → shuffle s (non_island_interior_faces g islands) p ≡ ok fs q
    → join_faces fs (numbers 0 (cell_count g)) [] q ≡ ok e q
    → build_kruskal g islands s p ≡ ok e q
unfolding build_kruskal
kruskal_step g islands s p q fs e h k =
    >>=-ok (shuffle s (non_island_interior_faces g islands)) _ h k

-- The faces that Kruskal's algorithm opens: no cycle, and each interior face without an island is spanned.
pub record SpansChunk (g : ChunkGraph) (islands : List ℕ) (e : EdgeSet) : Type 0 where
  pub acyclic : IsForest e
  pub spans : (f : InteriorFace) → f ∈ non_island_interior_faces g islands → Linked e f.a f.b
  pub only :
      (k : EdgeKey)
      → k ∈ e
      → (f : InteriorFace) × (f ∈ non_island_interior_faces g islands) × (k ≡ new_edge_key f.a f.b)

Rearranges-sym : (ys xs : List InteriorFace) → Rearranges ys xs → Rearranges xs ys
Rearranges-sym ys xs r = record {
  same_length = sym r.same_length;
  same_counts = λ p. sym (r.same_counts p);
}

face_in :
    (g : ChunkGraph) (islands : List ℕ) (f : InteriorFace)
    → f ∈ non_island_interior_faces g islands
    → IsInner g f
unfolding non_island_interior_faces
face_in g islands f m = interior_faces-IsInner g f (mem-filter _ (interior_faces g) f m)

Spans-SpansChunk :
    (g : ChunkGraph) (islands : List ℕ) (ys : List InteriorFace) (e : EdgeSet)
    → Rearranges ys (non_island_interior_faces g islands)
    → Spans ys [] e
    → SpansChunk g islands e
Spans-SpansChunk g islands ys e r s =
    let fs = non_island_interior_faces g islands in
    record {
      acyclic = s.acyclic;
      spans = λ f m.
          let (y, n, ea, eb) = mem-Rearranges ys fs f r m in
          subst (λ a. Linked e a f.b) ea (subst (λ b. Linked e y.a b) eb (s.spans y n));
      only = λ k m. elim (s.only k m) [
        | inl o ↦ absurd o
        | inr (y, n, ek) ↦
            let (f, i, ea, eb) = mem-Rearranges fs ys y (Rearranges-sym ys fs r) n in
            (f, i, ek ∙ sym (ap (λ a. new_edge_key a f.b) ea ∙ ap (new_edge_key y.a) eb))
      ];
    }

length-numbers : (from n : ℕ) → length (numbers from n) ≡ n
length-numbers from zero = refl
length-numbers from (suc n) = ap suc (length-numbers (suc from) n)

-- With a fair stream, buildKruskal ends without a panic. The set that it opens has no cycle, holds interior faces
-- without an island only, and links the two cells of each such face, for chunks with fewer than 2^64 of them.
pub build_kruskal-SpansChunk :
    (g : ChunkGraph) (islands : List ℕ) (s : Stream) (p : ℕ)
    → IsFair s
    → length (non_island_interior_faces g islands) < 2 ^ 64
    → EndsIn (SpansChunk g islands) p (build_kruskal g islands s p)
build_kruskal-SpansChunk g islands s p fair small =
    let fs = non_island_interior_faces g islands in
    let (ys, q, h, le, r) = shuffle-Rearranges s fs p fair small in
    let inside : InBounds (length (numbers 0 (cell_count g))) ys = λ y m.
      let (f, n, ea, eb) = mem-Rearranges fs ys y (Rearranges-sym ys fs r) m in
      let i = face_in g islands f n in
      (
        omega (arith, length-numbers 0 (cell_count g), i.first_in, ea),
        omega (arith, length-numbers 0 (cell_count g), i.second_in, eb),
      ) in
    let (e, k, sp) =
      join_faces-Spans ys (numbers 0 (cell_count g)) [] q (numbers-Labels (cell_count g)) inside in
    (e, q, kruskal_step g islands s p q ys e h k, le, Spans-SpansChunk g islands ys e r sp)
