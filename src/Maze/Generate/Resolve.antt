-- ===== src/Maze/Generate/Resolve.antt =====
-- About resolveNeighborMaps, internal/maze/generate.go.
use mathlib.Core.Path.{subst}
use lab_game.Prelude.{
  ◌≡◌, refl, sym, ap, ◌∙◌, arith, Bool, true, false, not, ◌||◌, Bool-cases, ◌⊎◌, inl, inr, List, [],
  ◌∷◌, Option, none, some, if◌then◌else◌,
}
use lab_game.Prelude.Int.{ℤ, eqb_ℤ, eq_of_parts}
use lab_game.Prelude.Members.{◌∈◌}
use lab_game.Hexgrid.Coord.{Chunk, Direction, six_directions, neighbor, coord_eq}
use lab_game.Hexgrid.Coord.Steps.{coord_eq_iff}
use lab_game.Maze.Map.{Map, map_radius}
use lab_game.Maze.Generate.{
  resolved, unresolved, map_for_itself, wrong_radius, not_adjacent, same_chunk_twice, is_adjacent,
  map_of, resolve_from, resolve_neighbor_maps,
}

-- A map that may be supplied for the generation of ch.
pub record IsNeighbor (ch : Chunk) (radius : ℤ) (m : Map) : Type 0 where
  pub not_itself : ¬ (m.chunk ≡ ch)
  pub same_radius : map_radius m ≡ radius
  pub adjacent : (d : Direction) × (neighbor ch d ≡ m.chunk)

is_adjacent_lem :
    (ch nc : Chunk) (ds : List Direction)
    → is_adjacent ch nc ds ≡ true
    → (d : Direction) × (neighbor ch d ≡ nc)
unfolding is_adjacent
is_adjacent_lem ch nc [] e = absurd cc
is_adjacent_lem ch nc (d ∷ ds) e = elim (Bool-cases (coord_eq (neighbor ch d) nc)) [
  | inl t ↦ (d, (coord_eq_iff (neighbor ch d) nc).0 t)
  | inr t ↦ is_adjacent_lem ch nc ds (subst (λ (b : Bool). b || is_adjacent ch nc ds ≡ true) t e)
]

-- What the loop accepted, from the maps accepted before it.
pub record Accepted (ch : Chunk) (radius : ℤ) (nms out maps : List Map) : Type 0 where
  pub valid : (m : Map) → m ∈ nms → IsNeighbor ch radius m
  pub finds : (m : Map) → m ∈ nms → map_of maps m.chunk ≡ some m
  pub keeps : (c : Chunk) (m : Map) → map_of out c ≡ some m → map_of maps c ≡ some m
  pub only : (m : Map) → m ∈ maps → (m ∈ out) ⊎ (m ∈ nms)

map_of_self : (m : Map) (out : List Map) → map_of (m ∷ out) m.chunk ≡ some m
unfolding map_of
map_of_self m out = let t = (coord_eq_iff m.chunk m.chunk).1 refl in rw t refl

map_of_later :
    (m n : Map) (out : List Map) (c : Chunk)
    → map_of out m.chunk ≡ none
    → map_of out c ≡ some n
    → map_of (m ∷ out) c ≡ some n
unfolding map_of
map_of_later m n out c free e = elim (Bool-cases (coord_eq m.chunk c)) [
  | inl t ↦ absurd (cc (sym free ∙ ap (map_of out) ((coord_eq_iff m.chunk c).0 t) ∙ e))
  | inr t ↦ rw t e
]

resolved_inj : (a b : List Map) → resolved a ≡ resolved b → a ≡ b
resolved_inj a b e = cc

module _ (ch : Chunk) (radius : ℤ) where
  accept_one :
      (nm : Map) (nms out maps : List Map)
      → IsNeighbor ch radius nm
      → map_of out nm.chunk ≡ none
      → Accepted ch radius nms (nm ∷ out) maps
      → Accepted ch radius (nm ∷ nms) out maps
  accept_one nm nms out maps ok free h = record {
    valid = λ m. elim [ inl e ↦ subst (IsNeighbor ch radius) (sym e) ok | inr n ↦ h.valid m n ];
    finds = λ m. elim [
      | inl e ↦
          subst (λ (t : Map). map_of maps t.chunk ≡ some t) (sym e)
            (h.keeps nm.chunk nm (map_of_self nm out))
      | inr n ↦ h.finds m n
    ];
    keeps = λ c m e. h.keeps c m (map_of_later nm m out c free e);
    only = λ m n. elim (h.only m n) [
      | inl (inl e) ↦ inr (inl e)
      | inl (inr o) ↦ inl o
      | inr o ↦ inr (inr o)
    ];
  }

  resolve_from-Accepted :
      (nms out maps : List Map)
      → resolve_from ch radius nms out ≡ resolved maps
      → Accepted ch radius nms out maps
  unfolding resolve_from
  resolve_from-Accepted [] out maps = λ e.
      let same = resolved_inj out maps e in
      record {
        valid = λ m n. absurd n;
        finds = λ m n. absurd n;
        keeps = λ c m f. ap (λ t. map_of t c) (sym same) ∙ f;
        only = λ m n. inl (subst (λ t. m ∈ t) (sym same) n);
      }
  resolve_from-Accepted (nm ∷ nms) out maps =
      go (coord_eq nm.chunk ch) (eqb_ℤ (map_radius nm) radius)
        (is_adjacent ch nm.chunk six_directions) (map_of out nm.chunk) refl refl refl refl
        (resolve_from-Accepted nms (nm ∷ out) maps)
    where
      go :
          (itself same near : Bool) (o : Option Map)
          → coord_eq nm.chunk ch ≡ itself
          → eqb_ℤ (map_radius nm) radius ≡ same
          → is_adjacent ch nm.chunk six_directions ≡ near
          → map_of out nm.chunk ≡ o
          → (resolve_from ch radius nms (nm ∷ out) ≡ resolved maps
              → Accepted ch radius nms (nm ∷ out) maps)
          → (if itself
              then unresolved map_for_itself
              else (if not same
                  then unresolved wrong_radius
                  else (if not near then unresolved not_adjacent else elim o [
                    | some m ↦ unresolved same_chunk_twice
                    | none ↦ resolve_from ch radius nms (nm ∷ out)
                  ])))
            ≡ resolved maps
          → Accepted ch radius (nm ∷ nms) out maps
      go true same near o e1 e2 e3 e4 ih e = absurd cc
      go false false near o e1 e2 e3 e4 ih e = absurd cc
      go false true false o e1 e2 e3 e4 ih e = absurd cc
      go false true true (some m) e1 e2 e3 e4 ih e = absurd cc
      go false true true none e1 e2 e3 e4 ih e =
          accept_one nm nms out maps
            (record {
              not_itself = λ s. cc (sym e1 ∙ (coord_eq_iff nm.chunk ch).1 s);
              same_radius = eq_of_parts (map_radius nm) radius (ground (arith, e2));
              adjacent = is_adjacent_lem ch nm.chunk six_directions e3;
            })
            e4 (ih e)

-- Where resolveNeighborMaps accepts the supplied maps, each is the map of an adjacent chunk other than ch at the radius,
-- its result finds each of them by its chunk, and it holds no other map.
pub resolve_neighbor_maps-Accepted :
    (ch : Chunk) (radius : ℤ) (nms maps : List Map)
    → resolve_neighbor_maps ch radius nms ≡ resolved maps
    → Accepted ch radius nms [] maps
unfolding resolve_neighbor_maps
resolve_neighbor_maps-Accepted ch radius nms maps e = resolve_from-Accepted ch radius nms [] maps e
