-- ===== src/Maze/Seed.antt =====
-- The keys of the random streams: internal/maze/seed.go.
-- SHA-256 and ChaCha8 are not code of the repository: the digest and the stream of a key are parameters. A byte
-- is a number below 256.
pub mod Keys
pub mod Encode
use lab_game.Prelude.{
  ℕ, zero, suc, ◌+◌, ◌-◌, ◌*◌, ◌/◌, ◌%◌, ◌^◌, Bool, if◌then◌else◌, not, List, [], ◌∷◌, ◌++◌, take,
}
use lab_game.Prelude.Int.{ℤ, pos, negsuc, ltb_ℤ, eqb_ℤ}
use lab_game.Hexgrid.Coord.{Coord, Chunk}
use lab_game.Maze.Draw.{Stream}

pub record Crypto : Type 0 where
  pub sha256 : List ℕ → List ℕ
  pub new_stream : List ℕ → Stream

-- The bytes of "lab-game/maze/v1".
abbrev pub domain_tag : List ℕ
domain_tag =
    108 ∷ 97 ∷ 98 ∷ 45 ∷ 103 ∷ 97 ∷ 109 ∷ 101 ∷ 47 ∷ 109 ∷ 97 ∷ 122 ∷ 101 ∷ 47 ∷ 118 ∷ 49 ∷ []

-- The purpose bytes 'c', 'i', 'a', 's', 'x' and 'b'.
pub data Purpose : Type 0 where
  purpose_cell purpose_island purpose_algorithm purpose_structure purpose_cycle purpose_border :
      Purpose

unfoldable pub byte_of : Purpose → ℕ
byte_of purpose_cell = 99
byte_of purpose_island = 105
byte_of purpose_algorithm = 97
byte_of purpose_structure = 115
byte_of purpose_cycle = 120
byte_of purpose_border = 98

-- Go's conversion of a signed value to an unsigned one of w bits.
abbrev pub unsigned : ℕ → ℤ → ℕ
unsigned w (pos n) = n % 2 ^ w
unsigned w (negsuc n) = 2 ^ w - 1 - n % 2 ^ w

-- The n lowest bytes of a number, the highest first.
abbrev pub big_endian : ℕ → ℕ → List ℕ
big_endian zero v = []
big_endian (suc n) v = (v / 256 ^ n % 256) ∷ big_endian n v

unfoldable pub put_int64 : List ℕ → ℤ → List ℕ
put_int64 buf v = buf ++ big_endian 8 (unsigned 64 v)

unfoldable pub put_int32 : List ℕ → ℤ → List ℕ
put_int32 buf v = buf ++ big_endian 4 (unsigned 32 v)

unfoldable pub world_key : Crypto → ℤ → List ℕ
unfolding put_int64
world_key c seed = c.sha256 (put_int64 domain_tag seed)

unfoldable pub put_all : List ℕ → List ℤ → List ℕ
unfolding put_int32
put_all buf [] = buf
put_all buf (v ∷ vs) = put_all (put_int32 buf v) vs

-- What derive hashes.
unfoldable pub preimage : List ℕ → Purpose → List ℤ → List ℕ
unfolding put_all byte_of
preimage wk purpose coords = put_all (wk ++ byte_of purpose ∷ []) coords

unfoldable pub derive : Crypto → List ℕ → Purpose → List ℤ → List ℕ
unfolding preimage
derive c wk purpose coords = c.sha256 (preimage wk purpose coords)

unfoldable pub cell_key : Crypto → ℤ → Coord → List ℕ
unfolding derive world_key
cell_key c seed cell = derive c (world_key c seed) purpose_cell (cell.q ∷ cell.r ∷ [])

-- binary.BigEndian.Uint64
abbrev pub big_endian_value : List ℕ → ℕ → ℕ
big_endian_value [] acc = acc
big_endian_value (b ∷ bs) acc = big_endian_value bs (256 * acc + b)

unfoldable pub cell_seed : Crypto → ℤ → Coord → ℕ
unfolding cell_key
cell_seed c seed cell = big_endian_value (take 8 (cell_key c seed cell)) 0

unfoldable pub chunk_key : Crypto → ℤ → Purpose → Chunk → List ℕ
unfolding derive world_key
chunk_key c seed purpose ch = derive c (world_key c seed) purpose (ch.q ∷ ch.r ∷ [])

unfoldable pub chunk_less : Chunk → Chunk → Bool
chunk_less a b = if not (eqb_ℤ a.q b.q) then ltb_ℤ a.q b.q else ltb_ℤ a.r b.r

unfoldable pub canonical_order : Chunk → Chunk → Chunk × Chunk
unfolding chunk_less
canonical_order a b = if chunk_less b a then (b, a) else (a, b)

unfoldable pub border_key : Crypto → ℤ → Chunk → Chunk → List ℕ
unfolding canonical_order derive world_key
border_key c seed a b =
    let ends = canonical_order a b in
    derive c (world_key c seed) purpose_border (ends.0.q ∷ ends.0.r ∷ ends.1.q ∷ ends.1.r ∷ [])
