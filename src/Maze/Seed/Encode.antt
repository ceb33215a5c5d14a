-- ===== src/Maze/Seed/Encode.antt =====
-- About the byte string that derive hashes, internal/maze/seed.go.
use lab_game.Prelude.{ℕ, ◌^◌, ◌<◌, ◌≡◌, refl, sym, ap, ◌∙◌, arith, List, [], ◌∷◌, ◌++◌, take, drop}
use lab_game.Prelude.Int.{ℤ, pos, negsuc, IsInt32}
use lab_game.Hexgrid.Coord.{Chunk, InRange, coord_ext}
use lab_game.Maze.Seed.{
  Purpose, byte_of, unsigned, big_endian, big_endian_value, put_int32, put_all, preimage,
}

tail_of : List ℕ → List ℕ
tail_of [] = []
tail_of (x ∷ xs) = xs

append_cancel : (xs ys zs : List ℕ) → xs ++ ys ≡ xs ++ zs → ys ≡ zs
unfolding tail_of
append_cancel [] ys zs e = e
append_cancel (x ∷ xs) ys zs e = append_cancel xs ys zs (ap tail_of e)

append_assoc : (xs ys zs : List ℕ) → (xs ++ ys) ++ zs ≡ xs ++ (ys ++ zs)
append_assoc [] ys zs = refl
append_assoc (x ∷ xs) ys zs = ap (λ t. x ∷ t) (append_assoc xs ys zs)

-- The four bytes are those of the value.
decode_four : (u : ℕ) → u < 2 ^ 32 → big_endian_value (big_endian 4 u) 0 ≡ u
decode_four u h = omega arith

unsigned-lt : (v : ℤ) → unsigned 32 v < 2 ^ 32
unsigned-lt (pos n) = omega arith
unsigned-lt (negsuc n) = omega arith

unsigned_inj : (a b : ℤ) → IsInt32 a → IsInt32 b → unsigned 32 a ≡ unsigned 32 b → a ≡ b
unsigned_inj (pos a) (pos b) ha hb e = ap pos (omega arith)
unsigned_inj (negsuc a) (negsuc b) ha hb e = ap negsuc (omega arith)
unsigned_inj (pos a) (negsuc b) ha hb e = absurd (omega arith)
unsigned_inj (negsuc a) (pos b) ha hb e = absurd (omega arith)

byte_of_inj : (p p' : Purpose) → byte_of p ≡ byte_of p' → p ≡ p'
unfolding byte_of
byte_of_inj p p' e = ground arith

-- The byte string behind the world key.
abbrev behind_key : Purpose → Chunk → List ℕ
behind_key p ch = byte_of p ∷ (big_endian 4 (unsigned 32 ch.q) ++ big_endian 4 (unsigned 32 ch.r))

preimage_lem :
    (wk : List ℕ) (p : Purpose) (ch : Chunk)
    → preimage wk p (ch.q ∷ ch.r ∷ []) ≡ wk ++ behind_key p ch
unfolding preimage put_all put_int32
preimage_lem wk p ch =
    append_assoc (wk ++ byte_of p ∷ []) (big_endian 4 (unsigned 32 ch.q))
      (big_endian 4 (unsigned 32 ch.r))
    ∙ append_assoc wk (byte_of p ∷ [])
        (big_endian 4 (unsigned 32 ch.q) ++ big_endian 4 (unsigned 32 ch.r))

head_of : List ℕ → ℕ
head_of [] = 0
head_of (x ∷ xs) = x

decoded :
    (a b : ℤ)
    → IsInt32 a
    → IsInt32 b
    → big_endian 4 (unsigned 32 a) ≡ big_endian 4 (unsigned 32 b)
    → a ≡ b
decoded a b ha hb e = unsigned_inj a b ha hb (
    sym (decode_four (unsigned 32 a) (unsigned-lt a))
    ∙ ap (λ t. big_endian_value t 0) e
    ∙ decode_four (unsigned 32 b) (unsigned-lt b))

-- What is hashed for a stream of a chunk determines the purpose and the chunk, for chunks in int32
-- range under one world key: two passes, or two chunks, never hash one byte string.
pub preimage_inj :
    (wk : List ℕ) (p p' : Purpose) (a b : Chunk)
    → InRange a
    → InRange b
    → preimage wk p (a.q ∷ a.r ∷ []) ≡ preimage wk p' (b.q ∷ b.r ∷ [])
    → (p ≡ p') × (a ≡ b)
unfolding tail_of head_of
preimage_inj wk p p' a b ha hb e =
    let same =
      append_cancel wk (behind_key p a) (behind_key p' b)
        (sym (preimage_lem wk p a) ∙ e ∙ preimage_lem wk p' b) in
    (
      byte_of_inj p p' (ap head_of same),
      coord_ext a b (decoded a.q b.q ha.0 hb.0 (ap (λ t. take 4 (tail_of t)) same))
          (decoded a.r b.r ha.1 hb.1 (ap (λ t. drop 5 t) same)),
    )
