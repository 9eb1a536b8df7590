-- ===== src/Erasure.antt =====
-- include/erasure.h: a text is cut into k blocks of one size, which jerasure codes with m more.
pub mod Blocks
pub mod Recovered
use random_beacon.Prelude.{
  ℕ, zero, suc, ◌+◌, ◌-◌, ◌*◌, ◌/◌, ◌^◌, List, [], ◌∷◌, ◌++◌, map, Bool, true, false, not, Option,
  none, some, Result, ok, err, undefined, require, ◌>>=◌, ◌>>◌, if◌then◌else◌, ltb, length,
  get_elem?, take, drop, replicate, collect, ◌==◌,
}

abbrev pub Bytes : Type 0
Bytes = List ℕ

pub record Chunk : Type 0 where
  pub size : ℕ
  pub bytes : Bytes

-- The calls of jerasure: the coding blocks of some data blocks, and the data blocks that decoding
-- leaves, or `none` where it returns -1.
pub record Jerasure : Type 0 where
  pub matrix_encode : (k m w : ℕ) → List Bytes → ℕ → List Bytes
  pub matrix_decode : (k m w : ℕ) → List ℕ → List Bytes → List Bytes → ℕ → Option (List Bytes)

-- `newsize` and `blocksize`, as `encode` and `decode` compute them for a text of `size` bytes. An
-- int that would not hold the size is undefined, and so is a division by 0.
unfoldable pub block_size : ℕ → ℕ → ℕ → Result (ℕ × ℕ)
block_size k w size = do
  let unit = k * w * 8
  require (not (unit == 0)) undefined
  let quotient = size / unit
  let x = if ltb (quotient * unit) size then quotient + 1 else quotient
  let newsize = x * unit
  require (ltb newsize (2 ^ 31)) undefined
  ok (newsize, newsize / k)

-- `data[i] = block + i * blocksize`, for k blocks.
unfoldable pub split : ℕ → ℕ → Bytes → List Bytes
split blocksize zero block = []
split blocksize (suc k) block = take blocksize block ∷ split blocksize k (drop blocksize block)

-- The padding is the character 0; the stream that is padded is not read again.
unfoldable pub encode : ⦃j : Jerasure⦄ → ℕ → ℕ → ℕ → Bytes → Result (List Chunk)
unfolding split
encode ⦃j⦄ k m w s = do
  sizes ← block_size k w (length s)
  let extra = sizes.0 - length s
  let blocks = split sizes.1 k (s ++ replicate extra 48)
  let coding = j.matrix_encode k m w blocks sizes.1
  ok (map (λ bt. record { size = length s; bytes = bt }) (blocks ++ coding))

-- `bytearray_t(base, base + n)`
abbrev pub read_bytes : Bytes → ℕ → Result Bytes
read_bytes base n = require (not (ltb (length base) n)) undefined >> ok (take n base)

-- The loop of `decode` that writes the data blocks, from the j-th byte on, and the part of a block
-- that is written after its `break`.
unfoldable pub join : ℕ → ℕ → ℕ → List Bytes → Result Bytes
join blocksize size j [] = ok []
join blocksize size j (d ∷ blocks) =
    let rest = join blocksize size (j + blocksize) blocks in
    if ltb size (j + blocksize)
    then read_bytes d (blocksize - (j + blocksize - size))
    else (read_bytes d blocksize >>= λ arr. rest >>= λ later. ok (arr ++ later))

abbrev pub chunk_at : List Chunk → ℕ → Result Chunk
chunk_at chunks i = elim (get_elem? chunks i) [ none ↦ err undefined | some c ↦ ok c ]

abbrev pub written : ℕ → ℕ → Option (List Bytes) → Bytes → Result (Bool × Bytes)
written blocksize size none s = ok (false, s)
written blocksize size (some blocks) s =
    join blocksize size 0 blocks >>= λ text. ok (true, s ++ text)

unfoldable pub decode :
    ⦃j : Jerasure⦄ → ℕ → ℕ → ℕ → List Chunk → List ℕ → Bytes → Result (Bool × Bytes)
unfolding join
decode ⦃j⦄ k m w chunks erasures s = do
  first ← chunk_at chunks 0
  sizes ← block_size k w first.size
  blocks ← collect k (λ i. chunk_at chunks i >>= λ c. ok c.bytes)
  coding ← collect m (λ i. chunk_at chunks (k + i) >>= λ c. ok c.bytes)
  written sizes.1 first.size (j.matrix_decode k m w erasures blocks coding sizes.1) s
