-- ===== src/Erasure/Recovered.antt =====
-- The round trip of `Erasure::encode` and `Erasure::decode` of include/erasure.h.
use random_beacon.Prelude.{
  ℕ, zero, suc, ◌+◌, ◌-◌, ◌*◌, ◌^◌, ◌≤◌, ◌<◌, ◌≡◌, refl, ap, ◌∙◌, List, [], ◌∷◌, ◌++◌, map, true,
  some, ok, ◌>>=◌, length, length-append, get_or, take, drop, length-drop, take-append, tabulate,
  replicate, collect, collect-ok, arith, ◌≢◌,
}
use random_beacon.Erasure.{Bytes, Chunk, Jerasure, split, encode, join, chunk_at, decode}
use random_beacon.Erasure.Blocks.{join-split, block_size_lem, length-split}

module _ {ℓ} {A : Type ℓ} where
  pub tabulate-get_or :
      (n : ℕ) (xs : List A) (d : A) → n ≤ length xs → tabulate n (λ i. get_or xs i d) ≡ take n xs
  tabulate-get_or zero xs d h = refl
  tabulate-get_or (suc n) [] d h = absurd (omega arith)
  tabulate-get_or (suc n) (x ∷ xs) d h =
      ap (λ rest. x ∷ rest) (tabulate-get_or n xs d (omega arith))

  get_or-drop :
      (k i n : ℕ) (xs : List A) (d : A) → n ≡ k + i → get_or xs n d ≡ get_or (drop k xs) i d
  get_or-drop zero i n xs d h = ap (λ m. get_or xs m d) (omega arith)
  get_or-drop (suc k) i n [] d h = refl
  get_or-drop (suc k) i zero (x ∷ xs) d h = absurd (omega arith)
  get_or-drop (suc k) i (suc n) (x ∷ xs) d h = get_or-drop k i n xs d (omega arith)

length-replicate : (n : ℕ) → length {A = ℕ} (replicate n 48) ≡ n
length-replicate zero = refl
length-replicate (suc n) = ap suc (length-replicate n)

-- The chunks of a text of the given size that carry the given blocks.
abbrev pub chunks_of : ℕ → List Bytes → List Chunk
chunks_of size blocks = map (λ bt. record { size = size; bytes = bt }) blocks

pub chunk_at-chunks_of :
    (size : ℕ) (blocks : List Bytes) (i : ℕ)
    → i < length blocks
    → chunk_at (chunks_of size blocks) i ≡ ok (record { size = size; bytes = get_or blocks i [] })
chunk_at-chunks_of size [] i h = absurd (omega arith)
chunk_at-chunks_of size (b ∷ blocks) zero h = refl
chunk_at-chunks_of size (b ∷ blocks) (suc i) h = chunk_at-chunks_of size blocks i (omega arith)

collected :
    (size n offset : ℕ) (blocks : List Bytes) (index : ℕ → ℕ)
    → ((i : ℕ) → index i ≡ offset + i)
    → offset + n ≤ length blocks
    → collect n (λ i. chunk_at (chunks_of size blocks) (index i) >>= λ c. ok c.bytes)
      ≡ ok (take n (drop offset blocks))
collected size n offset blocks index shifted h =
    collect-ok n _ (λ i. get_or (drop offset blocks) i [])
      (λ i p.
        ap (λ r. r >>= λ (c : Chunk). ok c.bytes)
          (chunk_at-chunks_of size blocks (index i) (omega (arith, shifted i)))
        ∙ ap ok (get_or-drop offset i (index i) blocks [] (shifted i)))
    ∙ ap ok (
        tabulate-get_or n (drop offset blocks) []
          (omega (arith, length-drop offset blocks (omega arith))))

abbrev pub Outside : ℕ → List ℕ → Type 0
Outside i [] = Unit
Outside i (e ∷ es) = (i ≢ e) × Outside i es

-- The blocks received are those sent, but for the ones that are erased.
pub record Received (erasures : List ℕ) (sent received : List Bytes) : Type 0 where
  pub number : length received ≡ length sent
  pub agrees :
      (i : ℕ) → i < length sent → Outside i erasures → get_or received i [] ≡ get_or sent i []

-- What jerasure promises of a code of k data blocks and m coding blocks for a list of erasures,
-- which is given without the -1 that ends it: there are m coding blocks, and what was received
-- decodes.
pub record Decodes ⦃j : Jerasure⦄ (k m w : ℕ) (erasures : List ℕ) : Type 0 where
  pub coding_length :
      (blocks : List Bytes) (blocksize : ℕ)
      → length blocks ≡ k
      → length (j.matrix_encode k m w blocks blocksize) ≡ m
  pub recovers :
      (blocks received : List Bytes) (blocksize : ℕ)
      → length blocks ≡ k
      → Received erasures (blocks ++ j.matrix_encode k m w blocks blocksize) received
      → j.matrix_decode k m w erasures (take k received) (take m (drop k received)) blocksize
        ≡ some blocks

module _ ⦃j : Jerasure⦄ where
  -- With k and w above 0, a text that is shorter than 2^31 by more than 8 k w bytes is coded as k +
  -- m blocks; and from blocks that are those but for erasures that jerasure can decode, `decode`
  -- writes the text after what the stream held.
  pub decode-encode :
      (k m w : ℕ) (erasures : List ℕ) (s t : Bytes)
      → 0 < k
      → 0 < k * w * 8
      → length s + k * w * 8 < 2 ^ 31
      → Decodes k m w erasures
      → (sent : List Bytes) × (encode k m w s ≡ ok (chunks_of (length s) sent))
        × (length sent ≡ k + m)
        × ((received : List Bytes)
            → Received erasures sent received
            → decode k m w (chunks_of (length s) received) erasures t ≡ ok (true, t ++ s))
  unfolding encode decode
  decode-encode k m w erasures s t hk unit small code =
      let (blocksize, sizes, holds) = block_size_lem k w (length s) hk unit small in
      let padded : Bytes = s ++ replicate (k * blocksize - length s) 48 in
      let blocks = split blocksize k padded in
      let count : length blocks ≡ k = length-split blocksize k padded in
      let coding = j.matrix_encode k m w blocks blocksize in
      let whole : length padded ≡ k * blocksize = omega (
        arith,
        length-append s (replicate (k * blocksize - length s) 48),
        length-replicate (k * blocksize - length s),
      ) in
      let sent_length : length (blocks ++ coding) ≡ k + m =
        omega (arith, length-append blocks coding, code.coding_length blocks blocksize count) in
      (
        blocks ++ coding,
        rw sizes refl,
        sent_length,
        λ received same.
            let joined : join blocksize (length s) 0 blocks ≡ ok s =
              join-split blocksize (length s) k 0 padded whole (omega arith) (omega arith)
              ∙ ap ok (ap (λ n. take n padded) size_minus_zero ∙ take-append s _) in
            rw
              (
                chunk_at-chunks_of (length s) received 0 (omega (arith, same.number, sent_length)),
                sizes,
                collected (length s) k 0 received (λ i. i) (λ i. omega arith)
                    (omega (arith, same.number, sent_length)),
                collected (length s) m k received (λ i. k + i) (λ i. refl)
                    (omega (arith, same.number, sent_length)),
                code.recovers blocks received blocksize count same,
                joined,
              )
              refl,
      )
    where
      size_minus_zero : length s - 0 ≡ length s
      size_minus_zero = omega arith
