-- ===== src/Drg/Messages/RoundTrip.antt =====
-- Every message of include/DrgCore.hpp and include/erasure.h is read back as it was written.
use random_beacon.Prelude.{
  ℕ, ◌<◌, ◌≡◌, ◌^◌, ◌%◌, ◌++◌, ok, [], ◌∷◌, length, result_map, arith, sym, ap, ◌∙◌, refl, ne→==,
}
use random_beacon.Stream.{Reader, ◌>>=◌, pure}
use random_beacon.Erasure.{Bytes, Chunk}
use random_beacon.Wire.{DataStream, read, read_data}
use random_beacon.Drg.Shares.{Share}
use random_beacon.Drg.Messages.{
  ShareChunk, put_bytes, get_bytes, put_chunk, get_chunk, put_share, get_share, put_share_chunk,
  get_share_chunk, make_share_chunk_msg, parse_share_chunk, make_share_msg, parse_share,
}

module _ ⦃d : DataStream⦄ where
  read_u16 : (n : ℕ) (rest : Bytes) → n < 2 ^ 16 → read d.u16 (d.u16.put n ++ rest) ≡ ok (n, rest)
  read_u16 n rest h = rw (d.get-put_u16 n rest h)

  pub read_u32 :
      (n : ℕ) (rest : Bytes) → n < 2 ^ 32 → read d.u32 (d.u32.put n ++ rest) ≡ ok (n, rest)
  read_u32 n rest h = rw (d.get-put_u32 n rest h)

  pub read_front :
      (bytes rest : Bytes) (n : ℕ)
      → n ≡ length bytes
      → read_data n (bytes ++ rest) ≡ ok (bytes, rest)
  read_front bytes rest n h =
      ap (λ k. read_data k (bytes ++ rest)) h ∙ rw (d.get_data_inplace_front bytes rest)

  -- The length that was written is the length that is read.
  pub read_length :
      (bytes : Bytes)
      → length bytes < 2 ^ 32
      → d.letoh (d.htole (length bytes % 2 ^ 32)) ≡ length bytes
  read_length bytes h = d.letoh-htole _ (omega arith) ∙ omega arith

  pub get_bytes-put_bytes :
      (bytes later : Bytes)
      → length bytes < 2 ^ 32
      → get_bytes (put_bytes bytes later) ≡ ok (bytes, later)
  unfolding get_bytes put_bytes
  get_bytes-put_bytes [] later h =
      rw (read_u32 (d.htole (0 % 2 ^ 32)) later (d.htole_bound _ (omega arith)), read_length [] h)
  get_bytes-put_bytes (b ∷ bytes) later h =
      let all : Bytes = b ∷ bytes in
      rw (
        read_u32 (d.htole (length all % 2 ^ 32)) (all ++ later) (d.htole_bound _ (omega arith)),
        read_length all h,
        ne→== (length all) 0 (λ e. omega arith),
        read_front all later (length all) refl,
      )

  pub get_chunk-put_chunk :
      (self : Chunk) (later : Bytes)
      → self.size < 2 ^ 32
      → length self.bytes < 2 ^ 32
      → get_chunk (put_chunk self later) ≡ ok (self, later)
  unfolding get_chunk put_chunk
  get_chunk-put_chunk self later size bytes = rw (
    read_u32 (d.htole self.size) (put_bytes self.bytes later) (d.htole_bound _ size),
    get_bytes-put_bytes self.bytes later bytes,
    d.letoh-htole self.size size,
  )

  -- The fields fit the words in which they are sent.
  pub record Fits (self : ShareChunk) : Type 0 where
    pub replica_id : self.replica_id < 2 ^ 16
    pub idx : self.idx < 2 ^ 32
    pub round : self.round < 2 ^ 32
    pub root : length self.merkle_root ≡ 32
    pub proof : length self.merkle_proof < 2 ^ 32
    pub size : self.chunk.size < 2 ^ 32
    pub bytes : length self.chunk.bytes < 2 ^ 32

  pub get_share_chunk-put_share_chunk :
      (self : ShareChunk) (later : Bytes)
      → Fits self
      → get_share_chunk (put_share_chunk self later) ≡ ok (self, later)
  unfolding get_share_chunk put_share_chunk
  get_share_chunk-put_share_chunk self later fits =
      let chunk = put_chunk self.chunk later in
      let proof = put_bytes self.merkle_proof chunk in
      let root = d.u256.put self.merkle_root ++ proof in
      rw (
        read_u16 self.replica_id (d.u32.put self.idx ++ (d.u32.put self.round ++ root))
            fits.replica_id,
        read_u32 self.idx (d.u32.put self.round ++ root) fits.idx,
        read_u32 self.round root fits.round,
        d.get-put_u256 self.merkle_root proof fits.root,
        get_bytes-put_bytes self.merkle_proof chunk fits.proof,
        get_chunk-put_chunk self.chunk later fits.size fits.bytes,
      )

  -- The rest of `unserialize`, after the numbers.
  numbered : ℕ → ℕ → ℕ → Reader ShareChunk
  numbered replica_id idx round = do
    merkle_root ← read d.u256
    merkle_proof ← get_bytes
    chunk ← get_chunk
    pure (record {
      replica_id = replica_id;
      idx = idx;
      round = round;
      chunk = chunk;
      merkle_root = merkle_root;
      merkle_proof = merkle_proof;
    })

  numbered_lem :
      (id idx round : ℕ) (s : Bytes) {share : ShareChunk}
      → result_map (λ (r : ShareChunk × Bytes). r.0) (numbered id idx round s) ≡ ok share
      → (share.replica_id ≡ id) × (share.idx ≡ idx) × (share.round ≡ round)
  unfolding numbered
  numbered_lem id idx round s parsed = ground arith

  -- A message that carries a chunk, whose fields fit the words in which they are sent, is parsed as
  -- it was made.
  pub parse_share_chunk-make_share_chunk_msg :
      (self : ShareChunk) → Fits self → parse_share_chunk (make_share_chunk_msg self) ≡ ok self
  unfolding parse_share_chunk make_share_chunk_msg
  parse_share_chunk-make_share_chunk_msg self fits =
      rw (get_share_chunk-put_share_chunk self [] fits)

  -- A message that carries a share of fewer than 2^32 bytes is parsed as it was made.
  pub parse_share-make_share_msg :
      (self : Share)
      → self.replica_id < 2 ^ 16
      → length self.bt < 2 ^ 32
      → parse_share (make_share_msg self) ≡ ok self
  unfolding parse_share make_share_msg get_share put_share put_bytes
  parse_share-make_share_msg self id bt = rw (
    read_u16 self.replica_id (d.u32.put (d.htole (length self.bt % 2 ^ 32)) ++ (self.bt ++ [])) id,
    read_u32 (d.htole (length self.bt % 2 ^ 32)) (self.bt ++ []) (d.htole_bound _ (omega arith)),
    read_length self.bt bt,
    read_front self.bt [] (length self.bt) refl,
  )

  get_share_chunk_rest :
      (self : ShareChunk)
      → self.replica_id < 2 ^ 16
      → self.idx < 2 ^ 32
      → self.round < 2 ^ 32
      → get_share_chunk (put_share_chunk self [])
        ≡ numbered self.replica_id self.idx self.round
            (d.u256.put self.merkle_root ++ put_bytes self.merkle_proof (put_chunk self.chunk []))
  unfolding get_share_chunk put_share_chunk numbered
  get_share_chunk_rest self id idx round =
      let root =
        d.u256.put self.merkle_root ++ put_bytes self.merkle_proof (put_chunk self.chunk []) in
      rw (
        read_u16 self.replica_id (d.u32.put self.idx ++ (d.u32.put self.round ++ root)) id,
        read_u32 self.idx (d.u32.put self.round ++ root) idx,
        read_u32 self.round root round,
      )

  -- Whatever the lengths are, a message that is parsed has the numbers of the one that was made.
  pub parse_share_chunk_numbers :
      (self : ShareChunk) {share : ShareChunk}
      → self.replica_id < 2 ^ 16
      → self.idx < 2 ^ 32
      → self.round < 2 ^ 32
      → parse_share_chunk (make_share_chunk_msg self) ≡ ok share
      → (share.replica_id ≡ self.replica_id) × (share.idx ≡ self.idx) × (share.round ≡ self.round)
  unfolding parse_share_chunk make_share_chunk_msg
  parse_share_chunk_numbers self id idx round parsed =
      numbered_lem self.replica_id self.idx self.round _ (
        ap (result_map (λ (r : ShareChunk × Bytes). r.0))
          (sym (get_share_chunk_rest self id idx round))
        ∙ parsed)
