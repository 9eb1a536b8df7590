-- ===== src/Drg/Messages.antt =====
-- The messages of the replicas: `Chunk` of include/erasure.h and src/erasure.cpp, `Share` and
-- `ShareChunk` of include/DrgCore.hpp, as bytes of a salticidae stream. The wrappers `MsgShare` and
-- `MsgShareChunk` of src/DrgBase.cpp write the message when they are made and read it by `parse`.
pub mod RoundTrip
use random_beacon.Prelude.{ℕ, ◌%◌, ◌^◌, [], ◌++◌, length, Result, result_map, if◌then◌else◌, ◌==◌}
use random_beacon.Stream.{Reader, ◌>>=◌, pure}
use random_beacon.Erasure.{Bytes, Chunk}
use random_beacon.Wire.{DataStream, read, read_data}
use random_beacon.Drg.Shares.{Share}

-- The chunk is not a null pointer, which `serialize` would follow.
pub record ShareChunk : Type 0 where
  pub replica_id : ℕ
  pub idx : ℕ
  pub round : ℕ
  pub chunk : Chunk
  pub merkle_root : Bytes
  pub merkle_proof : Bytes

module _ ⦃d : DataStream⦄ where
  -- `s << htole((uint32_t) bytes.size()) << bytes`
  unfoldable pub put_bytes : Bytes → Bytes → Bytes
  put_bytes bytes later = d.u32.put (d.htole (length bytes % 2 ^ 32)) ++ (bytes ++ later)

  -- Where the length is read as 0 nothing more is read.
  unfoldable pub get_bytes : Reader Bytes
  get_bytes = do n ← read d.u32; let size = d.letoh n; if size == 0 then pure [] else read_data size

  -- What `serialize` writes before what is written later, and `unserialize`.
  unfoldable pub put_chunk : Chunk → Bytes → Bytes
  unfolding put_bytes
  put_chunk self later = d.u32.put (d.htole self.size) ++ put_bytes self.bytes later

  unfoldable pub get_chunk : Reader Chunk
  unfolding get_bytes
  get_chunk = do
    n ← read d.u32
    bytes ← get_bytes
    pure (record { size = d.letoh n; bytes = bytes })

  unfoldable pub put_share : Share → Bytes → Bytes
  unfolding put_bytes
  put_share self later = d.u16.put self.replica_id ++ put_bytes self.bt later

  -- A share is read without a test of its length.
  unfoldable pub get_share : Reader Share
  get_share = do
    replica_id ← read d.u16
    n ← read d.u32
    bt ← read_data (d.letoh n)
    pure (record { replica_id = replica_id; bt = bt })

  unfoldable pub put_share_chunk : ShareChunk → Bytes → Bytes
  unfolding put_bytes put_chunk
  put_share_chunk self later =
      d.u16.put self.replica_id
      ++ (d.u32.put self.idx
          ++ (d.u32.put self.round
              ++ (d.u256.put self.merkle_root
                  ++ put_bytes self.merkle_proof (put_chunk self.chunk later))))

  unfoldable pub get_share_chunk : Reader (ShareChunk)
  unfolding get_bytes get_chunk
  get_share_chunk = do
    replica_id ← read d.u16
    idx ← read d.u32
    round ← read d.u32
    merkle_root ← read d.u256
    merkle_proof ← get_bytes
    chunk ← get_chunk
    pure (record {
      replica_id = replica_id;
      idx = idx;
      round = round;
      chunk = chunk;
      merkle_root = merkle_root;
      merkle_proof = merkle_proof;
    })

  -- `MsgShareChunk` and `MsgShare`: what the constructors write, and `parse`.
  unfoldable pub make_share_chunk_msg : ShareChunk → Bytes
  unfolding put_share_chunk
  make_share_chunk_msg share = put_share_chunk share []

  unfoldable pub parse_share_chunk : Bytes → Result ShareChunk
  unfolding get_share_chunk
  parse_share_chunk serialized =
      result_map (λ (r : ShareChunk × Bytes). r.0) (get_share_chunk serialized)

  unfoldable pub make_share_msg : Share → Bytes
  unfolding put_share
  make_share_msg share = put_share share []

  unfoldable pub parse_share : Bytes → Result Share
  unfolding get_share
  parse_share serialized = result_map (λ (r : Share × Bytes). r.0) (get_share serialized)
