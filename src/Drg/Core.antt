-- ===== src/Drg/Core.antt =====
-- `DrgCore` of src/DrgCore.cpp: its state, and what becomes of the chunks that arrive; Dealer is
-- how a sharing is dealt in chunks. What a handler sends before it fails is not in its result. The
-- Merkle trees of include/merklecpp.h are parameters.
pub mod Dealer
pub mod Idle
pub mod Dealing
pub mod Gathered
pub mod Opened
pub mod Decrypted
pub mod Completed
pub mod Repeated
pub mod Sent
use random_beacon.Prelude.{
  ℕ, zero, suc, ◌+◌, ◌-◌, ◌%◌, ◌^◌, List, [], ◌∷◌, ◌++◌, Bool, true, false, Option, none, some,
  Result, ok, err, undefined, bad_path, if◌then◌else◌, ltb, ◌==◌, length, replicate, tabulate,
  collect, lookup, assign, update, fold_range,
}
use random_beacon.Prelude
use random_beacon.Random.{Rand, ◌>>=◌, pure, lift}
use random_beacon.Stream
use random_beacon.Stream.{Codec}
use random_beacon.Algebra.Field.{Field}
use random_beacon.Algebra.Group.{Group, Scalars, Pairing}
use random_beacon.Dleq.{Hasher}
use random_beacon.Erasure.{Bytes, Chunk, Jerasure, chunk_at, encode, decode}
use random_beacon.Wire.{DataStream, read, read_data}
use random_beacon.Pvss.Defs.{Context, Sharing, Decryption}
use random_beacon.Pvss.Deal.{create_sharing}
use random_beacon.Pvss.Aggregate.{aggregate}
use random_beacon.Pvss.Reconstruct.{decrypt}
use random_beacon.Pvss.Streams.{put_sharing, get_sharing, put_decryption}
use random_beacon.Drg.Lottery.{vrf}
use random_beacon.Drg.Shares.{Share, Collector, on_receive_share}
use random_beacon.Drg.Messages.{ShareChunk, put_bytes}

-- The bytes of the root and of a path of the tree with the given leaves, and the test of a path
-- against a root, `none` where the bytes are no path. A leaf has 32 bytes or more, which the blocks
-- of the erasure code have.
pub record Merkle : Type 0 where
  pub root : List Bytes → Bytes
  pub path : List Bytes → ℕ → Bytes
  pub path_verify : Bytes → Bytes → Option Bool

-- A row of `sharechunk_matrix`; a chunk that is `none` is a null pointer.
abbrev pub Row : Type 0
Row = List (ℕ × Option Chunk)

-- The state that the handlers read and write; `collector` has the part of `on_receive_share`. A row
-- that is not there is the empty row that `operator[]` makes.
pub record Core (F G1 G2 : Type 0) : Type 0 where
  pub id : ℕ
  pub nreplicas : ℕ
  pub collector : Collector F G1 G2
  pub sharechunk_matrix : ℕ → Row
  pub sharing_map : ℕ → Option (Sharing F G1 G2)

-- What a handler sends: `do_sharechunk` to one replica, and the broadcasts.
pub data Event : Type 0 where
  sharechunk : ShareChunk → ℕ → Event
  broadcast_sharechunk : ShareChunk → Event
  broadcast_share : Share → Event

-- `sharechunk_matrix[round][i]`, which makes a null entry where there is none.
unfoldable pub touch : ℕ → Row → Row
touch i row = elim (lookup i row) [ none ↦ assign i none row | some c ↦ row ]

abbrev pub pointer : Option (Option Chunk) → Option Chunk
pointer none = none
pointer (some c) = c

abbrev pub follow : Option Chunk → Result Chunk
follow none = err undefined
follow (some c) = ok c

-- The chunks that are stored for the indices below n, which `Erasure::decode` follows.
unfoldable pub gather : ℕ → Row → Result (List Chunk)
gather n row = collect n (λ i. follow (pointer (lookup i row)))

abbrev pub passes : Option Bool → Result Bool
passes none = err bad_path
passes (some b) = ok b

module _ {F G1 G2 : Type 0} where
  abbrev pub store_row : Core F G1 G2 → ℕ → Row → Core F G1 G2
  store_row self rid row = record self { sharechunk_matrix = update self.sharechunk_matrix rid row }

  -- The first part of `on_receive_shareChunk`: the core, `qsize` and what is sent.
  unfoldable pub store_chunk :
      ⦃t : Merkle⦄ → ShareChunk → Core F G1 G2 → Result (Core F G1 G2 × ℕ × List Event)
  store_chunk ⦃t⦄ share self =
      let row = self.sharechunk_matrix share.replica_id in
      let stored : Result (Core F G1 G2 × ℕ × List Event) =
        Prelude.◌>>=◌ (passes (t.path_verify share.merkle_proof share.merkle_root)) λ verified. ok (
          if verified
          then (
            store_row self share.replica_id (assign share.idx (some share.chunk) row),
            length row + 1,
            broadcast_sharechunk share ∷ [],
          )
          else (self, length row, broadcast_sharechunk share ∷ [])) in
      elim (lookup share.idx row) [ none ↦ stored | some c ↦ ok (self, length row, []) ]

  abbrev pub store_sharing : Core F G1 G2 → ℕ → Sharing F G1 G2 → Core F G1 G2
  store_sharing self rid sharing = record self {
    sharing_map = update self.sharing_map rid (some sharing);
  }

  -- The chunks are those of the row of the message's round, cut to the 16 bits of a `ReplicaID`,
  -- whose missing ones become null entries.
  -- The coding chunks are made of zeros and erased.
  unfoldable pub recover_text :
      ⦃j : Jerasure⦄ → ShareChunk → Core F G1 G2 → Result (Core F G1 G2 × Bytes)
  unfolding gather touch
  recover_text share self =
      let k = self.collector.nreconthres in
      let m = self.nreplicas - k in
      let rid = share.round % 2 ^ 16 in
      let row = self.sharechunk_matrix rid in
      let blank : Chunk = record {
        size = share.chunk.size;
        bytes = replicate (length share.chunk.bytes) 0;
      } in
      Prelude.◌>>=◌ (gather k row) λ found.
        Prelude.◌>>=◌ (decode k m 8 (found ++ replicate m blank) (tabulate m (λ i. k + i)) [])
          λ decoded. ok (store_row self rid (fold_range k touch row), decoded.1)

  -- `sharing_vec` and `id_vec`, or `none` where the sharing of one of the first `nreconthres`
  -- replicas is missing.
  unfoldable pub all_sharings : ℕ → (ℕ → Option (Sharing F G1 G2)) → Option (List (Sharing F G1 G2))
  all_sharings zero sharing_map = some []
  all_sharings (suc n) sharing_map =
      let rest = all_sharings n (λ i. sharing_map (suc i)) in
      elim (sharing_map 0) [
        | none ↦ none
        | some s ↦ elim rest [ none ↦ none | some ss ↦ some (s ∷ ss) ]
      ]

module _ {F G1 G2 : Type 0} ⦃f : Field F⦄ ⦃b : Group G2⦄ ⦃cf : Codec F⦄ ⦃ca : Codec G1⦄
    ⦃cb : Codec G2⦄ ⦃cn : Codec ℕ⦄ where
  -- `pvss_sharing_t sharing;`
  abbrev pub fresh_sharing : Sharing F G1 G2
  fresh_sharing = record {
    encryptions = [];
    commitments = [];
    dleq_proofs = [];
    decomp_pi = record { pi = record { gr = b.zero; pi = f.zero }; gs = b.zero };
    secret = f.zero;
  }

  -- The text of a sharing after its length, in the bytes that were decoded.
  unfoldable pub read_sharing : ⦃d : DataStream⦄ → Bytes → Result (Sharing F G1 G2)
  read_sharing ⦃d⦄ decoded = Prelude.◌>>=◌ (read d.u32 decoded) λ n.
      Prelude.◌>>=◌ (read_data (d.letoh n.0) n.1)
        λ text. Prelude.◌>>=◌ (get_sharing fresh_sharing text.0) λ sharing. ok sharing.0

module _ {F G1 G2 GT : Type 0} ⦃f : Field F⦄ ⦃a : Group G1⦄ ⦃b : Group G2⦄ ⦃sa : Scalars F G1⦄
    ⦃sb : Scalars F G2⦄ (e : Pairing F G1 G2 GT) ⦃cf : Codec F⦄ ⦃ca : Codec G1⦄ ⦃cb : Codec G2⦄
    ⦃cn : Codec ℕ⦄ ⦃h : Hasher F⦄ where
  -- The sharings are aggregated, and the share of this replica is decrypted, kept and broadcast.
  unfoldable pub decrypt_share :
      List (Sharing F G1 G2) → Core F G1 G2 → Rand F (Core F G1 G2 × List Event)
  decrypt_share sharings self = do
    agg ← lift (aggregate sharings (tabulate self.collector.nreconthres (λ i. i)))
    decryption ← decrypt self.collector.pvss_context agg
    let share : Share = record { replica_id = self.id % 2 ^ 16; bt = put_decryption decryption [] }
    collector ← lift (on_receive_share e share self.collector)
    pure (record self { collector = collector }, broadcast_share share ∷ [])

  -- The second part of `on_receive_shareChunk`, when there are enough chunks.
  unfoldable pub finish_sharing :
      ⦃j : Jerasure⦄ ⦃d : DataStream⦄
      → ShareChunk
      → Core F G1 G2
      → Rand F (Core F G1 G2 × List Event)
  unfolding recover_text read_sharing all_sharings decrypt_share
  finish_sharing share self = do
    recovered ← lift (recover_text share self)
    sharing ← lift (read_sharing recovered.1)
    let self' = store_sharing recovered.0 share.replica_id sharing
    elim (all_sharings self.collector.nreconthres (λ i. self'.sharing_map (i % 2 ^ 16))) [
      | none ↦ pure (self', [])
      | some sharings ↦ decrypt_share sharings self'
    ]

  unfoldable pub on_receive_share_chunk :
      ⦃j : Jerasure⦄ ⦃d : DataStream⦄ ⦃t : Merkle⦄
      → ShareChunk
      → Core F G1 G2
      → Rand F (Core F G1 G2 × List Event)
  unfolding store_chunk finish_sharing
  on_receive_share_chunk share self =
      let k = self.collector.nreconthres in
      let rest : Rand F (Core F G1 G2 × List Event) = do
        stored ← lift (store_chunk share self)
        let finished : Rand F (Core F G1 G2 × List Event) = do
          done ← finish_sharing share stored.0
          pure (done.0, stored.2 ++ done.1)
        if stored.1 == k then finished else pure (stored.0, stored.2)
      in if ltb k (length (self.sharechunk_matrix share.replica_id)) then pure (self, []) else rest
