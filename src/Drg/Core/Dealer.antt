-- ===== src/Drg/Core/Dealer.antt =====
-- `deliver_chunk` and `on_receive_start` of src/DrgCore.cpp: a sharing is dealt in chunks.
use random_beacon.Prelude.{
  ℕ, zero, suc, ◌+◌, ◌-◌, ◌%◌, ◌^◌, List, [], ◌∷◌, ◌++◌, Bool, true, false, Option, none, some,
  Result, ok, err, undefined, bad_path, if◌then◌else◌, ltb, ◌==◌, length, replicate, tabulate,
  collect, lookup, assign, update, fold_range,
}
use random_beacon.Prelude
use random_beacon.Random.{Rand, ◌>>=◌, lift}
use random_beacon.Stream.{Codec}
use random_beacon.Algebra.Field.{Field}
use random_beacon.Algebra.Group.{Group, Scalars}
use random_beacon.Dleq.{Hasher}
use random_beacon.Erasure.{Bytes, Chunk, Jerasure, chunk_at, encode}
use random_beacon.Wire.{DataStream}
use random_beacon.Pvss.Defs.{Sharing}
use random_beacon.Pvss.Deal.{create_sharing}
use random_beacon.Pvss.Streams.{put_sharing}
use random_beacon.Drg.Lottery.{vrf}
use random_beacon.Drg.Messages.{ShareChunk, put_bytes}
use random_beacon.Drg.Core.{Merkle, Core, Event, sharechunk}

module _ ⦃t : Merkle⦄ where
  -- The message of `deliver_chunk` to the replica i, whose round is 0.
  abbrev pub deal_message : ℕ → List Bytes → ℕ → Chunk → ShareChunk
  deal_message id leaves i chunk = record {
    replica_id = id % 2 ^ 16;
    idx = i % 2 ^ 32;
    round = 0;
    chunk = chunk;
    merkle_root = t.root leaves;
    merkle_proof = t.path leaves i;
  }

  -- The second loop of `deliver_chunk`, from i on with n replicas left: the dealer sends itself
  -- nothing.
  unfoldable pub send_chunks : ℕ → List Bytes → List Chunk → ℕ → ℕ → Result (List Event)
  send_chunks id leaves chunks i zero = ok []
  send_chunks id leaves chunks i (suc n) =
      let rest = send_chunks id leaves chunks (i + 1) n in
      Prelude.◌>>=◌ (chunk_at chunks i) λ chunk. Prelude.◌>>=◌ rest λ events. ok (
        if i == id
        then events
        else sharechunk (deal_message id leaves i chunk) (i % 2 ^ 16) ∷ events)

module _ {F G1 G2 : Type 0} ⦃cf : Codec F⦄ ⦃ca : Codec G1⦄ ⦃cb : Codec G2⦄ ⦃cn : Codec ℕ⦄
    ⦃j : Jerasure⦄ ⦃d : DataStream⦄ where
  -- The chunks of the text of a sharing, after its length.
  unfoldable pub cut_sharing : ℕ → ℕ → Sharing F G1 G2 → Result (List Chunk)
  unfolding put_bytes
  cut_sharing nreconthres nreplicas sharing =
      encode nreconthres (nreplicas - nreconthres) 8 (put_bytes (put_sharing sharing []) [])

  -- `deliver_chunk`, after `create_sharing`.
  unfoldable pub deal_sharing : ⦃t : Merkle⦄ → Core F G1 G2 → Sharing F G1 G2 → Result (List Event)
  unfolding cut_sharing send_chunks
  deal_sharing self sharing =
      Prelude.◌>>=◌ (cut_sharing self.collector.nreconthres self.nreplicas sharing) λ chunks.
        Prelude.◌>>=◌
          (collect self.nreplicas (λ i. Prelude.◌>>=◌ (chunk_at chunks i) λ c. ok c.bytes))
          λ leaves. send_chunks self.id leaves chunks 0 self.nreplicas

module _ {F G1 G2 : Type 0} ⦃f : Field F⦄ ⦃a : Group G1⦄ ⦃b : Group G2⦄ ⦃sa : Scalars F G1⦄
    ⦃sb : Scalars F G2⦄ ⦃cf : Codec F⦄ ⦃ca : Codec G1⦄ ⦃cb : Codec G2⦄ ⦃cn : Codec ℕ⦄
    ⦃h : Hasher F⦄ where
  unfoldable pub deliver_chunk :
      ⦃j : Jerasure⦄ ⦃d : DataStream⦄ ⦃t : Merkle⦄ → Core F G1 G2 → Rand F (List Event)
  unfolding deal_sharing
  deliver_chunk self = do
    sharing ← create_sharing self.collector.pvss_context
    lift (deal_sharing self sharing)

  -- `vrf`, with the hash that `vrf_hash` computes.
  unfoldable pub on_receive_start :
      ⦃j : Jerasure⦄ ⦃d : DataStream⦄ ⦃t : Merkle⦄
      → List ℕ
      → List ℕ
      → ℕ
      → Core F G1 G2
      → Rand F (List Event)
  unfolding vrf deliver_chunk
  on_receive_start hash difficulty outputbytes self =
      vrf hash difficulty outputbytes (deliver_chunk self)
