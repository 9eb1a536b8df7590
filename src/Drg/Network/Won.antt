-- ===== src/Drg/Network/Won.antt =====
-- `on_receive_start` of src/DrgCore.cpp, with a hash that wins the draw, and the packets that
-- src/DrgBase.cpp makes of it.
use random_beacon.Prelude.{
  ℕ, suc, ◌+◌, ◌-◌, ◌*◌, ◌%◌, ◌^◌, ◌≤◌, ◌<◌, ◌≡◌, ◌≢◌, refl, List, map, true, ok, length, get_or,
  arith,
}
use random_beacon.Random.{Supply}
use random_beacon.Stream.{Codec}
use random_beacon.Algebra.Field.{Field}
use random_beacon.Algebra.Group.{Group, Scalars}
use random_beacon.Dleq.{Hasher}
use random_beacon.Erasure.{Chunk, Jerasure, chunk_at}
use random_beacon.Erasure.Recovered.{Decodes}
use random_beacon.Wire.{DataStream}
use random_beacon.Pvss.Defs.{Sharing}
use random_beacon.Pvss.Deal.{create_sharing}
use random_beacon.Pvss.Deal.Dealt.{create_sharing-IsDealt}
use random_beacon.Drg.Lottery.{make_difficulty, vrf, unsigned_char_compare, make_difficulty_iff}
use random_beacon.Drg.Replicas.{get_addr}
use random_beacon.Drg.Messages.{make_share_chunk_msg}
use random_beacon.Drg.Core.{Merkle, Core, Event}
use random_beacon.Drg.Core.Dealer.{cut_sharing, deal_sharing, deliver_chunk, on_receive_start}
use random_beacon.Drg.Core.Gathered.{erased}
use random_beacon.Drg.Core.Opened.{sharing_text}
use random_beacon.Drg.Core.Sent.{Among, deal_sharing-sends}
use random_beacon.Drg.Network.{Packet, Peers, share_chunk_opcode, post_all}
use random_beacon.Drg.Network.Posted.{deal_sharing-Directed, post_all-PostsChunks}

module _ {F G1 G2 : Type 0} ⦃f : Field F⦄ ⦃a : Group G1⦄ ⦃b : Group G2⦄ ⦃sa : Scalars F G1⦄
    ⦃sb : Scalars F G2⦄ ⦃cf : Codec F⦄ ⦃ca : Codec G1⦄ ⦃cb : Codec G2⦄ ⦃cn : Codec ℕ⦄ ⦃h : Hasher F⦄
    ⦃j : Jerasure⦄ ⦃d : DataStream⦄ ⦃t : Merkle⦄ where
  on_receive_start-won :
      (hash difficulty : List ℕ) (outputbytes : ℕ) (self : Core F G1 G2) (supply : Supply F)
      {sharing : Sharing F G1 G2} {rest : Supply F} {events : List Event}
      → unsigned_char_compare hash difficulty outputbytes ≡ ok true
      → create_sharing self.collector.pvss_context supply ≡ ok (sharing, rest)
      → deal_sharing self sharing ≡ ok events
      → on_receive_start hash difficulty outputbytes self supply ≡ ok (events, rest)
  unfolding on_receive_start vrf deliver_chunk
  on_receive_start-won hash difficulty outputbytes self supply wins created dealt =
      rw (wins, created, dealt) refl

module _ {F G1 G2 A : Type 0} ⦃f : Field F⦄ ⦃a : Group G1⦄ ⦃b : Group G2⦄ ⦃sa : Scalars F G1⦄
    ⦃sb : Scalars F G2⦄ ⦃cf : Codec F⦄ ⦃ca : Codec G1⦄ ⦃cb : Codec G2⦄ ⦃cn : Codec ℕ⦄ ⦃h : Hasher F⦄
    ⦃j : Jerasure⦄ ⦃d : DataStream⦄ ⦃t : Merkle⦄ where
  -- A call of `on_receive_start`, which no code of the repository makes, at a replica in any state
  -- with at most 2^16 replicas, a threshold k above 0 and not above their number, and an id below
  -- it. It knows the address of every index, its context has a key for each of its replicas and
  -- fewer faults than the largest size of a vector, its hash has a first byte of at most 128 and
  -- zeros after it up to the byte m, to which it is compared, and its sharings have texts that the
  -- code holds and jerasure decodes. Then the call returns, and its events are sent as packets: each
  -- other replica is sent its own chunk of the new sharing, with the root and the path of the tree
  -- of the chunks.
  pub on_receive_start-deals :
      (net : Peers A) (self : Core F G1 G2) (m : ℕ) (hash : List ℕ) (addr : ℕ → A)
      (supply : Supply F)
      → self.nreplicas ≤ 2 ^ 16
      → 0 < self.collector.nreconthres
      → self.collector.nreconthres ≤ self.nreplicas
      → self.id < self.nreplicas
      → ((k : ℕ) → k < self.nreplicas → get_addr net.0 k ≡ ok (addr k))
      → length self.collector.pvss_context.pk_map ≡ self.collector.pvss_context.config.num_replicas
      → self.collector.pvss_context.config.num_faults < f.max_size
      → m < length hash
      → get_or hash 0 0 ≤ 128
      → ((k : ℕ) → k < m → get_or hash (suc k) 0 ≡ 0)
      → ((sharing : Sharing F G1 G2) (rest : Supply F)
          → create_sharing self.collector.pvss_context supply ≡ ok (sharing, rest)
          → length (sharing_text sharing) + self.collector.nreconthres * 8 * 8 < 2 ^ 31)
      → Decodes self.collector.nreconthres
          (self.nreplicas - self.collector.nreconthres)
          8
          (erased self.collector.nreconthres (self.nreplicas - self.collector.nreconthres))
      → (sharing : Sharing F G1 G2) × (rest : Supply F) × (chunks : List Chunk) × (events : List
          Event)
        × (packets : List (Packet A)) × (create_sharing self.collector.pvss_context supply
            ≡ ok (sharing, rest))
        × (cut_sharing self.collector.nreconthres self.nreplicas sharing ≡ ok chunks)
        × (length chunks ≡ self.nreplicas)
        × (on_receive_start hash (make_difficulty m) (suc m) self supply ≡ ok (events, rest))
        × (length events + 1 ≡ self.nreplicas)
        × (post_all net events ≡ ok packets)
        × ((k : ℕ) (c : Chunk)
            → k < self.nreplicas
            → k ≢ self.id
            → chunk_at chunks k ≡ ok c
            → Among
                (record {
                  to = addr k;
                  opcode = share_chunk_opcode;
                  body = make_share_chunk_msg (record {
                    replica_id = self.id;
                    idx = k;
                    round = 0;
                    chunk = c;
                    merkle_root = t.root (map (λ x. x.bytes) chunks);
                    merkle_proof = t.path (map (λ x. x.bytes) chunks) k;
                  });
                })
                packets)
  on_receive_start-deals net self m hash addr supply few positive enough inside known keys room long
        first zeros small code =
      let (sharing, rest, created, secret, dealt) =
        create_sharing-IsDealt self.collector.pvss_context supply keys room in
      let (chunks, events, cut, total, sent, number, each) =
        deal_sharing-sends self sharing positive enough (small sharing rest created) code inside in
      let (packets, posted, posts) =
        post_all-PostsChunks net self.nreplicas addr events known
          (deal_sharing-Directed self sharing sent) in
      (
        sharing,
        rest,
        chunks,
        events,
        packets,
        created,
        cut,
        total,
        on_receive_start-won hash (make_difficulty m) (suc m) self supply
            ((make_difficulty_iff hash m long).1 (first, zeros)) created sent,
        number,
        posted,
        λ k c less other found.
            let there = posts _ _ (each k c less other found) in
            let dest : k % 2 ^ 16 ≡ k = omega arith in
            let idx : k % 2 ^ 32 ≡ k = omega arith in
            let id : self.id % 2 ^ 16 ≡ self.id = omega arith in rw (dest, idx, id) at there,
      )
