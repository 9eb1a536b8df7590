-- ===== src/Drg/Network/Posted.antt =====
-- The packets that src/DrgBase.cpp and include/DrgBase.hpp send for the messages of `deliver_chunk`
-- of src/DrgCore.cpp.
use random_beacon.Prelude.{
  ℕ, zero, suc, ◌+◌, ◌≤◌, ◌<◌, ◌≡◌, ◌≢◌, refl, List, [], ◌∷◌, ◌++◌, map, Bool, true, false,
  some_injective, ok, ok_injective, ◌>>=◌, >>=-eq-ok, if◌then◌else◌, ◌==◌, subst, collect, arith,
}
use random_beacon.Stream.{Codec}
use random_beacon.Erasure.{Bytes, Chunk, Jerasure, chunk_at}
use random_beacon.Wire.{DataStream}
use random_beacon.Pvss.Defs.{Sharing}
use random_beacon.Drg.Replicas.{get_addr}
use random_beacon.Drg.Messages.{ShareChunk, make_share_chunk_msg, make_share_msg}
use random_beacon.Drg.Core.{Merkle, Core, Event, sharechunk, broadcast_sharechunk, broadcast_share}
use random_beacon.Drg.Core.Dealer.{send_chunks, cut_sharing, deal_sharing}
use random_beacon.Drg.Core.Sent.{Among}
use random_beacon.Drg.Network.{Packet, Peers, post, post_all, share_chunk_opcode, share_opcode}

-- Every message to one replica is to a replica below n.
abbrev pub Directed : ℕ → List Event → Type 0
Directed n [] = Unit
Directed n (sharechunk c dest ∷ events) = (dest < n) × Directed n events
Directed n (broadcast_sharechunk c ∷ events) = Directed n events
Directed n (broadcast_share share ∷ events) = Directed n events

Directed-if :
    (n : ℕ) (test : Bool) (x y : List Event) {events : List Event}
    → Directed n x
    → Directed n y
    → ok (if test then x else y) ≡ ok events
    → Directed n events
Directed-if n true x y hx hy h = subst (Directed n) (ok_injective h) hx
Directed-if n false x y hx hy h = subst (Directed n) (ok_injective h) hy

module _ ⦃t : Merkle⦄ where
  send_chunks-Directed :
      (bound id : ℕ) (leaves : List Bytes) (chunks : List Chunk) (i n : ℕ) {events : List Event}
      → i + n ≤ bound
      → send_chunks id leaves chunks i n ≡ ok events
      → Directed bound events
  unfolding send_chunks
  send_chunks-Directed bound id leaves chunks i zero room h =
      subst (Directed bound) (ok_injective h) tt
  send_chunks-Directed bound id leaves chunks i (suc n) room h =
      let (chunk, at_chunk, rest) = >>=-eq-ok (chunk_at chunks i) _ h in
      let (events, sent, all) = >>=-eq-ok (send_chunks id leaves chunks (i + 1) n) _ rest in
      let later = send_chunks-Directed bound id leaves chunks (i + 1) n (omega arith) sent in
      Directed-if bound (i == id) events _ later (omega arith, later) all

-- Where an element is in two lists that are joined.
module _ {A : Type 0} where
  Among-front : (x : A) (xs ys : List A) → Among x xs → Among x (xs ++ ys)
  Among-front x [] ys (pos, found) = cc
  Among-front x (y ∷ xs) ys (zero, found) = (zero, found)
  Among-front x (y ∷ xs) ys (suc pos, found) =
      let (pos', found') = Among-front x xs ys (pos, found) in (suc pos', found')

  Among-back : (x : A) (xs ys : List A) → Among x ys → Among x (xs ++ ys)
  Among-back x [] ys there = there
  Among-back x (y ∷ xs) ys there = let (pos, found) = Among-back x xs ys there in (suc pos, found)

module _ {F G1 G2 : Type 0} ⦃cf : Codec F⦄ ⦃ca : Codec G1⦄ ⦃cb : Codec G2⦄ ⦃cn : Codec ℕ⦄
    ⦃j : Jerasure⦄ ⦃d : DataStream⦄ ⦃t : Merkle⦄ where
  pub deal_sharing-Directed :
      (self : Core F G1 G2) (sharing : Sharing F G1 G2) {events : List Event}
      → deal_sharing self sharing ≡ ok events
      → Directed self.nreplicas events
  unfolding deal_sharing
  deal_sharing-Directed self sharing returned =
      let (chunks, cut, rest) =
        >>=-eq-ok (cut_sharing self.collector.nreconthres self.nreplicas sharing) _ returned in
      let (leaves, collected, sent) =
        >>=-eq-ok (collect self.nreplicas (λ i. chunk_at chunks i >>= λ c. ok c.bytes)) _ rest in
      send_chunks-Directed self.nreplicas self.id leaves chunks 0 self.nreplicas (omega arith) sent

module _ {A : Type 0} ⦃d : DataStream⦄ where
  -- The packet of a chunk to the replica at an address.
  abbrev pub chunk_packet : A → ShareChunk → Packet A
  chunk_packet addr c = record {
    to = addr;
    opcode = share_chunk_opcode;
    body = make_share_chunk_msg c;
  }

  -- Among the packets is one for each message of a chunk to one replica.
  abbrev pub PostsChunks : (ℕ → A) → List Event → List (Packet A) → Type 0
  PostsChunks addr events packets =
      (c : ShareChunk) (dest : ℕ)
      → Among (sharechunk c dest) events
      → Among (chunk_packet (addr dest) c) packets

  PostsChunks-broadcast :
      (addr : ℕ → A) (event : Event) (events : List Event) (front packets : List (Packet A))
      → ((c : ShareChunk) (dest : ℕ) → event ≢ sharechunk c dest)
      → PostsChunks addr events packets
      → PostsChunks addr (event ∷ events) (front ++ packets)
  PostsChunks-broadcast addr event events front packets other posts c dest (zero, found) =
      absurd (other c dest (some_injective found))
  PostsChunks-broadcast addr event events front packets other posts c dest (suc pos, found) =
      Among-back _ front packets (posts c dest (pos, found))

  PostsChunks-cons :
      (addr : ℕ → A) (c : ShareChunk) (dest : ℕ) (events : List Event) (packets : List (Packet A))
      → PostsChunks addr events packets
      → PostsChunks addr (sharechunk c dest ∷ events) (chunk_packet (addr dest) c ∷ packets)
  PostsChunks-cons addr c dest events packets posts c' dest' (zero, found) =
      let same : sharechunk c dest ≡ sharechunk c' dest' = some_injective found in (0, cc)
  PostsChunks-cons addr c dest events packets posts c' dest' (suc pos, found) =
      let (pos', found') = posts c' dest' (pos, found) in (suc pos', found')

  pub post_all-PostsChunks :
      (net : Peers A) (n : ℕ) (addr : ℕ → A) (events : List Event)
      → ((i : ℕ) → i < n → get_addr net.0 i ≡ ok (addr i))
      → Directed n events
      → (packets : List (Packet A)) × (post_all net events ≡ ok packets)
        × PostsChunks addr events packets
  unfolding post_all post
  post_all-PostsChunks net n addr [] known directed = ([], refl, λ c dest there. cc)
  post_all-PostsChunks net n addr (sharechunk c dest ∷ events) known directed =
      let (packets, posted, posts) = post_all-PostsChunks net n addr events known directed.1 in
      (
        chunk_packet (addr dest) c ∷ packets,
        rw (known dest directed.0, posted) refl,
        PostsChunks-cons addr c dest events packets posts,
      )
  post_all-PostsChunks net n addr (broadcast_sharechunk c ∷ events) known directed =
      let (packets, posted, posts) = post_all-PostsChunks net n addr events known directed in
      let front : List (Packet A) = map (λ to. chunk_packet to c) net.1 in
      (
        front ++ packets,
        rw posted refl,
        PostsChunks-broadcast addr (broadcast_sharechunk c) events front packets (λ c' dest e. cc)
            posts,
      )
  post_all-PostsChunks net n addr (broadcast_share s ∷ events) known directed =
      let (packets, posted, posts) = post_all-PostsChunks net n addr events known directed in
      let front : List (Packet A) =
        map (λ to. record { to = to; opcode = share_opcode; body = make_share_msg s }) net.1 in
      (
        front ++ packets,
        rw posted refl,
        PostsChunks-broadcast addr (broadcast_share s) events front packets (λ c' dest e. cc) posts,
      )
