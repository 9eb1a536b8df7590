-- ===== src/Drg/Network.antt =====
-- src/DrgBase.cpp and include/DrgBase.hpp: how the messages of `DrgCore` reach other replicas, and
-- the replicas as a system. The network of salticidae delivers packets in any order and any number
-- of times, to any replica.
pub mod Silent
pub mod Posted
pub mod Won
use random_beacon.Prelude.{
  ℕ, ◌<◌, ◌≡◌, List, [], ◌∷◌, ◌++◌, map, Bool, true, false, some, Result, ok, if◌then◌else◌, ◌==◌,
  get_elem?, update,
}
use random_beacon.Prelude
use random_beacon.Random.{Rand, Supply, ◌>>=◌, pure, lift}
use random_beacon.Stream.{Codec}
use random_beacon.Algebra.Field.{Field}
use random_beacon.Algebra.Group.{Group, Scalars, Pairing}
use random_beacon.Dleq.{Hasher}
use random_beacon.Erasure.{Bytes, Jerasure}
use random_beacon.Wire.{DataStream}
use random_beacon.Drg.Replicas.{ReplicaConfig, get_addr}
use random_beacon.Drg.Shares.{Share}
use random_beacon.Drg.Messages.{ShareChunk, make_share_chunk_msg, make_share_msg, parse_share_chunk}
use random_beacon.Drg.Core.{
  Merkle, Core, Event, sharechunk, broadcast_sharechunk, broadcast_share, on_receive_share_chunk,
}
use random_beacon.Drg.Core.Dealer.{on_receive_start}

-- The opcodes of `MsgStart`, `MsgShareChunk` and `MsgShare`.
abbrev pub start_opcode : ℕ
start_opcode = 0

abbrev pub share_chunk_opcode : ℕ
share_chunk_opcode = 1

abbrev pub share_opcode : ℕ
share_opcode = 2

pub record Packet (A : Type 0) : Type 0 where
  pub to : A
  pub opcode : ℕ
  pub body : Bytes

-- What `DrgBase::start` has left in `config` and in `peers`.
abbrev pub Peers : Type 0 → Type 0
Peers A = ReplicaConfig A × List A

module _ {A : Type 0} ⦃d : DataStream⦄ where
  -- `pn.send_msg` to an address that is known.
  abbrev pub do_sharechunk : Peers A → ShareChunk → ℕ → Result (List (Packet A))
  do_sharechunk net c dest = Prelude.◌>>=◌ (get_addr net.0 dest) λ addr.
      ok (record { to = addr; opcode = share_chunk_opcode; body = make_share_chunk_msg c } ∷ [])

  abbrev pub do_broadcast_sharechunk : Peers A → ShareChunk → List (Packet A)
  do_broadcast_sharechunk net c =
      map (λ i. record { to = i; opcode = share_chunk_opcode; body = make_share_chunk_msg c }) net.1

  abbrev pub do_broadcast_share : Peers A → Share → List (Packet A)
  do_broadcast_share net s =
      map (λ i. record { to = i; opcode = share_opcode; body = make_share_msg s }) net.1

  -- The calls that the events stand for.
  unfoldable pub post : Peers A → Event → Result (List (Packet A))
  post net (sharechunk c dest) = do_sharechunk net c dest
  post net (broadcast_sharechunk c) = ok (do_broadcast_sharechunk net c)
  post net (broadcast_share s) = ok (do_broadcast_share net s)

  unfoldable pub post_all : Peers A → List Event → Result (List (Packet A))
  unfolding post
  post_all net [] = ok []
  post_all net (event ∷ events) =
      let rest = post_all net events in
      Prelude.◌>>=◌ (post net event) λ packets. Prelude.◌>>=◌ rest λ later. ok (packets ++ later)

module _ {F G1 G2 GT : Type 0} ⦃f : Field F⦄ ⦃a : Group G1⦄ ⦃b : Group G2⦄ ⦃sa : Scalars F G1⦄
    ⦃sb : Scalars F G2⦄ (e : Pairing F G1 G2 GT) ⦃cf : Codec F⦄ ⦃ca : Codec G1⦄ ⦃cb : Codec G2⦄
    ⦃cn : Codec ℕ⦄ ⦃h : Hasher F⦄ ⦃j : Jerasure⦄ ⦃d : DataStream⦄ ⦃t : Merkle⦄ where
  -- `sharechunk_handler`; a connection whose peer is null is left alone.
  unfoldable pub sharechunk_handler :
      Bool → Bytes → Core F G1 G2 → Rand F (Core F G1 G2 × List Event)
  sharechunk_handler peer_is_null msg self =
      let received : Rand F (Core F G1 G2 × List Event) = do
        share ← lift (parse_share_chunk msg)
        on_receive_share_chunk e share self
      in if peer_is_null then pure (self, []) else received

  -- `start_handler` logs the message.
  abbrev pub start_handler : Core F G1 G2 → Rand F (Core F G1 G2 × List Event)
  start_handler self = pure (self, [])

  -- The handlers that the constructor of `DrgBase` registers; a message of another kind has none.
  unfoldable pub dispatch :
      {A : Type 0} → Bool → Packet A → Core F G1 G2 → Rand F (Core F G1 G2 × List Event)
  unfolding sharechunk_handler
  dispatch peer_is_null packet self =
      if packet.opcode == share_chunk_opcode
      then sharechunk_handler peer_is_null packet.body self
      else if packet.opcode == start_opcode
      then start_handler self
      else pure (self, [])

-- The replicas, and all the packets that were sent.
pub record System (F G1 G2 A : Type 0) : Type 0 where
  pub core : ℕ → Core F G1 G2
  pub sent : List (Packet A)

module _ {F G1 G2 GT A : Type 0} ⦃f : Field F⦄ ⦃a : Group G1⦄ ⦃b : Group G2⦄ ⦃sa : Scalars F G1⦄
    ⦃sb : Scalars F G2⦄ (e : Pairing F G1 G2 GT) ⦃cf : Codec F⦄ ⦃ca : Codec G1⦄ ⦃cb : Codec G2⦄
    ⦃cn : Codec ℕ⦄ ⦃h : Hasher F⦄ ⦃j : Jerasure⦄ ⦃d : DataStream⦄ ⦃t : Merkle⦄ (n : ℕ)
    (net : ℕ → Peers A) (starts : ℕ → Type 0) where
  -- A replica takes a packet that was sent. `on_receive_start` is a public function of `DrgCore`
  -- that no code of the repository calls: `starts` are the replicas, if any, where other code calls
  -- it, with any hash, and the repository's own programs have the run in which it is empty. A call
  -- that stops by an error ends the replica's process, and is no step.
  pub data Step (s : System F G1 G2 A) : System F G1 G2 A → Type 0 where
    draw :
        (i : ℕ) (hash difficulty : List ℕ) (outputbytes : ℕ) (supply rest : Supply F)
        (events : List Event) (packets : List (Packet A))
        → i < n
        → starts i
        → on_receive_start hash difficulty outputbytes (s.core i) supply ≡ ok (events, rest)
        → post_all (net i) events ≡ ok packets
        → Step s (record { core = s.core; sent = packets ++ s.sent })
    take :
        (i k : ℕ) (peer_is_null : Bool) (packet : Packet A) (supply rest : Supply F)
        (self : Core F G1 G2) (events : List Event) (packets : List (Packet A))
        → i < n
        → get_elem? s.sent k ≡ some packet
        → dispatch e peer_is_null packet (s.core i) supply ≡ ok ((self, events), rest)
        → post_all (net i) events ≡ ok packets
        → Step s (record { core = update s.core i self; sent = packets ++ s.sent })

  pub data Reach (s : System F G1 G2 A) : System F G1 G2 A → Type 0 where
    here : Reach s s
    next : {u v : System F G1 G2 A} → Reach s u → Step u v → Reach s v
