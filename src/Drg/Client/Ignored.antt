-- ===== src/Drg/Client/Ignored.antt =====
-- What the replicas of src/DrgBase.cpp do with the messages of src/client.cpp.
use random_beacon.Prelude.{
  ℕ, ◌≡◌, refl, sym, ap, subst, ◌∙◌, List, [], ◌∷◌, ◌++◌, Bool, Bool-cases, inl, inr, some,
  some_injective, ok, ok_injective, >>=-eq-ok, ◌==◌, ==_iff, get_elem?, update,
}
use random_beacon.Random.{Supply}
use random_beacon.Stream.{Codec}
use random_beacon.Algebra.Field.{Field}
use random_beacon.Algebra.Group.{Group, Scalars, Pairing}
use random_beacon.Dleq.{Hasher}
use random_beacon.Erasure.{Jerasure}
use random_beacon.Wire.{DataStream}
use random_beacon.Drg.Core.{Merkle, Core, Event}
use random_beacon.Drg.Boot.{MakesAddress}
use random_beacon.Drg.Network.{
  Packet, Peers, post_all, dispatch, start_opcode, System, draw, take, Reach, here, next,
}
use random_beacon.Drg.Client.{client_main, add_peer, send_start}

module _ {S A : Type 0} ⦃m : MakesAddress S A⦄ where
  -- A message of a client has the opcode of a start.
  client_main-opcode :
      (s : S) {packet : Packet A} → client_main s ≡ ok (packet ∷ []) → packet.opcode ≡ start_opcode
  unfolding client_main add_peer send_start
  client_main-opcode s {packet} sent =
      let (client, added, rest) = >>=-eq-ok (add_peer ⦃m = m⦄ s (record { peers = [] })) _ sent in
      let (addr, made, peers) = >>=-eq-ok (m.net_addr s) _ added in
      let only : (record { to = addr; opcode = start_opcode; body = [] }) ∷ [] ≡ packet ∷ [] =
        ok_injective (rw (sym (ok_injective peers)) at rest) in
      ap (λ p. p.opcode) (sym (some_injective (ap (λ p. get_elem? p 0) only)))

module _ {F G1 G2 GT A : Type 0} ⦃f : Field F⦄ ⦃a : Group G1⦄ ⦃b : Group G2⦄ ⦃sa : Scalars F G1⦄
    ⦃sb : Scalars F G2⦄ (e : Pairing F G1 G2 GT) ⦃cf : Codec F⦄ ⦃ca : Codec G1⦄ ⦃cb : Codec G2⦄
    ⦃cn : Codec ℕ⦄ ⦃h : Hasher F⦄ ⦃j : Jerasure⦄ ⦃d : DataStream⦄ ⦃t : Merkle⦄ where
  dispatch-start :
      (peer_is_null : Bool) (packet : Packet A) (self self' : Core F G1 G2) (supply rest : Supply F)
      (events : List Event)
      → packet.opcode ≡ start_opcode
      → dispatch e peer_is_null packet self supply ≡ ok ((self', events), rest)
      → (self ≡ self') × ([] ≡ events)
  unfolding dispatch
  dispatch-start peer_is_null packet self self' supply rest events op returned =
      let same = ok_injective (rw op at returned) in (ap (λ r. r.0.0) same, ap (λ r. r.0.1) same)

update_same :
    {A : Type 0} (core : ℕ → A) (i k : ℕ) (x : A) → core i ≡ x → update core i x k ≡ core k
update_same core i k x same = elim (Bool-cases (i == k)) [
  | inl q ↦ rw q (sym same ∙ ap core ((==_iff i k).0 q))
  | inr q ↦ rw q refl
]

module _ {F G1 G2 A : Type 0} where
  abbrev Unmoved : System F G1 G2 A → System F G1 G2 A → Type 0
  Unmoved s u = ((i : ℕ) → u.core i ≡ s.core i) × (u.sent ≡ s.sent)

module _ {F G1 G2 A : Type 0} ⦃d : DataStream⦄ (net : ℕ → Peers A) where
  taken-Unmoved :
      (s u : System F G1 G2 A) (i : ℕ) (self : Core F G1 G2) (events : List Event)
      {packets : List (Packet A)}
      → Unmoved s u
      → u.core i ≡ self
      → [] ≡ events
      → post_all (net i) events ≡ ok packets
      → Unmoved s (record { core = update u.core i self; sent = packets ++ u.sent })
  unfolding post_all
  taken-Unmoved s u i self events unmoved same none_left posted =
      let nothing = ok_injective (rw (sym none_left) at posted) in
      (
        λ k. update_same u.core i k self same ∙ unmoved.0 k,
        subst (λ p. p ++ u.sent ≡ s.sent) nothing unmoved.1,
      )

module _ {F G1 G2 GT S A : Type 0} ⦃f : Field F⦄ ⦃a : Group G1⦄ ⦃b : Group G2⦄ ⦃sa : Scalars F G1⦄
    ⦃sb : Scalars F G2⦄ (e : Pairing F G1 G2 GT) ⦃cf : Codec F⦄ ⦃ca : Codec G1⦄ ⦃cb : Codec G2⦄
    ⦃cn : Codec ℕ⦄ ⦃h : Hasher F⦄ ⦃j : Jerasure⦄ ⦃d : DataStream⦄ ⦃t : Merkle⦄
    ⦃m : MakesAddress S A⦄ (n : ℕ) (net : ℕ → Peers A) where
  -- The programs of the repository, in which no code calls `on_receive_start`: n replicas, in any
  -- states, and any number of clients, so that every packet that is sent is the one that the `main`
  -- of a client sends. In every run, whichever packets are delivered, in any order and any number
  -- of times, every replica keeps its state and no replica sends a packet: none ever deals.
  pub Reach-unmoved :
      {s u : System F G1 G2 A}
      → ((k : ℕ) (packet : Packet A)
          → get_elem? s.sent k ≡ some packet
          → (client : S) × (client_main client ≡ ok (packet ∷ [])))
      → Reach e n net (λ i. ⊥) s u
      → ((i : ℕ) → u.core i ≡ s.core i) × (u.sent ≡ s.sent)
  Reach-unmoved clients here = (λ i. refl, refl)
  Reach-unmoved {s} clients
        (next {u} reach (
          draw i hash difficulty outputbytes supply rest events packets below called drawn
            posted)) =
      absurd called
  Reach-unmoved {s} clients
        (next {u} reach
          (take i k peer_is_null packet supply rest self events packets below sent taken posted)) =
      let unmoved = Reach-unmoved clients reach in
      let (client, made) = clients k packet (ap (λ p. get_elem? p k) (sym unmoved.1) ∙ sent) in
      let (same, none_left) =
        dispatch-start e peer_is_null packet _ self supply rest events
          (client_main-opcode client made) taken in
      taken-Unmoved net s u i self events unmoved same none_left posted
