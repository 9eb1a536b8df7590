-- ===== src/Drg/Network/Silent.antt =====
-- The replicas of src/DrgCore.cpp and src/DrgBase.cpp never open a sharing.
use random_beacon.Prelude.{
  ℕ, zero, suc, ◌^◌, ◌≤◌, ◌<◌, ◌≡◌, refl, sym, ◌∙◌, List, [], ◌∷◌, ◌++◌, map, Bool, Bool-cases, inl,
  inr, none, some, ok, ok_injective, some_injective, >>=-eq-ok, ◌==◌, ==_iff, subst, get_elem?,
  update, arith, lookup,
}
use random_beacon.Random
use random_beacon.Random.{Rand, Supply, lift-eq-ok, of_if}
use random_beacon.Stream.{Codec}
use random_beacon.Algebra.Field.{Field}
use random_beacon.Algebra.Group.{Group, Scalars, Pairing}
use random_beacon.Dleq.{Hasher}
use random_beacon.Erasure.{Jerasure}
use random_beacon.Wire.{DataStream}
use random_beacon.Pvss.Defs.{Context}
use random_beacon.Drg.Replicas.{get_addr, on_init}
use random_beacon.Drg.Messages.{ShareChunk, make_share_chunk_msg, parse_share_chunk}
use random_beacon.Drg.Messages.RoundTrip.{parse_share_chunk_numbers}
use random_beacon.Drg.Core.{Merkle, Core, Event, sharechunk, broadcast_sharechunk, broadcast_share}
use random_beacon.Drg.Core.Idle.{IsDealt, SendsDealt, IsIdle, on_receive_share_chunk-IsIdle}
use random_beacon.Drg.Core.Dealing.{on_receive_start-SendsDealt}
use random_beacon.Drg.Network.{
  Packet, Peers, post, post_all, sharechunk_handler, start_handler, dispatch, share_chunk_opcode,
  start_opcode, System, Step, draw, take, Reach, here, next,
}

module _ {A : Type 0} ⦃d : DataStream⦄ where
  -- A packet with a chunk is parsed to a message as `deliver_chunk` makes it.
  abbrev pub Carries : Packet A → Type 0
  Carries packet =
      packet.opcode ≡ share_chunk_opcode
      → (share : ShareChunk) → parse_share_chunk packet.body ≡ ok share
      → IsDealt share

  abbrev pub AllCarry : List (Packet A) → Type 0
  AllCarry [] = Unit
  AllCarry (packet ∷ packets) = Carries packet × AllCarry packets

  AllCarry-append : (xs ys : List (Packet A)) → AllCarry xs → AllCarry ys → AllCarry (xs ++ ys)
  AllCarry-append [] ys hx hy = hy
  AllCarry-append (x ∷ xs) ys hx hy = (hx.0, AllCarry-append xs ys hx.1 hy)

  AllCarry-map :
      (peers : List A) (make : A → Packet A)
      → ((addr : A) → Carries (make addr))
      → AllCarry (map make peers)
  AllCarry-map [] make h = tt
  AllCarry-map (p ∷ peers) make h = (h p, AllCarry-map peers make h)

  carried :
      (packets : List (Packet A)) (k : ℕ) {packet : Packet A}
      → AllCarry packets
      → get_elem? packets k ≡ some packet
      → Carries packet
  carried [] k all h = cc
  carried (p ∷ packets) zero all h = subst Carries (some_injective h) all.0
  carried (p ∷ packets) (suc k) all h = carried packets k all.1 h

  made-Carries :
      (c : ShareChunk) (addr : A)
      → IsDealt c
      → Carries (record { to = addr; opcode = share_chunk_opcode; body = make_share_chunk_msg c })
  made-Carries c addr dealt op share parsed =
      let (id, idx, round) =
        parse_share_chunk_numbers c dealt.2 dealt.3 (omega (arith, dealt.0)) parsed in
      (
        round ∙ dealt.0,
        λ zero_id zero_idx. dealt.1 (sym id ∙ zero_id) (sym idx ∙ zero_idx),
        omega (arith, id, dealt.2),
        omega (arith, idx, dealt.3),
      )

  post_all-AllCarry :
      (net : Peers A) (events : List Event) {packets : List (Packet A)}
      → SendsDealt events
      → post_all net events ≡ ok packets
      → AllCarry packets
  unfolding post_all post
  post_all-AllCarry net [] sends h = subst AllCarry (ok_injective h) tt
  post_all-AllCarry net (sharechunk c dest ∷ events) sends h =
      let (first, posted, rest) = >>=-eq-ok (post net (sharechunk c dest)) _ h in
      let (later, all, same) = >>=-eq-ok (post_all net events) _ rest in
      let (addr, found, one) = >>=-eq-ok (get_addr net.0 dest) _ posted in
      subst AllCarry (ok_injective same) (
        AllCarry-append first later
          (subst AllCarry (ok_injective one) (made-Carries c addr sends.0, tt))
          (post_all-AllCarry net events sends.1 all))
  post_all-AllCarry net (broadcast_sharechunk c ∷ events) sends h =
      let (later, all, same) = >>=-eq-ok (post_all net events) _ h in
      subst AllCarry (ok_injective same) (
        AllCarry-append _ later (AllCarry-map net.1 _ (λ addr. made-Carries c addr sends.0))
          (post_all-AllCarry net events sends.1 all))
  post_all-AllCarry net (broadcast_share share ∷ events) sends h = absurd sends

module _ {F G1 G2 GT : Type 0} ⦃f : Field F⦄ ⦃a : Group G1⦄ ⦃b : Group G2⦄ ⦃sa : Scalars F G1⦄
    ⦃sb : Scalars F G2⦄ (e : Pairing F G1 G2 GT) ⦃cf : Codec F⦄ ⦃ca : Codec G1⦄ ⦃cb : Codec G2⦄
    ⦃cn : Codec ℕ⦄ ⦃h : Hasher F⦄ ⦃j : Jerasure⦄ ⦃d : DataStream⦄ ⦃t : Merkle⦄ where
  abbrev Kept : Core F G1 G2 → (Core F G1 G2 × List Event) × Supply F → Type 0
  Kept first r = IsIdle first r.0.0 × SendsDealt r.0.1

  dispatch-IsIdle :
      {A : Type 0} (peer_is_null : Bool) (packet : Packet A) (first self : Core F G1 G2)
      (supply : Supply F) {r : (Core F G1 G2 × List Event) × Supply F}
      → Carries packet
      → IsIdle first self
      → dispatch e peer_is_null packet self supply ≡ ok r
      → Kept first r
  unfolding dispatch sharechunk_handler
  dispatch-IsIdle peer_is_null packet first self supply carries idle returned =
      elim (Bool-cases (packet.opcode == share_chunk_opcode)) [
        | inl q ↦
            of_if peer_is_null (Random.pure (self, [])) _ supply unchanged
              (λ received.
                let (share, parsed, handled) =
                  lift-eq-ok (parse_share_chunk packet.body) _ supply received in
                on_receive_share_chunk-IsIdle e share first self supply
                  (carries ((==_iff packet.opcode share_chunk_opcode).0 q) share parsed) idle
                  handled)
              (rw q at returned)
        | inr q ↦
            of_if (packet.opcode == start_opcode) (start_handler e self) (Random.pure (self, []))
              supply unchanged unchanged (rw q at returned)
      ]
    where
      unchanged :
          {r : (Core F G1 G2 × List Event) × Supply F}
          → ok ((self, []), supply) ≡ ok r
          → Kept first r
      unchanged same = subst (Kept first) (ok_injective same) (idle, tt)

-- No replica has a sharing or a share, and no packet could give it one.
pub record IsSilent {F G1 G2 A : Type 0} ⦃d : DataStream⦄ (n : ℕ) (first : ℕ → Core F G1 G2)
    (s : System F G1 G2 A) : Type 0 where
  pub cores : (i : ℕ) → i < n → IsIdle (first i) (s.core i)
  pub packets : AllCarry s.sent

module _ {F G1 G2 GT A : Type 0} ⦃f : Field F⦄ ⦃a : Group G1⦄ ⦃b : Group G2⦄ ⦃sa : Scalars F G1⦄
    ⦃sb : Scalars F G2⦄ (e : Pairing F G1 G2 GT) ⦃cf : Codec F⦄ ⦃ca : Codec G1⦄ ⦃cb : Codec G2⦄
    ⦃cn : Codec ℕ⦄ ⦃h : Hasher F⦄ ⦃j : Jerasure⦄ ⦃d : DataStream⦄ ⦃t : Merkle⦄ (n : ℕ)
    (net : ℕ → Peers A) (starts : ℕ → Type 0) where
  update-IsIdle :
      (first core : ℕ → Core F G1 G2) (i k : ℕ) (self : Core F G1 G2)
      → IsIdle (first i) self
      → IsIdle (first k) (core k)
      → IsIdle (first k) (update core i self k)
  update-IsIdle first core i k self idle other = elim (Bool-cases (i == k)) [
    | inl q ↦ rw q (subst (λ m. IsIdle (first m) self) ((==_iff i k).0 q) idle)
    | inr q ↦ rw q other
  ]

  Step-IsSilent :
      (first : ℕ → Core F G1 G2) {s u : System F G1 G2 A}
      → Step e n net starts s u
      → IsSilent n first s
      → IsSilent n first u
  Step-IsSilent first {s}
        (draw i hash difficulty outputbytes supply rest events packets below called drawn posted)
        silent =
      record {
        cores = silent.cores;
        packets =
            AllCarry-append packets _
              (post_all-AllCarry (net i) events
                (on_receive_start-SendsDealt hash difficulty outputbytes (first i) _ supply
                  (silent.cores i below) drawn)
                posted)
              silent.packets;
      }
  Step-IsSilent first {s}
        (take i k peer_is_null packet supply rest self events packets below sent taken posted)
        silent =
      let (idle, sends) =
        dispatch-IsIdle e peer_is_null packet (first i) _ supply (carried _ k silent.packets sent)
          (silent.cores i below) taken in
      record {
        cores = λ k' less. update-IsIdle first s.core i k' self idle (silent.cores k' less);
        packets =
            AllCarry-append packets _ (post_all-AllCarry (net i) events sends posted)
              silent.packets;
      }

  pub Reach-IsSilent :
      (first : ℕ → Core F G1 G2) {s u : System F G1 G2 A}
      → Reach e n net starts s u
      → IsSilent n first s
      → IsSilent n first u
  Reach-IsSilent first here silent = silent
  Reach-IsSilent first (next r step) silent =
      Step-IsSilent first step (Reach-IsSilent first r silent)

  -- The replicas after `start`, with nothing sent.
  abbrev pub started : (ℕ → Context F G1 G2) → System F G1 G2 A
  started contexts = record {
    core = λ i. record {
      id = i;
      nreplicas = n;
      collector = record {
        nreconthres = (on_init (net i).0).nreconthres;
        pvss_context = contexts i;
        dec_share_vec = [];
      };
      sharechunk_matrix = λ rid. [];
      sharing_map = λ rid. none;
    };
    sent = [];
  }

  pub started-IsSilent :
      (contexts : ℕ → Context F G1 G2)
      → n ≤ 2 ^ 16
      → ((i : ℕ) → i < n → (net i).0.nreplicas ≡ n)
      → IsSilent n (started contexts).core (started contexts)
  unfolding on_init lookup
  started-IsSilent contexts few counted = record {
    cores = λ i below. record {
      same_id = refl;
      same_number = refl;
      same_threshold = refl;
      same_context = refl;
      small_id = omega arith;
      few = few;
      threshold = omega (arith, counted i below);
      no_chunk = refl;
      no_sharing = λ rid. refl;
      no_share = refl;
    };
    packets = tt;
  }

  -- In every run from the start of n replicas, at most 2^16 and each with n replicas in its
  -- configuration, whichever replicas `on_receive_start` is called at, whatever is drawn and
  -- whichever packets are delivered, in any order and any number of times: no replica ever stores a
  -- sharing, and none holds a decrypted share.
  pub Reach-silent :
      (contexts : ℕ → Context F G1 G2) {s : System F G1 G2 A}
      → n ≤ 2 ^ 16
      → ((i : ℕ) → i < n → (net i).0.nreplicas ≡ n)
      → Reach e n net starts (started contexts) s
      → (i : ℕ) → i < n
      → ((rid : ℕ) → (s.core i).sharing_map rid ≡ none) × ((s.core i).collector.dec_share_vec ≡ [])
  Reach-silent contexts few counted reach i below =
      let silent =
        Reach-IsSilent (started contexts).core reach (started-IsSilent contexts few counted) in
      ((silent.cores i below).no_sharing, (silent.cores i below).no_share)
