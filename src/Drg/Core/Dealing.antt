-- ===== src/Drg/Core/Dealing.antt =====
-- What `DrgCore::deliver_chunk` of src/DrgCore.cpp sends.
use random_beacon.Prelude.{
  ℕ, zero, suc, ◌+◌, ◌^◌, ◌≤◌, ◌<◌, ◌≡◌, refl, sym, List, [], Bool, true, false, ok, ◌>>=◌,
  if◌then◌else◌, ◌==◌, ==_iff, subst, arith, collect, >>=-eq-ok, ok_injective,
}
use random_beacon.Random
use random_beacon.Random.{Rand, Supply, lift, lift-eq-ok, bind-eq-ok, lift-ok, of_if}
use random_beacon.Stream.{Codec}
use random_beacon.Algebra.Field.{Field}
use random_beacon.Algebra.Group.{Group, Scalars}
use random_beacon.Dleq.{Hasher}
use random_beacon.Erasure.{Bytes, Chunk, Jerasure, chunk_at}
use random_beacon.Wire.{DataStream}
use random_beacon.Pvss.Defs.{Sharing}
use random_beacon.Pvss.Deal.{create_sharing}
use random_beacon.Drg.Lottery.{vrf, unsigned_char_compare}
use random_beacon.Drg.Core.{Merkle, Core, Event}
use random_beacon.Drg.Core.Dealer.{
  send_chunks, cut_sharing, deal_sharing, deliver_chunk, on_receive_start,
}
use random_beacon.Drg.Core.Idle.{SendsDealt, IsIdle}

branch :
    (test : Bool) {test' : Bool} (x y : List Event) {events : List Event}
    → test ≡ test'
    → (test' ≡ false → SendsDealt y)
    → SendsDealt x
    → ok (if test then x else y) ≡ ok events
    → SendsDealt events
branch true x y e hy hx h = subst SendsDealt (ok_injective h) hx
branch false x y e hy hx h = subst SendsDealt (ok_injective h) (hy (sym e))

module _ ⦃t : Merkle⦄ where
  send_chunks-SendsDealt :
      (id : ℕ) (leaves : List Bytes) (chunks : List Chunk) (i n : ℕ) {events : List Event}
      → id < 2 ^ 16
      → i + n ≤ 2 ^ 16
      → send_chunks id leaves chunks i n ≡ ok events
      → SendsDealt events
  unfolding send_chunks
  send_chunks-SendsDealt id leaves chunks i zero small room h = subst SendsDealt (ok_injective h) tt
  send_chunks-SendsDealt id leaves chunks i (suc n) small room h =
      let (chunk, at_chunk, rest) = >>=-eq-ok (chunk_at chunks i) _ h in
      let (events, sent, all) = >>=-eq-ok (send_chunks id leaves chunks (i + 1) n) _ rest in
      let later = send_chunks-SendsDealt id leaves chunks (i + 1) n small (omega arith) sent in
      branch (i == id) _ _ refl
        (λ other. (
          (
            refl,
            λ zero_id zero_idx.
                let same : i ≡ id = omega arith in let equal = (==_iff i id).1 same in cc,
            omega arith,
            omega arith,
          ),
          later,
        ))
        later all

module _ {F G1 G2 : Type 0} ⦃cf : Codec F⦄ ⦃ca : Codec G1⦄ ⦃cb : Codec G2⦄ ⦃cn : Codec ℕ⦄
    ⦃j : Jerasure⦄ ⦃d : DataStream⦄ ⦃t : Merkle⦄ where
  deal_sharing-SendsDealt :
      (first self : Core F G1 G2) (sharing : Sharing F G1 G2) {events : List Event}
      → IsIdle first self
      → deal_sharing self sharing ≡ ok events
      → SendsDealt events
  unfolding deal_sharing
  deal_sharing-SendsDealt first self sharing idle returned =
      let (chunks, cut, rest) =
        >>=-eq-ok (cut_sharing self.collector.nreconthres self.nreplicas sharing) _ returned in
      let (leaves, collected, sent) =
        >>=-eq-ok (collect self.nreplicas (λ i. chunk_at chunks i >>= λ c. ok c.bytes)) _ rest in
      send_chunks-SendsDealt self.id leaves chunks 0 self.nreplicas idle.small_id
        (omega (arith, idle.few)) sent

module _ {F G1 G2 : Type 0} ⦃f : Field F⦄ ⦃a : Group G1⦄ ⦃b : Group G2⦄ ⦃sa : Scalars F G1⦄
    ⦃sb : Scalars F G2⦄ ⦃cf : Codec F⦄ ⦃ca : Codec G1⦄ ⦃cb : Codec G2⦄ ⦃cn : Codec ℕ⦄ ⦃h : Hasher F⦄
    ⦃j : Jerasure⦄ ⦃d : DataStream⦄ ⦃t : Merkle⦄ where
  -- A dealer sends messages of round 0, and none of index 0 if it is replica 0.
  pub on_receive_start-SendsDealt :
      (hash difficulty : List ℕ) (outputbytes : ℕ) (first self : Core F G1 G2) (supply : Supply F)
      {r : List Event × Supply F}
      → IsIdle first self
      → on_receive_start hash difficulty outputbytes self supply ≡ ok r
      → SendsDealt r.0
  unfolding on_receive_start vrf deliver_chunk
  on_receive_start-SendsDealt hash difficulty outputbytes first self supply idle returned =
      let Dealt : List Event × Supply F → Type 0 = λ r. SendsDealt r.0 in
      let (wins, compared, next) =
        lift-eq-ok (unsigned_char_compare hash difficulty outputbytes) _ supply returned in
      of_if wins (deliver_chunk self) (Random.pure []) supply
        (λ dealt.
          let (sharing, later, created, sent) =
            bind-eq-ok (create_sharing self.collector.pvss_context) _ supply dealt in
          let (events, all, same) = lift-ok (deal_sharing self sharing) later sent in
          subst Dealt same (deal_sharing-SendsDealt first self sharing idle all))
        (λ nothing. subst Dealt (ok_injective nothing) tt) next
