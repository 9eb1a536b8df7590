-- ===== src/Drg/Core/Idle.antt =====
-- What the handlers of src/DrgCore.cpp keep when the messages are those of `deliver_chunk`.
use random_beacon.Prelude.{
  ℕ, zero, suc, ◌+◌, ◌-◌, ◌%◌, ◌^◌, ◌≤◌, ◌<◌, ◌≡◌, ◌≢◌, refl, sym, ap, ◌∙◌, List, [], ◌∷◌, ◌++◌,
  Bool, true, false, Bool-cases, inl, inr, Option, some, none, Result, ok_injective, ok, err,
  undefined, if◌then◌else◌, ltb, ◌==◌, ==_iff, ne→==, subst, length, lookup, lookup-assign, assign,
  update, arith, collect,
}
use random_beacon.Prelude
use random_beacon.Random.{Supply, lift-eq-ok, stopped, of_if}
use random_beacon.Stream.{Codec}
use random_beacon.Algebra.Field.{Field}
use random_beacon.Algebra.Group.{Group, Scalars, Pairing}
use random_beacon.Dleq.{Hasher}
use random_beacon.Erasure.{Jerasure}
use random_beacon.Wire.{DataStream}
use random_beacon.Drg.Messages.{ShareChunk}
use random_beacon.Drg.Core.{
  Merkle, Row, store_row, Core, Event, sharechunk, broadcast_sharechunk, broadcast_share, gather,
  passes, store_chunk, recover_text, finish_sharing, on_receive_share_chunk,
}

-- A message as `deliver_chunk` makes it: its round is 0, replica 0 sends no chunk of index 0, and
-- the numbers fit the words in which they are sent.
abbrev pub IsDealt : ShareChunk → Type 0
IsDealt c =
    (c.round ≡ 0) × (c.replica_id ≡ 0 → c.idx ≢ 0) × (c.replica_id < 2 ^ 16) × (c.idx < 2 ^ 32)

-- Nothing but such messages is sent.
abbrev pub SendsDealt : List Event → Type 0
SendsDealt [] = Unit
SendsDealt (sharechunk c dest ∷ events) = IsDealt c × SendsDealt events
SendsDealt (broadcast_sharechunk c ∷ events) = IsDealt c × SendsDealt events
SendsDealt (broadcast_share share ∷ events) = ⊥

-- A replica that has no sharing and no share, and no chunk 0 of replica 0, and whose parameters are
-- those of the first one.
pub record IsIdle {F G1 G2 : Type 0} (first self : Core F G1 G2) : Type 0 where
  pub same_id : self.id ≡ first.id
  pub same_number : self.nreplicas ≡ first.nreplicas
  pub same_threshold : self.collector.nreconthres ≡ first.collector.nreconthres
  pub same_context : self.collector.pvss_context ≡ first.collector.pvss_context
  pub small_id : self.id < 2 ^ 16
  pub few : self.nreplicas ≤ 2 ^ 16
  pub threshold : 0 < self.collector.nreconthres
  pub no_chunk : lookup 0 (self.sharechunk_matrix 0) ≡ none
  pub no_sharing : (i : ℕ) → self.sharing_map i ≡ none
  pub no_share : self.collector.dec_share_vec ≡ []

gather-missing : (k : ℕ) (row : Row) → 0 < k → lookup 0 row ≡ none → gather k row ≡ err undefined
unfolding gather collect
gather-missing zero row h missing = absurd (omega arith)
gather-missing (suc k) row h missing = rw missing

-- The branches of `store_chunk`: what holds of every outcome holds of the result.
of_passes :
    {A : Type 0} (P : A → Type 0) (v : Option Bool) (x y : A) {r : A}
    → P x
    → P y
    → Prelude.◌>>=◌ (passes v) (λ verified. ok (if verified then x else y)) ≡ ok r
    → P r
of_passes P none x y px py e = cc
of_passes P (some true) x y px py e = subst P (ok_injective e) px
of_passes P (some false) x y px py e = subst P (ok_injective e) py

of_lookup :
    {A V : Type 0} (P : A → Type 0) (found : Option V) (stored : Result A) (x : A) {r : A}
    → ((y : A) → stored ≡ ok y → P y)
    → P x
    → elim found [ none ↦ stored | some c ↦ ok x ] ≡ ok r
    → P r
of_lookup P none stored x py px e = py _ e
of_lookup P (some c) stored x py px e = subst P (ok_injective e) px

module _ {F G1 G2 : Type 0} where
  store_row-IsIdle :
      (share : ShareChunk) (first self : Core F G1 G2)
      → IsDealt share
      → IsIdle first self
      → IsIdle first (
          store_row self share.replica_id
            (assign share.idx (some share.chunk) (self.sharechunk_matrix share.replica_id)))
  store_row-IsIdle share first self dealt idle = record {
    same_id = idle.same_id;
    same_number = idle.same_number;
    same_threshold = idle.same_threshold;
    same_context = idle.same_context;
    small_id = idle.small_id;
    few = idle.few;
    threshold = idle.threshold;
    no_chunk = kept;
    no_sharing = idle.no_sharing;
    no_share = idle.no_share;
  }
    where
      row : Row
      row = self.sharechunk_matrix share.replica_id

      kept :
          lookup 0 (
            update self.sharechunk_matrix share.replica_id
              (assign share.idx (some share.chunk) row)
              0)
          ≡ none
      kept = elim (Bool-cases (share.replica_id == 0)) [
        | inl q ↦
            let zero_id : share.replica_id ≡ 0 = (==_iff share.replica_id 0).0 q in
            rw q (
              lookup-assign share.idx 0 (some share.chunk) row
              ∙ ap (λ b. if b then some (some share.chunk) else lookup 0 row)
                  (ne→== share.idx 0 (dealt.1 zero_id))
              ∙ ap (λ i. lookup 0 (self.sharechunk_matrix i)) zero_id
              ∙ idle.no_chunk)
        | inr q ↦ rw q idle.no_chunk
      ]

module _ {F G1 G2 : Type 0} ⦃t : Merkle⦄ where
  -- What is left of a core by the first part of the handler, and what it sends.
  abbrev Keeps : Core F G1 G2 → Core F G1 G2 × ℕ × List Event → Type 0
  Keeps first stored = IsIdle first stored.0 × SendsDealt stored.2

  store_chunk-IsIdle :
      (share : ShareChunk) (first self : Core F G1 G2) {stored : Core F G1 G2 × ℕ × List Event}
      → IsDealt share
      → IsIdle first self
      → store_chunk share self ≡ ok stored
      → IsIdle first stored.0 × SendsDealt stored.2
  unfolding store_chunk
  store_chunk-IsIdle share first self dealt idle h =
      of_lookup (Keeps first) (lookup share.idx (self.sharechunk_matrix share.replica_id)) _ _
        (λ y.
          of_passes (Keeps first) (t.path_verify share.merkle_proof share.merkle_root) _ _
            (store_row-IsIdle share first self dealt idle, (dealt, tt)) (idle, (dealt, tt)))
        (idle, tt) h

recover_text-undefined :
    {F G1 G2 : Type 0} ⦃j : Jerasure⦄ (share : ShareChunk) (first self : Core F G1 G2)
    → share.round ≡ 0
    → IsIdle first self
    → recover_text share self ≡ err undefined
unfolding recover_text
recover_text-undefined share first self zero_round idle = rw (
    gather-missing self.collector.nreconthres (self.sharechunk_matrix (share.round % 2 ^ 16))
      idle.threshold
      (ap (λ i. lookup 0 (self.sharechunk_matrix (i % 2 ^ 16))) zero_round ∙ idle.no_chunk))

module _ {F G1 G2 GT : Type 0} ⦃f : Field F⦄ ⦃a : Group G1⦄ ⦃b : Group G2⦄ ⦃sa : Scalars F G1⦄
    ⦃sb : Scalars F G2⦄ (e : Pairing F G1 G2 GT) ⦃cf : Codec F⦄ ⦃ca : Codec G1⦄ ⦃cb : Codec G2⦄
    ⦃cn : Codec ℕ⦄ ⦃h : Hasher F⦄ ⦃j : Jerasure⦄ ⦃d : DataStream⦄ where
  finish_sharing-undefined :
      (share : ShareChunk) (first self : Core F G1 G2) (supply : Supply F)
      → share.round ≡ 0
      → IsIdle first self
      → finish_sharing e share self supply ≡ err undefined
  unfolding finish_sharing
  finish_sharing-undefined share first self supply zero_round idle =
      rw (recover_text-undefined share first self zero_round idle)

  module _ ⦃t : Merkle⦄ where
    -- A handler that returns leaves an idle replica idle: the call that would open a sharing
    -- follows a null pointer.
    pub on_receive_share_chunk-IsIdle :
        (share : ShareChunk) (first self : Core F G1 G2) (supply : Supply F)
        {r : (Core F G1 G2 × List Event) × Supply F}
        → IsDealt share
        → IsIdle first self
        → on_receive_share_chunk e share self supply ≡ ok r
        → IsIdle first r.0.0 × SendsDealt r.0.1
    unfolding on_receive_share_chunk
    on_receive_share_chunk-IsIdle share first self supply dealt idle returned =
        let row = self.sharechunk_matrix share.replica_id in
        let Kept : (Core F G1 G2 × List Event) × Supply F → Type 0 =
          λ r. IsIdle first r.0.0 × SendsDealt r.0.1 in
        of_if (ltb self.collector.nreconthres (length row)) _ _ supply
          (λ unchanged. subst Kept (ok_injective unchanged) (idle, tt))
          (λ more.
            let (stored, stores, next) = lift-eq-ok (store_chunk share self) _ supply more in
            let (kept, sends) = store_chunk-IsIdle share first self dealt idle stores in
            of_if (stored.1 == self.collector.nreconthres) _ _ supply
              (λ finished. absurd (
                stopped (finish_sharing e share stored.0) _ supply
                  (finish_sharing-undefined share first stored.0 supply dealt.0 kept) finished))
              (λ waits. subst Kept (ok_injective waits) (kept, sends)) next)
          returned
