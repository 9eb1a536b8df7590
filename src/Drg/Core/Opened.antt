-- ===== src/Drg/Core/Opened.antt =====
-- `on_receive_shareChunk` of src/DrgCore.cpp opens the sharing that a dealer has cut into chunks,
-- when the row of the message's round has the dealer's data chunks.
use random_beacon.Prelude.{
  ok_injective, subst, ℕ, zero, suc, ◌+◌, ◌-◌, ◌*◌, ◌%◌, ◌^◌, ◌≤◌, ◌<◌, ◌≡◌, ◌≢◌, refl, sym, ap,
  ◌∙◌, List, [], ◌∷◌, ◌++◌, true, Option, none, some, ok, length, length-append, take, replicate,
  update_other, update_same, fold_range, arith,
}
use mathlib.Core.List.{map-append}
use random_beacon.Stream.{Codec}
use random_beacon.Algebra.Field.{Field}
use random_beacon.Algebra.Group.{Group, Scalars, Pairing}
use random_beacon.Dleq.{Hasher}
use random_beacon.Random.{Supply, Rand, pure}
use random_beacon.Erasure.{Bytes, Chunk, Jerasure, decode}
use random_beacon.Erasure.Recovered.{chunks_of, Received, Decodes, decode-encode}
use random_beacon.Wire.{DataStream}
use random_beacon.Pvss.Defs.{Sharing}
use random_beacon.Pvss.Streams.{put_sharing}
use random_beacon.Pvss.Streams.Proofs.{get_sharing-put_sharing}
use random_beacon.Drg.Messages.{ShareChunk, put_bytes}
use random_beacon.Drg.Messages.RoundTrip.{read_u32, read_length, read_front}
use random_beacon.Drg.Core.{
  Core, store_row, touch, recover_text, read_sharing, fresh_sharing, all_sharings, finish_sharing,
  store_sharing, decrypt_share, Event,
}
use random_beacon.Drg.Core.Dealer.{cut_sharing}
use random_beacon.Drg.Core.Gathered.{
  HoldsChunks, HoldsChunks-HasChunks, touched-HasChunks, HasChunks, erased, gather-HasChunks,
  Received-erased, map-replicate,
}

module _ {F G1 G2 : Type 0} ⦃f : Field F⦄ where
  -- A sharing as it is sent, without its secret.
  abbrev pub forget_secret : Sharing F G1 G2 → Sharing F G1 G2
  forget_secret sharing = record sharing { secret = f.zero }

module _ {F G1 G2 : Type 0} ⦃cf : Codec F⦄ ⦃ca : Codec G1⦄ ⦃cb : Codec G2⦄ ⦃cn : Codec ℕ⦄
    ⦃d : DataStream⦄ where
  -- The text of a sharing after its length, as it is cut.
  abbrev pub sharing_text : Sharing F G1 G2 → Bytes
  sharing_text sharing = put_bytes (put_sharing sharing []) []

module _ {F G1 G2 : Type 0} ⦃f : Field F⦄ ⦃b : Group G2⦄ ⦃cf : Codec F⦄ ⦃ca : Codec G1⦄
    ⦃cb : Codec G2⦄ ⦃cn : Codec ℕ⦄ ⦃j : Jerasure⦄ ⦃d : DataStream⦄ where
  read_sharing-put_bytes :
      (sharing : Sharing F G1 G2)
      → length (put_sharing sharing []) < 2 ^ 32
      → read_sharing (put_bytes (put_sharing sharing []) []) ≡ ok (forget_secret sharing)
  unfolding read_sharing put_bytes
  read_sharing-put_bytes sharing small =
      let text = put_sharing sharing [] in
      rw (
        read_u32 (d.htole (length text % 2 ^ 32)) (text ++ []) (d.htole_bound _ (omega arith)),
        read_length text small,
        read_front text [] (length text) refl,
        get_sharing-put_sharing fresh_sharing sharing [],
      )

  length-sharing_text :
      (sharing : Sharing F G1 G2) → length (put_sharing sharing []) ≤ length (sharing_text sharing)
  unfolding put_bytes
  length-sharing_text sharing =
      let text = put_sharing sharing [] in
      omega (
        arith,
        length-append (d.u32.put (d.htole (length text % 2 ^ 32))) (text ++ []),
        length-append text [],
      )

  recover_text-HasChunks :
      (share : ShareChunk) (self : Core F G1 G2) (sent : List Bytes) (text : Bytes)
      → let k = self.collector.nreconthres in
        let m = self.nreplicas - k in
        length sent ≡ k + m
        → HasChunks k (length text) sent (self.sharechunk_matrix (share.round % 2 ^ 16))
        → share.chunk.size ≡ length text
        → ((received : List Bytes)
            → Received (erased k m) sent received
            → decode k m 8 (chunks_of (length text) received) (erased k m) [] ≡ ok (true, text))
        → recover_text share self
          ≡ ok (
            store_row self
                (share.round % 2 ^ 16)
                (fold_range k touch (self.sharechunk_matrix (share.round % 2 ^ 16))),
            text,
          )
  unfolding recover_text
  recover_text-HasChunks share self sent text count has sized decodes =
      let k = self.collector.nreconthres in
      let m = self.nreplicas - k in
      let blank : Bytes = replicate (length share.chunk.bytes) 0 in
      let chunks : chunks_of (length text) (take k sent)
            ++ replicate m (record { size = share.chunk.size; bytes = blank })
          ≡ chunks_of (length text) (take k sent ++ replicate m blank) =
        ap (λ rest. chunks_of (length text) (take k sent) ++ rest)
          (ap (λ size. replicate m (record { size = size; bytes = blank })) sized
            ∙ sym (map-replicate m (λ bt. record { size = length text; bytes = bt }) blank))
        ∙ sym (
            map-append (λ bt. record { size = length text; bytes = bt }) (take k sent)
              (replicate m blank)) in
      rw (
        gather-HasChunks k (length text) sent (self.sharechunk_matrix (share.round % 2 ^ 16))
            (omega arith) has,
        chunks,
        decodes (take k sent ++ replicate m blank) (Received-erased k m sent blank count),
      )

  all_sharings_missing :
      (k i : ℕ) (sharing_map : ℕ → Option (Sharing F G1 G2))
      → i < k
      → sharing_map i ≡ none
      → all_sharings k sharing_map ≡ none
  unfolding all_sharings
  all_sharings_missing zero i sharing_map h missing = absurd (omega arith)
  all_sharings_missing (suc k) zero sharing_map h missing = rw (all_sharings, missing)
  all_sharings_missing (suc k) (suc i) sharing_map h missing =
      first_sharing (sharing_map 0)
        (all_sharings_missing k i (λ n. sharing_map (suc n)) (omega arith) missing)
    where
      first_sharing :
          (found : Option (Sharing F G1 G2)) {rest : Option (List (Sharing F G1 G2))}
          → rest ≡ none
          → elim found [
            | none ↦ none
            | some s ↦ elim rest [ none ↦ none | some ss ↦ some (s ∷ ss) ]
          ]
            ≡ none
      first_sharing none e = refl
      first_sharing (some s) e = rw e

module _ {F G1 G2 GT : Type 0} ⦃f : Field F⦄ ⦃a : Group G1⦄ ⦃b : Group G2⦄ ⦃sa : Scalars F G1⦄
    ⦃sb : Scalars F G2⦄ (e : Pairing F G1 G2 GT) ⦃cf : Codec F⦄ ⦃ca : Codec G1⦄ ⦃cb : Codec G2⦄
    ⦃cn : Codec ℕ⦄ ⦃h : Hasher F⦄ ⦃j : Jerasure⦄ ⦃d : DataStream⦄ where
  -- The end of the handler, when the sharing is stored.
  abbrev pub settled :
      Core F G1 G2 → Option (List (Sharing F G1 G2)) → Rand F (Core F G1 G2 × List Event)
  settled self none = pure (self, [])
  settled self (some sharings) = decrypt_share e sharings self

  pub finish_sharing-settled :
      (share : ShareChunk) (self : Core F G1 G2) (sharing : Sharing F G1 G2) (chunks : List Chunk)
      (supply : Supply F)
      → 0 < self.collector.nreconthres
      → self.collector.nreconthres ≤ self.nreplicas
      → length (sharing_text sharing) + self.collector.nreconthres * 8 * 8 < 2 ^ 31
      → Decodes self.collector.nreconthres
          (self.nreplicas - self.collector.nreconthres)
          8
          (erased self.collector.nreconthres (self.nreplicas - self.collector.nreconthres))
      → cut_sharing self.collector.nreconthres self.nreplicas sharing ≡ ok chunks
      → HoldsChunks self.collector.nreconthres chunks
          (self.sharechunk_matrix (share.round % 2 ^ 16))
      → share.chunk.size ≡ length (sharing_text sharing)
      → finish_sharing e share self supply
        ≡ settled
            (store_sharing self share.replica_id (forget_secret sharing))
            (all_sharings self.collector.nreconthres (λ i.
              (store_sharing self share.replica_id (forget_secret sharing)).sharing_map
                (i % 2 ^ 16)))
            supply
  unfolding finish_sharing cut_sharing put_bytes
  finish_sharing-settled share self sharing chunks supply hk room small code cut holds sized =
      let k = self.collector.nreconthres in
      let m = self.nreplicas - k in
      let text : Bytes = sharing_text sharing in
      let row = self.sharechunk_matrix (share.round % 2 ^ 16) in
      let (sent, cuts, count, decodes) =
        decode-encode k m 8 (erased k m) text [] hk (omega arith) small code in
      let same : chunks ≡ chunks_of (length text) sent = ok_injective (sym cut ∙ cuts) in
      let has : HasChunks k (length text) sent row =
        HoldsChunks-HasChunks k (length text) sent row (omega (arith, count))
          (subst (λ cs. HoldsChunks k cs row) same holds) in
      let kept : store_row self (share.round % 2 ^ 16) (fold_range k touch row) ≡ self =
        ap (store_row self (share.round % 2 ^ 16)) (touched-HasChunks k (length text) sent row has)
        ∙ ap (λ matrix. record self { sharechunk_matrix = matrix })
            (update_same self.sharechunk_matrix (share.round % 2 ^ 16)) in
      let recovered : recover_text share self ≡ ok (self, text) =
        recover_text-HasChunks share self sent text count has sized decodes
        ∙ ap (λ core. ok (core, text)) kept in
      rw (recovered, read_sharing-put_bytes sharing (omega (arith, length-sharing_text sharing)))
        refl

  -- A replica with a threshold k above 0, as many replicas or more, and a sharing whose text is
  -- shorter than 2^31 by more than 64 k bytes, with a code that decodes the erasure of all the
  -- coding chunks. When the row of the round of a message has the first k of the chunks that
  -- `deliver_chunk` cuts of the sharing, and the message has their size, the end of
  -- `on_receive_shareChunk` stores the sharing without its secret under the replica of the message;
  -- if the sharing of another of the first k replicas is missing, it sends nothing and leaves the
  -- rest as it was.
  pub finish_sharing-opens :
      (share : ShareChunk) (self : Core F G1 G2) (sharing : Sharing F G1 G2) (chunks : List Chunk)
      (missing_id : ℕ) (supply : Supply F)
      → 0 < self.collector.nreconthres
      → self.collector.nreconthres ≤ self.nreplicas
      → length (sharing_text sharing) + self.collector.nreconthres * 8 * 8 < 2 ^ 31
      → Decodes self.collector.nreconthres
          (self.nreplicas - self.collector.nreconthres)
          8
          (erased self.collector.nreconthres (self.nreplicas - self.collector.nreconthres))
      → cut_sharing self.collector.nreconthres self.nreplicas sharing ≡ ok chunks
      → HoldsChunks self.collector.nreconthres chunks
          (self.sharechunk_matrix (share.round % 2 ^ 16))
      → share.chunk.size ≡ length (sharing_text sharing)
      → missing_id < self.collector.nreconthres
      → missing_id % 2 ^ 16 ≢ share.replica_id
      → self.sharing_map (missing_id % 2 ^ 16) ≡ none
      → finish_sharing e share self supply
        ≡ ok ((store_sharing self share.replica_id (forget_secret sharing), []), supply)
  finish_sharing-opens share self sharing chunks missing_id supply hk room small code cut holds
        sized less other missing =
      let self' = store_sharing self share.replica_id (forget_secret sharing) in
      let incomplete : all_sharings self.collector.nreconthres (λ i. self'.sharing_map (i % 2 ^ 16))
          ≡ none =
        all_sharings_missing self.collector.nreconthres missing_id
          (λ i. self'.sharing_map (i % 2 ^ 16)) less
          (update_other self.sharing_map share.replica_id (missing_id % 2 ^ 16)
              (some (forget_secret sharing)) other
            ∙ missing) in
      finish_sharing-settled share self sharing chunks supply hk room small code cut holds sized
      ∙ ap (λ found. settled self' found supply) incomplete
