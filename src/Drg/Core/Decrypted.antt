-- ===== src/Drg/Core/Decrypted.antt =====
-- The share that `on_receive_shareChunk` of src/DrgCore.cpp decrypts and broadcasts.
use random_beacon.Prelude.{
  zero, suc, ◌-◌, ◌*◌, ◌≤◌, refl, some, Option, get_elem?, ℕ, ◌+◌, ◌%◌, ◌^◌, ◌<◌, ◌≡◌, ap, ◌∙◌,
  List, [], ◌∷◌, ◌++◌, true, ok, arith, length, length-tabulate, tabulate,
}
use random_beacon.Random.{Supply}
use random_beacon.Stream.{Codec}
use random_beacon.Algebra.Field.{Field}
use random_beacon.Algebra.Group.{Group, Scalars, Pairing, ◌•◌}
use random_beacon.Dleq.{Hasher}
use random_beacon.Poly.Spec.{eval, sum_poly}
use random_beacon.Poly.Accepts.{share_point}
use random_beacon.Pvss.Deal.Dealt.{IsDealt}
use random_beacon.Pvss.Defs.{Context, Sharing, Aggregate, Decryption}
use random_beacon.Pvss.Aggregate.{aggregate}
use random_beacon.Pvss.Aggregate.Sums.{AllDealt}
use random_beacon.Pvss.Aggregate.Accepted.{aggregate-IsAggregate}
use random_beacon.Pvss.Reconstruct.{verify_decryption}
use random_beacon.Pvss.Reconstruct.Decrypt.{HoldsKey, decrypt-verify_decryption}
use random_beacon.Pvss.Streams.{put_decryption}
use random_beacon.Drg.Shares.{on_receive_share, hold}
use random_beacon.Drg.Shares.Collected.{on_receive_share_early}
use random_beacon.Erasure.{Chunk, Jerasure}
use random_beacon.Erasure.Recovered.{Decodes}
use random_beacon.Wire.{DataStream}
use random_beacon.Drg.Messages.{ShareChunk}
use random_beacon.Drg.Core.{
  Core, broadcast_share, decrypt_share, all_sharings, finish_sharing, store_sharing,
}
use random_beacon.Drg.Core.Dealer.{cut_sharing}
use random_beacon.Drg.Core.Gathered.{HoldsChunks, erased}
use random_beacon.Drg.Core.Opened.{sharing_text, forget_secret, settled, finish_sharing-settled}

module _ {F G1 G2 : Type 0} where
  pub all_sharings_complete :
      (sharings : List (Sharing F G1 G2)) (n : ℕ) (sharing_map : ℕ → Option (Sharing F G1 G2))
      → length sharings ≡ n
      → ((i : ℕ) → i < n → sharing_map i ≡ get_elem? sharings i)
      → all_sharings n sharing_map ≡ some sharings
  unfolding all_sharings
  all_sharings_complete [] zero sharing_map count each = refl
  all_sharings_complete [] (suc n) sharing_map count each = absurd (omega (arith, count))
  all_sharings_complete (s ∷ rest) zero sharing_map count each = absurd (omega (arith, count))
  all_sharings_complete (s ∷ rest) (suc n) sharing_map count each = rw (
    all_sharings,
    each 0 (omega arith),
    all_sharings_complete rest n (λ i. sharing_map (suc i)) (omega (arith, count))
        (λ i less. each (suc i) (omega arith)),
  )

module _ {F G1 G2 : Type 0} ⦃f : Field F⦄ ⦃a : Group G1⦄ ⦃b : Group G2⦄ ⦃sa : Scalars F G1⦄
    ⦃sb : Scalars F G2⦄ ⦃cf : Codec F⦄ ⦃ca : Codec G1⦄ ⦃cb : Codec G2⦄ ⦃cn : Codec ℕ⦄
    ⦃h : Hasher F⦄ where
  -- A sharing is as honest without its secret.
  pub forget_secret-IsDealt :
      {ctx : Context F G1 G2} {p : List F} {sharing : Sharing F G1 G2}
      → IsDealt ctx p sharing
      → IsDealt ctx p (forget_secret sharing)
  forget_secret-IsDealt dealt = record {
    degree = dealt.degree;
    encryptions_eq = dealt.encryptions_eq;
    commitments_eq = dealt.commitments_eq;
    proofs_length = dealt.proofs_length;
    proofs_accepted = dealt.proofs_accepted;
    gs_eq = dealt.gs_eq;
    pi_accepted = dealt.pi_accepted;
  }

module _ {F G1 G2 GT : Type 0} ⦃f : Field F⦄ ⦃a : Group G1⦄ ⦃b : Group G2⦄ ⦃sa : Scalars F G1⦄
    ⦃sb : Scalars F G2⦄ (e : Pairing F G1 G2 GT) ⦃cf : Codec F⦄ ⦃ca : Codec G1⦄ ⦃cb : Codec G2⦄
    ⦃cn : Codec ℕ⦄ ⦃h : Hasher F⦄ where
  -- A replica that holds its key, with honest sharings, as many as its threshold, and with more
  -- than one share to go to that threshold: for every supply the handler returns; it keeps and
  -- broadcasts one decryption, which is the share of the sum of the dealt polynomials at the
  -- replica's point, and which `verify_decryption` accepts for the aggregate of the sharings.
  pub decrypt_share-honest :
      (self : Core F G1 G2) (ps : List (List F)) (sharings : List (Sharing F G1 G2))
      (supply : Supply F)
      → AllDealt self.collector.pvss_context ps sharings
      → HoldsKey self.collector.pvss_context
      → length sharings ≡ self.collector.nreconthres
      → length self.collector.dec_share_vec + 1 < self.collector.nreconthres
      → (agg : Aggregate F G1 G2) × (d : Decryption F G1) × (rest : Supply F) × (aggregate sharings
            (tabulate self.collector.nreconthres (λ i. i))
          ≡ ok agg)
        × (d.dec
            ≡ eval (sum_poly [] ps) (share_point self.collector.pvss_context.my_id)
              • self.collector.pvss_context.g1)
        × (d.origin ≡ self.collector.pvss_context.my_id)
        × (verify_decryption agg d ≡ ok true)
        × (decrypt_share e sharings self supply
            ≡ ok (
              (
                record self {
                  collector = hold self.collector (self.collector.dec_share_vec ++ d ∷ []);
                },
                broadcast_share (record { replica_id = self.id % 2 ^ 16; bt = put_decryption d [] })
                    ∷ [],
              ),
              rest,
            ))
  unfolding decrypt_share on_receive_share
  decrypt_share-honest self ps sharings supply dealt holds count few =
      let k = self.collector.nreconthres in
      let ctx = self.collector.pvss_context in
      let (agg, returned, ids, sums) =
        aggregate-IsAggregate ctx ps sharings (tabulate k (λ i. i)) dealt (omega arith)
          (omega (arith, length-tabulate k (λ i. i))) in
      let (d, rest, decrypted, value, origin, verified) =
        decrypt-verify_decryption ctx (sum_poly [] ps) agg supply sums holds in
      (
        agg,
        d,
        rest,
        returned,
        value,
        origin,
        verified,
        rw (returned, decrypted, on_receive_share_early e d self.collector few),
      )

module _ {F G1 G2 GT : Type 0} ⦃f : Field F⦄ ⦃a : Group G1⦄ ⦃b : Group G2⦄ ⦃sa : Scalars F G1⦄
    ⦃sb : Scalars F G2⦄ (e : Pairing F G1 G2 GT) ⦃cf : Codec F⦄ ⦃ca : Codec G1⦄ ⦃cb : Codec G2⦄
    ⦃cn : Codec ℕ⦄ ⦃h : Hasher F⦄ ⦃j : Jerasure⦄ ⦃d : DataStream⦄ where
  -- In a replica with a threshold k above 0, k replicas or more, its key and more than one share to
  -- go to k; with a sharing whose text is shorter than 2^31 by more than 64 k bytes, a code that
  -- decodes the erasure of all the coding chunks, the first k chunks of the sharing in the row of
  -- the message's round, and their size in the message: if with this sharing, without its secret,
  -- there is one from each of the first k replicas, and these are honest, then for every supply the
  -- end of `on_receive_shareChunk` stores the sharing, keeps a decryption of the aggregate, which
  -- `verify_decryption` accepts, as a share, and broadcasts it.
  pub finish_sharing-decrypts :
      (share : ShareChunk) (self : Core F G1 G2) (sharing : Sharing F G1 G2) (chunks : List Chunk)
      (ps : List (List F)) (sharings : List (Sharing F G1 G2)) (supply : Supply F)
      → 0 < self.collector.nreconthres
      → self.collector.nreconthres ≤ self.nreplicas
      → length (sharing_text sharing) + self.collector.nreconthres * 8 * 8 < 2 ^ 31
      → Decodes self.collector.nreconthres
          (self.nreplicas - self.collector.nreconthres)
          8
          (erased self.collector.nreconthres (self.nreplicas - self.collector.nreconthres))
      → cut_sharing self.collector.nreconthres self.nreplicas sharing ≡ ok chunks
      → HoldsChunks self.collector.nreconthres chunks
          (self.sharechunk_matrix (share.round % 2 ^ 16))
      → share.chunk.size ≡ length (sharing_text sharing)
      → length sharings ≡ self.collector.nreconthres
      → ((i : ℕ)
          → i < self.collector.nreconthres
          → (store_sharing self share.replica_id (forget_secret sharing)).sharing_map (i % 2 ^ 16)
            ≡ get_elem? sharings i)
      → AllDealt self.collector.pvss_context ps sharings
      → HoldsKey self.collector.pvss_context
      → length self.collector.dec_share_vec + 1 < self.collector.nreconthres
      → (agg : Aggregate F G1 G2) × (dec : Decryption F G1) × (rest : Supply F) × (aggregate
            sharings
            (tabulate self.collector.nreconthres (λ i. i))
          ≡ ok agg)
        × (verify_decryption agg dec ≡ ok true)
        × (finish_sharing e share self supply
            ≡ ok (
              (
                record (store_sharing self share.replica_id (forget_secret sharing)) {
                  collector = hold self.collector (self.collector.dec_share_vec ++ dec ∷ []);
                },
                broadcast_share
                      (record { replica_id = self.id % 2 ^ 16; bt = put_decryption dec [] })
                    ∷ [],
              ),
              rest,
            ))
  finish_sharing-decrypts share self sharing chunks ps sharings supply hk room small code cut has
        sized count each dealt holds few =
      let self' = store_sharing self share.replica_id (forget_secret sharing) in
      let complete =
        all_sharings_complete sharings self.collector.nreconthres
          (λ i. self'.sharing_map (i % 2 ^ 16)) count each in
      let (agg, dec, rest, returned, value, origin, verified, decrypted) =
        decrypt_share-honest e self' ps sharings supply dealt holds count few in
      (
        agg,
        dec,
        rest,
        returned,
        verified,
        finish_sharing-settled e share self sharing chunks supply hk room small code cut has sized
            ∙ ap (λ found. settled e self' found supply) complete
            ∙ decrypted,
      )
