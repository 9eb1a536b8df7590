-- ===== src/Pvss/Reconstruct/Agreed.antt =====
-- `verify_aggregation`, `decrypt`, `reconstruct` and `verify_beacon` of include/pvss/pvss.hpp
-- together: whoever made an aggregate, the replicas agree on its beacon.
use random_beacon.Prelude.{
  ℕ, ◌<◌, ◌≡◌, ◌≢◌, ◌↔◌, sym, ap, ◌∙◌, List, [], ◌∷◌, true, ok, ok_injective, length, subst,
}
use random_beacon.Random.{Supply}
use random_beacon.Stream.{Codec}
use random_beacon.Algebra.Field.{Field}
use random_beacon.Algebra.Group.{Group, Scalars, Pairing, ◌•◌}
use random_beacon.Poly.Spec.{eval}
use random_beacon.Poly.Accepts.{share_point}
use random_beacon.Dleq.{Hasher}
use random_beacon.Pvss.Defs.{Context, Aggregate, Decryption, Beacon}
use random_beacon.Pvss.Deal.Dealt.{IsWellFormed}
use random_beacon.Pvss.Aggregate.{verify_aggregation}
use random_beacon.Pvss.Aggregate.Accepted.{IsAggregate}
use random_beacon.Pvss.Aggregate.Sound.{verify_aggregation_iff}
use random_beacon.Pvss.Reconstruct.{decrypt, reconstruct, verify_beacon}
use random_beacon.Pvss.Reconstruct.Decrypt.{HoldsKey, decrypt-verify_decryption}
use random_beacon.Pvss.Reconstruct.Unique.{
  AllShares, DistinctOrigins, beacon_of, reconstruct-shares, verify_beacon_unique,
}

module _ {F G1 G2 : Type 0} ⦃f : Field F⦄ ⦃a : Group G1⦄ ⦃b : Group G2⦄ ⦃sa : Scalars F G1⦄
    ⦃sb : Scalars F G2⦄ ⦃ca : Codec G1⦄ ⦃cb : Codec G2⦄ ⦃h : Hasher F⦄ where
  -- The context of the replica with an identifier and a key.
  abbrev holder : Context F G1 G2 → ℕ → F → Context F G1 G2
  holder ctx id key = record ctx { secret_key = key; my_id = id }

  -- Each decryption was returned by `decrypt` to a replica that holds its key.
  abbrev pub AllDecrypted : Context F G1 G2 → Aggregate F G1 G2 → List (Decryption F G1) → Type 0
  AllDecrypted ctx agg [] = Unit
  AllDecrypted ctx agg (d ∷ ds) =
      ((id : ℕ) × (key : F) × (supply rest : Supply F) × HoldsKey
          (record ctx { secret_key = key; my_id = id })
        × (decrypt (record ctx { secret_key = key; my_id = id }) agg supply ≡ ok (d, rest)))
      × AllDecrypted ctx agg ds

  AllDecrypted-AllShares :
      (ctx : Context F G1 G2) (p : List F) (agg : Aggregate F G1 G2) (ds : List (Decryption F G1))
      → IsAggregate ctx p agg
      → AllDecrypted ctx agg ds
      → AllShares ctx p ds
  AllDecrypted-AllShares ctx p agg [] sums made = tt
  AllDecrypted-AllShares ctx p agg (d ∷ ds) sums made =
      let (id, key, supply, rest, holds, returned) = made.0 in
      let (d', rest', returned', value, origin, verified) =
        decrypt-verify_decryption (holder ctx id key) p agg supply
          (record {
            degree = sums.degree;
            encryptions_eq = sums.encryptions_eq;
            commitments_eq = sums.commitments_eq;
            decomposition_eq = sums.decomposition_eq;
            decomposition_length = sums.decomposition_length;
          })
          holds in
      let same : d' ≡ d = ap (λ r. r.0) (ok_injective (sym returned' ∙ returned)) in
      let id_eq : d.origin ≡ id = ap (λ x. x.origin) (sym same) ∙ origin in
      (
        subst (λ k. k < ctx.config.num_replicas) (sym id_eq) holds.inside,
        ap (λ x. x.dec) (sym same) ∙ value ∙ ap (λ k. eval p (share_point k) • ctx.g1) (sym id_eq),
        AllDecrypted-AllShares ctx p agg ds sums made.1,
      )

module _ {F G1 G2 GT : Type 0} ⦃f : Field F⦄ ⦃a : Group G1⦄ ⦃b : Group G2⦄ ⦃sa : Scalars F G1⦄
    ⦃sb : Scalars F G2⦄ (e : Pairing F G1 G2 GT) ⦃ca : Codec G1⦄ ⦃cb : Codec G2⦄
    ⦃h : Hasher F⦄ where
  -- In a well-formed context whose generator h1 is not zero and generates the second group, take
  -- any aggregate, whoever made it, that `verify_aggregation` accepts whatever it draws, and two
  -- lists of decryptions of it, each list longer than the number of faults and with at most one
  -- decryption from a replica, all returned by `decrypt` to replicas that hold their keys. From both
  -- lists `reconstruct` returns one and the same beacon, and `verify_beacon` accepts for the
  -- aggregate that beacon and no other.
  pub reconstruct-agreed :
      (ctx : Context F G1 G2) (agg : Aggregate F G1 G2) (recon recon' : List (Decryption F G1))
      → IsWellFormed ctx
      → ctx.h1 ≢ b.zero
      → ((x : G2) → (c : F) × (x ≡ c • ctx.h1))
      → ((supply : Supply F)
          → (rest : Supply F) × (verify_aggregation e ctx agg supply ≡ ok (true, rest)))
      → AllDecrypted ctx agg recon
      → DistinctOrigins recon
      → ctx.config.num_faults < length recon
      → AllDecrypted ctx agg recon'
      → DistinctOrigins recon'
      → ctx.config.num_faults < length recon'
      → (beacon : Beacon G1 GT) × (reconstruct e ctx recon ≡ ok beacon)
        × (reconstruct e ctx recon' ≡ ok beacon)
        × ((other : Beacon G1 GT) → (verify_beacon e ctx agg other ≡ true) ↔ (other ≡ beacon))
  reconstruct-agreed ctx agg recon recon' well ne generates accepts made distinct enough made'
        distinct' enough' =
      let (listed, p, degree, encryptions, commitments, decomposition, count) =
        (verify_aggregation_iff e ctx agg well ne generates).0 accepts in
      let sums : IsAggregate ctx p agg = record {
        degree = degree;
        encryptions_eq = encryptions;
        commitments_eq = commitments;
        decomposition_eq = decomposition;
        decomposition_length = count;
      } in
      (
        beacon_of e ctx p,
        reconstruct-shares e ctx p recon well degree
            (AllDecrypted-AllShares ctx p agg recon sums made) distinct enough,
        reconstruct-shares e ctx p recon' well degree
            (AllDecrypted-AllShares ctx p agg recon' sums made') distinct' enough',
        λ other. verify_beacon_unique e ctx p agg other sums ne,
      )
