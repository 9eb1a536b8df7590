-- ===== src/Pvss/Reconstruct/Decrypt.antt =====
-- `decrypt` and `verify_decryption` of include/pvss/pvss.hpp.
use random_beacon.Prelude.{
  ℕ, ◌<◌, ◌≡◌, ◌≢◌, refl, sym, ap, ◌∙◌, List, true, ok, length, at, get_or, suc,
}
use random_beacon.Random.{Supply}
use random_beacon.Stream.{Codec}
use random_beacon.Algebra.Field.{Field}
use random_beacon.Algebra.Group.{Group, Scalars, ◌•◌, smul_comm}
use random_beacon.Poly.Spec.{eval}
use random_beacon.Poly.Loops.{at-ok, at-tabulate}
use random_beacon.Poly.Accepts.{share_point}
use random_beacon.Dleq.{Hasher}
use random_beacon.Dleq.Proofs.{prove-verify}
use random_beacon.Pvss.Defs.{
  Context, Aggregate, Decryption, generate_decryption, verify_decryption_proof,
}
use random_beacon.Pvss.Deal.Dealt.{key}
use random_beacon.Pvss.Aggregate.Accepted.{IsAggregate}
use random_beacon.Pvss.Reconstruct.{decrypt, verify_decryption}

module _ {F G : Type 0} ⦃f : Field F⦄ ⦃g : Group G⦄ ⦃s : Scalars F G⦄ where
  pub smul-inverse : (x : F) (a : G) → x ≢ f.zero → x • (f.inverse x • a) ≡ a
  smul-inverse x a ne =
      sym (s.mul-smul x (f.inverse x) a) ∙ ap (λ t. s.smul t a) (f.mul-inverse x ne) ∙ s.one-smul a

module _ {F G : Type 0} ⦃f : Field F⦄ ⦃g : Group G⦄ ⦃s : Scalars F G⦄ ⦃c : Codec G⦄
    ⦃h : Hasher F⦄ where
  -- `decryption_t::generate` returns for a key that is not 0, and its proof is accepted.
  pub generate_decryption_lem :
      (enc : G) (sk : F) (my_id : ℕ) (supply : Supply F)
      → sk ≢ f.zero
      → (d : Decryption F G) × (generate_decryption enc sk my_id supply
          ≡ ok (d, λ i. supply (suc i)))
        × (d.dec ≡ f.inverse sk • enc)
        × (d.origin ≡ my_id)
        × (verify_decryption_proof d enc ≡ true)
  unfolding generate_decryption verify_decryption_proof
  generate_decryption_lem enc sk my_id supply ne =
      let (proof, proved, accepted) =
        prove-verify (f.inverse sk • enc) enc sk supply (smul-inverse sk enc ne) in
      (
        record { dec = f.inverse sk • enc; pi = proof; origin = my_id },
        rw proved,
        refl,
        refl,
        accepted,
      )

module _ {F G1 G2 : Type 0} ⦃f : Field F⦄ ⦃a : Group G1⦄ ⦃sa : Scalars F G1⦄ ⦃ca : Codec G1⦄
    ⦃h : Hasher F⦄ where
  -- `verify_decryption` does not look at the keys: for every replica's entry of an aggregate, what
  -- `decryption_t::generate` makes with any scalar that is not 0, in the place of that replica's
  -- key, is accepted, whatever the key is.
  pub verify_decryption-any_key :
      (agg : Aggregate F G1 G2) (origin : ℕ) (x : F) (supply : Supply F)
      → origin < length agg.encryptions
      → x ≢ f.zero
      → (d : Decryption F G1) × (rest : Supply F) × (generate_decryption
            (get_or agg.encryptions origin a.zero)
            x
            origin
            supply
          ≡ ok (d, rest))
        × (x • d.dec ≡ get_or agg.encryptions origin a.zero)
        × (d.origin ≡ origin)
        × (verify_decryption agg d ≡ ok true)
  unfolding verify_decryption
  verify_decryption-any_key agg origin x supply inside ne =
      let enc = get_or agg.encryptions origin a.zero in
      let (d, made, dec_eq, origin_eq, accepted) = generate_decryption_lem enc x origin supply ne in
      (
        d,
        (λ i. supply (suc i)),
        made,
        ap (λ t. x • t) dec_eq ∙ smul-inverse x enc ne,
        origin_eq,
        rw (ap (at agg.encryptions) origin_eq ∙ at-ok agg.encryptions origin a.zero inside)
            (ap ok accepted),
      )

module _ {F G1 G2 : Type 0} ⦃f : Field F⦄ ⦃a : Group G1⦄ ⦃b : Group G2⦄ ⦃sa : Scalars F G1⦄
    ⦃sb : Scalars F G2⦄ ⦃ca : Codec G1⦄ ⦃cb : Codec G2⦄ ⦃h : Hasher F⦄ where
  -- The secret key of the context is the one behind its entry in `pk_map`, and is not 0.
  pub record HoldsKey (ctx : Context F G1 G2) : Type 0 where
    pub inside : ctx.my_id < ctx.config.num_replicas
    pub pair : key ctx ctx.my_id ≡ ctx.secret_key • ctx.g1
    pub nonzero : ctx.secret_key ≢ f.zero

  -- `decrypt`, by a replica that holds its key, returns the multiple of the generator by the value
  -- of the aggregated polynomial at the replica's point, and `verify_decryption` accepts it.
  pub decrypt-verify_decryption :
      (ctx : Context F G1 G2) (p : List F) (agg : Aggregate F G1 G2) (supply : Supply F)
      → IsAggregate ctx p agg
      → HoldsKey ctx
      → (d : Decryption F G1) × (rest : Supply F) × (decrypt ctx agg supply ≡ ok (d, rest))
        × (d.dec ≡ eval p (share_point ctx.my_id) • ctx.g1)
        × (d.origin ≡ ctx.my_id)
        × (verify_decryption agg d ≡ ok true)
  unfolding decrypt verify_decryption
  decrypt-verify_decryption ctx p agg supply sums holds =
      let v = eval p (share_point ctx.my_id) in
      let enc = v • key ctx ctx.my_id in
      let found : at agg.encryptions ctx.my_id ≡ ok enc =
        ap (λ es. at es ctx.my_id) sums.encryptions_eq
        ∙ at-tabulate ctx.config.num_replicas _ ctx.my_id holds.inside in
      let (d, made, dec_eq, origin_eq, accepted) =
        generate_decryption_lem enc ctx.secret_key ctx.my_id supply holds.nonzero in
      (
        d,
        (λ i. supply (suc i)),
        rw found made,
        dec_eq
            ∙ ap (λ t. f.inverse ctx.secret_key • (v • t)) holds.pair
            ∙ smul_comm (f.inverse ctx.secret_key) v _
            ∙ ap (λ t. v • t)
                (smul_comm (f.inverse ctx.secret_key) ctx.secret_key ctx.g1
                  ∙ smul-inverse ctx.secret_key ctx.g1 holds.nonzero),
        origin_eq,
        rw (ap (at agg.encryptions) origin_eq ∙ found) (ap ok accepted),
      )
