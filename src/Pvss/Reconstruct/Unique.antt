-- ===== src/Pvss/Reconstruct/Unique.antt =====
-- `reconstruct` and `verify_beacon` of include/pvss/pvss.hpp: which beacon comes out.
use random_beacon.Prelude.{
  ℕ, zero, suc, ◌+◌, ◌≤◌, ◌<◌, ◌≡◌, ◌≢◌, refl, sym, ap, ap₂, ◌∙◌, ◌↔◌, List, [], ◌∷◌, map, Bool,
  true, false, Bool-cases, inl, inr, Option, some, none, ok, err, assertion, length, length-map,
  get_or, arith, lt→ltb, le→ltb, not, if◌then◌else◌,
}
use random_beacon.Stream.{Codec}
use random_beacon.Algebra.Field.{Field}
use random_beacon.Algebra.Group.{Group, Scalars, Pairing, ◌⊞◌, ◌•◌}
use random_beacon.Poly.Spec.{eval, constant}
use random_beacon.Poly.Recover.{lagrange_interpolation_at-recovers}
use random_beacon.Poly.Accepts.{share_point}
use random_beacon.Dleq.{Hasher, verify}
use random_beacon.Pvss.Defs.{Context, Aggregate, Decryption, DecompositionProof, Beacon}
use random_beacon.Pvss.Deal.Dealt.{IsWellFormed}
use random_beacon.Pvss.Aggregate.{sum_decomposition}
use random_beacon.Pvss.Aggregate.Accepted.{IsAggregate}
use random_beacon.Pvss.Reconstruct.{reconstruct, sum_gs, verify_beacon}

-- No two decryptions come from one replica.
module _ {F G : Type 0} where
  abbrev pub Avoids : ℕ → List (Decryption F G) → Type 0
  Avoids o [] = Unit
  Avoids o (d ∷ ds) = (o ≢ d.origin) × Avoids o ds

  abbrev pub DistinctOrigins : List (Decryption F G) → Type 0
  DistinctOrigins [] = Unit
  DistinctOrigins (d ∷ ds) = Avoids d.origin ds × DistinctOrigins ds

  abbrev origins : List (Decryption F G) → List ℕ
  origins = map (λ d. d.origin)

  avoided :
      (o : ℕ) (ds : List (Decryption F G)) (i : ℕ)
      → Avoids o ds
      → i < length ds
      → o ≢ get_or (origins ds) i 0
  avoided o [] i av h = absurd (omega arith)
  avoided o (d ∷ ds) zero av h = av.0
  avoided o (d ∷ ds) (suc i) av h = avoided o ds i av.1 (omega arith)

  origins_distinct :
      (ds : List (Decryption F G)) (i j : ℕ)
      → DistinctOrigins ds
      → i < length ds
      → j < length ds
      → i ≢ j
      → get_or (origins ds) i 0 ≢ get_or (origins ds) j 0
  origins_distinct [] i j dis hi hj ne = absurd (omega arith)
  origins_distinct (d ∷ ds) zero zero dis hi hj ne = absurd (ne refl)
  origins_distinct (d ∷ ds) zero (suc j) dis hi hj ne = avoided d.origin ds j dis.0 (omega arith)
  origins_distinct (d ∷ ds) (suc i) zero dis hi hj ne =
      λ e. avoided d.origin ds i dis.0 (omega arith) (sym e)
  origins_distinct (d ∷ ds) (suc i) (suc j) dis hi hj ne =
      origins_distinct ds i j dis.1 (omega arith) (omega arith) (λ e. ne (ap suc e))

module _ {F G1 G2 : Type 0} ⦃f : Field F⦄ ⦃a : Group G1⦄ ⦃sa : Scalars F G1⦄ where
  -- Every decryption is the share of p of the replica that it names.
  abbrev pub AllShares : Context F G1 G2 → List F → List (Decryption F G1) → Type 0
  AllShares ctx p [] = Unit
  AllShares ctx p (d ∷ ds) =
      (d.origin < ctx.config.num_replicas)
      × (d.dec ≡ eval p (share_point d.origin) • ctx.g1)
      × AllShares ctx p ds

  share_found :
      (ctx : Context F G1 G2) (p : List F) (ds : List (Decryption F G1)) (i : ℕ)
      → AllShares ctx p ds
      → i < length ds
      → (get_or (origins ds) i 0 < ctx.config.num_replicas)
        × (get_or (map (λ (d : Decryption F G1). d.dec) ds) i a.zero
            ≡ eval p (get_or (map (λ (d : Decryption F G1). share_point d.origin) ds) i f.zero)
              • ctx.g1)
        × (get_or (map (λ (d : Decryption F G1). share_point d.origin) ds) i f.zero
            ≡ share_point (get_or (origins ds) i 0))
  share_found ctx p [] i all h = absurd (omega arith)
  share_found ctx p (d ∷ ds) zero all h = (all.0, all.1, refl)
  share_found ctx p (d ∷ ds) (suc i) all h = share_found ctx p ds i all.2 (omega arith)

module _ {F G1 G2 GT : Type 0} ⦃f : Field F⦄ ⦃a : Group G1⦄ ⦃b : Group G2⦄ ⦃sa : Scalars F G1⦄
    ⦃sb : Scalars F G2⦄ ⦃ca : Codec G1⦄ ⦃cb : Codec G2⦄ ⦃h : Hasher F⦄
    (e : Pairing F G1 G2 GT) where
  -- The beacon of the polynomial p.
  abbrev pub beacon_of : Context F G1 G2 → List F → Beacon G1 GT
  beacon_of ctx p =
      let point = constant p • ctx.g1 in record { recon = point; beacon = e.pairing point ctx.h2 }

  -- In a well-formed context and for a polynomial of a degree of at most the number of faults: from
  -- more shares than faults, of different replicas, `reconstruct` returns the beacon of the
  -- polynomial: the same one from every such list.
  pub reconstruct-shares :
      (ctx : Context F G1 G2) (p : List F) (recon : List (Decryption F G1))
      → IsWellFormed ctx
      → length p ≤ ctx.config.num_faults + 1
      → AllShares ctx p recon
      → DistinctOrigins recon
      → ctx.config.num_faults < length recon
      → reconstruct e ctx recon ≡ ok (beacon_of ctx p)
  unfolding reconstruct
  reconstruct-shares ctx p recon well short shares distinct enough =
      let d = ctx.config.num_faults in
      let points = map (λ (r : Decryption F G1). share_point r.origin) recon in
      let evals = map (λ (r : Decryption F G1). r.dec) recon in
      let points_length : length points ≡ length recon = length-map recon _ in
      let evals_length : length evals ≡ length recon = length-map recon _ in
      rw (
        lt→ltb d (length recon) enough,
        lagrange_interpolation_at-recovers d evals points p ctx.g1
            (omega (arith, well.room, well.faults, f.max_size_lt)) (omega (arith, evals_length))
            (omega (arith, points_length)) short
            (λ i j hi hj ne same_point.
              let one = share_found ctx p recon i shares (omega arith) in
              let two = share_found ctx p recon j shares (omega arith) in
              origins_distinct recon i j distinct (omega arith) (omega arith) ne (
                omega (
                  arith,
                  one.0,
                  two.0,
                  well.order,
                  f.of_long_injective _ _ (omega (arith, one.0, well.order))
                      (omega (arith, two.0, well.order)) (sym one.2 ∙ same_point ∙ two.2),
                )))
            (λ j hj. (share_found ctx p recon j shares (omega arith)).1),
      )

  -- With no more decryptions than faults the assertion of `reconstruct` fails.
  pub reconstruct-few :
      (ctx : Context F G1 G2) (recon : List (Decryption F G1))
      → length recon ≤ ctx.config.num_faults
      → reconstruct e ctx recon ≡ err assertion
  unfolding reconstruct
  reconstruct-few ctx recon few = rw (le→ltb ctx.config.num_faults (length recon) few)

  sum_gs-sum_decomposition :
      (generator : G2) (ds : List (DecompositionProof F G2)) (gs x : G2)
      → sum_decomposition generator ds gs ≡ some x
      → sum_gs e ds gs ≡ x
  unfolding sum_decomposition sum_gs
  sum_gs-sum_decomposition generator [] gs x found = cc
  sum_gs-sum_decomposition generator (d ∷ ds) gs x found =
      elim (Bool-cases (verify d.pi generator d.gs)) [
        | inl good ↦ sum_gs-sum_decomposition generator ds (gs ⊞ d.gs) x (rw good at found)
        | inr bad ↦ let stopped : ◌≡◌ {A = Option G2} none (some x) = rw bad at found in cc
      ]

  -- For an aggregate that is the sharing of a polynomial, and a generator `h1` that is not zero,
  -- `verify_beacon` accepts exactly the beacon of the polynomial.
  pub verify_beacon_unique :
      (ctx : Context F G1 G2) (p : List F) (agg : Aggregate F G1 G2) (beacon : Beacon G1 GT)
      → IsAggregate ctx p agg
      → ctx.h1 ≢ b.zero
      → (verify_beacon e ctx agg beacon ≡ true) ↔ (beacon ≡ beacon_of ctx p)
  unfolding verify_beacon
  verify_beacon_unique ctx p agg beacon sums generator =
      let point = constant p • ctx.g1 in
      let gs : sum_gs e agg.decomposition b.zero ≡ constant p • ctx.h1 =
        sum_gs-sum_decomposition ctx.h1 agg.decomposition b.zero _ sums.decomposition_eq in
      let moved : e.reduced_pairing ctx.g1 (sum_gs e agg.decomposition b.zero)
          ≡ e.reduced_pairing point ctx.h1 =
        ap (e.reduced_pairing ctx.g1) gs
        ∙ sym (e.reduced_pairing-smul (constant p) ctx.g1 ctx.h1) in
      (
        (λ v.
            let both = verdict _ _ v in
            let recon_eq : beacon.recon ≡ point =
              e.reduced_pairing_injective beacon.recon point ctx.h1 generator
                (sym ((e.beq_iff _ _).0 both.0) ∙ moved) in
            ap₂ made recon_eq
              (sym ((e.beq_iff _ _).0 both.1) ∙ ap (λ r. e.pairing r ctx.h2) recon_eq)),
        λ same. rw (
          same,
          (e.beq_iff _ (e.reduced_pairing point ctx.h1)).1 moved,
          (e.beq_iff (e.pairing point ctx.h2) (e.pairing point ctx.h2)).1 refl,
        ),
      )
    where
      made : G1 → GT → Beacon G1 GT
      made r t = record { recon = r; beacon = t }

      verdict :
          (first second : Bool)
          → (if not first then false else second) ≡ true
          → (first ≡ true) × (second ≡ true)
      verdict true second v = (refl, v)
      verdict false second v = cc
