-- ===== src/Pvss/Aggregate/Accepted.antt =====
-- `aggregate` of include/pvss/pvss.hpp returns on honest sharings, and `verify_aggregation` accepts
-- what it returns.
use random_beacon.Prelude.{
  ℕ, ◌+◌, ◌-◌, ◌≤◌, ◌<◌, ◌≡◌, refl, sym, ap, ap₂, ◌∙◌, List, [], ◌∷◌, map, true, some, ok, arith,
  length, length-map, at, tabulate, replicate, length-tabulate, for_range-at, ==_iff, le→ltb, ◌>>=◌,
  check_all-true, for_range, fold_list,
}
use random_beacon.Random.{Supply, after}
use random_beacon.Stream.{Codec}
use random_beacon.Algebra.Field.{Field}
use random_beacon.Algebra.Group.{Group, Scalars, Pairing, ◌•◌}
use random_beacon.Poly.Defs.{lagrange_interpolation}
use random_beacon.Poly.Check.{ensure_degree}
use random_beacon.Poly.Spec.{eval, constant, sum_poly}
use random_beacon.Poly.Loops.{at-ok, at-tabulate}
use random_beacon.Poly.Accepts.{share_point}
use random_beacon.Dleq.{Hasher}
use random_beacon.Pvss.Defs.{Context, Sharing, Aggregate}
use random_beacon.Pvss.Deal.Dealt.{IsWellFormed, key}
use random_beacon.Pvss.Deal.Accepted.{coding-accepts, coding-recovers}
use random_beacon.Pvss.Aggregate.{
  aggregate_step, aggregate, sum_decomposition, sizes_match, check_pairings, verify_aggregation,
}
use random_beacon.Pvss.Aggregate.Sums.{
  AllDealt, loop_state, replicate-zero, aggregate_loop-dealt, sum_decomposition-dealt,
  length-sum_poly,
}

module _ {F G1 G2 : Type 0} ⦃f : Field F⦄ ⦃a : Group G1⦄ ⦃b : Group G2⦄ ⦃sa : Scalars F G1⦄
    ⦃sb : Scalars F G2⦄ ⦃ca : Codec G1⦄ ⦃cb : Codec G2⦄ ⦃h : Hasher F⦄ where
  -- The aggregate holds the values of the polynomial p, and its decomposition adds up to p's
  -- secret.
  pub record IsAggregate (ctx : Context F G1 G2) (p : List F) (agg : Aggregate F G1 G2)
      : Type 0 where
    pub degree : length p ≤ ctx.config.num_faults + 1
    pub encryptions_eq :
        agg.encryptions ≡ tabulate ctx.config.num_replicas (λ i. eval p (share_point i) • key ctx i)
    pub commitments_eq :
        agg.commitments ≡ tabulate ctx.config.num_replicas (λ i. eval p (share_point i) • ctx.h1)
    pub decomposition_eq :
        sum_decomposition ctx.h1 agg.decomposition b.zero ≡ some (constant p • ctx.h1)
    pub decomposition_length : length agg.decomposition ≡ length agg.id_vec

  -- The outer loop of `aggregate`, from its empty sums.
  aggregate_run :
      (ctx : Context F G1 G2) (ps : List (List F)) (pvec : List (Sharing F G1 G2))
      → AllDealt ctx ps pvec
      → for_range
          (length pvec)
          (λ i state. at pvec i >>= λ s. aggregate_step ctx.config.num_replicas s state)
          ((replicate ctx.config.num_replicas a.zero, replicate ctx.config.num_replicas b.zero), [])
        ≡ ok (loop_state ctx (sum_poly [] ps) (map (λ s. s.decomp_pi) pvec))
  unfolding eval
  aggregate_run ctx ps pvec dealt =
      let n = ctx.config.num_replicas in
      for_range-at pvec (aggregate_step n) _
      ∙ ap₂ (λ es cs. fold_list (aggregate_step n) pvec ((es, cs), []))
          (replicate-zero n _ (λ i. sa.zero-smul (key ctx i)))
          (replicate-zero n _ (λ i. sb.zero-smul ctx.h1))
      ∙ aggregate_loop-dealt ctx [] ps pvec [] dealt

  decomposition_run :
      (ctx : Context F G1 G2) (ps : List (List F)) (pvec : List (Sharing F G1 G2))
      → AllDealt ctx ps pvec
      → sum_decomposition ctx.h1 (map (λ s. s.decomp_pi) pvec) b.zero
        ≡ some (constant (sum_poly [] ps) • ctx.h1)
  unfolding constant
  decomposition_run ctx ps pvec dealt =
      ap (sum_decomposition ctx.h1 (map (λ s. s.decomp_pi) pvec)) (sym (sb.zero-smul ctx.h1))
      ∙ sum_decomposition-dealt ctx [] ps pvec dealt

  -- `aggregate` returns for honest sharings, one identifier for each, and the result aggregates the
  -- sum of the polynomials that they deal.
  pub aggregate-IsAggregate :
      (ctx : Context F G1 G2) (ps : List (List F)) (pvec : List (Sharing F G1 G2)) (id_vec : List ℕ)
      → AllDealt ctx ps pvec
      → 0 < length pvec
      → length pvec ≡ length id_vec
      → (agg : Aggregate F G1 G2) × (aggregate pvec id_vec ≡ ok agg)
        × (agg.id_vec ≡ id_vec)
        × IsAggregate ctx (sum_poly [] ps) agg
  unfolding aggregate
  aggregate-IsAggregate ctx ps [] id_vec dealt some_sharing same = absurd (omega arith)
  aggregate-IsAggregate ctx [] (s ∷ ss) id_vec dealt some_sharing same = absurd dealt
  aggregate-IsAggregate ctx (p ∷ ps) (s ∷ ss) id_vec dealt some_sharing same =
      let n = ctx.config.num_replicas in
      let pvec = s ∷ ss in
      let total =
        loop_state ctx (sum_poly [] (p ∷ ps)) (map (λ (t : Sharing F G1 G2). t.decomp_pi) pvec) in
      (
        record {
          encryptions = total.0.0;
          commitments = total.0.1;
          decomposition = total.1;
          id_vec = id_vec;
          secret = f.zero;
        },
        rw (
          le→ltb (length id_vec) (length pvec) (omega arith),
          ap length dealt.0.encryptions_eq ∙ length-tabulate n _,
          aggregate_run ctx (p ∷ ps) pvec dealt,
        ),
        refl,
        record {
          degree = length-sum_poly ctx [] (p ∷ ps) pvec dealt (omega arith);
          encryptions_eq = refl;
          commitments_eq = refl;
          decomposition_eq = decomposition_run ctx (p ∷ ps) pvec dealt;
          decomposition_length = length-map pvec (λ (t : Sharing F G1 G2). t.decomp_pi) ∙ same;
        },
      )

module _ {F G1 G2 GT : Type 0} ⦃f : Field F⦄ ⦃a : Group G1⦄ ⦃b : Group G2⦄ ⦃sa : Scalars F G1⦄
    ⦃sb : Scalars F G2⦄ ⦃ca : Codec G1⦄ ⦃cb : Codec G2⦄ ⦃h : Hasher F⦄
    (e : Pairing F G1 G2 GT) where
  module _ {ctx : Context F G1 G2} {p : List F} {agg : Aggregate F G1 G2}
      (sums : IsAggregate ctx p agg) where
    pub sizes_match-aggregate :
        ctx.config.num_faults ≤ length agg.id_vec → sizes_match ctx agg ≡ true
    unfolding sizes_match
    sizes_match-aggregate enough =
        let n = ctx.config.num_replicas in
        rw (
          (==_iff (length agg.encryptions) n).1
              (ap length sums.encryptions_eq ∙ length-tabulate n _),
          (==_iff (length agg.commitments) n).1
              (ap length sums.commitments_eq ∙ length-tabulate n _),
          (==_iff (length agg.decomposition) (length agg.id_vec)).1 sums.decomposition_length,
          le→ltb (length agg.id_vec) ctx.config.num_faults enough,
        )

    check_pairings-aggregate :
        length ctx.pk_map ≡ ctx.config.num_replicas → check_pairings e ctx agg ≡ ok true
    unfolding check_pairings
    check_pairings-aggregate keys =
        let n = ctx.config.num_replicas in
        check_all-true n _ λ i q. rw (
          at-ok ctx.pk_map i a.zero (omega arith),
          sums.encryptions_eq,
          sums.commitments_eq,
          at-tabulate n (λ k. eval p (share_point k) • key ctx k) i q,
          at-tabulate n (λ k. eval p (share_point k) • ctx.h1) i q,
          (e.beq_iff (e.reduced_pairing (key ctx i) (eval p (share_point i) • ctx.h1))
                (e.reduced_pairing (eval p (share_point i) • key ctx i) ctx.h1)).1
              (sym (e.reduced_pairing-smul (eval p (share_point i)) (key ctx i) ctx.h1)),
        )

    degree_accepted :
        (supply : Supply F)
        → IsWellFormed ctx
        → ensure_degree F agg.commitments ctx.config.num_faults supply
          ≡ ok (true, after (ctx.config.num_replicas - ctx.config.num_faults - 2 + 1) supply)
    degree_accepted supply well =
        ap (λ c. ensure_degree F c ctx.config.num_faults supply) sums.commitments_eq
        ∙ coding-accepts ctx.config.num_replicas ctx.config.num_faults p ctx.h1 supply well.faults
            well.order well.room (omega (arith, sums.degree))

    secret_recovered :
        IsWellFormed ctx
        → lagrange_interpolation F ctx.config.num_faults agg.commitments ≡ ok (constant p • ctx.h1)
    secret_recovered well =
        ap (lagrange_interpolation F ctx.config.num_faults) sums.commitments_eq
        ∙ coding-recovers ctx.config.num_replicas ctx.config.num_faults p ctx.h1 well.faults
            well.order well.room (omega (arith, sums.degree))

  -- `verify_aggregation` accepts an aggregate of a polynomial of the degree, whatever it draws,
  -- when at least as many sharings went into it as there are faults.
  pub verify_aggregation-accepts :
      (ctx : Context F G1 G2) (p : List F) (agg : Aggregate F G1 G2) (supply : Supply F)
      → IsWellFormed ctx
      → IsAggregate ctx p agg
      → ctx.config.num_faults ≤ length agg.id_vec
      → (rest : Supply F) × (verify_aggregation e ctx agg supply ≡ ok (true, rest))
  unfolding verify_aggregation
  verify_aggregation-accepts ctx p agg supply well sums enough = (
    after (ctx.config.num_replicas - ctx.config.num_faults - 2 + 1) supply,
    rw (
      sizes_match-aggregate sums enough,
      degree_accepted sums supply well,
      check_pairings-aggregate sums well.keys,
      secret_recovered sums well,
      sums.decomposition_eq,
      (b.beq_iff (constant p • ctx.h1) (constant p • ctx.h1)).1 refl,
    ),
  )

  -- In a well-formed context, the aggregate of honest sharings, at least one of them and at least
  -- as many as faults, with one identifier for each, is returned by `aggregate` and accepted by
  -- `verify_aggregation`.
  pub aggregate-verify_aggregation :
      (ctx : Context F G1 G2) (ps : List (List F)) (pvec : List (Sharing F G1 G2)) (id_vec : List ℕ)
      (supply : Supply F)
      → IsWellFormed ctx
      → AllDealt ctx ps pvec
      → 0 < length pvec
      → length pvec ≡ length id_vec
      → ctx.config.num_faults ≤ length pvec
      → (agg : Aggregate F G1 G2) × (rest : Supply F) × (aggregate pvec id_vec ≡ ok agg)
        × (verify_aggregation e ctx agg supply ≡ ok (true, rest))
  aggregate-verify_aggregation ctx ps pvec id_vec supply well dealt some_sharing same enough =
      let (agg, returned, ids, sums) =
        aggregate-IsAggregate ctx ps pvec id_vec dealt some_sharing same in
      let (rest, verified) =
        verify_aggregation-accepts ctx (sum_poly [] ps) agg supply well sums
          (omega (arith, ap length ids)) in
      (agg, rest, returned, verified)
