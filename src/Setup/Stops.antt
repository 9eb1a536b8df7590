-- ===== src/Setup/Stops.antt =====
-- The arguments for which `main` of src/pvss_setup.cpp stops.
use random_beacon.Prelude.{
  ℕ, zero, suc, ◌+◌, ◌%◌, ◌^◌, ◌≤◌, ◌<◌, ◌≡◌, refl, sym, ap, ◌∙◌, List, [], if◌then◌else◌, ◌==◌,
  err, n_must_be_positive, length_error, map, arith, length, length-map, length-tabulate, tabulate,
}
use random_beacon.Random.{Supply, after, draws, draws-each}
use random_beacon.Stream.{Codec}
use random_beacon.Config.{SyncSystemConfig, from_num_replicas}
use random_beacon.Algebra.Field.{Field}
use random_beacon.Algebra.Group.{Group, Scalars, Pairing}
use random_beacon.Dleq.{Hasher}
use random_beacon.Poly.Loops.{at-tabulate}
use random_beacon.Poly.Spec.{sum_poly}
use random_beacon.Poly.Accepts.{ensure_degree-throws}
use random_beacon.Pvss.Defs.{Context, Sharing, Aggregate}
use random_beacon.Pvss.Aggregate.{verify_aggregation}
use random_beacon.Pvss.Aggregate.Accepted.{
  IsAggregate, aggregate-IsAggregate, sizes_match-aggregate,
}
use random_beacon.Pvss.Factory.Keys.{setup_of, get_context_lem}
use random_beacon.Pvss.Streams.{put_context}
use random_beacon.Setup.{deal_from, buffer_aggregate, buffer_aggregates, pvss_setup}
use random_beacon.Setup.Verified.{
  context, IsShared, deal_from-IsShared, all_dealt, collect-map, int_add-ok, rounds,
}

module _ {F G1 G2 GT : Type 0} ⦃f : Field F⦄ ⦃a : Group G1⦄ ⦃b : Group G2⦄ ⦃sa : Scalars F G1⦄
    ⦃sb : Scalars F G2⦄ (e : Pairing F G1 G2 GT) ⦃ca : Codec G1⦄ ⦃cb : Codec G2⦄
    ⦃h : Hasher F⦄ where
  verify_aggregation-throws :
      (ctx : Context F G1 G2) (p : List F) (agg : Aggregate F G1 G2) (supply : Supply F)
      → IsAggregate ctx p agg
      → ctx.config.num_faults ≤ length agg.id_vec
      → ctx.config.num_faults ≤ ctx.config.num_replicas
      → ctx.config.num_replicas < ctx.config.num_faults + 2
      → verify_aggregation e ctx agg supply ≡ err length_error
  unfolding verify_aggregation
  verify_aggregation-throws ctx p agg supply sums enough inside few =
      let count : length agg.commitments ≡ ctx.config.num_replicas =
        ap length sums.commitments_eq ∙ length-tabulate ctx.config.num_replicas _ in
      rw
        (
          sizes_match-aggregate e sums enough,
          ensure_degree-throws agg.commitments ctx.config.num_faults supply (omega arith)
              (omega arith),
        )
        refl

  module _ (config : SyncSystemConfig) (g1 g2 : G1) (h1 h2 : G2) (keys : Supply F) where
    buffer_aggregate-throws :
        (i : ℕ) (supply : Supply F)
        → i + config.num_faults + 1 < 2 ^ 31
        → 0 < config.num_replicas
        → config.num_faults < f.max_size
        → config.num_faults ≤ config.num_replicas
        → config.num_replicas < config.num_faults + 2
        → buffer_aggregate e
            (tabulate config.num_replicas (context e config g1 g2 h1 h2 keys))
            config.num_replicas
            config.num_faults
            i
            supply
          ≡ err length_error
    unfolding buffer_aggregate
    buffer_aggregate-throws i supply small some_replica room inside few =
        let n = config.num_replicas in
        let contexts = context e config g1 g2 h1 h2 keys in
        let (dealt, s1, drawn, count, each) =
          draws-each (config.num_faults + 1) (λ j. deal_from e (tabulate n contexts) n (i + j))
            (λ j x. IsShared e config g1 g2 h1 h2 keys x.0)
            (λ j less s. deal_from-IsShared e config g1 g2 h1 h2 keys (i + j) s some_replica room)
            supply in
        let pvec = map (λ (x : Sharing F G1 G2 × ℕ). x.0) dealt in
        let ids = map (λ (x : Sharing F G1 G2 × ℕ). x.1) dealt in
        let sizes : length pvec ≡ config.num_faults + 1 = length-map dealt _ ∙ count in
        let same : length pvec ≡ length ids = length-map dealt _ ∙ sym (length-map dealt _) in
        let (ps, deals) =
          all_dealt e config g1 g2 h1 h2 keys dealt (i % n) (λ j less. each j (omega arith)) in
        let (agg, returned, own, sums) =
          aggregate-IsAggregate (contexts (i % n)) ps pvec ids deals (omega arith) same in
        let stops =
          verify_aggregation-throws (contexts (i % n)) (sum_poly [] ps) agg s1 sums
            (omega (arith, ap length own)) inside few in
        rw
          (
            int_add-ok i config.num_faults (omega arith),
            int_add-ok (i + config.num_faults) 1 small,
            rounds i config.num_faults,
            drawn,
            at-tabulate n contexts (i % n) (omega arith),
            returned,
            stops,
          )
          refl

module _ {F G1 G2 GT : Type 0} ⦃f : Field F⦄ ⦃a : Group G1⦄ ⦃b : Group G2⦄ ⦃sa : Scalars F G1⦄
    ⦃sb : Scalars F G2⦄ (e : Pairing F G1 G2 GT) ⦃ca : Codec G1⦄ ⦃cb : Codec G2⦄ ⦃h : Hasher F⦄
    ⦃cf : Codec F⦄ ⦃cn : Codec ℕ⦄ where
  -- For n below 2 the setup program stops, whatever it draws, if a vector can hold an element: for
  -- 0 with its own message, and for 1, the default, with the exception of a vector that is asked to
  -- grow too large.
  pub pvss_setup-stops :
      (n : ℕ) (g1 g2 : G1) (h1 h2 : G2) (supply : Supply F)
      → n < 2
      → 0 < f.max_size
      → pvss_setup e n g1 g2 h1 h2 supply
        ≡ err (if n == 0 then n_must_be_positive else length_error)
  unfolding pvss_setup buffer_aggregates from_num_replicas draws
  pvss_setup-stops zero g1 g2 h1 h2 supply few room = refl
  pvss_setup-stops (suc zero) g1 g2 h1 h2 supply few room =
      let config = from_num_replicas 1 in
      let contexts = setup_of config g1 g2 h1 h2 supply in
      rw (
        get_context_lem config g1 g2 h1 h2 supply,
        collect-map 1 contexts (λ c. put_context c []),
        buffer_aggregate-throws e config g1 g2 h1 h2 supply 0 (after 1 supply) (omega arith)
            (omega arith) room (omega arith) (omega arith),
      )
  pvss_setup-stops (suc (suc n)) g1 g2 h1 h2 supply few room = absurd (omega arith)
