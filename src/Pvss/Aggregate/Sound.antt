-- ===== src/Pvss/Aggregate/Sound.antt =====
-- What `verify_aggregation` of include/pvss/pvss.hpp accepts.
use random_beacon.Prelude.{
  ℕ, suc, ◌+◌, ◌≤◌, ◌<◌, ◌≡◌, ◌≢◌, ◌↔◌, sym, ap, ◌∙◌, List, true, Option, none, some, ok,
  ok_injective, arith, length, get_or, tabulate, check_all-each, eq-tabulate,
}
use random_beacon.Random.{passes_test, Supply, bind-eq-ok, lift-eq-ok}
use random_beacon.Stream.{Codec}
use random_beacon.Algebra.Field.{Field}
use random_beacon.Algebra.Group.{Group, Scalars, Pairing, ◌•◌}
use random_beacon.Poly.Defs.{lagrange_interpolation}
use random_beacon.Poly.Check.{ensure_degree}
use random_beacon.Poly.Spec.{eval, constant}
use random_beacon.Poly.Loops.{at-ok}
use random_beacon.Poly.Recover.{lagrange_interpolation-recovers}
use random_beacon.Poly.Accepts.{share_point}
use random_beacon.Poly.Sound.{ensure_degree_sound}
use random_beacon.Dleq.{Hasher}
use random_beacon.Pvss.Defs.{Context, Aggregate}
use random_beacon.Pvss.Deal.Dealt.{IsWellFormed, key}
use random_beacon.Pvss.Aggregate.{
  sum_decomposition, sizes_match, check_pairings, verify_aggregation, equals,
}
use random_beacon.Pvss.Aggregate.Accepted.{IsAggregate, verify_aggregation-accepts}

equals-some :
    {G2 : Type 0} ⦃b : Group G2⦄ (found : Option G2) (point : G2)
    → equals found point ≡ true
    → found ≡ some point
equals-some none point h = cc
equals-some ⦃b = b⦄ (some x) point h = ap some ((b.beq_iff x point).0 h)

module _ {F G1 G2 : Type 0} where
  -- The sizes of an aggregate that passes the length tests.
  record Sized (ctx : Context F G1 G2) (agg : Aggregate F G1 G2) : Type 0 where
    encryptions_length : length agg.encryptions ≡ ctx.config.num_replicas
    commitments_length : length agg.commitments ≡ ctx.config.num_replicas
    decomposition_length : length agg.decomposition ≡ length agg.id_vec
    enough : ctx.config.num_faults ≤ length agg.id_vec

  sizes_match-Sized :
      (ctx : Context F G1 G2) (agg : Aggregate F G1 G2) → sizes_match ctx agg ≡ true → Sized ctx agg
  unfolding sizes_match
  sizes_match-Sized ctx agg h = record {
    encryptions_length = ground arith;
    commitments_length = ground arith;
    decomposition_length = ground arith;
    enough = ground arith;
  }

module _ {F G1 G2 GT : Type 0} ⦃f : Field F⦄ ⦃a : Group G1⦄ ⦃b : Group G2⦄ ⦃sa : Scalars F G1⦄
    ⦃sb : Scalars F G2⦄ (e : Pairing F G1 G2 GT) ⦃ca : Codec G1⦄ ⦃cb : Codec G2⦄
    ⦃h : Hasher F⦄ where
  -- What an accepted aggregate has passed.
  record Passed (ctx : Context F G1 G2) (agg : Aggregate F G1 G2) (supply : Supply F) : Type 0 where
    sized : Sized ctx agg
    rest : Supply F
    coded : ensure_degree F agg.commitments ctx.config.num_faults supply ≡ ok (true, rest)
    paired : check_pairings e ctx agg ≡ ok true
    point : G2
    interpolates : lagrange_interpolation F ctx.config.num_faults agg.commitments ≡ ok point
    decomposes : equals (sum_decomposition ctx.h1 agg.decomposition b.zero) point ≡ true

  verify_aggregation-Passed :
      (ctx : Context F G1 G2) (agg : Aggregate F G1 G2) (supply : Supply F) {rest : Supply F}
      → verify_aggregation e ctx agg supply ≡ ok (true, rest)
      → Passed ctx agg supply
  unfolding verify_aggregation
  verify_aggregation-Passed ctx agg supply accepted =
      let (sizes, next1) = passes_test (sizes_match ctx agg) _ supply accepted in
      let (fits, rest, coded, next2) =
        bind-eq-ok (ensure_degree F agg.commitments ctx.config.num_faults) _ supply next1 in
      let (good, next3) = passes_test fits _ rest next2 in
      let (pairs, paired, next4) = lift-eq-ok (check_pairings e ctx agg) _ rest next3 in
      let (good', next5) = passes_test pairs _ rest next4 in
      let (point, interpolates, next6) =
        lift-eq-ok (lagrange_interpolation F ctx.config.num_faults agg.commitments) _ rest next5 in
      record {
        sized = sizes_match-Sized ctx agg sizes;
        rest = rest;
        coded = coded ∙ ap (λ t. ok (t, rest)) good;
        paired = paired ∙ ap ok good';
        point = point;
        interpolates = interpolates;
        decomposes = ap (λ r. r.0) (ok_injective next6);
      }

  module _ (ctx : Context F G1 G2) (p : List F) (agg : Aggregate F G1 G2) (supply : Supply F)
      (passed : Passed ctx agg supply) (well : IsWellFormed ctx)
      (short : length p ≤ suc ctx.config.num_faults)
      (committed : (i : ℕ)
        → i < length agg.commitments
        → get_or agg.commitments i b.zero ≡ eval p (f.of_long (i + 1)) • ctx.h1) where
    open passed use {sized}

    -- The pairings tie an encryption to the commitment of the same replica.
    encrypted :
        (i : ℕ)
        → ctx.h1 ≢ b.zero
        → i < ctx.config.num_replicas
        → get_or agg.encryptions i a.zero ≡ eval p (share_point i) • key ctx i
    unfolding check_pairings
    encrypted i ne less =
        let test = check_all-each ctx.config.num_replicas _ passed.paired i less in
        let pk = key ctx i in
        let value = eval p (share_point i) in
        let pk_at = at-ok ctx.pk_map i a.zero (omega (arith, well.keys)) in
        let comm_at =
          at-ok agg.commitments i b.zero (omega (arith, sized.commitments_length))
          ∙ ap ok (committed i (omega (arith, sized.commitments_length))) in
        let enc_at = at-ok agg.encryptions i a.zero (omega (arith, sized.encryptions_length)) in
        let same : ok (
              e.beq (e.reduced_pairing pk (value • ctx.h1))
                (e.reduced_pairing (get_or agg.encryptions i a.zero) ctx.h1))
            ≡ ok true =
          rw (pk_at, comm_at, enc_at) at test in
        e.reduced_pairing_injective _ _ ctx.h1 ne (
          sym ((e.beq_iff _ _).0 (ok_injective same))
          ∙ sym (e.reduced_pairing-smul value pk ctx.h1))

    opened : equals (sum_decomposition ctx.h1 agg.decomposition b.zero) (constant p • ctx.h1) ≡ true
    opened =
        let same : constant p • ctx.h1 ≡ passed.point = ok_injective (
          sym (
            lagrange_interpolation-recovers ctx.config.num_faults agg.commitments p ctx.h1
              (omega (arith, well.faults, well.room, f.max_size_lt))
              (omega (arith, well.faults, well.order))
              (omega (arith, well.faults, sized.commitments_length)) (omega arith)
              (λ j less. committed j (omega (arith, well.faults, sized.commitments_length))))
          ∙ passed.interpolates) in
        ap (equals (sum_decomposition ctx.h1 agg.decomposition b.zero)) same ∙ passed.decomposes

    sound : ctx.h1 ≢ b.zero → IsAggregate ctx p agg
    sound ne = record {
      degree = omega arith;
      encryptions_eq =
          eq-tabulate agg.encryptions ctx.config.num_replicas _ a.zero sized.encryptions_length
            (λ i less. encrypted i ne less);
      commitments_eq =
          eq-tabulate agg.commitments ctx.config.num_replicas _ b.zero sized.commitments_length
            (λ i less. committed i (omega (arith, sized.commitments_length)));
      decomposition_eq = equals-some _ _ opened;
      decomposition_length = sized.decomposition_length;
    }

  -- In a well-formed context whose generator h1 is not zero and generates the second group:
  -- `verify_aggregation` accepts an aggregate whatever it draws exactly when the aggregate lists as
  -- many identifiers as there are faults or more, and holds the values of a polynomial of degree at
  -- most `num_faults` at 1, …, n, as multiples of the keys and of h1, with a decomposition into
  -- accepted proofs that adds up to the polynomial's constant times h1.
  pub verify_aggregation_iff :
      (ctx : Context F G1 G2) (agg : Aggregate F G1 G2)
      → IsWellFormed ctx
      → ctx.h1 ≢ b.zero
      → ((x : G2) → (c : F) × (x ≡ c • ctx.h1))
      → ((supply : Supply F)
          → (rest : Supply F) × (verify_aggregation e ctx agg supply ≡ ok (true, rest)))
        ↔ ((ctx.config.num_faults ≤ length agg.id_vec)
            × (p : List F) × (length p ≤ ctx.config.num_faults + 1)
            × (agg.encryptions
                ≡ tabulate ctx.config.num_replicas
                    (λ i. eval p (f.of_long (i + 1)) • get_or ctx.pk_map i a.zero))
            × (agg.commitments
                ≡ tabulate ctx.config.num_replicas (λ i. eval p (f.of_long (i + 1)) • ctx.h1))
            × (sum_decomposition ctx.h1 agg.decomposition b.zero ≡ some (constant p • ctx.h1))
            × (length agg.decomposition ≡ length agg.id_vec))
  verify_aggregation_iff ctx agg well ne generates = (
    λ accepts.
        let (rest, accepted) = accepts (λ _. f.zero) in
        let passed = verify_aggregation-Passed ctx agg (λ _. f.zero) accepted in
        let as_many = passed.sized.commitments_length in
        let (p, short, committed) =
          ensure_degree_sound agg.commitments ctx.config.num_faults
            (λ i. (generates (get_or agg.commitments i b.zero)).0) ctx.h1
            (omega (arith, as_many, well.faults)) (omega (arith, as_many, well.order))
            (omega (arith, as_many, well.room)) ne
            (λ i less. (generates (get_or agg.commitments i b.zero)).1)
            (λ supply.
              let one = verify_aggregation-Passed ctx agg supply (accepts supply).1 in
              (one.rest, one.coded)) in
        let sums = sound ctx p agg (λ _. f.zero) passed well short committed ne in
        (
          passed.sized.enough, p, sums.degree, sums.encryptions_eq, sums.commitments_eq,
          sums.decomposition_eq, sums.decomposition_length,
        ),
    λ holds supply.
        let (enough, p, degree, encryptions, commitments, decomposition, count) = holds in
        verify_aggregation-accepts e ctx p agg supply well
          (record {
            degree = degree;
            encryptions_eq = encryptions;
            commitments_eq = commitments;
            decomposition_eq = decomposition;
            decomposition_length = count;
          })
          enough,
  )
