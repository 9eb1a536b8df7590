-- ===== src/Pvss/Aggregate.antt =====
-- include/pvss/pvss.hpp: `Context::aggregate` and `Context::verify_aggregation`.
pub mod Sums
pub mod Accepted
pub mod Sound
use random_beacon.Prelude.{
  ℕ, List, [], ◌∷◌, ◌++◌, Bool, true, false, not, ◌||◌, Option, none, some, Result, ok, assertion,
  require, ◌>>=◌, ◌>>◌, if◌then◌else◌, ◌==◌, ltb, length, at, set, replicate, for_range, check_all,
}
use random_beacon.Random
use random_beacon.Random.{Rand}
use random_beacon.Stream.{Codec}
use random_beacon.Config.{SyncSystemConfig}
use random_beacon.Algebra.Field.{Field}
use random_beacon.Algebra.Group.{Group, Scalars, Pairing, ◌⊞◌}
use random_beacon.Poly.Defs.{lagrange_interpolation}
use random_beacon.Poly.Check.{ensure_degree}
use random_beacon.Dleq.{Hasher, verify}
use random_beacon.Pvss.Defs.{Context, Sharing, Aggregate, DecompositionProof}

-- What the loops of `aggregate` carry: `encs` and `comms`, and beside them `decomp_proofs`.
abbrev pub Sums : Type 0 → Type 0 → Type 0
Sums G1 G2 = List G1 × List G2

module _ {G1 G2 : Type 0} ⦃a : Group G1⦄ ⦃b : Group G2⦄ where
  -- The inner loop over `j`, which adds one sharing to the sums, and its body.
  unfoldable pub add_at : List G1 → List G2 → ℕ → Sums G1 G2 → Result (Sums G1 G2)
  add_at encryptions commitments j sums = do
    e ← at sums.0 j
    e' ← at encryptions j
    c ← at sums.1 j
    c' ← at commitments j
    ok (set sums.0 j (e ⊞ e'), set sums.1 j (c ⊞ c'))

module _ {F G1 G2 : Type 0} ⦃f : Field F⦄ ⦃a : Group G1⦄ ⦃b : Group G2⦄ where
  unfoldable pub add_sharing : ℕ → Sharing F G1 G2 → Sums G1 G2 → Result (Sums G1 G2)
  unfolding add_at
  add_sharing n pvss = for_range n (add_at pvss.encryptions pvss.commitments)

  -- The body of the outer loop: the basic checks, the sums and the proof of decomposition.
  unfoldable pub aggregate_step :
      ℕ
      → Sharing F G1 G2
      → Sums G1 G2 × List (DecompositionProof F G2)
      → Result (Sums G1 G2 × List (DecompositionProof F G2))
  aggregate_step n pvss state = do
    require (length pvss.commitments == n) assertion
    require (length pvss.encryptions == n) assertion
    require (length pvss.dleq_proofs == n) assertion
    sums ← add_sharing n pvss state.0
    ok (sums, state.1 ++ pvss.decomp_pi ∷ [])

  abbrev is_empty : List (Sharing F G1 G2) → Bool
  is_empty [] = true
  is_empty (s ∷ rest) = false

  -- The constructor of `pvss_aggregate_t` leaves `secret` as `Fr` is made by default, which is 0.
  unfoldable pub aggregate : List (Sharing F G1 G2) → List ℕ → Result (Aggregate F G1 G2)
  aggregate pvec id_vec = do
    require (not (is_empty pvec)) assertion
    require (not (ltb (length id_vec) (length pvec))) assertion
    first ← at pvec 0
    let n = length first.encryptions
    state ←
        for_range (length pvec) (λ i state. at pvec i >>= λ pvss. aggregate_step n pvss state)
          ((replicate n a.zero, replicate n b.zero), [])
    ok (record {
      encryptions = state.0.0;
      commitments = state.0.1;
      decomposition = state.1;
      id_vec = id_vec;
      secret = f.zero;
    })

-- The last line of `verify_aggregation`, which a failed proof does not reach.
abbrev pub equals : {G2 : Type 0} ⦃b : Group G2⦄ → Option G2 → G2 → Bool
equals none point = false
equals ⦃b⦄ (some gs_prod) point = b.beq gs_prod point

module _ {F G2 : Type 0} ⦃f : Field F⦄ ⦃b : Group G2⦄ ⦃sb : Scalars F G2⦄ ⦃cb : Codec G2⦄
    ⦃h : Hasher F⦄ where
  -- The loop over the decomposition: `none` where a proof fails, else the sum of the commitments to
  -- the secrets.
  unfoldable pub sum_decomposition : G2 → List (DecompositionProof F G2) → G2 → Option G2
  sum_decomposition generator [] gs_prod = some gs_prod
  sum_decomposition generator (d ∷ rest) gs_prod =
      let others = sum_decomposition generator rest (gs_prod ⊞ d.gs) in
      if not (verify d.pi generator d.gs) then none else others

module _ {F G1 G2 : Type 0} where
  -- The length tests of `verify_aggregation`.
  unfoldable pub sizes_match : Context F G1 G2 → Aggregate F G1 G2 → Bool
  sizes_match ctx agg = not (
      not (length agg.encryptions == ctx.config.num_replicas)
      || not (length agg.commitments == ctx.config.num_replicas)
      || not (length agg.decomposition == length agg.id_vec)
      || ltb (length agg.id_vec) ctx.config.num_faults)

module _ {F G1 G2 GT : Type 0} ⦃f : Field F⦄ ⦃a : Group G1⦄ ⦃b : Group G2⦄ ⦃sa : Scalars F G1⦄
    ⦃sb : Scalars F G2⦄ (pairing : Pairing F G1 G2 GT) where
  open pairing use {reduced_pairing, beq as same}

  -- The pairing check: e(pk, com) = e(enc, h1) for every replica.
  unfoldable pub check_pairings : Context F G1 G2 → Aggregate F G1 G2 → Result Bool
  check_pairings ctx agg = check_all ctx.config.num_replicas (λ i. do
    pk ← at ctx.pk_map i
    comm ← at agg.commitments i
    enc ← at agg.encryptions i
    ok (same (reduced_pairing pk comm) (reduced_pairing enc ctx.h1)))

  module _ ⦃cb : Codec G2⦄ ⦃h : Hasher F⦄ where
    unfoldable pub verify_aggregation : Context F G1 G2 → Aggregate F G1 G2 → Rand F Bool
    verify_aggregation ctx agg =
        let decomposition_part : Rand F Bool =
          Random.◌>>=◌
            (Random.lift (lagrange_interpolation F ctx.config.num_faults agg.commitments))
            λ point.
              Random.pure (equals (sum_decomposition ctx.h1 agg.decomposition b.zero) point) in
        let pairing_part : Rand F Bool =
          Random.◌>>=◌ (Random.lift (check_pairings ctx agg))
            λ pairs_fit. if not pairs_fit then Random.pure false else decomposition_part in
        let degree_part : Rand F Bool =
          Random.◌>>=◌ (ensure_degree F agg.commitments ctx.config.num_faults)
            λ degree_fits. if not degree_fits then Random.pure false else pairing_part in
        if not (sizes_match ctx agg) then Random.pure false else degree_part
