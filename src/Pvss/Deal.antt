-- ===== src/Pvss/Deal.antt =====
-- include/pvss/pvss.hpp: `Context::create_sharing` and `Context::verify_sharing`.
pub mod Dealt
pub mod Accepted
pub mod Hidden
pub mod Passed
pub mod Sound
use random_beacon.Prelude.{
  ℕ, ◌+◌, List, Bool, true, false, not, ◌||◌, Result, ok, if◌then◌else◌, ◌==◌, length, at, collect,
  check_all,
}
use random_beacon.Prelude
use random_beacon.Random.{Rand, ◌>>=◌, pure, lift, draws}
use random_beacon.Stream.{Codec}
use random_beacon.Config.{SyncSystemConfig}
use random_beacon.Algebra.Field.{Field}
use random_beacon.Algebra.Group.{Group, Scalars, ◌•◌}
use random_beacon.Poly.Defs.{Polynomial, evaluate, lagrange_interpolation}
use random_beacon.Poly.Check.{random_polynomial, ensure_degree}
use random_beacon.Dleq.{Hasher, DleqDual, prove_dual, verify_dual, verify}
use random_beacon.Pvss.Defs.{Context, Sharing, DecompositionProof, generate_decomposition}

module _ {F G1 G2 : Type 0} ⦃f : Field F⦄ ⦃a : Group G1⦄ ⦃b : Group G2⦄ ⦃sa : Scalars F G1⦄
    ⦃sb : Scalars F G2⦄ ⦃ca : Codec G1⦄ ⦃cb : Codec G2⦄ ⦃h : Hasher F⦄ where
  -- Steps 2, 3 and 4 of `create_sharing`: the evaluations, the commitments and the encryptions.
  unfoldable pub evaluations : Context F G1 G2 → Polynomial F → Result (List F)
  evaluations ctx poly = collect ctx.config.num_replicas (λ i. evaluate poly (f.of_long (i + 1)))

  unfoldable pub commit : Context F G1 G2 → List F → Result (List G2)
  commit ctx evals =
      collect ctx.config.num_replicas (λ i. Prelude.◌>>=◌ (at evals i) λ e. ok (e • ctx.h1))

  unfoldable pub encrypt : Context F G1 G2 → List F → Result (List G1)
  encrypt ctx evals =
      collect ctx.config.num_replicas
        (λ i. Prelude.◌>>=◌ (at evals i) λ e. Prelude.◌>>=◌ (at ctx.pk_map i) λ pk. ok (e • pk))

  -- Step 5: the proofs of equality.
  unfoldable pub prove_shares :
      Context F G1 G2 → List F → List G2 → List G1 → Rand F (List (DleqDual G1 G2 F))
  prove_shares ctx evals comms encs = draws ctx.config.num_replicas (λ i. do
    pk ← lift (at ctx.pk_map i)
    enc ← lift (at encs i)
    comm ← lift (at comms i)
    e ← lift (at evals i)
    prove_dual pk enc ctx.h1 comm e)

  unfoldable pub create_sharing : Context F G1 G2 → Rand F (Sharing F G1 G2)
  unfolding evaluations commit encrypt prove_shares generate_decomposition
  create_sharing ctx = do
    poly ← random_polynomial ctx.config.num_faults
    evals ← lift (evaluations ctx poly)
    comms ← lift (commit ctx evals)
    encs ← lift (encrypt ctx evals)
    proofs ← prove_shares ctx evals comms encs
    decomp_proof ← generate_decomposition ctx.h1 poly
    secret ← lift (at poly.coeffs 0)
    pure (record {
      encryptions = encs;
      commitments = comms;
      dleq_proofs = proofs;
      decomp_pi = decomp_proof;
      secret = secret;
    })

  -- The loop of `verify_sharing` over the proofs of equality.
  unfoldable pub check_proofs : Context F G1 G2 → Sharing F G1 G2 → Result Bool
  check_proofs ctx pvss = check_all ctx.config.num_replicas (λ i.
      Prelude.◌>>=◌ (at pvss.dleq_proofs i) λ proof. Prelude.◌>>=◌ (at ctx.pk_map i) λ pk.
        Prelude.◌>>=◌ (at pvss.encryptions i) λ enc.
          Prelude.◌>>=◌ (at pvss.commitments i) λ comm. ok (verify_dual proof pk enc ctx.h1 comm))

  -- The rest of `verify_sharing`: the proof of the secret.
  unfoldable pub check_secret : Context F G1 G2 → Sharing F G1 G2 → G2 → Bool
  check_secret ctx pvss point =
      if not (b.beq point pvss.decomp_pi.gs) then false else verify pvss.decomp_pi.pi ctx.h1 point

  -- The three length tests.
  unfoldable pub lengths_match : Context F G1 G2 → Sharing F G1 G2 → Bool
  lengths_match ctx pvss = not (
      not (length pvss.encryptions == ctx.config.num_replicas)
      || not (length pvss.commitments == ctx.config.num_replicas)
      || not (length pvss.dleq_proofs == ctx.config.num_replicas))

  unfoldable pub verify_sharing : Context F G1 G2 → Sharing F G1 G2 → Rand F Bool
  verify_sharing ctx pvss =
      let secret_part : Rand F Bool = do
        point ← lift (lagrange_interpolation F ctx.config.num_faults pvss.commitments)
        pure (check_secret ctx pvss point)
      in let proofs_part : Rand F Bool = do
        proofs_fit ← lift (check_proofs ctx pvss)
        if not proofs_fit then pure false else secret_part
        in let degree_part : Rand F Bool = do
          degree_fits ← ensure_degree F pvss.commitments ctx.config.num_faults
          if not degree_fits then pure false else proofs_part
          in if not (lengths_match ctx pvss) then pure false else degree_part
