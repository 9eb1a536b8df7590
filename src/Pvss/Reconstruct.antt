-- ===== src/Pvss/Reconstruct.antt =====
-- include/pvss/pvss.hpp: `decrypt`, `verify_decryption`, `reconstruct` and `verify_beacon`.
pub mod Decrypt
pub mod Unique
pub mod Agreed
use random_beacon.Prelude.{
  ℕ, ◌+◌, List, [], ◌∷◌, Bool, true, false, not, Result, ok, assertion, require, ◌>>=◌, ◌>>◌,
  if◌then◌else◌, ltb, length, at, map,
}
use random_beacon.Random
use random_beacon.Random.{Rand}
use random_beacon.Stream.{Codec}
use random_beacon.Config.{SyncSystemConfig}
use random_beacon.Algebra.Field.{Field}
use random_beacon.Algebra.Group.{Group, Scalars, Pairing, ◌⊞◌}
use random_beacon.Poly.Defs.{lagrange_interpolation_at}
use random_beacon.Dleq.{Hasher}
use random_beacon.Pvss.Defs.{
  Context, Aggregate, Decryption, DecompositionProof, Beacon, generate_decryption,
  verify_decryption_proof,
}

module _ {F G1 G2 : Type 0} ⦃f : Field F⦄ ⦃a : Group G1⦄ ⦃sa : Scalars F G1⦄ ⦃ca : Codec G1⦄
    ⦃h : Hasher F⦄ where
  unfoldable pub decrypt : Context F G1 G2 → Aggregate F G1 G2 → Rand F (Decryption F G1)
  decrypt ctx agg =
      Random.◌>>=◌ (Random.lift (at agg.encryptions ctx.my_id))
        λ enc. generate_decryption enc ctx.secret_key ctx.my_id

  unfoldable pub verify_decryption : Aggregate F G1 G2 → Decryption F G1 → Result Bool
  unfolding verify_decryption_proof
  verify_decryption agg dec = do
    enc ← at agg.encryptions dec.origin
    ok (verify_decryption_proof dec enc)

module _ {F G1 G2 GT : Type 0} ⦃f : Field F⦄ ⦃a : Group G1⦄ ⦃b : Group G2⦄ ⦃sa : Scalars F G1⦄
    ⦃sb : Scalars F G2⦄ (e : Pairing F G1 G2 GT) where
  -- The scalar of an origin is that of a `long`: origins are below 2^63 - 1.
  unfoldable pub reconstruct : Context F G1 G2 → List (Decryption F G1) → Result (Beacon G1 GT)
  reconstruct ctx recon = do
    require (ltb ctx.config.num_faults (length recon)) assertion
    let points = map (λ (dec : Decryption F G1). f.of_long (dec.origin + 1)) recon
    let evals = map (λ (dec : Decryption F G1). dec.dec) recon
    point ← lagrange_interpolation_at ctx.config.num_faults evals points
    let beacon = e.pairing point ctx.h2
    ok (record { recon = point; beacon = beacon })

  -- The loop of `verify_beacon`.
  unfoldable pub sum_gs : List (DecompositionProof F G2) → G2 → G2
  sum_gs [] gs = gs
  sum_gs (d ∷ rest) gs = sum_gs rest (gs ⊞ d.gs)

  unfoldable pub verify_beacon : Context F G1 G2 → Aggregate F G1 G2 → Beacon G1 GT → Bool
  unfolding sum_gs
  verify_beacon ctx agg beacon =
      let gs = sum_gs agg.decomposition b.zero in
      let lhs = e.reduced_pairing ctx.g1 gs in
      if not (e.beq lhs (e.reduced_pairing beacon.recon ctx.h1))
      then false
      else e.beq (e.pairing beacon.recon ctx.h2) beacon.beacon
