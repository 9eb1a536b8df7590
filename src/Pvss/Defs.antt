-- ===== src/Pvss/Defs.antt =====
-- The data of include/pvss/: DecompProof.hpp, Decryption.hpp, PVSS_Sharing.hpp, Aggregation.hpp,
-- Beacon.hpp and the class `Context` of pvss.hpp, with the proofs that the first two make and
-- check. `PK_Group` is G1 and `Com_Group` is G2; the build is one with assertions (no NDEBUG).
use random_beacon.Prelude.{ℕ, List, Bool}
use random_beacon.Random.{Rand, ◌>>=◌, pure, lift}
use random_beacon.Stream.{Codec}
use random_beacon.Config.{SyncSystemConfig}
use random_beacon.Algebra.Field.{Field}
use random_beacon.Algebra.Group.{Group, Scalars, ◌•◌}
use random_beacon.Poly.Defs.{Polynomial, get_secret}
use random_beacon.Dleq.{Hasher, Dleq, DleqDual, prove, verify}

pub record DecompositionProof (F G2 : Type 0) : Type 0 where
  pub pi : Dleq G2 F
  pub gs : G2

-- `decryption_t`; `origin` is an index in `pk_map`.
pub record Decryption (F G1 : Type 0) : Type 0 where
  pub dec : G1
  pub pi : Dleq G1 F
  pub origin : ℕ

-- `pvss_sharing_t`
pub record Sharing (F G1 G2 : Type 0) : Type 0 where
  pub encryptions : List G1
  pub commitments : List G2
  pub dleq_proofs : List (DleqDual G1 G2 F)
  pub decomp_pi : DecompositionProof F G2
  pub secret : F

-- `pvss_aggregate_t`
pub record Aggregate (F G1 G2 : Type 0) : Type 0 where
  pub encryptions : List G1
  pub commitments : List G2
  pub decomposition : List (DecompositionProof F G2)
  pub id_vec : List ℕ
  pub secret : F

-- `beacon_t`
pub record Beacon (G1 GT : Type 0) : Type 0 where
  pub recon : G1
  pub beacon : GT

-- `my_id` is the index of this replica in `pk_map`. The macro `PK_generator` is `g1`, and
-- `Com_generator` is `h1`.
pub record Context (F G1 G2 : Type 0) : Type 0 where
  pub pk_map : List G1
  pub config : SyncSystemConfig
  pub g1 : G1
  pub g2 : G1
  pub h1 : G2
  pub h2 : G2
  pub secret_key : F
  pub my_id : ℕ

module _ {F G : Type 0} ⦃f : Field F⦄ ⦃g : Group G⦄ ⦃s : Scalars F G⦄ ⦃c : Codec G⦄
    ⦃h : Hasher F⦄ where
  -- `DecompositionProof::generate`
  unfoldable pub generate_decomposition : G → Polynomial F → Rand F (DecompositionProof F G)
  generate_decomposition generator poly = do
    secret ← lift (get_secret poly)
    let gs = secret • generator
    pi ← prove generator gs secret
    pure (record { pi = pi; gs = gs })

  -- `decryption_t::generate`
  unfoldable pub generate_decryption : G → F → ℕ → Rand F (Decryption F G)
  generate_decryption enc sk my_id = do
    let dec = f.inverse sk • enc
    pi ← prove dec enc sk
    pure (record { dec = dec; pi = pi; origin = my_id })

  -- `decryption_t::verify`
  unfoldable pub verify_decryption_proof : Decryption F G → G → Bool
  verify_decryption_proof self enc = verify self.pi self.dec enc
