-- ===== src/Pvss/Streams.antt =====
-- `operator<<` and `operator>>` of include/pvss/: DecompProof.hpp, Decryption.hpp, Beacon.hpp,
-- PVSS_Sharing.hpp, Aggregation.hpp and pvss.hpp, and `Factory::parseContext` of Factory.hpp.
pub mod Proofs
use random_beacon.Prelude.{ℕ, ◌++◌, ◌∷◌}
use random_beacon.Stream.{
  Text, Codec, newline, Writer, put_line, put_vector, write, Reader, ◌>>=◌, ◌>>◌, pure, get,
  get_line, get_vector, consume_newline,
}
use random_beacon.Config.{SyncSystemConfig}
use random_beacon.Dleq.{Dleq}
use random_beacon.Dleq.Streams.{put_dleq, get_dleq, put_dual, get_dual}
use random_beacon.Pvss.Defs.{Context, Sharing, Aggregate, Decryption, DecompositionProof, Beacon}

module _ {F G2 : Type 0} ⦃cf : Codec F⦄ ⦃cb : Codec G2⦄ where
  unfoldable pub put_decomposition : Writer (DecompositionProof F G2)
  put_decomposition self later = put_dleq self.pi (newline ∷ put_line self.gs later)

  unfoldable pub get_decomposition : Reader (DecompositionProof F G2)
  get_decomposition = do
    pi ← get_dleq
    consume_newline
    gs ← get_line
    pure (record { pi = pi; gs = gs })

module _ {F G1 : Type 0} ⦃cf : Codec F⦄ ⦃ca : Codec G1⦄ ⦃cn : Codec ℕ⦄ where
  unfoldable pub put_decryption : Writer (Decryption F G1)
  put_decryption self later =
      put_line self.dec (put_dleq self.pi (newline ∷ put_line self.origin later))

  unfoldable pub get_decryption : Reader (Decryption F G1)
  get_decryption = do
    dec ← get_line
    pi ← get_dleq
    consume_newline
    origin ← get_line
    pure (record { dec = dec; pi = pi; origin = origin })

module _ {G1 GT : Type 0} ⦃ca : Codec G1⦄ ⦃ct : Codec GT⦄ where
  unfoldable pub put_beacon : Writer (Beacon G1 GT)
  put_beacon self later = put_line self.recon (put_line self.beacon later)

  unfoldable pub get_beacon : Reader (Beacon G1 GT)
  get_beacon = do
    recon ← get_line
    beacon ← get_line
    pure (record { recon = recon; beacon = beacon })

module _ {F G1 G2 : Type 0} ⦃cf : Codec F⦄ ⦃ca : Codec G1⦄ ⦃cb : Codec G2⦄ ⦃cn : Codec ℕ⦄ where
  -- `secret` is not written.
  unfoldable pub put_sharing : Writer (Sharing F G1 G2)
  put_sharing self later = put_vector write self.encryptions (
      put_vector write self.commitments
        (put_vector put_dual self.dleq_proofs (put_decomposition self.decomp_pi (newline ∷ later))))

  -- Of what `self` held, the encryptions are cleared and the proof of decomposition is overwritten;
  -- commitments and proofs of equality are appended, and `secret` is kept.
  unfoldable pub get_sharing : Sharing F G1 G2 → Reader (Sharing F G1 G2)
  get_sharing self = do
    encryptions ← get_vector get
    commitments ← get_vector get
    dleq_proofs ← get_vector get_dual
    decomp_pi ← get_decomposition
    consume_newline
    pure (record {
      encryptions = encryptions;
      commitments = self.commitments ++ commitments;
      dleq_proofs = self.dleq_proofs ++ dleq_proofs;
      decomp_pi = decomp_pi;
      secret = self.secret;
    })

  unfoldable pub put_aggregate : Writer (Aggregate F G1 G2)
  put_aggregate self later = put_vector write self.encryptions (
      put_vector write self.commitments (
        put_vector put_decomposition self.decomposition
          (put_vector write self.id_vec (put_line self.secret later))))

  unfoldable pub get_aggregate : Reader (Aggregate F G1 G2)
  get_aggregate = do
    encryptions ← get_vector get
    commitments ← get_vector get
    decomposition ← get_vector get_decomposition
    id_vec ← get_vector get
    secret ← get_line
    pure (record {
      encryptions = encryptions;
      commitments = commitments;
      decomposition = decomposition;
      id_vec = id_vec;
      secret = secret;
    })

  -- `config` is not written.
  unfoldable pub put_context : Writer (Context F G1 G2)
  put_context ctx later = put_vector write ctx.pk_map (
      put_line ctx.g1 (
        put_line ctx.g2
          (put_line ctx.h1 (put_line ctx.h2 (put_line ctx.secret_key (put_line ctx.my_id later))))))

  unfoldable pub parse_context : SyncSystemConfig → Reader (Context F G1 G2)
  parse_context config = do
    pk_map ← get_vector get
    g1 ← get_line
    g2 ← get_line
    h1 ← get_line
    h2 ← get_line
    secret_key ← get_line
    my_id ← get_line
    pure (record {
      pk_map = pk_map;
      config = config;
      g1 = g1;
      g2 = g2;
      h1 = h1;
      h2 = h2;
      secret_key = secret_key;
      my_id = my_id;
    })
