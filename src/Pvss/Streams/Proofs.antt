-- ===== src/Pvss/Streams/Proofs.antt =====
-- Every `operator>>` of include/pvss/ reads back what the `operator<<` of the same type wrote.
use random_beacon.Prelude.{ℕ, ◌≡◌, ◌++◌, ◌∷◌, ok}
use random_beacon.Stream.{
  Text, Codec, newline, put_line, put_vector, write, get, get_vector, consume_newline, Reads,
  get_line-put_line, get-write, get_vector-put_vector,
}
use random_beacon.Config.{SyncSystemConfig}
use random_beacon.Dleq.Streams.{put_dleq, put_dual, get_dual, get_dual-put_dual, get_dleq-put_dleq}
use random_beacon.Pvss.Defs.{Context, Sharing, Aggregate, Decryption, DecompositionProof, Beacon}
use random_beacon.Pvss.Streams.{
  put_decomposition, get_decomposition, put_decryption, get_decryption, put_beacon, get_beacon,
  put_sharing, get_sharing, put_aggregate, get_aggregate, put_context, parse_context,
}

-- A list of group elements is read back.
get_points-put_points :
    {A : Type 0} ⦃c : Codec A⦄ ⦃n : Codec ℕ⦄ → Reads (get_vector get) (put_vector (write {A = A}))
get_points-put_points = get_vector-put_vector get write get-write

module _ {F G2 : Type 0} ⦃cf : Codec F⦄ ⦃cb : Codec G2⦄ where
  get_decomposition-put_decomposition :
      (self : DecompositionProof F G2) (later : Text)
      → get_decomposition (put_decomposition self later) ≡ ok (self, later)
  unfolding get_decomposition put_decomposition consume_newline
  get_decomposition-put_decomposition self later = rw (
    get_dleq-put_dleq self.pi (newline ∷ put_line self.gs later),
    get_line-put_line self.gs later,
  )

module _ {F G1 : Type 0} ⦃cf : Codec F⦄ ⦃ca : Codec G1⦄ ⦃cn : Codec ℕ⦄ where
  -- A decryption is read back as it was written.
  pub get_decryption-put_decryption :
      (self : Decryption F G1) (later : Text)
      → get_decryption (put_decryption self later) ≡ ok (self, later)
  unfolding get_decryption put_decryption consume_newline
  get_decryption-put_decryption self later = rw (
    get_line-put_line self.dec (put_dleq self.pi (newline ∷ put_line self.origin later)),
    get_dleq-put_dleq self.pi (newline ∷ put_line self.origin later),
    get_line-put_line self.origin later,
  )

module _ {G1 GT : Type 0} ⦃ca : Codec G1⦄ ⦃ct : Codec GT⦄ where
  -- A beacon is read back as it was written.
  pub get_beacon-put_beacon :
      (self : Beacon G1 GT) (later : Text) → get_beacon (put_beacon self later) ≡ ok (self, later)
  unfolding get_beacon put_beacon
  get_beacon-put_beacon self later = rw (
    get_line-put_line self.recon (put_line self.beacon later),
    get_line-put_line self.beacon later,
  )

module _ {F G1 G2 : Type 0} ⦃cf : Codec F⦄ ⦃ca : Codec G1⦄ ⦃cb : Codec G2⦄ ⦃cn : Codec ℕ⦄ where
  -- What a sharing wrote is read back with the commitments and the proofs appended to those the
  -- target held, and with the target's `secret`.
  pub get_sharing-put_sharing :
      (old self : Sharing F G1 G2) (later : Text)
      → get_sharing old (put_sharing self later)
        ≡ ok (
          record {
            encryptions = self.encryptions;
            commitments = old.commitments ++ self.commitments;
            dleq_proofs = old.dleq_proofs ++ self.dleq_proofs;
            decomp_pi = self.decomp_pi;
            secret = old.secret;
          },
          later,
        )
  unfolding get_sharing put_sharing consume_newline
  get_sharing-put_sharing old self later =
      let decomposition = put_decomposition self.decomp_pi (newline ∷ later) in
      let proofs = put_vector put_dual self.dleq_proofs decomposition in
      rw (
        get_points-put_points self.encryptions (put_vector write self.commitments proofs),
        get_points-put_points self.commitments proofs,
        get_vector-put_vector get_dual put_dual (λ a rest. get_dual-put_dual a (newline ∷ rest))
            self.dleq_proofs decomposition,
        get_decomposition-put_decomposition self.decomp_pi (newline ∷ later),
      )

  -- An aggregate is read back as it was written.
  pub get_aggregate-put_aggregate :
      (self : Aggregate F G1 G2) (later : Text)
      → get_aggregate (put_aggregate self later) ≡ ok (self, later)
  unfolding get_aggregate put_aggregate
  get_aggregate-put_aggregate self later =
      let secret = put_line self.secret later in
      let ids = put_vector write self.id_vec secret in
      let decomposition = put_vector put_decomposition self.decomposition ids in
      rw (
        get_points-put_points self.encryptions (put_vector write self.commitments decomposition),
        get_points-put_points self.commitments decomposition,
        get_vector-put_vector get_decomposition put_decomposition
            (λ a rest. get_decomposition-put_decomposition a (newline ∷ rest)) self.decomposition
            ids,
        get_points-put_points self.id_vec secret,
        get_line-put_line self.secret later,
      )

  -- A context is read back with the configuration of the factory that reads it.
  pub parse_context-put_context :
      (config : SyncSystemConfig) (ctx : Context F G1 G2) (later : Text)
      → parse_context config (put_context ctx later)
        ≡ ok (
          record {
            pk_map = ctx.pk_map;
            config = config;
            g1 = ctx.g1;
            g2 = ctx.g2;
            h1 = ctx.h1;
            h2 = ctx.h2;
            secret_key = ctx.secret_key;
            my_id = ctx.my_id;
          },
          later,
        )
  unfolding parse_context put_context
  parse_context-put_context config ctx later =
      let id = put_line ctx.my_id later in
      let key = put_line ctx.secret_key id in
      let second = put_line ctx.h2 key in
      let first = put_line ctx.h1 second in
      rw (
        get_points-put_points ctx.pk_map (put_line ctx.g1 (put_line ctx.g2 first)),
        get_line-put_line ctx.g1 (put_line ctx.g2 first),
        get_line-put_line ctx.g2 first,
        get_line-put_line ctx.h1 second,
        get_line-put_line ctx.h2 key,
        get_line-put_line ctx.secret_key id,
        get_line-put_line ctx.my_id later,
      )
