-- ===== src/Drg/Shares.antt =====
-- `DrgCore::on_receive_share` of src/DrgCore.cpp, which collects decrypted shares.
pub mod Collected
use random_beacon.Prelude.{
  ℕ, ◌+◌, List, [], ◌∷◌, ◌++◌, Result, ok, err, ◌>>=◌, if◌then◌else◌, ltb, ◌==◌, not, length,
  fold_list,
}
use random_beacon.Stream.{Text, Codec}
use random_beacon.Algebra.Field.{Field}
use random_beacon.Algebra.Group.{Group, Scalars, Pairing}
use random_beacon.Pvss.Defs.{Context, Decryption}
use random_beacon.Pvss.Reconstruct.{reconstruct}
use random_beacon.Pvss.Streams.{get_decryption}

-- A message: who sent it, and the text of a decryption.
pub record Share : Type 0 where
  pub replica_id : ℕ
  pub bt : Text

-- What the handler reads and writes of `DrgCore`.
pub record Collector (F G1 G2 : Type 0) : Type 0 where
  pub nreconthres : ℕ
  pub pvss_context : Context F G1 G2
  pub dec_share_vec : List (Decryption F G1)

abbrev pub hold :
    {F G1 G2 : Type 0} → Collector F G1 G2 → List (Decryption F G1) → Collector F G1 G2
hold self shares = record {
  nreconthres = self.nreconthres;
  pvss_context = self.pvss_context;
  dec_share_vec = shares;
}

module _ {F G1 G2 GT : Type 0} ⦃f : Field F⦄ ⦃a : Group G1⦄ ⦃b : Group G2⦄ ⦃sa : Scalars F G1⦄
    ⦃sb : Scalars F G2⦄ (e : Pairing F G1 G2 GT) ⦃cf : Codec F⦄ ⦃ca : Codec G1⦄ ⦃cn : Codec ℕ⦄ where
  -- The beacon is computed, printed to a stream of its own and dropped.
  unfoldable pub on_receive_share : Share → Collector F G1 G2 → Result (Collector F G1 G2)
  on_receive_share share self =
      let qsize = length self.dec_share_vec in
      if not (ltb qsize self.nreconthres)
      then ok self
      else (get_decryption share.bt >>= λ read.
          let dec_share_vec = self.dec_share_vec ++ read.0 ∷ [] in
          if qsize + 1 == self.nreconthres
          then (reconstruct e self.pvss_context dec_share_vec >>= λ beacon.
              ok (hold self dec_share_vec))
          else ok (hold self dec_share_vec))

  -- The messages that arrive, in order.
  unfoldable pub receive_shares : List Share → Collector F G1 G2 → Result (Collector F G1 G2)
  unfolding on_receive_share
  receive_shares = fold_list on_receive_share
