-- ===== src/Pvss/Deal/Passed.antt =====
-- The tests of `verify_sharing` of include/pvss/pvss.hpp that an accepted sharing has passed.
use random_beacon.Prelude.{
  ◌≡◌, ◌↔◌, sym, ap, ◌∙◌, true, false, Bool-cases, inl, inr, ok, ok_injective, arith, length,
}
use random_beacon.Random.{passes_test, Supply, bind-eq-ok, lift-eq-ok}
use random_beacon.Stream.{Codec}
use random_beacon.Algebra.Field.{Field}
use random_beacon.Algebra.Group.{Group, Scalars}
use random_beacon.Poly.Defs.{lagrange_interpolation}
use random_beacon.Poly.Check.{ensure_degree}
use random_beacon.Dleq.{Hasher, verify}
use random_beacon.Pvss.Defs.{Context, Sharing}
use random_beacon.Pvss.Deal.{lengths_match, check_proofs, check_secret, verify_sharing}

module _ {F G1 G2 : Type 0} ⦃f : Field F⦄ ⦃a : Group G1⦄ ⦃b : Group G2⦄ ⦃sa : Scalars F G1⦄
    ⦃sb : Scalars F G2⦄ ⦃ca : Codec G1⦄ ⦃cb : Codec G2⦄ ⦃h : Hasher F⦄ where
  -- The sizes of a sharing that passes the length tests.
  pub record Sized (ctx : Context F G1 G2) (pvss : Sharing F G1 G2) : Type 0 where
    pub encryptions_length : length pvss.encryptions ≡ ctx.config.num_replicas
    pub commitments_length : length pvss.commitments ≡ ctx.config.num_replicas
    pub proofs_length : length pvss.dleq_proofs ≡ ctx.config.num_replicas

  lengths_match-Sized :
      (ctx : Context F G1 G2) (pvss : Sharing F G1 G2)
      → lengths_match ctx pvss ≡ true
      → Sized ctx pvss
  unfolding lengths_match
  lengths_match-Sized ctx pvss e = record {
    encryptions_length = ground arith;
    commitments_length = ground arith;
    proofs_length = ground arith;
  }

  -- What an accepted sharing has passed.
  pub record Passed (ctx : Context F G1 G2) (pvss : Sharing F G1 G2) (supply : Supply F)
      : Type 0 where
    pub sized : Sized ctx pvss
    pub rest : Supply F
    pub coded : ensure_degree F pvss.commitments ctx.config.num_faults supply ≡ ok (true, rest)
    pub proved : check_proofs ctx pvss ≡ ok true
    pub point : G2
    pub interpolates : lagrange_interpolation F ctx.config.num_faults pvss.commitments ≡ ok point
    pub hides : check_secret ctx pvss point ≡ true

  pub verify_sharing-Passed :
      (ctx : Context F G1 G2) (pvss : Sharing F G1 G2) (supply : Supply F) {rest : Supply F}
      → verify_sharing ctx pvss supply ≡ ok (true, rest)
      → Passed ctx pvss supply
  unfolding verify_sharing
  verify_sharing-Passed ctx pvss supply accepted =
      let (sizes, next1) = passes_test (lengths_match ctx pvss) _ supply accepted in
      let (fits, rest, coded, next2) =
        bind-eq-ok (ensure_degree F pvss.commitments ctx.config.num_faults) _ supply next1 in
      let (good, next3) = passes_test fits _ rest next2 in
      let (proofs, proved, next4) = lift-eq-ok (check_proofs ctx pvss) _ rest next3 in
      let (good', next5) = passes_test proofs _ rest next4 in
      let (point, interpolates, next6) =
        lift-eq-ok (lagrange_interpolation F ctx.config.num_faults pvss.commitments) _ rest next5 in
      record {
        sized = lengths_match-Sized ctx pvss sizes;
        rest = rest;
        coded = coded ∙ ap (λ t. ok (t, rest)) good;
        proved = proved ∙ ap ok good';
        point = point;
        interpolates = interpolates;
        hides = ap (λ r. r.0) (ok_injective next6);
      }

  -- The proof of the secret is accepted for the point that the commitments interpolate.
  pub check_secret_iff :
      (ctx : Context F G1 G2) (pvss : Sharing F G1 G2) (point : G2)
      → (check_secret ctx pvss point ≡ true)
        ↔ ((pvss.decomp_pi.gs ≡ point) × (verify pvss.decomp_pi.pi ctx.h1 point ≡ true))
  unfolding check_secret
  check_secret_iff ctx pvss point = (
    λ e. elim (Bool-cases (b.beq point pvss.decomp_pi.gs)) [
      | inl same ↦ (sym ((b.beq_iff _ _).0 same), rw same at e)
      | inr other ↦ absurd (let wrong : false ≡ true = rw other at e in cc)
    ],
    λ both. rw ((b.beq_iff point pvss.decomp_pi.gs).1 (sym both.0)) both.1,
  )
