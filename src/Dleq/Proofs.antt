-- ===== src/Dleq/Proofs.antt =====
-- include/pvss/Dleq.hpp: honest proofs are accepted, and two accepted proofs that share their
-- commitments, under different challenges, give the logarithm away.
use random_beacon.Prelude.{◌≡◌, refl, sym, ap, ◌∙◌, ◌≢◌, true, Bool-cases, inl, inr, ok, arith, suc}
use random_beacon.Random.{Supply}
use random_beacon.Stream.{Codec}
use random_beacon.Algebra.Field.{Field, ◌⊕◌, ◌⊖◌, ◌⊗◌}
use random_beacon.Algebra.Group.{Group, Scalars, ◌⊞◌, ◌•◌, response, extract}
use random_beacon.Dleq.{
  Hasher, Dleq, DleqDual, prove, verify, prove_dual, verify_dual, challenge, dual_challenge,
}

module _ {Z Ga Gb : Type 0} ⦃f : Field Z⦄ ⦃a : Group Ga⦄ ⦃b : Group Gb⦄ ⦃sa : Scalars Z Ga⦄
    ⦃sb : Scalars Z Gb⦄ ⦃ca : Codec Ga⦄ ⦃cb : Codec Gb⦄ ⦃h : Hasher Z⦄ where
  -- The proof that `DleqDual::Prove` makes for the logarithm x with the random scalar r.
  unfoldable pub dual_proof : Ga → Ga → Gb → Gb → Z → Z → DleqDual Ga Gb Z
  dual_proof g gx k kx x r = record {
    gra = r • g;
    grb = r • k;
    pi = r ⊕ x ⊗ dual_challenge g gx k kx (r • g) (r • k);
  }

  pub prove_dual_lem :
      (g gx : Ga) (k kx : Gb) (x : Z) (supply : Supply Z)
      → prove_dual g gx k kx x supply ≡ ok (dual_proof g gx k kx x (supply 0), λ i. supply (suc i))
  unfolding prove_dual dual_proof
  prove_dual_lem g gx k kx x supply = refl

  pub dual_proof-verify :
      (g gx : Ga) (k kx : Gb) (x r : Z)
      → x • g ≡ gx
      → x • k ≡ kx
      → verify_dual (dual_proof g gx k kx x r) g gx k kx ≡ true
  unfolding dual_proof verify_dual
  dual_proof-verify g gx k kx x r left right =
      let c : Z = dual_challenge g gx k kx (r • g) (r • k) in
      rw (
        (a.beq_iff ((r ⊕ x ⊗ c) • g) (r • g ⊞ c • gx)).1
            (response r x c g ∙ ap (λ t. r • g ⊞ c • t) left),
        (b.beq_iff ((r ⊕ x ⊗ c) • k) (r • k ⊞ c • kx)).1
            (response r x c k ∙ ap (λ t. r • k ⊞ c • t) right),
      )

  -- `DleqDual::Prove` returns a proof for every supply, and `DleqDual::verify` accepts it, when the
  -- statement is true: one scalar is the logarithm of both halves.
  pub prove_dual-verify :
      (g gx : Ga) (k kx : Gb) (x : Z) (supply : Supply Z)
      → x • g ≡ gx
      → x • k ≡ kx
      → (proof : DleqDual Ga Gb Z) × (prove_dual g gx k kx x supply
          ≡ ok (proof, λ i. supply (suc i)))
        × (verify_dual proof g gx k kx ≡ true)
  prove_dual-verify g gx k kx x supply left right = (
    dual_proof g gx k kx x (supply 0),
    prove_dual_lem g gx k kx x supply,
    dual_proof-verify g gx k kx x (supply 0) left right,
  )

module _ {Z Ga Gb : Type 0} ⦃f : Field Z⦄ ⦃a : Group Ga⦄ ⦃b : Group Gb⦄ ⦃sa : Scalars Z Ga⦄
    ⦃sb : Scalars Z Gb⦄ ⦃ca : Codec Ga⦄ ⦃cb : Codec Gb⦄ where
  -- What an accepted proof says: both equations hold at the challenge.
  pub verify_dual_equations :
      ⦃h : Hasher Z⦄ (proof : DleqDual Ga Gb Z) (g gx : Ga) (k kx : Gb)
      → verify_dual proof g gx k kx ≡ true
      → (proof.pi • g ≡ proof.gra ⊞ sa.smul (dual_challenge g gx k kx proof.gra proof.grb) gx)
        × (proof.pi • k ≡ proof.grb ⊞ sb.smul (dual_challenge g gx k kx proof.gra proof.grb) kx)
  unfolding verify_dual
  verify_dual_equations proof g gx k kx e =
      let c : Z = dual_challenge g gx k kx proof.gra proof.grb in
      elim (Bool-cases (a.beq (proof.pi • g) (proof.gra ⊞ c • gx))) [
        | inl left ↦ ((a.beq_iff _ _).0 left, (b.beq_iff _ _).0 (rw left at e))
        | inr wrong ↦ absurd (ground (arith, wrong))
      ]

  -- Special soundness of `DleqDual::verify`: two proofs with the same commitments, accepted for one
  -- statement under hash functions that give different challenges, determine a scalar that is the
  -- logarithm of both halves of the statement.
  pub verify_dual_sound :
      (h1 h2 : Hasher Z) (p q : DleqDual Ga Gb Z) (g gx : Ga) (k kx : Gb)
      → p.gra ≡ q.gra
      → p.grb ≡ q.grb
      → dual_challenge ⦃h = h1⦄ g gx k kx p.gra p.grb
        ≢ dual_challenge ⦃h = h2⦄ g gx k kx q.gra q.grb
      → verify_dual ⦃h = h1⦄ p g gx k kx ≡ true
      → verify_dual ⦃h = h2⦄ q g gx k kx ≡ true
      → (x : Z) × (x • g ≡ gx) × (x • k ≡ kx)
  verify_dual_sound h1 h2 p q g gx k kx same_a same_b ne first second =
      let c : Z = dual_challenge ⦃h = h1⦄ g gx k kx p.gra p.grb in
      let d : Z = dual_challenge ⦃h = h2⦄ g gx k kx q.gra q.grb in
      let left = verify_dual_equations ⦃h = h1⦄ p g gx k kx first in
      let right = verify_dual_equations ⦃h = h2⦄ q g gx k kx second in
      (
        (p.pi ⊖ q.pi) ⊗ f.inverse (c ⊖ d),
        extract p.pi q.pi c d g gx p.gra ne left.0 (right.0 ∙ ap (λ t. t ⊞ d • gx) (sym same_a)),
        extract p.pi q.pi c d k kx p.grb ne left.1 (right.1 ∙ ap (λ t. t ⊞ d • kx) (sym same_b)),
      )

module _ {Z G : Type 0} ⦃f : Field Z⦄ ⦃g : Group G⦄ ⦃s : Scalars Z G⦄ ⦃c : Codec G⦄ where
  -- `Dleq::Prove` returns, and its proof is accepted.
  pub prove-verify :
      ⦃h : Hasher Z⦄ (base gx : G) (x : Z) (supply : Supply Z)
      → x • base ≡ gx
      → (proof : Dleq G Z) × (prove base gx x supply ≡ ok (proof, λ i. supply (suc i)))
        × (verify proof base gx ≡ true)
  unfolding prove verify
  prove-verify base gx x supply e =
      let r = supply 0 in
      let d : Z = challenge base gx (r • base) in
      (
        record { gr = r • base; pi = r ⊕ x ⊗ d },
        refl,
        (g.beq_iff _ _).1 (response r x d base ∙ ap (λ t. r • base ⊞ d • t) e),
      )

  -- Special soundness of `Dleq::verify`, as for the two groups.
  pub verify_sound :
      (h1 h2 : Hasher Z) (p q : Dleq G Z) (base gx : G)
      → p.gr ≡ q.gr
      → challenge ⦃h = h1⦄ base gx p.gr ≢ challenge ⦃h = h2⦄ base gx q.gr
      → verify ⦃h = h1⦄ p base gx ≡ true
      → verify ⦃h = h2⦄ q base gx ≡ true
      → (x : Z) × (x • base ≡ gx)
  unfolding verify
  verify_sound h1 h2 p q base gx same ne first second =
      let d : Z = challenge ⦃h = h2⦄ base gx q.gr in
      (
        (p.pi ⊖ q.pi) ⊗ f.inverse (challenge ⦃h = h1⦄ base gx p.gr ⊖ d),
        extract p.pi q.pi _ d base gx p.gr ne ((g.beq_iff _ _).0 first)
            ((g.beq_iff _ _).0 second ∙ ap (λ t. t ⊞ d • gx) (sym same)),
      )
