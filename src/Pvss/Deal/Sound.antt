-- ===== src/Pvss/Deal/Sound.antt =====
-- What `verify_sharing` of include/pvss/pvss.hpp accepts.
use random_beacon.Prelude.{
  ℕ, suc, ◌+◌, ◌-◌, ◌≤◌, ◌<◌, ◌≡◌, ◌≢◌, ◌↔◌, sym, ap, ◌∙◌, List, true, ok, ok_injective, >>=-eq-ok,
  arith, length, at, get_or, tabulate, length-tabulate, check_all-each, check_all-true, eq-tabulate,
  ==_iff,
}
use random_beacon.Random.{Supply, after}
use random_beacon.Stream.{Codec}
use random_beacon.Algebra.Field.{Field}
use random_beacon.Algebra.Group.{Group, Scalars, ◌•◌}
use random_beacon.Poly.Defs.{lagrange_interpolation}
use random_beacon.Poly.Check.{ensure_degree}
use random_beacon.Poly.Spec.{eval, constant}
use random_beacon.Poly.Loops.{at-ok, at-tabulate}
use random_beacon.Poly.Accepts.{share_point}
use random_beacon.Poly.Sound.{ensure_degree_iff}
use random_beacon.Dleq.{Hasher, DleqDual, verify_dual, verify}
use random_beacon.Pvss.Defs.{Context, Sharing}
use random_beacon.Pvss.Deal.{lengths_match, check_proofs, verify_sharing}
use random_beacon.Pvss.Deal.Dealt.{IsWellFormed, key}
use random_beacon.Pvss.Deal.Accepted.{coding-accepts, coding-recovers}
use random_beacon.Pvss.Deal.Passed.{verify_sharing-Passed, check_secret_iff}

module _ {F G1 G2 : Type 0} ⦃f : Field F⦄ ⦃a : Group G1⦄ ⦃b : Group G2⦄ ⦃sa : Scalars F G1⦄
    ⦃sb : Scalars F G2⦄ ⦃ca : Codec G1⦄ ⦃cb : Codec G2⦄ ⦃h : Hasher F⦄ where
  -- The proof of one replica is accepted for its key, its encryption and its commitment.
  abbrev Proved : Context F G1 G2 → Sharing F G1 G2 → List F → ℕ → Type 0
  Proved ctx pvss p i =
      (proof : DleqDual G1 G2 F) × (at pvss.dleq_proofs i ≡ ok proof)
      × (verify_dual proof (key ctx i) (get_or pvss.encryptions i a.zero) ctx.h1
            (eval p (share_point i) • ctx.h1)
          ≡ true)

  -- The tests of the proofs, where the lists are long enough.
  module _ (ctx : Context F G1 G2) (pvss : Sharing F G1 G2) (p : List F)
      (keys : length ctx.pk_map ≡ ctx.config.num_replicas)
      (encryptions : length pvss.encryptions ≡ ctx.config.num_replicas)
      (commitments : pvss.commitments
        ≡ tabulate ctx.config.num_replicas (λ i. eval p (f.of_long (i + 1)) • ctx.h1)) where
    check_proofs-Proved :
        check_proofs ctx pvss ≡ ok true
        → (i : ℕ) → i < ctx.config.num_replicas
        → Proved ctx pvss p i
    unfolding check_proofs
    check_proofs-Proved passed i less =
        let test = check_all-each ctx.config.num_replicas _ passed i less in
        let comm_at : at pvss.commitments i ≡ ok (eval p (share_point i) • ctx.h1) =
          ap (λ cs. at cs i) commitments
          ∙ at-tabulate ctx.config.num_replicas (λ k. eval p (share_point k) • ctx.h1) i less in
        let (proof, found, next) = >>=-eq-ok (at pvss.dleq_proofs i) _ test in
        (
          proof,
          found,
          ok_injective (
              rw
                (
                  at-ok ctx.pk_map i a.zero (omega arith),
                  at-ok pvss.encryptions i a.zero (omega arith),
                  comm_at,
                )
                at next),
        )

    Proved-check_proofs :
        ((i : ℕ) → i < ctx.config.num_replicas → Proved ctx pvss p i)
        → check_proofs ctx pvss ≡ ok true
    unfolding check_proofs
    Proved-check_proofs each = check_all-true ctx.config.num_replicas _ λ i less.
        let (proof, found, accepted) = each i less in
        rw (
          found,
          at-ok ctx.pk_map i a.zero (omega arith),
          at-ok pvss.encryptions i a.zero (omega arith),
          commitments,
          at-tabulate ctx.config.num_replicas (λ k. eval p (share_point k) • ctx.h1) i less,
          accepted,
        )

  secret :
      (ctx : Context F G1 G2) (pvss : Sharing F G1 G2) (p : List F)
      → IsWellFormed ctx
      → length p ≤ suc ctx.config.num_faults
      → pvss.commitments
        ≡ tabulate ctx.config.num_replicas (λ i. eval p (f.of_long (i + 1)) • ctx.h1)
      → lagrange_interpolation F ctx.config.num_faults pvss.commitments ≡ ok (constant p • ctx.h1)
  secret ctx pvss p well short commitments =
      ap (lagrange_interpolation F ctx.config.num_faults) commitments
      ∙ coding-recovers ctx.config.num_replicas ctx.config.num_faults p ctx.h1 well.faults
          well.order well.room short

  verify_sharing-accepts :
      (ctx : Context F G1 G2) (pvss : Sharing F G1 G2) (p : List F) (supply : Supply F)
      → IsWellFormed ctx
      → length pvss.encryptions ≡ ctx.config.num_replicas
      → length pvss.dleq_proofs ≡ ctx.config.num_replicas
      → length p ≤ ctx.config.num_faults + 1
      → pvss.commitments
        ≡ tabulate ctx.config.num_replicas (λ i. eval p (f.of_long (i + 1)) • ctx.h1)
      → ((i : ℕ) → i < ctx.config.num_replicas → Proved ctx pvss p i)
      → pvss.decomp_pi.gs ≡ constant p • ctx.h1
      → verify pvss.decomp_pi.pi ctx.h1 (constant p • ctx.h1) ≡ true
      → (rest : Supply F) × (verify_sharing ctx pvss supply ≡ ok (true, rest))
  unfolding verify_sharing lengths_match
  verify_sharing-accepts ctx pvss p supply well encryptions proofs degree commitments each gs
        accepted =
      let n = ctx.config.num_replicas in
      let d = ctx.config.num_faults in
      let coded : ensure_degree F pvss.commitments d supply
          ≡ ok (true, after (n - d - 2 + 1) supply) =
        ap (λ cs. ensure_degree F cs d supply) commitments
        ∙ coding-accepts n d p ctx.h1 supply well.faults well.order well.room (omega arith) in
      (
        after (n - d - 2 + 1) supply,
        rw (
          (==_iff (length pvss.encryptions) n).1 encryptions,
          (==_iff (length pvss.commitments) n).1 (ap length commitments ∙ length-tabulate n _),
          (==_iff (length pvss.dleq_proofs) n).1 proofs,
          coded,
          Proved-check_proofs ctx pvss p well.keys encryptions commitments each,
          secret ctx pvss p well (omega arith) commitments,
          (check_secret_iff ctx pvss (constant p • ctx.h1)).1 (gs, accepted),
        ),
      )

  -- In a well-formed context whose generator h1 is not zero and generates the second group:
  -- `verify_sharing` accepts a sharing whatever it draws exactly when it has an encryption and a
  -- proof for each replica, its commitments are the multiples of h1 by the values of a polynomial of
  -- degree at most `num_faults` at 1, …, n, the proof of each replica is accepted for its key, its
  -- encryption and its commitment, and the commitment to the secret is the multiple of h1 by the
  -- polynomial's constant, with an accepted proof.
  pub verify_sharing_iff :
      (ctx : Context F G1 G2) (pvss : Sharing F G1 G2)
      → IsWellFormed ctx
      → ctx.h1 ≢ b.zero
      → ((x : G2) → (c : F) × (x ≡ c • ctx.h1))
      → ((supply : Supply F)
          → (rest : Supply F) × (verify_sharing ctx pvss supply ≡ ok (true, rest)))
        ↔ ((length pvss.encryptions ≡ ctx.config.num_replicas)
            × (length pvss.dleq_proofs ≡ ctx.config.num_replicas)
            × (p : List F) × (length p ≤ ctx.config.num_faults + 1)
            × (pvss.commitments
                ≡ tabulate ctx.config.num_replicas (λ i. eval p (f.of_long (i + 1)) • ctx.h1))
            × ((i : ℕ)
                → i < ctx.config.num_replicas
                → (proof : DleqDual G1 G2 F) × (at pvss.dleq_proofs i ≡ ok proof)
                  × (verify_dual proof
                        (get_or ctx.pk_map i a.zero)
                        (get_or pvss.encryptions i a.zero)
                        ctx.h1
                        (eval p (f.of_long (i + 1)) • ctx.h1)
                      ≡ true))
            × (pvss.decomp_pi.gs ≡ constant p • ctx.h1)
            × (verify pvss.decomp_pi.pi ctx.h1 (constant p • ctx.h1) ≡ true))
  verify_sharing_iff ctx pvss well ne generates = (
    λ accepts.
        let (rest, accepted) = accepts (λ _. f.zero) in
        let passed = verify_sharing-Passed ctx pvss (λ _. f.zero) accepted in
        let sized = passed.sized in
        let as_many = sized.commitments_length in
        let (p, short, committed) =
          (ensure_degree_iff pvss.commitments ctx.config.num_faults
              (λ i. (generates (get_or pvss.commitments i b.zero)).0) ctx.h1
              (omega (arith, as_many, well.faults)) (omega (arith, as_many, well.order))
              (omega (arith, as_many, well.room)) ne
              (λ i less. (generates (get_or pvss.commitments i b.zero)).1)).0
            (λ supply.
              let one = verify_sharing-Passed ctx pvss supply (accepts supply).1 in
              (one.rest, one.coded)) in
        let commitments =
          eq-tabulate pvss.commitments ctx.config.num_replicas
            (λ i. eval p (f.of_long (i + 1)) • ctx.h1) b.zero as_many
            (λ i less. committed i (omega (arith, as_many))) in
        let point : passed.point ≡ constant p • ctx.h1 =
          ok_injective (sym passed.interpolates ∙ secret ctx pvss p well short commitments) in
        let hidden = (check_secret_iff ctx pvss passed.point).0 passed.hides in
        (
          sized.encryptions_length,
          sized.proofs_length,
          p,
          omega arith,
          commitments,
          check_proofs-Proved ctx pvss p well.keys sized.encryptions_length commitments
              passed.proved,
          hidden.0 ∙ point,
          ap (λ x. verify pvss.decomp_pi.pi ctx.h1 x) (sym point) ∙ hidden.1,
        ),
    λ holds supply.
        let (encryptions, proofs, p, degree, commitments, each, gs, accepted) = holds in
        verify_sharing-accepts ctx pvss p supply well encryptions proofs degree commitments each gs
          accepted,
  )
