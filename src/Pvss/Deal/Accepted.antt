-- ===== src/Pvss/Deal/Accepted.antt =====
-- `verify_sharing` of include/pvss/pvss.hpp accepts what is dealt honestly.
use random_beacon.Prelude.{
  ℕ, suc, ◌+◌, ◌-◌, ◌≤◌, ◌<◌, ◌≡◌, sym, ap, ◌∙◌, List, true, ok, arith, length, tabulate,
  length-tabulate, check_all-true, ==_iff, get_or-tabulate,
}
use random_beacon.Random.{Supply, after}
use random_beacon.Stream.{Codec}
use random_beacon.Algebra.Field.{Field}
use random_beacon.Algebra.Group.{Group, Scalars, ◌•◌}
use random_beacon.Poly.Defs.{lagrange_interpolation}
use random_beacon.Poly.Check.{ensure_degree}
use random_beacon.Poly.Spec.{eval, constant}
use random_beacon.Poly.Loops.{at-ok, at-tabulate}
use random_beacon.Poly.Recover.{lagrange_interpolation-recovers}
use random_beacon.Poly.Accepts.{share_point, ensure_degree-accepts}
use random_beacon.Dleq.{Hasher}
use random_beacon.Pvss.Defs.{Context, Sharing}
use random_beacon.Pvss.Deal.{
  lengths_match, check_proofs, check_secret, verify_sharing, create_sharing,
}
use random_beacon.Pvss.Deal.Dealt.{IsWellFormed, IsDealt, key, create_sharing-IsDealt}

module _ {F G : Type 0} ⦃f : Field F⦄ ⦃g : Group G⦄ ⦃s : Scalars F G⦄ where
  -- The coding check and the interpolation, at commitments to a polynomial.
  pub coding-accepts :
      (n degree : ℕ) (p : List F) (base : G) (supply : Supply F)
      → degree + 2 ≤ n
      → n < f.order
      → n ≤ f.max_size
      → length p ≤ suc degree
      → ensure_degree F (tabulate n (λ i. eval p (share_point i) • base)) degree supply
        ≡ ok (true, after (n - degree - 2 + 1) supply)
  coding-accepts n degree p base supply enough order room short =
      let evals = tabulate n (λ i. eval p (share_point i) • base) in
      let e : length evals ≡ n = length-tabulate n _ in
      ensure_degree-accepts evals degree p base supply (omega (arith, e)) (omega (arith, e))
        (omega (arith, e)) short (λ j h. get_or-tabulate n _ j g.zero (omega (arith, e)))
      ∙ ap (λ k. ok (true, after (k - degree - 2 + 1) supply)) e

  pub coding-recovers :
      (n degree : ℕ) (p : List F) (base : G)
      → degree + 2 ≤ n
      → n < f.order
      → n ≤ f.max_size
      → length p ≤ suc degree
      → lagrange_interpolation F degree (tabulate n (λ i. eval p (share_point i) • base))
        ≡ ok (constant p • base)
  coding-recovers n degree p base enough order room short =
      let evals = tabulate n (λ i. eval p (share_point i) • base) in
      let e : length evals ≡ n = length-tabulate n _ in
      lagrange_interpolation-recovers degree evals p base (omega (arith, f.max_size_lt))
        (omega arith) (omega (arith, e)) (omega arith)
        (λ j h. get_or-tabulate n _ j g.zero (omega arith))

module _ {F G1 G2 : Type 0} ⦃f : Field F⦄ ⦃a : Group G1⦄ ⦃b : Group G2⦄ ⦃sa : Scalars F G1⦄
    ⦃sb : Scalars F G2⦄ ⦃ca : Codec G1⦄ ⦃cb : Codec G2⦄ ⦃h : Hasher F⦄ where
  module _ {ctx : Context F G1 G2} {p : List F} {sharing : Sharing F G1 G2}
      (dealt : IsDealt ctx p sharing) where
    lengths_match-dealt : lengths_match ctx sharing ≡ true
    unfolding lengths_match
    lengths_match-dealt =
        let n = ctx.config.num_replicas in
        rw (
          (==_iff (length sharing.encryptions) n).1
              (ap length dealt.encryptions_eq ∙ length-tabulate n _),
          (==_iff (length sharing.commitments) n).1
              (ap length dealt.commitments_eq ∙ length-tabulate n _),
          (==_iff (length sharing.dleq_proofs) n).1 dealt.proofs_length,
        )

    check_proofs-dealt :
        length ctx.pk_map ≡ ctx.config.num_replicas → check_proofs ctx sharing ≡ ok true
    unfolding check_proofs
    check_proofs-dealt keys =
        let n = ctx.config.num_replicas in
        check_all-true n _ λ i q.
          let (proof, found, accepted) = dealt.proofs_accepted i q in
          rw (
            found,
            at-ok ctx.pk_map i a.zero (omega arith),
            dealt.encryptions_eq,
            dealt.commitments_eq,
            at-tabulate n (λ k. eval p (share_point k) • key ctx k) i q,
            at-tabulate n (λ k. eval p (share_point k) • ctx.h1) i q,
            accepted,
          )

    check_secret-dealt : check_secret ctx sharing (constant p • ctx.h1) ≡ true
    unfolding check_secret
    check_secret-dealt = rw (
      (b.beq_iff (constant p • ctx.h1) sharing.decomp_pi.gs).1 (sym dealt.gs_eq),
      ← dealt.gs_eq,
      dealt.pi_accepted,
    )

    degree_accepted :
        (supply : Supply F)
        → IsWellFormed ctx
        → ensure_degree F sharing.commitments ctx.config.num_faults supply
          ≡ ok (true, after (ctx.config.num_replicas - ctx.config.num_faults - 2 + 1) supply)
    degree_accepted supply well =
        ap (λ c. ensure_degree F c ctx.config.num_faults supply) dealt.commitments_eq
        ∙ coding-accepts ctx.config.num_replicas ctx.config.num_faults p ctx.h1 supply well.faults
            well.order well.room (omega (arith, dealt.degree))

    secret_recovered :
        IsWellFormed ctx
        → lagrange_interpolation F ctx.config.num_faults sharing.commitments
          ≡ ok (constant p • ctx.h1)
    secret_recovered well =
        ap (lagrange_interpolation F ctx.config.num_faults) dealt.commitments_eq
        ∙ coding-recovers ctx.config.num_replicas ctx.config.num_faults p ctx.h1 well.faults
            well.order well.room (omega (arith, dealt.degree))

  -- `verify_sharing` accepts every sharing that deals a polynomial, whatever it draws.
  pub verify_sharing-dealt :
      (ctx : Context F G1 G2) (p : List F) (sharing : Sharing F G1 G2) (supply : Supply F)
      → IsWellFormed ctx
      → IsDealt ctx p sharing
      → (rest : Supply F) × (verify_sharing ctx sharing supply ≡ ok (true, rest))
  unfolding verify_sharing
  verify_sharing-dealt ctx p sharing supply well dealt =
      let n = ctx.config.num_replicas in
      let d = ctx.config.num_faults in
      (
        after (n - d - 2 + 1) supply,
        rw (
          lengths_match-dealt dealt,
          degree_accepted dealt supply well,
          check_proofs-dealt dealt well.keys,
          secret_recovered dealt well,
          check_secret-dealt dealt,
        ),
      )

  -- What `create_sharing` returns is accepted by `verify_sharing` in every well-formed context,
  -- whatever the two calls draw.
  pub create_sharing-verify_sharing :
      (ctx : Context F G1 G2) (supply supply' : Supply F)
      → IsWellFormed ctx
      → (sharing : Sharing F G1 G2) × (rest rest' : Supply F) × (create_sharing ctx supply
          ≡ ok (sharing, rest))
        × (verify_sharing ctx sharing supply' ≡ ok (true, rest'))
  create_sharing-verify_sharing ctx supply supply' well =
      let (sharing, rest, created, secret, dealt) =
        create_sharing-IsDealt ctx supply well.keys (omega (arith, well.faults, well.room)) in
      let (rest', verified) = verify_sharing-dealt ctx _ sharing supply' well dealt in
      (sharing, rest, rest', created, verified)
