-- ===== src/Pvss/Deal/Dealt.antt =====
-- `create_sharing` of include/pvss/pvss.hpp returns, and deals the values of a random polynomial.
use random_beacon.Prelude.{
  ℕ, suc, ◌+◌, ◌≤◌, ◌<◌, ◌≡◌, refl, List, true, ok, arith, length, at, get_or, tabulate,
  length-tabulate, collect-ok,
}
use random_beacon.Random.{Supply, after, draws-ok}
use random_beacon.Stream.{Codec}
use random_beacon.Algebra.Field.{Field}
use random_beacon.Algebra.Group.{Group, Scalars, ◌•◌}
use random_beacon.Poly.Spec.{eval, constant}
use random_beacon.Poly.Loops.{evaluate_lem, at-ok, at-tabulate, at-zero, get_secret_lem}
use random_beacon.Poly.Accepts.{share_point, random_polynomial_lem}
use random_beacon.Dleq.{Hasher, DleqDual, verify, verify_dual}
use random_beacon.Dleq.Proofs.{dual_proof, prove_dual_lem, dual_proof-verify, prove-verify}
use random_beacon.Pvss.Defs.{Context, Sharing, generate_decomposition}
use random_beacon.Pvss.Deal.{evaluations, commit, encrypt, prove_shares, create_sharing}

module _ {F G1 G2 : Type 0} ⦃f : Field F⦄ ⦃a : Group G1⦄ ⦃b : Group G2⦄ ⦃sa : Scalars F G1⦄
    ⦃sb : Scalars F G2⦄ ⦃ca : Codec G1⦄ ⦃cb : Codec G2⦄ ⦃h : Hasher F⦄ where
  -- A context with a key for each replica, and fewer replicas than scalars. The coding check needs
  -- two replicas more than faults.
  pub record IsWellFormed (ctx : Context F G1 G2) : Type 0 where
    pub keys : length ctx.pk_map ≡ ctx.config.num_replicas
    pub faults : ctx.config.num_faults + 2 ≤ ctx.config.num_replicas
    pub order : ctx.config.num_replicas < f.order
    pub room : ctx.config.num_replicas ≤ f.max_size

  -- The key of the i-th replica.
  abbrev pub key : Context F G1 G2 → ℕ → G1
  key ctx i = get_or ctx.pk_map i a.zero

  -- The sharing deals the values of the polynomial p at 1, …, n, with proofs that are accepted.
  pub record IsDealt (ctx : Context F G1 G2) (p : List F) (sharing : Sharing F G1 G2) : Type 0 where
    pub degree : length p ≡ ctx.config.num_faults + 1
    pub encryptions_eq :
        sharing.encryptions
        ≡ tabulate ctx.config.num_replicas (λ i. eval p (share_point i) • key ctx i)
    pub commitments_eq :
        sharing.commitments
        ≡ tabulate ctx.config.num_replicas (λ i. eval p (share_point i) • ctx.h1)
    pub proofs_length : length sharing.dleq_proofs ≡ ctx.config.num_replicas
    pub proofs_accepted :
        (i : ℕ)
        → i < ctx.config.num_replicas
        → (proof : DleqDual G1 G2 F) × (at sharing.dleq_proofs i ≡ ok proof)
          × (verify_dual proof
                (key ctx i)
                (eval p (share_point i) • key ctx i)
                ctx.h1
                (eval p (share_point i) • ctx.h1)
              ≡ true)
    pub gs_eq : sharing.decomp_pi.gs ≡ constant p • ctx.h1
    pub pi_accepted : verify sharing.decomp_pi.pi ctx.h1 sharing.decomp_pi.gs ≡ true

  module _ (ctx : Context F G1 G2) (p : List F) where
    abbrev value : ℕ → F
    value i = eval p (share_point i)

    abbrev n : ℕ
    n = ctx.config.num_replicas

    evaluations_lem : evaluations ctx (record { coeffs = p }) ≡ ok (tabulate n value)
    unfolding evaluations
    evaluations_lem =
        collect-ok n _ value (λ i q. evaluate_lem (record { coeffs = p }) (share_point i))

    commit_lem : commit ctx (tabulate n value) ≡ ok (tabulate n (λ i. value i • ctx.h1))
    unfolding commit
    commit_lem = collect-ok n _ _ (λ i q. rw (at-tabulate n value i q))

    encrypt_lem :
        length ctx.pk_map ≡ n
        → encrypt ctx (tabulate n value) ≡ ok (tabulate n (λ i. value i • key ctx i))
    unfolding encrypt
    encrypt_lem keys =
        collect-ok n _ _
          (λ i q. rw (at-tabulate n value i q, at-ok ctx.pk_map i a.zero (omega arith)))

    -- The proof for the i-th replica, with the random scalar r.
    share_proof : ℕ → F → DleqDual G1 G2 F
    share_proof i r =
        dual_proof (key ctx i) (value i • key ctx i) ctx.h1 (value i • ctx.h1) (value i) r

    share_proof-verify :
        (i : ℕ) (r : F)
        → verify_dual (share_proof i r) (key ctx i) (value i • key ctx i) ctx.h1 (value i • ctx.h1)
          ≡ true
    unfolding share_proof
    share_proof-verify i r =
        dual_proof-verify (key ctx i) (value i • key ctx i) ctx.h1 (value i • ctx.h1) (value i) r
          refl refl

    prove_shares_lem :
        (supply : Supply F)
        → length ctx.pk_map ≡ n
        → prove_shares ctx
            (tabulate n value)
            (tabulate n (λ i. value i • ctx.h1))
            (tabulate n (λ i. value i • key ctx i))
            supply
          ≡ ok (tabulate n (λ i. share_proof i (supply i)), after n supply)
    unfolding prove_shares share_proof
    prove_shares_lem supply keys =
        draws-ok n _ share_proof
          (λ i q s. rw (
            at-ok ctx.pk_map i a.zero (omega arith),
            at-tabulate n (λ k. value k • key ctx k) i q,
            at-tabulate n (λ k. value k • ctx.h1) i q,
            at-tabulate n value i q,
            prove_dual_lem (key ctx i) (value i • key ctx i) ctx.h1 (value i • ctx.h1) (value i) s,
          ))
          supply

  -- `create_sharing`, with a key for each replica and fewer faults than the largest size of a
  -- vector, returns for every supply, and what it returns deals a polynomial of degree `num_faults`
  -- whose coefficients are the first scalars of the supply, and has its constant as the secret.
  pub create_sharing-IsDealt :
      (ctx : Context F G1 G2) (supply : Supply F)
      → length ctx.pk_map ≡ ctx.config.num_replicas
      → ctx.config.num_faults < f.max_size
      → (sharing : Sharing F G1 G2) × (rest : Supply F) × (create_sharing ctx supply
          ≡ ok (sharing, rest))
        × (sharing.secret ≡ constant (tabulate (ctx.config.num_faults + 1) supply))
        × IsDealt ctx (tabulate (ctx.config.num_faults + 1) supply) sharing
  unfolding create_sharing generate_decomposition
  create_sharing-IsDealt ctx supply keys room =
      let d = ctx.config.num_faults in
      let n = ctx.config.num_replicas in
      let p = tabulate (d + 1) supply in
      let s1 = after (d + 1) supply in
      let s2 = after n s1 in
      let some_coeffs : 0 < length p = omega (arith, length-tabulate (d + 1) supply) in
      let (proof, proved, accepted) =
        prove-verify ctx.h1 (constant p • ctx.h1) (constant p) s2 refl in
      (
        record {
          encryptions = tabulate n (λ i. eval p (share_point i) • key ctx i);
          commitments = tabulate n (λ i. eval p (share_point i) • ctx.h1);
          dleq_proofs = tabulate n (λ i. share_proof ctx p i (s1 i));
          decomp_pi = record { pi = proof; gs = constant p • ctx.h1 };
          secret = constant p;
        },
        (λ i. s2 (suc i)),
        rw (
          random_polynomial_lem d supply room,
          evaluations_lem ctx p,
          commit_lem ctx p,
          encrypt_lem ctx p keys,
          prove_shares_lem ctx p s1 keys,
          get_secret_lem p some_coeffs,
          proved,
          at-zero p some_coeffs,
        ),
        refl,
        record {
          degree = length-tabulate (d + 1) supply;
          encryptions_eq = refl;
          commitments_eq = refl;
          proofs_length = length-tabulate n _;
          proofs_accepted = λ i q. (
            share_proof ctx p i (s1 i),
            at-tabulate n (λ k. share_proof ctx p k (s1 k)) i q,
            share_proof-verify ctx p i (s1 i),
          );
          gs_eq = refl;
          pi_accepted = accepted;
        },
      )
