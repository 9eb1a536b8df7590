-- ===== src/Pvss/Aggregate/Sums.antt =====
-- `aggregate` of include/pvss/pvss.hpp adds the dealt polynomials: the aggregate of honest sharings
-- is a sharing of the sum.
use random_beacon.Prelude.{
  ℕ, zero, suc, ◌+◌, ◌≤◌, ◌≡◌, refl, sym, ap, ap₂, ◌∙◌, List, [], ◌∷◌, ◌++◌, append-nil,
  append_assoc, map, some, ok, arith, length, tabulate, replicate, length-tabulate, tabulate_congr,
  for_range, for_range-map, fold_list, result_map, ==_iff, ◌>>=◌,
}
use random_beacon.Stream.{Codec}
use random_beacon.Algebra.Field.{Field}
use random_beacon.Algebra.Group.{Group, Scalars, ◌⊞◌, ◌•◌}
use random_beacon.Poly.Spec.{eval, constant, plus, eval-plus, constant-plus, length-plus, sum_poly}
use random_beacon.Poly.Accepts.{share_point}
use random_beacon.Dleq.{Hasher}
use random_beacon.Pvss.Defs.{Context, Sharing, DecompositionProof}
use random_beacon.Pvss.Deal.Dealt.{IsDealt, key}
use random_beacon.Pvss.Aggregate.{Sums, add_at, add_sharing, aggregate_step, sum_decomposition}

module _ {G1 G2 : Type 0} ⦃a : Group G1⦄ ⦃b : Group G2⦄ where
  abbrev cons_both : G1 → G2 → Sums G1 G2 → Sums G1 G2
  cons_both x z sums = (x ∷ sums.0, z ∷ sums.1)

  -- A round past the first leaves the heads alone.
  add_at-suc :
      (y : G1) (ys : List G1) (w : G2) (ws : List G2) (x : G1) (z : G2) (j : ℕ) (sums : Sums G1 G2)
      → add_at (y ∷ ys) (w ∷ ws) (suc j) (cons_both x z sums)
        ≡ result_map (cons_both x z) (add_at ys ws j sums)
  unfolding add_at
  add_at-suc y ys w ws x z j sums = ground arith

  -- The inner loop adds element by element.
  add_loop :
      (n : ℕ) (u u' : ℕ → G1) (v v' : ℕ → G2)
      → for_range n (add_at (tabulate n u') (tabulate n v')) (tabulate n u, tabulate n v)
        ≡ ok (tabulate n (λ i. u i ⊞ u' i), tabulate n (λ i. v i ⊞ v' i))
  unfolding for_range add_at
  add_loop zero u u' v v' = refl
  add_loop (suc n) u u' v v' =
      for_range-map n (cons_both (u 0 ⊞ u' 0) (v 0 ⊞ v' 0))
        (add_at (tabulate n (λ i. u' (suc i))) (tabulate n (λ i. v' (suc i))))
        (λ i. add_at (tabulate (suc n) u') (tabulate (suc n) v') (suc i))
        (add_at-suc (u' 0) _ (v' 0) _ (u 0 ⊞ u' 0) (v 0 ⊞ v' 0))
        (tabulate n (λ i. u (suc i)), tabulate n (λ i. v (suc i)))
      ∙ ap (result_map (cons_both (u 0 ⊞ u' 0) (v 0 ⊞ v' 0)))
          (add_loop n (λ i. u (suc i)) (λ i. u' (suc i)) (λ i. v (suc i)) (λ i. v' (suc i)))

pub replicate-zero :
    {G : Type 0} ⦃g : Group G⦄ (n : ℕ) (t : ℕ → G)
    → ((i : ℕ) → t i ≡ g.zero)
    → replicate n g.zero ≡ tabulate n t
replicate-zero zero t e = refl
replicate-zero (suc n) t e =
    ap₂ ◌∷◌ (sym (e 0)) (replicate-zero n (λ i. t (suc i)) (λ i. e (suc i)))

module _ {F G1 G2 : Type 0} ⦃f : Field F⦄ ⦃a : Group G1⦄ ⦃b : Group G2⦄ ⦃sa : Scalars F G1⦄
    ⦃sb : Scalars F G2⦄ ⦃ca : Codec G1⦄ ⦃cb : Codec G2⦄ ⦃h : Hasher F⦄ where
  -- The sharings deal the polynomials, one each.
  abbrev pub AllDealt : Context F G1 G2 → List (List F) → List (Sharing F G1 G2) → Type 0
  AllDealt ctx [] [] = Unit
  AllDealt ctx (p ∷ ps) (s ∷ ss) = IsDealt ctx p s × AllDealt ctx ps ss
  AllDealt ctx _ _ = ⊥

  -- The state of the outer loop when the polynomial q has been added up.
  abbrev pub loop_state :
      Context F G1 G2
      → List F
      → List (DecompositionProof F G2)
      → Sums G1 G2 × List (DecompositionProof F G2)
  loop_state ctx q proofs =
      let n = ctx.config.num_replicas in
      (
        (
          tabulate n (λ i. eval q (share_point i) • key ctx i),
          tabulate n (λ i. eval q (share_point i) • ctx.h1),
        ),
        proofs,
      )

  add_sharing-dealt :
      (ctx : Context F G1 G2) (q p : List F) (s : Sharing F G1 G2)
      (proofs : List (DecompositionProof F G2))
      → IsDealt ctx p s
      → add_sharing ctx.config.num_replicas s (loop_state ctx q proofs).0
        ≡ ok (loop_state ctx (plus q p) proofs).0
  unfolding add_sharing
  add_sharing-dealt ctx q p s proofs dealt =
      let n = ctx.config.num_replicas in
      let start = (loop_state ctx q proofs).0 in
      ap (λ e. for_range n (add_at e s.commitments) start) dealt.encryptions_eq
      ∙ ap
          (λ c. for_range n (add_at (tabulate n (λ i. eval p (share_point i) • key ctx i)) c) start)
          dealt.commitments_eq
      ∙ add_loop n _ _ _ _
      ∙ ap ok (
          ap₂ both (tabulate_congr n (λ i k. joined (key ctx i) (share_point i)))
            (tabulate_congr n (λ i k. joined ctx.h1 (share_point i))))
    where
      both : List G1 → List G2 → Sums G1 G2
      both es cs = (es, cs)

      joined :
          {G : Type 0} ⦃g : Group G⦄ ⦃t : Scalars F G⦄ (base : G) (x : F)
          → eval q x • base ⊞ eval p x • base ≡ eval (plus q p) x • base
      joined ⦃t⦄ base x =
          sym (t.add-smul (eval q x) (eval p x) base)
          ∙ ap (λ v. t.smul v base) (sym (eval-plus q p x))

  -- One round adds the polynomial that the sharing deals, and keeps its proof of decomposition.
  aggregate_step-dealt :
      (ctx : Context F G1 G2) (q p : List F) (s : Sharing F G1 G2)
      (proofs : List (DecompositionProof F G2))
      → IsDealt ctx p s
      → aggregate_step ctx.config.num_replicas s (loop_state ctx q proofs)
        ≡ ok (loop_state ctx (plus q p) (proofs ++ s.decomp_pi ∷ []))
  unfolding aggregate_step
  aggregate_step-dealt ctx q p s proofs dealt =
      let n = ctx.config.num_replicas in
      rw (
        (==_iff (length s.commitments) n).1 (ap length dealt.commitments_eq ∙ length-tabulate n _),
        (==_iff (length s.encryptions) n).1 (ap length dealt.encryptions_eq ∙ length-tabulate n _),
        (==_iff (length s.dleq_proofs) n).1 dealt.proofs_length,
        add_sharing-dealt ctx q p s proofs dealt,
      )

  -- The whole loop adds all of them.
  pub aggregate_loop-dealt :
      (ctx : Context F G1 G2) (q : List F) (ps : List (List F)) (ss : List (Sharing F G1 G2))
      (proofs : List (DecompositionProof F G2))
      → AllDealt ctx ps ss
      → fold_list (aggregate_step ctx.config.num_replicas) ss (loop_state ctx q proofs)
        ≡ ok (loop_state ctx (sum_poly q ps) (proofs ++ map (λ s. s.decomp_pi) ss))
  unfolding fold_list sum_poly
  aggregate_loop-dealt ctx q [] [] proofs dealt = rw append-nil
  aggregate_loop-dealt ctx q [] (s ∷ ss) proofs dealt = absurd dealt
  aggregate_loop-dealt ctx q (p ∷ ps) [] proofs dealt = absurd dealt
  aggregate_loop-dealt ctx q (p ∷ ps) (s ∷ ss) proofs dealt =
      ap (λ r. r >>= fold_list (aggregate_step ctx.config.num_replicas) ss)
        (aggregate_step-dealt ctx q p s proofs dealt.0)
      ∙ aggregate_loop-dealt ctx (plus q p) ps ss (proofs ++ s.decomp_pi ∷ []) dealt.1
      ∙ ap (λ l. ok (loop_state ctx (sum_poly (plus q p) ps) l))
          (append_assoc proofs (s.decomp_pi ∷ []) (map (λ s. s.decomp_pi) ss))

  -- The loop of `verify_aggregation` accepts the proofs of decomposition, and adds the secrets.
  pub sum_decomposition-dealt :
      (ctx : Context F G1 G2) (q : List F) (ps : List (List F)) (ss : List (Sharing F G1 G2))
      → AllDealt ctx ps ss
      → sum_decomposition ctx.h1 (map (λ s. s.decomp_pi) ss) (constant q • ctx.h1)
        ≡ some (constant (sum_poly q ps) • ctx.h1)
  unfolding sum_decomposition sum_poly
  sum_decomposition-dealt ctx q [] [] dealt = refl
  sum_decomposition-dealt ctx q [] (s ∷ ss) dealt = absurd dealt
  sum_decomposition-dealt ctx q (p ∷ ps) [] dealt = absurd dealt
  sum_decomposition-dealt ctx q (p ∷ ps) (s ∷ ss) dealt = rw dealt.0.pi_accepted (
      ap (sum_decomposition ctx.h1 (map (λ s. s.decomp_pi) ss)) (
        ap (λ u. constant q • ctx.h1 ⊞ u) dealt.0.gs_eq
        ∙ sym (sb.add-smul (constant q) (constant p) ctx.h1)
        ∙ ap (λ u. u • ctx.h1) (sym (constant-plus q p)))
      ∙ sum_decomposition-dealt ctx (plus q p) ps ss dealt.1)

  pub length-sum_poly :
      (ctx : Context F G1 G2) (q : List F) (ps : List (List F)) (ss : List (Sharing F G1 G2))
      → AllDealt ctx ps ss
      → length q ≤ ctx.config.num_faults + 1
      → length (sum_poly q ps) ≤ ctx.config.num_faults + 1
  unfolding sum_poly
  length-sum_poly ctx q [] [] dealt h = h
  length-sum_poly ctx q [] (s ∷ ss) dealt h = absurd dealt
  length-sum_poly ctx q (p ∷ ps) [] dealt h = absurd dealt
  length-sum_poly ctx q (p ∷ ps) (s ∷ ss) dealt h =
      length-sum_poly ctx (plus q p) ps ss dealt.1
        (length-plus q p (ctx.config.num_faults + 1) h (omega (arith, dealt.0.degree)))
