-- ===== src/Poly/Accepts.antt =====
-- `ensure_degree` of include/pvss/PolyOps.hpp on every size: it accepts the shares of a polynomial
-- of the degree, refuses too few, and stops by an exception in between.
use random_beacon.Prelude.{
  ℕ, suc, ◌+◌, ◌-◌, ◌≤◌, ◌<◌, ◌^◌, ◌≡◌, refl, sym, ap, ◌∙◌, List, length, arith, ◌==◌,
  if◌then◌else◌, ok, err, length_error, get_or, tabulate, length-tabulate, true, false, Bool-cases,
  inl, inr, le→ltb, lt→ltb, for_range-ok, size_sub,
}
use random_beacon.Random.{Supply, after, draws-ok, random_element}
use random_beacon.Algebra.Field.{Field, ◌⊖◌, ◌⊗◌}
use random_beacon.Algebra.Group.{Group, Scalars, ◌⊞◌, ◌•◌}
use random_beacon.Algebra.Range.{
  prod, total, sum_congr, total_congr, total-smul, fold_range-prod, fold_range-total,
}
use random_beacon.Poly.Defs.{Polynomial}
use random_beacon.Poly.Check.{random_polynomial, perp_factor, dual_sum, ensure_degree}
use random_beacon.Poly.Spec.{eval, times, eval-times, length-times}
use random_beacon.Poly.Loops.{evaluate_lem, at-ok}
use random_beacon.Poly.Dual.{dual_factor, dual_code}
use random_beacon.Poly.Recover.{Shares, of_long-Distinct, of_long-ne-zero}

module _ {F : Type 0} ⦃f : Field F⦄ where
  -- The scalars 1, 2, … at which shares are dealt.
  abbrev pub share_point : ℕ → F
  share_point j = f.of_long (j + 1)

  -- A random polynomial of degree d takes its d + 1 coefficients from the supply, in order.
  pub random_polynomial_lem :
      (degree : ℕ) (supply : Supply F)
      → degree < f.max_size
      → random_polynomial degree supply
        ≡ ok (record { coeffs = tabulate (degree + 1) supply }, after (degree + 1) supply)
  unfolding random_polynomial
  random_polynomial_lem degree supply h = rw (
    le→ltb f.max_size (degree + 1) (omega arith),
    draws-ok (degree + 1) (λ i. random_element) (λ i a. a) (λ i p s. refl) supply,
  )

  perp_factor_lem :
      (num i : ℕ) (c : F) → perp_factor num i c ≡ ok (c ⊗ prod num (dual_factor share_point i))
  unfolding perp_factor
  perp_factor_lem num i c =
      for_range-ok num _ (λ j a. dual_factor share_point i j ⊗ a) (λ j h a. ap ok (step j a)) c
      ∙ ap ok (fold_range-prod num (dual_factor share_point i) c)
    where
      step :
          (j : ℕ) (a : F)
          → (if i == j then a else a ⊗ f.inverse (share_point i ⊖ share_point j))
            ≡ dual_factor share_point i j ⊗ a
      step j a = elim (Bool-cases (i == j)) [
        | inl same ↦ rw same (sym (f.one-mul a))
        | inr other ↦ rw other (f.mul_comm _ _)
      ]

module _ {F G : Type 0} ⦃f : Field F⦄ ⦃g : Group G⦄ ⦃s : Scalars F G⦄ where
  pub dual_sum_lem :
      (poly : Polynomial F) (evals : List G)
      → dual_sum poly evals
        ≡ ok (
            total (length evals) (λ i.
              (eval poly.coeffs (share_point i) ⊗ prod (length evals) (dual_factor share_point i))
              • get_or evals i g.zero))
  unfolding dual_sum
  dual_sum_lem poly evals =
      for_range-ok (length evals) _
        (λ i a.
          a
          ⊞ (eval poly.coeffs (share_point i) ⊗ prod (length evals) (dual_factor share_point i))
            • get_or evals i g.zero)
        (λ i h a. rw (
          evaluate_lem poly (share_point i),
          perp_factor_lem (length evals) i (eval poly.coeffs (share_point i)),
          at-ok evals i g.zero h,
        ))
        g.zero
      ∙ ap ok (fold_range-total (length evals) _ g.zero ∙ g.zero-add _)

  -- The test's sum vanishes on the shares of a polynomial whose product with the random one has
  -- fewer coefficients than there are shares.
  pub dual_sum-Shares :
      (poly : Polynomial F) (evals : List G) (p : List F) (base : G) (d : ℕ)
      → length evals < f.order
      → 0 < length poly.coeffs
      → length p ≤ suc d
      → d + length poly.coeffs < length evals
      → Shares (length evals) evals share_point p base
      → dual_sum poly evals ≡ ok g.zero
  dual_sum-Shares poly evals p base d order some_coeffs short fits shares =
      let num = length evals in
      dual_sum_lem poly evals
      ∙ ap ok (
          total_congr num (λ i h.
            ap (λ u. (eval poly.coeffs (share_point i) ⊗ prod num (dual_factor share_point i)) • u)
              (shares i h)
            ∙ sym (s.mul-smul _ (eval p (share_point i)) base))
          ∙ total-smul {F = F} num
              (λ i.
                (eval poly.coeffs (share_point i) ⊗ prod num (dual_factor share_point i))
                ⊗ eval p (share_point i))
              base
          ∙ ap (λ u. s.smul u base)
              (sum_congr num (λ i h. regroup i)
                ∙ dual_code num share_point (times p poly.coeffs) (of_long-Distinct num order)
                    (λ i h. of_long-ne-zero i (omega arith))
                    (omega (arith, length-times p poly.coeffs d some_coeffs short)))
          ∙ s.zero-smul base)
    where
      regroup :
          (i : ℕ)
          → (eval poly.coeffs (share_point i) ⊗ prod (length evals) (dual_factor share_point i))
              ⊗ eval p (share_point i)
            ≡ eval (times p poly.coeffs) (share_point i)
              ⊗ prod (length evals) (dual_factor share_point i)
      regroup i =
          f.mul_comm _ _
          ∙ sym (f.mul_assoc _ _ _)
          ∙ ap (λ u. u ⊗ prod (length evals) (dual_factor share_point i))
              (sym (eval-times p poly.coeffs (share_point i)))

  -- `ensure_degree` accepts, whatever it draws, the shares at 1, …, n of a polynomial of at most
  -- the degree, when n is at least degree + 2, a vector can hold n elements and there are more than
  -- n scalars; it draws n - degree - 1 scalars.
  pub ensure_degree-accepts :
      (evals : List G) (degree : ℕ) (p : List F) (base : G) (supply : Supply F)
      → degree + 2 ≤ length evals
      → length evals < f.order
      → length evals ≤ f.max_size
      → length p ≤ suc degree
      → Shares (length evals) evals share_point p base
      → ensure_degree F evals degree supply
        ≡ ok (true, after (length evals - degree - 2 + 1) supply)
  unfolding ensure_degree
  ensure_degree-accepts evals degree p base supply enough order room short shares =
      let num = length evals in
      let wide : size_sub (num - degree) 2 ≡ num - degree - 2 = omega (arith, f.max_size_lt) in
      let poly : Polynomial F = record { coeffs = tabulate (num - degree - 2 + 1) supply } in
      let coeffs : length poly.coeffs ≡ num - degree - 2 + 1 = length-tabulate _ supply in
      rw (
        le→ltb num degree (omega arith),
        wide,
        random_polynomial_lem (num - degree - 2) supply (omega arith),
        dual_sum-Shares poly evals p base degree order (omega (arith, coeffs)) short
            (omega (arith, coeffs)) shares,
        (g.beq_iff g.zero g.zero).1 refl,
      )

  -- Fewer evaluations than the degree are refused, and nothing is drawn.
  pub ensure_degree-few :
      (evals : List G) (degree : ℕ) (supply : Supply F)
      → length evals < degree
      → ensure_degree F evals degree supply ≡ ok (false, supply)
  unfolding ensure_degree
  ensure_degree-few evals degree supply h = rw (lt→ltb (length evals) degree h)

  -- With as many evaluations as the degree, or one more, the count of random coefficients wraps
  -- around, and the call ends in an exception.
  pub ensure_degree-throws :
      (evals : List G) (degree : ℕ) (supply : Supply F)
      → degree ≤ length evals
      → length evals < degree + 2
      → ensure_degree F evals degree supply ≡ err length_error
  unfolding ensure_degree random_polynomial
  ensure_degree-throws evals degree supply enough few =
      let wraps : 2 ^ 64 - 2 ≤ size_sub (length evals - degree) 2 = omega arith in
      rw (
        le→ltb (length evals) degree enough,
        lt→ltb f.max_size (size_sub (length evals - degree) 2 + 1) (omega (arith, f.max_size_lt)),
      )
