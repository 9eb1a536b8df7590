-- ===== src/Poly/Dual.antt =====
-- The identity behind `ensure_degree` of include/pvss/PolyOps.hpp: at n distinct points that are
-- not 0, a polynomial of at most n - 1 coefficients has no component along the dual code.
use random_beacon.Prelude.{
  ℕ, zero, suc, ◌<◌, ◌≡◌, refl, sym, ap, ap₂, ◌∙◌, ◌≢◌, List, [], ◌∷◌, length, arith, ◌==◌,
  if◌then◌else◌, ==-suc, ==_comm, inl, inr, Bool-cases,
}
use random_beacon.Algebra.Field.{
  Field, ◌⊕◌, ◌⊖◌, ◌⊗◌, neg, neg-neg, add-neg, mul-neg, mul-one, mul-zero, zero-mul, mul_left_comm,
  mul_cancel, sub-eq-add-neg, add-zero,
}
use random_beacon.Algebra.Range.{sum, prod, sum_congr, prod_congr, mul-sum, prod-mul, prod-ne-zero}
use random_beacon.Poly.Spec.{eval, scale, eval-scale, length-scale}
use random_beacon.Poly.Interpolation.{Distinct, factor, weight, interpolation}

module _ {F : Type 0} ⦃f : Field F⦄ where
  -- The factor of x(j) in the dual coefficient of x(i).
  abbrev pub dual_factor : (ℕ → F) → ℕ → ℕ → F
  dual_factor x i j = if i == j then f.one else f.inverse (x i ⊖ x j)

  -- The polynomial p(-x).
  mirror : List F → List F
  mirror [] = []
  mirror (c ∷ cs) = c ∷ scale (neg f.one) (mirror cs)

  length-mirror : (p : List F) → length (mirror p) ≡ length p
  unfolding mirror
  length-mirror [] = refl
  length-mirror (c ∷ cs) = ap suc (length-scale _ (mirror cs) ∙ length-mirror cs)

  neg-mul_neg_one : (t w : F) → neg t ⊗ (neg f.one ⊗ w) ≡ t ⊗ w
  neg-mul_neg_one t w =
      sym (f.mul_assoc (neg t) (neg f.one) w)
      ∙ ap (λ u. u ⊗ w) (mul-neg (neg t) f.one ∙ ap neg (mul-one (neg t)) ∙ neg-neg t)

  eval-mirror : (p : List F) (t : F) → eval (mirror p) (neg t) ≡ eval p t
  unfolding mirror eval
  eval-mirror [] t = refl
  eval-mirror (c ∷ cs) t =
      ap (λ u. c ⊕ neg t ⊗ u) (eval-scale (neg f.one) (mirror cs) (neg t))
      ∙ ap (λ u. c ⊕ u) (neg-mul_neg_one t _)
      ∙ ap (λ u. c ⊕ t ⊗ u) (eval-mirror cs t)

  neg-sub-neg : (a b : F) → neg a ⊖ neg b ≡ b ⊖ a
  neg-sub-neg a b =
      sub-eq-add-neg (neg a) (neg b)
      ∙ ap (λ u. neg a ⊕ u) (neg-neg b)
      ∙ f.add_comm (neg a) b
      ∙ sym (sub-eq-add-neg b a)

  neg-ne-zero : (a : F) → a ≢ f.zero → neg a ≢ f.zero
  neg-ne-zero a ne e = ne (sym (add-zero a) ∙ ap (λ u. a ⊕ u) (sym e) ∙ add-neg a)

  -- A product without its `j`-th factor, times that factor.
  prod-skip :
      (n : ℕ) (t : ℕ → F) (j : ℕ)
      → j < n
      → prod n (λ m. if m == j then f.one else t m) ⊗ t j ≡ prod n t
  unfolding prod
  prod-skip zero t j h = absurd (omega arith)
  prod-skip (suc n) t zero h =
      ap (λ u. u ⊗ t 0) (f.one-mul _ ∙ prod_congr n (λ m p. ground arith)) ∙ f.mul_comm _ _
  prod-skip (suc n) t (suc j) h =
      ap (λ u. u ⊗ t (suc j))
        (ap₂ f.mul (ground arith) (prod_congr n (λ m p. rw (==-suc m j) refl)))
      ∙ f.mul_assoc (t 0) _ _
      ∙ ap (λ u. t 0 ⊗ u) (prod-skip n (λ m. t (suc m)) j (omega arith))

  -- The weight at the mirrored points, times the point, is the dual coefficient up to a factor that
  -- does not depend on the point.
  mirrored_weight :
      (n : ℕ) (x : ℕ → F) (j : ℕ)
      → j < n
      → weight n (λ m. neg (x m)) j ⊗ neg (x j) ≡ prod n (λ m. neg (x m)) ⊗ prod n (dual_factor x j)
  unfolding weight
  mirrored_weight n x j h =
      ap (λ u. u ⊗ neg (x j))
        (prod_congr n (λ m p. split m) ∙ prod-mul n _ (dual_factor x j) ∙ f.mul_comm _ _)
      ∙ f.mul_assoc _ _ _
      ∙ ap (λ u. prod n (dual_factor x j) ⊗ u) (prod-skip n (λ m. neg (x m)) j h)
      ∙ f.mul_comm _ _
    where
      split :
          (m : ℕ)
          → factor (λ k. neg (x k)) j m ≡ (if m == j then f.one else neg (x m)) ⊗ dual_factor x j m
      split m = elim (Bool-cases (m == j)) [
        | inl same ↦ rw (same, ==_comm j m, same) (sym (f.one-mul f.one))
        | inr other ↦
            rw (other, ==_comm j m, other)
              (ap (λ u. neg (x m) ⊗ f.inverse u) (neg-sub-neg (x m) (x j)))
      ]

  -- The test of `ensure_degree` sums to 0 for every polynomial of at most n - 1 coefficients.
  pub dual_code :
      (n : ℕ) (x : ℕ → F) (p : List F)
      → Distinct n x
      → ((i : ℕ) → i < n → x i ≢ f.zero)
      → length p < n
      → sum n (λ i. eval p (x i) ⊗ prod n (dual_factor x i)) ≡ f.zero
  dual_code n x p distinct nonzero short =
      mul_cancel (prod n (λ m. neg (x m))) _ _
        (prod-ne-zero n _ (λ m h. neg-ne-zero (x m) (nonzero m h)))
        (mul-sum n _ _
          ∙ sum_congr n (λ j h. term j h)
          ∙ interpolation n (λ m. neg (x m)) mirrored-Distinct (f.zero ∷ mirror p)
              (omega (arith, length-mirror p))
          ∙ at_zero
          ∙ sym (mul-zero _))
    where
      mirrored-Distinct : Distinct n (λ m. neg (x m))
      mirrored-Distinct i j hi hj ne e =
          distinct i j hi hj ne (sym (neg-neg (x i)) ∙ ap neg e ∙ neg-neg (x j))

      at_zero : eval (f.zero ∷ mirror p) f.zero ≡ f.zero
      at_zero = unfold eval in (f.zero-add _ ∙ zero-mul _)

      value : (t : F) → neg t ⊗ eval p t ≡ eval (f.zero ∷ mirror p) (neg t)
      value t = unfold eval in (ap (λ u. neg t ⊗ u) (sym (eval-mirror p t)) ∙ sym (f.zero-add _))

      term :
          (j : ℕ)
          → j < n
          → prod n (λ m. neg (x m)) ⊗ (eval p (x j) ⊗ prod n (dual_factor x j))
            ≡ weight n (λ m. neg (x m)) j ⊗ eval (f.zero ∷ mirror p) (neg (x j))
      term j h =
          mul_left_comm _ _ _
          ∙ ap (λ u. eval p (x j) ⊗ u) (sym (mirrored_weight n x j h))
          ∙ mul_left_comm _ _ _
          ∙ ap (λ u. weight n (λ m. neg (x m)) j ⊗ u) (f.mul_comm _ _ ∙ value (x j))
