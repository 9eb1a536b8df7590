-- ===== src/Poly/Interpolation.antt =====
-- Lagrange interpolation at 0: the weights that include/pvss/PolyOps.hpp computes, at any distinct
-- points, recover the constant coefficient of a polynomial from its values.
use random_beacon.Prelude.{
  ℕ, zero, suc, ◌≤◌, ◌<◌, ◌≡◌, refl, sym, ap, ap₂, ◌∙◌, ◌≢◌, List, [], ◌∷◌, length, arith, ◌==◌,
  if◌then◌else◌, ==-suc,
}
use random_beacon.Algebra.Field.{
  Field, ◌⊕◌, ◌⊖◌, ◌⊗◌, add-zero, mul_left_comm, mul-zero, zero-mul, add-mul, mul-one, add_cancel,
  mul_cancel, sub-ne-zero, sub_self, sub-zero,
}
use random_beacon.Algebra.Range.{
  sum, prod, sum_congr, prod_congr, sum-add, mul-sum, prod-mul, prod-ne-zero, prod-eq-zero,
  sum-eq-zero,
}
use random_beacon.Poly.Spec.{
  eval, quotient, eval-quotient, length-quotient, rooted, eval-rooted, length-rooted,
}

module _ {F : Type 0} ⦃f : Field F⦄ where
  -- The points x(0), …, x(n - 1) are distinct.
  abbrev pub Distinct : ℕ → (ℕ → F) → Type 0
  Distinct n x = (i j : ℕ) → i < n → j < n → i ≢ j → x i ≢ x j

  -- The factor of x(m) in the weight of x(j).
  abbrev pub factor : (ℕ → F) → ℕ → ℕ → F
  factor x j m = if m == j then f.one else x m ⊗ f.inverse (x m ⊖ x j)

  unfoldable pub weight : ℕ → (ℕ → F) → ℕ → F
  weight n x j = prod n (factor x j)

  weight-zero :
      (n : ℕ) (x : ℕ → F)
      → weight (suc n) x 0 ≡ prod n (λ m. x (suc m) ⊗ f.inverse (x (suc m) ⊖ x 0))
  unfolding weight prod
  weight-zero n x = f.one-mul _ ∙ prod_congr n (λ m h. ground arith)

  weight-suc :
      (n : ℕ) (x : ℕ → F) (j : ℕ)
      → weight (suc n) x (suc j) ≡ (x 0 ⊗ f.inverse (x 0 ⊖ x (suc j))) ⊗ weight n (λ m. x (suc m)) j
  unfolding weight prod
  weight-suc n x j = ap₂ f.mul (ground arith) (prod_congr n (λ m h. rw (==-suc m j) refl))

  -- One term of the sum over the points but the first.
  tail_term :
      (x0 d w v r q : F)
      → d ≢ f.zero
      → v ⊕ d ⊗ q ≡ r
      → ((x0 ⊗ f.inverse d) ⊗ w) ⊗ v ⊕ x0 ⊗ (w ⊗ q) ≡ r ⊗ ((x0 ⊗ f.inverse d) ⊗ w)
  tail_term x0 d w v r q ne e =
      ap (λ u. ((x0 ⊗ f.inverse d) ⊗ w) ⊗ v ⊕ u)
        (sym (f.one-mul _) ∙ ap (λ u. u ⊗ (x0 ⊗ (w ⊗ q))) (sym (f.mul-inverse d ne)))
      ∙ (simp (add-mul, f.mul_assoc, f.mul_comm, mul_left_comm))
      ∙ ap (λ u. u ⊗ ((x0 ⊗ f.inverse d) ⊗ w)) e

  -- p(y) + (a - y) q(y) = p(a), for the quotient q of p by x - a.
  value_at_point :
      (a : F) (p : List F) (y : F) → eval p y ⊕ (a ⊖ y) ⊗ eval (quotient a p) y ≡ eval p a
  value_at_point a p y =
      let q = eval (quotient a p) y in
      add_cancel _ _ (y ⊗ q) (
        f.add_assoc _ _ _
        ∙ ap (λ u. eval p y ⊕ u) (sym (add-mul (a ⊖ y) y q) ∙ ap (λ u. u ⊗ q) (f.sub-add a y))
        ∙ eval-quotient a p y)

  -- The sum of the terms over the points but the first, when the interpolation at those is known.
  module _ (n : ℕ) (x : ℕ → F) (distinct : Distinct (suc n) x)
      (interpolates : (q : List F)
        → length q ≤ n
        → sum n (λ j. weight n (λ m. x (suc m)) j ⊗ eval q (x (suc j))) ≡ eval q f.zero) where
    abbrev tail_weight : ℕ → F
    tail_weight j = (x 0 ⊗ f.inverse (x 0 ⊖ x (suc j))) ⊗ weight n (λ m. x (suc m)) j

    tail_sum :
        (p : List F)
        → length p ≤ suc n
        → sum n (λ j. tail_weight j ⊗ eval p (x (suc j))) ⊕ x 0 ⊗ eval (quotient (x 0) p) f.zero
          ≡ eval p (x 0) ⊗ sum n tail_weight
    tail_sum p h =
        let q = quotient (x 0) p in
        ap (λ u. sum n (λ j. tail_weight j ⊗ eval p (x (suc j))) ⊕ x 0 ⊗ u)
          (sym (interpolates q (length-quotient (x 0) p n h)))
        ∙ ap (λ u. sum n (λ j. tail_weight j ⊗ eval p (x (suc j))) ⊕ u) (mul-sum n (x 0) _)
        ∙ sym (sum-add n _ _)
        ∙ sum_congr n (λ j hj.
          tail_term (x 0) (x 0 ⊖ x (suc j)) (weight n (λ m. x (suc m)) j) (eval p (x (suc j)))
            (eval p (x 0)) (eval q (x (suc j)))
            (sub-ne-zero _ _ (distinct 0 (suc j) (omega arith) (omega arith) (omega arith)))
            (value_at_point (x 0) p (x (suc j))))
        ∙ sym (mul-sum n (eval p (x 0)) tail_weight)

    -- p(0) + x(0) q(0) = p(x(0)).
    value_at_zero :
        (p : List F) → eval p f.zero ⊕ x 0 ⊗ eval (quotient (x 0) p) f.zero ≡ eval p (x 0)
    value_at_zero p =
        eval-quotient (x 0) p f.zero ∙ ap (λ u. eval p (x 0) ⊕ u) (zero-mul _) ∙ add-zero _

    abbrev vanishing : List F
    vanishing = rooted n (λ m. x (suc m))

    first_weight : weight (suc n) x 0 ⊗ eval vanishing (x 0) ≡ eval vanishing f.zero
    first_weight =
        ap₂ f.mul (weight-zero n x) (eval-rooted n _ (x 0))
        ∙ sym (prod-mul n _ _)
        ∙ prod_congr n (λ m h.
          undo (x (suc m)) (x (suc m) ⊖ x 0)
            (sub-ne-zero _ _ (distinct (suc m) 0 (omega arith) (omega arith) (omega arith))))
        ∙ sym (eval-rooted n _ f.zero ∙ prod_congr n (λ m h. sub-zero (x (suc m))))
      where
        undo : (a d : F) → d ≢ f.zero → (a ⊗ f.inverse d) ⊗ d ≡ a
        undo a d ne =
            f.mul_assoc a (f.inverse d) d
            ∙ ap (λ u. a ⊗ u) (f.mul_comm (f.inverse d) d ∙ f.mul-inverse d ne)
            ∙ mul-one a

    vanishing-ne-zero : eval vanishing (x 0) ≢ f.zero
    vanishing-ne-zero e =
        prod-ne-zero n (λ m. x (suc m) ⊖ x 0)
          (λ m h. sub-ne-zero _ _ (distinct (suc m) 0 (omega arith) (omega arith) (omega arith)))
          (sym (eval-rooted n _ (x 0)) ∙ e)

    vanishing-sum : sum n (λ j. tail_weight j ⊗ eval vanishing (x (suc j))) ≡ f.zero
    vanishing-sum = sum-eq-zero n _ (λ j h.
        ap (λ u. tail_weight j ⊗ u)
          (eval-rooted n _ (x (suc j)) ∙ prod-eq-zero n _ j h (sub_self (x (suc j))))
        ∙ mul-zero _)

    weights_sum : weight (suc n) x 0 ⊕ sum n tail_weight ≡ f.one
    weights_sum = mul_cancel (eval vanishing (x 0)) _ _ vanishing-ne-zero (
        f.mul-add _ _ _
        ∙ ap₂ f.add (f.mul_comm _ _ ∙ first_weight) (sym (tail_sum vanishing (length-rooted n _)))
        ∙ ap (λ u. eval vanishing f.zero ⊕ (u ⊕ x 0 ⊗ eval (quotient (x 0) vanishing) f.zero))
            vanishing-sum
        ∙ ap (λ u. eval vanishing f.zero ⊕ u) (f.zero-add _)
        ∙ value_at_zero vanishing
        ∙ sym (mul-one _))

    interpolates_suc :
        (p : List F)
        → length p ≤ suc n
        → weight (suc n) x 0 ⊗ eval p (x 0) ⊕ sum n (λ j. tail_weight j ⊗ eval p (x (suc j)))
          ≡ eval p f.zero
    interpolates_suc p h = add_cancel _ _ (x 0 ⊗ eval (quotient (x 0) p) f.zero) (
        f.add_assoc _ _ _
        ∙ ap (λ u. weight (suc n) x 0 ⊗ eval p (x 0) ⊕ u) (tail_sum p h)
        ∙ ap (λ u. u ⊕ eval p (x 0) ⊗ sum n tail_weight) (f.mul_comm _ _)
        ∙ sym (f.mul-add (eval p (x 0)) (weight (suc n) x 0) (sum n tail_weight))
        ∙ ap (λ u. eval p (x 0) ⊗ u) weights_sum
        ∙ mul-one _
        ∙ sym (value_at_zero p))

  -- From the values of a polynomial of at most n coefficients at n distinct points the weighted sum
  -- recovers its value at 0.
  pub interpolation :
      (n : ℕ) (x : ℕ → F)
      → Distinct n x
      → (p : List F) → length p ≤ n
      → sum n (λ j. weight n x j ⊗ eval p (x j)) ≡ eval p f.zero
  unfolding sum eval
  interpolation zero x distinct [] h = refl
  interpolation zero x distinct (c ∷ cs) h = absurd (omega arith)
  interpolation (suc n) x distinct p h =
      ap (λ u. weight (suc n) x 0 ⊗ eval p (x 0) ⊕ u)
        (sum_congr n (λ j hj. ap (λ u. u ⊗ eval p (x (suc j))) (weight-suc n x j)))
      ∙ interpolates_suc n x distinct
          (interpolation n (λ m. x (suc m))
            (λ i j hi hj ne.
              distinct (suc i) (suc j) (omega arith) (omega arith) (λ e. ne (omega arith))))
          p h
