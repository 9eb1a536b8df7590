-- ===== src/Poly/Loops.antt =====
-- The loops of include/pvss/PolyOps.hpp compute the values and the sums of Poly/Spec.
use random_beacon.Prelude.{
  ℕ, suc, ◌+◌, ◌-◌, ◌<◌, ◌^◌, ◌≡◌, refl, sym, ap, ap₂, ◌∙◌, List, [], ◌∷◌, length, arith, ◌==◌,
  if◌then◌else◌, Result, ok, ◌>>=◌, at, fold_range, for_range-ok, fold_range_congr, fold_range-suc,
  get_or, get_elem?-get_or, tabulate, get_elem?-tabulate, false, inl, inr, Bool-cases, ltb, le→ltb,
  size_add,
}
use random_beacon.Algebra.Field.{Field, ◌⊕◌, ◌⊖◌, ◌⊗◌}
use random_beacon.Algebra.Group.{Group, Scalars, ◌⊞◌, ◌•◌}
use random_beacon.Algebra.Range.{total, fold_range-prod, fold_range-total}
use random_beacon.Poly.Defs.{Polynomial, evaluate, get_secret, lagrange_prod, lagrange_at}
use random_beacon.Poly.Spec.{eval, constant}
use random_beacon.Poly.Interpolation.{factor, weight}

-- `at` inside the bounds.
pub at-ok {ℓ} :
    {A : Type ℓ} (xs : List A) (i : ℕ) (d : A) → i < length xs → at xs i ≡ ok (get_or xs i d)
at-ok xs i d h = rw (get_elem?-get_or xs i d h, at)

module _ {F : Type 0} ⦃f : Field F⦄ where
  -- One round of Horner's loop over coefficients that are there.
  abbrev horner : List F → F → ℕ → F → F
  horner p x k r = r ⊗ x ⊕ get_or p (length p - (k + 1)) f.zero

  horner_fold : (p : List F) (x : F) → fold_range (length p) (horner p x) f.zero ≡ eval p x
  unfolding fold_range eval
  horner_fold [] x = refl
  horner_fold (c ∷ cs) x =
      fold_range-suc (length cs) (horner (c ∷ cs) x) f.zero
      ∙ ap₂ (λ u v. u ⊗ x ⊕ v)
          (fold_range_congr (length cs) (horner (c ∷ cs) x) (horner cs x)
              (λ k h r. ap (λ v. r ⊗ x ⊕ v) (inner k h)) f.zero
            ∙ horner_fold cs x)
          last
      ∙ f.add_comm _ _
      ∙ ap (λ u. c ⊕ u) (f.mul_comm _ _)
    where
      inner :
          (k : ℕ)
          → k < length cs
          → get_or (c ∷ cs) (suc (length cs) - (k + 1)) f.zero
            ≡ get_or cs (length cs - (k + 1)) f.zero
      inner k h =
          let e : suc (length cs) - (k + 1) ≡ suc (length cs - (k + 1)) = omega arith in rw e

      last : get_or (c ∷ cs) (suc (length cs) - (length cs + 1)) f.zero ≡ c
      last = let e : suc (length cs) - (length cs + 1) ≡ 0 = omega arith in rw e

  -- Horner's loop returns the value of the polynomial at the point, for every list of coefficients.
  pub evaluate_lem : (p : Polynomial F) (x : F) → evaluate p x ≡ ok (eval p.coeffs x)
  unfolding evaluate
  evaluate_lem p x =
      for_range-ok (length p.coeffs) _ (horner p.coeffs x)
        (λ k h r. rw (at-ok p.coeffs (length p.coeffs - (k + 1)) f.zero (omega arith))) f.zero
      ∙ ap ok (horner_fold p.coeffs x)

  -- The inner loop of the interpolations computes the weight of the `j`-th point.
  pub lagrange_prod_lem :
      (degree : ℕ) (points : ℕ → Result F) (x : ℕ → F) (j : ℕ)
      → ((m : ℕ) → m < degree + 1 → points m ≡ ok (x m))
      → lagrange_prod degree points j (x j) ≡ ok (weight (degree + 1) x j)
  unfolding lagrange_prod weight
  lagrange_prod_lem degree points x j h =
      for_range-ok (degree + 1) _ (λ m a. factor x j m ⊗ a) (λ m hm a. step m a (h m hm)) f.one
      ∙ ap ok (fold_range-prod (degree + 1) (factor x j) f.one ∙ f.one-mul _)
    where
      step :
          (m : ℕ) (a : F)
          → points m ≡ ok (x m)
          → (if m == j then ok a else (points m >>= λ xm. ok ((xm ⊗ f.inverse (xm ⊖ x j)) ⊗ a)))
            ≡ ok (factor x j m ⊗ a)
      step m a e = elim (Bool-cases (m == j)) [
        | inl same ↦ rw same (ap ok (sym (f.one-mul a)))
        | inr other ↦ rw (other, e)
      ]

module _ {F G : Type 0} ⦃f : Field F⦄ ⦃g : Group G⦄ ⦃s : Scalars F G⦄ where
  -- With enough evaluations, and points that are there, the interpolation is the weighted sum.
  pub lagrange_at_lem :
      (degree : ℕ) (evals : List G) (points : ℕ → Result F) (x : ℕ → F)
      → degree + 1 < 2 ^ 64
      → degree < length evals
      → ((m : ℕ) → m < degree + 1 → points m ≡ ok (x m))
      → lagrange_at degree evals points
        ≡ ok (total (degree + 1) (λ j. weight (degree + 1) x j • get_or evals j g.zero))
  unfolding lagrange_at
  lagrange_at_lem degree evals points x small enough h =
      let fits : ltb (length evals) (size_add degree 1) ≡ false =
        le→ltb (length evals) (size_add degree 1) (omega arith) in
      rw fits (
        for_range-ok (degree + 1) _ (λ j a. a ⊞ weight (degree + 1) x j • get_or evals j g.zero)
          (λ j hj a.
            rw (h j hj, lagrange_prod_lem degree points x j h, at-ok evals j g.zero (omega arith)))
          g.zero
        ∙ ap ok (fold_range-total (degree + 1) _ g.zero ∙ g.zero-add _))

pub at-tabulate {ℓ} :
    {A : Type ℓ} (n : ℕ) (t : ℕ → A) (i : ℕ) → i < n → at (tabulate n t) i ≡ ok (t i)
at-tabulate n t i h = rw (get_elem?-tabulate n t i h, at)

pub at-zero : {F : Type 0} ⦃f : Field F⦄ (p : List F) → 0 < length p → at p 0 ≡ ok (constant p)
unfolding constant
at-zero [] h = absurd (omega arith)
at-zero (c ∷ cs) h = refl

-- The first coefficient, where there is one.
pub get_secret_lem :
    {F : Type 0} ⦃f : Field F⦄ (p : List F)
    → 0 < length p
    → get_secret (record { coeffs = p }) ≡ ok (constant p)
unfolding get_secret constant
get_secret_lem [] h = absurd (omega arith)
get_secret_lem (c ∷ cs) h = refl
