-- ===== src/Poly/Recover.antt =====
-- The interpolations of include/pvss/PolyOps.hpp recover a shared secret from evaluations in the
-- exponent.
use random_beacon.Prelude.{
  ℕ, ◌+◌, ◌≤◌, ◌<◌, ◌^◌, ◌≡◌, refl, sym, ap, ◌∙◌, ◌≢◌, List, length, arith, Result, ok, err, get_or,
  at, lt→ltb, insufficient_evaluations, size_add,
}
use random_beacon.Algebra.Field.{Field, ◌⊗◌}
use random_beacon.Algebra.Group.{Group, Scalars, ◌•◌}
use random_beacon.Algebra.Range.{total_congr, total-smul}
use random_beacon.Poly.Defs.{lagrange_at, lagrange_interpolation, lagrange_interpolation_at}
use random_beacon.Poly.Spec.{eval, constant, eval-zero}
use random_beacon.Poly.Interpolation.{Distinct, weight, interpolation}
use random_beacon.Poly.Loops.{lagrange_at_lem, at-ok}

module _ {F G : Type 0} ⦃f : Field F⦄ ⦃g : Group G⦄ ⦃s : Scalars F G⦄ where
  -- The list holds, at `j` for `j < n`, the multiple of `base` by the value of `p` at `x j`.
  abbrev pub Shares : ℕ → List G → (ℕ → F) → List F → G → Type 0
  Shares n evals x p base = (j : ℕ) → j < n → get_or evals j g.zero ≡ eval p (x j) • base

  pub lagrange_at-recovers :
      (degree : ℕ) (evals : List G) (points : ℕ → Result F) (x : ℕ → F) (p : List F) (base : G)
      → degree + 1 < 2 ^ 64
      → degree < length evals
      → length p ≤ degree + 1
      → ((m : ℕ) → m < degree + 1 → points m ≡ ok (x m))
      → Distinct (degree + 1) x
      → Shares (degree + 1) evals x p base
      → lagrange_at degree evals points ≡ ok (constant p • base)
  lagrange_at-recovers degree evals points x p base small enough short found distinct shares =
      lagrange_at_lem degree evals points x small enough found
      ∙ ap ok (
          total_congr (degree + 1) (λ j h.
            ap (λ u. weight (degree + 1) x j • u) (shares j h)
            ∙ sym (s.mul-smul (weight (degree + 1) x j) (eval p (x j)) base))
          ∙ total-smul {F = F} (degree + 1) (λ j. weight (degree + 1) x j ⊗ eval p (x j)) base
          ∙ ap (λ u. s.smul u base) (interpolation (degree + 1) x distinct p short ∙ eval-zero p))

-- The points 1, 2, …, n are distinct, and none is 0, while n is below the order of the field.
module _ {F : Type 0} ⦃f : Field F⦄ where
  pub of_long-Distinct : (n : ℕ) → n < f.order → Distinct n (λ j. f.of_long (j + 1))
  of_long-Distinct n h i j hi hj ne e =
      ne (omega (arith, f.of_long_injective (i + 1) (j + 1) (omega arith) (omega arith) e))

  pub of_long-ne-zero : (i : ℕ) → i + 1 < f.order → f.of_long (i + 1) ≢ f.zero
  of_long-ne-zero i h e = absurd (
      omega
        (arith, f.of_long_injective (i + 1) 0 (omega arith) (omega arith) (e ∙ sym f.of_long-zero)))

module _ {F G : Type 0} ⦃f : Field F⦄ ⦃g : Group G⦄ ⦃s : Scalars F G⦄ where
  -- `Polynomial::lagrange_interpolation` at the points 1, 2, …, degree + 1 returns the multiple of
  -- the base by the constant coefficient, when the evaluations are those of a polynomial of at most
  -- that degree and the field has more scalars than there are points.
  pub lagrange_interpolation-recovers :
      (degree : ℕ) (evals : List G) (p : List F) (base : G)
      → degree + 1 < 2 ^ 64
      → degree + 1 < f.order
      → degree < length evals
      → length p ≤ degree + 1
      → Shares (degree + 1) evals (λ j. f.of_long (j + 1)) p base
      → lagrange_interpolation F degree evals ≡ ok (constant p • base)
  unfolding lagrange_interpolation
  lagrange_interpolation-recovers degree evals p base small order enough short shares =
      lagrange_at-recovers degree evals _ (λ j. f.of_long (j + 1)) p base small enough short
        (λ m h. refl) (of_long-Distinct (degree + 1) order) shares

  -- The free function `lagrange_interpolation` does so at any distinct points that are given.
  pub lagrange_interpolation_at-recovers :
      (degree : ℕ) (evals : List G) (points p : List F) (base : G)
      → degree + 1 < 2 ^ 64
      → degree < length evals
      → degree < length points
      → length p ≤ degree + 1
      → Distinct (degree + 1) (λ j. get_or points j f.zero)
      → Shares (degree + 1) evals (λ j. get_or points j f.zero) p base
      → lagrange_interpolation_at degree evals points ≡ ok (constant p • base)
  unfolding lagrange_interpolation_at
  lagrange_interpolation_at-recovers degree evals points p base small enough there short =
      lagrange_at-recovers degree evals (λ j. at points j) (λ j. get_or points j f.zero) p base
        small enough short (λ m h. at-ok points m f.zero (omega arith))

  -- Too few evaluations are refused by the exception, and nothing is computed.
  pub lagrange_at-insufficient :
      (degree : ℕ) (evals : List G) (points : ℕ → Result F)
      → degree + 1 < 2 ^ 64
      → length evals ≤ degree
      → lagrange_at degree evals points ≡ err insufficient_evaluations
  unfolding lagrange_at
  lagrange_at-insufficient degree evals points small few =
      rw (lt→ltb (length evals) (size_add degree 1) (omega arith))
