-- ===== src/Poly/Defs.antt =====
-- include/pvss/PolyOps.hpp: polynomials over the scalars, their evaluation and the interpolations
-- at 0.
use random_beacon.Prelude.{
  ℕ, ◌+◌, ◌-◌, List, Result, ok, ◌==◌, ltb, if◌then◌else◌, length, at, size_add, for_range,
  insufficient_evaluations, ◌>>=◌, ◌>>◌, require, not,
}
use random_beacon.Algebra.Field.{Field, ◌⊕◌, ◌⊖◌, ◌⊗◌}
use random_beacon.Algebra.Group.{Group, Scalars, ◌⊞◌, ◌•◌}

-- 2x^3 + 3x^2 + 4x + 5 is [5, 4, 3, 2].
pub record Polynomial (F : Type 0) : Type 0 where
  pub coeffs : List F

module _ {F : Type 0} ⦃f : Field F⦄ where
  -- Horner's rule; the source's `i` is `k + 1` here.
  unfoldable pub evaluate : Polynomial F → F → Result F
  evaluate poly point =
      let degree = length poly.coeffs in
      for_range degree
        (λ k result. do c ← at poly.coeffs (degree - (k + 1)); ok (result ⊗ point ⊕ c)) f.zero

  unfoldable pub get_secret : Polynomial F → Result F
  get_secret poly = at poly.coeffs 0

  -- The inner loop over `m` of both interpolations, where `points.at(m)` may be out of range.
  unfoldable pub lagrange_prod : ℕ → (ℕ → Result F) → ℕ → F → Result F
  lagrange_prod degree points j xj =
      for_range (degree + 1)
        (λ m product.
          if m == j
          then ok product
          else (points m >>= λ xm. ok ((xm ⊗ f.inverse (xm ⊖ xj)) ⊗ product)))
        f.one

module _ {F G : Type 0} ⦃f : Field F⦄ ⦃g : Group G⦄ ⦃s : Scalars F G⦄ where
  -- The body that the two overloads share, over the way in which they find a point.
  unfoldable pub lagrange_at : ℕ → List G → (ℕ → Result F) → Result G
  unfolding lagrange_prod
  lagrange_at degree evals points = do
    require (not (ltb (length evals) (size_add degree 1))) insufficient_evaluations
    for_range (degree + 1)
        (λ j sum. do
          xj ← points j
          product ← lagrange_prod degree points j xj
          e ← at evals j
          ok (sum ⊞ product • e))
        g.zero

-- `Polynomial::lagrange_interpolation(degree, evaluations)`, at the points 1, 2, …
unfoldable pub lagrange_interpolation :
    (F : Type 0) {G : Type 0} ⦃f : Field F⦄ ⦃g : Group G⦄ ⦃s : Scalars F G⦄ → ℕ → List G → Result G
unfolding lagrange_at
lagrange_interpolation F ⦃f⦄ degree evaluations =
    lagrange_at degree evaluations (λ j. ok (f.of_long (j + 1)))

-- `lagrange_interpolation(degree, evals, points)`, the free function.
unfoldable pub lagrange_interpolation_at :
    {F G : Type 0} ⦃f : Field F⦄ ⦃g : Group G⦄ ⦃s : Scalars F G⦄ → ℕ → List G → List F → Result G
unfolding lagrange_at
lagrange_interpolation_at degree evals points = lagrange_at degree evals (λ j. at points j)
