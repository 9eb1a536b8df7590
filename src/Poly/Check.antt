-- ===== src/Poly/Check.antt =====
-- include/pvss/PolyOps.hpp: random polynomials, and `ensure_degree`, the coding check.
use random_beacon.Prelude.{
  ℕ, suc, ◌+◌, ◌-◌, List, Bool, true, false, Result, ok, err, ◌==◌, ltb, if◌then◌else◌, length, at,
  size_sub, for_range, length_error,
}
use random_beacon.Prelude
use random_beacon.Random.{Rand, random_element, ◌>>=◌, pure, raise, lift, draws}
use random_beacon.Algebra.Field.{Field, ◌⊖◌, ◌⊗◌}
use random_beacon.Algebra.Group.{Group, Scalars, ◌⊞◌, ◌•◌}
use random_beacon.Poly.Defs.{Polynomial, evaluate}

module _ {F : Type 0} ⦃f : Field F⦄ where
  -- `Polynomial::Random`. The loop runs while `i <= degree`, and pushing more scalars than a vector
  -- holds throws; at the greatest `size_t` the loop has no other end.
  unfoldable pub random_polynomial : ℕ → Rand F (Polynomial F)
  random_polynomial degree =
      if ltb f.max_size (degree + 1)
      then raise length_error
      else do poly ← draws (degree + 1) (λ i. random_element); pure (record { coeffs = poly })

  -- The inner loop over `j` of `ensure_degree`; indices count from 0, scalars from 1.
  unfoldable pub perp_factor : ℕ → ℕ → F → Result F
  perp_factor num i cperp =
      for_range num
        (λ j c. ok (if i == j then c else c ⊗ f.inverse (f.of_long (i + 1) ⊖ f.of_long (j + 1))))
        cperp

module _ {F G : Type 0} ⦃f : Field F⦄ ⦃g : Group G⦄ ⦃s : Scalars F G⦄ where
  -- The loop over `i` of `ensure_degree`.
  unfoldable pub dual_sum : Polynomial F → List G → Result G
  unfolding perp_factor
  dual_sum poly evaluations =
      for_range (length evaluations)
        (λ i v. Prelude.◌>>=◌ (evaluate poly (f.of_long (i + 1))) λ value.
          Prelude.◌>>=◌ (perp_factor (length evaluations) i value)
            λ cperp. Prelude.◌>>=◌ (at evaluations i) λ e. ok (v ⊞ cperp • e))
        g.zero

-- `num - degree - 2` is computed in `size_t`.
unfoldable pub ensure_degree :
    (F : Type 0) {G : Type 0} ⦃f : Field F⦄ ⦃g : Group G⦄ ⦃s : Scalars F G⦄
    → List G
    → ℕ
    → Rand F Bool
unfolding random_polynomial dual_sum
ensure_degree F {G} ⦃g⦄ evaluations degree =
    let num = length evaluations in
    let checked : Rand F Bool = do
      poly ← random_polynomial (size_sub (num - degree) 2)
      v ← lift (dual_sum poly evaluations)
      pure (g.beq v g.zero)
    in if ltb num degree then pure false else checked
