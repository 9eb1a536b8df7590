-- ===== src/Poly/Converse.antt =====
-- The converse of the identity behind `ensure_degree` of include/pvss/PolyOps.hpp.
use random_beacon.Prelude.{
  ℕ, zero, suc, ◌+◌, ◌-◌, ◌≤◌, ◌<◌, ◌≡◌, ◌≢◌, refl, sym, ap, ◌∙◌, List, [], ◌∷◌, length, ltb, true,
  false, inl, inr, ◌⊎◌, subst, Bool-cases, ◌==◌, ==_iff, arith,
}
use random_beacon.Algebra.Field.{
  Field, ◌⊕◌, ◌⊖◌, ◌⊗◌, mul-zero, zero-mul, sub_self, add_cancel, mul_cancel, mul-ne-zero,
  sub-ne-zero,
}
use random_beacon.Algebra.Range.{sum, prod, sum_congr, prod-ne-zero, prod-eq-zero}
use random_beacon.Poly.Spec.{
  eval, times, eval-times, length-times, rooted, eval-rooted, length-rooted,
}
use random_beacon.Poly.Interpolation.{Distinct}
use random_beacon.Poly.Dual.{dual_factor, dual_code}

module _ {F : Type 0} ⦃f : Field F⦄ where
  -- Sums that agree but for one term agree in that term.
  sum-term :
      (n : ℕ) (t u : ℕ → F) (m : ℕ)
      → m < n
      → ((i : ℕ) → i < n → i ≢ m → t i ≡ u i)
      → sum n t ≡ sum n u
      → t m ≡ u m
  unfolding sum
  sum-term zero t u m h same e = absurd (omega arith)
  sum-term (suc n) t u zero h same e =
      let rest : sum n (λ i. t (suc i)) ≡ sum n (λ i. u (suc i)) =
        sum_congr n (λ i less. same (suc i) (omega arith) (λ q. omega arith)) in
      add_cancel (t 0) (u 0) (sum n (λ i. u (suc i))) (ap (λ r. t 0 ⊕ r) (sym rest) ∙ e)
  sum-term (suc n) t u (suc m) h same e =
      sum-term n (λ i. t (suc i)) (λ i. u (suc i)) m (omega arith)
        (λ i less other. same (suc i) (omega arith) (λ q. other (omega arith)))
        (add_cancel _ _ (u 0) (
          f.add_comm _ _
          ∙ ap (λ r. r ⊕ sum n (λ i. t (suc i))) (sym (same 0 (omega arith) (λ q. omega arith)))
          ∙ e
          ∙ f.add_comm _ _))

  inverse-ne-zero : (a : F) → a ≢ f.zero → f.inverse a ≢ f.zero
  inverse-ne-zero a ne e = f.one-ne-zero (sym (f.mul-inverse a ne) ∙ ap (λ r. a ⊗ r) e ∙ mul-zero a)

  dual-ne-zero :
      (n : ℕ) (x : ℕ → F) (i : ℕ) → Distinct n x → i < n → prod n (dual_factor x i) ≢ f.zero
  dual-ne-zero n x i distinct inside = prod-ne-zero n (dual_factor x i) (λ j less.
      elim (Bool-cases (i == j)) [
        | inl same ↦ rw same f.one-ne-zero
        | inr other ↦ rw other (
            inverse-ne-zero _
              (sub-ne-zero _ _ (distinct i j inside less (λ q. cc (other, (==_iff i j).1 q)))))
      ])

  nonempty : (q : List F) (y : F) → eval q y ≢ f.zero → 0 < length q
  unfolding eval
  nonempty [] y ne = absurd (ne refl)
  nonempty (c ∷ q) y ne = omega arith

  -- A polynomial that vanishes at the points after the m-th of n.
  abbrev pub later_rooted : ℕ → (ℕ → F) → ℕ → List F
  later_rooted n x m = rooted (n - suc m) (λ k. x (suc m + k))

  pub length-later_rooted :
      (n : ℕ) (x : ℕ → F) (m d : ℕ) → d < m → m < n → d + length (later_rooted n x m) < n
  length-later_rooted n x m d above inside =
      omega (arith, length-rooted (n - suc m) (λ k. x (suc m + k)))

  -- The values at distinct points that are not 0 are those of a polynomial of d + 1 coefficients
  -- through the first of them, if the polynomials that vanish at the points after one of the others
  -- have no component along them.
  module _ (n d : ℕ) (x v : ℕ → F) (p : List F) (distinct : Distinct n x)
      (nonzero : (i : ℕ) → i < n → x i ≢ f.zero) (short : length p ≤ suc d)
      (through : (i : ℕ) → i ≤ d → eval p (x i) ≡ v i)
      (orthogonal : (m : ℕ)
        → d < m
        → m < n
        → sum n (λ i. (eval (later_rooted n x m) (x i) ⊗ prod n (dual_factor x i)) ⊗ v i)
          ≡ f.zero) where
    own_sum :
        (q : List F)
        → 0 < length q
        → d + length q < n
        → sum n (λ i. (eval q (x i) ⊗ prod n (dual_factor x i)) ⊗ eval p (x i)) ≡ f.zero
    own_sum q some_coeffs fits =
        sum_congr n (λ i less.
          f.mul_comm _ _
          ∙ sym (f.mul_assoc _ _ _)
          ∙ ap (λ u. u ⊗ prod n (dual_factor x i)) (sym (eval-times p q (x i))))
        ∙ dual_code n x (times p q) distinct nonzero
            (omega (arith, length-times p q d some_coeffs short))

    -- If the values below m are those of the polynomial, so is that at m.
    next_value :
        (m : ℕ) → d < m → m < n → ((i : ℕ) → i < m → v i ≡ eval p (x i)) → v m ≡ eval p (x m)
    next_value m above inside before =
        mul_cancel (eval q (x m) ⊗ prod n (dual_factor x m)) (v m) (eval p (x m))
          (mul-ne-zero _ _ apart (dual-ne-zero n x m distinct inside))
          (sum-term n (λ i. (eval q (x i) ⊗ prod n (dual_factor x i)) ⊗ v i)
            (λ i. (eval q (x i) ⊗ prod n (dual_factor x i)) ⊗ eval p (x i)) m inside
            (λ i less other. elsewhere i less other (Bool-cases (ltb i m)))
            (orthogonal m above inside ∙ sym (own_sum q some_coeffs fits)))
      where
        -- It vanishes at the points after m.
        q : List F
        q = later_rooted n x m

        eval-q : (y : F) → eval q y ≡ prod (n - suc m) (λ k. x (suc m + k) ⊖ y)
        eval-q y = eval-rooted (n - suc m) (λ k. x (suc m + k)) y

        apart : eval q (x m) ≢ f.zero
        apart e =
            prod-ne-zero (n - suc m) (λ k. x (suc m + k) ⊖ x m)
              (λ k less.
                sub-ne-zero _ _ (distinct (suc m + k) m (omega arith) inside (λ same. omega arith)))
              (sym (eval-q (x m)) ∙ e)

        some_coeffs : 0 < length q
        some_coeffs = nonempty q (x m) apart

        fits : d + length q < n
        fits = length-later_rooted n x m d above inside

        elsewhere :
            (i : ℕ)
            → i < n
            → i ≢ m
            → ((ltb i m) ≡ true) ⊎ ((ltb i m) ≡ false)
            → (eval q (x i) ⊗ prod n (dual_factor x i)) ⊗ v i
              ≡ (eval q (x i) ⊗ prod n (dual_factor x i)) ⊗ eval p (x i)
        elsewhere i less other (inl e) =
            let below : i < m = ground arith in
            ap (λ u. (eval q (x i) ⊗ prod n (dual_factor x i)) ⊗ u) (before i below)
        elsewhere i less other (inr e) =
            let after_m : m < i = ground arith in
            let index : suc m + (i - suc m) ≡ i = omega arith in
            let gone : eval q (x i) ≡ f.zero =
              eval-q (x i)
              ∙ prod-eq-zero (n - suc m) (λ k. x (suc m + k) ⊖ x i) (i - suc m) (omega arith)
                  (ap (λ k. x k ⊖ x i) index ∙ sub_self (x i)) in
            rw gone (rw (zero-mul (prod n (dual_factor x i))) (zero-mul _ ∙ sym (zero-mul _)))

    pub all_values : (m : ℕ) → m ≤ n → (i : ℕ) → i < m → v i ≡ eval p (x i)
    all_values zero room i less = absurd (omega arith)
    all_values (suc m) room i less = elim (Bool-cases (i == m)) [
      | inr other ↦ all_values m (omega arith) i (ground arith)
      | inl same ↦ elim (Bool-cases (ltb d m)) [
        | inl above ↦
            subst (λ k. v k ≡ eval p (x k)) (sym ((==_iff i m).0 same))
              (next_value m (ground arith) (omega arith) (all_values m (omega arith)))
        | inr low ↦ sym (through i (ground arith))
      ]
    ]
