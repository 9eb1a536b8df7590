-- ===== src/Poly/Through.antt =====
-- A polynomial through given points. Nothing here is code of the program.
use random_beacon.Prelude.{
  ℕ, zero, suc, ◌≤◌, ◌<◌, ◌≡◌, ◌≢◌, sym, ap, ◌∙◌, List, [], length, true, false, inl, inr, ◌⊎◌,
  subst, Bool-cases, ◌==◌, ==_iff, arith,
}
use random_beacon.Algebra.Field.{Field, ◌⊕◌, ◌⊖◌, ◌⊗◌, add-zero, mul-zero, sub_self, sub-ne-zero}
use random_beacon.Algebra.Range.{prod, prod-ne-zero, prod-eq-zero}
use random_beacon.Poly.Spec.{
  eval, plus, scale, eval-plus, eval-scale, length-plus, length-scale, rooted, eval-rooted,
  length-rooted,
}
use random_beacon.Poly.Ambiguous.{div_mul}
use random_beacon.Poly.Interpolation.{Distinct}

module _ {F : Type 0} ⦃f : Field F⦄ where
  -- A polynomial through n points is moved to go through one more.
  module _ (n : ℕ) (x v : ℕ → F) (p : List F) where
    abbrev slope : F
    slope = (v n ⊖ eval p (x n)) ⊗ f.inverse (eval (rooted n x) (x n))

    abbrev extended : List F
    extended = plus p (scale slope (rooted n x))

    eval-extended : (y : F) → eval extended y ≡ eval p y ⊕ slope ⊗ prod n (λ k. x k ⊖ y)
    eval-extended y =
        eval-plus p (scale slope (rooted n x)) y
        ∙ ap (λ r. eval p y ⊕ r)
            (eval-scale slope (rooted n x) y ∙ ap (λ r. slope ⊗ r) (eval-rooted n x y))

    extended-old : (i : ℕ) → i < n → eval extended (x i) ≡ eval p (x i)
    extended-old i less =
        eval-extended (x i)
        ∙ ap (λ r. eval p (x i) ⊕ slope ⊗ r)
            (prod-eq-zero n (λ k. x k ⊖ x i) i less (sub_self (x i)))
        ∙ ap (λ r. eval p (x i) ⊕ r) (mul-zero slope)
        ∙ add-zero (eval p (x i))

    extended-new : Distinct (suc n) x → eval extended (x n) ≡ v n
    extended-new distinct =
        eval-extended (x n)
        ∙ ap (λ r. eval p (x n) ⊕ slope ⊗ r) (sym (eval-rooted n x (x n)))
        ∙ ap (λ r. eval p (x n) ⊕ r) (div_mul _ _ nonzero)
        ∙ f.add_comm _ _
        ∙ f.sub-add (v n) (eval p (x n))
      where
        nonzero : eval (rooted n x) (x n) ≢ f.zero
        nonzero e =
            prod-ne-zero n (λ k. x k ⊖ x n)
              (λ k less.
                sub-ne-zero _ _ (distinct k n (omega arith) (omega arith) (λ q. omega arith)))
              (sym (eval-rooted n x (x n)) ∙ e)

  -- A polynomial of n coefficients through n points.
  pub interpolated :
      (n : ℕ) (x v : ℕ → F)
      → Distinct n x
      → (p : List F) × (length p ≤ n) × ((i : ℕ) → i < n → eval p (x i) ≡ v i)
  interpolated zero x v distinct = ([], omega arith, λ i less. absurd (omega arith))
  interpolated (suc n) x v distinct =
      let (p, short, through) =
        interpolated n x v (λ i j hi hj. distinct i j (omega arith) (omega arith)) in
      (
        extended n x v p,
        length-plus p _ (suc n) (omega arith)
            (omega (arith, length-scale (slope n x v p) (rooted n x), length-rooted n x)),
        λ i less. goes p i less (Bool-cases (i == n)) through,
      )
    where
      goes :
          (p : List F) (i : ℕ)
          → i < suc n
          → ((i == n) ≡ true) ⊎ ((i == n) ≡ false)
          → ((k : ℕ) → k < n → eval p (x k) ≡ v k)
          → eval (extended n x v p) (x i) ≡ v i
      goes p i less (inl e) through =
          subst (λ k. eval (extended n x v p) (x k) ≡ v k) (sym ((==_iff i n).0 e))
            (extended-new n x v p distinct)
      goes p i less (inr e) through =
          let below : i < n = ground arith in extended-old n x v p i below ∙ through i below
