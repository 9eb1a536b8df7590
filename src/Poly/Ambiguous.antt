-- ===== src/Poly/Ambiguous.antt =====
-- As many values as the degree of a polynomial say nothing about its constant coefficient.
use random_beacon.Prelude.{
  ℕ, zero, suc, ◌≤◌, ◌<◌, ◌≡◌, ◌≢◌, refl, sym, ap, ◌∙◌, List, [], ◌∷◌, length, arith, get_or,
  tabulate,
}
use random_beacon.Algebra.Field.{
  Field, ◌⊕◌, ◌⊖◌, ◌⊗◌, add-zero, mul-zero, mul-one, sub_self, sub-zero,
}
use random_beacon.Algebra.Range.{prod_congr, prod-ne-zero, prod-eq-zero}
use random_beacon.Poly.Spec.{
  eval, constant, eval-zero, plus, scale, eval-plus, eval-scale, length-plus, length-scale, rooted,
  eval-rooted, length-rooted,
}

module _ {F : Type 0} ⦃f : Field F⦄ where
  -- Coefficients that are 0 can be added to a polynomial.
  pub eval-padded :
      (p : List F) (m : ℕ) (y : F)
      → length p ≤ m
      → eval (tabulate m (λ i. get_or p i f.zero)) y ≡ eval p y
  unfolding eval
  eval-padded [] zero y h = refl
  eval-padded [] (suc m) y h = rw (eval-padded [] m y (omega arith)) (rw mul-zero (add-zero f.zero))
  eval-padded (c ∷ cs) zero y h = absurd (omega arith)
  eval-padded (c ∷ cs) (suc m) y h = ap (λ t. c ⊕ y ⊗ t) (eval-padded cs m y (omega arith))

  pub div_mul : (a b : F) → b ≢ f.zero → (a ⊗ f.inverse b) ⊗ b ≡ a
  div_mul a b ne =
      f.mul_assoc a (f.inverse b) b
      ∙ ap (λ t. a ⊗ t) (f.mul_comm (f.inverse b) b ∙ f.mul-inverse b ne)
      ∙ mul-one a

  module _ (n : ℕ) (x : ℕ → F) (p : List F) (s : F) where
    vanishing : List F
    vanishing = rooted n x

    abbrev multiple : F
    multiple = (s ⊖ constant p) ⊗ f.inverse (eval vanishing f.zero)

    -- A multiple of the polynomial that vanishes at the points moves the constant coefficient.
    moved : List F
    unfolding vanishing
    moved = plus p (scale multiple vanishing)

    eval-moved : (y : F) → eval moved y ≡ eval p y ⊕ multiple ⊗ eval vanishing y
    unfolding moved
    eval-moved y = eval-plus p _ y ∙ ap (λ t. eval p y ⊕ t) (eval-scale multiple vanishing y)

    moved-at : (i : ℕ) → i < n → eval moved (x i) ≡ eval p (x i)
    unfolding vanishing
    moved-at i h =
        eval-moved (x i)
        ∙ ap (λ t. eval p (x i) ⊕ multiple ⊗ t)
            (eval-rooted n x (x i) ∙ prod-eq-zero n (λ k. x k ⊖ x i) i h (sub_self (x i)))
        ∙ ap (λ t. eval p (x i) ⊕ t) (mul-zero _)
        ∙ add-zero _

    moved-zero : ((i : ℕ) → i < n → x i ≢ f.zero) → eval moved f.zero ≡ s
    unfolding vanishing
    moved-zero nonzero =
        eval-moved f.zero
        ∙ ap (λ t. eval p f.zero ⊕ t)
            (div_mul (s ⊖ constant p) (eval vanishing f.zero) vanishing-ne-zero)
        ∙ ap (λ t. t ⊕ (s ⊖ constant p)) (eval-zero p)
        ∙ f.add_comm _ _
        ∙ f.sub-add s (constant p)
      where
        vanishing-ne-zero : eval vanishing f.zero ≢ f.zero
        vanishing-ne-zero e =
            prod-ne-zero n x nonzero
              (sym (eval-rooted n x f.zero ∙ prod_congr n (λ i h. sub-zero (x i))) ∙ e)

    length-moved : (d : ℕ) → n ≤ d → length p ≤ suc d → length moved ≤ suc d
    unfolding moved vanishing
    length-moved d few short =
        length-plus p _ (suc d) short
          (omega (arith, length-rooted n x, length-scale multiple vanishing))

  -- For at most d points other than 0, a polynomial of d + 1 coefficients and any scalar, some
  -- d + 1 coefficients have the same values at the points and the scalar as the constant one.
  pub ambiguous :
      (d n : ℕ) (x : ℕ → F) (p : List F) (s : F)
      → n ≤ d
      → length p ≤ suc d
      → ((i : ℕ) → i < n → x i ≢ f.zero)
      → (q : ℕ → F) × ((i : ℕ) → i < n → eval (tabulate (suc d) q) (x i) ≡ eval p (x i))
        × (constant (tabulate (suc d) q) ≡ s)
  ambiguous d n x p s few short nonzero =
      let r = moved n x p s in
      let same = λ (y : F). eval-padded r (suc d) y (length-moved n x p s d few short) in
      (
        λ i. get_or r i f.zero,
        λ i h. same (x i) ∙ moved-at n x p s i h,
        sym (eval-zero _) ∙ same f.zero ∙ moved-zero n x p s nonzero,
      )
