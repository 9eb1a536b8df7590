-- ===== src/Poly/Spec.antt =====
-- Polynomials as lists of coefficients: their values, and the operations that the proofs about
-- include/pvss/PolyOps.hpp need. Nothing here is code of the program.
use random_beacon.Prelude.{
  ℕ, zero, suc, ◌+◌, ◌≤◌, ◌<◌, ◌≡◌, refl, sym, ap, ◌∙◌, List, [], ◌∷◌, length, arith,
}
use random_beacon.Algebra.Field.{
  Field, ◌⊕◌, ◌⊖◌, ◌⊗◌, neg, add-zero, add_left_comm, mul_left_comm, mul-zero, zero-mul, add-mul,
  mul-neg, mul-one, sub-eq-add-neg,
}
use random_beacon.Algebra.Range.{prod}

module _ {F : Type 0} ⦃f : Field F⦄ where
  -- The value of the polynomial at a point.
  unfoldable pub eval : List F → F → F
  eval [] x = f.zero
  eval (c ∷ cs) x = c ⊕ x ⊗ eval cs x

  -- The constant coefficient.
  unfoldable pub constant : List F → F
  constant [] = f.zero
  constant (c ∷ cs) = c

  pub eval-zero : (p : List F) → eval p f.zero ≡ constant p
  unfolding eval constant
  eval-zero [] = refl
  eval-zero (c ∷ cs) = rw zero-mul (add-zero c)

  unfoldable pub scale : F → List F → List F
  scale a [] = []
  scale a (c ∷ cs) = (a ⊗ c) ∷ scale a cs

  unfoldable pub plus : List F → List F → List F
  plus [] q = q
  plus (c ∷ cs) [] = c ∷ cs
  plus (c ∷ cs) (d ∷ ds) = (c ⊕ d) ∷ plus cs ds

  unfoldable pub times : List F → List F → List F
  times [] q = []
  times (c ∷ cs) q = plus (scale c q) (f.zero ∷ times cs q)

  pub eval-scale : (a : F) (p : List F) (x : F) → eval (scale a p) x ≡ a ⊗ eval p x
  unfolding eval scale
  eval-scale a [] x = sym (mul-zero a)
  eval-scale a (c ∷ cs) x = rw (eval-scale a cs x) (simp (f.mul-add, mul_left_comm))

  pub eval-plus : (p q : List F) (x : F) → eval (plus p q) x ≡ eval p x ⊕ eval q x
  unfolding eval plus
  eval-plus [] q x = sym (f.zero-add _)
  eval-plus (c ∷ cs) [] x = sym (add-zero _)
  eval-plus (c ∷ cs) (d ∷ ds) x =
      rw (eval-plus cs ds x) (simp (f.mul-add, f.add_assoc, add_left_comm))

  pub eval-times : (p q : List F) (x : F) → eval (times p q) x ≡ eval p x ⊗ eval q x
  unfolding eval times
  eval-times [] q x = sym (zero-mul _)
  eval-times (c ∷ cs) q x =
      eval-plus (scale c q) (f.zero ∷ times cs q) x
      ∙ rw (eval-scale c q x, f.zero-add, eval-times cs q x) (simp (add-mul, f.mul_assoc))

  pub constant-plus : (p q : List F) → constant (plus p q) ≡ constant p ⊕ constant q
  unfolding constant plus
  constant-plus [] q = sym (f.zero-add _)
  constant-plus (c ∷ cs) [] = sym (add-zero _)
  constant-plus (c ∷ cs) (d ∷ ds) = refl

  pub length-scale : (a : F) (p : List F) → length (scale a p) ≡ length p
  unfolding scale
  length-scale a [] = refl
  length-scale a (c ∷ cs) = ap suc (length-scale a cs)

  pub length-plus : (p q : List F) (n : ℕ) → length p ≤ n → length q ≤ n → length (plus p q) ≤ n
  unfolding plus
  length-plus [] q n hp hq = hq
  length-plus (c ∷ cs) [] n hp hq = hp
  length-plus (c ∷ cs) (d ∷ ds) zero hp hq = absurd (omega arith)
  length-plus (c ∷ cs) (d ∷ ds) (suc n) hp hq =
      omega (arith, length-plus cs ds n (omega arith) (omega arith))

  -- Two factors of m + 1 and of n coefficients have a product of at most m + n.
  pub length-times :
      (p q : List F) (m : ℕ) → 0 < length q → length p ≤ suc m → length (times p q) ≤ m + length q
  unfolding times
  length-times [] q m n h = omega arith
  length-times (c ∷ []) q m n h =
      length-plus (scale c q) (f.zero ∷ []) (m + length q) (omega (arith, length-scale c q))
        (omega arith)
  length-times (c ∷ d ∷ cs) q zero n h = absurd (omega arith)
  length-times (c ∷ d ∷ cs) q (suc m) n h =
      length-plus (scale c q) (f.zero ∷ times (d ∷ cs) q) (suc m + length q)
        (omega (arith, length-scale c q)) (omega (arith, length-times (d ∷ cs) q m n (omega arith)))

  -- Division by x - a: the quotient; the remainder is the value at a.
  unfoldable pub quotient : F → List F → List F
  quotient a [] = []
  quotient a (c ∷ []) = []
  quotient a (c ∷ d ∷ cs) = eval (d ∷ cs) a ∷ quotient a (d ∷ cs)

  exchange :
      (a c x p r t : F)
      → f.add (f.add c (f.mul x p)) (f.mul a (f.add r (f.mul x t)))
        ≡ f.add (f.add c (f.mul a r)) (f.mul x (f.add p (f.mul a t)))
  exchange a c x p r t = simp (f.mul-add, f.add_assoc, add_left_comm, mul_left_comm)

  -- p(x) - p(a) = (x - a) q(x), with the subtracted terms on the other side.
  pub eval-quotient :
      (a : F) (p : List F) (x : F)
      → eval p x ⊕ a ⊗ eval (quotient a p) x ≡ eval p a ⊕ x ⊗ eval (quotient a p) x
  unfolding eval quotient
  eval-quotient a [] x = rw (mul-zero a, mul-zero x)
  eval-quotient a (c ∷ []) x = rw (mul-zero a, mul-zero x)
  eval-quotient a (c ∷ d ∷ cs) x = regroup (eval-quotient a (d ∷ cs) x)
    where
      regroup :
          {p r t : F}
          → p ⊕ a ⊗ t ≡ r ⊕ x ⊗ t
          → (c ⊕ x ⊗ p) ⊕ a ⊗ (r ⊕ x ⊗ t) ≡ (c ⊕ a ⊗ r) ⊕ x ⊗ (r ⊕ x ⊗ t)
      regroup {p} {r} {t} e = exchange a c x p r t ∙ ap (λ u. (c ⊕ a ⊗ r) ⊕ x ⊗ u) e

  pub length-quotient : (a : F) (p : List F) (n : ℕ) → length p ≤ suc n → length (quotient a p) ≤ n
  unfolding quotient
  length-quotient a [] n h = omega arith
  length-quotient a (c ∷ []) n h = omega arith
  length-quotient a (c ∷ d ∷ cs) zero h = absurd (omega arith)
  length-quotient a (c ∷ d ∷ cs) (suc n) h =
      omega (arith, length-quotient a (d ∷ cs) n (omega arith))

  -- The product of the factors y(i) - x for i < n, as a polynomial in x.
  unfoldable pub rooted : ℕ → (ℕ → F) → List F
  rooted zero y = f.one ∷ []
  rooted (suc n) y =
      plus (scale (y 0) (rooted n (λ i. y (suc i))))
        (f.zero ∷ scale (neg f.one) (rooted n (λ i. y (suc i))))

  pub eval-rooted : (n : ℕ) (y : ℕ → F) (x : F) → eval (rooted n y) x ≡ prod n (λ i. y i ⊖ x)
  unfolding rooted prod eval
  eval-rooted zero y x = rw (mul-zero x) (add-zero f.one)
  eval-rooted (suc n) y x =
      let w = rooted n (λ i. y (suc i)) in
      eval-plus (scale (y 0) w) (f.zero ∷ scale (neg f.one) w) x
      ∙ rw (eval-scale (y 0) w x, eval-scale (neg f.one) w x, f.zero-add)
          (rw (eval-rooted n (λ i. y (suc i)) x, sub-eq-add-neg (y 0) x)
            (ap (λ u. y 0 ⊗ prod n (λ i. y (suc i) ⊖ x) ⊕ u) (negate _)
              ∙ sym (add-mul (y 0) (neg x) (prod n (λ i. y (suc i) ⊖ x)))))
    where
      negate : (w : F) → x ⊗ (neg f.one ⊗ w) ≡ neg x ⊗ w
      negate w =
          sym (f.mul_assoc x (neg f.one) w) ∙ ap (λ u. u ⊗ w) (mul-neg x f.one ∙ ap neg (mul-one x))

  pub length-rooted : (n : ℕ) (y : ℕ → F) → length (rooted n y) ≤ suc n
  unfolding rooted
  length-rooted zero y = omega arith
  length-rooted (suc n) y =
      let w = rooted n (λ i. y (suc i)) in
      length-plus (scale (y 0) w) (f.zero ∷ scale (neg f.one) w) (suc (suc n))
        (omega (arith, length-scale (y 0) w, length-rooted n (λ i. y (suc i))))
        (omega (arith, length-scale (neg f.one) w, length-rooted n (λ i. y (suc i))))

  -- A sum of polynomials, added from the left.
  unfoldable pub sum_poly : List F → List (List F) → List F
  sum_poly q [] = q
  sum_poly q (p ∷ ps) = sum_poly (plus q p) ps
