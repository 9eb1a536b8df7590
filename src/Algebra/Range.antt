-- ===== src/Algebra/Range.antt =====
-- Finite sums and products over 0, 1, …, n - 1, and the loops that compute them.
use random_beacon.Prelude.{ℕ, zero, suc, ◌<◌, ◌≡◌, refl, sym, ap₂, ◌∙◌, ◌≢◌, arith, fold_range}
use random_beacon.Algebra.Field.{
  Field, ◌⊕◌, ◌⊗◌, zero-mul, mul-zero, mul_left_comm, add_left_comm, mul-ne-zero, mul-one,
}
use random_beacon.Algebra.Group
use random_beacon.Algebra.Group.{Group, Scalars, ◌⊞◌, ◌•◌}

module _ {F : Type 0} ⦃f : Field F⦄ where
  unfoldable pub sum : ℕ → (ℕ → F) → F
  sum zero t = f.zero
  sum (suc n) t = t 0 ⊕ sum n (λ i. t (suc i))

  unfoldable pub prod : ℕ → (ℕ → F) → F
  prod zero t = f.one
  prod (suc n) t = t 0 ⊗ prod n (λ i. t (suc i))

  pub sum_congr : (n : ℕ) {t u : ℕ → F} → ((i : ℕ) → i < n → t i ≡ u i) → sum n t ≡ sum n u
  unfolding sum
  sum_congr zero h = refl
  sum_congr (suc n) h = ap₂ f.add (h 0 (omega arith)) (sum_congr n (λ i p. h (suc i) (omega arith)))

  pub prod_congr : (n : ℕ) {t u : ℕ → F} → ((i : ℕ) → i < n → t i ≡ u i) → prod n t ≡ prod n u
  unfolding prod
  prod_congr zero h = refl
  prod_congr (suc n) h =
      ap₂ f.mul (h 0 (omega arith)) (prod_congr n (λ i p. h (suc i) (omega arith)))

  pub sum-add : (n : ℕ) (t u : ℕ → F) → sum n (λ i. t i ⊕ u i) ≡ sum n t ⊕ sum n u
  unfolding sum
  sum-add zero t u = sym (f.zero-add f.zero)
  sum-add (suc n) t u =
      rw (sum-add n (λ i. t (suc i)) (λ i. u (suc i))) (simp (f.add_assoc, add_left_comm))

  pub mul-sum : (n : ℕ) (a : F) (t : ℕ → F) → a ⊗ sum n t ≡ sum n (λ i. a ⊗ t i)
  unfolding sum
  mul-sum zero a t = mul-zero a
  mul-sum (suc n) a t = simp (f.mul-add, mul-sum n a (λ i. t (suc i)))

  pub prod-mul : (n : ℕ) (t u : ℕ → F) → prod n (λ i. t i ⊗ u i) ≡ prod n t ⊗ prod n u
  unfolding prod
  prod-mul zero t u = sym (f.one-mul f.one)
  prod-mul (suc n) t u =
      rw (prod-mul n (λ i. t (suc i)) (λ i. u (suc i))) (simp (f.mul_assoc, mul_left_comm))

  pub prod-ne-zero : (n : ℕ) (t : ℕ → F) → ((i : ℕ) → i < n → t i ≢ f.zero) → prod n t ≢ f.zero
  unfolding prod
  prod-ne-zero zero t h = f.one-ne-zero
  prod-ne-zero (suc n) t h =
      mul-ne-zero (t 0) (prod n (λ i. t (suc i))) (h 0 (omega arith))
        (prod-ne-zero n (λ i. t (suc i)) (λ i p. h (suc i) (omega arith)))

  pub prod-eq-zero : (n : ℕ) (t : ℕ → F) (i : ℕ) → i < n → t i ≡ f.zero → prod n t ≡ f.zero
  unfolding prod
  prod-eq-zero zero t i h e = absurd (omega arith)
  prod-eq-zero (suc n) t zero h e = rw e (zero-mul _)
  prod-eq-zero (suc n) t (suc i) h e =
      rw (prod-eq-zero n (λ k. t (suc k)) i (omega arith) e) (mul-zero (t 0))

  pub sum-eq-zero : (n : ℕ) (t : ℕ → F) → ((i : ℕ) → i < n → t i ≡ f.zero) → sum n t ≡ f.zero
  unfolding sum
  sum-eq-zero zero t h = refl
  sum-eq-zero (suc n) t h =
      rw (h 0 (omega arith), sum-eq-zero n (λ k. t (suc k)) (λ i p. h (suc i) (omega arith)))
        (f.zero-add f.zero)

  -- `acc = t(i) * acc` in a loop multiplies by the product.
  pub fold_range-prod :
      (n : ℕ) (t : ℕ → F) (acc : F) → fold_range n (λ i a. t i ⊗ a) acc ≡ acc ⊗ prod n t
  unfolding fold_range prod
  fold_range-prod zero t acc = sym (mul-one acc)
  fold_range-prod (suc n) t acc =
      fold_range-prod n (λ i. t (suc i)) (t 0 ⊗ acc) ∙ simp (f.mul_assoc, mul_left_comm)

module _ {G : Type 0} ⦃g : Group G⦄ where
  unfoldable pub total : ℕ → (ℕ → G) → G
  total zero t = g.zero
  total (suc n) t = t 0 ⊞ total n (λ i. t (suc i))

  pub total_congr : (n : ℕ) {t u : ℕ → G} → ((i : ℕ) → i < n → t i ≡ u i) → total n t ≡ total n u
  unfolding total
  total_congr zero h = refl
  total_congr (suc n) h =
      ap₂ g.add (h 0 (omega arith)) (total_congr n (λ i p. h (suc i) (omega arith)))

  -- `acc = acc + t(i)` in a loop adds the sum.
  pub fold_range-total :
      (n : ℕ) (t : ℕ → G) (acc : G) → fold_range n (λ i a. a ⊞ t i) acc ≡ acc ⊞ total n t
  unfolding fold_range total
  fold_range-total zero t acc = sym (Group.add-zero acc)
  fold_range-total (suc n) t acc =
      fold_range-total n (λ i. t (suc i)) (acc ⊞ t 0) ∙ g.add_assoc acc (t 0) _

module _ {F G : Type 0} ⦃f : Field F⦄ ⦃g : Group G⦄ ⦃s : Scalars F G⦄ where
  -- A sum of multiples of one element is the multiple by the sum.
  pub total-smul : (n : ℕ) (t : ℕ → F) (x : G) → total n (λ i. t i • x) ≡ sum n t • x
  unfolding total sum
  total-smul zero t x = sym (s.zero-smul x)
  total-smul (suc n) t x = rw (total-smul n (λ i. t (suc i)) x) (sym (s.add-smul (t 0) _ x))
