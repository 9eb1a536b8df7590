-- ===== src/Poly/Line.antt =====
-- How many draws of `ensure_degree` of include/pvss/PolyOps.hpp accept what is no sharing.
use random_beacon.Prelude.{
  suc, zero, ltb, Bool-cases, ◌==◌, ==_iff, inl, inr, ◌⊎◌, true, false, ℕ, suc, ◌+◌, ◌-◌, ◌≤◌, ◌<◌,
  ◌≡◌, ◌≢◌, sym, ap, ◌∙◌, List, length, true, inl, inr, ok, ok_injective, arith, get_or, tabulate,
}
use random_beacon.Random.{Supply, after}
use random_beacon.Algebra.Field.{
  ◌⊕◌, mul-zero, add-zero, add_left_comm, mul_left_comm, add-mul, add_cancel, mul_cancel, Field,
  ◌⊗◌, Field-dec,
}
use random_beacon.Algebra.Group.{Group, Scalars, ◌•◌}
use random_beacon.Algebra.Range.{sum_congr, sum-add, mul-sum, sum, prod, total_congr, total-smul}
use random_beacon.Poly.Check.{ensure_degree}
use random_beacon.Poly.Spec.{eval}
use random_beacon.Poly.Ambiguous.{eval-padded}
use random_beacon.Poly.Dual.{dual_factor}
use random_beacon.Poly.Recover.{of_long-Distinct, of_long-ne-zero}
use random_beacon.Poly.Accepts.{share_point, ensure_degree-accepts}
use random_beacon.Poly.Through.{interpolated}
use random_beacon.Poly.Converse.{all_values, later_rooted, length-later_rooted}
use random_beacon.Poly.Sound.{drawn_sum, ensure_degree_lem, smul-ne-zero}

module _ {F : Type 0} ⦃f : Field F⦄ where
  -- The values between two indices are all 0, or one is not.
  search :
      (d n : ℕ) (t : ℕ → F)
      → ((m : ℕ) → d < m → m < n → t m ≡ f.zero) ⊎ ((m : ℕ) × (d < m) × (m < n) × (t m ≢ f.zero))
  search d zero t = inl (λ m above inside. absurd (omega arith))
  search d (suc n) t = elim (search d n t) [
    | inr (m, above, inside, ne) ↦ inr (m, above, omega arith, ne)
    | inl all ↦ elim (Field-dec (t n) f.zero) [
      | inl last ↦ inl (λ m above inside. at_index all last m above inside (Bool-cases (m == n)))
      | inr ne ↦ elim (Bool-cases (ltb d n)) [
        | inl above ↦ inr (n, ground arith, omega arith, ne)
        | inr low ↦ inl (λ m above inside. absurd (ground arith))
      ]
    ]
  ]
    where
      at_index :
          ((m : ℕ) → d < m → m < n → t m ≡ f.zero)
          → t n ≡ f.zero
          → (m : ℕ) → d < m
          → m < suc n
          → ((m == n) ≡ true) ⊎ ((m == n) ≡ false)
          → t m ≡ f.zero
      at_index all last m above inside (inl same) = ap t ((==_iff m n).0 same) ∙ last
      at_index all last m above inside (inr other) = all m above (ground arith)

  -- A line of coefficients has a line of values.
  eval-line :
      (n : ℕ) (s r : ℕ → F) (c x : F)
      → eval (tabulate n (λ i. s i ⊕ c ⊗ r i)) x ≡ eval (tabulate n s) x ⊕ c ⊗ eval (tabulate n r) x
  unfolding eval
  eval-line zero s r c x = sym (ap (λ u. f.zero ⊕ u) (mul-zero c) ∙ add-zero f.zero)
  eval-line (suc n) s r c x =
      rw (eval-line n (λ i. s (suc i)) (λ i. r (suc i)) c x)
        (simp (f.mul-add, f.add_assoc, add_left_comm, mul_left_comm))

  module _ (n : ℕ) (log : ℕ → F) where
    -- The logarithm of the sum that the call compares with zero.
    component : List F → F
    component q = sum n (λ i. (eval q (share_point i) ⊗ prod n (dual_factor share_point i)) ⊗ log i)

    padded :
        (q : List F) (count : ℕ)
        → length q ≤ count
        → component (tabulate count (λ i. get_or q i f.zero)) ≡ component q
    unfolding component
    padded q count h = sum_congr n (λ i less.
        ap (λ u. (u ⊗ prod n (dual_factor share_point i)) ⊗ log i)
          (eval-padded q count (share_point i) h))

    component-line :
        (count : ℕ) (s r : ℕ → F) (c : F)
        → component (tabulate count (λ i. s i ⊕ c ⊗ r i))
          ≡ component (tabulate count s) ⊕ c ⊗ component (tabulate count r)
    unfolding component
    component-line count s r c =
        sum_congr n (λ i less.
          ap (λ u. (u ⊗ prod n (dual_factor share_point i)) ⊗ log i)
            (eval-line count s r c (share_point i))
          ∙ split _ _ _ _)
        ∙ sum-add n _ _
        ∙ ap (λ u. component (tabulate count s) ⊕ u) (sym (mul-sum n c _))
      where
        split : (u v w l : F) → ((u ⊕ c ⊗ v) ⊗ w) ⊗ l ≡ (u ⊗ w) ⊗ l ⊕ c ⊗ ((v ⊗ w) ⊗ l)
        split u v w l = simp (add-mul, f.mul_assoc)

    -- On a line in a direction whose sum is not 0, one point at most has the sum 0.
    one_root :
        (count : ℕ) (s r : ℕ → F) (c d : F)
        → component (tabulate count r) ≢ f.zero
        → component (tabulate count (λ i. s i ⊕ c ⊗ r i)) ≡ f.zero
        → component (tabulate count (λ i. s i ⊕ d ⊗ r i)) ≡ f.zero
        → c ≡ d
    one_root count s r c d ne first second = mul_cancel (component (tabulate count r)) c d ne (
        f.mul_comm _ _
        ∙ add_cancel (c ⊗ component (tabulate count r)) (d ⊗ component (tabulate count r))
            (component (tabulate count s))
            (f.add_comm _ _
              ∙ sym (component-line count s r c)
              ∙ first
              ∙ sym second
              ∙ component-line count s r d
              ∙ f.add_comm _ _)
        ∙ f.mul_comm _ _)

module _ {F G : Type 0} ⦃f : Field F⦄ ⦃g : Group G⦄ ⦃s : Scalars F G⦄ where
  module _ (evals : List G) (degree : ℕ) (log : ℕ → F) (base : G)
      (enough : degree + 2 ≤ length evals) (room : length evals ≤ f.max_size) (ne : base ≢ g.zero)
      (logs : (i : ℕ) → i < length evals → get_or evals i g.zero ≡ log i • base) where
    drawn_sum-component : (q : List F) → drawn_sum evals q ≡ component (length evals) log q • base
    unfolding component
    drawn_sum-component q =
        total_congr (length evals) (λ i less.
          ap (λ u. (eval q (share_point i) ⊗ prod (length evals) (dual_factor share_point i)) • u)
            (logs i less)
          ∙ sym (s.mul-smul _ (log i) base))
        ∙ total-smul {F = F} (length evals) _ base

    accepted-component :
        (supply : Supply F) {rest : Supply F}
        → ensure_degree F evals degree supply ≡ ok (true, rest)
        → component (length evals) log (tabulate (length evals - degree - 2 + 1) supply) ≡ f.zero
    accepted-component supply accepted = smul-ne-zero _ base ne (
        sym (drawn_sum-component _)
        ∙ (g.beq_iff _ _).0 (
            ap (λ r. r.0)
              (ok_injective (sym (ensure_degree_lem evals degree supply enough room) ∙ accepted))))

  -- For at least degree + 2 evaluations, as many as a vector holds at most and fewer than there are
  -- scalars, each a multiple of one group element that is not zero: either they are the shares at
  -- 1, …, n of a polynomial of at most the degree, and `ensure_degree` accepts them whatever it
  -- draws; or there is a direction in which, from every supply, one multiple at most leads to a
  -- supply that makes `ensure_degree` accept them.
  pub ensure_degree_line :
      (evals : List G) (degree : ℕ) (log : ℕ → F) (base : G)
      → degree + 2 ≤ length evals
      → length evals < f.order
      → length evals ≤ f.max_size
      → base ≢ g.zero
      → ((i : ℕ) → i < length evals → get_or evals i g.zero ≡ log i • base)
      → ((p : List F) × (length p ≤ suc degree)
          × ((i : ℕ) → i < length evals → get_or evals i g.zero ≡ eval p (f.of_long (i + 1)) • base)
          × ((supply : Supply F)
              → (rest : Supply F) × (ensure_degree F evals degree supply ≡ ok (true, rest))))
        ⊎ ((direction : Supply F) × ((supply : Supply F) (c d : F) (rest rest' : Supply F)
              → ensure_degree F evals degree (λ i. supply i ⊕ c ⊗ direction i) ≡ ok (true, rest)
              → ensure_degree F evals degree (λ i. supply i ⊕ d ⊗ direction i) ≡ ok (true, rest')
              → c ≡ d))
  unfolding component
  ensure_degree_line evals degree log base enough order room ne logs =
      let num = length evals in
      let distinct = of_long-Distinct num order in
      let (p, short, through) =
        interpolated (suc degree) share_point log
          (λ i j hi hj. distinct i j (omega arith) (omega arith)) in
      elim (search degree num (λ m. component num log (later_rooted num share_point m))) [
        | inl orthogonal ↦
            let shares = λ (i : ℕ) (less : i < num).
              logs i less
              ∙ ap (λ c. c • base)
                  (all_values num degree share_point log p distinct
                    (λ k h. of_long-ne-zero k (omega arith)) short (λ k h. through k (omega arith))
                    orthogonal num (omega arith) i less) in
            inl (
              p,
              short,
              shares,
              λ supply. (
                after (num - degree - 2 + 1) supply,
                ensure_degree-accepts evals degree p base supply enough order room short shares,
              ),
            )
        | inr (m, above, inside, apart) ↦
            let q = later_rooted num share_point m in
            let count = num - degree - 2 + 1 in
            let small : degree + length q < num =
              length-later_rooted num share_point m degree above inside in
            inr (
              λ i. get_or q i f.zero,
              λ supply c d rest rest' first second.
                  one_root num log count supply (λ i. get_or q i f.zero) c d
                    (λ e. apart (sym (padded num log q count (omega (arith, small))) ∙ e))
                    (accepted-component evals degree log base enough room ne logs _ first)
                    (accepted-component evals degree log base enough room ne logs _ second),
            )
      ]
