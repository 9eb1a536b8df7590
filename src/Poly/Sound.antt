-- ===== src/Poly/Sound.antt =====
-- What `ensure_degree` of include/pvss/PolyOps.hpp accepts.
use random_beacon.Prelude.{
  ℕ, suc, ◌+◌, ◌-◌, ◌≤◌, ◌<◌, ◌≡◌, ◌≢◌, ◌↔◌, sym, ap, ◌∙◌, List, length, true, inl, inr, ok,
  ok_injective, arith, get_or, tabulate, le→ltb, size_sub,
}
use random_beacon.Random.{Supply, after}
use random_beacon.Algebra.Field.{Field, ◌⊗◌, Field-dec}
use random_beacon.Algebra.Group.{Group, Scalars, ◌•◌, smul-zero}
use random_beacon.Algebra.Range.{sum, prod, total, total_congr, total-smul}
use random_beacon.Poly.Check.{ensure_degree}
use random_beacon.Poly.Spec.{eval}
use random_beacon.Poly.Ambiguous.{eval-padded}
use random_beacon.Poly.Dual.{dual_factor}
use random_beacon.Poly.Recover.{of_long-Distinct, of_long-ne-zero}
use random_beacon.Poly.Accepts.{
  share_point, ensure_degree-accepts, random_polynomial_lem, dual_sum_lem,
}
use random_beacon.Poly.Through.{interpolated}
use random_beacon.Poly.Converse.{all_values, later_rooted, length-later_rooted}

module _ {F G : Type 0} ⦃f : Field F⦄ ⦃g : Group G⦄ ⦃s : Scalars F G⦄ where
  -- The sum that the call compares with zero, for the coefficients that it draws.
  abbrev pub drawn_sum : List G → List F → G
  drawn_sum evals coeffs = total (length evals) (λ i.
      (eval coeffs (share_point i) ⊗ prod (length evals) (dual_factor share_point i))
      • get_or evals i g.zero)

  pub ensure_degree_lem :
      (evals : List G) (degree : ℕ) (supply : Supply F)
      → degree + 2 ≤ length evals
      → length evals ≤ f.max_size
      → ensure_degree F evals degree supply
        ≡ ok (
          g.beq (drawn_sum evals (tabulate (length evals - degree - 2 + 1) supply)) g.zero,
          after (length evals - degree - 2 + 1) supply,
        )
  unfolding ensure_degree
  ensure_degree_lem evals degree supply enough room =
      let num = length evals in
      let wide : size_sub (num - degree) 2 ≡ num - degree - 2 = omega (arith, f.max_size_lt) in
      rw (
        le→ltb num degree (omega arith),
        wide,
        random_polynomial_lem (num - degree - 2) supply (omega arith),
        dual_sum_lem (record { coeffs = tabulate (num - degree - 2 + 1) supply }) evals,
      )

  pub smul-ne-zero : (a : F) (base : G) → base ≢ g.zero → a • base ≡ g.zero → a ≡ f.zero
  smul-ne-zero a base ne e = elim (Field-dec a f.zero) [
    | inl zero_a ↦ zero_a
    | inr other ↦ absurd (
        ne (
          sym (s.one-smul base)
          ∙ ap (λ c. c • base) (sym (f.mul_comm _ _ ∙ f.mul-inverse a other))
          ∙ s.mul-smul (f.inverse a) a base
          ∙ ap (λ c. f.inverse a • c) e
          ∙ smul-zero (f.inverse a)))
  ]

  -- The evaluations that are accepted whatever is drawn are shares.
  pub ensure_degree_sound :
      (evals : List G) (degree : ℕ) (log : ℕ → F) (base : G)
      → degree + 2 ≤ length evals
      → length evals < f.order
      → length evals ≤ f.max_size
      → base ≢ g.zero
      → ((i : ℕ) → i < length evals → get_or evals i g.zero ≡ log i • base)
      → ((supply : Supply F)
          → (rest : Supply F) × (ensure_degree F evals degree supply ≡ ok (true, rest)))
      → (p : List F) × (length p ≤ suc degree)
        × ((i : ℕ) → i < length evals → get_or evals i g.zero ≡ eval p (f.of_long (i + 1)) • base)
  ensure_degree_sound evals degree log base enough order room ne logs accepts =
      let num = length evals in
      let distinct = of_long-Distinct num order in
      let (p, short, through) =
        interpolated (suc degree) share_point log
          (λ i j hi hj. distinct i j (omega arith) (omega arith)) in
      (
        p,
        short,
        λ i less.
            logs i less
            ∙ ap (λ c. c • base)
                (all_values num degree share_point log p distinct
                  (λ k h. of_long-ne-zero k (omega arith)) short (λ k h. through k (omega arith))
                  (λ m above inside.
                    orthogonal (later_rooted num share_point m)
                      (length-later_rooted num share_point m degree above inside))
                  num (omega arith) i less),
      )
    where
      accepted_sum :
          (q : List F)
          → drawn_sum evals (tabulate (length evals - degree - 2 + 1) (λ i. get_or q i f.zero))
            ≡ g.zero
      accepted_sum q =
          let supply : Supply F = λ i. get_or q i f.zero in
          let (rest, accepted) = accepts supply in
          (g.beq_iff _ _).0 (
            ap (λ r. r.0)
              (ok_injective (sym (ensure_degree_lem evals degree supply enough room) ∙ accepted)))

      orthogonal :
          (q : List F)
          → degree + length q < length evals
          → sum (length evals) (λ i.
            (eval q (share_point i) ⊗ prod (length evals) (dual_factor share_point i)) ⊗ log i)
            ≡ f.zero
      orthogonal q fits =
          let num = length evals in
          let count : ℕ = num - degree - 2 + 1 in
          smul-ne-zero _ base ne (
            sym (total-smul {F = F} num _ base)
            ∙ total_congr num (λ i less.
              s.mul-smul _ (log i) base
              ∙ ap (λ u. (eval q (share_point i) ⊗ prod num (dual_factor share_point i)) • u)
                  (sym (logs i less))
              ∙ ap (λ u. (u ⊗ prod num (dual_factor share_point i)) • get_or evals i g.zero)
                  (sym (eval-padded q count (share_point i) (omega arith))))
            ∙ accepted_sum q)

  -- For at least degree + 2 evaluations, as many as a vector holds at most and fewer than there are
  -- scalars, each a multiple of one group element that is not zero: `ensure_degree` accepts them
  -- whatever it draws exactly when they are the shares at 1, …, n of a polynomial of at most the
  -- degree.
  pub ensure_degree_iff :
      (evals : List G) (degree : ℕ) (log : ℕ → F) (base : G)
      → degree + 2 ≤ length evals
      → length evals < f.order
      → length evals ≤ f.max_size
      → base ≢ g.zero
      → ((i : ℕ) → i < length evals → get_or evals i g.zero ≡ log i • base)
      → ((supply : Supply F)
          → (rest : Supply F) × (ensure_degree F evals degree supply ≡ ok (true, rest)))
        ↔ ((p : List F) × (length p ≤ suc degree)
            × ((i : ℕ)
                → i < length evals
                → get_or evals i g.zero ≡ eval p (f.of_long (i + 1)) • base))
  ensure_degree_iff evals degree log base enough order room ne logs = (
    ensure_degree_sound evals degree log base enough order room ne logs,
    λ shares supply. (
      after (length evals - degree - 2 + 1) supply,
      ensure_degree-accepts evals degree shares.0 base supply enough order room shares.1 shares.2,
    ),
  )
