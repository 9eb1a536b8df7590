-- ===== src/Algebra/Group.antt =====
-- The groups `G1` and `G2` of the curve with the action of its scalars, and the pairings.
use random_beacon.Prelude.{◌≡◌, sym, ap, ◌∙◌, ◌≢◌, ◌↔◌, Bool, true}
use random_beacon.Algebra.Field.{Field, ◌⊕◌, ◌⊖◌, ◌⊗◌, neg, add-neg, mul-zero, sub-ne-zero}

pub record Group (G : Type 0) : Type 0 where
  pub zero : G
  pub add : G → G → G
  pub beq : G → G → Bool
  pub add_assoc : (a b c : G) → add (add a b) c ≡ add a (add b c)
  pub add_comm : (a b : G) → add a b ≡ add b a
  pub zero-add : (a : G) → add zero a ≡ a
  pub beq_iff : (a b : G) → (beq a b ≡ true) ↔ (a ≡ b)

-- `smul` is the operator `*` of a scalar and a group element.
pub record Scalars (F G : Type 0) ⦃f : Field F⦄ ⦃g : Group G⦄ : Type 0 where
  pub smul : F → G → G
  pub smul-add : (s : F) (a b : G) → smul s (g.add a b) ≡ g.add (smul s a) (smul s b)
  pub add-smul : (s t : F) (a : G) → smul (f.add s t) a ≡ g.add (smul s a) (smul t a)
  pub mul-smul : (s t : F) (a : G) → smul (f.mul s t) a ≡ smul s (smul t a)
  pub one-smul : (a : G) → smul f.one a ≡ a
  pub zero-smul : (a : G) → smul f.zero a ≡ g.zero

module _ {G : Type 0} ⦃g : Group G⦄ where
  infixl 65 ◌⊞◌
  abbrev pub ◌⊞◌ : G → G → G
  a ⊞ b = g.add a b

  pub add-zero : (a : G) → a ⊞ g.zero ≡ a
  add-zero a = g.add_comm a g.zero ∙ g.zero-add a

  pub add_left_comm : (a b c : G) → a ⊞ (b ⊞ c) ≡ b ⊞ (a ⊞ c)
  add_left_comm a b c =
      sym (g.add_assoc a b c) ∙ ap (λ t. t ⊞ c) (g.add_comm a b) ∙ g.add_assoc b a c

module _ {F G : Type 0} ⦃f : Field F⦄ ⦃g : Group G⦄ ⦃s : Scalars F G⦄ where
  infixr 72 ◌•◌
  abbrev pub ◌•◌ : F → G → G
  a • x = s.smul a x

  pub smul-zero : (a : F) → a • g.zero ≡ g.zero
  smul-zero a =
      ap (λ t. a • t) (sym (s.zero-smul g.zero))
      ∙ sym (s.mul-smul a f.zero g.zero)
      ∙ ap (λ t. s.smul t g.zero) (mul-zero a)
      ∙ s.zero-smul g.zero

  pub smul_comm : (a b : F) (x : G) → a • (b • x) ≡ b • (a • x)
  smul_comm a b x =
      sym (s.mul-smul a b x) ∙ ap (λ t. s.smul t x) (f.mul_comm a b) ∙ s.mul-smul b a x

module _ (F : Type 0) {G : Type 0} ⦃f : Field F⦄ ⦃g : Group G⦄ ⦃s : Scalars F G⦄ where
  add-opposite : (a : G) → a ⊞ neg f.one • a ≡ g.zero
  add-opposite a =
      ap (λ t. t ⊞ neg f.one • a) (sym (s.one-smul a))
      ∙ sym (s.add-smul f.one (neg f.one) a)
      ∙ ap (λ t. s.smul t a) (add-neg f.one)
      ∙ s.zero-smul a

  -- The scalars make every element invertible, so a summand can be cancelled.
  cancel_by_scalar : (a b c : G) → a ⊞ c ≡ b ⊞ c → a ≡ b
  cancel_by_scalar a b c e = sym (undo a) ∙ ap (λ t. t ⊞ neg f.one • c) e ∙ undo b
    where
      undo : (t : G) → (t ⊞ c) ⊞ neg f.one • c ≡ t
      undo t = g.add_assoc t c _ ∙ ap (λ u. t ⊞ u) (add-opposite c) ∙ add-zero t

module _ {F G : Type 0} ⦃f : Field F⦄ ⦃g : Group G⦄ ⦃s : Scalars F G⦄ where
  -- The answer r + x c to a challenge c fits the commitment r and the statement x.
  pub response : (r x c : F) (a : G) → (r ⊕ x ⊗ c) • a ≡ r • a ⊞ c • (x • a)
  response r x c a =
      s.add-smul r (x ⊗ c) a ∙ ap (λ t. r • a ⊞ t) (s.mul-smul x c a ∙ smul_comm x c a)

  -- Answers to two challenges with one commitment determine the logarithm.
  pub extract :
      (p q c d : F) (a b r : G)
      → c ≢ d
      → p • a ≡ r ⊞ c • b
      → q • a ≡ r ⊞ d • b
      → ((p ⊖ q) ⊗ f.inverse (c ⊖ d)) • a ≡ b
  extract p q c d a b r ne first second =
      ap (λ t. s.smul t a) (f.mul_comm _ _)
      ∙ s.mul-smul _ _ a
      ∙ ap (λ t. f.inverse (c ⊖ d) • t) differences
      ∙ sym (s.mul-smul _ _ b)
      ∙ ap (λ t. s.smul t b) (f.mul_comm _ _ ∙ f.mul-inverse (c ⊖ d) (sub-ne-zero c d ne))
      ∙ s.one-smul b
    where
      differences : (p ⊖ q) • a ≡ (c ⊖ d) • b
      differences = cancel_by_scalar F _ _ (q • a) (
          sym (s.add-smul _ _ a)
          ∙ ap (λ t. s.smul t a) (f.sub-add p q)
          ∙ first
          ∙ ap (λ t. r ⊞ t) (ap (λ t. s.smul t b) (sym (f.sub-add c d)) ∙ s.add-smul _ _ b)
          ∙ add_left_comm _ _ _
          ∙ ap (λ t. (c ⊖ d) • b ⊞ t) (sym second))

-- `reduced_pairing` is bilinear and not degenerate. `pairing` is the pairing without the final
-- exponentiation, of which nothing is asked.
pub record Pairing (F G1 G2 GT : Type 0) ⦃f : Field F⦄ ⦃g1 : Group G1⦄ ⦃g2 : Group G2⦄
    ⦃s1 : Scalars F G1⦄ ⦃s2 : Scalars F G2⦄ : Type 0 where
  pub pairing : G1 → G2 → GT
  pub reduced_pairing : G1 → G2 → GT
  pub beq : GT → GT → Bool
  pub beq_iff : (a b : GT) → (beq a b ≡ true) ↔ (a ≡ b)
  pub reduced_pairing-smul :
      (s : F) (a : G1) (b : G2) → reduced_pairing (s1.smul s a) b ≡ reduced_pairing a (s2.smul s b)
  pub reduced_pairing_injective :
      (a c : G1) (b : G2) → b ≢ g2.zero → reduced_pairing a b ≡ reduced_pairing c b → a ≡ c
