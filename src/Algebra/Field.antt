-- ===== src/Algebra/Field.antt =====
-- The scalar field `Fr` of the curve, as the program uses it.
use random_beacon.Prelude.{
  ℕ, ◌^◌, ◌<◌, ◌≡◌, sym, ap, ◌∙◌, ◌≢◌, ◌↔◌, ◌⊎◌, inl, inr, Bool, true, false, Bool-cases,
}

-- `of_long` is the constructor from `long`, at numbers that are not negative, `order` the number of
-- the scalars, and `max_size` the greatest length of a vector of scalars (`vector::max_size`).
pub record Field (F : Type 0) : Type 0 where
  pub zero : F
  pub one : F
  pub add : F → F → F
  pub mul : F → F → F
  pub sub : F → F → F
  pub inverse : F → F
  pub of_long : ℕ → F
  pub order : ℕ
  pub max_size : ℕ
  pub beq : F → F → Bool
  pub add_assoc : (a b c : F) → add (add a b) c ≡ add a (add b c)
  pub add_comm : (a b : F) → add a b ≡ add b a
  pub zero-add : (a : F) → add zero a ≡ a
  pub sub-add : (a b : F) → add (sub a b) b ≡ a
  pub mul_assoc : (a b c : F) → mul (mul a b) c ≡ mul a (mul b c)
  pub mul_comm : (a b : F) → mul a b ≡ mul b a
  pub one-mul : (a : F) → mul one a ≡ a
  pub mul-add : (a b c : F) → mul a (add b c) ≡ add (mul a b) (mul a c)
  pub mul-inverse : (a : F) → a ≢ zero → mul a (inverse a) ≡ one
  pub one-ne-zero : one ≢ zero
  pub of_long-zero : of_long 0 ≡ zero
  pub of_long_injective : (i j : ℕ) → i < order → j < order → of_long i ≡ of_long j → i ≡ j
  pub max_size_lt : max_size < 2 ^ 63
  pub beq_iff : (a b : F) → (beq a b ≡ true) ↔ (a ≡ b)

module _ {F : Type 0} ⦃f : Field F⦄ where
  infixl 65 ◌⊕◌ ◌⊖◌
  infixl 70 ◌⊗◌
  abbrev pub ◌⊕◌ : F → F → F
  a ⊕ b = f.add a b

  abbrev pub ◌⊖◌ : F → F → F
  a ⊖ b = f.sub a b

  abbrev pub ◌⊗◌ : F → F → F
  a ⊗ b = f.mul a b

  abbrev pub 𝟘 : F
  𝟘 = f.zero

  abbrev pub 𝟙 : F
  𝟙 = f.one

  abbrev pub neg : F → F
  neg a = f.sub f.zero a

  pub add-zero : (a : F) → a ⊕ f.zero ≡ a
  add-zero a = f.add_comm a f.zero ∙ f.zero-add a

  pub add_left_comm : (a b c : F) → f.add a (f.add b c) ≡ f.add b (f.add a c)
  add_left_comm a b c =
      sym (f.add_assoc a b c) ∙ ap (λ t. t ⊕ c) (f.add_comm a b) ∙ f.add_assoc b a c

  pub mul_left_comm : (a b c : F) → f.mul a (f.mul b c) ≡ f.mul b (f.mul a c)
  mul_left_comm a b c =
      sym (f.mul_assoc a b c) ∙ ap (λ t. t ⊗ c) (f.mul_comm a b) ∙ f.mul_assoc b a c

  pub add-neg : (a : F) → a ⊕ neg a ≡ f.zero
  add-neg a = f.add_comm a (neg a) ∙ f.sub-add f.zero a

  pub add-add-neg : (a b : F) → (a ⊕ b) ⊕ neg b ≡ a
  add-add-neg a b = f.add_assoc a b (neg b) ∙ ap (λ t. a ⊕ t) (add-neg b) ∙ add-zero a

  -- A summand can be cancelled on the right.
  pub add_cancel : (a b c : F) → a ⊕ c ≡ b ⊕ c → a ≡ b
  add_cancel a b c e = sym (add-add-neg a c) ∙ ap (λ t. t ⊕ neg c) e ∙ add-add-neg b c

  pub sub-eq-add-neg : (a b : F) → a ⊖ b ≡ a ⊕ neg b
  sub-eq-add-neg a b = add_cancel (a ⊖ b) (a ⊕ neg b) b (
      f.sub-add a b
      ∙ sym (f.add_assoc a (neg b) b ∙ ap (λ t. a ⊕ t) (f.sub-add f.zero b) ∙ add-zero a))

  pub add-mul : (a b c : F) → f.mul (f.add a b) c ≡ f.add (f.mul a c) (f.mul b c)
  add-mul a b c = simp (f.mul_comm, f.mul-add)

  pub zero-mul : (a : F) → f.zero ⊗ a ≡ f.zero
  zero-mul a = add_cancel (f.zero ⊗ a) f.zero (f.zero ⊗ a) (
      sym (add-mul f.zero f.zero a)
      ∙ ap (λ t. t ⊗ a) (f.zero-add f.zero)
      ∙ sym (f.zero-add (f.zero ⊗ a)))

  pub mul-zero : (a : F) → a ⊗ f.zero ≡ f.zero
  mul-zero a = f.mul_comm a f.zero ∙ zero-mul a

  pub mul-one : (a : F) → a ⊗ f.one ≡ a
  mul-one a = f.mul_comm a f.one ∙ f.one-mul a

  pub neg_unique : (a b : F) → a ⊕ b ≡ f.zero → b ≡ neg a
  neg_unique a b e = add_cancel b (neg a) a (f.add_comm b a ∙ e ∙ sym (f.sub-add f.zero a))

  pub mul-neg : (a b : F) → a ⊗ neg b ≡ neg (a ⊗ b)
  mul-neg a b =
      neg_unique (a ⊗ b) (a ⊗ neg b)
        (sym (f.mul-add a b (neg b)) ∙ ap (λ t. a ⊗ t) (add-neg b) ∙ mul-zero a)

  pub neg-neg : (a : F) → neg (neg a) ≡ a
  neg-neg a = sym (neg_unique (neg a) a (f.sub-add f.zero a))

  pub sub-ne-zero : (a b : F) → a ≢ b → a ⊖ b ≢ f.zero
  sub-ne-zero a b ne e = ne (sym (f.sub-add a b) ∙ ap (λ t. t ⊕ b) e ∙ f.zero-add b)

  pub sub_self : (a : F) → a ⊖ a ≡ f.zero
  sub_self a = sub-eq-add-neg a a ∙ add-neg a

  -- A factor that is not zero can be cancelled on the left.
  pub mul_cancel : (c a b : F) → c ≢ f.zero → c ⊗ a ≡ c ⊗ b → a ≡ b
  mul_cancel c a b ne e = sym (undo a) ∙ ap (λ t. f.inverse c ⊗ t) e ∙ undo b
    where
      undo : (t : F) → f.inverse c ⊗ (c ⊗ t) ≡ t
      undo t =
          sym (f.mul_assoc (f.inverse c) c t)
          ∙ ap (λ s. s ⊗ t) (f.mul_comm (f.inverse c) c ∙ f.mul-inverse c ne)
          ∙ f.one-mul t

  pub mul-ne-zero : (a b : F) → a ≢ f.zero → b ≢ f.zero → a ⊗ b ≢ f.zero
  mul-ne-zero a b ha hb e = hb (mul_cancel a b f.zero ha (e ∙ sym (mul-zero a)))

  pub sub-zero : (a : F) → a ⊖ f.zero ≡ a
  sub-zero a = sym (add-zero (a ⊖ f.zero)) ∙ f.sub-add a f.zero

  pub Field-dec : (a b : F) → (a ≡ b) ⊎ (a ≢ b)
  Field-dec a b = go (Bool-cases (f.beq a b))
    where
      go : (f.beq a b ≡ true) ⊎ (f.beq a b ≡ false) → (a ≡ b) ⊎ (a ≢ b)
      go (inl e) = inl ((f.beq_iff a b).0 e)
      go (inr e) = inr (λ p. cc (e, (f.beq_iff a b).1 p))
