-- ===== src/Tests/Five.antt =====
-- The field of five elements, itself the groups `G1` and `G2` and the target of the pairing: an
-- instance of everything that the model takes from libff, picosha2 and the standard library.
use random_beacon.Prelude.{
  ℕ, zero, suc, ◌+◌, ◌-◌, ◌*◌, ◌<◌, ◌^◌, ◌≡◌, ◌≢◌, refl, sym, ap, ◌∙◌, ◌↔◌, [], ◌∷◌, ◌++◌, Bool,
  true, Option, some, none, arith, ◌==◌, ◌&&◌, ==_iff, if◌then◌else◌,
}
use random_beacon.Random.{Supply}
use random_beacon.Stream.{Text, Codec, newline}
use random_beacon.Algebra.Field.{Field, mul_cancel}
use random_beacon.Algebra.Group.{Group, Scalars, Pairing}
use random_beacon.Dleq.{Hasher}

pub data Five : Type 0 where
  f0 f1 f2 f3 f4 : Five

abbrev pub to_ℕ : Five → ℕ
to_ℕ f0 = 0
to_ℕ f1 = 1
to_ℕ f2 = 2
to_ℕ f3 = 3
to_ℕ f4 = 4

abbrev pub five : ℕ → Five
five zero = f0
five (suc zero) = f1
five (suc (suc zero)) = f2
five (suc (suc (suc zero))) = f3
five (suc (suc (suc (suc zero)))) = f4
five (suc (suc (suc (suc (suc n))))) = five n

abbrev pub add : Five → Five → Five
add a b = five (to_ℕ a + to_ℕ b)

abbrev pub sub : Five → Five → Five
sub a b = five (to_ℕ a + 5 - to_ℕ b)

abbrev pub mul : Five → Five → Five
mul a b = five (to_ℕ a * to_ℕ b)

abbrev pub inverse : Five → Five
inverse f2 = f3
inverse f3 = f2
inverse a = a

abbrev pub beq : Five → Five → Bool
beq a b = to_ℕ a == to_ℕ b

five-to_ℕ : (a : Five) → five (to_ℕ a) ≡ a
five-to_ℕ f0 = refl
five-to_ℕ f1 = refl
five-to_ℕ f2 = refl
five-to_ℕ f3 = refl
five-to_ℕ f4 = refl

pub beq_iff : (a b : Five) → (beq a b ≡ true) ↔ (a ≡ b)
beq_iff a b = (
  (λ e. sym (five-to_ℕ a) ∙ ap five ((==_iff (to_ℕ a) (to_ℕ b)).0 e) ∙ five-to_ℕ b),
  λ e. (==_iff (to_ℕ a) (to_ℕ b)).1 (ap to_ℕ e),
)

-- Laws by evaluation at every element.
abbrev all : (Five → Bool) → Bool
all p = p f0 && (p f1 && (p f2 && (p f3 && p f4)))

all_sound : (p : Five → Bool) → all p ≡ true → (a : Five) → p a ≡ true
all_sound p h f0 = ground arith
all_sound p h f1 = ground arith
all_sound p h f2 = ground arith
all_sound p h f3 = ground arith
all_sound p h f4 = ground arith

law1 : (l r : Five → Five) → all (λ a. beq (l a) (r a)) ≡ true → (a : Five) → l a ≡ r a
law1 l r h a = (beq_iff _ _).0 (all_sound (λ x. beq (l x) (r x)) h a)

law2 :
    (l r : Five → Five → Five)
    → all (λ a. all (λ b. beq (l a b) (r a b))) ≡ true
    → (a b : Five) → l a b ≡ r a b
law2 l r h a = law1 (l a) (r a) (all_sound (λ x. all (λ b. beq (l x b) (r x b))) h a)

law3 :
    (l r : Five → Five → Five → Five)
    → all (λ a. all (λ b. all (λ c. beq (l a b c) (r a b c)))) ≡ true
    → (a b c : Five) → l a b c ≡ r a b c
law3 l r h a = law2 (l a) (r a) (all_sound (λ x. all (λ b. all (λ c. beq (l x b c) (r x b c)))) h a)

pub add_assoc : (a b c : Five) → add (add a b) c ≡ add a (add b c)
add_assoc = law3 (λ a b c. add (add a b) c) (λ a b c. add a (add b c)) refl

pub add_comm : (a b : Five) → add a b ≡ add b a
add_comm = law2 add (λ a b. add b a) refl

pub zero-add : (a : Five) → add f0 a ≡ a
zero-add = law1 (add f0) (λ a. a) refl

pub sub-add : (a b : Five) → add (sub a b) b ≡ a
sub-add = law2 (λ a b. add (sub a b) b) (λ a b. a) refl

pub mul_assoc : (a b c : Five) → mul (mul a b) c ≡ mul a (mul b c)
mul_assoc = law3 (λ a b c. mul (mul a b) c) (λ a b c. mul a (mul b c)) refl

pub mul_comm : (a b : Five) → mul a b ≡ mul b a
mul_comm = law2 mul (λ a b. mul b a) refl

pub one-mul : (a : Five) → mul f1 a ≡ a
one-mul = law1 (mul f1) (λ a. a) refl

pub mul-add : (a b c : Five) → mul a (add b c) ≡ add (mul a b) (mul a c)
mul-add = law3 (λ a b c. mul a (add b c)) (λ a b c. add (mul a b) (mul a c)) refl

pub mul-inverse : (a : Five) → a ≢ f0 → mul a (inverse a) ≡ f1
mul-inverse f0 ne = absurd (ne refl)
mul-inverse f1 ne = refl
mul-inverse f2 ne = refl
mul-inverse f3 ne = refl
mul-inverse f4 ne = refl

pub one-ne-zero : f1 ≢ f0
one-ne-zero e = cc

to_ℕ-five : (i : ℕ) → i < 5 → to_ℕ (five i) ≡ i
to_ℕ-five zero h = refl
to_ℕ-five (suc zero) h = refl
to_ℕ-five (suc (suc zero)) h = refl
to_ℕ-five (suc (suc (suc zero))) h = refl
to_ℕ-five (suc (suc (suc (suc zero)))) h = refl
to_ℕ-five (suc (suc (suc (suc (suc n))))) h = absurd (omega arith)

pub five_injective : (i j : ℕ) → i < 5 → j < 5 → five i ≡ five j → i ≡ j
five_injective i j hi hj e = sym (to_ℕ-five i hi) ∙ ap to_ℕ e ∙ to_ℕ-five j hj

pub small : 1000 < 2 ^ 63
small = omega arith

instance abbrev pub five_field : Field Five
five_field = record {
  zero = f0;
  one = f1;
  add = add;
  mul = mul;
  sub = sub;
  inverse = inverse;
  of_long = five;
  order = 5;
  max_size = 1000;
  beq = beq;
  add_assoc = add_assoc;
  add_comm = add_comm;
  zero-add = zero-add;
  sub-add = sub-add;
  mul_assoc = mul_assoc;
  mul_comm = mul_comm;
  one-mul = one-mul;
  mul-add = mul-add;
  mul-inverse = mul-inverse;
  one-ne-zero = one-ne-zero;
  of_long-zero = refl;
  of_long_injective = five_injective;
  max_size_lt = small;
  beq_iff = beq_iff;
}

instance abbrev pub five_group : Group Five
five_group = record {
  zero = f0;
  add = add;
  beq = beq;
  add_assoc = add_assoc;
  add_comm = add_comm;
  zero-add = zero-add;
  beq_iff = beq_iff;
}

pub add-mul : (s t a : Five) → mul (add s t) a ≡ add (mul s a) (mul t a)
add-mul = law3 (λ s t a. mul (add s t) a) (λ s t a. add (mul s a) (mul t a)) refl

pub zero_mul : (a : Five) → mul f0 a ≡ f0
zero_mul = law1 (mul f0) (λ a. f0) refl

instance abbrev pub five_scalars : Scalars Five Five
five_scalars = record {
  smul = mul;
  smul-add = mul-add;
  add-smul = add-mul;
  mul-smul = mul_assoc;
  one-smul = one-mul;
  zero-smul = zero_mul;
}

pub pairing-smul : (s a b : Five) → mul (mul s a) b ≡ mul a (mul s b)
pairing-smul = law3 (λ s a b. mul (mul s a) b) (λ s a b. mul a (mul s b)) refl

pub pairing_injective : (a c b : Five) → b ≢ f0 → mul a b ≡ mul c b → a ≡ c
pairing_injective a c b ne e = mul_cancel b a c ne (mul_comm b a ∙ e ∙ mul_comm c b)

abbrev pub five_pairing : Pairing Five Five Five Five
five_pairing = record {
  pairing = mul;
  reduced_pairing = mul;
  beq = beq;
  beq_iff = beq_iff;
  reduced_pairing-smul = pairing-smul;
  reduced_pairing_injective = pairing_injective;
}

-- One digit.
abbrev pub parse_digit : Text → Option (Five × Text)
parse_digit [] = none
parse_digit (c ∷ rest) = some (five (c - 48), rest)

pub parse_digit-print :
    (a : Five) (rest : Text)
    → parse_digit ((48 + to_ℕ a) ∷ newline ∷ rest) ≡ some (a, newline ∷ rest)
parse_digit-print a rest =
    let e : 48 + to_ℕ a - 48 ≡ to_ℕ a = omega arith in
    ap (λ d. some (d, newline ∷ rest)) (ap five e ∙ five-to_ℕ a)

instance abbrev pub five_codec : Codec Five
five_codec = record {
  print = λ a. (48 + to_ℕ a) ∷ [];
  parse = parse_digit;
  parse-print = parse_digit-print;
}

-- A number is as many strokes.
abbrev pub strokes : ℕ → Text
strokes zero = []
strokes (suc n) = 49 ∷ strokes n

abbrev pub count_strokes : ℕ → Text → ℕ × Text
count_strokes n [] = (n, [])
count_strokes n (c ∷ rest) = if c == 49 then count_strokes (suc n) rest else (n, c ∷ rest)

abbrev counted : ℕ → Text → ℕ × Text
counted j rest = (j, newline ∷ rest)

count_strokes-print :
    (k n : ℕ) (rest : Text)
    → count_strokes k (strokes n ++ newline ∷ rest) ≡ (k + n, newline ∷ rest)
count_strokes-print k zero rest = ap (λ j. counted j rest) (omega arith)
count_strokes-print k (suc n) rest =
    count_strokes-print (suc k) n rest ∙ ap (λ j. counted j rest) (omega arith)

pub number_print :
    (n : ℕ) (rest : Text)
    → ◌≡◌ {A = Option (ℕ × Text)}
        (some (count_strokes 0 (strokes n ++ newline ∷ rest)))
        (some (n, newline ∷ rest))
number_print n rest =
    ap some (count_strokes-print 0 n rest ∙ ap (λ j. counted j rest) (omega arith))

instance abbrev pub number_codec : Codec ℕ
number_codec = record {
  print = strokes;
  parse = λ text. some (count_strokes 0 text);
  parse-print = number_print;
}

abbrev pub text_sum : Text → ℕ
text_sum [] = 0
text_sum (c ∷ rest) = c + text_sum rest

instance abbrev pub five_hasher : Hasher Five
five_hasher = record {
  hash256_hex_string = λ text. text;
  field_of_hex = λ text. five (text_sum text);
}

abbrev pub counting : Supply Five
counting i = five (i + 2)
