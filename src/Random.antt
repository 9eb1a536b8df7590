-- ===== src/Random.antt =====
-- `Fr::random_element()` draws from a supply of scalars, which the caller chooses. A computation
-- that draws returns the supply that is left, unless it stops by an exception.
use random_beacon.Prelude.{
  ℕ, zero, suc, ◌<◌, ◌≡◌, refl, List, [], ◌∷◌, Error, Result, ok, err, tabulate, arith,
  ok_injective, Bool, true, false, not, if◌then◌else◌, sym, ap, ◌∙◌, length, at,
}

abbrev pub Supply : Type 0 → Type 0
Supply F = ℕ → F

abbrev pub Rand : Type 0 → Type 0 → Type 0
Rand F A = Supply F → Result (A × Supply F)

abbrev pub random_element : {F : Type 0} → Rand F F
random_element supply = ok (supply 0, λ i. supply (suc i))

module _ {F : Type 0} where
  abbrev pub go_on : {A B : Type 0} → Result (A × Supply F) → (A → Rand F B) → Result (B × Supply F)
  go_on (ok (a, rest)) k = k a rest
  go_on (err e) k = err e

  infixl 5 ◌>>=◌ ◌>>◌
  abbrev pub ◌>>=◌ : {A B : Type 0} → Rand F A → (A → Rand F B) → Rand F B
  ◌>>=◌ m k supply = go_on (m supply) k

  abbrev pub ◌>>◌ : {B : Type 0} → Rand F (Unit {0}) → Rand F B → Rand F B
  m >> k = m >>= λ _. k

  abbrev pub pure : {A : Type 0} → A → Rand F A
  pure a supply = ok (a, supply)

  abbrev pub raise : {A : Type 0} → Error → Rand F A
  raise e supply = err e

  -- A call that draws nothing.
  abbrev pub lift : {A : Type 0} → Result A → Rand F A
  lift (ok a) supply = ok (a, supply)
  lift (err e) supply = err e

  -- `for (i = 0; i < n; i++) v.push_back(f(i));`
  unfoldable pub draws : {A : Type 0} → ℕ → (ℕ → Rand F A) → Rand F (List A)
  draws zero f = pure []
  draws (suc n) f = do a ← f 0; rest ← draws n (λ i. f (suc i)); pure (a ∷ rest)

  -- What is left of a supply after `n` draws.
  unfoldable pub after : ℕ → Supply F → Supply F
  after zero supply = supply
  after (suc n) supply = after n (λ i. supply (suc i))

  -- A loop whose bodies draw one scalar each hands the `i`-th of them to the `i`-th body.
  pub draws-ok :
      {A : Type 0} (n : ℕ) (f : ℕ → Rand F A) (g : ℕ → F → A)
      → ((i : ℕ) → i < n → (s : Supply F) → f i s ≡ ok (g i (s 0), λ k. s (suc k)))
      → (s : Supply F) → draws n f s ≡ ok (tabulate n (λ i. g i (s i)), after n s)
  unfolding draws after
  draws-ok zero f g h s = refl
  draws-ok (suc n) f g h s = rw (
    h 0 (omega arith) s,
    draws-ok n (λ i. f (suc i)) (λ i. g (suc i)) (λ i p. h (suc i) (omega arith)) (λ k. s (suc k)),
  )

  -- A loop whose bodies return, whatever the supply, with values that have a property of the index.
  pub draws-each :
      {A : Type 0} (n : ℕ) (f : ℕ → Rand F A) (P : ℕ → A → Type 0)
      → ((i : ℕ)
          → i < n
          → (s : Supply F) → (a : A) × (s' : Supply F) × (f i s ≡ ok (a, s')) × P i a)
      → (s : Supply F)
      → (xs : List A) × (s' : Supply F) × (draws n f s ≡ ok (xs, s'))
        × (length xs ≡ n)
        × ((i : ℕ) → i < n → (a : A) × (at xs i ≡ ok a) × P i a)
  unfolding draws
  draws-each zero f P each s = ([], s, refl, refl, λ i h. absurd (omega arith))
  draws-each {A} (suc n) f P each s =
      let (a, s1, first, holds) = each 0 (omega arith) s in
      let (xs, s2, others, count, all) =
        draws-each n (λ i. f (suc i)) (λ i. P (suc i)) (λ i h. each (suc i) (omega arith)) s1 in
      (a ∷ xs, s2, rw (first, others), ap suc count, indexed a xs holds all)
    where
      indexed :
          (a : A) (xs : List A)
          → P 0 a
          → ((i : ℕ) → i < n → (x : A) × (at xs i ≡ ok x) × P (suc i) x)
          → (i : ℕ) → i < suc n
          → (x : A) × (at (a ∷ xs) i ≡ ok x) × P i x
      indexed a xs holds all zero h = (a, refl, holds)
      indexed a xs holds all (suc i) h = all i (omega arith)

module _ {F A B : Type 0} where
  -- What a call that draws nothing is followed by.
  pub lift-eq-ok :
      (m : Result A) (next : A → Rand F B) (s : Supply F) {r : B × Supply F}
      → (lift m >>= next) s ≡ ok r
      → (x : A) × (m ≡ ok x) × (next x s ≡ ok r)
  lift-eq-ok (ok x) next s h = (x, refl, h)
  lift-eq-ok (err x) next s h = cc

module _ {F A B : Type 0} where
  pub bind-eq-ok :
      (m : Rand F A) (next : A → Rand F B) (s : Supply F) {r : B × Supply F}
      → (m >>= next) s ≡ ok r
      → (x : A) × (s' : Supply F) × (m s ≡ ok (x, s')) × (next x s' ≡ ok r)
  bind-eq-ok m next s h = inverted (m s) refl h
    where
      inverted :
          (result : Result (A × Supply F)) {r : B × Supply F}
          → m s ≡ result
          → go_on result next ≡ ok r
          → (x : A) × (s' : Supply F) × (m s ≡ ok (x, s')) × (next x s' ≡ ok r)
      inverted (ok (x, s')) e h = (x, s', e, h)
      inverted (err x) e h = cc

module _ {F A : Type 0} where
  -- A call that stops is followed by nothing.
  pub stopped :
      {B : Type 0} (m : Rand F A) (next : A → Rand F B) (s : Supply F) {x : Error}
      {r : B × Supply F}
      → m s ≡ err x
      → (m >>= next) s ≡ ok r
      → ⊥
  stopped m next s stops h = let never = sym (ap (λ q. go_on q next) stops) ∙ h in cc

  pub lift-ok :
      (m : Result A) (s : Supply F) {r : A × Supply F}
      → lift m s ≡ ok r
      → (x : A) × (m ≡ ok x) × ((x, s) ≡ r)
  lift-ok (ok x) s h = (x, refl, ok_injective h)
  lift-ok (err x) s h = cc

  pub of_if :
      {Q : Type 0} (test : Bool) (m n : Rand F A) (s : Supply F) {r : A × Supply F}
      → (m s ≡ ok r → Q)
      → (n s ≡ ok r → Q)
      → (if test then m else n) s ≡ ok r
      → Q
  of_if true m n s first second h = first h
  of_if false m n s first second h = second h

-- `if (!test) return false;` before a call that returns true.
pub passes_test :
    {F : Type 0} (test : Bool) (next : Rand F Bool) (supply : Supply F) {rest : Supply F}
    → (if not test then pure false else next) supply ≡ ok (true, rest)
    → (test ≡ true) × (next supply ≡ ok (true, rest))
passes_test true next supply h = (refl, h)
passes_test false next supply {rest} h =
    let impossible : ◌≡◌ {A = Bool × Supply _} (false, supply) (true, rest) = ok_injective h in cc
