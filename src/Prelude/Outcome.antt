-- ===== src/Prelude/Outcome.antt =====
-- What a call of the program ends in: a value, or the exception or failed assertion that stops it.
-- The loops of the program are `for_range` and `collect`, over an index that counts from 0.
use Prim.Native.Nat.{ℕ, zero, suc, ◌<◌}
use mathlib.Core.Path.{◌≡◌, refl, ap, fun_ext}
use mathlib.Core.Bool.{Bool, true, false}
use mathlib.Core.Option.{none, some}
use mathlib.Core.List.{List, [], ◌∷◌}
use native.Mathlib.Omega.{arith}
use random_beacon.Prelude.Lists.{length, get_elem?, tabulate}

-- `out_of_range` is thrown by `vector::at`, `length_error` by a vector that is asked to grow past
-- its largest size, `insufficient_evaluations` by the interpolations; `assertion` is a failed
-- `assert`, `bad_stream` text that the reader does not accept, and `undefined` a null pointer or
-- an access out of bounds, which C++ gives no meaning. `bad_path` is thrown by the constructor of a
-- Merkle path. The others are named after their messages.
pub data Error : Type 0 where
  out_of_range length_error insufficient_evaluations assertion bad_stream undefined : Error
  rid_not_found aggregation_failed bad_path n_must_be_positive context_file_error bad_address :
      Error

pub data Result {ℓ} (A : Type ℓ) : Type ℓ where
  err : Error → Result A
  ok : A → Result A

-- An assertion, or a test whose failure throws.
abbrev pub require : Bool → Error → Result (Unit {0})
require holds e = elim holds [ true ↦ ok tt | false ↦ err e ]

-- The next step runs unless one before it stopped.
infixl 5 ◌>>=◌
abbrev pub ◌>>=◌ {ℓ κ} : {A : Type ℓ} {B : Type κ} → Result A → (A → Result B) → Result B
err e >>= next = err e
ok a >>= next = next a

infixl 5 ◌>>◌
abbrev pub ◌>>◌ {κ} : {B : Type κ} → Result (Unit {0}) → Result B → Result B
first >> next = first >>= λ done. next

-- `vector::at`
abbrev pub at {ℓ} : {A : Type ℓ} → List A → ℕ → Result A
at xs i = elim (get_elem? xs i) [ none ↦ err out_of_range | some a ↦ ok a ]

abbrev pub result_map {ℓ κ} : {A : Type ℓ} {B : Type κ} → (A → B) → Result A → Result B
result_map h (ok a) = ok (h a)
result_map h (err e) = err e

-- `for (i = 0; i < n; i++) if (!test(i)) return false; return true;`
unfoldable pub check_all : ℕ → (ℕ → Result Bool) → Result Bool
check_all zero test = ok true
check_all (suc n) test =
    test 0 >>= elim [ true ↦ check_all n (λ i. test (suc i)) | false ↦ ok false ]

pub check_all-true :
    (n : ℕ) (test : ℕ → Result Bool)
    → ((i : ℕ) → i < n → test i ≡ ok true)
    → check_all n test ≡ ok true
unfolding check_all
check_all-true zero test h = refl
check_all-true (suc n) test h =
    rw (h 0 (omega arith)) (check_all-true n (λ i. test (suc i)) (λ i p. h (suc i) (omega arith)))

true_then :
    (outcome rest : Result Bool)
    → (outcome >>= elim [ true ↦ rest | false ↦ ok false ]) ≡ ok true
    → (outcome ≡ ok true) × (rest ≡ ok true)
true_then (err e) rest h = cc
true_then (ok true) rest h = (refl, h)
true_then (ok false) rest h = cc

-- Where all the tests pass, each does.
pub check_all-each :
    (n : ℕ) (test : ℕ → Result Bool)
    → check_all n test ≡ ok true
    → (i : ℕ) → i < n
    → test i ≡ ok true
unfolding check_all
check_all-each zero test h i less = absurd (omega arith)
check_all-each (suc n) test h zero less = (true_then (test 0) _ h).0
check_all-each (suc n) test h (suc i) less =
    check_all-each n (λ k. test (suc k)) (true_then (test 0) _ h).1 i (omega arith)

module _ {ℓ} {A : Type ℓ} where
  -- `for (i = 0; i < n; i++) a = body(i, a);`
  unfoldable pub for_range : ℕ → (ℕ → A → Result A) → A → Result A
  for_range zero body a = ok a
  for_range (suc n) body a = body 0 a >>= for_range n (λ i. body (suc i))

  -- The same with a body that cannot fail.
  unfoldable pub fold_range : ℕ → (ℕ → A → A) → A → A
  fold_range zero body a = a
  fold_range (suc n) body a = fold_range n (λ i. body (suc i)) (body 0 a)

  -- `for (i = 0; i < n; i++) v.push_back(f(i));`
  unfoldable pub collect : ℕ → (ℕ → Result A) → Result (List A)
  collect zero f = ok []
  collect (suc n) f = do a ← f 0; rest ← collect n (λ i. f (suc i)); ok (a ∷ rest)

  pub for_range-ok :
      (n : ℕ) (body : ℕ → A → Result A) (g : ℕ → A → A)
      → ((i : ℕ) → i < n → (a : A) → body i a ≡ ok (g i a))
      → (a : A) → for_range n body a ≡ ok (fold_range n g a)
  unfolding for_range fold_range
  for_range-ok zero body g h a = refl
  for_range-ok (suc n) body g h a =
      rw (h 0 (omega arith) a)
        (for_range-ok n (λ i. body (suc i)) (λ i. g (suc i)) (λ i p. h (suc i) (omega arith)) _)

  pub fold_range_congr :
      (n : ℕ) (g h : ℕ → A → A)
      → ((i : ℕ) → i < n → (a : A) → g i a ≡ h i a)
      → (a : A) → fold_range n g a ≡ fold_range n h a
  unfolding fold_range
  fold_range_congr zero g h e a = refl
  fold_range_congr (suc n) g h e a =
      rw (e 0 (omega arith) a)
        (fold_range_congr n (λ i. g (suc i)) (λ i. h (suc i)) (λ i p. e (suc i) (omega arith)) _)

  -- The last round of a loop stands apart.
  pub fold_range-suc :
      (n : ℕ) (g : ℕ → A → A) (a : A) → fold_range (suc n) g a ≡ g n (fold_range n g a)
  unfolding fold_range
  fold_range-suc zero g a = refl
  fold_range-suc (suc n) g a = fold_range-suc n (λ i. g (suc i)) (g 0 a)

  pub collect-ok :
      (n : ℕ) (f : ℕ → Result A) (g : ℕ → A)
      → ((i : ℕ) → i < n → f i ≡ ok (g i))
      → collect n f ≡ ok (tabulate n g)
  unfolding collect
  collect-ok zero f g h = refl
  collect-ok (suc n) f g h = rw (
    h 0 (omega arith),
    collect-ok n (λ i. f (suc i)) (λ i. g (suc i)) (λ i p. h (suc i) (omega arith)),
  )

  -- A loop over the indices of a vector is a recursion on the vector.
  unfoldable pub fold_list {κ} : {B : Type κ} → (A → B → Result B) → List A → B → Result B
  fold_list step [] b = ok b
  fold_list step (x ∷ xs) b = step x b >>= fold_list step xs

module _ {ℓ κ} {A : Type ℓ} {B : Type κ} where
  pub for_range-at :
      (xs : List A) (step : A → B → Result B) (b : B)
      → for_range (length xs) (λ i b'. at xs i >>= λ x. step x b') b ≡ fold_list step xs b
  unfolding for_range fold_list
  for_range-at [] step b = refl
  for_range-at (x ∷ xs) step b = ap (λ k. step x b >>= k) (fun_ext (for_range-at xs step))

  -- A loop whose rounds follow those of another through a map of the states.
  pub for_range-map :
      (n : ℕ) (h : A → B) (body : ℕ → A → Result A) (body' : ℕ → B → Result B)
      → ((i : ℕ) (a : A) → body' i (h a) ≡ result_map h (body i a))
      → (a : A) → for_range n body' (h a) ≡ result_map h (for_range n body a)
  unfolding for_range
  for_range-map zero h body body' e a = refl
  for_range-map (suc n) h body body' e a = rw (e 0 a) (
      rest (for_range-map n h (λ i. body (suc i)) (λ i. body' (suc i)) (λ i. e (suc i))) (body 0 a))
    where
      rest :
          ((a' : A)
            → for_range n (λ i. body' (suc i)) (h a')
              ≡ result_map h (for_range n (λ i. body (suc i)) a'))
          → (r : Result A)
          → (result_map h r >>= for_range n (λ i. body' (suc i)))
            ≡ result_map h (r >>= for_range n (λ i. body (suc i)))
      rest ih (ok a') = ih a'
      rest ih (err x) = refl

pub some_injective : {A : Type 0} {x y : A} → some x ≡ some y → x ≡ y
some_injective e = cc

pub ok_injective : {A : Type 0} {x y : A} → ok x ≡ ok y → x ≡ y
ok_injective e = cc

-- Both steps of a call that returns have returned.
pub >>=-eq-ok {ℓ κ} :
    {A : Type ℓ} {B : Type κ} (m : Result A) (next : A → Result B) {b : B}
    → (m >>= next) ≡ ok b
    → (a : A) × (m ≡ ok a) × (next a ≡ ok b)
>>=-eq-ok (ok a) next h = (a, refl, h)
>>=-eq-ok (err e) next h = cc
