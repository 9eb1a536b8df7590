-- ===== src/Drg/Lottery.antt =====
-- `unsigned_char_compare` of include/DrgCore.hpp, and the draw that `DrgCore::vrf` of
-- src/DrgCore.cpp decides with it; what it deals is a list of messages. The hash is the output of
-- libsodium's function.
use random_beacon.Prelude.{
  ℕ, zero, suc, ◌≤◌, ◌<◌, ◌≡◌, refl, sym, ap, ◌∙◌, ◌↔◌, List, [], ◌∷◌, Bool, true, not, none, some,
  Result, ok, err, undefined, ◌>>=◌, if◌then◌else◌, ltb, length, get_elem?, get_elem?-get_or,
  get_or, replicate, check_all, check_all-true, check_all-each, ok_injective, arith,
}
use random_beacon.Random
use random_beacon.Random.{Rand}

-- `a[i]` of a plain array.
abbrev read : List ℕ → ℕ → Result ℕ
read a i = elim (get_elem? a i) [ none ↦ err undefined | some x ↦ ok x ]

unfoldable pub unsigned_char_compare : List ℕ → List ℕ → ℕ → Result Bool
unsigned_char_compare a b len =
    check_all len (λ i. do x ← read a i; y ← read b i; ok (not (ltb y x)))

-- What the constructor of `DrgCore` writes to `difficulty`, of suc n bytes.
unfoldable pub make_difficulty : ℕ → List ℕ
make_difficulty n = 128 ∷ replicate n 0

-- `DrgCore::vrf`, after `vrf_hash`.
unfoldable pub vrf : {F E : Type 0} → List ℕ → List ℕ → ℕ → Rand F (List E) → Rand F (List E)
unfolding unsigned_char_compare
vrf hash difficulty outputbytes deliver_chunk =
    Random.◌>>=◌ (Random.lift (unsigned_char_compare hash difficulty outputbytes))
      λ wins. if wins then deliver_chunk else Random.pure []

read-ok : (a : List ℕ) (i : ℕ) → i < length a → read a i ≡ ok (get_or a i 0)
read-ok a i h = rw (get_elem?-get_or a i 0 h, read)

not_above : (x y : ℕ) → (not (ltb y x) ≡ true) ↔ (x ≤ y)
not_above x y = ground arith

-- `unsigned_char_compare` is true exactly when no byte of the first array is above the byte of the
-- second at the same index, where both arrays have the bytes that are compared.
pub unsigned_char_compare_iff :
    (a b : List ℕ) (len : ℕ)
    → len ≤ length a
    → len ≤ length b
    → (unsigned_char_compare a b len ≡ ok true) ↔ ((i : ℕ) → i < len → get_or a i 0 ≤ get_or b i 0)
unfolding unsigned_char_compare
unsigned_char_compare_iff a b len ha hb = (
  λ e i p. (not_above _ _).0 (ok_injective (sym (bytes i p) ∙ check_all-each len _ e i p)),
  λ all. check_all-true len _ (λ i p. bytes i p ∙ ap ok ((not_above _ _).1 (all i p))),
)
  where
    compared : ℕ → Bool
    compared i = not (ltb (get_or b i 0) (get_or a i 0))

    bytes :
        (i : ℕ)
        → i < len
        → (read a i >>= λ x. read b i >>= λ y. ok (not (ltb y x))) ≡ ok (compared i)
    bytes i p = rw (read-ok a i (omega arith), read-ok b i (omega arith))

length-replicate : (n : ℕ) → length {A = ℕ} (replicate n 0) ≡ n
length-replicate zero = refl
length-replicate (suc n) = ap suc (length-replicate n)

get_or-replicate : (n i : ℕ) → get_or {A = ℕ} (replicate n 0) i 0 ≡ 0
get_or-replicate zero i = refl
get_or-replicate (suc n) zero = refl
get_or-replicate (suc n) (suc i) = get_or-replicate n i

-- A hash of at least suc n bytes, of which suc n are compared, passes the test of `vrf` exactly
-- when its first byte is at most 128 and every other byte that is compared is 0.
pub make_difficulty_iff :
    (hash : List ℕ) (n : ℕ)
    → suc n ≤ length hash
    → (unsigned_char_compare hash (make_difficulty n) (suc n) ≡ ok true)
      ↔ ((get_or hash 0 0 ≤ 128) × ((i : ℕ) → i < n → get_or hash (suc i) 0 ≡ 0))
unfolding make_difficulty
make_difficulty_iff hash n h =
    let bytes =
      unsigned_char_compare_iff hash (128 ∷ replicate n 0) (suc n) h
        (omega (arith, length-replicate n)) in
    (
      λ e. (
        bytes.0 e 0 (omega arith),
        λ i p. omega (arith, bytes.0 e (suc i) (omega arith), get_or-replicate n i),
      ),
      λ both. bytes.1 (λ i p. below both i p),
    )
  where
    below :
        (get_or hash 0 0 ≤ 128) × ((i : ℕ) → i < n → get_or hash (suc i) 0 ≡ 0)
        → (i : ℕ) → i < suc n
        → get_or hash i 0 ≤ get_or (128 ∷ replicate n 0) i 0
    below both zero p = both.0
    below both (suc i) p = omega (arith, both.1 i (omega arith), get_or-replicate n i)
