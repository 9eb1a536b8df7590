-- ===== src/Erasure/Blocks.antt =====
-- What `Erasure::decode` of include/erasure.h makes of the chunks of `Erasure::encode`.
use random_beacon.Prelude.{
  ℕ, zero, suc, ◌+◌, ◌-◌, ◌*◌, ◌/◌, ◌^◌, ◌≤◌, ◌<◌, ◌≡◌, refl, ap, ◌∙◌, subst, false, Bool-cases,
  inl, inr, Result, ok, length, take, drop, length-take, length-drop, take-take, take-split, ltb,
  ltb→lt, lt→ltb, le→ltb, ne→==, require, ◌>>◌, arith, undefined,
}
use native.Mathlib.Nat.{
  mul_assoc, mul_comm, mul_left_comm, add-mul, mul-div_cancel_left, div-mul-le_self, lt-div-mul-add,
}
use random_beacon.Erasure.{Bytes, block_size, split, read_bytes, join}

read_bytes-ok : (base : Bytes) (n : ℕ) → n ≤ length base → read_bytes base n ≡ ok (take n base)
read_bytes-ok base n h = rw (le→ltb (length base) n h)

not-ltb : (a b : ℕ) → ltb a b ≡ false → b ≤ a
not-ltb a b h = ground arith

pub join-split :
    (blocksize size k j : ℕ) (t : Bytes)
    → length t ≡ k * blocksize
    → j ≤ size
    → size ≤ j + k * blocksize
    → join blocksize size j (split blocksize k t) ≡ ok (take (size - j) t)
unfolding join split
join-split blocksize size zero j t h low high =
    let gone : 0 ≡ size - j = omega arith in ap (λ n. ok (take n t)) gone
join-split blocksize size (suc k) j t h low high = elim (Bool-cases (ltb size (j + blocksize))) [
  | inl q ↦
      let part : blocksize - (j + blocksize - size) ≡ size - j =
        omega (arith, ltb→lt size (j + blocksize) q) in
      rw q (
        read_bytes-ok (take blocksize t) (blocksize - (j + blocksize - size)) (omega (arith, whole))
        ∙ ap ok (take-take (blocksize - (j + blocksize - size)) blocksize t (omega arith))
        ∙ ap (λ n. ok (take n t)) part)
  | inr q ↦
      rw
        (
          q,
          read_bytes-ok (take blocksize t) blocksize (omega (arith, whole)),
          take-take blocksize blocksize t (omega arith),
          join-split blocksize size k (j + blocksize) (drop blocksize t)
              (omega (arith, length-drop blocksize t (omega arith)))
              (not-ltb size (j + blocksize) q) (omega arith),
        )
        (ap ok (
          take-split blocksize (size - (j + blocksize)) (size - j) t
            (omega (arith, not-ltb size (j + blocksize) q))))
]
  where
    whole : length (take blocksize t) ≡ blocksize
    whole = length-take blocksize t (omega arith)

abbrev pub Fits : ℕ → ℕ → Result (ℕ × ℕ) → Type 0
Fits k size sizes =
    (blocksize : ℕ) × (sizes ≡ ok (k * blocksize, blocksize)) × (size ≤ k * blocksize)

rounded :
    (k w size x : ℕ)
    → 0 < k
    → x * (k * w * 8) < 2 ^ 31
    → size ≤ x * (k * w * 8)
    → Fits k size (
        require (ltb (x * (k * w * 8)) (2 ^ 31)) undefined
        >> ok (x * (k * w * 8), x * (k * w * 8) / k))
rounded k w size x hk small enough =
    let factored : x * (k * w * 8) ≡ k * (x * (w * 8)) =
      simp (mul_assoc, mul_comm, mul_left_comm) in
    (
      x * (w * 8),
      rw (lt→ltb (x * (k * w * 8)) (2 ^ 31) small, factored, mul-div_cancel_left (x * (w * 8)) hk),
      subst (λ n. size ≤ n) factored enough,
    )

-- The sizes of `block_size` for a text that is not too long: k blocks that hold the text.
pub block_size_lem :
    (k w size : ℕ)
    → 0 < k
    → 0 < k * w * 8
    → size + k * w * 8 < 2 ^ 31
    → Fits k size (block_size k w size)
unfolding block_size
block_size_lem k w size hk unit small =
    let low = div-mul-le_self size (k * w * 8) in
    let high = lt-div-mul-add {a = size} unit in
    rw (ne→== (k * w * 8) 0 (λ e. omega arith))
      (elim (Bool-cases (ltb (size / (k * w * 8) * (k * w * 8)) size)) [
        | inl q ↦ rw q (
            rounded k w size (size / (k * w * 8) + 1) hk
              (omega (arith, low, add-mul (size / (k * w * 8)) 1 (k * w * 8)))
              (omega (arith, high, add-mul (size / (k * w * 8)) 1 (k * w * 8))))
        | inr q ↦ rw q (
            rounded k w size (size / (k * w * 8)) hk (omega (arith, low))
              (not-ltb (size / (k * w * 8) * (k * w * 8)) size q))
      ])

pub length-split : (blocksize k : ℕ) (t : Bytes) → length (split blocksize k t) ≡ k
unfolding split
length-split blocksize zero t = refl
length-split blocksize (suc k) t = ap suc (length-split blocksize k (drop blocksize t))
