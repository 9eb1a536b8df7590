-- ===== src/Drg/Core/Gathered.antt =====
-- The chunks that `on_receive_shareChunk` of src/DrgCore.cpp decodes, as `Erasure::decode` takes
-- them.
use random_beacon.Prelude.{
  ok_injective, fold_range, ℕ, zero, suc, ◌+◌, ◌≤◌, ◌<◌, ◌≡◌, ◌≢◌, refl, sym, ap, ◌∙◌, List, [],
  ◌∷◌, ◌++◌, map, Option, some, ok, length, length-append, length-take, get_or, take, replicate,
  tabulate, collect-ok, map-tabulate, lookup, arith,
}
use random_beacon.Erasure.{chunk_at, Chunk, Bytes}
use random_beacon.Erasure.Recovered.{
  chunk_at-chunks_of, chunks_of, Received, Outside, tabulate-get_or,
}
use random_beacon.Drg.Core.{touch, Row, gather, pointer, follow}

-- A row that has the first k of some blocks, as chunks of a text of the given size.
abbrev pub HasChunks : ℕ → ℕ → List Bytes → Row → Type 0
HasChunks k size sent row =
    (i : ℕ) → i < k → lookup i row ≡ some (some (record { size = size; bytes = get_or sent i [] }))

-- A row that has the first k of some chunks.
abbrev pub HoldsChunks : ℕ → List Chunk → Row → Type 0
HoldsChunks k chunks row =
    (i : ℕ) → i < k → (c : Chunk) × (chunk_at chunks i ≡ ok c) × (lookup i row ≡ some (some c))

pub HoldsChunks-HasChunks :
    (k size : ℕ) (sent : List Bytes) (row : Row)
    → k ≤ length sent
    → HoldsChunks k (chunks_of size sent) row
    → HasChunks k size sent row
HoldsChunks-HasChunks k size sent row enough holds i less =
    let (c, sent_chunk, stored) = holds i less in
    stored
    ∙ ap (λ x. some (some x))
        (ok_injective (sym sent_chunk ∙ chunk_at-chunks_of size sent i (omega arith)))

-- Such a row has no empty entry to make.
touch_there : (i : ℕ) (row : Row) (c : Option Chunk) → lookup i row ≡ some c → touch i row ≡ row
unfolding touch
touch_there i row c there = rw (touch, there) refl

touched :
    (n : ℕ) (index : ℕ → ℕ) (row : Row)
    → ((i : ℕ) → i < n → (c : Option Chunk) × (lookup (index i) row ≡ some c))
    → fold_range n (λ i. touch (index i)) row ≡ row
unfolding fold_range
touched zero index row there = refl
touched (suc n) index row there =
    let (c, here) = there 0 (omega arith) in
    ap (fold_range n (λ i. touch (index (suc i)))) (touch_there (index 0) row c here)
    ∙ touched n (λ i. index (suc i)) row (λ i less. there (suc i) (omega arith))

pub touched-HasChunks :
    (k size : ℕ) (sent : List Bytes) (row : Row)
    → HasChunks k size sent row
    → fold_range k touch row ≡ row
touched-HasChunks k size sent row has =
    touched k (λ i. i) row
      (λ i less. (some (record { size = size; bytes = get_or sent i [] }), has i less))

pub gather-HasChunks :
    (k size : ℕ) (sent : List Bytes) (row : Row)
    → k ≤ length sent
    → HasChunks k size sent row
    → gather k row ≡ ok (chunks_of size (take k sent))
unfolding gather
gather-HasChunks k size sent row enough has =
    collect-ok k _ (λ i. record { size = size; bytes = get_or sent i [] })
      (λ i h. ap (λ c. follow (pointer c)) (has i h))
    ∙ ap ok (
        sym (map-tabulate k (λ bt. record { size = size; bytes = bt }) (λ i. get_or sent i []))
        ∙ ap (chunks_of size) (tabulate-get_or k sent [] enough))

-- The indices of the coding chunks, which are erased.
abbrev pub erased : ℕ → ℕ → List ℕ
erased k m = tabulate m (λ i. k + i)

Outside-erased :
    (i k m : ℕ) (index : ℕ → ℕ)
    → ((j : ℕ) → index j ≡ k + j)
    → Outside i (tabulate m index)
    → i < k + m
    → i < k
Outside-erased i k zero index shifted outside h = omega arith
Outside-erased i k (suc m) index shifted outside h =
    let later : i < suc k =
      Outside-erased i (suc k) m (λ j. index (suc j)) (λ j. omega (arith, shifted (suc j)))
        outside.1 (omega arith) in
    let here : index 0 ≡ k = omega (arith, shifted 0) in
    i_below later (λ same. outside.0 (same ∙ sym here))
  where
    i_below : i < suc k → i ≢ k → i < k
    i_below less ne = ground arith

module _ {ℓ} {A : Type ℓ} where
  get_or-take-append :
      (k : ℕ) (xs ys : List A) (i : ℕ) (d : A)
      → i < k
      → k ≤ length xs
      → get_or (take k xs ++ ys) i d ≡ get_or xs i d
  get_or-take-append zero xs ys i d h enough = absurd (omega arith)
  get_or-take-append (suc k) [] ys i d h enough = absurd (omega arith)
  get_or-take-append (suc k) (x ∷ xs) ys zero d h enough = refl
  get_or-take-append (suc k) (x ∷ xs) ys (suc i) d h enough =
      get_or-take-append k xs ys i d (omega arith) (omega arith)

  length-replicate : (n : ℕ) (a : A) → length (replicate n a) ≡ n
  length-replicate zero a = refl
  length-replicate (suc n) a = ap suc (length-replicate n a)

  pub map-replicate :
      {B : Type ℓ} (n : ℕ) (f : A → B) (a : A) → map f (replicate n a) ≡ replicate n (f a)
  map-replicate zero f a = refl
  map-replicate (suc n) f a = ap (λ rest. f a ∷ rest) (map-replicate n f a)

-- The first k blocks, and others in place of the erased ones.
pub Received-erased :
    (k m : ℕ) (sent : List Bytes) (blank : Bytes)
    → length sent ≡ k + m
    → Received (erased k m) sent (take k sent ++ replicate m blank)
Received-erased k m sent blank count = record {
  number = omega (
    arith,
    length-append (take k sent) (replicate m blank),
    length-take k sent (omega arith),
    length-replicate m blank,
  );
  agrees = λ i less outside.
      get_or-take-append k sent (replicate m blank) i []
        (Outside-erased i k m (λ j. k + j) (λ j. refl) outside (omega arith)) (omega arith);
}
