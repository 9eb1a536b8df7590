-- ===== src/Setup.antt =====
-- src/pvss_setup.cpp: `main`, which makes the contexts of all replicas and buffers aggregates.
-- `main` writes the texts that it returns here to files.
pub mod Verified
pub mod Stops
use random_beacon.Prelude.{
  ℕ, ◌+◌, ◌-◌, ◌*◌, ◌/◌, ◌%◌, ◌^◌, List, [], Result, ok, err, undefined, if◌then◌else◌, ltb, map,
  at, collect, n_must_be_positive, aggregation_failed,
}
use random_beacon.Prelude
use random_beacon.Random.{Rand, ◌>>=◌, pure, lift, raise, draws}
use random_beacon.Stream.{Text, Codec, put_vector}
use random_beacon.Config.{from_num_replicas}
use random_beacon.Algebra.Field.{Field}
use random_beacon.Algebra.Group.{Group, Scalars, Pairing}
use random_beacon.Dleq.{Hasher}
use random_beacon.Pvss.Defs.{Context, Sharing, Aggregate}
use random_beacon.Pvss.Deal.{create_sharing}
use random_beacon.Pvss.Aggregate.{aggregate, verify_aggregation}
use random_beacon.Pvss.Factory.{get_context}
use random_beacon.Pvss.Streams.{put_context, put_aggregate}

-- Sums and products of numbers of type `int`, which C++ leaves undefined past the greatest one.
unfoldable pub int_add : ℕ → ℕ → Result ℕ
int_add x y = if ltb (x + y) (2 ^ 31) then ok (x + y) else err undefined

unfoldable pub int_mul : ℕ → ℕ → Result ℕ
int_mul x y = if ltb (x * y) (2 ^ 31) then ok (x * y) else err undefined

module _ {F G1 G2 GT : Type 0} ⦃f : Field F⦄ ⦃a : Group G1⦄ ⦃b : Group G2⦄ ⦃sa : Scalars F G1⦄
    ⦃sb : Scalars F G2⦄ (e : Pairing F G1 G2 GT) ⦃ca : Codec G1⦄ ⦃cb : Codec G2⦄
    ⦃h : Hasher F⦄ where
  -- The body of the inner loop: `pvss_vec` and `id_vec` side by side.
  unfoldable pub deal_from : List (Context F G1 G2) → ℕ → ℕ → Rand F (Sharing F G1 G2 × ℕ)
  deal_from setup n j = do
    ctx ← lift (at setup (j % n))
    sharing ← create_sharing ctx
    pure (sharing, j % n)

  -- The body of the outer loop: the inner loop counts from i while below `i + f + 1`.
  unfoldable pub buffer_aggregate : List (Context F G1 G2) → ℕ → ℕ → ℕ → Rand F (Aggregate F G1 G2)
  unfolding deal_from int_add
  buffer_aggregate setup n faults i = do
    last ← lift (int_add i faults)
    bound ← lift (int_add last 1)
    dealt ← draws (bound - i) (λ j. deal_from setup n (i + j))
    ctx ← lift (at setup (i % n))
    agg ← lift (
        aggregate (map (λ (s : Sharing F G1 G2 × ℕ). s.0) dealt)
          (map (λ (s : Sharing F G1 G2 × ℕ). s.1) dealt))
    verified ← verify_aggregation e ctx agg
    if verified then pure agg else raise aggregation_failed

  -- `buffer 2n aggregated transcripts`
  unfoldable pub buffer_aggregates : List (Context F G1 G2) → ℕ → Rand F (List (Aggregate F G1 G2))
  unfolding buffer_aggregate int_mul
  buffer_aggregates setup n = do
    bound ← lift (int_mul 2 n)
    draws bound (buffer_aggregate setup n ((n - 1) / 2))

  -- The texts of the files of the replicas, and of `pvss-setup.dat`. An argument is an `int`, and 0
  -- stands for those below 1.
  unfoldable pub pvss_setup :
      ⦃cf : Codec F⦄ ⦃cn : Codec ℕ⦄ → ℕ → G1 → G1 → G2 → G2 → Rand F (List Text × Text)
  unfolding buffer_aggregates
  pvss_setup n g1 g2 h1 h2 =
      let made : Rand F (List Text × Text) = do
        setup ← get_context (from_num_replicas n) g1 g2 h1 h2
        texts ← lift (collect n (λ i. Prelude.◌>>=◌ (at setup i) λ ctx. ok (put_context ctx [])))
        aggs ← buffer_aggregates setup n
        pure (texts, put_vector put_aggregate aggs [])
      in if ltb n 1 then raise n_must_be_positive else made
