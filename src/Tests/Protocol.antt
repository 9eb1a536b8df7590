-- ===== src/Tests/Protocol.antt =====
-- The theorems about the messages, the setup and the replicas at concrete inputs.
use random_beacon.Prelude.{
  ℕ, ◌<◌, ◌≡◌, refl, sym, ap, ap₂, ◌∙◌, List, [], ◌∷◌, ◌++◌, map, true, Option, some, none, ok, err,
  arith, length, take, drop, take-append, length_error, at,
}
use random_beacon.Random.{Supply}
use random_beacon.Stream.{put_vector}
use random_beacon.Config.{from_num_replicas}
use random_beacon.Erasure.{Bytes}
use random_beacon.Wire.{Binary, DataStream}
use random_beacon.Pvss.Defs.{Context, Aggregate}
use random_beacon.Pvss.Aggregate.{verify_aggregation}
use random_beacon.Pvss.Factory.{get_context}
use random_beacon.Pvss.Streams.{put_context, put_aggregate}
use random_beacon.Setup.{pvss_setup}
use random_beacon.Setup.Verified.{pvss_setup-accepted}
use random_beacon.Setup.Stops.{pvss_setup-stops}
use random_beacon.Drg.Shares.{Share}
use random_beacon.Drg.Messages.{
  ShareChunk, make_share_chunk_msg, parse_share_chunk, make_share_msg, parse_share,
}
use random_beacon.Drg.Messages.RoundTrip.{
  Fits, parse_share_chunk-make_share_chunk_msg, parse_share-make_share_msg,
}
use random_beacon.Tests.Five.{
  Five, f1, f2, f3, five_field, five_group, five_scalars, five_codec, number_codec, five_hasher,
  five_pairing, counting,
}

-- A stream with one place for each number, of which a blob takes 32.
abbrev pub one_place : Binary ℕ
one_place = record {
  put = λ n. n ∷ [];
  get = λ s. elim s [ [] ↦ none | n ∷ rest ↦ some (n, rest) ];
}

drop-append : (xs ys : List ℕ) → drop (length xs) (xs ++ ys) ≡ ys
drop-append [] ys = refl
drop-append (x ∷ xs) ys = drop-append xs ys

abbrev pub cut_front : ℕ → Bytes → Option (Bytes × Bytes)
cut_front n s = some (take n s, drop n s)

pub cut_front-append :
    (xs ys : Bytes) (n : ℕ) → length xs ≡ n → cut_front n (xs ++ ys) ≡ some (xs, ys)
cut_front-append xs ys n e =
    ap (λ k. cut_front k (xs ++ ys)) (sym e)
    ∙ ap₂ (λ a b. some (a, b)) (take-append xs ys) (drop-append xs ys)

instance abbrev pub plain_stream : DataStream
plain_stream = record {
  u16 = one_place;
  u32 = one_place;
  u256 = record { put = λ h. h; get = cut_front 32 };
  htole = λ n. n;
  letoh = λ n. n;
  get_data_inplace = λ s n. cut_front n s;
  get-put_u16 = λ n rest h. refl;
  get-put_u32 = λ n rest h. refl;
  get-put_u256 = λ h rest e. cut_front-append h rest 32 e;
  letoh-htole = λ n h. refl;
  htole_bound = λ n h. h;
  get_data_inplace_front = λ xs rest. cut_front-append xs rest (length xs) refl;
}

abbrev blob : Bytes
blob =
    1 ∷ 2 ∷ 3 ∷ 4 ∷ 5 ∷ 6 ∷ 7 ∷ 8 ∷ 1 ∷ 2 ∷ 3 ∷ 4 ∷ 5 ∷ 6 ∷ 7 ∷ 8 ∷ 1 ∷ 2 ∷ 3 ∷ 4 ∷ 5 ∷ 6 ∷ 7 ∷ 8
    ∷ 1 ∷ 2 ∷ 3 ∷ 4 ∷ 5 ∷ 6 ∷ 7 ∷ 8 ∷ []

abbrev one_message : ShareChunk
one_message = record {
  replica_id = 2;
  idx = 1;
  round = 0;
  chunk = record { size = 3; bytes = 9 ∷ 8 ∷ 7 ∷ [] };
  merkle_root = blob;
  merkle_proof = 5 ∷ 4 ∷ [];
}

one_message-Fits : Fits one_message
one_message-Fits = record {
  replica_id = omega arith;
  idx = omega arith;
  round = omega arith;
  root = refl;
  proof = omega arith;
  size = omega arith;
  bytes = omega arith;
}

parse_share_chunk-make_share_chunk_msg_example :
    parse_share_chunk (make_share_chunk_msg one_message) ≡ ok one_message
parse_share_chunk-make_share_chunk_msg_example =
    parse_share_chunk-make_share_chunk_msg one_message one_message-Fits

abbrev one_share : Share
one_share = record { replica_id = 2; bt = 7 ∷ 8 ∷ [] }

parse_share-make_share_msg_example : parse_share (make_share_msg one_share) ≡ ok one_share
parse_share-make_share_msg_example =
    parse_share-make_share_msg one_share (omega arith) (omega arith)

pvss_setup-accepted_example :
    (setup : List (Context Five Five Five)) × (rest : Supply Five) × (get_context
        (from_num_replicas 3)
        f1
        f2
        f2
        f3
        counting
      ≡ ok (setup, rest))
    × (aggs : List (Aggregate Five Five Five)) × (rest' : Supply Five) × (pvss_setup five_pairing 3
          f1 f2 f2 f3 counting
        ≡ ok ((map (λ c. put_context c []) setup, put_vector put_aggregate aggs []), rest'))
    × (length aggs ≡ 6)
    × ((i k : ℕ) (s : Supply Five)
        → i < 6
        → k < 3
        → (agg : Aggregate Five Five Five) × (c : Context Five Five Five) × (s' : Supply Five) × (at
              aggs i
            ≡ ok agg)
          × (at setup k ≡ ok c)
          × (verify_aggregation five_pairing c agg s ≡ ok (true, s')))
pvss_setup-accepted_example =
    pvss_setup-accepted five_pairing 3 f1 f2 f2 f3 counting (omega arith) (omega arith)
      (omega arith) (omega arith)

pvss_setup-stops_example : pvss_setup five_pairing 1 f1 f2 f2 f3 counting ≡ err length_error
pvss_setup-stops_example =
    pvss_setup-stops five_pairing 1 f1 f2 f2 f3 counting (omega arith) (omega arith)
