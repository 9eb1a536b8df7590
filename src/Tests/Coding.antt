-- ===== src/Tests/Coding.antt =====
-- The round trip of the erasure code with one block that is repeated, of which the first is lost.
use random_beacon.Prelude.{◌≡◌, ap, List, [], ◌∷◌, ◌++◌, true, some, ok, length, take, drop, arith}
use random_beacon.Erasure.{Bytes, Jerasure, encode, decode}
use random_beacon.Erasure.Recovered.{chunks_of, Received, Decodes, decode-encode}

instance abbrev repetition : Jerasure
repetition = record {
  matrix_encode = λ k m w blocks blocksize. blocks;
  matrix_decode = λ k m w erasures blocks coding blocksize. some coding;
}

repeated :
    (blocks received : List Bytes)
    → length blocks ≡ 1
    → Received (0 ∷ []) (blocks ++ blocks) received
    → some (take 1 (drop 1 received)) ≡ some blocks
repeated [] received count same = absurd (omega (arith, count))
repeated (b ∷ c ∷ blocks) received count same = absurd (omega (arith, count))
repeated (b ∷ []) [] count same = absurd (omega (arith, same.number))
repeated (b ∷ []) (x ∷ []) count same = absurd (omega (arith, same.number))
repeated (b ∷ []) (x ∷ y ∷ received) count same =
    ap (λ z. some (z ∷ [])) (same.agrees 1 (omega arith) ((λ e. omega arith), tt))

repetition-Decodes : Decodes 1 1 8 (0 ∷ [])
repetition-Decodes = record {
  coding_length = λ blocks blocksize count. count;
  recovers = λ blocks received blocksize count same. repeated blocks received count same;
}

decode-encode_example :
    (sent : List Bytes) × (encode 1 1 8 (7 ∷ 8 ∷ []) ≡ ok (chunks_of 2 sent))
    × (length sent ≡ 2)
    × ((received : List Bytes)
        → Received (0 ∷ []) sent received
        → decode 1 1 8 (chunks_of 2 received) (0 ∷ []) (9 ∷ []) ≡ ok (true, 9 ∷ 7 ∷ 8 ∷ []))
decode-encode_example =
    decode-encode 1 1 8 (0 ∷ []) (7 ∷ 8 ∷ []) (9 ∷ []) (omega arith) (omega arith) (omega arith)
      repetition-Decodes
