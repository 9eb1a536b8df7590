-- ===== src/Tests/Opening.antt =====
-- A sharing that is cut into one chunk and its copy, and opened.
use random_beacon.Prelude.{
  ℕ, Option, ◌≡◌, ap, List, [], ◌∷◌, ◌++◌, some, none, ok, update, assign, err, arith, length, take,
  Result,
}
use random_beacon.Erasure.{Bytes, Chunk, Jerasure}
use random_beacon.Erasure.Recovered.{Received, Decodes}
use random_beacon.Drg.Messages.{ShareChunk}
use random_beacon.Drg.Core.{Core}
use random_beacon.Drg.Core.Dealer.{cut_sharing}
use random_beacon.Drg.Core.Gathered.{erased}
use random_beacon.Tests.Five.{
  Five, five_field, five_group, five_scalars, five_codec, number_codec, five_hasher,
}
use random_beacon.Tests.Sharing.{ctx}
use random_beacon.Tests.Network.{one_sharing}
use random_beacon.Tests.Protocol.{plain_stream}
use random_beacon.Tests.Run.{plain_tree}

-- The coding block is a copy, and the data block is read.
instance abbrev pub copying : Jerasure
copying = record {
  matrix_encode = λ k m w blocks blocksize. blocks;
  matrix_decode = λ k m w erasures blocks coding blocksize. some blocks;
}

copied :
    (blocks received : List Bytes)
    → length blocks ≡ 1
    → Received (1 ∷ []) (blocks ++ blocks) received
    → some (take 1 received) ≡ some blocks
copied [] received count same = absurd (omega (arith, count))
copied (b ∷ c ∷ blocks) received count same = absurd (omega (arith, count))
copied (b ∷ []) [] count same = absurd (omega (arith, same.number))
copied (b ∷ []) (x ∷ received) count same =
    ap (λ z. some (z ∷ [])) (same.agrees 0 (omega arith) ((λ e. omega arith), tt))

pub copying-Decodes : Decodes 1 1 8 (erased 1 1)
copying-Decodes = record {
  coding_length = λ blocks blocksize count. count;
  recovers = λ blocks received blocksize count same. copied blocks received count same;
}

abbrev pub chunks_or_none : Result (List Chunk) → List Chunk
chunks_or_none (ok chunks) = chunks
chunks_or_none (err e) = []

abbrev chunk_or_empty : List Chunk → Chunk
chunk_or_empty [] = record { size = 0; bytes = [] }
chunk_or_empty (c ∷ rest) = c

abbrev dealt_chunks : List Chunk
unfolding cut_sharing
dealt_chunks = chunks_or_none (cut_sharing 1 2 one_sharing)

abbrev first_chunk : Chunk
first_chunk = chunk_or_empty dealt_chunks

abbrev receiver : Core Five Five Five
receiver = record {
  id = 0;
  nreplicas = 2;
  collector = record { nreconthres = 1; pvss_context = ctx; dec_share_vec = [] };
  sharechunk_matrix = update (λ rid. []) 0 ((0, some first_chunk) ∷ []);
  sharing_map = λ rid. none;
}

abbrev first_message : ShareChunk
first_message = record {
  replica_id = 1;
  idx = 0;
  round = 0;
  chunk = first_chunk;
  merkle_root = [];
  merkle_proof = [];
}

-- The chunk of the message is stored under the dealer, in the row 1, and read in the row 0.
abbrev rows : ℕ → List (ℕ × Option Chunk)
rows = update receiver.sharechunk_matrix 1 (assign 0 (some first_chunk) [])
