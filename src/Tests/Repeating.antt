-- ===== src/Tests/Repeating.antt =====
-- A message that completes the last of three sharings is delivered twice.
use random_beacon.Prelude.{ℕ, List, [], ◌∷◌, some, get_or}
use random_beacon.Erasure.{Chunk}
use random_beacon.Pvss.Defs.{Sharing}
use random_beacon.Drg.Messages.{ShareChunk}
use random_beacon.Drg.Core.{Core}
use random_beacon.Drg.Core.Dealer.{cut_sharing}
use random_beacon.Drg.Core.Opened.{forget_secret}
use random_beacon.Tests.Five.{
  Five, five_field, five_group, five_scalars, five_codec, number_codec, five_hasher,
}
use random_beacon.Tests.Sharing.{ctx}
use random_beacon.Tests.Protocol.{plain_stream}
use random_beacon.Tests.Opening.{chunks_or_none}
use random_beacon.Tests.Decrypting.{plain_code, made}
use random_beacon.Tests.Run.{plain_tree}

abbrev dealt_chunks : List Chunk
dealt_chunks = chunks_or_none (cut_sharing 3 3 made.0)

abbrev chunk_of : ℕ → Chunk
chunk_of i = get_or dealt_chunks i (record { size = 0; bytes = [] })

abbrev three_sharings : List (Sharing Five Five Five)
three_sharings = forget_secret made.0 ∷ forget_secret made.0 ∷ forget_secret made.0 ∷ []

abbrev receiver : Core Five Five Five
receiver = record {
  id = 1;
  nreplicas = 3;
  collector = record { nreconthres = 3; pvss_context = ctx; dec_share_vec = [] };
  sharechunk_matrix =
      λ rid. (2, some (chunk_of 2)) ∷ (1, some (chunk_of 1)) ∷ (0, some (chunk_of 0)) ∷ [];
  sharing_map = λ rid. some (forget_secret made.0);
}

abbrev last_message : ShareChunk
last_message = record {
  replica_id = 2;
  idx = 1;
  round = 0;
  chunk = chunk_of 1;
  merkle_root = [];
  merkle_proof = [];
}
