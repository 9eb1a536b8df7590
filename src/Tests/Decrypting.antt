-- ===== src/Tests/Decrypting.antt =====
-- The last of two sharings is opened, and the share of a replica is decrypted.
use random_beacon.Prelude.{
  ℕ, ◌+◌, ◌*◌, ◌<◌, ◌^◌, ◌≡◌, refl, sym, ap, subst, ◌∙◌, List, [], ◌∷◌, some, ok, arith, length,
  get_or, lookup, ok_injective, collect, for_range, update, assign, Option,
}
use random_beacon.Random.{Supply, draws}
use random_beacon.Stream.{put_vector}
use random_beacon.Poly.Defs.{evaluate, get_secret}
use random_beacon.Poly.Check.{random_polynomial}
use random_beacon.Dleq.{prove_dual, prove}
use random_beacon.Dleq.Streams.{put_dual, put_dleq}
use random_beacon.Erasure.{Chunk, Jerasure, encode, block_size, split}
use random_beacon.Pvss.Defs.{Sharing, Aggregate, generate_decomposition}
use random_beacon.Pvss.Deal.{create_sharing, evaluations, commit, encrypt, prove_shares}
use random_beacon.Pvss.Deal.Dealt.{IsDealt, create_sharing-IsDealt}
use random_beacon.Pvss.Streams.{put_sharing, put_decomposition}
use random_beacon.Drg.Messages.{ShareChunk, put_bytes}
use random_beacon.Drg.Core.{Core}
use random_beacon.Drg.Core.Dealer.{cut_sharing}
use random_beacon.Drg.Core.Opened.{sharing_text, forget_secret}
use random_beacon.Drg.Core.Decrypted.{forget_secret-IsDealt}
use random_beacon.Tests.Five.{
  Five, f0, f2, f3, five_field, five_group, five_scalars, five_codec, number_codec, five_hasher,
  counting,
}
use random_beacon.Tests.Sharing.{ctx}
use random_beacon.Tests.Protocol.{plain_stream}
use random_beacon.Tests.Opening.{chunks_or_none}
use random_beacon.Tests.Run.{or_none, plain_tree}

-- A code without coding blocks.
instance abbrev pub plain_code : Jerasure
plain_code = record {
  matrix_encode = λ k m w blocks blocksize. [];
  matrix_decode = λ k m w erasures blocks coding blocksize. some blocks;
}

abbrev empty_sharing : Sharing Five Five Five
empty_sharing = record {
  encryptions = [];
  commitments = [];
  dleq_proofs = [];
  decomp_pi = record { pi = record { gr = f0; pi = f0 }; gs = f0 };
  secret = f0;
}

abbrev pub made : Sharing Five Five Five × Supply Five
made = or_none (empty_sharing, counting) (create_sharing ctx counting)

pub made_lem : create_sharing ctx counting ≡ ok made
unfolding create_sharing evaluations commit encrypt prove_shares generate_decomposition draws
    random_polynomial evaluate collect for_range prove_dual get_secret prove
made_lem = refl

pub made-IsDealt : IsDealt ctx (f2 ∷ f3 ∷ []) (forget_secret made.0)
made-IsDealt =
    let (sharing, rest, created, secret, dealt) =
      create_sharing-IsDealt ctx counting refl (omega arith) in
    forget_secret-IsDealt (
      subst (IsDealt ctx (f2 ∷ f3 ∷ [])) (ap (λ r. r.0) (ok_injective (sym created ∙ made_lem)))
        dealt)

abbrev dealt_chunks : List Chunk
dealt_chunks = chunks_or_none (cut_sharing 2 2 made.0)

abbrev chunk_of : ℕ → Chunk
chunk_of i = get_or dealt_chunks i (record { size = 0; bytes = [] })

abbrev receiver : Core Five Five Five
receiver = record {
  id = 1;
  nreplicas = 2;
  collector = record { nreconthres = 2; pvss_context = ctx; dec_share_vec = [] };
  sharechunk_matrix =
      update (λ rid. (0, some (chunk_of 0)) ∷ []) 0
        ((1, some (chunk_of 1)) ∷ (0, some (chunk_of 0)) ∷ []);
  sharing_map = λ rid. some (forget_secret made.0);
}

-- The chunk of the message is stored under the dealer, in the row 1.
abbrev rows : ℕ → List (ℕ × Option Chunk)
rows =
    update receiver.sharechunk_matrix 1 (assign 1 (some (chunk_of 1)) ((0, some (chunk_of 0)) ∷ []))

abbrev kept : ℕ → Option (Sharing Five Five Five)
kept = update (λ rid. some (forget_secret made.0)) 1 (some (forget_secret made.0))

abbrev last_message : ShareChunk
last_message = record {
  replica_id = 1;
  idx = 1;
  round = 0;
  chunk = chunk_of 1;
  merkle_root = [];
  merkle_proof = [];
}

pub small : length (sharing_text made.0) + 2 * 8 * 8 < 2 ^ 31
unfolding create_sharing evaluations commit encrypt prove_shares generate_decomposition draws
    random_polynomial evaluate collect for_range prove_dual get_secret prove cut_sharing encode
    block_size split put_bytes put_sharing put_vector put_dual put_decomposition put_dleq lookup
small = omega arith
