-- ===== src/Tests/Winning.antt =====
-- A replica of two that wins the draw.
use random_beacon.Prelude.{
  ℕ, ◌+◌, ◌*◌, ◌^◌, ◌<◌, ◌≡◌, ◌≢◌, refl, ap, sym, ◌∙◌, List, [], ◌∷◌, map, ok, ok_injective, subst,
  length, arith, zero, suc, get_or, none,
}
use random_beacon.Random.{Supply}
use random_beacon.Erasure.{Chunk, chunk_at}
use random_beacon.Pvss.Defs.{Sharing}
use random_beacon.Pvss.Deal.{create_sharing}
use random_beacon.Drg.Replicas.{find, get_info, get_addr, start, add_all, add_replica, on_init}
use random_beacon.Drg.Messages.{make_share_chunk_msg}
use random_beacon.Drg.Core.Dealer.{cut_sharing, on_receive_start}
use random_beacon.Drg.Core.{Core, Event}
use random_beacon.Drg.Lottery.{make_difficulty}
use random_beacon.Drg.Core.Opened.{sharing_text}
use random_beacon.Drg.Core.Sent.{Among}
use random_beacon.Drg.Network.{Packet, Peers, post_all}
use random_beacon.Drg.Network.Won.{on_receive_start-deals}
use random_beacon.Tests.Five.{
  Five, five_field, five_group, five_scalars, five_codec, number_codec, five_hasher, counting,
}
use random_beacon.Tests.Sharing.{ctx}
use random_beacon.Tests.Network.{port_address}
use random_beacon.Tests.Protocol.{plain_stream}
use random_beacon.Tests.Opening.{copying, copying-Decodes}
use random_beacon.Tests.Run.{plain_tree}
use random_beacon.Tests.Decrypting.{made, made_lem, small}

abbrev two_ports : List ℕ
two_ports = 20000 ∷ 20001 ∷ []

abbrev peers_of : ℕ → Peers ℕ
peers_of i = start (20000 + i) two_ports

abbrev dealer : Core Five Five Five
dealer = record {
  id = 1;
  nreplicas = 2;
  collector = record { nreconthres = 1; pvss_context = ctx; dec_share_vec = [] };
  sharechunk_matrix = λ rid. [];
  sharing_map = λ rid. none;
}

abbrev winning_hash : List ℕ
winning_hash = 100 ∷ 0 ∷ []

known : (k : ℕ) → k < 2 → get_addr (peers_of 1).0 k ≡ ok (20000 + k)
unfolding start add_all add_replica on_init get_addr get_info find
known zero less = refl
known (suc zero) less = refl
known (suc (suc k)) less = absurd (omega arith)

all_small :
    (sharing : Sharing Five Five Five) (rest : Supply Five)
    → create_sharing ctx counting ≡ ok (sharing, rest)
    → length (sharing_text sharing) + 1 * 8 * 8 < 2 ^ 31
all_small sharing rest created =
    let same : made.0 ≡ sharing = ap (λ r. r.0) (ok_injective (sym made_lem ∙ created)) in
    let text = small in
    subst (λ x. length (sharing_text x) + 1 * 8 * 8 < 2 ^ 31) same (omega (arith, text))

on_receive_start-deals_example :
    (sharing : Sharing Five Five Five) × (rest : Supply Five) × (chunks : List Chunk)
    × (events : List Event) × (packets : List (Packet ℕ)) × (create_sharing ctx counting
        ≡ ok (sharing, rest))
    × (cut_sharing 1 2 sharing ≡ ok chunks)
    × (length chunks ≡ 2)
    × (on_receive_start winning_hash (make_difficulty 1) 2 dealer counting ≡ ok (events, rest))
    × (length events + 1 ≡ 2)
    × (post_all (peers_of 1) events ≡ ok packets)
    × ((k : ℕ) (c : Chunk)
        → k < 2
        → k ≢ 1
        → chunk_at chunks k ≡ ok c
        → Among
            (record {
              to = 20000 + k;
              opcode = 1;
              body = make_share_chunk_msg (record {
                replica_id = 1;
                idx = k;
                round = 0;
                chunk = c;
                merkle_root = plain_tree.root (map (λ x. x.bytes) chunks);
                merkle_proof = plain_tree.path (map (λ x. x.bytes) chunks) k;
              });
            })
            packets)
on_receive_start-deals_example =
    on_receive_start-deals (peers_of 1) dealer 1 winning_hash (λ k. 20000 + k) counting
      (omega arith) (omega arith) (omega arith) (omega arith) known refl (omega arith) (omega arith)
      (omega arith) zeros all_small copying-Decodes
  where
    zeros : (k : ℕ) → k < 1 → get_or winning_hash (suc k) 0 ≡ 0
    zeros zero less = refl
    zeros (suc k) less = absurd (omega arith)
