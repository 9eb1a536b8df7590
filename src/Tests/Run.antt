-- ===== src/Tests/Run.antt =====
-- Replicas that are made from the files of the setup, and a run of theirs.
use random_beacon.Prelude.{
  ℕ, ◌+◌, ◌/◌, ◌<◌, ◌≡◌, refl, List, [], ◌∷◌, ◌++◌, true, some, none, ok, at, arith, get_elem?,
  update, length, lookup, assign, false, check_all, Result, err, collect, for_range, replicate,
  zero, suc, ap, some_injective,
}
use random_beacon.Random.{Supply}
use random_beacon.Stream.{Text}
use random_beacon.Config.{from_num_replicas}
use random_beacon.Pvss.Defs.{Context}
use random_beacon.Pvss.Factory.{get_context}
use random_beacon.Setup.{pvss_setup}
use random_beacon.Random.{draws}
use random_beacon.Stream.{put_vector}
use random_beacon.Poly.Defs.{evaluate, get_secret}
use random_beacon.Poly.Check.{random_polynomial}
use random_beacon.Dleq.{prove_dual, prove}
use random_beacon.Dleq.Streams.{put_dual, put_dleq}
use random_beacon.Erasure.{Bytes, Jerasure, encode, block_size, split}
use random_beacon.Pvss.Deal.{create_sharing, evaluations, commit, encrypt, prove_shares}
use random_beacon.Pvss.Defs.{generate_decomposition}
use random_beacon.Pvss.Streams.{put_sharing, put_decomposition}
use random_beacon.Drg.Messages.{
  put_bytes, parse_share_chunk, get_share_chunk, get_bytes, get_chunk, make_share_chunk_msg,
  put_share_chunk, put_chunk,
}
use random_beacon.Drg.Replicas.{find, get_info, get_addr, start, add_all, add_replica, on_init}
use random_beacon.Drg.Lottery.{make_difficulty, unsigned_char_compare, vrf}
use random_beacon.Drg.Core.{Merkle, Core, Event, on_receive_share_chunk, store_chunk}
use random_beacon.Drg.Core.Dealer.{
  cut_sharing, send_chunks, deal_sharing, deliver_chunk, on_receive_start,
}
use random_beacon.Drg.Network.{
  Packet, Peers, dispatch, sharechunk_handler, take, System, Step, draw, Reach, here, next,
  post_all, start_opcode,
}
use random_beacon.Drg.Network.Silent.{started, Reach-silent}
use random_beacon.Drg.Client.{client_main, add_peer, send_start}
use random_beacon.Drg.Client.Ignored.{Reach-unmoved}
use random_beacon.Drg.Boot.{MakesAddress, net_addrs, boot}
use random_beacon.Drg.Boot.FromSetup.{pvss_setup-boot}
use random_beacon.Tests.Five.{
  Five, f1, f2, f3, five_field, five_group, five_scalars, five_codec, number_codec, five_hasher,
  five_pairing, counting,
}
use random_beacon.Tests.Sharing.{ctx}
use random_beacon.Tests.Network.{port_address}
use random_beacon.Tests.Protocol.{plain_stream}

instance abbrev port_maker : MakesAddress ℕ ℕ
port_maker = record { net_addr = λ i. ok (20000 + i) }

abbrev three_replicas : List ℕ
three_replicas = 0 ∷ 1 ∷ 2 ∷ []

abbrev three_ports : List ℕ
three_ports = 20000 ∷ 20001 ∷ 20002 ∷ []

three_addrs : net_addrs three_replicas ≡ ok three_ports
unfolding net_addrs
three_addrs = refl

pvss_setup-boot_example :
    (setup : List (Context Five Five Five)) × (drawn : Supply Five) × (get_context
        (from_num_replicas 3)
        f1
        f2
        f2
        f3
        counting
      ≡ ok (setup, drawn))
    × (texts : List Text) × (dat : Text) × (rest : Supply Five) × (pvss_setup five_pairing 3 f1 f2
          f2 f3 counting
        ≡ ok ((texts, dat), rest))
    × ((i : ℕ)
        → i < 3
        → (text : Text) × (c : Context Five Five Five) × (listen_addr : ℕ) × (at texts i ≡ ok text)
          × (at setup i ≡ ok c)
          × (get_elem? three_ports i ≡ some listen_addr)
          × (boot three_replicas 9 i (some text)
              ≡ ok (
                record {
                  id = i;
                  nreplicas = 3;
                  collector = record {
                    nreconthres = 3 / 4 + 1;
                    pvss_context = c;
                    dec_share_vec = [];
                  };
                  sharechunk_matrix = λ r. [];
                  sharing_map = λ r. none;
                },
                start listen_addr three_ports,
              )))
pvss_setup-boot_example =
    pvss_setup-boot five_pairing three_replicas three_ports 9 20009 f1 f2 f2 f3 counting
      (omega arith) (omega arith) (omega arith) (omega arith) three_addrs refl

instance abbrev pub plain_tree : Merkle
plain_tree = record {
  root = λ leaves. replicate 32 7;
  path = λ leaves i. i ∷ [];
  path_verify = λ path root. some true;
}

-- Every coding block is the first data block.
abbrev repeated : ℕ → List Bytes → List Bytes
repeated m [] = []
repeated m (b ∷ rest) = replicate m b

instance abbrev repeating : Jerasure
repeating = record {
  matrix_encode = λ k m w blocks blocksize. repeated m blocks;
  matrix_decode = λ k m w erasures blocks coding blocksize. some blocks;
}

abbrev four_ports : List ℕ
four_ports = 20000 ∷ 20001 ∷ 20002 ∷ 20003 ∷ []

abbrev peers_of : ℕ → Peers ℕ
peers_of i = start (20000 + i) four_ports

abbrev at_start : System Five Five Five ℕ
at_start = started five_pairing 4 peers_of (λ i. Unit) (λ i. ctx)

abbrev lucky : List ℕ
lucky = 100 ∷ 0 ∷ []

abbrev pub or_none {ℓ} : {A : Type ℓ} → A → Result A → A
or_none a (ok b) = b
or_none a (err e) = a

-- The replica 1 wins the draw and deals.
abbrev won : List Event × Supply Five
won =
    or_none ([], counting) (on_receive_start lucky (make_difficulty 1) 2 (at_start.core 1) counting)

abbrev dealt : List (Packet ℕ)
dealt = or_none [] (post_all (peers_of 1) won.0)

abbrev after_draw : System Five Five Five ℕ
after_draw = record { core = at_start.core; sent = dealt ++ [] }

drawn : Step five_pairing 4 peers_of (λ i. Unit) at_start after_draw
unfolding on_receive_start vrf unsigned_char_compare post_all make_difficulty check_all
    deliver_chunk create_sharing evaluations commit encrypt prove_shares generate_decomposition
    draws random_polynomial evaluate collect for_range prove_dual get_secret prove deal_sharing
    cut_sharing send_chunks encode block_size split put_bytes put_sharing put_vector put_dual
    put_decomposition put_dleq get_addr get_info find start add_all add_replica on_init
drawn = draw 1 lucky (make_difficulty 1) 2 counting won.1 won.0 dealt (omega arith) tt refl refl

abbrev packet_or : Packet ℕ → List (Packet ℕ) → Packet ℕ
packet_or p [] = p
packet_or p (q ∷ rest) = q

abbrev first_packet : Packet ℕ
first_packet = packet_or (record { to = 0; opcode = 0; body = [] }) dealt

-- The replica 0 takes its chunk, and passes it on.
abbrev took : (Core Five Five Five × List Event) × Supply Five
took =
    or_none ((at_start.core 0, []), counting)
      (dispatch five_pairing false first_packet (after_draw.core 0) counting)

abbrev passed_on : List (Packet ℕ)
passed_on = or_none [] (post_all (peers_of 0) took.0.1)

abbrev after_take : System Five Five Five ℕ
after_take = record {
  core = update after_draw.core 0 took.0.0;
  sent = passed_on ++ after_draw.sent;
}

taken : Step five_pairing 4 peers_of (λ i. Unit) after_draw after_take
unfolding on_receive_start vrf unsigned_char_compare post_all make_difficulty check_all
    deliver_chunk create_sharing evaluations commit encrypt prove_shares generate_decomposition
    draws random_polynomial evaluate collect for_range prove_dual get_secret prove deal_sharing
    cut_sharing send_chunks encode block_size split put_bytes put_sharing put_vector put_dual
    put_decomposition put_dleq get_addr get_info find start add_all add_replica on_init dispatch
    sharechunk_handler on_receive_share_chunk store_chunk parse_share_chunk get_share_chunk
    get_bytes get_chunk make_share_chunk_msg put_share_chunk put_chunk lookup assign
taken =
    take 0 0 false first_packet counting took.1 took.0.0 took.0.1 passed_on (omega arith) refl refl
      refl

one_chunk : length ((after_take.core 0).sharechunk_matrix 1) ≡ 1
unfolding on_receive_start vrf unsigned_char_compare post_all make_difficulty check_all
    deliver_chunk create_sharing evaluations commit encrypt prove_shares generate_decomposition
    draws random_polynomial evaluate collect for_range prove_dual get_secret prove deal_sharing
    cut_sharing send_chunks encode block_size split put_bytes put_sharing put_vector put_dual
    put_decomposition put_dleq get_addr get_info find start add_all add_replica on_init dispatch
    sharechunk_handler on_receive_share_chunk store_chunk parse_share_chunk get_share_chunk
    get_bytes get_chunk make_share_chunk_msg put_share_chunk put_chunk lookup assign
one_chunk = refl

counted : (i : ℕ) → i < 4 → (peers_of i).0.nreplicas ≡ 4
unfolding start add_all add_replica on_init
counted i less = refl

Reach-silent_example :
    ((rid : ℕ) → (after_take.core 0).sharing_map rid ≡ none)
    × ((after_take.core 0).collector.dec_share_vec ≡ [])
Reach-silent_example =
    Reach-silent five_pairing 4 peers_of (λ i. Unit) (λ i. ctx) (omega arith) counted
      (next (next here drawn) taken) 0 (omega arith)

three_sent : length passed_on ≡ 3
unfolding on_receive_start vrf unsigned_char_compare post_all make_difficulty check_all
    deliver_chunk create_sharing evaluations commit encrypt prove_shares generate_decomposition
    draws random_polynomial evaluate collect for_range prove_dual get_secret prove deal_sharing
    cut_sharing send_chunks encode block_size split put_bytes put_sharing put_vector put_dual
    put_decomposition put_dleq get_addr get_info find start add_all add_replica on_init dispatch
    sharechunk_handler on_receive_share_chunk store_chunk parse_share_chunk get_share_chunk
    get_bytes get_chunk make_share_chunk_msg put_share_chunk put_chunk lookup assign
three_sent = refl

abbrev start_packet : Packet ℕ
start_packet = record { to = 20000; opcode = start_opcode; body = [] }

-- A client has asked the replica 0 to start.
abbrev asked : System Five Five Five ℕ
asked = record { core = at_start.core; sent = start_packet ∷ [] }

abbrev after_ask : System Five Five Five ℕ
after_ask = record { core = update asked.core 0 (asked.core 0); sent = start_packet ∷ [] }

ask_taken : Reach five_pairing 4 peers_of (λ i. ⊥) asked after_ask
unfolding dispatch post_all
ask_taken = next here (
    take 0 0 false start_packet counting counting (asked.core 0) [] [] (omega arith) refl refl refl)

from_client :
    (k : ℕ) (packet : Packet ℕ)
    → get_elem? asked.sent k ≡ some packet
    → (client : ℕ) × (client_main client ≡ ok (packet ∷ []))
unfolding client_main add_peer send_start
from_client zero packet found = (0, ap (λ p. ok (p ∷ [])) (some_injective found))
from_client (suc k) packet found = cc

Reach-unmoved_example : ((i : ℕ) → after_ask.core i ≡ asked.core i) × (after_ask.sent ≡ asked.sent)
Reach-unmoved_example = Reach-unmoved five_pairing 4 peers_of from_client ask_taken
