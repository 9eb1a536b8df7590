-- ===== src/Tests/Network.antt =====
-- The theorems about the streams of include/pvss/, its factory and the replicas at concrete inputs.
use random_beacon.Prelude.{
  ℕ, zero, suc, ◌+◌, ◌*◌, ◌^◌, ◌≤◌, ◌<◌, ◌≡◌, ◌≢◌, ◌↔◌, refl, List, [], ◌∷◌, ◌++◌, map, true, ok,
  err, some, arith, length, tabulate, get_elem?, get_or, at, assertion, rid_not_found, ◌==◌,
}
use random_beacon.Random.{after}
use random_beacon.Stream.{newline}
use random_beacon.Config.{from_num_replicas, from_num_faults, is_valid}
use random_beacon.Config.Proofs.{from_num_faults_lem}
use random_beacon.Dleq.{Dleq}
use random_beacon.Pvss.Defs.{Context, Sharing, Decryption}
use random_beacon.Pvss.Streams.{
  put_sharing, get_sharing, put_aggregate, get_aggregate, put_context, parse_context,
}
use random_beacon.Pvss.Streams.Proofs.{
  get_sharing-put_sharing, get_aggregate-put_aggregate, parse_context-put_context,
}
use random_beacon.Pvss.Factory.{get_context}
use random_beacon.Pvss.Factory.Keys.{get_context-HoldsKey}
use random_beacon.Pvss.Reconstruct.{reconstruct}
use random_beacon.Pvss.Reconstruct.Decrypt.{HoldsKey}
use random_beacon.Pvss.Reconstruct.Unique.{beacon_of}
use random_beacon.Drg.Replicas.{ReplicaConfig, Address, start, get_addr, on_init}
use random_beacon.Drg.Replicas.Started.{start_lem}
use random_beacon.Drg.Lottery.{unsigned_char_compare, make_difficulty}
use random_beacon.Drg.Lottery.{make_difficulty_iff}
use random_beacon.Drg.Shares.{Collector, hold, receive_shares}
use random_beacon.Drg.Shares.Collected.{
  message, ready, receive_shares-on_init, receive_shares-honest,
}
use random_beacon.Tests.Five.{
  Five, f0, f1, f2, f3, f4, five_field, five_group, five_scalars, five_codec, number_codec,
  five_hasher, five_pairing, counting,
}
use random_beacon.Tests.Sharing.{ctx, ctx-IsWellFormed, plain_aggregate, line, share_of}

abbrev pub one_dleq : Dleq Five Five
one_dleq = record { gr = f1; pi = f4 }

abbrev pub one_sharing : Sharing Five Five Five
one_sharing = record {
  encryptions = f4 ∷ f2 ∷ [];
  commitments = f1 ∷ f3 ∷ [];
  dleq_proofs = record { gra = f1; grb = f2; pi = f3 } ∷ [];
  decomp_pi = record { pi = one_dleq; gs = f2 };
  secret = f3;
}

get_sharing-put_sharing_example :
    get_sharing one_sharing (put_sharing one_sharing [])
    ≡ ok (
      record {
        encryptions = f4 ∷ f2 ∷ [];
        commitments = f1 ∷ f3 ∷ f1 ∷ f3 ∷ [];
        dleq_proofs =
            record { gra = f1; grb = f2; pi = f3 } ∷ record { gra = f1; grb = f2; pi = f3 } ∷ [];
        decomp_pi = record { pi = one_dleq; gs = f2 };
        secret = f3;
      },
      [],
    )
get_sharing-put_sharing_example = get_sharing-put_sharing one_sharing one_sharing []

get_aggregate-put_aggregate_example :
    get_aggregate (put_aggregate plain_aggregate (newline ∷ []))
    ≡ ok (plain_aggregate, newline ∷ [])
get_aggregate-put_aggregate_example = get_aggregate-put_aggregate plain_aggregate (newline ∷ [])

parse_context-put_context_example : parse_context ctx.config (put_context ctx []) ≡ ok (ctx, [])
parse_context-put_context_example = parse_context-put_context ctx.config ctx []

counting_nonzero : (i : ℕ) → i < 3 → counting i ≢ f0
counting_nonzero zero h e = cc
counting_nonzero (suc zero) h e = cc
counting_nonzero (suc (suc zero)) h e = cc
counting_nonzero (suc (suc (suc i))) h e = absurd (omega arith)

get_context-HoldsKey_example :
    (setup : List (Context Five Five Five)) × (get_context ctx.config f1 f2 f2 f3 counting
      ≡ ok (setup, after 3 counting))
    × (length setup ≡ 3)
    × ((i : ℕ)
        → i < 3
        → (c : Context Five Five Five) × (at setup i ≡ ok c)
          × (c.my_id ≡ i)
          × (c.config ≡ ctx.config)
          × (c.pk_map ≡ tabulate 3 (λ k. five_field.mul (counting k) f1))
          × (length c.pk_map ≡ 3)
          × HoldsKey c)
get_context-HoldsKey_example = get_context-HoldsKey ctx.config f1 f2 f2 f3 counting counting_nonzero

instance abbrev pub port_address : Address ℕ
port_address = record { same = ◌==◌ }

abbrev pub ports : List ℕ
ports = 20000 ∷ 20001 ∷ 20002 ∷ 20003 ∷ 20004 ∷ []

start_lem_example :
    ((start 20001 ports).0.nreplicas ≡ 5)
    × ((start 20001 ports).0.nreconthres ≡ 2)
    × ((i addr : ℕ) → get_elem? ports i ≡ some addr → get_addr (start 20001 ports).0 i ≡ ok addr)
    × ((i : ℕ) → 5 ≤ i → get_addr (start 20001 ports).0 i ≡ err rid_not_found)
    × ((start 20001 ports).1 ≡ 20000 ∷ 20002 ∷ 20003 ∷ 20004 ∷ [])
start_lem_example = start_lem 20001 ports (omega arith)

abbrev three_bytes : List ℕ
three_bytes = 7 ∷ 0 ∷ 1 ∷ []

make_difficulty_iff_example :
    (unsigned_char_compare three_bytes (make_difficulty 2) 3 ≡ ok true)
    ↔ ((7 ≤ 128) × ((i : ℕ) → i < 2 → get_or three_bytes (suc i) 0 ≡ 0))
make_difficulty_iff_example = make_difficulty_iff three_bytes 2 (omega arith)

abbrev wide_ctx : Context Five Five Five
wide_ctx = record {
  pk_map = [];
  config = from_num_replicas 5;
  g1 = f1;
  g2 = f2;
  h1 = f2;
  h2 = f3;
  secret_key = f3;
  my_id = 0;
}

abbrev five_replicas : ReplicaConfig ℕ
five_replicas = record { nreplicas = 5; nreconthres = 0; replica_map = [] }

abbrev two_decs : List (Decryption Five Five)
two_decs = share_of 0 ∷ share_of 2 ∷ []

receive_shares-on_init_example :
    receive_shares five_pairing
      (map message two_decs ++ [])
      (ready five_pairing five_replicas wide_ctx)
    ≡ err assertion
unfolding on_init
receive_shares-on_init_example =
    receive_shares-on_init five_pairing five_replicas wide_ctx two_decs [] (omega arith)
      (omega arith) refl refl

abbrev collector : Collector Five Five Five
collector = record { nreconthres = 2; pvss_context = ctx; dec_share_vec = [] }

receive_shares-honest_example :
    (receive_shares five_pairing (map message two_decs ++ message (share_of 1) ∷ []) collector
      ≡ ok (hold collector two_decs))
    × (reconstruct five_pairing ctx two_decs ≡ ok (beacon_of five_pairing ctx line))
receive_shares-honest_example =
    receive_shares-honest five_pairing collector line two_decs (message (share_of 1) ∷ []) refl refl
      (omega arith) ctx-IsWellFormed (omega arith) (omega arith, refl, (omega arith, refl, tt))
      (((λ e. absurd (omega arith)), tt), (tt, tt))

from_num_faults_lem_example :
    (is_valid (from_num_faults 3) ≡ true)
    × (2 * 3 + 1 < 2 ^ 64 → from_num_replicas (from_num_faults 3).num_replicas ≡ from_num_faults 3)
from_num_faults_lem_example = from_num_faults_lem 3 (omega arith)
