-- ===== src/Drg/Boot.antt =====
-- How `main` of src/drg.cpp makes a replica: `DrgCore::DrgCore`, and `DrgBase::start` up to the
-- event loop. The options are arguments. An address is made from a string by salticidae's
-- `NetAddr`.
pub mod FromSetup
use random_beacon.Prelude.{
  ℕ, ◌%◌, ◌^◌, List, [], ◌∷◌, Option, none, some, Result, ok, err, ◌>>=◌, undefined,
  context_file_error, length, get_elem?,
}
use random_beacon.Stream.{Text, Codec}
use random_beacon.Config.{from_num_replicas}
use random_beacon.Pvss.Defs.{Context}
use random_beacon.Pvss.Streams.{parse_context}
use random_beacon.Drg.Replicas.{ReplicaConfig, Address, start}
use random_beacon.Drg.Core.{Core}

-- The constructor of `NetAddr` from a string.
pub record MakesAddress (S A : Type 0) : Type 0 where
  pub net_addr : S → Result A

module _ {F G1 G2 : Type 0} where
  -- `DrgCore::DrgCore`; `config` is still the default.
  unfoldable pub new_core : ℕ → Context F G1 G2 → Core F G1 G2
  new_core rid ctx = record {
    id = rid % 2 ^ 16;
    nreplicas = 0;
    collector = record { nreconthres = 0; pvss_context = ctx; dec_share_vec = [] };
    sharechunk_matrix = λ r. [];
    sharing_map = λ r. none;
  }

  -- The part of `config` that the handlers read, after `start`.
  abbrev pub configured : {A : Type 0} → ReplicaConfig A → Core F G1 G2 → Core F G1 G2
  configured config self = record self {
    nreplicas = config.nreplicas;
    collector = record {
      nreconthres = config.nreconthres;
      pvss_context = self.collector.pvss_context;
      dec_share_vec = self.collector.dec_share_vec;
    };
  }

module _ {S A : Type 0} ⦃m : MakesAddress S A⦄ where
  -- The loop that fills `reps`.
  unfoldable pub net_addrs : List S → Result (List A)
  net_addrs [] = ok []
  net_addrs (s ∷ rest) = m.net_addr s >>= λ addr. net_addrs rest >>= λ addrs. ok (addr ∷ addrs)

-- `replicas[idx]`, which C++ leaves undefined past the end.
abbrev pub chosen : {S : Type 0} → Option S → Result S
chosen none = err undefined
chosen (some s) = ok s

-- The text of a file that may fail to open.
abbrev pub opened : Option Text → Result Text
opened none = err context_file_error
opened (some text) = ok text

module _ {F G1 G2 S A : Type 0} ⦃cf : Codec F⦄ ⦃ca : Codec G1⦄ ⦃cb : Codec G2⦄ ⦃cn : Codec ℕ⦄
    ⦃m : MakesAddress S A⦄ ⦃same : Address A⦄ where
  -- `main` up to the event loop: the core of the replica, and `config` and `peers`. The address of
  -- the client is only handed to the network.
  unfoldable pub boot :
      List S → S → ℕ → Option Text → Result (Core F G1 G2 × (ReplicaConfig A × List A))
  unfolding new_core net_addrs
  boot replicas client idx file = do
    s ← chosen (get_elem? replicas idx)
    listen_addr ← m.net_addr s
    ctx_stream ← opened file
    pvss_ctx ← parse_context (from_num_replicas (length replicas)) ctx_stream
    reps ← net_addrs replicas
    client_addr ← m.net_addr client
    let net = start listen_addr reps
    ok (configured net.0 (new_core idx pvss_ctx.0), net)
