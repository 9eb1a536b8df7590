-- ===== src/Drg/Replicas.antt =====
-- include/ReplicaConfig.hpp, `DrgCore::add_replica` and `on_init` of src/DrgCore.cpp, and the loop
-- of `DrgBase::start` of src/DrgBase.cpp. Addresses and their equality are salticidae's.
pub mod Started
use random_beacon.Prelude.{
  ℕ, zero, suc, ◌+◌, ◌/◌, ◌%◌, ◌^◌, List, [], ◌∷◌, ◌++◌, Bool, true, false, Option, none, some,
  Result, ok, err, ◌>>=◌, if◌then◌else◌, ◌==◌, size_add, rid_not_found,
}

pub record ReplicaInfo (A : Type 0) : Type 0 where
  pub id : ℕ
  pub addr : A

-- `replica_map` is an association list with one entry for each key.
pub record ReplicaConfig (A : Type 0) : Type 0 where
  pub nreplicas : ℕ
  pub nreconthres : ℕ
  pub replica_map : List (ℕ × ReplicaInfo A)

-- `NetAddr::operator==`
pub record Address (A : Type 0) : Type 0 where
  pub same : A → A → Bool

module _ {A : Type 0} where
  -- `unordered_map::find`
  unfoldable pub find : List (ℕ × ReplicaInfo A) → ℕ → Option (ReplicaInfo A)
  find [] rid = none
  find (entry ∷ rest) rid = if entry.0 == rid then some entry.1 else find rest rid

  -- `unordered_map::insert`, which leaves an entry that is there as it is.
  abbrev insert_absent :
      Option (ReplicaInfo A)
      → ℕ
      → ReplicaInfo A
      → List (ℕ × ReplicaInfo A)
      → List (ℕ × ReplicaInfo A)
  insert_absent none rid info entries = (rid, info) ∷ entries
  insert_absent (some old) rid info entries = entries

  unfoldable pub insert : List (ℕ × ReplicaInfo A) → ℕ → ReplicaInfo A → List (ℕ × ReplicaInfo A)
  insert entries rid info = insert_absent (find entries rid) rid info entries

  -- `ReplicaConfig::add_replica`, which counts a replica also when its id is there already.
  unfoldable pub add_replica : ReplicaConfig A → ℕ → ReplicaInfo A → ReplicaConfig A
  unfolding insert
  add_replica self rid info = record {
    nreplicas = size_add self.nreplicas 1;
    nreconthres = self.nreconthres;
    replica_map = insert self.replica_map rid info;
  }

  -- `DrgCore::add_replica`
  abbrev pub core_add_replica : ReplicaConfig A → ℕ → A → ReplicaConfig A
  core_add_replica config rid addr = add_replica config rid (record { id = rid; addr = addr })

  abbrev found : Option (ReplicaInfo A) → Result (ReplicaInfo A)
  found none = err rid_not_found
  found (some info) = ok info

  unfoldable pub get_info : ReplicaConfig A → ℕ → Result (ReplicaInfo A)
  get_info self rid = found (find self.replica_map rid)

  unfoldable pub get_addr : ReplicaConfig A → ℕ → Result A
  unfolding get_info
  get_addr self rid = get_info self rid >>= λ info. ok info.addr

  -- `DrgCore::on_init`. The quotient by 4.0 is exact below 2^53 replicas.
  unfoldable pub on_init : ReplicaConfig A → ReplicaConfig A
  on_init self = record {
    nreplicas = self.nreplicas;
    nreconthres = size_add (self.nreplicas / 4) 1;
    replica_map = self.replica_map;
  }

  -- The loop of `DrgBase::start` from index i on: what it leaves in `config` and in `peers`. The
  -- network is told of each peer as it is pushed. An id has 16 bits.
  unfoldable pub add_all :
      ⦃e : Address A⦄ → A → ℕ → List A → ReplicaConfig A × List A → ReplicaConfig A × List A
  unfolding add_replica
  add_all listen_addr i [] state = state
  add_all ⦃e⦄ listen_addr i (addr ∷ rest) state =
      let rid = i % 2 ^ 16 in
      let config = core_add_replica state.0 rid addr in
      let peers = if e.same addr listen_addr then state.1 else state.1 ++ addr ∷ [] in
      add_all listen_addr (suc i) rest (config, peers)

  -- `DrgBase::start`, up to the event loop, of a replica that knows no other.
  unfoldable pub start : ⦃e : Address A⦄ → A → List A → ReplicaConfig A × List A
  unfolding add_all on_init
  start listen_addr replicas =
      let state =
        add_all listen_addr 0 replicas
          (record { nreplicas = 0; nreconthres = 0; replica_map = [] }, []) in
      (on_init state.0, state.1)
