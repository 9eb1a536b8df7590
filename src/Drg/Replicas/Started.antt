-- ===== src/Drg/Replicas/Started.antt =====
-- The configuration that `DrgBase::start` of src/DrgBase.cpp leaves behind.
use random_beacon.Prelude.{
  ℕ, zero, suc, ◌+◌, ◌/◌, ◌%◌, ◌^◌, ◌≤◌, ◌<◌, ◌≡◌, ◌≢◌, refl, sym, ap, ap₂, ◌∙◌, List, [], ◌∷◌,
  ◌++◌, Bool, true, false, some, none, ok, err, length, ==_refl, ne→==, arith, if◌then◌else◌, ◌==◌,
  append-nil, append_assoc, get_elem?, rid_not_found,
}
use random_beacon.Drg.Replicas.{
  ReplicaInfo, ReplicaConfig, Address, find, insert, add_replica, get_info, get_addr, on_init,
  add_all, start,
}

module _ {A : Type 0} where
  -- The entries are those of the ids below i.
  abbrev Below : ℕ → List (ℕ × ReplicaInfo A) → Type 0
  Below i entries = (k : ℕ) → i ≤ k → find entries k ≡ none

  find-insert_new :
      (entries : List (ℕ × ReplicaInfo A)) (i k : ℕ) (info : ReplicaInfo A)
      → find entries i ≡ none
      → find (insert entries i info) k ≡ (if i == k then some info else find entries k)
  unfolding find insert
  find-insert_new entries i k info absent = rw absent refl

  -- A replica is added under its index, when that has 16 bits and is not there yet.
  add_replica-find :
      (config : ReplicaConfig A) (i k : ℕ) (addr : A)
      → i < 2 ^ 16
      → find config.replica_map i ≡ none
      → find
          (add_replica config (i % 2 ^ 16) (record { id = i % 2 ^ 16; addr = addr })).replica_map
          k
        ≡ (if i == k then some (record { id = i; addr = addr }) else find config.replica_map k)
  unfolding add_replica
  add_replica-find config i k addr small absent =
      ap (λ r. find (insert config.replica_map r (record { id = r; addr = addr })) k) (omega arith)
      ∙ find-insert_new config.replica_map i k (record { id = i; addr = addr }) absent

  -- The entries from i on are the addresses of the list.
  abbrev Lists : ℕ → List A → List (ℕ × ReplicaInfo A) → Type 0
  Lists i addrs entries =
      (j k : ℕ) (addr : A)
      → k ≡ i + j
      → get_elem? addrs j ≡ some addr
      → find entries k ≡ some (record { id = k; addr = addr })

  cons-Lists :
      (i : ℕ) (addr : A) (addrs : List A) (entries : List (ℕ × ReplicaInfo A))
      → find entries i ≡ some (record { id = i; addr = addr })
      → Lists (suc i) addrs entries
      → Lists i (addr ∷ addrs) entries
  cons-Lists i addr addrs entries first rest zero k addr' p q =
      let here : i ≡ k = omega arith in
      let same : addr ≡ addr' = cc in
      ap (find entries) (sym here)
      ∙ first
      ∙ ap₂ (λ m a. some (record { id = m; addr = a })) here same
  cons-Lists i addr addrs entries first rest (suc j) k addr' p q = rest j k addr' (omega arith) q

  -- What a loop whose indices start at i leaves to be found: below i what was there, from i on the
  -- addresses of its list, and then nothing.
  record Extends (i : ℕ) (addrs : List A) (old new : List (ℕ × ReplicaInfo A)) : Type 0 where
    kept : (k : ℕ) → k < i → find new k ≡ find old k
    added : Lists i addrs new
    ended : Below (i + length addrs) new

  add_all-Extends :
      ⦃e : Address A⦄ (listen_addr : A) (addrs : List A) (i : ℕ) (state : ReplicaConfig A × List A)
      → i + length addrs ≤ 2 ^ 16
      → Below i state.0.replica_map
      → Extends i addrs state.0.replica_map (add_all listen_addr i addrs state).0.replica_map
  unfolding add_all
  add_all-Extends listen_addr [] i state room below = record {
    kept = λ k h. refl;
    added = λ j k addr p q. cc;
    ended = λ k h. below k (omega arith);
  }
  add_all-Extends ⦃e⦄ listen_addr (addr ∷ addrs) i state room below =
      let config : ReplicaConfig A =
        add_replica state.0 (i % 2 ^ 16) (record { id = i % 2 ^ 16; addr = addr }) in
      let peers : List A = if e.same addr listen_addr then state.1 else state.1 ++ addr ∷ [] in
      let step =
        λ (k : ℕ). add_replica-find state.0 i k addr (omega arith) (below i (omega arith)) in
      let elsewhere : (k : ℕ) → i ≢ k → find config.replica_map k ≡ find state.0.replica_map k =
        λ k ne.
          step k
          ∙ ap
              (λ t. if t then some (record { id = i; addr = addr }) else find state.0.replica_map k)
              (ne→== i k ne) in
      let rest =
        add_all-Extends listen_addr addrs (suc i) (config, peers) (omega arith)
          (λ k h. elsewhere k (λ q. omega arith) ∙ below k (omega arith)) in
      record {
        kept = λ k h. rest.kept k (omega arith) ∙ elsewhere k (λ q. omega arith);
        added =
            cons-Lists i addr addrs _
              (rest.kept i (omega arith)
                ∙ step i
                ∙ ap
                    (λ t.
                      if t
                      then some (record { id = i; addr = addr })
                      else find state.0.replica_map i)
                    (==_refl i))
              rest.added;
        ended = λ k h. rest.ended k (omega arith);
      }

  add_all-nreplicas :
      ⦃e : Address A⦄ (listen_addr : A) (addrs : List A) (i : ℕ) (state : ReplicaConfig A × List A)
      → state.0.nreplicas + length addrs < 2 ^ 64
      → (add_all listen_addr i addrs state).0.nreplicas ≡ state.0.nreplicas + length addrs
  unfolding add_all add_replica
  add_all-nreplicas listen_addr [] i state room = omega arith
  add_all-nreplicas ⦃e⦄ listen_addr (addr ∷ addrs) i state room =
      add_all-nreplicas listen_addr addrs (suc i)
        (
          add_replica state.0 (i % 2 ^ 16) (record { id = i % 2 ^ 16; addr = addr }),
          if e.same addr listen_addr then state.1 else state.1 ++ addr ∷ [],
        )
        (omega arith)
      ∙ omega arith

  -- The addresses of the others, in order.
  abbrev pub others : ⦃e : Address A⦄ → A → List A → List A
  others listen_addr [] = []
  others ⦃e⦄ listen_addr (addr ∷ addrs) =
      if e.same addr listen_addr then others listen_addr addrs else addr ∷ others listen_addr addrs

  push :
      (b : Bool) (xs : List A) (a : A) (ys : List A)
      → (if b then xs else xs ++ a ∷ []) ++ ys ≡ xs ++ (if b then ys else a ∷ ys)
  push true xs a ys = refl
  push false xs a ys = append_assoc xs (a ∷ []) ys

  add_all-peers :
      ⦃e : Address A⦄ (listen_addr : A) (addrs : List A) (i : ℕ) (state : ReplicaConfig A × List A)
      → (add_all listen_addr i addrs state).1 ≡ state.1 ++ others listen_addr addrs
  unfolding add_all
  add_all-peers listen_addr [] i state = sym (append-nil state.1)
  add_all-peers ⦃e⦄ listen_addr (addr ∷ addrs) i state =
      add_all-peers listen_addr addrs (suc i) (
        add_replica state.0 (i % 2 ^ 16) (record { id = i % 2 ^ 16; addr = addr }),
        if e.same addr listen_addr then state.1 else state.1 ++ addr ∷ [],
      )
      ∙ push (e.same addr listen_addr) state.1 addr (others listen_addr addrs)

  nothing : (k : ℕ) → 0 ≤ k → find {A = A} [] k ≡ none
  unfolding find
  nothing k h = refl

  -- After `start` with at most 2^16 addresses, the configuration has a replica for each of them and
  -- the threshold of `on_init`; the i-th id leads to the i-th address, any other id ends in the
  -- exception; and the peers are the other addresses, in order.
  pub start_lem :
      ⦃e : Address A⦄ (listen_addr : A) (addrs : List A)
      → length addrs ≤ 2 ^ 16
      → ((start listen_addr addrs).0.nreplicas ≡ length addrs)
        × ((start listen_addr addrs).0.nreconthres ≡ length addrs / 4 + 1)
        × ((i : ℕ) (addr : A)
            → get_elem? addrs i ≡ some addr
            → get_addr (start listen_addr addrs).0 i ≡ ok addr)
        × ((i : ℕ) → length addrs ≤ i → get_addr (start listen_addr addrs).0 i ≡ err rid_not_found)
        × ((start listen_addr addrs).1 ≡ others listen_addr addrs)
  unfolding start on_init get_addr get_info
  start_lem listen_addr addrs room =
      let empty : ReplicaConfig A × List A =
        (record { nreplicas = 0; nreconthres = 0; replica_map = [] }, []) in
      let count = add_all-nreplicas listen_addr addrs 0 empty (omega arith) in
      let entries = add_all-Extends listen_addr addrs 0 empty (omega arith) nothing in
      (
        omega (arith, count),
        omega (arith, count),
        λ i addr q. rw (entries.added i i addr (omega arith) q) refl,
        λ i h. rw (entries.ended i (omega arith)) refl,
        add_all-peers listen_addr addrs 0 empty,
      )
