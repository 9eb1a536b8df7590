-- ===== src/Drg/Boot/FromSetup.antt =====
-- The replicas that src/drg.cpp makes from the files of src/pvss_setup.cpp.
use random_beacon.Prelude.{
  ℕ, zero, suc, ◌+◌, ◌/◌, ◌%◌, ◌^◌, ◌≤◌, ◌<◌, ◌≡◌, refl, sym, ap, subst, ◌∙◌, List, [], ◌∷◌, map,
  some, none, ok, at, arith, length, tabulate, get_elem?, ok_injective, >>=-eq-ok, map-tabulate,
}
use random_beacon.Random.{Supply}
use random_beacon.Stream.{Text, Codec, put_vector}
use random_beacon.Config.{from_num_replicas}
use random_beacon.Algebra.Field.{Field}
use random_beacon.Algebra.Group.{Group, Scalars, Pairing}
use random_beacon.Dleq.{Hasher}
use random_beacon.Poly.Loops.{at-tabulate}
use random_beacon.Pvss.Defs.{Context}
use random_beacon.Pvss.Streams.{put_context, put_aggregate}
use random_beacon.Pvss.Factory.{get_context}
use random_beacon.Pvss.Streams.Proofs.{parse_context-put_context}
use random_beacon.Pvss.Factory.Keys.{setup_of, get_context_lem}
use random_beacon.Setup.{pvss_setup}
use random_beacon.Setup.Verified.{pvss_setup-accepted}
use random_beacon.Drg.Replicas.{Address, start}
use random_beacon.Drg.Replicas.Started.{start_lem}
use random_beacon.Drg.Boot.{MakesAddress, net_addrs, boot, new_core}

module _ {S A : Type 0} ⦃m : MakesAddress S A⦄ where
  -- The i-th string and the address that is made of it.
  abbrev Named : List S → List A → ℕ → Type 0
  Named replicas addrs i =
      (s : S) × (addr : A) × (get_elem? replicas i ≡ some s)
      × (m.net_addr s ≡ ok addr)
      × (get_elem? addrs i ≡ some addr)

  -- The loop makes an address of each string, in order.
  net_addrs_lem :
      (replicas : List S) (addrs : List A)
      → net_addrs replicas ≡ ok addrs
      → (length addrs ≡ length replicas) × ((i : ℕ) → i < length replicas → Named replicas addrs i)
  unfolding net_addrs
  net_addrs_lem [] addrs h =
      subst (λ (xs : List A). (length xs ≡ 0) × ((i : ℕ) → i < 0 → Named [] xs i)) (ok_injective h)
        (refl, λ i less. absurd (omega arith))
  net_addrs_lem (s ∷ rest) addrs h =
      let (addr, made, h1) = >>=-eq-ok (m.net_addr s) _ h in
      let (others, h2, h3) = >>=-eq-ok (net_addrs rest) _ h1 in
      let (count, each) = net_addrs_lem rest others h2 in
      subst
        (λ (xs : List A).
          (length xs ≡ suc (length rest))
          × ((i : ℕ) → i < suc (length rest) → Named (s ∷ rest) xs i))
        (ok_injective h3) (ap suc count, indexed addr others made each)
    where
      indexed :
          (addr : A) (others : List A)
          → m.net_addr s ≡ ok addr
          → ((i : ℕ) → i < length rest → Named rest others i)
          → (i : ℕ) → i < suc (length rest)
          → Named (s ∷ rest) (addr ∷ others) i
      indexed addr others made each zero less = (s, addr, refl, made, refl)
      indexed addr others made each (suc i) less = each i (omega arith)

module _ {F G1 G2 S A : Type 0} ⦃cf : Codec F⦄ ⦃ca : Codec G1⦄ ⦃cb : Codec G2⦄ ⦃cn : Codec ℕ⦄
    ⦃m : MakesAddress S A⦄ ⦃same : Address A⦄ where
  -- A replica is made from the text of a context with the configuration of its factory.
  boot-put_context :
      (replicas : List S) (addrs : List A) (client : S) (client_addr : A) (i : ℕ)
      (ctx : Context F G1 G2)
      → length replicas ≤ 2 ^ 16
      → i < length replicas
      → ctx.config ≡ from_num_replicas (length replicas)
      → net_addrs replicas ≡ ok addrs
      → m.net_addr client ≡ ok client_addr
      → (listen_addr : A) × (get_elem? addrs i ≡ some listen_addr)
        × (boot replicas client i (some (put_context ctx []))
            ≡ ok (
              record {
                id = i;
                nreplicas = length replicas;
                collector = record {
                  nreconthres = length replicas / 4 + 1;
                  pvss_context = ctx;
                  dec_share_vec = [];
                };
                sharechunk_matrix = λ r. [];
                sharing_map = λ r. none;
              },
              start listen_addr addrs,
            ))
  unfolding boot new_core
  boot-put_context replicas addrs client client_addr i ctx room less config made called =
      let (count, each) = net_addrs_lem replicas addrs made in
      let (s, listen_addr, found, makes, is_here) = each i less in
      let (replicas_eq, threshold_eq, by_id, no_others, peers) =
        start_lem listen_addr addrs (omega arith) in
      let small : i % 2 ^ 16 ≡ i = omega arith in
      (
        listen_addr,
        is_here,
        rw
            (
              found,
              makes,
              parse_context-put_context (from_num_replicas (length replicas)) ctx [],
              made,
              called,
              replicas_eq ∙ count,
              threshold_eq ∙ ap (λ n. n / 4 + 1) count,
              small,
              sym config,
            )
            refl,
      )

module _ {F G1 G2 GT S A : Type 0} ⦃f : Field F⦄ ⦃a : Group G1⦄ ⦃b : Group G2⦄ ⦃sa : Scalars F G1⦄
    ⦃sb : Scalars F G2⦄ (e : Pairing F G1 G2 GT) ⦃ca : Codec G1⦄ ⦃cb : Codec G2⦄ ⦃h : Hasher F⦄
    ⦃cf : Codec F⦄ ⦃cn : Codec ℕ⦄ ⦃m : MakesAddress S A⦄ ⦃same : Address A⦄ where
  -- For n replicas, 2 ≤ n ≤ 2^16, fewer than scalars and at most the largest size of a vector,
  -- whose strings and that of the client all make addresses: the setup program writes a file for
  -- each replica, and the replica program, given the i-th file and the index i below n, makes a
  -- replica with the id i, the i-th context that the factory of the setup has made, n replicas and
  -- the threshold n / 4 + 1, which holds no chunk, sharing or share, and the configuration and peers
  -- of `start` at the i-th address.
  pub pvss_setup-boot :
      (replicas : List S) (addrs : List A) (client : S) (client_addr : A) (g1 g2 : G1) (h1 h2 : G2)
      (supply : Supply F)
      → 2 ≤ length replicas
      → length replicas ≤ 2 ^ 16
      → length replicas < f.order
      → length replicas ≤ f.max_size
      → net_addrs replicas ≡ ok addrs
      → m.net_addr client ≡ ok client_addr
      → (setup : List (Context F G1 G2)) × (drawn : Supply F) × (get_context
            (from_num_replicas (length replicas))
            g1
            g2
            h1
            h2
            supply
          ≡ ok (setup, drawn))
        × (texts : List Text) × (dat : Text) × (rest : Supply F) × (pvss_setup e
              (length replicas)
              g1
              g2
              h1
              h2
              supply
            ≡ ok ((texts, dat), rest))
        × ((i : ℕ)
            → i < length replicas
            → (text : Text) × (ctx : Context F G1 G2) × (listen_addr : A) × (at texts i ≡ ok text)
              × (at setup i ≡ ok ctx)
              × (get_elem? addrs i ≡ some listen_addr)
              × (boot replicas client i (some text)
                  ≡ ok (
                    record {
                      id = i;
                      nreplicas = length replicas;
                      collector = record {
                        nreconthres = length replicas / 4 + 1;
                        pvss_context = ctx;
                        dec_share_vec = [];
                      };
                      sharechunk_matrix = λ r. [];
                      sharing_map = λ r. none;
                    },
                    start listen_addr addrs,
                  )))
  unfolding from_num_replicas
  pvss_setup-boot replicas addrs client client_addr g1 g2 h1 h2 supply two room order size made
        called =
      let n = length replicas in
      let context = setup_of (from_num_replicas n) g1 g2 h1 h2 supply in
      let written = λ (c : Context F G1 G2). put_context c [] in
      let (setup, drawn, returned, aggs, rest, wrote, count, verified) =
        pvss_setup-accepted e n g1 g2 h1 h2 supply two (omega arith) order size in
      let same_setup : setup ≡ tabulate n context =
        ap (λ r. r.0)
          (ok_injective
            (sym returned ∙ get_context_lem (from_num_replicas n) g1 g2 h1 h2 supply)) in
      (
        setup,
        drawn,
        returned,
        map written setup,
        put_vector put_aggregate aggs [],
        rest,
        wrote,
        λ i less.
            let (listen_addr, is_here, booted) =
              boot-put_context replicas addrs client client_addr i (context i) room less refl made
                called in
            (
              written (context i),
              context i,
              listen_addr,
              ap (λ xs. at xs i) (ap (map written) same_setup ∙ map-tabulate n written context)
                  ∙ at-tabulate n (λ k. written (context k)) i less,
              ap (λ xs. at xs i) same_setup ∙ at-tabulate n context i less,
              is_here,
              booted,
            ),
      )
