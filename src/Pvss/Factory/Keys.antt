-- ===== src/Pvss/Factory/Keys.antt =====
-- The contexts that `Factory::getContext` of include/pvss/Factory.hpp makes fit together.
use random_beacon.Prelude.{
  ℕ, ◌<◌, ◌≡◌, ◌≢◌, refl, List, ok, at, length, tabulate, collect-ok, length-tabulate,
  get_or-tabulate, map-tabulate,
}
use random_beacon.Random.{Supply, after, draws-ok}
use random_beacon.Stream.{Codec}
use random_beacon.Dleq.{Hasher}
use random_beacon.Config.{SyncSystemConfig}
use random_beacon.Algebra.Field.{Field}
use random_beacon.Algebra.Group.{Group, Scalars, ◌•◌}
use random_beacon.Pvss.Defs.{Context}
use random_beacon.Poly.Loops.{at-tabulate}
use random_beacon.Pvss.Reconstruct.Decrypt.{HoldsKey}
use random_beacon.Pvss.Factory.{make_keys, make_contexts, get_context}

module _ {F G1 G2 : Type 0} ⦃f : Field F⦄ ⦃a : Group G1⦄ ⦃b : Group G2⦄ ⦃sa : Scalars F G1⦄
    ⦃sb : Scalars F G2⦄ ⦃ca : Codec G1⦄ ⦃cb : Codec G2⦄ ⦃h : Hasher F⦄ where
  -- The context of the i-th replica, from the scalars that were drawn.
  abbrev pub setup_of : SyncSystemConfig → G1 → G1 → G2 → G2 → Supply F → ℕ → Context F G1 G2
  setup_of config g1 g2 h1 h2 supply i = record {
    pk_map = tabulate config.num_replicas (λ k. supply k • g1);
    config = config;
    g1 = g1;
    g2 = g2;
    h1 = h1;
    h2 = h2;
    secret_key = supply i;
    my_id = i;
  }

  make_contexts_lem :
      (config : SyncSystemConfig) (g1 g2 : G1) (h1 h2 : G2) (supply : Supply F)
      → make_contexts config
          (tabulate config.num_replicas (λ k. supply k • g1))
          (tabulate config.num_replicas supply)
          g1
          g2
          h1
          h2
        ≡ ok (tabulate config.num_replicas (setup_of config g1 g2 h1 h2 supply))
  unfolding make_contexts
  make_contexts_lem config g1 g2 h1 h2 supply =
      collect-ok config.num_replicas _ (setup_of config g1 g2 h1 h2 supply)
        (λ i h. rw (at-tabulate config.num_replicas supply i h))

  pub get_context_lem :
      (config : SyncSystemConfig) (g1 g2 : G1) (h1 h2 : G2) (supply : Supply F)
      → get_context config g1 g2 h1 h2 supply
        ≡ ok (
          tabulate config.num_replicas (setup_of config g1 g2 h1 h2 supply),
          after config.num_replicas supply,
        )
  unfolding get_context make_keys
  get_context_lem config g1 g2 h1 h2 supply =
      let n = config.num_replicas in
      let drawn = draws-ok {A = F × G1} n _ (λ i (sk : F). (sk, sk • g1)) (λ i h s. refl) supply in
      rw (
        drawn,
        map-tabulate n (λ (k : F × G1). k.0) (λ i. (supply i, supply i • g1)),
        map-tabulate n (λ (k : F × G1). k.1) (λ i. (supply i, supply i • g1)),
        make_contexts_lem config g1 g2 h1 h2 supply,
      )

  -- `getContext` draws a scalar for each replica and returns a context for each, in order. All have
  -- the same keys and the configuration of the factory, and each replica holds the key of its
  -- index when no scalar drawn is 0.
  pub get_context-HoldsKey :
      (config : SyncSystemConfig) (g1 g2 : G1) (h1 h2 : G2) (supply : Supply F)
      → ((i : ℕ) → i < config.num_replicas → supply i ≢ f.zero)
      → (setup : List (Context F G1 G2)) × (get_context config g1 g2 h1 h2 supply
          ≡ ok (setup, after config.num_replicas supply))
        × (length setup ≡ config.num_replicas)
        × ((i : ℕ)
            → i < config.num_replicas
            → (ctx : Context F G1 G2) × (at setup i ≡ ok ctx)
              × (ctx.my_id ≡ i)
              × (ctx.config ≡ config)
              × (ctx.pk_map ≡ tabulate config.num_replicas (λ k. supply k • g1))
              × (length ctx.pk_map ≡ config.num_replicas)
              × HoldsKey ctx)
  get_context-HoldsKey config g1 g2 h1 h2 supply nonzero =
      let n = config.num_replicas in
      (
        tabulate n (setup_of config g1 g2 h1 h2 supply),
        get_context_lem config g1 g2 h1 h2 supply,
        length-tabulate n _,
        λ i h. (
          setup_of config g1 g2 h1 h2 supply i,
          at-tabulate n _ i h,
          refl,
          refl,
          refl,
          length-tabulate n _,
          record {
            inside = h;
            pair = get_or-tabulate n (λ k. supply k • g1) i a.zero h;
            nonzero = nonzero i h;
          },
        ),
      )
