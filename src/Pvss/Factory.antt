-- ===== src/Pvss/Factory.antt =====
-- include/pvss/Factory.hpp: `Factory::getContext`, which makes the contexts of all replicas.
pub mod Keys
use random_beacon.Prelude.{ℕ, List, Result, ok, map, at, collect}
use random_beacon.Prelude
use random_beacon.Random.{Rand, random_element, ◌>>=◌, pure, lift, draws}
use random_beacon.Config.{SyncSystemConfig}
use random_beacon.Algebra.Field.{Field}
use random_beacon.Algebra.Group.{Group, Scalars, ◌•◌}
use random_beacon.Pvss.Defs.{Context}

module _ {F G1 : Type 0} ⦃f : Field F⦄ ⦃a : Group G1⦄ ⦃sa : Scalars F G1⦄ where
  -- The first loop: the keys of one replica, secret and public.
  unfoldable pub make_keys : ℕ → G1 → Rand F (List (F × G1))
  make_keys n generator = draws n (λ i. do sk ← random_element; pure (sk, sk • generator))

module _ {F G1 G2 : Type 0} ⦃f : Field F⦄ ⦃a : Group G1⦄ ⦃sa : Scalars F G1⦄ where
  -- The second loop: a context for every secret key.
  unfoldable pub make_contexts :
      SyncSystemConfig → List G1 → List F → G1 → G1 → G2 → G2 → Result (List (Context F G1 G2))
  make_contexts config public_keys secret_keys g1 g2 h1 h2 = collect config.num_replicas (λ i.
      Prelude.◌>>=◌ (at secret_keys i) λ sk. ok (record {
        pk_map = public_keys;
        config = config;
        g1 = g1;
        g2 = g2;
        h1 = h1;
        h2 = h2;
        secret_key = sk;
        my_id = i;
      }))

  -- The four points that `G1::random_element` and `G2::random_element` return are arguments.
  unfoldable pub get_context :
      SyncSystemConfig → G1 → G1 → G2 → G2 → Rand F (List (Context F G1 G2))
  unfolding make_keys make_contexts
  get_context config g1 g2 h1 h2 = do
    keys ← make_keys config.num_replicas g1
    let secret_keys = map (λ (k : F × G1). k.0) keys
    let public_keys = map (λ (k : F × G1). k.1) keys
    lift (make_contexts config public_keys secret_keys g1 g2 h1 h2)
