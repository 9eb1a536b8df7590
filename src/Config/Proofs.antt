-- ===== src/Config/Proofs.antt =====
-- When a configuration of include/pvss/Config.hpp is valid, and how it is read back.
use random_beacon.Prelude.{ℕ, ◌+◌, ◌*◌, ◌^◌, ◌<◌, ◌≤◌, ◌≡◌, ap₂, true, arith, ◌↔◌, ltb→lt, lt→ltb}
use random_beacon.Stream.{Codec, put_line, get_line-put_line, Reads}
use random_beacon.Config.{
  get_config, put_config, SyncSystemConfig, from_num_replicas, from_num_faults, is_valid,
}

-- `FromNumReplicas(n)` is valid exactly when n is not 0, and then with the most faults for which a
-- configuration of n replicas is valid.
pub from_num_replicas-is_valid :
    (n : ℕ)
    → n < 2 ^ 64
    → ((is_valid (from_num_replicas n) ≡ true) ↔ (0 < n))
      × ((f : ℕ)
          → 2 * f < 2 ^ 64
          → 0 < n
          → is_valid (record { num_replicas = n; num_faults = f }) ≡ true
          → f ≤ (from_num_replicas n).num_faults)
unfolding from_num_replicas is_valid
from_num_replicas-is_valid n h = (
  ((λ e. omega (arith, ltb→lt _ n e)), λ p. lt→ltb _ n (omega arith)),
  λ f small some_replica e. omega (arith, ltb→lt _ n e),
)

-- `FromNumFaults(f)` is valid for every f, and `FromNumReplicas` gives it back from its number of
-- replicas when 2 f + 1 does not overflow.
pub from_num_faults_lem :
    (f : ℕ)
    → f < 2 ^ 64
    → (is_valid (from_num_faults f) ≡ true)
      × (2 * f + 1 < 2 ^ 64
          → from_num_replicas (from_num_faults f).num_replicas ≡ from_num_faults f)
unfolding from_num_faults is_valid from_num_replicas
from_num_faults_lem f h =
    (lt→ltb _ _ (omega arith), λ small. ap₂ config (omega arith) (omega arith))
  where
    config : ℕ → ℕ → SyncSystemConfig
    config n k = record { num_replicas = n; num_faults = k }

-- A configuration is read back as it was written.
pub get_config-put_config : ⦃n : Codec ℕ⦄ → Reads get_config put_config
unfolding get_config put_config
get_config-put_config self later = rw (
  get_line-put_line self.num_replicas (put_line self.num_faults later),
  get_line-put_line self.num_faults later,
)
