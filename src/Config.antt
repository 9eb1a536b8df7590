-- ===== src/Config.antt =====
-- include/pvss/Config.hpp: the numbers of replicas and of faults, in `size_t`.
pub mod Proofs
use Prim.Native.String.{String}
use random_beacon.Prelude.{
  ℕ, ◌+◌, ◌*◌, ◌/◌, ◌%◌, ◌++◌, ◌∷◌, [], Bool, ltb, size_add, size_sub, size_mod,
}
use random_beacon.Stream.{Codec, Writer, put_line, Reader, get_line, ◌>>=◌, pure}

pub record SyncSystemConfig : Type 0 where
  pub num_replicas : ℕ
  pub num_faults : ℕ

-- `FromNumReplicas`: (n, (n - 1) / 2).
unfoldable pub from_num_replicas : ℕ → SyncSystemConfig
from_num_replicas n = record { num_replicas = n; num_faults = size_sub n 1 / 2 }

-- `FromNumFaults`: (2f + 1, f).
unfoldable pub from_num_faults : ℕ → SyncSystemConfig
from_num_faults f = record { num_replicas = size_add (2 * f % size_mod) 1; num_faults = f }

-- `SystemConfig::is_valid`, which `SyncSystemConfig` overrides.
unfoldable pub base_is_valid : SyncSystemConfig → Bool
base_is_valid c = ltb c.num_faults c.num_replicas

unfoldable pub is_valid : SyncSystemConfig → Bool
is_valid c = ltb (2 * c.num_faults % size_mod) c.num_replicas

-- `operator<<` and `operator>>`.
unfoldable pub put_config : ⦃n : Codec ℕ⦄ → Writer SyncSystemConfig
put_config self later = put_line self.num_replicas (put_line self.num_faults later)

unfoldable pub get_config : ⦃n : Codec ℕ⦄ → Reader SyncSystemConfig
get_config = do
  replicas ← get_line
  faults ← get_line
  pure (record { num_replicas = replicas; num_faults = faults })
