-- ===== src/Drg/Core/Completed.antt =====
-- The message with which `on_receive_shareChunk` of src/DrgCore.cpp has enough chunks.
use random_beacon.Prelude.{assign, some}
use random_beacon.Algebra.Field.{Field}
use random_beacon.Algebra.Group.{Group}
use random_beacon.Pvss.Defs.{Aggregate}
use random_beacon.Drg.Messages.{ShareChunk}
use random_beacon.Drg.Core.{store_row, Core}

module _ {F G1 G2 : Type 0} where
  -- The core when the chunk of a message is stored.
  abbrev pub received : ShareChunk → Core F G1 G2 → Core F G1 G2
  received share self =
      store_row self share.replica_id
        (assign share.idx (some share.chunk) (self.sharechunk_matrix share.replica_id))
