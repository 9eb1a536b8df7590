-- ===== src/Drg/Core/Repeated.antt =====
-- A message that is delivered again to `on_receive_shareChunk` of src/DrgCore.cpp.
use random_beacon.Algebra.Field.{Field}
use random_beacon.Algebra.Group.{Group}
use random_beacon.Drg.Core.{Core}
