-- ===== src/Drg.antt =====
-- The replicas: Replicas is include/ReplicaConfig.hpp and the start of src/DrgBase.cpp, Lottery the
-- draw of src/DrgCore.cpp that decides who deals, Shares its handler of decrypted shares, Messages
-- what is sent, Core the rest of src/DrgCore.cpp, Network src/DrgBase.cpp and all replicas
-- together, Boot src/drg.cpp, and Client src/client.cpp.
pub mod Replicas
pub mod Lottery
pub mod Shares
pub mod Messages
pub mod Core
pub mod Network
pub mod Boot
pub mod Client
