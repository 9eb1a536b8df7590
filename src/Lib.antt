-- ===== src/Lib.antt =====
-- A verification of random-beacon, a distributed random beacon on publicly verifiable secret
-- sharing, in C++.
--
-- The parts of the program and how they interact. A dealer (include/pvss/pvss.hpp) hides a random
-- secret in a polynomial, encrypts a share of it for every replica and proves that it did; the
-- replicas aggregate several such sharings, decrypt each its share of the sum, and reconstruct from
-- enough of them a beacon that none could choose. Polynomials are in include/pvss/PolyOps.hpp, the
-- proofs in include/pvss/Dleq.hpp and DecompProof.hpp, and the texts that are exchanged are those of
-- the stream operators of include/pvss/. The replicas (src/DrgCore.cpp, src/DrgBase.cpp) draw who
-- deals, split the text of a sharing into erasure-coded chunks and exchange chunks and shares.
--
-- Which file models which part.
--   Prelude: lists, tests and the result of a call that may throw or fail an assertion (Outcome),
--     with the loops of the program; `size_add` and `size_sub` are those of a 64-bit size_t.
--   Random: calls that draw scalars, which come from a supply that the caller chooses.
--   Stream: text streams, and include/pvss/Serialization.hpp (`put_vector` is serializeVector,
--     `get_vector` deserializeVector).
--   Algebra: the interfaces of the scalars (`Field`), of the two groups (`Group`, `Scalars`) and of
--     the pairing (`Pairing`), which libff implements, and sums and products over a range.
--   Poly: include/pvss/PolyOps.hpp. `Polynomial` is its class; evaluate, random_polynomial,
--     lagrange_interpolation and ensure_degree (Check) are its functions, and
--     lagrange_interpolation_at is the free function. Spec is the value of a polynomial.
--   Config: include/pvss/Config.hpp.
--   Dleq: include/pvss/Dleq.hpp. prove and verify are those of `Dleq`, prove_dual and verify_dual
--     those of `DleqDual`; Streams is their text.
--   Pvss: the methods of `Context` in include/pvss/pvss.hpp: create_sharing and verify_sharing in
--     Deal, aggregate and verify_aggregation in Aggregate, decrypt, verify_decryption, reconstruct
--     and verify_beacon in Reconstruct. Streams has the stream operators of the exchanged data, and
--     Factory the contexts that include/pvss/Factory.hpp makes.
--   Erasure: encode and decode of include/erasure.h, over bytes as numbers; jerasure is a parameter.
--   Wire: the byte streams of salticidae, a parameter.
--   Setup: the program src/pvss_setup.cpp; Verified is about the aggregates that it buffers, Stops
--     about the arguments for which it stops. `int_add` and `int_mul` are sums and products of int,
--     which end with an error where C++ leaves them undefined.
--   Drg: the replicas. Replicas is include/ReplicaConfig.hpp and the registration in
--     src/DrgBase.cpp, Lottery the draw of src/DrgCore.cpp, Shares its on_receive_share. Messages has
--     serialize (put_...) and unserialize (get_...) of Share and ShareChunk in include/DrgCore.hpp
--     and of Chunk in src/erasure.cpp. Core is the rest of src/DrgCore.cpp: deliver_chunk,
--     on_receive_start and on_receive_share_chunk (on_receive_shareChunk), whose Merkle trees are a
--     parameter; what a handler sends is a list of events. Network turns events into packets as
--     src/DrgBase.cpp and include/DrgBase.hpp do, dispatches packets to the handlers, and is the step
--     relation of all replicas. Boot is src/drg.cpp, and Client src/client.cpp.
--   Tests: a field of five elements with groups and a pairing over it, and the theorems there.
--
-- Conventions. An index of the model counts from 0 where the source counts from 1. State that a
-- method changes is an argument and a result. A failed assertion and an exception end a call with
-- an error; the build is one with assertions and without binary streams. The program's loops run
-- over ranges and lists, so there is no fuel: every definition ends. In a step of the network a
-- replica takes any packet that was ever sent; a call that ends with an error is no step. No code of
-- the repository calls on_receive_start, which is public: the replicas at which other code calls it
-- are a parameter of the steps (`starts`), empty for the repository's own programs.
--
-- Not modelled. The curve, its fields and pairing, the SHA-256 of picosha2, sodium's random
-- function, the addresses and the network of salticidae are parameters, with what is relied on as
-- fields of the interfaces. So are jerasure, the Merkle trees of
-- include/merklecpp.h and the byte streams of salticidae. Options, files and the event loop are not
-- modelled: what is read from a file is an argument, and what is written is a result.
-- `DrgBase::do_share` is never called. include/merklecpp.h is a copy of another
-- library.
pub mod Prelude
pub mod Random
pub mod Stream
pub mod Algebra
pub mod Poly
pub mod Config
pub mod Dleq
pub mod Pvss
pub mod Erasure
pub mod Wire
pub mod Drg
pub mod Setup
pub mod Tests
