-- ===== src/Drg/Client.antt =====
-- src/client.cpp: the client, which asks a replica to start. The address of the replica is an
-- argument.
pub mod Ignored
use random_beacon.Prelude.{
  ℕ, List, [], ◌∷◌, ◌++◌, Option, none, some, Result, ok, ◌>>=◌, if◌then◌else◌, ltb, length,
  get_elem?,
}
use random_beacon.Drg.Boot.{MakesAddress}
use random_beacon.Drg.Network.{Packet, start_opcode}

pub record Client (A : Type 0) : Type 0 where
  pub peers : List A

module _ {S A : Type 0} ⦃m : MakesAddress S A⦄ where
  unfoldable pub add_peer : S → Client A → Result (Client A)
  add_peer addr self = m.net_addr addr >>= λ a. ok (record { peers = self.peers ++ a ∷ [] })

module _ {A : Type 0} where
  abbrev start_to : Option A → List (Packet A)
  start_to none = []
  start_to (some a) = record { to = a; opcode = start_opcode; body = [] } ∷ []

  -- What is sent; `peer_id` is compared as a `size_t`.
  unfoldable pub send_start : ℕ → Client A → List (Packet A)
  send_start peer_id self =
      if ltb peer_id (length self.peers) then start_to (get_elem? self.peers peer_id) else []

module _ {S A : Type 0} ⦃m : MakesAddress S A⦄ where
  -- `main` up to the event loop.
  unfoldable pub client_main : S → Result (List (Packet A))
  unfolding add_peer send_start
  client_main addr = add_peer addr (record { peers = [] }) >>= λ c. ok (send_start 0 c)
