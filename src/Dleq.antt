-- ===== src/Dleq.antt =====
-- include/pvss/Dleq.hpp: proofs of knowledge of a discrete logarithm, in one group (`Dleq`) and in
-- two groups at once (`DleqDual`).
pub mod Proofs
pub mod Streams
use random_beacon.Prelude.{
  ℕ, List, [], ◌∷◌, ◌++◌, Bool, true, false, not, if◌then◌else◌, Result, ok, err,
}
use random_beacon.Random.{Rand, random_element, ◌>>=◌, pure}
use random_beacon.Stream
use random_beacon.Stream.{Text, Codec, newline, Reader, get, consume_newline}
use random_beacon.Algebra.Field.{Field, ◌⊕◌, ◌⊗◌}
use random_beacon.Algebra.Group.{Group, Scalars, ◌⊞◌, ◌•◌}

-- picosha2, and the conversion of hexadecimal digits by gmp and libff.
pub record Hasher (F : Type 0) : Type 0 where
  pub hash256_hex_string : Text → Text
  pub field_of_hex : Text → F

-- `std::string::pop_back`
abbrev pub pop_back : Text → Text
pop_back [] = []
pop_back (c ∷ []) = []
pop_back (c ∷ d ∷ rest) = c ∷ pop_back (d ∷ rest)

unfoldable pub hash_to_field : {F : Type 0} ⦃h : Hasher F⦄ → Text → F
hash_to_field ⦃h⦄ message = h.field_of_hex (pop_back (h.hash256_hex_string message))

pub record DleqDual (Ga Gb Z : Type 0) : Type 0 where
  pub gra : Ga
  pub grb : Gb
  pub pi : Z

pub record Dleq (G Z : Type 0) : Type 0 where
  pub gr : G
  pub pi : Z

module _ {Z Ga Gb : Type 0} ⦃f : Field Z⦄ ⦃a : Group Ga⦄ ⦃b : Group Gb⦄ ⦃sa : Scalars Z Ga⦄
    ⦃sb : Scalars Z Gb⦄ ⦃ca : Codec Ga⦄ ⦃cb : Codec Gb⦄ ⦃h : Hasher Z⦄ where
  -- The challenge: the hash of the statement and the commitments, a line each.
  unfoldable pub dual_challenge : Ga → Ga → Gb → Gb → Ga → Gb → Z
  unfolding hash_to_field
  dual_challenge g gx k kx gra grb = hash_to_field (
      ca.print g
      ++ newline ∷ ca.print gx
      ++ newline ∷ cb.print k
      ++ newline ∷ cb.print kx
      ++ newline ∷ ca.print gra
      ++ newline ∷ cb.print grb
      ++ newline ∷ [])

  -- `DleqDual::Prove`
  unfoldable pub prove_dual : Ga → Ga → Gb → Gb → Z → Rand Z (DleqDual Ga Gb Z)
  unfolding dual_challenge
  prove_dual g gx k kx x = do
    r ← random_element
    let gra = r • g
    let grb = r • k
    let c = dual_challenge g gx k kx gra grb
    pure (record { gra = gra; grb = grb; pi = r ⊕ x ⊗ c })

  -- `DleqDual::verify`
  unfoldable pub verify_dual : DleqDual Ga Gb Z → Ga → Ga → Gb → Gb → Bool
  unfolding dual_challenge
  verify_dual self g gx k kx =
      let c = dual_challenge g gx k kx self.gra self.grb in
      let lhs1 = self.pi • g in
      let rhs1 = self.gra ⊞ c • gx in
      let lhs2 = self.pi • k in
      let rhs2 = self.grb ⊞ c • kx in if not (a.beq lhs1 rhs1) then false else b.beq lhs2 rhs2

module _ {Z G : Type 0} ⦃f : Field Z⦄ ⦃g : Group G⦄ ⦃s : Scalars Z G⦄ ⦃c : Codec G⦄
    ⦃h : Hasher Z⦄ where
  unfoldable pub challenge : G → G → G → Z
  unfolding hash_to_field
  challenge base gx gr =
      hash_to_field (c.print base ++ newline ∷ c.print gx ++ newline ∷ c.print gr ++ newline ∷ [])

  -- `Dleq::Prove`
  unfoldable pub prove : G → G → Z → Rand Z (Dleq G Z)
  unfolding challenge
  prove base gx x = do
    r ← random_element
    let gr = r • base
    let c = challenge base gx gr
    pure (record { gr = gr; pi = r ⊕ x ⊗ c })

  -- `Dleq::verify`
  unfoldable pub verify : Dleq G Z → G → G → Bool
  unfolding challenge
  verify self base gx =
      let c = challenge base gx self.gr in
      let lhs = self.pi • base in let rhs = self.gr ⊞ c • gx in g.beq lhs rhs
