-- ===== src/Dleq/Streams.antt =====
-- include/pvss/Dleq.hpp: how proofs of discrete logarithms are written to a stream and read back.
use random_beacon.Stream.{
  Codec, Writer, put_line, Reader, ◌>>=◌, pure, get_line, Reads, get_line-put_line,
}
use random_beacon.Dleq.{Dleq, DleqDual}

module _ {Ga Gb Z : Type 0} ⦃ca : Codec Ga⦄ ⦃cb : Codec Gb⦄ ⦃cz : Codec Z⦄ where
  unfoldable pub put_dual : Writer (DleqDual Ga Gb Z)
  put_dual self later = put_line self.gra (put_line self.grb (put_line self.pi later))

  unfoldable pub get_dual : Reader (DleqDual Ga Gb Z)
  get_dual = do
    gra ← get_line
    grb ← get_line
    pi ← get_line
    pure (record { gra = gra; grb = grb; pi = pi })

  -- A proof of equality is read back as it was written.
  pub get_dual-put_dual : Reads get_dual put_dual
  unfolding get_dual put_dual
  get_dual-put_dual self later = rw (
    get_line-put_line self.gra (put_line self.grb (put_line self.pi later)),
    get_line-put_line self.grb (put_line self.pi later),
    get_line-put_line self.pi later,
  )

module _ {G Z : Type 0} ⦃cg : Codec G⦄ ⦃cz : Codec Z⦄ where
  unfoldable pub put_dleq : Writer (Dleq G Z)
  put_dleq self later = put_line self.gr (put_line self.pi later)

  unfoldable pub get_dleq : Reader (Dleq G Z)
  get_dleq = do gr ← get_line; pi ← get_line; pure (record { gr = gr; pi = pi })

  -- A proof of knowledge is read back as it was written.
  pub get_dleq-put_dleq : Reads get_dleq put_dleq
  unfolding get_dleq put_dleq
  get_dleq-put_dleq self later =
      rw (get_line-put_line self.gr (put_line self.pi later), get_line-put_line self.pi later)
