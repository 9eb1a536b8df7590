-- ===== src/Wire.antt =====
-- The byte streams of salticidae, `salticidae::DataStream`, as parameters.
use random_beacon.Prelude.{ℕ, ◌<◌, ◌≡◌, ◌^◌, ◌++◌, Option, some, length}
use random_beacon.Stream.{Reader, or_bad}
use random_beacon.Erasure.{Bytes}

-- `put` is what `s << a` appends, and `get` is `s >> a` on the bytes that are left.
pub record Binary (A : Type 0) : Type 0 where
  pub put : A → Bytes
  pub get : Bytes → Option (A × Bytes)

-- Words of 16, 32 and 256 bits, which are read back as they were written, the last as a blob of 32
-- bytes; the conversions to little
-- endian and back; and `get_data_inplace`, which takes as many bytes from the front as it is asked.
pub record DataStream : Type 0 where
  pub u16 : Binary ℕ
  pub u32 : Binary ℕ
  pub u256 : Binary Bytes
  pub htole : ℕ → ℕ
  pub letoh : ℕ → ℕ
  pub get_data_inplace : Bytes → ℕ → Option (Bytes × Bytes)
  pub get-put_u16 :
      (n : ℕ) (rest : Bytes) → n < 2 ^ 16 → u16.get (u16.put n ++ rest) ≡ some (n, rest)
  pub get-put_u32 :
      (n : ℕ) (rest : Bytes) → n < 2 ^ 32 → u32.get (u32.put n ++ rest) ≡ some (n, rest)
  pub get-put_u256 :
      (h rest : Bytes) → length h ≡ 32 → u256.get (u256.put h ++ rest) ≡ some (h, rest)
  pub letoh-htole : (n : ℕ) → n < 2 ^ 32 → letoh (htole n) ≡ n
  pub htole_bound : (n : ℕ) → n < 2 ^ 32 → htole n < 2 ^ 32
  pub get_data_inplace_front :
      (bytes rest : Bytes) → get_data_inplace (bytes ++ rest) (length bytes) ≡ some (bytes, rest)

-- `s >> a`
abbrev pub read : {A : Type 0} → Binary A → Reader A
read b s = or_bad (b.get s)

-- `auto base = s.get_data_inplace(n); bytearray_t(base, base + n)`
abbrev pub read_data : ⦃d : DataStream⦄ → ℕ → Reader Bytes
read_data ⦃d⦄ n s = or_bad (d.get_data_inplace s n)
