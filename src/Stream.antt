-- ===== src/Stream.antt =====
-- Text streams: `operator<<` and `operator>>` of libff and of the standard library as parameters,
-- and the reading steps that every `operator>>` of include/pvss/ is made of.
use random_beacon.Prelude.{
  length, ℕ, zero, suc, ◌≡◌, refl, List, [], ◌∷◌, ◌++◌, Option, none, some, Result, ok, err,
  bad_stream, assertion, ◌==◌, if◌then◌else◌, Bool, true, false,
}

abbrev pub Text : Type 0
Text = List ℕ

abbrev pub newline : ℕ
newline = 10

-- `parse` is `in >> a`, `none` where it sets the fail bit. What was printed and ended by a new line
-- is read back, up to that line's end.
pub record Codec (A : Type 0) : Type 0 where
  pub print : A → Text
  pub parse : Text → Option (A × Text)
  pub parse-print :
      (a : A) (rest : Text) → parse (print a ++ newline ∷ rest) ≡ some (a, newline ∷ rest)

-- A step that reads from the front of the stream and leaves the rest.
abbrev pub Reader : Type 0 → Type 0
Reader A = Text → Result (A × Text)

abbrev pub go_on : {A B : Type 0} → Result (A × Text) → (A → Reader B) → Result (B × Text)
go_on (ok (a, rest)) k = k a rest
go_on (err e) k = err e

infixl 5 ◌>>=◌ ◌>>◌
abbrev pub ◌>>=◌ : {A B : Type 0} → Reader A → (A → Reader B) → Reader B
◌>>=◌ m k text = go_on (m text) k

abbrev pub ◌>>◌ : {B : Type 0} → Reader (Unit {0}) → Reader B → Reader B
m >> k = m >>= λ _. k

abbrev pub pure : {A : Type 0} → A → Reader A
pure a text = ok (a, text)

abbrev pub or_bad {ℓ} : {A : Type ℓ} → Option A → Result A
or_bad none = err bad_stream
or_bad (some a) = ok a

-- `in >> a`
unfoldable pub get : {A : Type 0} ⦃c : Codec A⦄ → Reader A
get ⦃c⦄ text = or_bad (c.parse text)

-- `libff::consume_OUTPUT_NEWLINE(in)`: the next character is read, and asserted to be a new line.
unfoldable pub consume_newline : Reader (Unit {0})
consume_newline [] = err assertion
consume_newline (c ∷ rest) = if c == newline then ok (tt, rest) else err assertion

-- `in >> a; libff::consume_OUTPUT_NEWLINE(in);`
unfoldable pub get_line : {A : Type 0} ⦃c : Codec A⦄ → Reader A
unfolding get consume_newline
get_line = do a ← get; consume_newline; pure a

-- An `operator<<` is the function that puts what it writes before the text that is written later.
abbrev pub Writer : Type 0 → Type 0
Writer A = A → Text → Text

-- `os << a << std::endl`
abbrev pub put_line : {A : Type 0} ⦃c : Codec A⦄ → Writer A
put_line ⦃c⦄ a later = c.print a ++ newline ∷ later

-- `for (auto a : v) os << a << '\n';`
unfoldable pub put_all : {A : Type 0} → Writer A → Writer (List A)
put_all put [] later = later
put_all put (a ∷ rest) later = put a (newline ∷ put_all put rest later)

-- `for (i = 0; i < n; i++) { in >> a; consume_OUTPUT_NEWLINE(in); v.push_back(a); }`
unfoldable pub get_all : {A : Type 0} → Reader A → ℕ → Reader (List A)
unfolding consume_newline
get_all read zero = pure []
get_all read (suc n) = do a ← read; consume_newline; rest ← get_all read n; pure (a ∷ rest)

-- `serializeVector` and `deserializeVector` of include/pvss/Serialization.hpp.
unfoldable pub put_vector : {A : Type 0} ⦃n : Codec ℕ⦄ → Writer A → Writer (List A)
unfolding put_all
put_vector put v later = put_line (length v) (put_all put v later)

unfoldable pub get_vector : {A : Type 0} ⦃n : Codec ℕ⦄ → Reader A → Reader (List A)
unfolding get_line get_all
get_vector read = do len ← get_line; get_all read len

-- `operator<<` and `operator>>` of `std::optional`; a Boolean is printed as 1 or 0.
unfoldable pub put_optional : {A : Type 0} ⦃n : Codec ℕ⦄ ⦃c : Codec A⦄ → Writer (Option A)
put_optional none later = put_line {A = ℕ} 0 later
put_optional (some a) later = put_line {A = ℕ} 1 (put_line a later)

abbrev set_flag : ℕ → Result Bool
set_flag zero = ok false
set_flag (suc zero) = ok true
set_flag (suc (suc n)) = err bad_stream

abbrev flag : ℕ → Reader Bool
flag b text = elim (set_flag b) [ ok v ↦ ok (v, text) | err e ↦ err e ]

-- An optional that is read as absent keeps what it held.
unfoldable pub get_optional :
    {A : Type 0} ⦃n : Codec ℕ⦄ ⦃c : Codec A⦄ → Option A → Reader (Option A)
unfolding get_line
get_optional opt = do
  b ← get_line {A = ℕ}
  has_val ← flag b
  if has_val then (get_line >>= λ val. pure (some val)) else pure opt

-- A reader that gives back what a writer wrote, and leaves what was written later.
abbrev pub Reads : {A : Type 0} → Reader A → Writer A → Type 0
Reads {A} read put = (a : A) (later : Text) → read (put a later) ≡ ok (a, later)

pub get_line-put_line : {A : Type 0} ⦃c : Codec A⦄ → Reads get_line (put_line {A = A})
unfolding get_line get consume_newline
get_line-put_line ⦃c⦄ a later = rw (c.parse-print a later)

-- The same before the end of a line, which is what a number needs.
abbrev pub ReadsLine : {A : Type 0} → Reader A → Writer A → Type 0
ReadsLine {A} read put =
    (a : A) (later : Text) → read (put a (newline ∷ later)) ≡ ok (a, newline ∷ later)

-- `os << a`
abbrev pub write : {A : Type 0} ⦃c : Codec A⦄ → Writer A
write ⦃c⦄ a later = c.print a ++ later

pub get-write : {A : Type 0} ⦃c : Codec A⦄ → ReadsLine get (write {A = A})
unfolding get
get-write ⦃c⦄ a later = rw (c.parse-print a later)

pub get_all-put_all :
    {A : Type 0} (read : Reader A) (put : Writer A)
    → ReadsLine read put
    → (v : List A) (later : Text) → get_all read (length v) (put_all put v later) ≡ ok (v, later)
unfolding get_all put_all consume_newline
get_all-put_all read put h [] later = refl
get_all-put_all read put h (a ∷ v) later =
    rw (h a (put_all put v later), get_all-put_all read put h v later)

-- `deserializeVector` reads back what `serializeVector` wrote, for elements that are read back.
pub get_vector-put_vector :
    {A : Type 0} ⦃n : Codec ℕ⦄ (read : Reader A) (put : Writer A)
    → ReadsLine read put
    → Reads (get_vector read) (put_vector put)
unfolding get_vector put_vector
get_vector-put_vector read put h v later =
    rw (get_line-put_line (length v) (put_all put v later), get_all-put_all read put h v later)

-- An optional is read back, whatever the target held, except that an absent one leaves the target.
pub get_optional-put_optional :
    {A : Type 0} ⦃n : Codec ℕ⦄ ⦃c : Codec A⦄ (old opt : Option A) (later : Text)
    → get_optional old (put_optional opt later)
      ≡ ok (elim opt [ none ↦ old | some a ↦ some a ], later)
unfolding get_optional put_optional
get_optional-put_optional old none later = rw (get_line-put_line {A = ℕ} 0 later)
get_optional-put_optional old (some a) later =
    rw (get_line-put_line {A = ℕ} 1 (put_line a later), get_line-put_line a later)
