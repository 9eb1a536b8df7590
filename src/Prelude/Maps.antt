-- ===== src/Prelude/Maps.antt =====
-- `unordered_map` with number keys: an association list where its size is used, else a function.
use Prim.Native.Nat.{ℕ}
use mathlib.Core.Path.{◌≡◌, refl, sym, ap, fun_ext}
use mathlib.Core.Logic.{◌≢◌, ◌⊎◌, inl, inr}
use mathlib.Core.Bool.{true, false}
use mathlib.Core.Option.{Option, none, some}
use mathlib.Core.List.{List, [], ◌∷◌}
use native.Mathlib.Omega.{arith}
use random_beacon.Prelude.Tests.{if◌then◌else◌, ◌==◌, ==_refl, ==_iff, ne→==, Bool-cases}

-- `f[i] = a`
abbrev pub update {ℓ} : {A : Type ℓ} → (ℕ → A) → ℕ → A → ℕ → A
update f i a j = if i == j then a else f j

pub update_self {ℓ} : {A : Type ℓ} (f : ℕ → A) (i : ℕ) (a : A) → update f i a i ≡ a
update_self f i a = rw (==_refl i)

pub update_other {ℓ} : {A : Type ℓ} (f : ℕ → A) (i j : ℕ) (a : A) → j ≢ i → update f i a j ≡ f j
update_other f i j a other = rw (ne→== i j (λ same. other (sym same)))

-- Writing what is there changes nothing.
pub update_same {ℓ} : {A : Type ℓ} (f : ℕ → A) (i : ℕ) → update f i (f i) ≡ f
update_same f i = fun_ext (λ j. kept j (Bool-cases (i == j)))
  where
    kept : (j : ℕ) → ((i == j) ≡ true) ⊎ ((i == j) ≡ false) → update f i (f i) j ≡ f j
    kept j (inl e) = rw e (ap f ((==_iff i j).0 e))
    kept j (inr e) = rw e refl

module _ {ℓ} {V : Type ℓ} where
  -- `find`
  unfoldable pub lookup : ℕ → List (ℕ × V) → Option V
  lookup k [] = none
  lookup k ((i, v) ∷ rest) = if i == k then some v else lookup k rest

  -- `m[k] = v`: the entry is overwritten, or a new one is made.
  unfoldable pub assign : ℕ → V → List (ℕ × V) → List (ℕ × V)
  assign k v [] = (k, v) ∷ []
  assign k v ((i, w) ∷ rest) = if i == k then (k, v) ∷ rest else (i, w) ∷ assign k v rest

  pub lookup-assign :
      (k j : ℕ) (v : V) (entries : List (ℕ × V))
      → lookup j (assign k v entries) ≡ (if k == j then some v else lookup j entries)
  unfolding lookup assign
  lookup-assign k j v [] = refl
  lookup-assign k j v ((i, w) ∷ rest) = ground (arith, lookup-assign k j v rest)
