-- ===== src/Prelude/Assoc.antt =====
-- Go's `map[string]V` as a list of entries. Go's iteration order is unspecified: a loop over a map
-- follows the list, so a theorem about every list covers every order.
use mathlib.Core.Path.{◌≡◌, refl, subst}
use mathlib.Core.Bool.{Bool, true, false}
use mathlib.Core.Option.{Option, none, some, some-injective}
use mathlib.Core.List.{List, [], ◌∷◌, map}
use Prim.Native.String.{String}
use native.Mathlib.Omega.{arith}
use text.Mathlib.Text.{◌==◌}
use text.Mathlib.TextEquality.{eq_iff}
use text.Mathlib.TextPositions.{eq_refl}
use mathlib.Core.Logic.{inl, inr}
use adro.Prelude.Tests.{if◌then◌else◌, Bool-cases}
use adro.Prelude.Lists.{All}

abbrev pub Assoc {ℓ} : Type ℓ → Type ℓ
Assoc V = List (String × V)

module _ {ℓ} {V : Type ℓ} where
  -- `m[key]`, with `none` for a missing key.
  unfoldable pub lookup : String → Assoc V → Option V
  lookup key [] = none
  lookup key ((first, value) ∷ rest) = if first == key then some value else lookup key rest

  -- `_, ok := m[k]`
  unfoldable pub has_key : String → Assoc V → Bool
  has_key k [] = false
  has_key k ((j, v) ∷ m) = if j == k then true else has_key k m

  -- `m[k]`, with the zero value for a missing key
  unfoldable pub lookup_or : V → String → Assoc V → V
  unfolding lookup
  lookup_or d k m = elim (lookup k m) [ none ↦ d | some v ↦ v ]

  -- `m[key] = value`: in the key's place, or at the end.
  unfoldable pub insert : String → V → Assoc V → Assoc V
  insert key value [] = (key, value) ∷ []
  insert key value ((first, old) ∷ rest) =
      if first == key then (key, value) ∷ rest else (first, old) ∷ insert key value rest

  unfoldable pub delete : String → Assoc V → Assoc V
  delete k [] = []
  delete k ((j, w) ∷ m) = let rest = delete k m in if j == k then rest else (j, w) ∷ rest

  abbrev pub values : Assoc V → List V
  values m = map (λ e. e.1) m

  abbrev pub keys : Assoc V → List String
  keys m = map (λ e. e.0) m

  pub lookup-insert :
      (written read : String) (value : V) (m : Assoc V)
      → lookup read (insert written value m)
        ≡ (if written == read then some value else lookup read m)
  unfolding lookup insert
  lookup-insert written read value [] = refl
  lookup-insert written read value ((first, old) ∷ rest) = ground (
    arith,
    lookup-insert written read value rest,
    eq_iff first written,
    eq_iff first read,
    eq_iff written read,
  )

  pub lookup-insert_self : (k : String) (v : V) (m : Assoc V) → lookup k (insert k v m) ≡ some v
  lookup-insert_self k v m = simp (lookup-insert, eq_refl)

  pub lookup-delete :
      (k j : String) (m : Assoc V) → lookup j (delete k m) ≡ (if k == j then none else lookup j m)
  unfolding lookup delete
  lookup-delete k j [] = ground arith
  lookup-delete k j ((i, w) ∷ m) =
      ground (arith, lookup-delete k j m, eq_iff i k, eq_iff i j, eq_iff k j)

  -- A write of the value that is there leaves every lookup as it was.
  pub lookup-insert_back :
      (k j : String) (v w : V) (m : Assoc V)
      → lookup k m ≡ some w
      → lookup j (insert k w (insert k v m)) ≡ lookup j m
  lookup-insert_back k j v w m h =
      ground (arith, lookup-insert k j w (insert k v m), lookup-insert k j v m, eq_iff k j)

  pub All-insert {κ} :
      (P : V → Type κ) (k : String) (v : V) (m : Assoc V)
      → All (λ e. P e.1) m
      → P v
      → All (λ e. P e.1) (insert k v m)
  unfolding insert
  All-insert P k v [] a h = (h, tt)
  All-insert P k v ((j, w) ∷ m) a h = elim (Bool-cases (j == k)) [
    | inl same ↦ rw same (h, a.1)
    | inr other ↦ rw other (a.0, All-insert P k v m a.1 h)
  ]

  pub All-lookup {κ} :
      (P : V → Type κ) (k : String) (v : V) (m : Assoc V)
      → All (λ e. P e.1) m
      → lookup k m ≡ some v
      → P v
  unfolding lookup
  All-lookup P k v [] a h = cc
  All-lookup P k v ((j, w) ∷ m) a h = elim (Bool-cases (j == k)) [
    | inl same ↦ subst P (some-injective w v (rw same at h)) a.0
    | inr other ↦ All-lookup P k v m a.1 (rw other at h)
  ]
