-- ===== src/Base/Maps.antt =====
-- A hash map keyed by numbers, as an association list: at most one entry of a key counts.
use Prim.Native.Nat.{ℕ}
use mathlib.Core.Path.{◌≡◌, refl, subst}
use mathlib.Core.Logic.{inl, inr}
use mathlib.Core.Bool.{Bool, true}
use mathlib.Core.Option
use mathlib.Core.Option.{Option, none, some, some-injective}
use mathlib.Core.List.{List, [], ◌∷◌}
use native.Mathlib.Omega.{arith}
use op_rbuilder.Base.Tests.{Bool-cases, ◌==◌, if◌then◌else◌}
use op_rbuilder.Base.Lists.{length, All}

abbrev pub Map {ℓ} : Type ℓ → Type ℓ
Map V = List (ℕ × V)

module _ {ℓ} {V : Type ℓ} where
  abbrev pub lookup : ℕ → Map V → Option V
  lookup k [] = none
  lookup k ((j, v) ∷ m) = if j == k then some v else lookup k m

  abbrev pub insert : ℕ → V → Map V → Map V
  insert k v [] = (k, v) ∷ []
  insert k v ((j, w) ∷ m) = if j == k then (j, v) ∷ m else (j, w) ∷ insert k v m

  -- `for mut value in map.iter_mut() { .. }`
  abbrev pub map_values : (V → V) → Map V → Map V
  map_values f [] = []
  map_values f ((k, v) ∷ m) = (k, f v) ∷ map_values f m

  abbrev pub retain : (V → Bool) → Map V → Map V
  retain p [] = []
  retain p ((k, v) ∷ m) = if p v then (k, v) ∷ retain p m else retain p m

  -- A property of every value.
  abbrev pub AllValues {κ} : (V → Type κ) → Map V → Type κ
  AllValues P m = All (λ e. P e.1) m

  pub lookup-insert :
      (j k : ℕ) (v : V) (m : Map V)
      → lookup j (insert k v m) ≡ (if k == j then some v else lookup j m)
  lookup-insert j k v [] = refl
  lookup-insert j k v ((i, w) ∷ m) = ground (arith, lookup-insert j k v m)

  pub lookup-AllValues {κ} :
      (P : V → Type κ) (k : ℕ) {v : V} (m : Map V) → AllValues P m → lookup k m ≡ some v → P v
  lookup-AllValues P k {v} [] h e = cc
  lookup-AllValues P k {v} ((j, w) ∷ m) h e = elim (Bool-cases (j == k)) [
    | inl found ↦ subst P (some-injective w v (rw found at e)) h.0
    | inr other ↦ lookup-AllValues P k m h.1 (rw other at e)
  ]

  pub insert-AllValues {κ} :
      (P : V → Type κ) (k : ℕ) (v : V) (m : Map V)
      → AllValues P m
      → P v
      → AllValues P (insert k v m)
  insert-AllValues P k v [] h p = (p, tt)
  insert-AllValues P k v ((j, w) ∷ m) h p = elim (Bool-cases (j == k)) [
    | inl found ↦ rw found (p, h.1)
    | inr other ↦ rw other (h.0, insert-AllValues P k v m h.1 p)
  ]

  pub retain-all : (p : V → Bool) (m : Map V) → AllValues (λ v. p v ≡ true) m → retain p m ≡ m
  retain-all p [] h = refl
  retain-all p (e ∷ m) h = ground (arith, retain-all p m h.1)

  pub map_values-AllValues {κ μ} :
      (P : V → Type κ) (Q : V → Type μ) (f : V → V)
      → ((v : V) → P v → Q (f v))
      → (m : Map V) → AllValues P m
      → AllValues Q (map_values f m)
  map_values-AllValues P Q f step [] h = tt
  map_values-AllValues P Q f step (e ∷ m) h = (step e.1 h.0, map_values-AllValues P Q f step m h.1)

  pub lookup-map_values :
      (f : V → V) (k : ℕ) (m : Map V) → lookup k (map_values f m) ≡ Option.map f (lookup k m)
  lookup-map_values f k [] = refl
  lookup-map_values f k ((j, v) ∷ m) = ground (arith, lookup-map_values f k m)

  pub length-map_values : (f : V → V) (m : Map V) → length (map_values f m) ≡ length m
  length-map_values f [] = refl
  length-map_values f (e ∷ m) = omega (arith, length-map_values f m)
