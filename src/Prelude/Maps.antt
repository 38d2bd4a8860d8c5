-- ===== src/Prelude/Maps.antt =====
-- Go maps with text keys, as association lists. A list stands for one iteration order; theorems
-- range over every list, hence over every order.
use Prim.Native.String.{String}
use mathlib.Core.Path.{◌≡◌, refl}
use mathlib.Core.Option.{Option, none, some}
use mathlib.Core.List.{List, [], ◌∷◌}
use native.Mathlib.Omega.{arith}
use text.Mathlib.Text.{◌==◌ as str_eq}
use text.Mathlib.TextEquality.{eq_iff}
use text.Mathlib.TextPositions.{eq_refl}
use webhook_mind.Prelude.Tests.{if◌then◌else◌}
use webhook_mind.Prelude.Lists.{All}

module _ {ℓ} {V : Type ℓ} where
  -- `v, ok := m[k]`
  unfoldable pub lookup : String → List (String × V) → Option V
  lookup key [] = none
  lookup key ((name, value) ∷ rest) = if str_eq name key then some value else lookup key rest

  -- `m[k] = v`
  unfoldable pub insert : String → V → List (String × V) → List (String × V)
  insert key new [] = (key, new) ∷ []
  insert key new ((name, old) ∷ rest) =
      let others = insert key new rest in
      if str_eq name key then (name, new) ∷ rest else (name, old) ∷ others

  pub lookup-insert :
      (key asked : String) (new : V) (entries : List (String × V))
      → lookup asked (insert key new entries)
        ≡ (if str_eq key asked then some new else lookup asked entries)
  unfolding lookup insert
  lookup-insert key asked new [] = refl
  lookup-insert key asked new ((name, old) ∷ rest) = ground (
    arith,
    lookup-insert key asked new rest,
    eq_iff key asked,
    eq_iff name asked,
    eq_iff name key,
  )

  pub lookup-insert_self :
      (k : String) (v : V) (m : List (String × V)) → lookup k (insert k v m) ≡ some v
  lookup-insert_self k v m = simp (lookup-insert, eq_refl)

module _ {ℓ} {V : Type ℓ} where
  -- No key occurs twice.
  abbrev pub Distinct : List (String × V) → Type ℓ
  Distinct [] = Unit
  Distinct ((k, v) ∷ m) = (lookup k m ≡ none) × Distinct m

  pub insert-Distinct :
      (k : String) (v : V) (m : List (String × V)) → Distinct m → Distinct (insert k v m)
  unfolding lookup insert
  insert-Distinct k v [] d = (refl, tt)
  insert-Distinct k v ((j, w) ∷ m) d =
      ground (arith, insert-Distinct k v m d.1, lookup-insert k j v m, eq_iff j k, eq_iff k j)

module _ {ℓ κ} {V : Type ℓ} (P : String × V → Type κ) where
  -- What holds of every binding that can be looked up holds of every entry.
  pub lookup-All :
      (m : List (String × V))
      → Distinct m
      → ((k : String) (v : V) → lookup k m ≡ some v → P (k, v))
      → All P m
  unfolding lookup
  lookup-All [] d h = tt
  lookup-All ((j, w) ∷ m) d h =
      (h j w (rw (eq_refl j)), lookup-All m d.1 (λ k v e. h k v (ground (arith, eq_iff j k))))
