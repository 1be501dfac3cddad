-- ===== src/Common/Dict.antt =====
-- A JavaScript `Map` or object with text keys, in insertion order.
use Prim.Native.String.{String}
use mathlib.Core.Path.{◌≡◌, refl}
use mathlib.Core.Option.{Option, none, some}
use mathlib.Core.List.{List, [], ◌∷◌}
use native.Mathlib.Omega.{arith}
use text.Mathlib.TextEquality.{eq_iff}
use bc_forge.Common.Tests.{◌===◌, if◌then◌else◌}

abbrev pub Dict {ℓ} : Type ℓ → Type ℓ
Dict V = List (String × V)

module _ {ℓ} {V : Type ℓ} where
  -- `d.get(k)`, `d[k]`
  abbrev pub lookup : String → Dict V → Option V
  lookup k [] = none
  lookup k ((j, v) ∷ d) = if j === k then some v else lookup k d

  -- `d.set(k, v)`: an old key keeps its place.
  abbrev pub insert : String → V → Dict V → Dict V
  insert k v [] = (k, v) ∷ []
  insert k v ((j, w) ∷ d) = if j === k then (k, v) ∷ d else (j, w) ∷ insert k v d

  -- `d.delete(k)`
  abbrev pub erase : String → Dict V → Dict V
  erase k [] = []
  erase k ((j, w) ∷ d) = if j === k then erase k d else (j, w) ∷ erase k d

  -- `d.get(k) ?? v`
  abbrev pub get_or : V → String → Dict V → V
  get_or v k d = elim (lookup k d) [ none ↦ v | some w ↦ w ]

  -- No key stands twice.
  abbrev pub IsUnique : Dict V → Type ℓ
  IsUnique [] = Unit
  IsUnique ((k, _) ∷ d) = (lookup k d ≡ none) × IsUnique d

  pub lookup-insert :
      (k j : String) (v : V) (d : Dict V)
      → lookup j (insert k v d) ≡ (if k === j then some v else lookup j d)
  lookup-insert k j v [] = refl
  lookup-insert k j v ((i, w) ∷ d) =
      ground (arith, eq_iff k j, eq_iff i k, eq_iff i j, lookup-insert k j v d)

  pub lookup-erase :
      (k j : String) (d : Dict V) → lookup j (erase k d) ≡ (if k === j then none else lookup j d)
  lookup-erase k j [] = ground arith
  lookup-erase k j ((i, w) ∷ d) =
      ground (arith, eq_iff k j, eq_iff i k, eq_iff i j, lookup-erase k j d)

  pub insert-IsUnique : (k : String) (v : V) (d : Dict V) → IsUnique d → IsUnique (insert k v d)
  insert-IsUnique k v [] h = (refl, tt)
  insert-IsUnique k v ((i, w) ∷ d) h =
      ground (arith, eq_iff i k, eq_iff k i, insert-IsUnique k v d h.1, lookup-insert k i v d)

  pub erase-IsUnique : (k : String) (d : Dict V) → IsUnique d → IsUnique (erase k d)
  erase-IsUnique k [] h = tt
  erase-IsUnique k ((i, w) ∷ d) h =
      ground (arith, eq_iff k i, eq_iff i k, erase-IsUnique k d h.1, lookup-erase k i d)

  -- Erasing a key that is not there changes nothing.
  pub erase_missing : (k : String) (d : Dict V) → lookup k d ≡ none → erase k d ≡ d
  erase_missing k [] h = refl
  erase_missing k ((i, w) ∷ d) h = ground (arith, erase_missing k d)
