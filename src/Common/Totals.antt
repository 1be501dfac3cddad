-- ===== src/Common/Totals.antt =====
-- The sum of a measure over the entries of a dictionary.
use Prim.Native.String.{String}
use mathlib.Core.Path.{◌≡◌, ap}
use mathlib.Core.Option.{none, some}
use mathlib.Core.List.{[], ◌∷◌}
use bc_forge.Common.Int.{ℤ, pos, pos_part, neg_part, ◌+ℤ◌, int_laws}
use bc_forge.Common.Dict.{Dict, lookup, insert}

module _ {ℓ} {V : Type ℓ} (measure : V → ℤ) where
  abbrev pub total : Dict V → ℤ
  total [] = pos 0
  total ((_, v) ∷ d) = measure v +ℤ total d

  -- The measure of one key's value, and 0 for a missing key.
  abbrev pub measured : String → Dict V → ℤ
  measured k d = elim (lookup k d) [ none ↦ pos 0 | some v ↦ measure v ]

  total-insert :
      (k : String) (v : V) (d : Dict V)
      → total (insert k v d) +ℤ measured k d ≡ total d +ℤ measure v
  total-insert k v [] = omega int_laws
  total-insert k v ((j, w) ∷ d) = grind (int_laws, total-insert k v d)

  -- A write moves the sum by the change at its key.
  pub total-insert_by :
      (k : String) (v : V) (d : Dict V) (n : ℤ)
      → measure v ≡ measured k d +ℤ n
      → total (insert k v d) ≡ total d +ℤ n
  total-insert_by k v d n h =
      let t = total-insert k v d in
      omega (int_laws, ap pos_part t, ap neg_part t, ap pos_part h, ap neg_part h)
