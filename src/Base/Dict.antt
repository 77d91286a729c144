-- ===== src/Base/Dict.antt =====
-- Go maps with string keys, as association lists: a write keeps the place of an old key.
use Prim.Native.String.{String}
use mathlib.Core.Path.{◌≡◌, refl}
use mathlib.Core.Option.{Option, none, some}
use mathlib.Core.List.{List, [], ◌∷◌}
use native.Mathlib.Omega.{arith}
use text.Mathlib.Text.{◌==◌}
use text.Mathlib.TextEquality.{eq_iff}
use text.Mathlib.TextPositions.{eq_refl}
use kube_green.Base.Tests.{if◌then◌else◌}

abbrev pub Dict {ℓ} : Type ℓ → Type ℓ
Dict V = List (String × V)

module _ {ℓ} {Value : Type ℓ} where
  unfoldable pub lookup : String → Dict Value → Option Value
  lookup wanted [] = none
  lookup wanted ((key, value) ∷ entries) =
      let further = lookup wanted entries in if key == wanted then some value else further

  unfoldable pub insert : String → Value → Dict Value → Dict Value
  insert key value [] = (key, value) ∷ []
  insert key value ((old_key, old_value) ∷ entries) =
      let further = insert key value entries in
      if old_key == key then (key, value) ∷ entries else (old_key, old_value) ∷ further

  pub lookup-insert :
      (key wanted : String) (value : Value) (entries : Dict Value)
      → lookup wanted (insert key value entries)
        ≡ (if key == wanted then some value else lookup wanted entries)
  unfolding lookup insert
  lookup-insert key wanted value [] = refl
  lookup-insert key wanted value ((old_key, old_value) ∷ entries) = ground (
    arith,
    lookup-insert key wanted value entries,
    eq_iff old_key wanted,
    eq_iff old_key key,
    eq_iff key wanted,
  )

  pub lookup-insert_self :
      (key : String) (value : Value) (entries : Dict Value)
      → lookup key (insert key value entries) ≡ some value
  lookup-insert_self key value entries =
      ground (arith, lookup-insert key key value entries, eq_refl key)
