-- ===== src/Base/Assoc.antt =====
-- Equality of texts is symmetric; and Python's `dict` with text keys, as an association list in insertion order.
use Prim.Native.String.{String}
use mathlib.Core.Path.{◌≡◌, refl, sym}
use mathlib.Core.Bool.{Bool, true, false}
use mathlib.Core.List.{List, [], ◌∷◌, ◌++◌}
use mathlib.Core.Option.{Option, none, some}
use native.Mathlib.Omega.{arith}
use text.Mathlib.TextEquality.{eq_iff}
use moss_code.Base.Tests.{if◌then◌else◌}
use moss_code.Base.Text.{same}

same_if : (p q : String) → same p q ≡ true → same q p ≡ true
same_if p q e = (eq_iff q p).1 (sym ((eq_iff p q).0 e))

both_ways : (a b : Bool) → (a ≡ true → b ≡ true) → (b ≡ true → a ≡ true) → a ≡ b
both_ways true b f g = sym (f refl)
both_ways false true f g = g refl
both_ways false false f g = refl

pub same_comm : (p q : String) → same p q ≡ same q p
same_comm p q = both_ways (same p q) (same q p) (same_if p q) (same_if q p)

abbrev pub Dict {ℓ} : Type ℓ → Type ℓ
Dict V = List (String × V)

module _ {ℓ} {V : Type ℓ} where
  -- `d.get(k)`
  unfoldable pub lookup : String → Dict V → Option V
  lookup k [] = none
  lookup k ((j, v) ∷ d) = if same j k then some v else lookup k d

  -- `d[k] = v`
  unfoldable pub update : String → V → Dict V → Dict V
  update k v [] = (k, v) ∷ []
  update k v ((j, w) ∷ d) = if same j k then (j, v) ∷ d else (j, w) ∷ update k v d

  abbrev or_else : Option V → V → V
  or_else none v = v
  or_else (some w) v = w

  -- `d.get(k, v)`
  unfoldable pub get_or_else : Dict V → String → V → V
  unfolding lookup
  get_or_else d k v = or_else (lookup k d) v

  pub lookup-update :
      (k j : String) (v : V) (d : Dict V)
      → lookup j (update k v d) ≡ (if same k j then some v else lookup j d)
  unfolding lookup update
  lookup-update k j v [] = refl
  lookup-update k j v ((i, w) ∷ d) =
      ground (arith, eq_iff k j, eq_iff i k, eq_iff i j, lookup-update k j v d)

  pub lookup-append :
      (j : String) (d e : Dict V)
      → lookup j (d ++ e) ≡ elim (lookup j d) [ none ↦ lookup j e | some v ↦ some v ]
  unfolding lookup
  lookup-append j [] e = refl
  lookup-append j ((i, w) ∷ d) e = ground (arith, lookup-append j d e)
