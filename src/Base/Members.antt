-- ===== src/Base/Members.antt =====
-- Membership, as a search that computes and as a proof.
use mathlib.Core.Path.{◌≡◌}
use mathlib.Core.Logic.{inl, inr}
use mathlib.Core.Bool.{Bool, true}
use mathlib.Core.List.{List, [], ◌∷◌}
use native.Mathlib.Omega.{arith}
use text.Mathlib.TextEquality.{eq_iff}
use Prim.Native.String.{String}
use moss_code.Base.Tests.{Bool-cases}
use moss_code.Base.Lists.{In, here, there, all}
use moss_code.Base.Text.{elem, same}

pub elem_of_In : (x : String) (xs : List String) → In x xs → elem x xs ≡ true
elem_of_In x [] m = elim m [ ]
elem_of_In x (y ∷ xs) (here e) = ground (arith, eq_iff x y)
elem_of_In x (y ∷ xs) (there m) = ground (arith, elem_of_In x xs m)

pub In-of_elem : (x : String) (xs : List String) → elem x xs ≡ true → In x xs
In-of_elem x [] h = cc
In-of_elem x (y ∷ xs) h = elim (Bool-cases (same x y)) [
  | inl e ↦ here ((eq_iff x y).0 e)
  | inr e ↦ there (In-of_elem x xs (ground arith))
]

pub all_of_In {ℓ} :
    {A : Type ℓ} (p : A → Bool) {x : A} (xs : List A) → all p xs ≡ true → In x xs → p x ≡ true
all_of_In p [] h m = elim m [ ]
all_of_In p (y ∷ xs) h (here q) = rw q (ground arith)
all_of_In p (y ∷ xs) h (there m) = all_of_In p xs (ground arith) m
