-- ===== src/Stall/Cycle.antt =====
-- What the window of the detection keeps, and the cycles that it finds.
use moss_code.Base.{
  ℕ, suc, ◌+◌, ◌-◌, ◌≡◌, refl, false, String, some, List, [], ◌∷◌, ◌++◌, arith, length, drop,
  length-append,
}
use moss_code.Stall.{
  last_n, Signature, same_call, detect_ab_loop, cycle_of, ab_loop, cycling, detect_stall, Event,
}
use moss_code.Stall.Repeat.{same_call_refl}

drop-append {ℓ} : {A : Type ℓ} (xs ys : List A) → drop (length xs) (xs ++ ys) ≡ ys
drop-append [] ys = refl
drop-append (x ∷ xs) ys = drop-append xs ys

before-length {ℓ} :
    {A : Type ℓ} (n : ℕ) (xs ys : List A)
    → length ys ≡ suc n
    → length (xs ++ ys) - suc n ≡ length xs
before-length n xs ys e = omega (arith, length-append xs ys, e)

pub last_n-append {ℓ} :
    {A : Type ℓ} (n : ℕ) (xs ys : List A) → length ys ≡ suc n → last_n (suc n) (xs ++ ys) ≡ ys
unfolding last_n
last_n-append n xs ys e = rw (before-length n xs ys e) (drop-append xs ys)

cycle_of-turns :
    (before : List Signature) (a b : Signature)
    → same_call a b ≡ false
    → cycle_of 2 (before ++ (a ∷ b ∷ a ∷ b ∷ []))
      ≡ some
          record { kind = ab_loop; detail = cycling (a.0 ∷ b.0 ∷ []); window = length before + 4 }
unfolding cycle_of
cycle_of-turns before a b ne =
    rw (last_n-append 3 before (a ∷ b ∷ a ∷ b ∷ []) refl, length-append before (a ∷ b ∷ a ∷ b ∷ []))
      (ground (arith, same_call_refl a, same_call_refl b))

-- After any history, two calls in turns, twice each, are reported as a loop of their names.
pub detect_ab_loop-turns :
    (before : List Signature) (a b : Signature)
    → same_call a b ≡ false
    → detect_ab_loop (before ++ (a ∷ b ∷ a ∷ b ∷ []))
      ≡ some
          record { kind = ab_loop; detail = cycling (a.0 ∷ b.0 ∷ []); window = length before + 4 }
unfolding detect_ab_loop
detect_ab_loop-turns before a b ne = rw (cycle_of-turns before a b ne)

-- Only the last events count: what happened before a full window makes no difference.
pub detect_stall-window :
    (Args : Type 0) (args_digest path_text : Args → String) (window : ℕ)
    (before recent : List (Event Args args_digest path_text))
    → length recent ≡ suc window
    → detect_stall Args args_digest path_text (suc window) (before ++ recent)
      ≡ detect_stall Args args_digest path_text (suc window) recent
unfolding detect_stall
detect_stall-window Args args_digest path_text window before recent e =
    rw (last_n-append window before recent e, last_n-append window [] recent e)
