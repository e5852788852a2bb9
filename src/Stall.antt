-- ===== src/Stall.antt =====
-- moss/agent/stall.py: whether the last tool events of a run show that it is stuck.
-- The arguments of a call are a parameter, with their digest (JSON and SHA-256) and the text of their path.
pub mod Repeat
pub mod Storm
pub mod Cycle
mod Tests
use moss_code.Base.{
  ℕ, zero, suc, ◌+◌, ◌-◌, ◌*◌, ◌≡◌, String, Bool, true, false, not, ◌&&◌, ◌||◌, Option, none, some,
  List, [], ◌∷◌, ◌++◌, map, ltb, leb, ◌==◌, if◌then◌else◌, same, truthy, elem, strip, length, take,
  drop, any, all, filter,
}

-- The f-string of a signal's detail, kept as its parts.
pub data Detail : Type 0 where
  ran_again : String → ℕ → Detail
  cycling : List String → Detail
  nothing_new : Detail
  failing : String → ℕ → Detail

pub data Kind : Type 0 where
  repeat_exact ab_loop no_progress error_storm : Kind

pub record StallSignal : Type 0 where
  pub kind : Kind
  pub detail : Detail
  pub window : ℕ

-- A call: the tool's name and the digest of its arguments.
abbrev pub Signature : Type 0
Signature = String × String

abbrev pub same_call : Signature → Signature → Bool
same_call (n, a) (m, b) = same n m && same a b

-- `xs[-n:]`
unfoldable pub last_n {ℓ} : {A : Type ℓ} → ℕ → List A → List A
last_n zero xs = xs
last_n (suc n) xs = drop (length xs - suc n) xs

-- `counts[signature] = counts.get(signature, 0) + 1`
unfoldable pub bump : Signature → List (Signature × ℕ) → List (Signature × ℕ)
bump s [] = (s, 1) ∷ []
bump s ((t, n) ∷ counts) = if same_call t s then (t, n + 1) ∷ counts else (t, n) ∷ bump s counts

unfoldable pub tally : List Signature → List (Signature × ℕ) → List (Signature × ℕ)
tally [] counts = counts
tally (s ∷ ss) counts = tally ss (bump s counts)

unfoldable pub first_repeated : List (Signature × ℕ) → Option (Signature × ℕ)
first_repeated [] = none
first_repeated ((s, n) ∷ counts) = if leb 3 n then some (s, n) else first_repeated counts

unfoldable pub detect_repeat_exact : List Signature → Option StallSignal
detect_repeat_exact signatures = elim (first_repeated (tally signatures [])) [
  | none ↦ none
  | some ((name, digest), count) ↦
      some record { kind = repeat_exact; detail = ran_again name count; window = length signatures }
]

-- A chunk is not one call over and over: `len(set(chunk)) > 1`.
abbrev pub varies : List Signature → Bool
varies [] = false
varies (s ∷ ss) = any (λ t. not (same_call s t)) ss

abbrev pub same_calls : List Signature → List Signature → Bool
same_calls [] [] = true
same_calls [] (t ∷ ts) = false
same_calls (s ∷ ss) [] = false
same_calls (s ∷ ss) (t ∷ ts) = same_call s t && same_calls ss ts

-- One size of the loop: the two chunks of the tail are equal, and a chunk varies.
unfoldable pub cycle_of : ℕ → List Signature → Option StallSignal
cycle_of size signatures =
    let tail = last_n (size * 2) signatures in
    if not (ltb (length signatures) (size * 2))
      && same_calls (take size tail) (drop size tail)
      && varies (take size tail)
    then some record {
      kind = ab_loop;
      detail = cycling (map (λ s. s.0) (take size tail));
      window = length signatures;
    }
    else none

abbrev pub or_next : Option StallSignal → Option StallSignal → Option StallSignal
or_next none next = next
or_next (some signal) next = some signal

unfoldable pub detect_ab_loop : List Signature → Option StallSignal
detect_ab_loop signatures = or_next (cycle_of 2 signatures) (cycle_of 3 signatures)

-- The loop over the error codes: the streak and its code so far.
unfoldable pub storm_from : ℕ → String → ℕ → List String → Option StallSignal
storm_from size last_code streak [] = none
storm_from size last_code streak (code ∷ codes) =
    let same_again = storm_from size last_code (streak + 1) codes in
    let other = storm_from size code 1 codes in
    let none_now = storm_from size "" 0 codes in
    if truthy code && same code last_code
    then (if leb 3 (streak + 1)
        then some
            record { kind = error_storm; detail = failing last_code (streak + 1); window = size }
        else same_again)
    else if truthy code
    then other
    else none_now

unfoldable pub detect_error_storm : List String → Option StallSignal
detect_error_storm codes = storm_from (length codes) "" 0 codes

module _ (Args : Type 0) (args_digest path_text : Args → String) where
  pub record Event : Type 0 where
    pub role : Option String
    pub name : String
    pub args : Args
    pub workspace_changed : Bool
    pub tool_error_code : String

  unfoldable pub signature : Event → Signature
  signature e = (e.name, args_digest e.args)

  abbrev pub path_of : Event → String
  unfolding strip
  path_of e = strip (path_text e.args)

  unfoldable pub detect_no_progress : List Event → Option StallSignal
  detect_no_progress events =
      let window = last_n 4 events in
      let seen_before = filter truthy (map path_of (take (length events - 4) events)) in
      if ltb (length events) 4
        || any (λ e. e.workspace_changed) window
        || any (λ e. truthy (path_of e) && not (elem (path_of e) seen_before)) window
      then none
      else some record { kind = no_progress; detail = nothing_new; window = length events }

  unfoldable pub detect_stall : ℕ → List Event → Option StallSignal
  unfolding signature
  detect_stall window all_events =
      let events = last_n window all_events in
      let signatures = map signature events in
      if length events == 0
      then none
      else or_next (detect_repeat_exact signatures) (
          or_next (detect_error_storm (map (λ e. e.tool_error_code) events))
            (or_next (detect_ab_loop signatures) (detect_no_progress events)))

  abbrev is_tool_event : Event → Bool
  is_tool_event e = elim e.role [ none ↦ true | some role ↦ same role "tool" ]

  unfoldable pub is_repeated_call : List Event → String → Args → Bool
  unfolding signature
  is_repeated_call events name args =
      let tool_events = filter is_tool_event events in
      not (ltb (length tool_events) 2)
      && all (λ e. same_call (signature e) (name, args_digest args)) (last_n 2 tool_events)
