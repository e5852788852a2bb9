-- ===== src/Shell/Bounds.antt =====
-- How the level of a command bounds the levels of its segments.
use moss_code.Base.{
  strip, ◌≤◌, ◌≡◌, ◌≢◌, Bool, true, String, inl, inr, List, [], ◌∷◌, map, arith, filter, find,
  truthy, eq_iff, In, here, there, Option-cases,
}
use moss_code.Shell.Risk.{
  RiskLevel, ShellRisk, high, denied, rank, is_denied, max_level, In-le-max_level,
  high-le-max_level, le-max_level-high,
}
use moss_code.Shell.Pattern.{substitution}
use moss_code.Shell.Split.{Segments, segments, unparsed, split_command_line}
use moss_code.Shell.Argv.{Grade, strip_wrappers, strip_wrappers_from}
use moss_code.Shell.Classify.{
  grade, graded, classify_stripped, classify_words, classify_argv, command_name,
}
use moss_code.Shell.Fuel.{classify_argv_unfold}
use moss_code.Shell.Command.{
  ShellLib, combine, classify_segments, classify_text, classify_shell_command,
}

rank-le-denied : (l : RiskLevel) → rank l ≤ rank denied
unfolding rank
rank-le-denied l = ground arith

In-map-level : {r : ShellRisk} (rs : List ShellRisk) → In r rs → In r.level (map (λ r. r.level) rs)
In-map-level [] m = elim m [ ]
In-map-level (s ∷ rs) (here e) = here (λ i. (e i).level)
In-map-level (s ∷ rs) (there m) = there (In-map-level rs m)

In-map {ℓ κ} :
    {A : Type ℓ} {B : Type κ} (f : A → B) {a : A} (xs : List A) → In a xs → In (f a) (map f xs)
In-map f [] m = elim m [ ]
In-map f (x ∷ xs) (here e) = here (λ i. f (e i))
In-map f (x ∷ xs) (there m) = there (In-map f xs m)

module _ (lib : ShellLib) where
  combine-ge :
      (segs : List (List String)) (u : Bool) (risks : List ShellRisk) {r : ShellRisk}
      → In r risks
      → rank r.level ≤ rank (combine lib segs u risks).level
  unfolding combine
  combine-ge segs u risks {r} m = elim (Option-cases (find is_denied risks)) [
    | inr (d, e) ↦ rw (e, combine) (rank-le-denied r.level)
    | inl e ↦
        rw (e, combine)
          (ground (
            arith,
            In-le-max_level r.level (map (λ r. r.level) risks) (In-map-level risks m),
            le-max_level-high (max_level (map (λ r. r.level) risks)),
          ))
  ]

  combine_undecidable :
      (segs : List (List String)) (risks : List ShellRisk)
      → rank high ≤ rank (combine lib segs true risks).level
  unfolding combine
  combine_undecidable segs risks = elim (Option-cases (find is_denied risks)) [
    | inr (d, e) ↦ rw (e, combine) (rank-le-denied high)
    | inl e ↦ rw (e, combine) (high-le-max_level (max_level (map (λ r. r.level) risks)))
  ]

  segments-ge :
      (text : String) (segs : List (List String)) {argv : List String}
      → In argv segs
      → rank (classify_argv lib.lower argv).level
        ≤ rank (classify_segments lib text (segments segs)).level
  unfolding classify_segments
  segments-ge text [] m = elim m [ ]
  segments-ge text (s ∷ segs) {argv} m = ground (
    arith,
    rank-le-denied (classify_argv lib.lower argv).level,
    combine-ge (s ∷ segs) (substitution text) (map (classify_argv lib.lower) (s ∷ segs))
        (In-map (classify_argv lib.lower) (s ∷ segs) m),
  )

  segments_undecidable :
      (text : String) (segs : Segments)
      → substitution text ≡ true
      → rank high ≤ rank (classify_segments lib text segs).level
  unfolding classify_segments
  segments_undecidable text (unparsed e) h = omega arith
  segments_undecidable text (segments []) h = omega arith
  segments_undecidable text (segments (s ∷ segs)) h = rw h (
      ground (
        arith,
        rank-le-denied high,
        combine_undecidable (s ∷ segs) (map (classify_argv lib.lower) (s ∷ segs)),
      ))

  -- A command is never graded below one of its segments: `ls; rm -rf /` is no read-only command
  -- because it begins with `ls`. The command must not be blank.
  pub segment-le-command :
      (command : String) (segs : List (List String)) (argv : List String)
      → strip command ≢ ""
      → split_command_line lib.lex (strip command) ≡ segments segs
      → In argv segs
      → rank (classify_argv lib.lower argv).level ≤ rank (classify_shell_command lib command).level
  unfolding classify_shell_command classify_text
  segment-le-command command segs argv filled split m = rw split (
      ground (
        arith,
        eq_iff (strip command) "",
        rank-le-denied (classify_argv lib.lower argv).level,
        segments-ge (strip command) segs m,
      ))

  -- A command with a substitution is at least `high`, whatever the rest of it is.
  pub substitution-is_high :
      (command : String)
      → substitution (strip command) ≡ true
      → rank high ≤ rank (classify_shell_command lib command).level
  unfolding classify_shell_command classify_text
  substitution-is_high command h = ground (
    arith,
    rank-le-denied high,
    segments_undecidable (strip command) (split_command_line lib.lex (strip command)) h,
  )

  graded-privileged : (argv : List String) (g : Grade) → rank high ≤ rank (graded argv true g).level
  unfolding graded
  graded-privileged argv (level, reason) = high-le-max_level level

  stripped-privileged :
      (rec : List String → ShellRisk) (argv stripped : List String)
      → rank high ≤ rank (classify_stripped lib.lower rec argv stripped true).level
  unfolding classify_stripped
  stripped-privileged rec argv [] = omega arith
  stripped-privileged rec argv (first ∷ args) = ground (
    arith,
    rank-le-denied high,
    graded-privileged argv (grade rec args (command_name lib.lower first)),
  )

  words-privileged :
      (ws : List String)
      → (strip_wrappers ws).1 ≡ true
      → rank high ≤ rank (classify_words lib.lower (classify_argv lib.lower) ws).level
  unfolding classify_words strip_wrappers strip_wrappers_from
  words-privileged [] p = cc
  words-privileged (w ∷ ws) p = rw p (stripped-privileged (classify_argv lib.lower) (w ∷ ws) _)

  -- What runs behind `sudo`, `doas` or `su` is at least `high`, whatever it is.
  pub privileged-is_high :
      (argv : List String)
      → (strip_wrappers (filter truthy argv)).1 ≡ true
      → rank high ≤ rank (classify_argv lib.lower argv).level
  privileged-is_high argv h =
      rw (classify_argv_unfold lib.lower argv) (words-privileged (filter truthy argv) h)
