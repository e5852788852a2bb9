-- ===== src/Resume/Valid.antt =====
-- When the resume calls a checkpoint fully valid.
use moss_code.Base.{
  In-of_elem, subst, all, is_none, text_leb, ◌≡◌, refl, sym, ap, ◌∙◌, String, Bool, true, false,
  not, ◌&&◌, ◌||◌, same, Option, none, some, List, [], ◌∷◌, ◌++◌, if◌then◌else◌, if-elim, if-cases,
  elem, strip, Dict, lookup, In, here, there,
}
use moss_code.Resume.{
  KeyFile, Status, full_valid, schema_mismatch, runtime_identity_keys, insert_text, sort_texts,
  Checkpoint, Previous, wrong_schema, stale_fingerprint_version, is_changed, add_stale, differs,
  mismatches, saved_identity, status_of, judge, evaluate_resume_state,
}

insert_text-is_none : (s : String) (ts : List String) → is_none (insert_text s ts) ≡ false
unfolding insert_text
insert_text-is_none s [] = refl
insert_text-is_none s (t ∷ ts) =
    if-elim (λ (l : List String). is_none l ≡ false) (text_leb s t) refl refl

sort_texts-is_none : (ss : List String) → is_none (sort_texts ss) ≡ is_none ss
unfolding sort_texts
sort_texts-is_none [] = refl
sort_texts-is_none (s ∷ ss) = insert_text-is_none s (sort_texts ss)

-- What `current_runtime_identity` saves of a session.
abbrev pub current_identity_keys : List String
current_identity_keys =
    "session_id" ∷ "cwd" ∷ "model" ∷ "model_client" ∷ "approval_policy" ∷ "read_only" ∷ "max_steps"
    ∷ "max_new_tokens" ∷ "feature_flags" ∷ "shell_env_allowlist" ∷ "workspace_fingerprint"
    ∷ "tool_signature" ∷ "prompt_version" ∷ []

and_first : (a b : Bool) → (a && b) ≡ true → a ≡ true
and_first true b h = refl
and_first false b h = h

and_second : (a b : Bool) → (a && b) ≡ true → b ≡ true
and_second true b h = h
and_second false b h = cc

or_second : (a b : Bool) → (a || b) ≡ true → a ≡ false → b ≡ true
or_second true b h e = cc
or_second false b h e = h

named_or_elem :
    (keys : List String)
    → all (λ k. same k "session_id" || elem k runtime_identity_keys) keys ≡ true
    → (key : String) → In key keys
    → same key "session_id" ≡ false
    → elem key runtime_identity_keys ≡ true
named_or_elem [] h key i other = elim i [ ]
named_or_elem (k ∷ keys) h key (here e) other = cut
  where
    at_key : (same key "session_id" || elem key runtime_identity_keys) ≡ true
    at_key =
        subst (λ (x : String). (same x "session_id" || elem x runtime_identity_keys) ≡ true) (sym e)
          (and_first _ _ h)

    cut : elem key runtime_identity_keys ≡ true
    cut = or_second _ _ at_key other
named_or_elem (k ∷ keys) h key (there i) other = named_or_elem keys (and_second _ _ h) key i other

-- Every key that is saved, but the id of the session, is compared.
compared :
    (key : String)
    → In key current_identity_keys
    → same key "session_id" ≡ false
    → In key runtime_identity_keys
compared key i other =
    In-of_elem key runtime_identity_keys (named_or_elem current_identity_keys refl key i other)

module _ (file_freshness : String → Option String) where
  -- No path is stale, and no file has changed.
  abbrev AllFresh : List KeyFile → List String → Type 0
  AllFresh files stale =
      (is_none stale ≡ true) × ((f : KeyFile) → In f files → is_changed file_freshness f ≡ false)

  not_added :
      (changed : Bool) (p : String) (stale : List String)
      → is_none (if changed && not (elem p stale) then stale ++ (p ∷ []) else stale) ≡ true
      → (is_none stale ≡ true) × (changed ≡ false)
  not_added false p stale h = (h, refl)
  not_added true p [] h = cc
  not_added true p (q ∷ stale) h =
      if-elim
        (λ (l : List String). is_none l ≡ true → (is_none (q ∷ stale) ≡ true) × (true ≡ false))
        (not (elem p (q ∷ stale))) (λ e. cc) (λ e. cc) h

  add_stale-AllFresh :
      (files : List KeyFile) (stale : List String)
      → is_none (add_stale file_freshness files stale) ≡ true
      → AllFresh files stale
  unfolding add_stale
  add_stale-AllFresh [] stale h = (h, λ f i. elim i [ ])
  add_stale-AllFresh (g ∷ files) stale h =
      let (none_stale, fresh) = add_stale-AllFresh files _ h in
      let (was_none, same_file) =
        not_added (is_changed file_freshness g) (strip g.path) stale none_stale in
      (was_none, either fresh same_file)
    where
      either :
          ((f : KeyFile) → In f files → is_changed file_freshness f ≡ false)
          → is_changed file_freshness g ≡ false
          → (f : KeyFile) → In f (g ∷ files)
          → is_changed file_freshness f ≡ false
      either fresh own f (here e) = ap (λ (k : KeyFile). is_changed file_freshness k) e ∙ own
      either fresh own f (there i) = fresh f i

both_none :
    (stale fields : List String)
    → status_of stale fields ≡ full_valid
    → (is_none stale ≡ true) × (is_none fields ≡ true)
both_none [] [] h = (refl, refl)
both_none [] (f ∷ fields) h = cc
both_none (p ∷ stale) fields h = cc

right_schema : (a b : Bool) → (not a || b) ≡ false → (a ≡ true) × (b ≡ false)
right_schema true b h = (refl, h)
right_schema false b h = cc

not_kept :
    (differ : Bool) (k : String) (rest : List String)
    → is_none (if differ then k ∷ rest else rest) ≡ true
    → (differ ≡ false) × (is_none rest ≡ true)
not_kept true k rest h = cc
not_kept false k rest h = (refl, h)

module _ (Value Run : Type 0) (eq : Value → Value → Bool) (text : Value → String) where
  mismatches-none :
      (file_freshness : String → Option String) (saved : Dict Value) (now : String → Value)
      (keys : List String)
      → is_none (mismatches Value Run eq text file_freshness saved now keys) ≡ true
      → (key : String) → In key keys
      → differs Value Run eq text file_freshness (lookup key saved) (now key) ≡ false
  unfolding mismatches
  mismatches-none file_freshness saved now [] h key i = elim i [ ]
  mismatches-none file_freshness saved now (k ∷ keys) h key (there i) =
      mismatches-none file_freshness saved now keys
        (not_kept (differs Value Run eq text file_freshness (lookup k saved) (now k)) k _ h).1 key i
  mismatches-none file_freshness saved now (k ∷ keys) h key (here e) =
      ap (λ (j : String). differs Value Run eq text file_freshness (lookup j saved) (now j)) e
      ∙ (not_kept (differs Value Run eq text file_freshness (lookup k saved) (now k)) k _ h).0

  -- There is a checkpoint of this schema with a fingerprint of this version, if it has one, no path was
  -- invalidated, no key file that has a path has changed, and every field of the identity that was saved, the
  -- id of the session apart, is the same now.
  abbrev pub Valid :
      (String → Option String)
      → Option (Checkpoint Value Run eq text)
      → Dict Value
      → (String → Value)
      → List String
      → Type 0
  Valid file_freshness checkpoint session_identity now invalidated =
      (c : Checkpoint Value Run eq text) × (checkpoint ≡ some c)
      × (same c.schema_version "phase1-v1" ≡ true)
      × (stale_fingerprint_version Value Run eq text c ≡ false)
      × (is_none invalidated ≡ true)
      × ((f : KeyFile) → In f c.key_files → is_changed file_freshness f ≡ false)
      × ((key : String)
          → In key current_identity_keys
          → same key "session_id" ≡ false
          → differs Value Run eq text file_freshness
              (lookup key (
                saved_identity Value Run eq text file_freshness c.runtime_identity
                  session_identity))
              (now key)
            ≡ false)

  schema-is_right :
      (c : Checkpoint Value Run eq text)
      → wrong_schema Value Run eq text c ≡ false
      → (same c.schema_version "phase1-v1" ≡ true)
        × (stale_fingerprint_version Value Run eq text c ≡ false)
  unfolding wrong_schema
  schema-is_right c h =
      right_schema (same c.schema_version "phase1-v1")
        (stale_fingerprint_version Value Run eq text c) h

  judge-Valid :
      (file_freshness : String → Option String) (checkpoint : Option (Checkpoint Value Run eq text))
      (session_identity : Dict Value) (now : String → Value) (invalidated : List String)
      → (judge Value Run eq text file_freshness checkpoint session_identity now invalidated).0
        ≡ full_valid
      → Valid file_freshness checkpoint session_identity now invalidated
  unfolding judge
  judge-Valid file_freshness none session_identity now invalidated h = cc
  judge-Valid file_freshness (some c) session_identity now invalidated h =
      if-cases
        (λ (t : Status × List String × List String).
          t.0 ≡ full_valid → Valid file_freshness (some c) session_identity now invalidated)
        (wrong_schema Value Run eq text c) (λ on. wrong)
        (λ off e.
          let (right, recent) = schema-is_right c off in
          let (no_stale, no_fields) =
            both_none (add_stale file_freshness c.key_files invalidated)
              (sort_texts (
                mismatches Value Run eq text file_freshness (saved c.runtime_identity) now
                  runtime_identity_keys))
              e in
          let (none_before, fresh) =
            add_stale-AllFresh file_freshness c.key_files invalidated no_stale in
          (
            c,
            refl,
            right,
            recent,
            none_before,
            fresh,
            λ key i other.
                mismatches-none file_freshness (saved c.runtime_identity) now runtime_identity_keys
                  (sym (sort_texts-is_none _) ∙ no_fields) key (compared key i other),
          ))
        h
    where
      saved : Dict Value → Dict Value
      saved identity = saved_identity Value Run eq text file_freshness identity session_identity

      wrong :
          schema_mismatch ≡ full_valid
          → Valid file_freshness (some c) session_identity now invalidated
      wrong e = cc

  -- A resume calls its checkpoint fully valid only when there is one of this schema, with a
  -- fingerprint of this version if it has one, no path of the memory
  -- was invalidated, no key file that has a path has changed, and every field that the runtime saves of its
  -- identity, the id of the session apart, is the same now where it was saved, in the checkpoint or else in
  -- the session.
  pub evaluate_resume_state-Valid :
      (file_freshness : String → Option String) (checkpoint : Option (Checkpoint Value Run eq text))
      (previous : Previous Value Run eq text) (interrupted : List Run)
      (session_identity : Dict Value) (now : String → Value) (invalidated : List String)
      → (evaluate_resume_state Value Run eq text file_freshness checkpoint previous interrupted
          session_identity now invalidated).status
        ≡ full_valid
      → Valid file_freshness checkpoint session_identity now invalidated
  unfolding evaluate_resume_state
  evaluate_resume_state-Valid file_freshness checkpoint previous interrupted session_identity now
        invalidated h =
      judge-Valid file_freshness checkpoint session_identity now invalidated h
