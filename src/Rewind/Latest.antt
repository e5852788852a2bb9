-- ===== src/Rewind/Latest.antt =====
-- The fingerprints that a rewind compares: the last one of each path.
use moss_code.Base.{
  is_none, text_leb, same_comm, ℕ, ◌≡◌, refl, ap, subst, ◌∙◌, String, Bool, false, ◌&&◌, ◌||◌,
  Option, none, some, List, [], ◌∷◌, ◌++◌, arith, if◌then◌else◌, if-elim, if-cases, elem, same,
  eq_iff, lookup, update, lookup-update, Bool-cases, inl, inr, In, here, there, ◌⊎◌,
}
use moss_code.Rewind.{
  UndoEntry, Conflict, Manifest, Files, Store, Latest, targets_of, note_paths, check_record,
  check_records, insert_path, sort_paths, changed_since, has_sha, file_sha, plan_rewind,
}
use moss_code.Rewind.Files.{if-same}

-- The fingerprint that one record gives of a path after its step.
abbrev pub fingerprint : Option Manifest → String → Option String
fingerprint none p = none
fingerprint (some m) p = if m.restorable && elem p m.paths then m.sha_after p else none

abbrev pub or_else : Option String → Option String → Option String
or_else none o = o
or_else (some sha) o = some sha

-- The last fingerprint of a path that the records give.
abbrev pub last_recorded : Store → List UndoEntry → String → Option String
last_recorded store [] p = none
last_recorded store (e ∷ entries) p =
    or_else (last_recorded store entries p) (fingerprint (store.read_undo e) p)

abbrev sha_of : Option (String × String) → Option String
sha_of none = none
sha_of (some (action_id, sha)) = some sha

noted-sha :
    (o : Option String) (a q p : String) (latest : Latest)
    → sha_of (
        lookup p
          (elim o [ none ↦ latest | some sha ↦ update {V = String × String} q (a, sha) latest ]))
      ≡ or_else (if same p q then o else none) (sha_of (lookup p latest))
noted-sha none a q p latest = ground arith
noted-sha (some sha) a q p latest =
    rw (lookup-update q p (a, sha) latest, same_comm q p) (ground arith)

or_else_split :
    (o r : Option String) (a b : Bool)
    → or_else (if a then o else none) (or_else (if b then o else none) r)
      ≡ or_else (if b || a then o else none) r
or_else_split o r a b = ground arith

note_paths-sha :
    (a : String) (m : Manifest) (paths : List String) (latest : Latest) (p : String)
    → sha_of (lookup p (note_paths a m paths latest))
      ≡ or_else (if elem p paths then m.sha_after p else none) (sha_of (lookup p latest))
unfolding note_paths
note_paths-sha a m [] latest p = refl
note_paths-sha a m (q ∷ paths) latest p =
    note_paths-sha a m paths
      (elim (m.sha_after q) [ none ↦ latest | some sha ↦ update q (a, sha) latest ]) p
    ∙ ap (λ (o : Option String). or_else (if elem p paths then m.sha_after p else none) o)
        (noted-sha (m.sha_after q) a q p latest
          ∙ ap (λ (o : Option String). or_else o (sha_of (lookup p latest)))
              (if-same (λ (r : String). m.sha_after r) p q none))
    ∙ or_else_split (m.sha_after p) (sha_of (lookup p latest)) (elem p paths) (same p q)

record-sha :
    (e : UndoEntry) (o : Option Manifest) (r : List Conflict × Latest) (p : String)
    → sha_of (lookup p (check_record e o r).1) ≡ or_else (fingerprint o p) (sha_of (lookup p r.1))
unfolding check_record
record-sha e none (conflicts, latest) p = refl
record-sha e (some m) (conflicts, latest) p = elim (Bool-cases m.restorable) [
  | inl on ↦ rw on (note_paths-sha e.action_id m m.paths latest p)
  | inr off ↦ rw off refl
]

or_else_assoc : (a b c : Option String) → or_else a (or_else b c) ≡ or_else (or_else a b) c
or_else_assoc none b c = refl
or_else_assoc (some x) b c = refl

records-sha :
    (store : Store) (entries : List UndoEntry) (r : List Conflict × Latest) (p : String)
    → sha_of (lookup p (check_records store entries r).1)
      ≡ or_else (last_recorded store entries p) (sha_of (lookup p r.1))
unfolding check_records
records-sha store [] r p = refl
records-sha store (e ∷ entries) r p =
    records-sha store entries (check_record e (store.read_undo e) r) p
    ∙ ap (λ (o : Option String). or_else (last_recorded store entries p) o)
        (record-sha e (store.read_undo e) r p)
    ∙ or_else_assoc (last_recorded store entries p) (fingerprint (store.read_undo e) p)
        (sha_of (lookup p r.1))

same_pair :
    (p q : String) (v w : String × String)
    → q ≡ p
    → some w ≡ some v
    → ◌≡◌ {A = String × (String × String)} (p, v) (q, w)
same_pair p q v w a b = cc

lookup-In : (p : String) (v : String × String) (d : Latest) → lookup p d ≡ some v → In (p, v) d
unfolding lookup
lookup-In p v [] e = cc
lookup-In p v ((q, w) ∷ d) e =
    if-cases (λ (o : Option (String × String)). o ≡ some v → In (p, v) ((q, w) ∷ d)) (same q p)
      (λ on f. here (same_pair p q v w ((eq_iff q p).0 on) f)) (λ off f. there (lookup-In p v d f))
      e

at_front : (x y : String × (String × String)) (d : Latest) → (x ≡ y) ⊎ In x d → In x (y ∷ d)
at_front x y d (inl e) = here e
at_front x y d (inr i) = there i

behind :
    (x y : String × (String × String)) (d later : Latest) (z : String × (String × String))
    → ((x ≡ z) ⊎ In x d → In x later)
    → (x ≡ z) ⊎ In x (y ∷ d)
    → In x (y ∷ later)
behind x y d later z h (inl e) = there (h (inl e))
behind x y d later z h (inr (here e)) = here e
behind x y d later z h (inr (there i)) = there (h (inr i))

insert_path-In :
    (x y : String × (String × String)) (d : Latest) → (x ≡ y) ⊎ In x d → In x (insert_path y d)
unfolding insert_path
insert_path-In x (p, v) [] (inl e) = here e
insert_path-In x (p, v) [] (inr i) = there i
insert_path-In x (p, v) ((q, w) ∷ d) h =
    if-elim (λ (l : Latest). In x l) (text_leb p q) (at_front x (p, v) ((q, w) ∷ d) h)
      (behind x (q, w) d (insert_path (p, v) d) (p, v) (insert_path-In x (p, v) d) h)

sort_paths-In : (x : String × (String × String)) (d : Latest) → In x d → In x (sort_paths d)
unfolding sort_paths
sort_paths-In x [] i = elim i [ ]
sort_paths-In x ((p, v) ∷ d) (here e) = insert_path-In x (p, v) (sort_paths d) (inl e)
sort_paths-In x ((p, v) ∷ d) (there i) =
    insert_path-In x (p, v) (sort_paths d) (inr (sort_paths-In x d i))

module _ (store : Store) (files : Files) where
  changed_since-found :
      (p a sha : String) (d : Latest)
      → In (p, (a, sha)) d
      → has_sha store (file_sha store files p) sha ≡ false
      → is_none (changed_since store files d) ≡ false
  unfolding changed_since
  changed_since-found p a sha [] i f = elim i [ ]
  changed_since-found p a sha ((q, (b, recorded)) ∷ d) (there i) f =
      if-elim (λ (l : List Conflict). is_none l ≡ false)
        (has_sha store (file_sha store files q) recorded) (changed_since-found p a sha d i f) refl
  changed_since-found p a sha ((q, (b, recorded)) ∷ d) (here e) f = rw (differs) refl
    where
      differs : has_sha store (file_sha store files q) recorded ≡ false
      differs =
          subst
            (λ (x : String × (String × String)).
              has_sha store (file_sha store files x.0) x.1.1 ≡ false)
            e f

is_none-append {ℓ} : {A : Type ℓ} (xs ys : List A) → is_none ys ≡ false → is_none (xs ++ ys) ≡ false
is_none-append [] ys h = h
is_none-append (x ∷ xs) ys h = refl

sha-some :
    (o : Option (String × String)) (sha : String)
    → sha_of o ≡ some sha
    → (a : String) × (o ≡ some (a, sha))
sha-some none sha e = cc
sha-some (some (a, s)) sha e = (a, cc)

pub plan_rewind-finds :
    (store : Store) (steps : ℕ) (undo : List UndoEntry) (files : Files) (p sha : String)
    → last_recorded store (targets_of steps undo) p ≡ some sha
    → has_sha store (file_sha store files p) sha ≡ false
    → is_none (plan_rewind store steps undo files).1 ≡ false
unfolding plan_rewind lookup
plan_rewind-finds store steps undo files p sha e f =
    let (a, at) =
      sha-some (lookup p (check_records store (targets_of steps undo) ([], [])).1) sha
        (records-sha store (targets_of steps undo) ([], []) p ∙ rw e refl) in
    is_none-append (check_records store (targets_of steps undo) ([], [])).0
      (changed_since store files
        (sort_paths (check_records store (targets_of steps undo) ([], [])).1))
      (changed_since-found store files p a sha
        (sort_paths (check_records store (targets_of steps undo) ([], [])).1)
        (sort_paths-In (p, (a, sha)) (check_records store (targets_of steps undo) ([], [])).1
          (lookup-In p (a, sha) (check_records store (targets_of steps undo) ([], [])).1 at))
        f)
