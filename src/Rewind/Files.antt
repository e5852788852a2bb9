-- ===== src/Rewind/Files.antt =====
-- What a rewind leaves in each file.
use moss_code.Base.{
  ◌≡◌, refl, sym, ap, ◌∙◌, String, Bool, false, not, ◌||◌, Option, none, some, List, [], ◌∷◌, arith,
  if◌then◌else◌, elem, same, eq_iff, same_comm, Bool-cases, inl, inr,
}
use moss_code.Rewind.{
  UndoEntry, Manifest, Files, Store, restore_path, restore_paths, restore_entry, restore_all,
}

-- Under the test that two texts are the same, one stands for the other.
pub if-same {ℓ} :
    {A : Type ℓ} (f : String → A) (p q : String) (y : A)
    → (if same p q then f q else y) ≡ (if same p q then f p else y)
if-same f p q y = elim (Bool-cases (same p q)) [
  | inr off ↦ rw off
  | inl on ↦ ap (λ (r : String). if same p q then f r else y) (sym ((eq_iff p q).0 on))
]

module _ (store : Store) where
  -- The paths that a record lists.
  abbrev pub lists : Option Manifest → String → Bool
  lists none p = false
  lists (some m) p = elem p m.paths

  -- What a path held before the step of a record, as the record tells it; a content that cannot be read
  -- back leaves what is there.
  abbrev pub before : UndoEntry → Option Manifest → String → Option String → Option String
  before e none p now = now
  before e (some m) p now =
      if not (m.existed p)
      then none
      else elim (store.undo_file_text e p) [ none ↦ now | some text ↦ some text ]

  -- What the first record that lists a path says that the path held before its step.
  abbrev pub first_before : List UndoEntry → String → Option String → Option String
  first_before [] p now = now
  first_before (e ∷ entries) p now =
      let later = first_before entries p now in
      if lists (store.read_undo e) p then before e (store.read_undo e) p later else later

  restore_path-own :
      (e : UndoEntry) (m : Manifest) (q : String) (files : Files) (p : String)
      → restore_path store e m q files p
        ≡ (if same q p then before e (some m) q (files p) else files p)
  unfolding restore_path
  restore_path-own e m q files p = ground arith

  restore_path-at :
      (e : UndoEntry) (m : Manifest) (q : String) (files : Files) (p : String)
      → restore_path store e m q files p
        ≡ (if same p q then before e (some m) p (files p) else files p)
  restore_path-at e m q files p =
      restore_path-own e m q files p
      ∙ ap (λ (b : Bool). if b then before e (some m) q (files p) else files p) (same_comm q p)
      ∙ if-same (λ (r : String). before e (some m) r (files p)) p q (files p)

  before_twice :
      (e : UndoEntry) (m : Manifest) (p : String) (now : Option String) (a b : Bool)
      → (if a
          then before e (some m) p (if b then before e (some m) p now else now)
          else (if b then before e (some m) p now else now))
        ≡ (if b || a then before e (some m) p now else now)
  before_twice e m p now a b = ground arith

  restore_paths-at :
      (e : UndoEntry) (m : Manifest) (paths : List String) (files : Files) (p : String)
      → restore_paths store e m paths files p
        ≡ (if elem p paths then before e (some m) p (files p) else files p)
  unfolding restore_paths
  restore_paths-at e m [] files p = refl
  restore_paths-at e m (q ∷ paths) files p =
      restore_paths-at e m paths (restore_path store e m q files) p
      ∙ ap (λ (now : Option String). if elem p paths then before e (some m) p now else now)
          (restore_path-at e m q files p)
      ∙ before_twice e m p (files p) (elem p paths) (same p q)

  restore_entry-at :
      (e : UndoEntry) (o : Option Manifest) (files : Files) (p : String)
      → restore_entry store e o files p ≡ (if lists o p then before e o p (files p) else files p)
  unfolding restore_entry
  restore_entry-at e none files p = refl
  restore_entry-at e (some m) files p = restore_paths-at e m m.paths files p

  -- Undoing steps, the last one first, leaves in every file what the earliest record that lists its path
  -- says that it held, whatever the later records say; a path that no record lists keeps its content.
  pub restore_all-at :
      (entries : List UndoEntry) (files : Files) (p : String)
      → restore_all store entries files p ≡ first_before entries p (files p)
  unfolding restore_all
  restore_all-at [] files p = refl
  restore_all-at (e ∷ entries) files p =
      restore_entry-at e (store.read_undo e) (restore_all store entries files) p
      ∙ ap
          (λ (now : Option String).
            if lists (store.read_undo e) p then before e (store.read_undo e) p now else now)
          (restore_all-at entries files p)
