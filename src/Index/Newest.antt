-- ===== src/Index/Newest.antt =====
-- The order of the entries: from the newest start to the oldest.
use Prim.Native.String.{String}
use mathlib.Core.List.{Perm}
use mathlib.Core.List.Perm
use moss_code.Base.{
  ◌≡◌, refl, true, false, List, [], ◌∷◌, arith, Bool-cases, inl, inr, All, if-elim,
}
use moss_code.Index.{Entry, started_key, is_at_most, insert_newest, newest_first}

is_at_most_total : (s t : String) → is_at_most s t ≡ false → is_at_most t s ≡ true
unfolding is_at_most
is_at_most_total String.[] t h = cc
is_at_most_total (String.◌∷◌ c s) String.[] h = refl
is_at_most_total (String.◌∷◌ c s) (String.◌∷◌ d t) h = ground (arith, is_at_most_total s t)

is_at_most_trans :
    (r s t : String) → is_at_most r s ≡ true → is_at_most s t ≡ true → is_at_most r t ≡ true
unfolding is_at_most
is_at_most_trans String.[] s t h k = refl
is_at_most_trans (String.◌∷◌ b r) String.[] t h k = cc
is_at_most_trans (String.◌∷◌ b r) (String.◌∷◌ c s) String.[] h k = cc
is_at_most_trans (String.◌∷◌ b r) (String.◌∷◌ c s) (String.◌∷◌ d t) h k =
    ground (arith, is_at_most_trans r s t)

-- The first one started no earlier than the second one.
abbrev pub IsNewer : Entry → Entry → Type 0
IsNewer e d = is_at_most (started_key d) (started_key e) ≡ true

-- No entry started after one before it.
abbrev pub IsNewestFirst : List Entry → Type 0
IsNewestFirst [] = Unit
IsNewestFirst (e ∷ es) = All (IsNewer e) es × IsNewestFirst es

insert_newest-All :
    (f e : Entry) (es : List Entry)
    → IsNewer f e
    → All (IsNewer f) es
    → All (IsNewer f) (insert_newest e es)
unfolding insert_newest
insert_newest-All f e [] h hs = (h, tt)
insert_newest-All f e (d ∷ es) h hs =
    if-elim (All (IsNewer f)) (is_at_most (started_key d) (started_key e)) (h, hs)
      (hs.0, insert_newest-All f e es h hs.1)

All-older : (f e : Entry) (es : List Entry) → IsNewer f e → All (IsNewer e) es → All (IsNewer f) es
All-older f e [] h hs = tt
All-older f e (d ∷ es) h hs = (
  is_at_most_trans (started_key d) (started_key e) (started_key f) hs.0 h,
  All-older f e es h hs.1,
)

insert_newest-IsNewestFirst :
    (e : Entry) (es : List Entry) → IsNewestFirst es → IsNewestFirst (insert_newest e es)
unfolding insert_newest
insert_newest-IsNewestFirst e [] h = (tt, tt)
insert_newest-IsNewestFirst e (d ∷ es) h =
    elim (Bool-cases (is_at_most (started_key d) (started_key e))) [
      | inl later ↦ rw (later, insert_newest) ((later, All-older e d es later h.0), h)
      | inr earlier ↦
          rw (earlier, insert_newest)
            (
              insert_newest-All d e es (is_at_most_total (started_key d) (started_key e) earlier)
                  h.0,
              insert_newest-IsNewestFirst e es h.1,
            )
    ]

insert_newest-perm : (e : Entry) (es : List Entry) → Perm (insert_newest e es) (e ∷ es)
unfolding insert_newest
insert_newest-perm e [] = Perm.refl _
insert_newest-perm e (d ∷ es) =
    if-elim (λ (l : List Entry). Perm l (e ∷ d ∷ es)) (is_at_most (started_key d) (started_key e))
      (Perm.refl _) (Perm.trans (Perm.cons d (insert_newest-perm e es)) (Perm.swap e d es))

pub newest_first-IsNewestFirst : (es : List Entry) → IsNewestFirst (newest_first es)
unfolding newest_first
newest_first-IsNewestFirst [] = tt
newest_first-IsNewestFirst (e ∷ es) =
    insert_newest-IsNewestFirst e _ (newest_first-IsNewestFirst es)

pub newest_first-perm : (es : List Entry) → Perm (newest_first es) es
unfolding newest_first
newest_first-perm [] = Perm.refl _
newest_first-perm (e ∷ es) =
    Perm.trans (insert_newest-perm e _) (Perm.cons e (newest_first-perm es))
