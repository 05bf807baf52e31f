-- ===== src/Path/Proper.antt =====
-- No "..", "." or empty segment gets through `buffer_path_simplify`.
use ylem.Base.{
  ◌≡◌, ◌≢◌, ◌⊎◌, refl, Bytes, false, ◌||◌, List, [], ◌∷◌, ◌++◌, arith, Bool-cases, inl, inr,
}
use ylem.Path.{skip_spaces, path_simplify}
use ylem.Path.Correct.{IsText, IsText-skip_spaces, segments-cons, relative, path_simplify-resolve}
use ylem.Path.Segments.{is_up, is_here, enter, path_of, segments, extend_head, finish, resolve}
use ylem.Path.Token.{IsSegment, AllSegments}

-- A segment that names an entry of a directory.
abbrev pub AllProper : List Bytes → Type 0
AllProper [] = Unit
AllProper (x ∷ xs) = IsSegment x × (is_up x ≡ false) × (is_here x ≡ false) × AllProper xs

-- The segments `dir`, with or without a final slash, make up the path.
abbrev pub Names : Bytes → List Bytes → Type 0
Names path dir = (path ≡ path_of dir) ⊎ (path ≡ path_of dir ++ b'/' ∷ [])

enter-AllProper :
    (x : Bytes) (dir : List Bytes) → IsSegment x → AllProper dir → AllProper (enter x dir)
unfolding enter
enter-AllProper x [] h hs = ground arith
enter-AllProper x (y ∷ ys) h hs = ground arith

resolve-AllProper :
    (xs dir : List Bytes)
    → AllSegments xs
    → AllProper dir
    → (d : List Bytes) × AllProper d × Names (resolve dir xs) d
unfolding resolve finish
resolve-AllProper [] dir h p = (dir, p, inl refl)
resolve-AllProper (x ∷ []) dir h p = elim (Bool-cases (is_up x || is_here x)) [
  | inl b ↦ (enter x dir, enter-AllProper x dir h.0 p, inr (rw b refl))
  | inr b ↦ (x ∷ dir, ground (arith, h.0, p), inl (rw b refl))
]
resolve-AllProper (x ∷ y ∷ ys) dir h p =
    resolve-AllProper (y ∷ ys) (enter x dir) h.1 (enter-AllProper x dir h.0 p)

segments-AllSegments : (s : Bytes) → IsText s → AllSegments (segments s)
unfolding segments extend_head
segments-AllSegments [] h = (tt, tt)
segments-AllSegments (c ∷ cs) h =
    let (y, ys, e) = segments-cons cs in
    let ih : AllSegments (y ∷ ys) = rw e at (segments-AllSegments cs h.2) in ground arith

-- For a text of nonzero bytes below 256 that is not empty and not spaces alone, the path that comes
-- out is made of proper segments alone: none is "..", "." or empty, so that it stays below the root.
pub path_simplify-AllProper :
    (s : Bytes)
    → IsText s
    → skip_spaces s ≢ []
    → (d : List Bytes) × AllProper d × Names (path_simplify s) d
unfolding relative
path_simplify-AllProper s t ne = rw (path_simplify-resolve s t ne) (
    resolve-AllProper _ []
      (segments-AllSegments (relative (skip_spaces s))
        (IsText-relative (skip_spaces s) (IsText-skip_spaces s t)))
      tt)
  where
    IsText-relative : (u : Bytes) → IsText u → IsText (relative u)
    IsText-relative [] h = tt
    IsText-relative (c ∷ cs) h = ground arith
