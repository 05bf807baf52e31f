-- ===== src/Path/Segments.antt =====
-- The specification: a path as its segments between slashes, resolved from left to right.
use ylem.Base.{Bytes, Bool, true, false, ◌&&◌, ◌||◌, List, [], ◌∷◌, ◌++◌, ◌==◌, if◌then◌else◌}

-- The pieces of a text between its slashes: one more than there are slashes.
unfoldable pub extend_head : Bytes → List Bytes → List Bytes
extend_head cur [] = cur ∷ []
extend_head cur (x ∷ xs) = (cur ++ x) ∷ xs

unfoldable pub segments : Bytes → List Bytes
segments [] = [] ∷ []
segments (c ∷ cs) = elim (c == b'/') [
  | true ↦ [] ∷ segments cs
  | false ↦ extend_head (c ∷ []) (segments cs)
]

unfoldable pub is_up : Bytes → Bool
is_up (a ∷ b ∷ []) = a == b'.' && b == b'.'
is_up _ = false

unfoldable pub is_here : Bytes → Bool
is_here [] = true
is_here (a ∷ []) = a == b'.'
is_here _ = false

abbrev pub parent : List Bytes → List Bytes
parent [] = []
parent (x ∷ xs) = xs

-- One segment applied to the directory, whose segments stand last first.
unfoldable pub enter : Bytes → List Bytes → List Bytes
enter x dir = if is_up x then parent dir else if is_here x then dir else x ∷ dir

-- "/a/b" for the segments b, a.
unfoldable pub path_of : List Bytes → Bytes
path_of [] = []
path_of (x ∷ xs) = path_of xs ++ b'/' ∷ x

-- The last segment names an entry, or ends the path with a slash.
unfoldable pub finish : Bytes → List Bytes → Bytes
finish x dir =
    if is_up x || is_here x then path_of (enter x dir) ++ b'/' ∷ [] else path_of (x ∷ dir)

unfoldable pub resolve : List Bytes → List Bytes → Bytes
resolve dir [] = path_of dir
resolve dir (x ∷ []) = finish x dir
resolve dir (x ∷ y ∷ ys) = resolve (enter x dir) (y ∷ ys)
