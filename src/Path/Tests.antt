-- ===== src/Path/Tests.antt =====
-- Runs of `buffer_path_simplify`, and its theorems at concrete paths.
use ylem.Base.{◌≡◌, refl, Bytes, List, [], ◌∷◌, arith, codes}
use ylem.Path.{path_simplify, simplify_from, skip_spaces, close_token, back_up, push_pre}
use ylem.Path.Correct.{relative, path_simplify-resolve}
use ylem.Path.Proper.{AllProper, Names, path_simplify-AllProper}
use ylem.Path.Segments.{segments, resolve}

-- The examples of the function's comment, and a blank path.
simplified :
    (path_simplify (codes "/blah/..") ≡ codes "/")
    × (path_simplify (codes "/blah/../foo") ≡ codes "/foo")
    × (path_simplify (codes "/abc/./xyz") ≡ codes "/abc/xyz")
    × (path_simplify (codes "/abc//xyz") ≡ codes "/abc/xyz")
    × (path_simplify (codes " ../../a/.../.") ≡ codes "/a/.../")
    × (path_simplify [] ≡ b'/' ∷ 0 ∷ [])
unfolding path_simplify simplify_from close_token back_up push_pre
simplified = (refl, refl, refl, refl, refl, refl)

path_simplify-resolve_example :
    path_simplify (codes "/a/../b") ≡ resolve [] (segments (relative (codes "/a/../b")))
unfolding skip_spaces
path_simplify-resolve_example = path_simplify-resolve (codes "/a/../b") (omega arith) (λ e. cc e)

path_simplify-AllProper_example :
    (d : List Bytes) × AllProper d × Names (path_simplify (codes "/../etc")) d
unfolding skip_spaces
path_simplify-AllProper_example =
    path_simplify-AllProper (codes "/../etc") (omega arith) (λ e. cc e)
