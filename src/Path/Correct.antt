-- ===== src/Path/Correct.antt =====
-- `buffer_path_simplify` resolves the segments of its input, and lets no "..", "." or empty segment
-- through.
use ylem.Base.{
  ℕ, ◌%◌, ◌<◌, ◌≡◌, ◌≢◌, refl, sym, ap, ◌∙◌, Bytes, ◌||◌, List, [], ◌∷◌, ◌++◌, reverse,
  append_assoc, append-nil, ◌==◌, if◌then◌else◌, arith, Bool-cases, inl, inr,
}
use mathlib.Core.List.{reverse-cons, reverse-append}
use ylem.Path.{push_pre, close_token, simplify_from, simplify_start, skip_spaces, path_simplify}
use ylem.Path.Segments.{is_up, is_here, enter, segments, extend_head, finish, resolve}
use ylem.Path.Token.{
  IsSegment, pre_after, token_of, flat, reverse-flat, AllSegments, close_token-enter,
  IsSegment-append,
}

-- The bytes of a C string.
abbrev pub IsText : Bytes → Type 0
IsText [] = Unit
IsText (c ∷ cs) = (c < 256) × (c ≢ 0) × IsText cs

pub segments-cons : (s : Bytes) → (y : Bytes) × (ys : List Bytes) × (segments s ≡ y ∷ ys)
unfolding segments extend_head
segments-cons [] = ([], [], refl)
segments-cons (c ∷ cs) =
    let (y, ys, e) = segments-cons cs in
    elim (Bool-cases (c == b'/')) [
      | inl b ↦ ([], segments cs, rw (b, segments) refl)
      | inr b ↦ (c ∷ y, ys, rw (b, segments, e) refl)
    ]

extend_head-twice :
    (xs ys : Bytes) (zs : List Bytes)
    → extend_head xs (extend_head ys zs) ≡ extend_head (xs ++ ys) zs
unfolding extend_head
extend_head-twice xs ys [] = refl
extend_head-twice xs ys (z ∷ zs) = rw append_assoc

pre_after-append :
    (p : ℕ) (xs : Bytes) (c : ℕ) → pre_after p (xs ++ c ∷ []) ≡ push_pre (pre_after p xs) c
pre_after-append p [] c = refl
pre_after-append p (x ∷ xs) c = pre_after-append (push_pre p x) xs c

token_of-append : (xs : Bytes) (c : ℕ) → token_of (xs ++ c ∷ []) ≡ c ∷ token_of xs
token_of-append xs c = rw (reverse-append) refl

pre_after-slash : (q : ℕ) → push_pre q b'/' % 256 ≡ b'/'
unfolding push_pre
pre_after-slash q = omega arith

enter-AllSegments :
    (x : Bytes) (dir : List Bytes) → IsSegment x → AllSegments dir → AllSegments (enter x dir)
unfolding enter
enter-AllSegments x [] h hs = ground arith
enter-AllSegments x (y ∷ ys) h hs = ground arith

-- One round of the loop at a slash and at another byte, beside the specification.
slash_round :
    (before token : Bytes) (pre : ℕ) (rest : Bytes)
    → (simplify_from before token pre (b'/' ∷ rest)
        ≡ simplify_from (close_token b'/' before token pre) (b'/' ∷ []) (push_pre pre b'/') rest)
      × (segments (b'/' ∷ rest) ≡ [] ∷ segments rest)
unfolding simplify_from segments
slash_round before token pre rest = (refl, refl)

other_round :
    (before token : Bytes) (pre c : ℕ) (rest : Bytes)
    → c ≢ 0
    → c ≢ b'/'
    → (simplify_from before token pre (c ∷ rest)
        ≡ simplify_from before (c ∷ token) (push_pre pre c) rest)
      × (segments (c ∷ rest) ≡ extend_head (c ∷ []) (segments rest))
unfolding simplify_from segments
other_round before token pre c rest h h' = ground arith

-- What stays in the destination at the end.
finish-flat :
    (dir : List Bytes) (cur : Bytes)
    → reverse (if is_up cur || is_here cur then b'/' ∷ flat (enter cur dir) else flat (cur ∷ dir))
      ≡ finish cur dir
unfolding finish
finish-flat dir cur = elim (Bool-cases (is_up cur || is_here cur)) [
  | inl b ↦ rw (b, reverse-cons, reverse-flat) refl
  | inr b ↦ rw b (reverse-flat (cur ∷ dir))
]

enter-other :
    (dir : List Bytes) (cur : Bytes)
    → (if is_up cur || is_here cur then flat (enter cur dir) else flat (cur ∷ dir))
      ≡ flat (enter cur dir)
unfolding enter
enter-other dir cur = ground arith

resolve-step :
    (x : Bytes) (dir : List Bytes) (s : Bytes)
    → resolve dir (x ∷ segments s) ≡ resolve (enter x dir) (extend_head [] (segments s))
unfolding resolve extend_head
resolve-step x dir s = let (y, ys, e) = segments-cons s in rw e refl

simplify_from-resolve :
    (rest : Bytes) (dir : List Bytes) (cur : Bytes) (p : ℕ)
    → p % 256 ≡ b'/'
    → AllSegments dir
    → IsSegment cur
    → IsText rest
    → reverse (simplify_from (flat dir) (token_of cur) (pre_after p cur) (rest ++ 0 ∷ []))
      ≡ resolve dir (extend_head cur (segments rest))
simplify_from-resolve [] dir cur p e h s t =
    let ends : simplify_from (flat dir) (token_of cur) (pre_after p cur) (0 ∷ [])
        ≡ close_token 0 (flat dir) (token_of cur) (pre_after p cur) =
      unfold simplify_from in refl in
    rw (ends, close_token-enter 0 p dir cur e h s)
      (finish-flat dir cur
        ∙ (unfold resolve extend_head segments in ap (λ x. finish x dir) (sym (append-nil cur))))
simplify_from-resolve (c ∷ rest) dir cur p e h s t = elim (Bool-cases (c == b'/')) [
  | inl b ↦
      let is_slash : c ≡ b'/' = ground arith in
      let round = slash_round (flat dir) (token_of cur) (pre_after p cur) (rest ++ 0 ∷ []) in
      let ih =
        simplify_from-resolve rest (enter cur dir) [] (push_pre (pre_after p cur) b'/')
          (pre_after-slash (pre_after p cur)) (enter-AllSegments cur dir s h) tt t.2 in
      rw is_slash (
        rw (round.0, close_token-enter b'/' p dir cur e h s, enter-other)
          (ih
            ∙ sym (resolve-step cur dir rest)
            ∙ (unfold extend_head in
                rw (slash_round (flat dir) (token_of cur) (pre_after p cur) rest).1
                  (ap (λ x. resolve dir (x ∷ segments rest)) (sym (append-nil cur))))))
  | inr b ↦
      let not_slash : c ≢ b'/' = ground arith in
      let round =
        other_round (flat dir) (token_of cur) (pre_after p cur) c (rest ++ 0 ∷ []) t.1 not_slash in
      let ih =
        simplify_from-resolve rest dir (cur ++ c ∷ []) p e h
          (IsSegment-append cur (c ∷ []) s (t.0, t.1, not_slash, tt)) t.2 in
      let spec = other_round (flat dir) (token_of cur) (pre_after p cur) c rest t.1 not_slash in
      rw (round.0, spec.1, extend_head-twice) (rw (token_of-append, pre_after-append) at ih)
]

-- The input without leading spaces and without its first slash.
unfoldable pub relative : Bytes → Bytes
relative [] = []
relative (c ∷ cs) = if c == b'/' then cs else c ∷ cs

skip_spaces-append : (s : Bytes) → skip_spaces (s ++ 0 ∷ []) ≡ skip_spaces s ++ 0 ∷ []
unfolding skip_spaces
skip_spaces-append [] = refl
skip_spaces-append (c ∷ cs) = ground (arith, skip_spaces-append cs)

pub IsText-skip_spaces : (s : Bytes) → IsText s → IsText (skip_spaces s)
unfolding skip_spaces
IsText-skip_spaces [] h = tt
IsText-skip_spaces (c ∷ cs) h = ground (arith, IsText-skip_spaces cs h.2)

start_slash :
    (c : ℕ) (rest : Bytes)
    → c ≡ b'/'
    → simplify_start (c ∷ rest) ≡ reverse (simplify_from [] (b'/' ∷ []) b'/' rest)
unfolding simplify_start
start_slash c rest e = rw e refl

start_other :
    (c : ℕ) (rest : Bytes)
    → c ≢ 0
    → c ≢ b'/'
    → simplify_start (c ∷ rest) ≡ reverse (simplify_from [] (c ∷ b'/' ∷ []) (push_pre b'/' c) rest)
unfolding simplify_start
start_other c rest h h' = ground arith

simplify_start-resolve :
    (c : ℕ) (cs : Bytes)
    → IsText (c ∷ cs)
    → simplify_start ((c ∷ cs) ++ 0 ∷ []) ≡ resolve [] (segments (relative (c ∷ cs)))
unfolding simplify_from resolve segments relative
simplify_start-resolve c cs t = elim (Bool-cases (c == b'/')) [
  | inl b ↦
      let (y, ys, e) = segments-cons cs in
      rw (start_slash c (cs ++ 0 ∷ []) (ground arith), b)
        (simplify_from-resolve cs [] [] b'/' refl tt tt t.2 ∙ (unfold extend_head in rw e refl))
  | inr b ↦
      let not_slash : c ≢ b'/' = ground arith in
      rw (start_other c (cs ++ 0 ∷ []) t.1 not_slash, b)
        (simplify_from-resolve cs [] (c ∷ []) b'/' refl tt (t.0, t.1, not_slash, tt) t.2
          ∙ ap (resolve []) (sym (other_round [] [] 0 c cs t.1 not_slash).1))
]

-- `buffer_path_simplify` on a C string that is not blank gives the path that its segments, from the
-- root, resolve to: a segment "" or "." is dropped, ".." goes to the parent, and the root is its own
-- parent; a path that ends in such a segment ends in a slash.
pub path_simplify-resolve :
    (s : Bytes)
    → IsText s
    → skip_spaces s ≢ []
    → path_simplify s ≡ resolve [] (segments (relative (skip_spaces s)))
unfolding path_simplify
path_simplify-resolve s t ne =
    rw skip_spaces-append (from_start (skip_spaces s) (IsText-skip_spaces s t) ne)
  where
    from_start :
        (u : Bytes)
        → IsText u
        → u ≢ []
        → simplify_start (u ++ 0 ∷ []) ≡ resolve [] (segments (relative u))
    from_start [] h n = absurd (n refl)
    from_start (c ∷ cs) h n = simplify_start-resolve c cs h
