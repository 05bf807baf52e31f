-- ===== src/Path/Token.antt =====
-- One token of the loop, a slash and the bytes of a segment, against the segment.
use ylem.Base.{
  ℕ, suc, ◌%◌, ◌<◌, ◌≡◌, ◌≢◌, refl, Bytes, false, ◌&&◌, ◌||◌, List, [], ◌∷◌, ◌++◌, reverse,
  reverse-reverse, append_assoc, length, length-append, ◌==◌, if◌then◌else◌, arith, Bool-cases, inl,
  inr,
}
use mathlib.Core.List.{reverse-cons, reverse-append}
use ylem.Path.{push_pre, bottom, back_up, close_token}
use ylem.Path.Segments.{is_up, is_here, enter, parent, path_of}

-- A byte of a segment: no terminator, no slash.
abbrev pub IsSegment : Bytes → Type 0
IsSegment [] = Unit
IsSegment (c ∷ cs) = (c < 256) × (c ≢ 0) × (c ≢ b'/') × IsSegment cs

abbrev pub pre_after : ℕ → Bytes → ℕ
pre_after p [] = p
pre_after p (c ∷ cs) = pre_after (push_pre p c) cs

-- The token on the way: the slash, then the segment.
abbrev pub token_of : Bytes → Bytes
token_of cur = reverse cur ++ b'/' ∷ []

-- The directory as the destination holds it.
abbrev pub flat : List Bytes → Bytes
flat [] = []
flat (x ∷ xs) = token_of x ++ flat xs

pub reverse-flat : (dir : List Bytes) → reverse (flat dir) ≡ path_of dir
unfolding path_of
reverse-flat [] = refl
reverse-flat (x ∷ xs) = simp (reverse-append, reverse-reverse, append_assoc, reverse-flat xs)

length-reverse : (xs : Bytes) → length (reverse xs) ≡ length xs
length-reverse [] = refl
length-reverse (x ∷ xs) =
    rw reverse-cons (omega (arith, length-append (reverse xs) (x ∷ []), length-reverse xs))

pub length-token_of : (cur : Bytes) → length (token_of cur) ≡ suc (length cur)
length-token_of cur = omega (arith, length-append (reverse cur) (b'/' ∷ []), length-reverse cur)

bottom-append : (xs : Bytes) (c : ℕ) → bottom (xs ++ c ∷ []) ≡ c
bottom-append [] c = refl
bottom-append (x ∷ []) c = refl
bottom-append (x ∷ y ∷ ys) c = bottom-append (y ∷ ys) c

-- Going back over a segment and its slash.
back_up-reverse :
    (xs rest : Bytes) (here : ℕ) → IsSegment xs → back_up (xs ++ b'/' ∷ rest) here ≡ (rest, b'/')
unfolding back_up
back_up-reverse [] [] here h = refl
back_up-reverse [] (r ∷ rs) here h = refl
back_up-reverse (x ∷ []) rest here h = ground (arith, back_up-reverse [] rest x tt)
back_up-reverse (x ∷ y ∷ ys) rest here h = ground (arith, back_up-reverse (y ∷ ys) rest x h.3)

-- The two tests on `pre` and the length tell the segments "..", "." and "".
never_here :
    (q : ℕ) (cs : Bytes) → q ≢ 0x2f2e → q % 256 ≢ b'/' → IsSegment cs → pre_after q cs ≢ 0x2f2e
never_here q [] h h' s = h
never_here q (c ∷ cs) h h' s =
    never_here (push_pre q c) cs (unfold push_pre in ground arith)
      (unfold push_pre in ground (arith, s.0, s.2)) s.3

token_tests :
    (p : ℕ) (cur : Bytes)
    → p % 256 ≡ b'/'
    → IsSegment cur
    → ((length (token_of cur) == 3 && pre_after p cur == 0x2e2e) ≡ is_up cur)
      × (is_up cur ≡ false
          → (length (token_of cur) == 1 || pre_after p cur == 0x2f2e) ≡ is_here cur)
unfolding is_up is_here push_pre
token_tests p [] e s = (refl, λ _. refl)
token_tests p (a ∷ []) e s = (refl, λ _. ground arith)
token_tests p (a ∷ b ∷ []) e s = (ground arith, λ _. ground arith)
token_tests p (a ∷ b ∷ c ∷ cs) e s =
    let long = length-token_of (a ∷ b ∷ c ∷ cs) in
    let never =
      never_here (push_pre (push_pre p a) b) (c ∷ cs) (ground arith) (ground arith) s.3.3 in
    (ground arith, λ _. ground arith)

pub IsSegment-append : (xs ys : Bytes) → IsSegment xs → IsSegment ys → IsSegment (xs ++ ys)
IsSegment-append [] ys h h' = h'
IsSegment-append (x ∷ xs) ys h h' = (h.0, h.1, h.2, IsSegment-append xs ys h.3 h')

pub IsSegment-reverse : (xs : Bytes) → IsSegment xs → IsSegment (reverse xs)
IsSegment-reverse [] h = tt
IsSegment-reverse (x ∷ xs) h =
    rw reverse-cons
      (IsSegment-append (reverse xs) (x ∷ []) (IsSegment-reverse xs h.3) (h.0, h.1, h.2, tt))

abbrev pub AllSegments : List Bytes → Type 0
AllSegments [] = Unit
AllSegments (x ∷ xs) = IsSegment x × AllSegments xs

-- Going back from the directory leaves its parent, and a slash stands at `out`.
back_up-flat :
    (dir : List Bytes) → AllSegments dir → back_up (flat dir) b'/' ≡ (flat (parent dir), b'/')
back_up-flat [] h = unfold back_up in refl
back_up-flat (x ∷ xs) h =
    rw append_assoc (back_up-reverse (reverse x) (flat xs) b'/' (IsSegment-reverse x h.0))

-- The destination after a segment, and the slash that a final one leaves behind.
pub close_token-enter :
    (c p : ℕ) (dir : List Bytes) (cur : Bytes)
    → p % 256 ≡ b'/'
    → AllSegments dir
    → IsSegment cur
    → close_token c (flat dir) (token_of cur) (pre_after p cur) ≡ (
        if is_up cur || is_here cur
        then (if c == 0 then b'/' ∷ flat (enter cur dir) else flat (enter cur dir))
        else flat (cur ∷ dir))
unfolding close_token enter
close_token-enter c p dir cur e h s =
    let (up, here) = token_tests p cur e s in
    let back = back_up-flat dir h in
    let slash : bottom (token_of cur) ≡ b'/' = bottom-append (reverse cur) b'/' in
    elim (Bool-cases (is_up cur)) [
      | inl u ↦ rw (up, slash, u, back) (ground arith)
      | inr u ↦ rw (up, slash, u, here u) (ground arith)
    ]
