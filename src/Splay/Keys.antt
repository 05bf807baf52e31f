-- ===== src/Splay/Keys.antt =====
-- Lists of entries by key: bounds, ascending order, and the insertion and removal of an entry.
use ylem.Base.{ℕ, ◌<◌, ◌≡◌, refl, List, [], ◌∷◌, ◌++◌, arith, ◌==◌, if◌then◌else◌}
use Prim.Native.Nat.{compare, Ordering}

module _ {V : Type 0} where
  abbrev pub AllLt : ℕ → List (ℕ × V) → Type 0
  AllLt i [] = Unit
  AllLt i ((k, v) ∷ xs) = (k < i) × AllLt i xs

  abbrev pub AllGt : ℕ → List (ℕ × V) → Type 0
  AllGt i [] = Unit
  AllGt i ((k, v) ∷ xs) = (i < k) × AllGt i xs

  abbrev pub Ascending : List (ℕ × V) → Type 0
  Ascending [] = Unit
  Ascending ((k, v) ∷ xs) = AllGt k xs × Ascending xs

  -- The entry goes before the first greater key; a key that is there keeps its data.
  unfoldable pub insert_entry : ℕ → V → List (ℕ × V) → List (ℕ × V)
  insert_entry i w [] = (i, w) ∷ []
  insert_entry i w ((k, v) ∷ xs) = elim (compare i k) [
    | Ordering.lt ↦ (i, w) ∷ (k, v) ∷ xs
    | Ordering.eq ↦ (k, v) ∷ xs
    | Ordering.gt ↦ (k, v) ∷ insert_entry i w xs
  ]

  unfoldable pub remove_entry : ℕ → List (ℕ × V) → List (ℕ × V)
  remove_entry i [] = []
  remove_entry i ((k, v) ∷ xs) = if i == k then remove_entry i xs else (k, v) ∷ remove_entry i xs

  pub AllLt-append : (i : ℕ) (xs ys : List (ℕ × V)) → AllLt i xs → AllLt i ys → AllLt i (xs ++ ys)
  AllLt-append i [] ys h h' = h'
  AllLt-append i ((k, v) ∷ xs) ys h h' = (h.0, AllLt-append i xs ys h.1 h')

  pub AllGt-append : (i : ℕ) (xs ys : List (ℕ × V)) → AllGt i xs → AllGt i ys → AllGt i (xs ++ ys)
  AllGt-append i [] ys h h' = h'
  AllGt-append i ((k, v) ∷ xs) ys h h' = (h.0, AllGt-append i xs ys h.1 h')

  pub AllGt-append_parts :
      (i : ℕ) (xs ys : List (ℕ × V)) → AllGt i (xs ++ ys) → AllGt i xs × AllGt i ys
  AllGt-append_parts i [] ys h = (tt, h)
  AllGt-append_parts i ((k, v) ∷ xs) ys h =
      let (a, b) = AllGt-append_parts i xs ys h.1 in ((h.0, a), b)

  pub AllLt-append_parts :
      (i : ℕ) (xs ys : List (ℕ × V)) → AllLt i (xs ++ ys) → AllLt i xs × AllLt i ys
  AllLt-append_parts i [] ys h = (tt, h)
  AllLt-append_parts i ((k, v) ∷ xs) ys h =
      let (a, b) = AllLt-append_parts i xs ys h.1 in ((h.0, a), b)

  pub AllLt-mono : (i j : ℕ) (xs : List (ℕ × V)) → i < j → AllLt i xs → AllLt j xs
  AllLt-mono i j [] h a = tt
  AllLt-mono i j ((k, v) ∷ xs) h a = (omega arith, AllLt-mono i j xs h a.1)

  pub AllGt-mono : (i j : ℕ) (xs : List (ℕ × V)) → j < i → AllGt i xs → AllGt j xs
  AllGt-mono i j [] h a = tt
  AllGt-mono i j ((k, v) ∷ xs) h a = (omega arith, AllGt-mono i j xs h a.1)

  -- An entry in an ascending list divides it.
  pub Ascending-split :
      (xs : List (ℕ × V)) (k : ℕ) (v : V) (ys : List (ℕ × V))
      → Ascending (xs ++ (k, v) ∷ ys)
      → Ascending xs × AllLt k xs × AllGt k ys × Ascending ys
  Ascending-split [] k v ys h = (tt, tt, h.0, h.1)
  Ascending-split ((j, u) ∷ xs) k v ys h =
      let (gx, gy) = AllGt-append_parts j xs ((k, v) ∷ ys) h.0 in
      let (a, b, c, d) = Ascending-split xs k v ys h.1 in ((gx, a), (gy.0, b), c, d)

  pub insert_entry-skip :
      (i : ℕ) (w : V) (xs ys : List (ℕ × V))
      → AllLt i xs
      → insert_entry i w (xs ++ ys) ≡ xs ++ insert_entry i w ys
  unfolding insert_entry
  insert_entry-skip i w [] ys h = refl
  insert_entry-skip i w ((k, v) ∷ xs) ys h = ground (arith, insert_entry-skip i w xs ys h.1)

  pub insert_entry-front :
      (i : ℕ) (w : V) (xs : List (ℕ × V)) → AllGt i xs → insert_entry i w xs ≡ (i, w) ∷ xs
  unfolding insert_entry
  insert_entry-front i w [] h = refl
  insert_entry-front i w ((k, v) ∷ xs) h = ground arith

  pub remove_entry-lt : (i : ℕ) (xs : List (ℕ × V)) → AllLt i xs → remove_entry i xs ≡ xs
  unfolding remove_entry
  remove_entry-lt i [] h = refl
  remove_entry-lt i ((k, v) ∷ xs) h = ground (arith, remove_entry-lt i xs h.1)

  pub remove_entry-gt : (i : ℕ) (xs : List (ℕ × V)) → AllGt i xs → remove_entry i xs ≡ xs
  unfolding remove_entry
  remove_entry-gt i [] h = refl
  remove_entry-gt i ((k, v) ∷ xs) h = ground (arith, remove_entry-gt i xs h.1)

  pub remove_entry-append :
      (i : ℕ) (xs ys : List (ℕ × V))
      → remove_entry i (xs ++ ys) ≡ remove_entry i xs ++ remove_entry i ys
  unfolding remove_entry
  remove_entry-append i [] ys = refl
  remove_entry-append i ((k, v) ∷ xs) ys = ground (arith, remove_entry-append i xs ys)

  -- No entry is both below and above.
  pub AllLt-AllGt-nil : (i : ℕ) (xs : List (ℕ × V)) → AllLt i xs → AllGt i xs → xs ≡ []
  AllLt-AllGt-nil i [] h h' = refl
  AllLt-AllGt-nil i ((k, v) ∷ xs) h h' = absurd (omega arith)
