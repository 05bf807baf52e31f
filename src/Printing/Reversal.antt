-- ===== src/Printing/Reversal.antt =====
-- Exchanging the ends from the outside to the middle reverses a text.
use ylem.Base.{
  ℕ, zero, suc, ◌≤◌, ◌≡◌, refl, sym, ap, ◌∙◌, Bytes, [], ◌∷◌, ◌++◌, length, reverse, reverse-cons,
  arith,
}
use ylem.Printing.{split_last, swap_ends}

split_last-append :
    (x : ℕ) (s : Bytes)
    → let (m, z) = split_last x s in (x ∷ s ≡ m ++ z ∷ []) × (length m ≡ length s)
unfolding split_last
split_last-append x [] = (refl, refl)
split_last-append x (y ∷ s) = let (e, l) = split_last-append y s in (ap (λ t. x ∷ t) e, ap suc l)

reverse-last : (m : Bytes) (z : ℕ) → reverse (m ++ z ∷ []) ≡ z ∷ reverse m
reverse-last [] z = refl
reverse-last (x ∷ m) z =
    reverse-cons x (m ++ z ∷ [])
    ∙ ap (λ t. t ++ x ∷ []) (reverse-last m z)
    ∙ ap (λ t. z ∷ t) (sym (reverse-cons x m))

pub swap_ends-reverse : (fuel : ℕ) (s : Bytes) → length s ≤ fuel → swap_ends fuel s ≡ reverse s
unfolding swap_ends
swap_ends-reverse zero [] h = refl
swap_ends-reverse zero (x ∷ s) h = absurd (omega arith)
swap_ends-reverse (suc fuel) [] h = refl
swap_ends-reverse (suc fuel) (x ∷ []) h = refl
swap_ends-reverse (suc fuel) (x ∷ y ∷ s) h =
    let (m, z) = split_last y s in
    let (e, l) = split_last-append y s in
    ap (λ t. z ∷ (t ++ x ∷ [])) (swap_ends-reverse fuel m (omega arith))
    ∙ ap (λ t. t ++ x ∷ []) (sym (reverse-last m z))
    ∙ ap (λ t. reverse t ++ x ∷ []) (sym e)
    ∙ sym (reverse-cons x (y ∷ s))
