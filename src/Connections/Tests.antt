-- ===== src/Connections/Tests.antt =====
-- The theorems on the array of connections at concrete arrays.
use ylem.Base.{
  ℕ, zero, suc, ◌+◌, ◌≡◌, ◌≢◌, ◌↔◌, ◌⊎◌, refl, inl, inr, ap, sym, ◌∙◌, pos, none, some, [], ◌∷◌,
  get_elem?, ◌==◌, if◌then◌else◌, arith,
}
use ylem.Connections.{Connections, no_connections, get_new_connection, connection_del}
use ylem.Connections.Slots.{IsValid, no_connections-IsValid, get_new_connection_lem}
use ylem.Connections.Deletion.{connection_del_lem}

get_new_connection_lem_example :
    (con : ℕ) × (r : Connections) × (get_new_connection no_connections ≡ some (con, r))
    × IsValid r
    × (no_connections.ndx con ≡ none)
    × (r.ndx con ≡ some 0)
    × (r.used ≡ 1)
    × ((x : ℕ) → x ≢ con → r.ndx x ≡ none)
get_new_connection_lem_example = get_new_connection_lem no_connections no_connections-IsValid

-- Two connections in use and one that is not.
abbrev two : Connections
two = record {
  ptr = 7 ∷ 8 ∷ 6 ∷ [];
  size = 3;
  used = 2;
  ndx = λ x. if x == 7 then some 0 else if x == 8 then some 1 else none;
  next_addr = 9;
}

two-look :
    (i x : ℕ)
    → get_elem? two.ptr i ≡ some x
    → (i ≡ 0) × (x ≡ 7) ⊎ (i ≡ 1) × (x ≡ 8) ⊎ (i ≡ 2) × (x ≡ 6)
two-look zero x e = ground arith
two-look (suc zero) x e = ground arith
two-look (suc (suc zero)) x e = ground arith
two-look (suc (suc (suc i))) x e = absurd (ground arith)

two-placed : (x i : ℕ) → two.ndx x ≡ some i → (x ≡ 7) × (i ≡ 0) ⊎ (x ≡ 8) × (i ≡ 1)
two-placed x i e = ground arith

two-IsValid : IsValid two
two-IsValid = record {
  sized = refl;
  few = omega arith;
  once = λ i j x e f. ground (arith, two-look i x e, two-look j x f);
  live = λ i x l e. ground (arith, two-look i x e);
  idle = λ i x l e. ground (arith, two-look i x e);
  placed = λ x i e. elim (two-placed x i e) [
    | inl p ↦ (omega (arith, p), ap (get_elem? two.ptr) p.1 ∙ ap some (sym p.0))
    | inr p ↦ (omega (arith, p), ap (get_elem? two.ptr) p.1 ∙ ap some (sym p.0))
  ];
  old = λ i x e. ground (arith, two-look i x e);
}

connection_del_lem_example :
    (r : Connections) × (connection_del two 7 ≡ some (pos 0, r))
    × IsValid r
    × (r.used + 1 ≡ 2)
    × (r.ndx 7 ≡ none)
    × ((x : ℕ) → x ≢ 7 → (r.ndx x ≡ none) ↔ (two.ndx x ≡ none))
connection_del_lem_example = connection_del_lem two 0 7 two-IsValid refl
