-- ===== src/Connections.antt =====
-- The array of connections: `connections_get_new_connection` and `connection_del` of
-- storage/src/lighttpd/src/connections.c. A connection
-- has an address, since the array, the lists and the event handlers point to the same one; of its
-- fields, `ndx` is kept, none for -1. `malloc` and `realloc` succeed.
pub mod Slots
pub mod Removal
pub mod Deletion
mod Tests
use ylem.Base.{
  ℕ, zero, suc, ◌+◌, ◌-◌, ◌≡◌, ℤ, pos, negsuc, Bool, true, false, Option, none, some, List, [], ◌∷◌,
  ◌++◌, length, take, drop, get_elem?, set, ◌==◌, if◌then◌else◌, ◌>>=◌,
}

-- `srv->conns`, with `ndx` of the connection at each address, and the address that
-- `connection_init` returns next.
pub record Connections : Type 0 where
  pub ptr : List ℕ
  pub size : ℕ
  pub used : ℕ
  pub ndx : ℕ → Option ℕ
  pub next_addr : ℕ

abbrev pub no_connections : Connections
no_connections = record { ptr = []; size = 0; used = 0; ndx = λ x. none; next_addr = 0 }

-- `n` calls of `connection_init`.
unfoldable pub fresh : ℕ → ℕ → List ℕ
fresh zero addr = []
fresh (suc n) addr = addr ∷ fresh n (addr + 1)

unfoldable pub set_ndx : ℕ → Option ℕ → (ℕ → Option ℕ) → ℕ → Option ℕ
set_ndx x v f y = if y == x then v else f y

-- Room for one more.
unfoldable pub grow : Connections → Connections
unfolding fresh
grow conns =
    if conns.size == 0
    then record conns {
      size = 128;
      ptr = fresh 128 conns.next_addr;
      next_addr = conns.next_addr + 128;
    }
    else if conns.size == conns.used
    then record conns {
      size = conns.size + 128;
      ptr = take conns.used conns.ptr ++ fresh 128 conns.next_addr;
      next_addr = conns.next_addr + 128;
    }
    else conns

-- The fields that `connection_reset` clears are not kept here.
unfoldable pub get_new_connection : Connections → Option (ℕ × Connections)
unfolding grow set_ndx
get_new_connection conns =
    let c = grow conns in
    get_elem? c.ptr c.used >>= λ con.
    some (con, record c { ndx = set_ndx con (some c.used) c.ndx; used = c.used + 1 })

-- The connection at `i` and the last one change places.
unfoldable pub swap_last : Connections → ℕ → Option Connections
unfolding set_ndx
swap_last conns i = do
  let last = conns.used - 1
  temp ← get_elem? conns.ptr i
  other ← get_elem? conns.ptr last
  let ptr' = set (set conns.ptr i other) last temp
  a ← get_elem? ptr' i
  let ndx' = set_ndx a (some i) conns.ndx
  b ← get_elem? ptr' last
  some (record conns { ptr = ptr'; ndx = set_ndx b none ndx' })

-- The connection is not NULL. Returns -1 for one that is not in use.
unfoldable pub connection_del : Connections → ℕ → Option (ℤ × Connections)
unfolding swap_last set_ndx
connection_del conns con = elim (conns.ndx con) [
  | none ↦ some (negsuc 0, conns)
  | some i ↦ (if i == conns.used - 1 then some conns else swap_last conns i) >>= λ c.
      some (pos 0, record c { used = c.used - 1; ndx = set_ndx con none c.ndx })
]
