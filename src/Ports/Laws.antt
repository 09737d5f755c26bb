-- ===== src/Ports/Laws.antt =====
-- What the pool promises to the servers that hold its ports.
use quetzal.Prelude.{
  ℕ, String, Bool, true, false, not, List, [], ◌+◌, ◌-◌, ◌==◌, ==_self, ◌≡◌, ◌≤◌, if◌then◌else◌,
  ltb, first, count, Error, ok, err, arith, Option-cases, inl, inr, refl, str_eq, eq_iff,
}
use quetzal.Ports.{
  PortAllocation, used, held_by, scan, allocate_node_port, set_aside, set_aside_node_port,
  release_node_port, rename_node_port, release_server_ports, or_default, default_node_port_min,
  default_node_port_max,
}
use quetzal.Ports.Range.{scan_complete}
use quetzal.Ports.Pool.{
  IsPool, NotOn-unused, update-IsPool, set_aside-IsPool, release_node_port-IsPool,
  release_server_ports-IsPool, allocate_node_port-eq,
}

pub allocate_node_port-IsPool :
    (server : ℕ) (name : String) (min max start : ℕ) (rows rows' : List PortAllocation) (p : ℕ)
    → allocate_node_port server name min max start rows ≡ ok (p, rows')
    → IsPool rows
    → IsPool rows'
allocate_node_port-IsPool server name min max start rows rows' p h pool =
    elim (allocate_node_port-eq server name min max start rows rows' p h) [
      | inl (r, held, at, same) ↦ rw same pool
      | inr (new, unused, low, high, added) ↦ rw added (NotOn-unused p rows unused, pool)
    ]

if_IsPool :
    (b : Bool) (xs ys : List PortAllocation) → IsPool xs → IsPool ys → IsPool (if b then xs else ys)
if_IsPool true xs ys h k = h
if_IsPool false xs ys h k = k

rename_node_port-IsPool :
    (server : ℕ) (from to : String) (rows : List PortAllocation)
    → IsPool rows
    → IsPool (rename_node_port server from to rows)
unfolding rename_node_port
rename_node_port-IsPool server from to rows pool = if_IsPool (str_eq from "") _ _ pool (
    if_IsPool (str_eq to "") _ _ pool (
      if_IsPool (str_eq from to) _ _ pool (
        if_IsPool (not (count (held_by server to) rows == 0)) _ _ pool (
          update-IsPool (held_by server from) (λ r. record r { port_name = to }) (λ r. refl) rows
            pool))))

-- The operations of the pool, as the controller and the API make them.
pub data PoolStep (rows : List PortAllocation) : List PortAllocation → Type 0 where
  allocates :
      {rows' : List PortAllocation} (server : ℕ) (name : String) (min max start p : ℕ)
      → allocate_node_port server name min max start rows ≡ ok (p, rows')
      → PoolStep rows rows'
  sets_aside :
      {rows' : List PortAllocation} (server : ℕ) (key : String) (taken min max start p : ℕ)
      → set_aside_node_port server key taken min max start rows ≡ ok (p, rows')
      → PoolStep rows rows'
  releases : (server : ℕ) (name : String) → PoolStep rows (release_node_port server name rows)
  renames : (server : ℕ) (from to : String) → PoolStep rows (rename_node_port server from to rows)
  drops : (server : ℕ) → PoolStep rows (release_server_ports server rows)

pub PoolStep-IsPool :
    {rows rows' : List PortAllocation} → PoolStep rows rows' → IsPool rows → IsPool rows'
unfolding set_aside_node_port
PoolStep-IsPool {rows} {rows'} (allocates server name min max start p h) pool =
    allocate_node_port-IsPool server name min max start rows rows' p h pool
PoolStep-IsPool {rows} {rows'} (sets_aside server key taken min max start p h) pool =
    allocate_node_port-IsPool server key min max start (set_aside server key taken rows) rows' p h
      (set_aside-IsPool server key taken rows pool)
PoolStep-IsPool {rows} (releases server name) pool = release_node_port-IsPool server name rows pool
PoolStep-IsPool {rows} (renames server from to) pool =
    rename_node_port-IsPool server from to rows pool
PoolStep-IsPool {rows} (drops server) pool = release_server_ports-IsPool server rows pool

pub data PoolReach (rows : List PortAllocation) : List PortAllocation → Type 0 where
  here : PoolReach rows rows
  next :
      {rows' rows'' : List PortAllocation}
      → PoolReach rows rows'
      → PoolStep rows' rows''
      → PoolReach rows rows''

-- Whatever the operations on an empty pool, no two of its rows hold one node port.
pub PoolReach-IsPool : {rows : List PortAllocation} → PoolReach [] rows → IsPool rows
PoolReach-IsPool here = tt
PoolReach-IsPool (next r st) = PoolStep-IsPool st (PoolReach-IsPool r)

-- An allocation fails for want of a port only if every port of the range is used.
pub allocate_node_port-full :
    (server : ℕ) (name : String) (min max start : ℕ) (rows : List PortAllocation) (p : ℕ)
    → allocate_node_port server name min max start rows ≡ err Error.no_free_node_port
    → or_default min default_node_port_min ≤ p
    → p ≤ or_default max default_node_port_max
    → used rows p ≡ true
unfolding allocate_node_port
allocate_node_port-full server name min max start rows p h low high =
    let lo : ℕ = or_default min default_node_port_min in
    let hi : ℕ = or_default max default_node_port_max in
    let wide : ltb hi lo ≡ false = ground arith in
    elim (Option-cases (first (held_by server name) rows)) [
      | inr (r, held) ↦ absurd (ground (arith, wide, held))
      | inl new ↦ elim (Option-cases (scan rows lo (hi - lo + 1) start (hi - lo + 1) 0)) [
        | inl full ↦ scan_complete rows lo (hi - lo + 1) start p full low (omega arith)
        | inr (q, free) ↦ absurd (ground (arith, wide, new, free))
      ]
    ]

-- A port that was allocated is given again for its server and name, whatever the range and the
-- draw, and the pool stays as it is.
pub allocate_node_port_again :
    (server : ℕ) (name : String) (min max start : ℕ) (rows rows' : List PortAllocation)
    (p min' max' start' : ℕ)
    → allocate_node_port server name min max start rows ≡ ok (p, rows')
    → or_default min' default_node_port_min ≤ or_default max' default_node_port_max
    → allocate_node_port server name min' max' start' rows' ≡ ok (p, rows')
unfolding allocate_node_port
allocate_node_port_again server name min max start rows rows' p min' max' start' h range =
    elim (allocate_node_port-eq server name min max start rows rows' p h) [
      | inl (r, held, at, same) ↦ rw same (ground (arith, held, at))
      | inr (new, unused, low, high, added) ↦
          rw added (ground (arith, ==_self server, (eq_iff name name).1 refl))
    ]
