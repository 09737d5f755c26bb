-- ===== src/Ports/Tests.antt =====
-- A pool with two ports of a server, and the results of Ports on it.
use quetzal.Prelude.{
  ℕ, true, false, List, [], ◌∷◌, ◌≡◌, ◌≢◌, Error, ok, err, refl, arith, eq_iff, false, true,
}
use quetzal.Ports.{PortAllocation, scan, allocate_node_port, set_aside_node_port, taken_node_port}
use quetzal.Ports.Pool.{IsPool}
use quetzal.Ports.Laws.{PoolStep, PoolReach, PoolReach-IsPool}

abbrev game : PortAllocation
game = record { node_port = 30000; server_id = 1; port_name = "game" }

abbrev query : PortAllocation
query = record { node_port = 30001; server_id = 1; port_name = "query" }

abbrev pool : List PortAllocation
pool = query ∷ game ∷ []

first_ok : allocate_node_port 1 "game" 30000 30001 0 [] ≡ ok (30000, game ∷ [])
unfolding allocate_node_port scan
first_ok = refl

-- The draw starts at the used port and the scan goes on to the next.
second_ok : allocate_node_port 1 "query" 30000 30001 0 (game ∷ []) ≡ ok (30001, pool)
unfolding allocate_node_port scan
second_ok = refl

PoolReach-IsPool_example : IsPool pool
PoolReach-IsPool_example = PoolReach-IsPool (
    PoolReach.next
      (PoolReach.next PoolReach.here (PoolStep.allocates 1 "game" 30000 30001 0 30000 first_ok))
      (PoolStep.allocates 1 "query" 30000 30001 0 30001 second_ok))

full_error : allocate_node_port 2 "game" 30000 30001 1 pool ≡ err Error.no_free_node_port
unfolding allocate_node_port scan
full_error = refl

abbrev moved : List PortAllocation
moved =
    record { node_port = 30001; server_id = 1; port_name = "game" }
    ∷ record { node_port = 30000; server_id = 0; port_name = taken_node_port }
    ∷ []

moved_ok : set_aside_node_port 1 "game" 30000 30000 30001 0 (game ∷ []) ≡ ok (30001, moved)
unfolding set_aside_node_port scan
moved_ok = refl

named : "game" ≢ taken_node_port
named = λ e. let same : false ≡ true = (eq_iff "game" taken_node_port).1 e in ground (arith, same)

abbrev other_port : ℕ
other_port = 30001
