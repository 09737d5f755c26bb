-- ===== src/Ports.antt =====
-- The pool of node ports (internal/store/store.go, "Node port pool"; internal/models/portalloc.go).
-- The functions are transactions on the table of allocations.
pub mod Range
pub mod Pool
pub mod Laws
pub mod Outside
mod Tests
use quetzal.Prelude.{
  ℕ, zero, suc, String, Bool, true, false, not, ◌&&◌, Option, none, some, List, [], ◌∷◌, ◌+◌, ◌-◌,
  ◌%◌, ◌==◌, if◌then◌else◌, ltb, first, update, delete, any, count, Result, Error, ok, err, ◌>>=◌,
  str_eq,
}

pub record PortAllocation : Type 0 where
  pub node_port : ℕ
  pub server_id : ℕ
  pub port_name : String

abbrev pub default_node_port_min : ℕ
default_node_port_min = 30000

abbrev pub default_node_port_max : ℕ
default_node_port_max = 32767

abbrev pub or_default : ℕ → ℕ → ℕ
or_default bound default = if bound == 0 then default else bound

abbrev pub held_by : ℕ → String → PortAllocation → Bool
held_by server name r = (r.server_id == server) && str_eq r.port_name name

abbrev pub on_port : ℕ → PortAllocation → Bool
on_port p r = r.node_port == p

abbrev pub used : List PortAllocation → ℕ → Bool
used rows p = any (on_port p) rows

-- The `for` of `allocateNodePort`, with `rounds` left: `start + i` wraps round the span.
unfoldable pub scan : List PortAllocation → ℕ → ℕ → ℕ → ℕ → ℕ → Option ℕ
scan rows min span start zero i = none
scan rows min span start (suc rounds) i =
    let later = scan rows min span start rounds (i + 1) in
    let p : ℕ = min + (start + i) % span in if used rows p then later else some p

-- `start` is the number that `randRange` draws.
take_port : ℕ → String → ℕ → ℕ → ℕ → List PortAllocation → Result (ℕ × List PortAllocation)
take_port server name min max start rows =
    let span : ℕ = max - min + 1 in
    elim (scan rows min span start span 0) [
      | none ↦ err Error.no_free_node_port
      | some p ↦ ok (p, record { node_port = p; server_id = server; port_name = name } ∷ rows)
    ]

-- A bound of 0, or below, is the default's.
unfoldable pub allocate_node_port :
    ℕ → String → ℕ → ℕ → ℕ → List PortAllocation → Result (ℕ × List PortAllocation)
unfolding take_port
allocate_node_port server name min max start rows =
    let lo : ℕ = or_default min default_node_port_min in
    let hi : ℕ = or_default max default_node_port_max in
    if ltb hi lo
    then err Error.invalid_node_port_range
    else elim (first (held_by server name) rows) [
      | some r ↦ ok (r.node_port, rows)
      | none ↦ take_port server name lo hi start rows
    ]

abbrev pub taken_node_port : String
taken_node_port = "taken-outside"

abbrev pub outside : PortAllocation → PortAllocation
outside r = record r { server_id = 0; port_name = taken_node_port }

-- What `SetAsideNodePort` does with the port that the cluster refused.
unfoldable pub set_aside : ℕ → String → ℕ → List PortAllocation → List PortAllocation
set_aside server key taken rows = elim (first (on_port taken) rows) [
  | none ↦ record { node_port = taken; server_id = 0; port_name = taken_node_port } ∷ rows
  | some held ↦ if held_by server key held then update (on_port taken) outside rows else rows
]

unfoldable pub set_aside_node_port :
    ℕ → String → ℕ → ℕ → ℕ → ℕ → List PortAllocation → Result (ℕ × List PortAllocation)
unfolding set_aside allocate_node_port
set_aside_node_port server key taken min max start rows =
    allocate_node_port server key min max start (set_aside server key taken rows)

unfoldable pub release_node_port : ℕ → String → List PortAllocation → List PortAllocation
release_node_port server name rows = delete (held_by server name) rows

unfoldable pub rename_node_port : ℕ → String → String → List PortAllocation → List PortAllocation
rename_node_port server from to rows =
    if str_eq from ""
    then rows
    else if str_eq to ""
    then rows
    else if str_eq from to
    then rows
    else if not (count (held_by server to) rows == 0)
    then rows
    else update (held_by server from) (λ r. record r { port_name = to }) rows

unfoldable pub release_server_ports : ℕ → List PortAllocation → List PortAllocation
release_server_ports server rows = delete (λ r. r.server_id == server) rows
