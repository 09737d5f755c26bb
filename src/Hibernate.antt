-- ===== src/Hibernate.antt =====
-- The idle check that scales servers to zero (internal/hibernate/hibernate.go).
pub mod Idle
pub mod Overflow
mod Tests
use quetzal.Prelude.{
  ℕ, String, Bool, true, false, not, ◌&&◌, ◌||◌, Option, none, some, List, [], ◌∷◌, ◌+◌, ◌-◌, ◌*◌,
  ◌%◌, ◌^◌, ◌==◌, if◌then◌else◌, ltb, leb, any,
}
use quetzal.Models.Server.{Server, PortSpec, running, is_state}
use quetzal.Store.Db.{Db}
use quetzal.Store.Power.{update_last_active, hibernate_if_unchanged}

abbrev pub default_idle_minutes : ℕ
default_idle_minutes = 15

-- A value of 0 stands for any that is not positive.
abbrev pub idle_minutes_of : Server → ℕ
idle_minutes_of srv =
    if srv.hibernation.idle_minutes == 0 then default_idle_minutes else srv.hibernation.idle_minutes

-- `time.Duration(m) * time.Minute`, the int64 modulo 2^64: from 2^63 on it stands for a negative
-- number.
unfoldable pub idle_window : Server → ℕ
idle_window srv = (idle_minutes_of srv * 60000000000) % 2 ^ 64

-- `now.Sub(t) >= window` for an int64 modulo 2^64, with times that are less than 292 years apart.
abbrev pub elapsed : ℕ → ℕ → ℕ → Bool
elapsed now t window =
    if ltb window (2 ^ 63) then leb (t + window) now else leb t (now + (2 ^ 64 - window))

abbrev has_ports : List PortSpec → Bool
has_ports [] = false
has_ports (p ∷ ps) = true

-- What is done for a server without connections.
unfoldable pub found_idle : ℕ → Server → Option ℕ → Db → Db
unfolding idle_window
found_idle now srv none db = update_last_active srv.id now db
found_idle now srv (some t) db =
    if elapsed now t (idle_window srv) then (hibernate_if_unchanged srv db).0 else db

unfoldable pub probed : ℕ → Server → Option ℕ → Db → Db
unfolding found_idle
probed now srv none db = db
probed now srv (some conns) db =
    if ltb 0 conns
    then update_last_active srv.id now db
    else found_idle now srv srv.last_active_at db

-- `is_udp` is `strings.EqualFold(_, "UDP")`. The probe gives the established connections of a server
-- to its ports, or `none` where they cannot be measured.
module _ (is_udp : String → Bool) (probe : Server → Option ℕ) where
  unfoldable pub measurable_ports : Server → Bool
  measurable_ports srv = has_ports srv.ports && not (any (λ p. is_udp p.protocol) srv.ports)

  unfoldable pub eligible : Server → Bool
  unfolding measurable_ports
  eligible srv =
      if not srv.hibernation.enabled || (not (is_state srv.desired_state running) || srv.hibernated)
      then false
      else if srv.hibernation.proxy
      then has_ports srv.ports
      else measurable_ports srv

  -- A round of the loop, on a server as the list had it.
  unfoldable pub visit : ℕ → Server → Db → Db
  unfolding eligible probed found_idle
  visit now srv db =
      if not (eligible srv)
      then db
      else if srv.hibernation.proxy
      then found_idle now srv srv.last_active_at db
      else probed now srv (probe srv) db

  unfoldable pub visit_all : ℕ → List Server → Db → Db
  unfolding visit
  visit_all now [] db = db
  visit_all now (srv ∷ rest) db = visit_all now rest (visit now srv db)

  unfoldable pub tick : ℕ → Db → Db
  unfolding visit_all
  tick now db = visit_all now db.servers db
