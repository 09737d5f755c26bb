-- ===== src/Hibernate/Tests.antt =====
-- A server that slept in a round of the idle check.
use quetzal.Prelude.{
  ℕ, ◌*◌, ◌<◌, ◌^◌, arith, String, Bool, true, Option, some, [], ◌∷◌, ◌≡◌, Memᴰ, refl, str_eq,
}
use quetzal.Models.Server.{Server, running}
use quetzal.Models.Samples.{lobby}
use quetzal.Store.Db.{Db, find_server}
use quetzal.Store.Power.{hibernate_if_unchanged}
use quetzal.Hibernate.{visit, tick, idle_minutes_of}
use quetzal.Hibernate.Idle.{IsDue, tick-IsDue}

abbrev is_udp : String → Bool
is_udp protocol = str_eq protocol "UDP"

abbrev nobody : Server → Option ℕ
nobody srv = some 0

abbrev idle_lobby : Server
idle_lobby = record lobby {
  desired_state = running;
  last_active_at = some 40;
  ports =
      record { name = "game"; port = 25565; protocol = "TCP"; primary = true; node_port = 0 } ∷ [];
}

abbrev before : Db
before = record { now = 9; servers = idle_lobby ∷ []; backups = [] }

abbrev asleep : Server
asleep = record idle_lobby { hibernated = true; updated_at = 9 }

slept : find_server 1 (visit is_udp nobody 700000000000 idle_lobby before).servers ≡ some asleep
unfolding visit hibernate_if_unchanged
slept = refl

all_slept : find_server 1 (tick is_udp nobody 700000000000 before).servers ≡ some asleep
unfolding tick hibernate_if_unchanged
all_slept = refl

short : (srv : Server) → Memᴰ srv before.servers → idle_minutes_of srv * 60000000000 < 2 ^ 63
short srv (Memᴰ.head e) = rw e (omega arith)
short srv (Memᴰ.tail m) = elim m [ ]

tick-IsDue_example :
    (srv : Server) × Memᴰ srv before.servers × (srv.id ≡ 1) × IsDue is_udp nobody 700000000000 srv
tick-IsDue_example =
    tick-IsDue is_udp nobody 700000000000 1 before idle_lobby asleep short refl refl all_slept refl

-- An idle timeout of 200000000 minutes is negative in int64: the server sleeps at once.
abbrev patient : Server
patient = record idle_lobby {
  hibernation = record idle_lobby.hibernation { idle_minutes = 200000000 };
}
