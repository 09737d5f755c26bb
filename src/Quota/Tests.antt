-- ===== src/Quota/Tests.antt =====
-- Requests against an account's quotas, and the results of Quota on them.
use quetzal.Prelude.{
  ℕ, false, none, some, [], ◌∷◌, ◌≡◌, ◌≤◌, ◌↔◌, if◌then◌else◌, str_eq, ltb, ok, arith, refl,
  is_blank, is_space,
}
use quetzal.Models.Server.{Server, Resources}
use quetzal.Models.User.{User}
use quetzal.Models.Samples.{ada, lobby}
use quetzal.Store.Db.{Db, update_server}
use quetzal.Quota.{
  Quantities, handle_create_server, within_resource_quota, memory_total, cpu_total,
  validate_resources, creation_quota, creation_check, require_limits, create_attempts, sum_from,
  named,
}
use quetzal.Store.Servers.{create_server_checked, create_server, lock_owner_servers}
use quetzal.Models.User.{has_admin_perm, contains}
use quetzal.Quota.Laws.{owned_count}
use quetzal.Quota.Count.{created, written, more, done, Changes-count}
use quetzal.Quota.Overflow.{Fits, within_resource_quota_iff, cpu_overflow-within}

-- Three quantities, each with its value and its milli value.
abbrev some_quantities : Quantities
some_quantities = record {
  Quantity = ℕ × ℕ;
  parse_quantity = λ s.
      if str_eq s "2Gi"
      then some (2147483648, 2147483648000)
      else if str_eq s "1"
      then some (1, 1000)
      else if str_eq s "9223372036854775"
      then some (9223372036854775, 9223372036854775000)
      else none;
  below_min_memory = λ m. ltb m.0 4194304;
  is_negative = λ c. false;
  is_positive = λ c. ltb 0 c.0;
  value = λ m. m.0;
  milli_value = λ m. m.1;
}

-- One server of at most one core in all.
abbrev grace : User
grace = record ada { max_servers = some 1; max_cpu_milli = some 1000 }

abbrev empty : Db
empty = record { now = 7; servers = []; backups = [] }

abbrev asked : Server
asked = record lobby { slug = ""; namespace = "" }

abbrev arena : Server
arena = record (named "arena" "x1" (record asked { owner_id = 2 })) {
  id = 5;
  created_at = 7;
  updated_at = 7;
}

abbrev with_arena : Db
with_arena = record empty { servers = arena ∷ [] }

arena_created :
    handle_create_server some_quantities grace (grace ∷ []) 5 "arena" asked ("x1" ∷ []) empty
    ≡ ok with_arena
unfolding handle_create_server validate_resources creation_quota creation_check require_limits
    create_attempts is_blank sum_from create_server_checked create_server lock_owner_servers
    has_admin_perm contains within_resource_quota memory_total cpu_total is_space
arena_created = refl

abbrev renamed : Server → Server
renamed s = record s { display_name = "Arena" }

Changes-count_example : owned_count 2 (update_server 5 renamed with_arena).servers ≤ 1
unfolding has_admin_perm contains
Changes-count_example =
    Changes-count some_quantities (grace ∷ []) 2 grace 1 refl refl refl
      (more (created 2 grace 5 "arena" asked ("x1" ∷ []) refl arena_created)
        (more (written 5 renamed (λ s. refl)) done))
      (omega arith)

abbrev one_core : Resources
one_core = record { memory = "2Gi"; cpu = "1" }

-- A second core is one too many.
within_resource_quota_iff_example :
    (within_resource_quota some_quantities grace (arena ∷ []) one_core ≡ ok tt)
    ↔ (Fits 4096 none × Fits 2000 (some 1000))
unfolding memory_total cpu_total
within_resource_quota_iff_example =
    within_resource_quota_iff some_quantities grace (arena ∷ []) one_core (omega arith)
      (omega arith) tt (omega arith)

abbrev huge : Resources
huge = record { memory = "2Gi"; cpu = "9223372036854775" }

cpu_overflow-within_example : within_resource_quota some_quantities grace (arena ∷ []) huge ≡ ok tt
unfolding memory_total cpu_total
cpu_overflow-within_example =
    cpu_overflow-within some_quantities grace (arena ∷ []) huge 1000 refl refl (omega arith)
      (omega arith) (omega arith) (omega arith)
