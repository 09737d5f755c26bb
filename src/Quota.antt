-- ===== src/Quota.antt =====
-- The quotas of an account on its servers' number, memory and CPU (internal/api/handlers.go) in the
-- creation and the resizing of a server. A request is made against the table of accounts that it
-- read. Kubernetes' resource.Quantity is an argument, with its own methods; an int64 is its
-- residue below 2 ^ 64, and its sums wrap around as Go's do.
pub mod Laws
pub mod Overflow
pub mod Count
mod Tests
use quetzal.Prelude.{
  ℕ, zero, suc, String, Bool, true, false, not, ◌&&◌, ◌||◌, Option, none, some, List, [], ◌∷◌, ◌+◌,
  ◌-◌, ◌*◌, ◌/◌, ◌%◌, ◌^◌, ◌==◌, if◌then◌else◌, ltb, leb, length, take, first, is_none, is_some,
  Result, Error, ok, err, refuse_if, ◌>>=◌, ◌>>◌, str_eq, str_append, is_blank,
}
use quetzal.Models.Server.{Server, Resources}
use quetzal.Models.User.{User, has_admin_perm}
use quetzal.Store.Db.{Db}
use quetzal.Store.Servers.{
  Check, create_server_checked, update_server_resources, update_server_resources_checked,
}

-- Machine integers.

abbrev pub negative : ℕ → Bool
negative a = leb (2 ^ 63) a

abbrev pub add64 : ℕ → ℕ → ℕ
add64 a b = (a + b) % 2 ^ 64

-- `a < b` on int64.
abbrev pub less64 : ℕ → ℕ → Bool
less64 a b = if negative a then not (negative b) || ltb a b else not (negative b) && ltb a b

-- `a / n` on int64, which rounds towards 0, for a positive `n`.
abbrev pub quotient64 : ℕ → ℕ → ℕ
quotient64 a n = if negative a then (2 ^ 64 - (2 ^ 64 - a) / n) % 2 ^ 64 else a / n

-- What the code uses of resource.Quantity: `CmpInt64` with the smallest memory limit, `Sign`,
-- `Value` and `MilliValue`, the last two as int64.
pub record Quantities : Type 1 where
  pub Quantity : Type 0
  pub parse_quantity : String → Option Quantity
  pub below_min_memory : Quantity → Bool
  pub is_negative : Quantity → Bool
  pub is_positive : Quantity → Bool
  pub value : Quantity → ℕ
  pub milli_value : Quantity → ℕ

-- `Bounded(u.MaxServers) && len(owned)+1 > u.MaxServers`.
abbrev pub over_count : Option ℕ → ℕ → Bool
over_count none owned = false
over_count (some quota) owned = ltb quota (owned + 1)

abbrev pub is_zero : Option ℕ → Bool
is_zero none = false
is_zero (some quota) = quota == 0

abbrev pub named : String → String → Server → Server
named base suffix srv =
    let slug = str_append base (str_append "-" suffix) in
    record srv { slug = slug; namespace = str_append "quetzal-srv-" slug }

-- What an attempt decides, given those that follow it.
abbrev pub or_next : Result Db → Result Db → Result Db
or_next (err Error.duplicate) rest = rest
or_next other rest = other

-- The attempts of `handleCreateServer`, each with a random suffix of the slug.
unfoldable pub create_attempts :
    Option Check → List User → ℕ → String → Server → List String → Db → Result Db
unfolding create_server_checked
create_attempts check users new_id base srv [] db = err Error.no_unique_slug
create_attempts check users new_id base srv (suffix ∷ suffixes) db =
    or_next (create_server_checked check users new_id (named base suffix srv) db)
      (create_attempts check users new_id base srv suffixes db)

abbrev pub resized : Option Check → List User → Server → Resources → Db → Result Db
resized none users srv r db = ok (update_server_resources srv.id r db)
resized (some check) users srv r db =
    update_server_resources_checked srv.id srv.owner_id r check users db

abbrev pub bounded_resources : User → Bool
bounded_resources u = is_some u.max_memory_mb || is_some u.max_cpu_milli

-- `Bounded(quota) && sum > quota`.
abbrev pub exceeds : ℕ → Option ℕ → Bool
exceeds sum none = false
exceeds sum (some quota) = less64 quota sum

-- The loop of `withinResourceQuota`, for one of its sums.
unfoldable pub sum_from : (Resources → ℕ) → ℕ → List Server → ℕ
sum_from total acc [] = acc
sum_from total acc (s ∷ ss) = sum_from total (add64 acc (total s.resources)) ss

-- The account's row, read by its id.
abbrev pub find_user : ℕ → List User → Option User
find_user id = first (λ u. u.id == id)

module _ (q : Quantities) where
  -- `resourceTotals`: megabytes and millicores.
  unfoldable pub memory_total : Resources → ℕ
  memory_total r = if str_eq r.memory "" then 0 else elim (q.parse_quantity r.memory) [
    | none ↦ 0
    | some m ↦ quotient64 (q.value m) (1024 * 1024)
  ]

  unfoldable pub cpu_total : Resources → ℕ
  cpu_total r =
      if str_eq r.cpu ""
      then 0
      else elim (q.parse_quantity r.cpu) [ none ↦ 0 | some c ↦ q.milli_value c ]

  unfoldable pub within_resource_quota : User → List Server → Resources → Result (Unit {0})
  unfolding memory_total cpu_total sum_from
  within_resource_quota u servers r = do
    let memory = add64 (sum_from memory_total 0 servers) (memory_total r)
    let cpu = add64 (sum_from cpu_total 0 servers) (cpu_total r)
    refuse_if (exceeds memory u.max_memory_mb) Error.memory_quota_exceeded
    refuse_if (exceeds cpu u.max_cpu_milli) Error.cpu_quota_exceeded
    ok tt

  abbrev pub not_positive : Option q.Quantity → Bool
  not_positive none = true
  not_positive (some c) = not (q.is_positive c)

  unfoldable pub require_limits : User → Resources → Result (Unit {0})
  unfolding is_blank
  require_limits u r = do
    refuse_if (is_blank r.memory) Error.memory_limit_required
    refuse_if (is_some u.max_cpu_milli && not_positive (q.parse_quantity r.cpu))
        Error.cpu_limit_required
    ok tt

  -- The closure that `creationQuota` returns.
  unfoldable pub creation_check : User → Resources → Check
  unfolding within_resource_quota
  creation_check u r owned = do
    refuse_if (over_count u.max_servers (length owned)) Error.server_quota_exceeded
    within_resource_quota u owned r

  unfoldable pub creation_quota : User → Resources → Result (Option Check)
  unfolding require_limits creation_check
  creation_quota u r = if has_admin_perm (some u) "servers" then ok none else (do
    refuse_if (is_zero u.max_servers) Error.may_not_create
    require_limits u r
    ok (if is_some u.max_servers || bounded_resources u then some (creation_check u r) else none))

  unfoldable pub resource_quota : User → Resources → Result (Option Check)
  unfolding require_limits within_resource_quota
  resource_quota u r = if has_admin_perm (some u) "servers" then ok none else (do
    require_limits u r
    ok (if bounded_resources u then some (λ others. within_resource_quota u others r) else none))

  abbrev pub bad_memory : Option q.Quantity → Result (Unit {0})
  bad_memory none = err Error.invalid_memory
  bad_memory (some m) = refuse_if (q.below_min_memory m) Error.memory_too_small

  abbrev pub bad_cpu : Option q.Quantity → Result (Unit {0})
  bad_cpu none = err Error.invalid_cpu
  bad_cpu (some c) = refuse_if (q.is_negative c) Error.cpu_negative

  unfoldable pub validate_resources : Resources → Result (Unit {0})
  unfolding is_blank
  validate_resources r = do
    if is_blank r.memory then ok tt else bad_memory (q.parse_quantity r.memory)
    if is_blank r.cpu then ok tt else bad_cpu (q.parse_quantity r.cpu)

  -- The end of `handleCreateServer`, from the checks of the limits to the insertion. `srv` is the
  -- server that the request describes, its cluster resolved; the creator owns it.
  unfoldable pub handle_create_server :
      User → List User → ℕ → String → Server → List String → Db → Result Db
  unfolding validate_resources creation_quota create_attempts
  handle_create_server owner users new_id base srv suffixes db = do
    validate_resources srv.resources
    check ← creation_quota owner srv.resources
    create_attempts check users new_id base (record srv { owner_id = owner.id }) (take 8 suffixes)
        db

  abbrev pub owner_quota : Option User → Resources → Result (Option Check)
  owner_quota none r = err Error.no_owner
  owner_quota (some owner) r = resource_quota owner r

  -- `owner` is the row of the server's owner, which is read for an editor without the permission.
  unfoldable pub handle_update_resources :
      Option User → Option User → List User → Server → Resources → Db → Result Db
  unfolding validate_resources resource_quota update_server_resources
      update_server_resources_checked
  handle_update_resources editor owner users srv r db = do
    validate_resources r
    check ← if has_admin_perm editor "servers" then ok none else owner_quota owner r
    resized check users srv r db
