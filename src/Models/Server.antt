-- ===== src/Models/Server.antt =====
-- A game server's row (internal/models/server.go, transfer.go and template.go).
use quetzal.Prelude.{
  ℕ, String, Bool, true, false, not, ◌&&◌, ◌||◌, Option, none, some, List, ◌==◌, if◌then◌else◌,
  is_none,
}

pub data DesiredState : Type 0 where
  running stopped suspended : DesiredState

abbrev pub state_code : DesiredState → ℕ
state_code running = 0
state_code stopped = 1
state_code suspended = 2

abbrev pub is_state : DesiredState → DesiredState → Bool
is_state a b = state_code a == state_code b

pub data Phase : Type 0 where
  installing starting running stopping stopped crashed suspended hibernated error : Phase

pub record Hibernation : Type 0 where
  pub enabled : Bool
  pub idle_minutes : ℕ
  pub wake_on_connect : Bool
  pub proxy : Bool

-- Whether a connection wakes the server.
pub wakes_on_connect : Hibernation → Bool
wakes_on_connect h = h.enabled && (h.wake_on_connect || h.proxy)

pub data ExposeType : Type 0 where
  unset cluster_ip node_port load_balancer : ExposeType

pub record PublicAddress : Type 0 where
  pub host : String
  pub ports : List (String × ℕ)

pub record Expose : Type 0 where
  pub expose_type : ExposeType
  pub annotations : List (String × String)
  pub preserve_client_ip : Option Bool
  pub public : Option PublicAddress

unfoldable pub service_type : Expose → ExposeType
service_type e = elim (e.expose_type) [ unset ↦ cluster_ip | t ↦ t ]

unfoldable pub external : Expose → Bool
unfolding service_type
external e = elim (service_type e) [ node_port ↦ true | load_balancer ↦ true | _ ↦ false ]

unfoldable pub local_traffic : Expose → Bool
unfolding external
local_traffic e = elim (e.preserve_client_ip) [ some b ↦ b | none ↦ external e ]

pub record PortSpec : Type 0 where
  pub name : String
  pub port : ℕ
  pub protocol : String
  pub primary : Bool
  pub node_port : ℕ

pub record Resources : Type 0 where
  pub memory : String
  pub cpu : String

pub record Storage : Type 0 where
  pub storage_type : String
  pub size : String
  pub storage_class : String

pub record PortEndpoint : Type 0 where
  pub port : ℕ
  pub protocol : String
  pub address : String
  pub primary : Bool

pub record Status : Type 0 where
  pub phase : Phase
  pub endpoints : List String
  pub address : String
  pub port_endpoints : List PortEndpoint
  pub message : String
  pub crash_count : ℕ
  pub disk_used : ℕ
  pub installed_generation : ℕ
  pub started_container : String
  pub startup_missed : Bool

pub data TransferPhase : Type 0 where
  backing_up restoring committing : TransferPhase

abbrev pub transfer_code : TransferPhase → ℕ
transfer_code backing_up = 0
transfer_code restoring = 1
transfer_code committing = 2

abbrev pub in_phase : TransferPhase → TransferPhase → Bool
in_phase a b = transfer_code a == transfer_code b

pub record TransferState : Type 0 where
  pub phase : TransferPhase
  pub source_cluster : ℕ
  pub target_cluster : ℕ
  pub backup_id : ℕ
  pub restore_id : ℕ
  pub prev_state : DesiredState
  pub started_at : ℕ
  pub message : String
  pub cancelled : Bool

pub record Server : Type 0 where
  pub id : ℕ
  pub slug : String
  pub created_at : ℕ
  pub updated_at : ℕ
  pub display_name : String
  pub owner_id : ℕ
  pub template_id : ℕ
  pub template_version : ℕ
  pub image : String
  pub image_pins : List (String × String)
  pub startup : String
  pub namespace : String
  pub cluster_id : ℕ
  pub desired_state : DesiredState
  pub resources : Resources
  pub env : List (String × String)
  pub secret_env_enc : String
  pub storage : Storage
  pub ports : List PortSpec
  pub expose : Expose
  pub node_selector : List (String × String)
  pub sftp_enabled : Bool
  pub reaches : List String
  pub eula_accepted : Bool
  pub install_generation : ℕ
  pub install_wipe : Bool
  pub install_keep : List String
  pub reinstall_keep : List String
  pub hibernation : Hibernation
  pub hibernated : Bool
  pub last_active_at : Option ℕ
  pub restart_requested_at : Option ℕ
  pub transfer : Option TransferState
  pub status : Status

-- How many pods the server wants.
unfoldable pub replicas : Server → ℕ
replicas s =
    if is_state s.desired_state running && (not s.hibernated && is_none s.restart_requested_at)
    then 1
    else 0
