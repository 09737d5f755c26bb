-- ===== src/Models/Samples.antt =====
-- Rows that the tests of the other modules start from.
use quetzal.Prelude.{true, false, none, some, []}
use quetzal.Models.Server.{
  Server, DesiredState, running, stopped, Status, Hibernation, Expose, Resources, Storage,
  TransferState,
}
use quetzal.Models.User.{User}

-- A stopped server with every column filled.
abbrev pub lobby : Server
lobby = record {
  id = 1;
  slug = "lobby";
  created_at = 1;
  updated_at = 5;
  display_name = "Lobby";
  owner_id = 1;
  template_id = 1;
  template_version = 1;
  image = "java:21";
  image_pins = [];
  startup = "java -jar server.jar";
  namespace = "games";
  cluster_id = 1;
  desired_state = stopped;
  resources = record { memory = "2Gi"; cpu = "1" };
  env = [];
  secret_env_enc = "";
  storage = record { storage_type = "pvc"; size = "5Gi"; storage_class = "" };
  ports = [];
  expose = record {
    expose_type = quetzal.Models.Server.ExposeType.unset;
    annotations = [];
    preserve_client_ip = none;
    public = none;
  };
  node_selector = [];
  sftp_enabled = true;
  reaches = [];
  eula_accepted = true;
  install_generation = 1;
  install_wipe = false;
  install_keep = [];
  reinstall_keep = [];
  hibernation = record { enabled = true; idle_minutes = 10; wake_on_connect = true; proxy = false };
  hibernated = false;
  last_active_at = none;
  restart_requested_at = none;
  transfer = none;
  status = record {
    phase = quetzal.Models.Server.Phase.stopped;
    endpoints = [];
    address = "";
    port_endpoints = [];
    message = "";
    crash_count = 0;
    disk_used = 0;
    installed_generation = 1;
    started_container = "";
    startup_missed = false;
  };
}

-- An account with no rights of its own.
abbrev pub ada : User
ada = record {
  id = 2;
  username = "ada";
  password_hash = "";
  email = "";
  email_verified = false;
  pending_email = "";
  is_admin = false;
  admin_role_id = none;
  created_at = 1;
  updated_at = 1;
  admin_perms = [];
  max_servers = some 0;
  max_memory_mb = none;
  max_cpu_milli = none;
  totp_secret_enc = "";
  totp_enabled = false;
  last_totp_step = none;
  recovery_codes = [];
}
