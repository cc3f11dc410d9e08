-- ===== src/Controller/Reauth/Sample.antt =====
-- A controller with three sessions: one that its policy allows, one of a workspace without a policy,
-- and one whose revoke is owed.
use geneza.Base.{false, map, Distinct, refl, true, none, [], ◌∷◌, bytes, bytes_eq, inl, inr}
use geneza.Base.Int.{pos}
use geneza.Policy.Window.{friday}
use geneza.Policy.Engine.{Doc}
use geneza.Controller.DenyCache.{new_deny_cache}
use geneza.Controller.Sessions.{
  active, revoked, SessionRecord, session_key, uncaused, because, Facts, Server, Env,
}
use geneza.Controller.Rows.{key_eq, key_ne}

abbrev shell_doc : Doc
shell_doc = record {
  roles =
      (
        bytes "ops",
        record {
          actions = bytes "shell" ∷ [];
          services = [];
          service_kinds = [];
          service_labels = [];
          node_labels = [];
          time_window = none;
          max_session_ttl = pos 0;
          allow_detach = none;
          recorded = none;
          read_only = false;
          read_only_time_window = none;
          require_presence = false;
          require_native = false;
        }
            ∷ [],
      )
      ∷ [];
  bindings = [];
}

abbrev pub shell_session : SessionRecord
shell_session = record {
  workspace_id = bytes "w";
  id = bytes "s1";
  user = bytes "ann";
  provider = bytes "device:idp";
  subject = bytes "a";
  node_id = bytes "n";
  node_name = bytes "n";
  action = bytes "shell";
  state = active;
  host_session_id = [];
  ended_unix = pos 0;
  exit_code = pos 0;
  roles = bytes "ops" ∷ [];
  service = [];
  service_kind = [];
  service_labels = [];
  client_path = [];
  overlay_ip = [];
  client_noise_pub = bytes "c";
  grant_allow_pty = true;
  grant_forward_targets = [];
  enforcement_epoch = pos 4;
  revoke_reason = uncaused;
  revoke_delivered = false;
  require_presence = false;
  last_presence_unix = pos 0;
}

abbrev pub stray_session : SessionRecord
stray_session = record shell_session { workspace_id = bytes "v"; id = bytes "s2" }

abbrev pub cut_session : SessionRecord
cut_session = record shell_session {
  id = bytes "s3";
  state = revoked;
  revoke_reason = because (bytes "kick");
}

abbrev pub facts : Facts
facts = record {
  suspensions = [];
  store = record { nodes = []; quarantines = [] };
  policy_engines = (bytes "w", shell_doc) ∷ [];
  connected = bytes "n" ∷ [];
}

abbrev pub server : Server
server = record {
  facts = facts;
  deny = new_deny_cache (pos 5) false;
  sessions = shell_session ∷ stray_session ∷ cut_session ∷ [];
  out = [];
}

abbrev pub env : Env
env = record {
  now = pos 100;
  clock = record { weekday = friday; hour = 12; minute = 0 };
  presence_ttl = pos 30;
  lease_expiry_ms = pos 160_000;
  lists = true;
  reads_suspension = λ principal. true;
  reads_node = λ node. true;
  signs = true;
  audits = true;
  stream_sends = λ node_id. true;
}

pub distinct : Distinct (map session_key server.sessions)
unfolding key_eq bytes_eq
distinct = (
  λ m. elim m [
    | inl e ↦ key_ne (session_key shell_session) (session_key stray_session) refl e
    | inr r ↦ elim r [
      | inl e ↦ key_ne (session_key shell_session) (session_key cut_session) refl e
      | inr n ↦ n
    ]
  ],
  (
    λ m. elim m [
      | inl e ↦ key_ne (session_key stray_session) (session_key cut_session) refl e
      | inr n ↦ n
    ],
    (λ m. m, tt),
  ),
)
