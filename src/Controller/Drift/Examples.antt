-- ===== src/Controller/Drift/Examples.antt =====
-- A node with a blessed binary and one session, and a measurement of another binary.
use geneza.Base.{
  any, ◌≡◌, refl, true, false, Option, none, some, List, [], ◌∷◌, bytes, bytes_eq, Str, replicate,
  map, Distinct, equal_fold,
}
use geneza.Base.Int.{ℤ, pos}
use geneza.Base.Dict.{get}
use geneza.Policy.Window.{friday}
use geneza.Controller.DenyCache.{new_deny_cache}
use geneza.Controller.Rows.{get_row, update_row, key_eq}
use geneza.Controller.Audit.{hex}
use geneza.Controller.Nodes.{quarantined_store, approved_store, NodeRecord, get_node}
use geneza.Controller.Nodes.Writes.{closed}
use geneza.Controller.Sessions.{
  detached, SessionRecord, session_key, uncaused, because, Server, Env, get_session, is_live,
}
use geneza.Controller.Reauth.{reauthorize}
use geneza.Controller.Reauth.Steps.{cut}
use geneza.Controller.Drift
use geneza.Controller.Drift.Verdict.{condemned}
use geneza.Policy.Window.{trim_space}
use geneza.Controller.Drift.{
  with_store, cut_node, Commits, Manifest, evaluate_binary_drift, published_manifest_for_hash,
  agent_product,
}
use geneza.Controller.Drift.Condemned.{evaluate_binary_drift-condemns}
use geneza.Controller.Drift.Moves.{Moved}
use geneza.Controller.Drift.Baseline.{evaluate_binary_drift-Moved}
use geneza.Controller.Drift.Quarantine.{quarantine_node-cuts}
use geneza.Controller.Drift.Approval.{in_service, approve_node_with_reason}
use geneza.Controller.Drift.Reapproval.{reapproval-condemns}

abbrev blessed_hash : Str
blessed_hash = replicate 32 1

abbrev other_hash : Str
other_hash = replicate 32 2

abbrev blessed_node : NodeRecord
blessed_node = record {
  workspace_id = bytes "w";
  id = bytes "n";
  name = bytes "node";
  labels = [];
  approved = true;
  approved_by = bytes "adm";
  approved_at_unix = pos 10;
  approved_binary_hash = blessed_hash;
  approved_binary_created_unix = pos 5;
  last_binary_hash = blessed_hash;
  last_measured_unix = pos 20;
}

abbrev shell_session : SessionRecord
shell_session = record {
  workspace_id = bytes "w";
  id = bytes "s";
  user = bytes "ann";
  provider = bytes "idp";
  subject = bytes "a";
  node_id = bytes "n";
  node_name = bytes "node";
  action = bytes "shell";
  state = detached;
  host_session_id = [];
  ended_unix = pos 0;
  exit_code = pos 0;
  roles = [];
  service = [];
  service_kind = [];
  service_labels = [];
  client_path = [];
  overlay_ip = [];
  client_noise_pub = bytes "c";
  grant_allow_pty = true;
  grant_forward_targets = [];
  enforcement_epoch = pos 4;
  revoke_reason = uncaused;
  revoke_delivered = false;
  require_presence = false;
  last_presence_unix = pos 0;
}

abbrev server : Server
server = record {
  facts = record {
    suspensions = [];
    store = record { nodes = blessed_node ∷ []; quarantines = [] };
    policy_engines = [];
    connected = bytes "n" ∷ [];
  };
  deny = new_deny_cache (pos 5) false;
  sessions = shell_session ∷ [];
  out = [];
}

abbrev env_at : ℤ → Env
env_at now = record {
  now = now;
  clock = record { weekday = friday; hour = 12; minute = 0 };
  presence_ttl = pos 30;
  lease_expiry_ms = pos 160_000;
  lists = true;
  reads_suspension = λ principal. true;
  reads_node = λ node. true;
  signs = true;
  audits = true;
  stream_sends = λ node_id. true;
}

-- The quarantine fails, and the defensive write commits.
abbrev shaky : Commits
shaky = record {
  measures = true;
  repins = true;
  quarantines = false;
  approves = true;
  reads_node = true;
  reads_quarantine = true;
  reads_artifacts = true;
}

abbrev sound : Commits
sound = record shaky { quarantines = true }

abbrev artifacts : List (Option Manifest)
artifacts =
    none
    ∷ some (record {
      product = agent_product;
      sha256 = hex blessed_hash;
      created_unix = pos 5;
      version = bytes "1.0";
    })
    ∷ []

distinct : Distinct (map session_key server.sessions)
distinct = (λ m. m, tt)

evaluate_binary_drift-condemns_example :
    get_node
      (evaluate_binary_drift
        (env_at (pos 30))
        shaky
        artifacts
        (bytes "w")
        (bytes "n")
        other_hash
        server).facts.store
      (bytes "w", bytes "n")
    ≡ some (
        closed (record blessed_node { last_binary_hash = other_hash; last_measured_unix = pos 30 }))
unfolding get_node get_row key_eq bytes_eq condemned published_manifest_for_hash hex equal_fold
evaluate_binary_drift-condemns_example =
    evaluate_binary_drift-condemns (env_at (pos 30)) shaky (bytes "w") (bytes "n") artifacts
      other_hash server blessed_node refl distinct refl refl refl refl refl refl refl refl

evaluate_binary_drift-Moved_example :
    (n' : NodeRecord) × (get_node
        (evaluate_binary_drift
          (env_at (pos 30))
          sound
          artifacts
          (bytes "w")
          (bytes "n")
          other_hash
          server).facts.store
        (bytes "w", bytes "n")
      ≡ some n')
    × Moved blessed_node n' other_hash
        (published_manifest_for_hash true artifacts agent_product (hex other_hash))
unfolding get_node get_row key_eq bytes_eq
evaluate_binary_drift-Moved_example =
    evaluate_binary_drift-Moved (env_at (pos 30)) sound (bytes "w") (bytes "n") artifacts other_hash
      server blessed_node refl distinct

cut_session : SessionRecord
unfolding cut
cut_session = cut (env_at (pos 30)) (because (bytes "quarantined: manual")) shell_session

quarantined : Server
unfolding cut_node with_store quarantined_store
quarantined = cut_node (env_at (pos 30)) (bytes "w") (bytes "n") (bytes "manual") (bytes "adm") (
    with_store server (
      quarantined_store server.facts.store (bytes "w", bytes "n") (bytes "manual") (bytes "adm")
        (pos 30)))

quarantine_node-cuts_example :
    (is_live cut_session.state ≡ false)
    × ((reauthorize (env_at (pos 40)) quarantined.facts cut_session).allow ≡ false)
unfolding quarantined cut_session Drift.quarantine_node get_node get_session get_row update_row any
    key_eq bytes_eq
quarantine_node-cuts_example =
    quarantine_node-cuts (env_at (pos 30)) (env_at (pos 40)) sound (bytes "w") (bytes "n")
      (bytes "manual") (bytes "adm") server quarantined blessed_node quarantined.facts
      (session_key shell_session) cut_session refl distinct refl refl refl refl refl refl

-- The node, quarantined for drift, with the session that this cut.
abbrev held_node : NodeRecord
held_node = record blessed_node {
  approved = false;
  approved_by = [];
  approved_at_unix = pos 0;
  last_binary_hash = other_hash;
}

abbrev held : Server
held = record server {
  facts = record server.facts { store = record { nodes = held_node ∷ []; quarantines = [] } };
}

reapproved : Server
unfolding in_service approved_store
reapproved =
    in_service (bytes "w") held_node (bytes "ok") (bytes "adm") none held
      (approved_store held.facts.store (bytes "w", bytes "n") true (bytes "adm") (pos 40))

reapproval-condemns_example :
    get_node
      (evaluate_binary_drift
        (env_at (pos 40))
        sound
        artifacts
        (bytes "w")
        (bytes "n")
        other_hash
        reapproved).facts.store
      (bytes "w", bytes "n")
    ≡ some
        (closed (record held_node { last_binary_hash = other_hash; last_measured_unix = pos 40 }))
unfolding reapproved approve_node_with_reason get_node get_row key_eq bytes_eq condemned
    published_manifest_for_hash hex equal_fold trim_space get
reapproval-condemns_example =
    reapproval-condemns (env_at (pos 40)) sound (bytes "w") held_node (bytes "adm") held refl
      (env_at (pos 40)) sound artifacts (bytes "ok") other_hash reapproved distinct refl refl refl
      refl refl refl refl refl
