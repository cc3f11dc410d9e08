-- ===== src/Controller/Reauth.antt =====
-- internal/controller/continuousauthz.go: the decision on a session that is running, and what the
-- controller does about it.
pub mod Ops
pub mod Loops
pub mod Steps
pub mod Sweep
pub mod Pushes
pub mod Landing
pub mod Evolution
pub mod Acts
pub mod Preserves
pub mod OpsPreserve
pub mod Operation
pub mod Lifetime
pub mod Growth
pub mod Suspension
mod Sample
mod Examples
pub mod Events
pub mod Broker
use geneza.Base.{
  Bool, true, false, not, ◌&&◌, ◌||◌, Option, none, some, List, [], ◌∷◌, ◌++◌, ℕ, suc, ◌+◌,
  if◌then◌else◌, Str, bytes, bytes_eq, cut_prefix,
}
use geneza.Base.Int.{ℤ, pos, ◌-ℤ◌, ltb_ℤ}
use geneza.Base.Dict.{Dict, get, put, remove}
use geneza.Trust.Grant.{Caps}
use geneza.Policy.Engine.{Doc, Input, Decision, Labels, evaluate}
use geneza.Controller.DenyCache.{suspended, invalidate}
use geneza.Controller.Rows.{Key}
use geneza.Controller.Nodes.{NodeRecord, get_node}
use geneza.Controller.Sessions.{
  Enforcement, SessionState, pending, active, detached, ended, revoked, Denial, principal_suspended,
  presence_expired, approval_revoked, unknown_workspace, by_policy, RevokeReason, continuous_authz,
  because, SessionRecord, session_key, Effect, session_lease, session_policy_delta, session_revoked,
  session_revoke_confirmed, suspended_principal, unsuspended_principal, to_client, signals_touched,
  signals_unregistered, overlay_released, audited, browser_sessions_dropped,
  user_browser_sessions_dropped, Facts, Server, Env, emit, get_session, update_session, next_epoch,
  online, send_agent, Pushed, send_revoke, is_live, is_revoked,
}

-- strings.TrimPrefix(provider, "device:")
trimmed : Str → Option Str → Str
trimmed provider none = provider
trimmed provider (some rest) = rest

unfoldable pub norm_provider : Str → Str
unfolding trimmed cut_prefix
norm_provider provider = trimmed provider (cut_prefix provider (bytes "device:"))

unfoldable pub principal_key : Str → Str → Str → Str
unfolding norm_provider
principal_key ws provider subject =
    ws ++ bytes "|" ++ norm_provider provider ++ bytes "|" ++ subject

abbrev pub is_empty {ℓ} : {A : Type ℓ} → List A → Bool
is_empty [] = true
is_empty (x ∷ xs) = false

abbrev pub present {ℓ} : {A : Type ℓ} → Option A → Bool
present none = false
present (some a) = true

-- IsSuspended; an empty subject is an operational certificate, which cannot be suspended, and a row
-- that cannot be read fails open.
unfoldable pub is_suspended : Env → Facts → Str → Str → Str → Bool
unfolding principal_key
is_suspended env f ws provider subject =
    if is_empty subject
    then false
    else if not (env.reads_suspension (principal_key ws provider subject))
    then false
    else present (get f.suspensions (principal_key ws provider subject))

-- The fields of a policy decision that a running session obeys.
pub record Authz : Type 0 where
  pub allow : Bool
  pub read_only : Bool
  pub reason : Denial

unfoldable pub refuse : Denial → Authz
refuse d = record { allow = false; read_only = false; reason = d }

node_labels_of : Option NodeRecord → Labels
node_labels_of none = []
node_labels_of (some n) = n.labels

unfoldable pub input_of : Env → SessionRecord → Labels → Input
input_of env rec labels = record {
  user = rec.user;
  groups = [];
  roles = rec.roles;
  node_name = rec.node_name;
  node_labels = labels;
  action = rec.action;
  client_path = rec.client_path;
  service = rec.service;
  service_kind = rec.service_kind;
  service_labels = rec.service_labels;
  now = some env.clock;
}

authz_of : Decision → Authz
authz_of d = record { allow = d.allow; read_only = d.read_only; reason = by_policy d.reason }

-- policyFor(ws).Evaluate: a workspace without an engine is denied everything.
unfoldable pub evaluate_for : Env → Option Doc → SessionRecord → Labels → Authz
unfolding refuse authz_of input_of
evaluate_for env none rec labels = refuse unknown_workspace
evaluate_for env (some doc) rec labels = authz_of (evaluate doc (input_of env rec labels) env.clock)

unfoldable pub unapproved : Option NodeRecord → Bool
unapproved none = false
unapproved (some n) = not n.approved

-- The continuous-presence gate: a heartbeat that is older than the ttl.
unfoldable pub presence_stale : Env → SessionRecord → Bool
presence_stale env rec =
    ltb_ℤ (pos 0) env.presence_ttl
    && rec.require_presence
    && ltb_ℤ env.presence_ttl (env.now -ℤ rec.last_presence_unix)

-- The lookup of a session's node; one that fails finds none.
unfoldable pub node_of : Env → Facts → Key → Option NodeRecord
node_of env f k = if env.reads_node k then get_node f.store k else none

-- reauthorizeWith
unfoldable pub reauthorize : Env → Facts → SessionRecord → Authz
unfolding is_suspended node_of refuse presence_stale unapproved node_labels_of evaluate_for
reauthorize env f rec =
    let node = node_of env f (rec.workspace_id, rec.node_id) in
    if is_suspended env f rec.workspace_id rec.provider rec.subject
    then refuse principal_suspended
    else if presence_stale env rec
    then refuse presence_expired
    else if unapproved node
    then refuse approval_revoked
    else evaluate_for env (get f.policy_engines rec.workspace_id) rec (node_labels_of node)

unfoldable pub mark_revoked : Env → RevokeReason → SessionRecord → SessionRecord
mark_revoked env reason r = record r {
  state = revoked;
  ended_unix = env.now;
  revoke_reason = reason;
  revoke_delivered = false;
}

abbrev pub revocable : SessionState → Bool
revocable pending = true
revocable active = true
revocable detached = true
revocable ended = false
revocable revoked = false

-- The overlay address of a session that is there, released as its record is updated.
freed : Str → Option SessionRecord → List Effect
freed ws none = []
freed ws (some r) = overlay_released ws r.overlay_ip ∷ []

-- The signed revoke goes to the client's end too.
pub tell_client : Server → Str → Option Enforcement → Server
unfolding emit
tell_client s id none = s
tell_client s id (some rev) = emit s (to_client id rev ∷ [])

-- revokeSession, and whether it returns no error
unfoldable pub revoke_session : Env → Server → SessionRecord → RevokeReason → Server × Bool
unfolding send_revoke update_session get_session emit mark_revoked freed tell_client
revoke_session env s rec reason =
    let p = send_revoke env s rec reason in
    let told = tell_client p.server rec.id p.revoke in
    if not (revocable rec.state) then (s, true) else (
      emit (update_session told (session_key rec) (mark_revoked env reason)) (
          freed rec.workspace_id (get_session told (session_key rec))
          ++ signals_unregistered rec.id
            ∷ audited rec.workspace_id (session_revoked rec.node_id rec.id rec.user reason p.pushed)
            ∷ []),
      env.audits,
    )

-- rePushRevoke
unfoldable pub re_push_revoke : Env → Server → SessionRecord → Server
unfolding send_revoke
re_push_revoke env s rec = (send_revoke env s rec rec.revoke_reason).server

unfoldable pub read_only_caps : SessionRecord → Caps
read_only_caps rec = record {
  allow = true;
  allow_pty = rec.grant_allow_pty;
  allow_input = false;
  forward_targets = rec.grant_forward_targets;
  allow_sftp_write = false;
  allow_new_channels = true;
}

-- pushReadOnlyDelta
unfoldable pub push_read_only_delta : Env → Server → SessionRecord → Server
unfolding next_epoch send_agent emit read_only_caps
push_read_only_delta env s rec =
    let e = next_epoch s (session_key rec) in
    let delta =
      session_policy_delta rec.id e.1 (read_only_caps rec) env.lease_expiry_ms
        rec.client_noise_pub in
    if not env.signs
    then e.0
    else emit (send_agent env e.0 rec.node_id delta)
        (signals_touched rec.id ∷ to_client rec.id delta ∷ [])

-- refreshLease
unfoldable pub refresh_lease : Env → Server → SessionRecord → Server
unfolding next_epoch send_agent emit
refresh_lease env s rec =
    let e = next_epoch s (session_key rec) in
    let lease = session_lease rec.id e.1 env.lease_expiry_ms rec.client_noise_pub in
    if not env.signs
    then e.0
    else emit (send_agent env e.0 rec.node_id lease)
        (signals_touched rec.id ∷ to_client rec.id lease ∷ [])

-- driveLiveSessionWith
unfoldable pub drive_live_session : Env → Server → SessionRecord → Server
unfolding reauthorize revoke_session push_read_only_delta refresh_lease
drive_live_session env s rec =
    let d = reauthorize env s.facts rec in
    if not d.allow
    then (revoke_session env s rec (continuous_authz d.reason)).0
    else if d.read_only
    then push_read_only_delta env s rec
    else refresh_lease env s rec
