-- ===== src/Controller/Sessions.antt =====
-- internal/controller: the session records of the store, the facts that the controller decides on,
-- and the signed enforcement that it pushes (sessionenforce.go, streamrouter.go, registry.go).
-- The server of one controller: an operation runs to its end before the next one starts, reads the
-- clock once, and appends what it sends and records to `out`. The texts of a Reason are data.
pub mod Touches
use geneza.Base.{
  Bool, true, false, not, ◌&&◌, ◌||◌, Option, none, some, List, [], ◌∷◌, ◌++◌, ℕ, suc,
  if◌then◌else◌, Str, bytes, bytes_eq, any, cut_prefix,
}
use geneza.Base.Int.{ℤ, pos, ◌+ℤ◌, wrap64}
use geneza.Base.Dict.{Dict, get}
use geneza.Trust.Grant.{Caps}
use geneza.Policy.Window.{Clock}
use geneza.Policy.Engine.{Doc, Labels, Reason}
use geneza.Controller.DenyCache.{DenyCache}
use geneza.Controller.Rows.{Key, get_row, update_row}
use geneza.Controller.Nodes.{NodeStore}

pub data SessionState : Type 0 where
  pending active detached ended revoked : SessionState

-- Why a session is not allowed any more.
pub data Denial : Type 0 where
  principal_suspended presence_expired approval_revoked unknown_workspace : Denial
  by_policy : Reason → Denial

pub data RevokeReason : Type 0 where
  uncaused : RevokeReason
  continuous_authz : Denial → RevokeReason
  because : Str → RevokeReason

pub record SessionRecord : Type 0 where
  pub workspace_id : Str
  pub id : Str
  pub user : Str
  pub provider : Str
  pub subject : Str
  pub node_id : Str
  pub node_name : Str
  pub action : Str
  pub state : SessionState
  pub host_session_id : Str
  pub ended_unix : ℤ
  pub exit_code : ℤ
  pub roles : List Str
  pub service : Str
  pub service_kind : Str
  pub service_labels : Labels
  pub client_path : Str
  pub overlay_ip : Str
  pub client_noise_pub : Str
  pub grant_allow_pty : Bool
  pub grant_forward_targets : List Str
  pub enforcement_epoch : ℤ
  pub revoke_reason : RevokeReason
  pub revoke_delivered : Bool
  pub require_presence : Bool
  pub last_presence_unix : ℤ

abbrev pub session_key : SessionRecord → Key
session_key r = (r.workspace_id, r.id)

-- The signed messages, by their payloads.
pub data Enforcement : Type 0 where
  -- the session, the epoch, the expiry and the client's key
  session_lease : Str → ℤ → ℤ → Str → Enforcement
  session_policy_delta : Str → ℤ → Caps → ℤ → Str → Enforcement
  session_revoke : Str → ℤ → RevokeReason → Str → Enforcement

pub data AuditEvent : Type 0 where
  -- the node, the session, its user, the reason and whether the revoke was pushed
  session_revoked : Str → Str → Str → RevokeReason → Bool → AuditEvent
  session_revoke_confirmed : Str → Str → AuditEvent
  session_event : Str → Str → Str → AuditEvent
  -- the name, the provider, the subject, by whom, the reason and the tunnels revoked
  suspended_principal : Str → Str → Str → Str → Str → ℕ → AuditEvent
  unsuspended_principal : Str → Str → Str → AuditEvent
  -- the node, the reason, by whom and the sessions revoked
  node_quarantined : Str → Str → Str → ℕ → AuditEvent
  -- the node, by whom, the reason and the cause that was cleared
  node_approval : Str → Str → Str → Option Str → AuditEvent
  node_binary_updated : Str → Str → Str → AuditEvent
  -- the node, by whom, the hash, the one before it and the reason
  node_rebaselined : Str → Str → Str → Str → Str → AuditEvent

pub data Effect : Type 0 where
  to_agent : Str → Enforcement → Effect
  to_client : Str → Enforcement → Effect
  signals_touched signals_unregistered : Str → Effect
  overlay_released : Str → Str → Effect
  audited : Str → AuditEvent → Effect
  browser_sessions_dropped : Str → Str → Effect
  user_browser_sessions_dropped : Str → Effect
  networks_repushed : Str → Effect

pub record SuspensionRecord : Type 0 where
  pub username : Str
  pub reason : Str
  pub suspended_by : Str
  pub suspended_unix : ℤ

-- What a decision reads, and no session operation changes.
pub record Facts : Type 0 where
  pub suspensions : Dict SuspensionRecord
  pub store : NodeStore
  pub policy_engines : Dict Doc
  -- the nodes whose control stream this controller holds
  pub connected : List Str

pub record Server : Type 0 where
  pub facts : Facts
  pub deny : DenyCache
  pub sessions : List SessionRecord
  pub out : List Effect

-- The time and the configuration of an operation, and what its calls outside the model answer:
-- whether the sessions can be listed, a suspension row or a node be read, a payload be signed, an
-- audit entry be appended, and a stream take a message. A write of a session row commits.
pub record Env : Type 0 where
  pub now : ℤ
  pub clock : Clock
  -- presence.ttl in seconds
  pub presence_ttl : ℤ
  pub lease_expiry_ms : ℤ
  pub lists : Bool
  -- by the key of the principal
  pub reads_suspension : Str → Bool
  pub reads_node : Key → Bool
  pub signs : Bool
  pub audits : Bool
  pub stream_sends : Str → Bool

unfoldable pub emit : Server → List Effect → Server
emit s es = record s { out = s.out ++ es }

-- GetSession
unfoldable pub get_session : Server → Key → Option SessionRecord
get_session s k = get_row session_key s.sessions k

-- UpdateSession, which commits; its callers ignore that a session is missing.
unfoldable pub update_session : Server → Key → (SessionRecord → SessionRecord) → Server
update_session s k f = record s { sessions = update_row session_key s.sessions k f }

unfoldable pub bump_epoch : SessionRecord → SessionRecord
bump_epoch r = record r { enforcement_epoch = wrap64 (r.enforcement_epoch +ℤ pos 1) }

epoch_of : Option SessionRecord → ℤ
epoch_of none = pos 0
epoch_of (some r) = (bump_epoch r).enforcement_epoch

-- nextEpoch
unfoldable pub next_epoch : Server → Key → Server × ℤ
unfolding update_session get_session bump_epoch epoch_of
next_epoch s k = (update_session s k bump_epoch, epoch_of (get_session s k))

-- Online
unfoldable pub online : Facts → Str → Bool
online f node_id = any (bytes_eq node_id) f.connected

-- Whether a message reaches the stream of a node: SendRevoke, SendSessionLease and
-- SendSessionPolicyDelta of the Registry.
unfoldable pub sends : Env → Facts → Str → Bool
unfolding online
sends env f node_id = online f node_id && env.stream_sends node_id

unfoldable pub send_agent : Env → Server → Str → Enforcement → Server
unfolding sends emit
send_agent env s node_id m =
    if sends env s.facts node_id then emit s (to_agent node_id m ∷ []) else s

-- What SendRevoke of the router answers: whether the revoke was pushed, and the signed revoke.
pub record Pushed : Type 0 where
  pub server : Server
  pub pushed : Bool
  pub revoke : Option Enforcement

-- SendRevoke of the router in the process
unfoldable pub send_revoke : Env → Server → SessionRecord → RevokeReason → Pushed
unfolding next_epoch send_agent sends
send_revoke env s rec reason =
    let e = next_epoch s (session_key rec) in
    let rev = session_revoke rec.id e.1 reason rec.client_noise_pub in
    if not env.signs then record { server = e.0; pushed = false; revoke = none } else record {
      server = send_agent env e.0 rec.node_id rev;
      pushed = sends env s.facts rec.node_id;
      revoke = some rev;
    }

abbrev pub is_live : SessionState → Bool
is_live active = true
is_live detached = true
is_live pending = false
is_live ended = false
is_live revoked = false

abbrev pub is_revoked : SessionState → Bool
is_revoked revoked = true
is_revoked pending = false
is_revoked active = false
is_revoked detached = false
is_revoked ended = false

abbrev pub is_terminal : SessionState → Bool
is_terminal revoked = true
is_terminal ended = true
is_terminal pending = false
is_terminal active = false
is_terminal detached = false
