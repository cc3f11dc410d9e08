-- ===== src/Controller/Reauth/Events.antt =====
-- internal/controller/nodecontrol.go: the session events that a node reports, and the confirmation of
-- a teardown.
use geneza.Base.{
  Bool, true, false, not, ◌&&◌, Option, none, some, List, [], ◌∷◌, ◌++◌, if◌then◌else◌, Str,
  bytes_eq,
}
use geneza.Base.Int.{ℤ}
use geneza.Controller.Sessions.{
  active, detached, ended, SessionRecord, session_revoke_confirmed, session_event, Effect,
  signals_unregistered, overlay_released, audited, Server, Env, emit, get_session, update_session,
  is_revoked, is_terminal,
}
use geneza.Controller.Reauth.{is_empty}

pub data EventKind : Type 0 where
  established attached detached_event ended_event rejected revoked_event offered unknown : EventKind

pub record SessionEvent : Type 0 where
  pub session_id : Str
  pub event : EventKind
  pub name : Str
  pub host_session_id : Str
  pub exit_code : ℤ

abbrev pub owes : Option SessionRecord → Bool
owes none = false
owes (some r) = is_revoked r.state && not r.revoke_delivered

unfoldable pub confirm : SessionRecord → SessionRecord
confirm r =
    if is_revoked r.state && not r.revoke_delivered then record r { revoke_delivered = true } else r

-- confirmRevokeDelivered
unfoldable pub confirm_revoke_delivered : Str → Str → Str → Server → Server
unfolding update_session get_session confirm emit
confirm_revoke_delivered ws session_id node_id s =
    let s' = update_session s (ws, session_id) confirm in
    if owes (get_session s (ws, session_id))
    then emit s' (audited ws (session_revoke_confirmed node_id session_id) ∷ [])
    else s'

-- The change of state that an event asks for; an ended session stays ended, and a revoked one
-- revoked.
unfoldable pub event_change : Env → SessionEvent → SessionRecord → SessionRecord
event_change env ev r = elim ev.event [
  | established ↦ if not (is_terminal r.state) then record r { state = active } else r
  | attached ↦ if not (is_terminal r.state) then record r { state = active } else r
  | detached_event ↦ if not (is_terminal r.state) then record r { state = detached } else r
  | ended_event ↦ record r {
    state = if not (is_revoked r.state) then ended else r.state;
    ended_unix = env.now;
    exit_code = ev.exit_code;
  }
  | rejected ↦ record r {
    state = if not (is_revoked r.state) then ended else r.state;
    ended_unix = env.now;
  }
  | _ ↦ r
]

-- The update closure: a node may only move its own sessions.
unfoldable pub event_update : Env → Str → SessionEvent → SessionRecord → SessionRecord
unfolding event_change
event_update env node_id ev r =
    let hosted : SessionRecord =
      if is_empty ev.host_session_id
      then r
      else record r { host_session_id = ev.host_session_id } in
    if not (bytes_eq r.node_id node_id) then r else event_change env ev hosted

released_by : Str → Option SessionRecord → List Effect
released_by node_id none = []
released_by node_id (some r) =
    if not (bytes_eq r.node_id node_id)
    then []
    else overlay_released r.workspace_id r.overlay_ip ∷ []

event_effects : Str → SessionEvent → Option SessionRecord → List Effect
unfolding released_by
event_effects node_id ev found = elim ev.event [
  | ended_event ↦ released_by node_id found ++ signals_unregistered ev.session_id ∷ []
  | rejected ↦ released_by node_id found ++ signals_unregistered ev.session_id ∷ []
  | _ ↦ []
]

pub is_confirmation : EventKind → Bool
is_confirmation kind = elim kind [ revoked_event ↦ true | _ ↦ false ]

pub touches : EventKind → Bool
touches kind = elim kind [ revoked_event ↦ false | offered ↦ false | unknown ↦ false | _ ↦ true ]

-- handleSessionEvent, of a node of a workspace
unfoldable pub handle_session_event : Env → Str → Str → SessionEvent → Server → Server
unfolding update_session get_session event_update event_effects is_confirmation touches
    confirm_revoke_delivered emit
handle_session_event env ws node_id ev s =
    let moved =
      if is_confirmation ev.event
      then confirm_revoke_delivered ws ev.session_id node_id s
      else if touches ev.event
      then emit (update_session s (ws, ev.session_id) (event_update env node_id ev))
          (event_effects node_id ev (get_session s (ws, ev.session_id)))
      else s in
    emit moved (audited ws (session_event node_id ev.session_id ev.name) ∷ [])
