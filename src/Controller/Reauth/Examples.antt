-- ===== src/Controller/Reauth/Examples.antt =====
-- The sweep, its landing on an agent, a run and a suspension, for the sessions of Sample.
use geneza.Base.{
  arith, any, false, ◌≡◌, refl, true, Option, none, some, [], ◌∷◌, bytes, bytes_eq, Str, In,
  replicate,
}
use geneza.Base.Int.{pos}
use geneza.Base.Dict.{get, remove}
use geneza.Policy.Engine.{action_ok, labels_match, evaluate}
use geneza.Trust.Signed.{Keys, Verifier, Signed, find_key, verify}
use geneza.Agent.Live.{Worker, LiveSession, cancel_conduit, kill_host}
use geneza.Agent.Live
use geneza.Agent.Lease.{RevokePayload, verify_enforcement, apply_revoke, SessionRevoke}
use geneza.Controller.Sessions.{
  emit, browser_sessions_dropped, audited, suspended_principal, session_revoke, to_agent,
  bump_epoch, continuous_authz, unknown_workspace, SessionRecord, session_key, RevokeReason,
  because, Server, get_session, is_live, sends,
}
use geneza.Controller.Reauth.{reauthorize, norm_provider}
use geneza.Controller.Rows.{get_row, update_row, key_eq, map_option}
use geneza.Controller.Nodes.{get_node}
use geneza.Controller.Reauth.Steps.{cut}
use geneza.Controller.Reauth.Sweep.{swept, reauth_sweep-each, reauth_sweep-enforces}
use geneza.Controller.Reauth.Pushes.{owed}
use geneza.Controller.Reauth.Landing.{reauth_sweep-lands}
use geneza.Controller.Reauth.Events.{revoked_event, SessionEvent, ended_event, handle_session_event}
use geneza.Controller.Reauth.Broker.{offer_ended, reject_offer}
use geneza.Controller.Reauth.Suspension.{suspend_principal-cuts}
use geneza.Controller.Reauth.Ops.{
  revoke_by_subject, hold_principal, reauth_sweep, suspend_principal,
}
use geneza.Controller.Reauth.Sample.{
  shell_session, stray_session, cut_session, facts, server, env, distinct,
}

reauth_sweep-each_example :
    get_session (reauth_sweep env server) (session_key stray_session)
    ≡ map_option (swept env facts) (get_session server (session_key stray_session))
reauth_sweep-each_example = reauth_sweep-each env server refl distinct (session_key stray_session)

-- The session of the workspace without a policy is revoked, and the other one has a new lease.
sweep_keeps :
    get_session (reauth_sweep env server) (session_key shell_session)
    ≡ some (bump_epoch shell_session)
unfolding get_session reauth_sweep evaluate get_node bytes_eq bump_epoch get_row any get action_ok
    labels_match update_row key_eq
sweep_keeps = refl

sweep_cuts :
    get_session (reauth_sweep env server) (session_key stray_session)
    ≡ some (cut env (continuous_authz unknown_workspace) stray_session)
unfolding get_session reauth_sweep evaluate get_node bytes_eq cut get_row any get action_ok
    labels_match update_row key_eq
sweep_cuts = refl

reauth_sweep-enforces_example :
    (reauthorize env (reauth_sweep env server).facts (bump_epoch shell_session)).allow ≡ true
unfolding bump_epoch
reauth_sweep-enforces_example =
    reauth_sweep-enforces env server (session_key shell_session) (bump_epoch shell_session) refl
      distinct sweep_keeps refl

abbrev accepts : Verifier
accepts pub_key input sig = true

abbrev grant_keys : Keys
grant_keys = (bytes "k", replicate 32 1) ∷ []

-- The envelope's bytes are its payload.
abbrev decode_signed : Str → Option Signed
decode_signed s = some (record { payload = s; sig = replicate 64 2; key_id = bytes "k" })

abbrev decode_revoke : Str → Option RevokePayload
decode_revoke s = some (record {
  session_id = bytes "s3";
  epoch = pos 5;
  reason = bytes "kick";
  client_noise_pub = bytes "c";
})

abbrev text : RevokeReason → Str
text reason = bytes "kick"

abbrev live_session : LiveSession
live_session = record {
  grant = record {
    version = pos 1;
    id = bytes "s3";
    node_id = bytes "n";
    action = bytes "shell";
    command = [];
    attach_id = [];
    allow_pty = true;
    forward_target = [];
    client_noise_pub = bytes "c";
    agent_noise_pub = [];
    issued_at = pos 0;
    expires_at = pos 999;
    routes = [];
  };
  path_class = bytes "relay";
  client_noise_pub = bytes "c";
  epoch = pos 4;
  lease_deadline = pos 0;
  timer_armed = true;
  caps = none;
  fwds = [];
  sftp_open = false;
}

abbrev worker : Worker
worker = record { live = (bytes "s3", live_session) ∷ [] }

abbrev wire_revoke : SessionRevoke
wire_revoke = record { session_id = bytes "s3"; sig = bytes "p" }

reauth_sweep-lands_example :
    In
      (to_agent
        (bytes "n")
        (session_revoke (bytes "s3") (pos 5) (because (bytes "kick")) (bytes "c")))
      (reauth_sweep env server).out
    × (apply_revoke accepts decode_signed grant_keys decode_revoke worker wire_revoke ≡ (
      record { live = remove worker.live (bytes "s3") },
      cancel_conduit (bytes "s3")
          ∷ kill_host (bytes "s3")
          ∷ Live.revoked (bytes "s3") (bytes "kick") (bytes "relay") (pos 4)
          ∷ [],
    ))
unfolding get_session sends bytes_eq owed get_row key_eq any verify_enforcement find_key verify get
reauth_sweep-lands_example =
    reauth_sweep-lands accepts decode_signed grant_keys decode_revoke text env server cut_session
      (because (bytes "kick")) 4 worker live_session wire_revoke refl refl distinct refl refl refl
      refl (omega arith) refl refl refl refl refl

-- A sweep, and an event of the node that would end the revoked session.
abbrev ended_report : SessionEvent
ended_report = record {
  session_id = bytes "s3";
  event = ended_event;
  name = bytes "ended";
  host_session_id = [];
  exit_code = pos 0;
}

swept_server : Server
unfolding reauth_sweep
swept_server = reauth_sweep env server

-- The broker ends a revoked session, when the agent rejects its offer after the revoke.
late_rejection :
    (get_session (reject_offer env (session_key cut_session) server) (session_key cut_session))
    ≡ some (offer_ended env cut_session)
unfolding reject_offer get_session get_row update_row key_eq bytes_eq emit
late_rejection = refl

-- The principal of all three sessions is suspended under the other form of its provider.
held_server : Server
unfolding revoke_by_subject emit hold_principal norm_provider
held_server =
    let cut =
      revoke_by_subject env (bytes "w") (bytes "idp") (bytes "a") (bytes "suspended: left") (
        hold_principal env (bytes "w") (bytes "idp") (bytes "a") (bytes "ann") (bytes "adm")
          (bytes "left") server) in
    emit cut.0 (
      browser_sessions_dropped (bytes "idp") (bytes "a")
      ∷ audited (bytes "w") (
          suspended_principal (bytes "ann") (norm_provider (bytes "idp")) (bytes "a") (bytes "adm")
            (bytes "left") cut.1)
      ∷ [])

suspended_session : SessionRecord
unfolding cut
suspended_session = cut env (because (bytes "suspended: left")) shell_session

suspend_principal-cuts_example :
    (is_live suspended_session.state ≡ false)
    × ((reauthorize env held_server.facts suspended_session).allow ≡ false)
unfolding held_server suspend_principal get_row bytes_eq update_row any key_eq suspended_session
suspend_principal-cuts_example =
    suspend_principal-cuts env env true (bytes "w") (bytes "idp") (bytes "a") (bytes "ann")
      (bytes "adm") (bytes "left") server held_server held_server.facts (session_key shell_session)
      suspended_session refl distinct refl refl refl refl refl

-- An acknowledgement of another node of the workspace settles the teardown all the same.
abbrev foreign_ack : SessionEvent
foreign_ack = record {
  session_id = bytes "s3";
  event = revoked_event;
  name = bytes "revoked";
  host_session_id = [];
  exit_code = pos 0;
}

foreign_ack_settles :
    get_session
      (handle_session_event env (bytes "w") (bytes "m") foreign_ack server)
      (session_key cut_session)
    ≡ some (record cut_session { revoke_delivered = true })
unfolding get_session handle_session_event get_row update_row key_eq bytes_eq
foreign_ack_settles = refl
