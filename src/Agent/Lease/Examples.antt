-- ===== src/Agent/Lease/Examples.antt =====
-- A worker with one shell session, whose messages a verifier accepts that takes every signature of
-- the right size.
use geneza.Base.{
  ◌≡◌, refl, true, false, Option, none, some, [], ◌∷◌, bytes, bytes_eq, replicate, Str,
}
use geneza.Base.Int.{pos}
use geneza.Base.Dict.{get, put}
use geneza.Trust.Signed.{find_key, verify, Keys, Verifier, Signed}
use geneza.Trust.Grant.{implied_caps, verify_downgrade, SessionGrant, Caps}
use geneza.Agent.Live.{
  join_host_port, LiveSession, Worker, register_live, caps_allow_forward, forward_target_allowed,
}
use geneza.Agent.Lease.{
  is_none, DeltaPayload, Message, session_lease, session_policy_delta, Decoders, handle, handle_all,
  verify_enforcement,
}
use geneza.Agent.Lease.Epochs.{Follows, handle_all-Follows}
use geneza.Agent.Lease.Scope.{Reachable, started, registered, handled, Reachable-forward}

abbrev accepts : Verifier
accepts pub_key input sig = true

abbrev grant_keys : Keys
grant_keys = (bytes "k", replicate 32 1) ∷ []

-- The envelope's bytes are its payload.
abbrev decode_signed : Str → Option Signed
decode_signed s = some (record { payload = s; sig = replicate 64 2; key_id = bytes "k" })

abbrev client_key : Str
client_key = bytes "c"

abbrev decoders : Decoders
decoders = record {
  lease = λ s. some (record {
    session_id = bytes "s";
    epoch = pos 1;
    expiry_unix_ms = pos 900;
    client_noise_pub = client_key;
  });
  delta = λ s. some (record {
    session_id = bytes "s";
    epoch = pos 2;
    lease_expiry_unix_ms = pos 0;
    client_noise_pub = client_key;
  });
  revoke = λ s. some (record {
    session_id = bytes "s";
    epoch = pos 3;
    reason = bytes "r";
    client_noise_pub = client_key;
  });
}

abbrev forward_grant : SessionGrant
forward_grant = record {
  version = pos 1;
  id = bytes "s";
  node_id = bytes "n";
  action = bytes "forward";
  command = [];
  attach_id = [];
  allow_pty = false;
  forward_target = bytes "h:80";
  client_noise_pub = client_key;
  agent_noise_pub = [];
  issued_at = pos 0;
  expires_at = pos 999;
  routes = [];
}

-- Caps that keep the one target of the grant.
abbrev narrowed : Caps
narrowed = record {
  allow = true;
  allow_pty = false;
  allow_input = false;
  forward_targets = bytes "h:80" ∷ [];
  allow_sftp_write = false;
  allow_new_channels = true;
}

abbrev empty : Worker
empty = record { live = [] }

abbrev one_session : Worker
one_session = register_live empty (pos 500) (bytes "s") forward_grant (bytes "direct")

abbrev lease : Message
lease = session_lease (record { session_id = bytes "s"; sig = bytes "l" })

abbrev delta : Message
delta =
    session_policy_delta (record { session_id = bytes "s"; caps = some narrowed; sig = bytes "d" })

abbrev fresh_session : LiveSession
fresh_session = record {
  grant = forward_grant;
  path_class = bytes "direct";
  client_noise_pub = client_key;
  epoch = pos 0;
  lease_deadline = pos 500;
  timer_armed = true;
  caps = none;
  fwds = record { handle = 4; dest_addr = bytes "h"; dest_port = 22 } ∷ [];
  sftp_open = false;
}

abbrev narrowed_session : LiveSession
narrowed_session = record fresh_session { epoch = pos 2; caps = some narrowed; fwds = [] }

abbrev narrowed_worker : Worker
narrowed_worker = (handle accepts decode_signed grant_keys decoders one_session delta).0

narrowed-reached : Reachable accepts decode_signed grant_keys decoders narrowed_worker
narrowed-reached =
    handled one_session delta
      (registered empty (pos 500) (bytes "s") forward_grant (bytes "direct") started)

narrowed-live : get narrowed_worker.live (bytes "s") ≡ some narrowed_session
unfolding get handle register_live bytes_eq verify_enforcement verify find_key put is_none
    verify_downgrade implied_caps
narrowed-live = refl

narrowed-allows : caps_allow_forward (some narrowed) (bytes "h") 80 ≡ true
unfolding caps_allow_forward forward_target_allowed join_host_port bytes_eq
narrowed-allows = refl

Reachable-forward_example : forward_target_allowed (bytes "h:80") (bytes "h") 80 ≡ true
Reachable-forward_example =
    Reachable-forward accepts decode_signed grant_keys decoders narrowed_worker narrowed-reached
      (bytes "s") narrowed_session narrowed narrowed-live refl (bytes "h") 80 narrowed-allows

handle_all-Follows_example : Follows (get one_session.live (bytes "s")) (
    get
      (handle_all accepts decode_signed grant_keys decoders one_session
        (lease ∷ delta ∷ lease ∷ [])).live
      (bytes "s"))
handle_all-Follows_example =
    handle_all-Follows accepts decode_signed grant_keys decoders (lease ∷ delta ∷ lease ∷ [])
      one_session (bytes "s")

abbrev delta_payload : DeltaPayload
delta_payload = record {
  session_id = bytes "s";
  epoch = pos 2;
  lease_expiry_unix_ms = pos 0;
  client_noise_pub = client_key;
}
