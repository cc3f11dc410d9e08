-- ===== src/Agent/Live.antt =====
-- internal/agentd/worker.go and offer.go: the live direct sessions of an agent, with the splices and
-- the SFTP channel that a shrink of their caps tears down.
-- A handler returns the worker with the effects that it has, in their order. The lease timer is the
-- deadline and whether it is armed.
use geneza.Base.{
  ℕ, zero, suc, ◌+◌, ◌/◌, ◌%◌, Bool, true, false, Option, none, some, List, [], ◌∷◌, ◌++◌, ltb,
  ◌==◌, if◌then◌else◌, Str, bytes, bytes_eq,
}
use geneza.Base.Int.{ℤ, pos}
use geneza.Base.Dict.{Dict, get, put, remove}
use geneza.Trust.Grant.{SessionGrant, Caps, is_empty}

pub record Splice : Type 0 where
  pub handle : ℕ
  pub dest_addr : Str
  pub dest_port : ℕ

pub record LiveSession : Type 0 where
  pub grant : SessionGrant
  pub path_class : Str
  pub client_noise_pub : Str
  pub epoch : ℤ
  pub lease_deadline : ℤ
  pub timer_armed : Bool
  pub caps : Option Caps
  pub fwds : List Splice
  pub sftp_open : Bool

pub record Worker : Type 0 where
  pub live : Dict LiveSession

pub data Effect : Type 0 where
  -- ls.cancel(): the conduit is torn
  cancel_conduit : Str → Effect
  -- killHostSession: the session host kills the PTY
  kill_host : Str → Effect
  set_host_caps : Str → Option Caps → Effect
  cancel_splice : Str → ℕ → Effect
  cancel_sftp : Str → Effect
  -- the "revoked" event: the reason, the path class and the epoch
  revoked : Str → Str → Str → ℤ → Effect

-- rearmLocked; a deadline in the past fires at once.
unfoldable pub rearm : LiveSession → ℤ → LiveSession
rearm ls expiry_unix_ms = record ls { lease_deadline = expiry_unix_ms; timer_armed = true }

-- The digits of a number, least significant first, with fuel: a uint32 has ten at most.
decimal_digits : ℕ → ℕ → Str
decimal_digits zero n = []
decimal_digits (suc f) n =
    let rest = decimal_digits f (n / 10) in
    if ltb n 10 then (48 + n) ∷ [] else rest ++ (48 + n % 10) ∷ []

has_colon : Str → Bool
has_colon [] = false
has_colon (c ∷ s) = if c == b':' then true else has_colon s

-- net.JoinHostPort
unfoldable pub join_host_port : Str → ℕ → Str
unfolding decimal_digits has_colon
join_host_port host port =
    let digits = decimal_digits 20 port in
    if has_colon host
    then bytes "[" ++ host ++ bytes "]:" ++ digits
    else host ++ bytes ":" ++ digits

unfoldable pub forward_target_allowed : Str → Str → ℕ → Bool
unfolding join_host_port
forward_target_allowed grant_target dest_addr dest_port =
    if is_empty grant_target
    then false
    else bytes_eq (join_host_port dest_addr dest_port) grant_target

unfoldable pub target_allowed : List Str → Str → ℕ → Bool
target_allowed [] addr port = false
target_allowed (t ∷ ts) addr port =
    if forward_target_allowed t addr port then true else target_allowed ts addr port

unfoldable pub caps_allow_forward : Option Caps → Str → ℕ → Bool
unfolding target_allowed
caps_allow_forward none addr port = true
caps_allow_forward (some caps) addr port = target_allowed caps.forward_targets addr port

-- defaults.SessionLeaseTTL, in milliseconds, is an argument of register_live.
unfoldable pub register_live : Worker → ℤ → Str → SessionGrant → Str → Worker
register_live w deadline id grant path_class = record {
  live = put w.live id (record {
    grant = grant;
    path_class = path_class;
    client_noise_pub = grant.client_noise_pub;
    epoch = pos 0;
    lease_deadline = deadline;
    timer_armed = true;
    caps = none;
    fwds = [];
    sftp_open = false;
  });
}

unfoldable pub unregister_live : Worker → Str → Worker
unregister_live w id = record { live = remove w.live id }

unfoldable pub revoke_effects : Str → Str → Option LiveSession → List Effect
revoke_effects id reason none = kill_host id ∷ revoked id reason [] (pos 0) ∷ []
revoke_effects id reason (some ls) =
    cancel_conduit id ∷ kill_host id ∷ revoked id reason ls.path_class ls.epoch ∷ []

unfoldable pub revoke_live : Worker → Str → Str → Worker × List Effect
unfolding revoke_effects
revoke_live w id reason =
    (record { live = remove w.live id }, revoke_effects id reason (get w.live id))

-- Cancels go to the splices whose target is not allowed; a splice is dropped when it is untracked.
unfoldable pub torn : Str → List Str → List Splice → List Effect
torn id allowed [] = []
torn id allowed (s ∷ ss) =
    let rest = torn id allowed ss in
    if target_allowed allowed s.dest_addr s.dest_port
    then rest
    else cancel_splice id s.handle ∷ rest

unfoldable pub forwards_of : Option LiveSession → List Splice
forwards_of none = []
forwards_of (some ls) = ls.fwds

unfoldable pub tear_forwards : Worker → Str → List Str → List Effect
unfolding torn forwards_of
tear_forwards w id allowed = torn id allowed (forwards_of (get w.live id))

unfoldable pub writes_of : Str → Option LiveSession → List Effect
writes_of id none = []
writes_of id (some ls) = if ls.sftp_open then cancel_sftp id ∷ [] else []

unfoldable pub tear_writes : Worker → Str → List Effect
unfolding writes_of
tear_writes w id = writes_of id (get w.live id)

-- A change of a live session; nothing if it is gone.
unfoldable pub on_live : Worker → Str → (LiveSession → LiveSession) → Option LiveSession → Worker
on_live w id f none = w
on_live w id f (some ls) = record { live = put w.live id (f ls) }

unfoldable pub remove_splice : ℕ → List Splice → List Splice
remove_splice h [] = []
remove_splice h (s ∷ ss) = let rest = remove_splice h ss in if s.handle == h then rest else s ∷ rest

unfoldable pub track_splice : Worker → Str → Splice → Worker
unfolding on_live remove_splice
track_splice w id s =
    on_live w id (λ ls. record ls { fwds = s ∷ remove_splice s.handle ls.fwds }) (get w.live id)

unfoldable pub untrack_splice : Worker → Str → ℕ → Worker
unfolding on_live remove_splice
untrack_splice w id h =
    on_live w id (λ ls. record ls { fwds = remove_splice h ls.fwds }) (get w.live id)

unfoldable pub set_sftp_cancel : Worker → Str → Worker
unfolding on_live
set_sftp_cancel w id = on_live w id (λ ls. record ls { sftp_open = true }) (get w.live id)

unfoldable pub clear_sftp_cancel : Worker → Str → Worker
unfolding on_live
clear_sftp_cancel w id = on_live w id (λ ls. record ls { sftp_open = false }) (get w.live id)
