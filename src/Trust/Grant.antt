-- ===== src/Trust/Grant.antt =====
-- internal/types/grant.go and sessionpolicy.go: the session grant, its local checks, and the ceiling
-- that a downgrade may not exceed. An instant is a number of nanoseconds.
pub mod Checks
mod Examples
use geneza.Base.{
  ℕ, Bool, true, false, ◌&&◌, ◌||◌, not, Option, none, some, List, [], ◌∷◌, if◌then◌else◌, Str,
  bytes, bytes_eq, length, ◌==◌,
}
use geneza.Base.Int.{ℤ, pos, negsuc, ◌-ℤ◌, ltb_ℤ, eqb_ℤ}

pub record SessionGrant : Type 0 where
  pub version : ℤ
  pub id : Str
  pub node_id : Str
  pub action : Str
  pub command : Str
  pub attach_id : Str
  pub allow_pty : Bool
  pub forward_target : Str
  pub client_noise_pub : Str
  pub agent_noise_pub : Str
  pub issued_at : ℤ
  pub expires_at : ℤ
  pub routes : List Str

pub data GrantError : Type 0 where
  bad_version wrong_node key_mismatch not_yet_valid expired bad_client_key unknown_action no_command
        no_attach_id no_target no_routes :
      GrantError

abbrev pub action_shell : Str
action_shell = bytes "shell"

abbrev pub action_exec : Str
action_exec = bytes "exec"

abbrev pub action_sftp : Str
action_sftp = bytes "sftp"

abbrev pub action_forward : Str
action_forward = bytes "forward"

abbrev pub action_attach : Str
action_attach = bytes "attach"

abbrev pub action_vpn : Str
action_vpn = bytes "vpn"

pub known_action : Str → Bool
known_action a =
    bytes_eq a action_shell
    || bytes_eq a action_exec
    || bytes_eq a action_sftp
    || bytes_eq a action_forward
    || bytes_eq a action_attach
    || bytes_eq a action_vpn

abbrev pub is_empty {ℓ} : {A : Type ℓ} → List A → Bool
is_empty [] = true
is_empty (x ∷ xs) = false

-- 2 * time.Minute
abbrev pub clock_skew : ℤ
clock_skew = pos 120_000_000_000

check_scope : SessionGrant → Option GrantError
check_scope g =
    if bytes_eq g.action action_exec && is_empty g.command
    then some no_command
    else if bytes_eq g.action action_attach && is_empty g.attach_id
    then some no_attach_id
    else if bytes_eq g.action action_forward && is_empty g.forward_target
    then some no_target
    else if bytes_eq g.action action_vpn && is_empty g.routes
    then some no_routes
    else none

-- Validate: none is a valid grant.
pub validate : SessionGrant → Str → Str → ℤ → Option GrantError
unfolding check_scope
validate g node_id agent_noise_pub now =
    if not (eqb_ℤ g.version (pos 1))
    then some bad_version
    else if not (bytes_eq g.node_id node_id)
    then some wrong_node
    else if not (bytes_eq g.agent_noise_pub agent_noise_pub)
    then some key_mismatch
    else if ltb_ℤ now (g.issued_at -ℤ clock_skew)
    then some not_yet_valid
    else if ltb_ℤ g.expires_at now
    then some expired
    else if not (length g.client_noise_pub == 32)
    then some bad_client_key
    else if not (known_action g.action)
    then some unknown_action
    else check_scope g

pub record Caps : Type 0 where
  pub allow : Bool
  pub allow_pty : Bool
  pub allow_input : Bool
  pub forward_targets : List Str
  pub allow_sftp_write : Bool
  pub allow_new_channels : Bool

-- grantImpliedCaps
unfoldable pub implied_caps : SessionGrant → Caps
implied_caps g = record {
  allow = true;
  allow_pty = g.allow_pty;
  allow_input = g.allow_pty;
  forward_targets = if is_empty g.forward_target then [] else g.forward_target ∷ [];
  allow_sftp_write = bytes_eq g.action action_sftp;
  allow_new_channels = true;
}

pub data DowngradeError : Type 0 where
  nil_caps pty_withheld input_withheld sftp_write_withheld : DowngradeError
  target_absent : Str → DowngradeError

abbrev pub contains : List Str → Str → Bool
contains [] x = false
contains (v ∷ vs) x = if bytes_eq v x then true else contains vs x

pub check_targets : List Str → List Str → Option DowngradeError
check_targets ceiling [] = none
check_targets ceiling (t ∷ ts) =
    let rest = check_targets ceiling ts in
    if not (contains ceiling t) then some (target_absent t) else rest

-- VerifyDowngrade: none is a downgrade.
unfoldable pub verify_downgrade : SessionGrant → Option Caps → Option DowngradeError
unfolding check_targets
verify_downgrade grant none = some nil_caps
verify_downgrade grant (some caps) =
    let ceiling = implied_caps grant in
    if not caps.allow
    then none
    else if caps.allow_pty && not ceiling.allow_pty
    then some pty_withheld
    else if caps.allow_input && not ceiling.allow_input
    then some input_withheld
    else if caps.allow_sftp_write && not ceiling.allow_sftp_write
    then some sftp_write_withheld
    else check_targets ceiling.forward_targets caps.forward_targets
