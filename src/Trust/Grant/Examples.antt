-- ===== src/Trust/Grant/Examples.antt =====
-- A grant for a shell, and the caps of a downgrade.
use geneza.Base.{true, false, [], bytes, replicate}
use geneza.Base.Int.{pos}
use geneza.Trust.Grant.{SessionGrant, Caps}

abbrev shell_grant : SessionGrant
shell_grant = record {
  version = pos 1;
  id = bytes "s1";
  node_id = bytes "n1";
  action = bytes "shell";
  command = [];
  attach_id = [];
  allow_pty = true;
  forward_target = [];
  client_noise_pub = replicate 32 7;
  agent_noise_pub = replicate 32 8;
  issued_at = pos 100;
  expires_at = pos 500;
  routes = [];
}

abbrev read_only_caps : Caps
read_only_caps = record {
  allow = true;
  allow_pty = true;
  allow_input = false;
  forward_targets = [];
  allow_sftp_write = false;
  allow_new_channels = true;
}
