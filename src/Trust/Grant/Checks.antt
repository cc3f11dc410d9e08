-- ===== src/Trust/Grant/Checks.antt =====
-- A grant that Validate passes, and a delta that VerifyDowngrade passes.
use geneza.Base.{
  ◌≡◌, ◌≢◌, refl, sym, ◌↔◌, ◌⊎◌, inl, inr, true, false, none, some, List, [], ◌∷◌, arith, Str,
  bytes_eq, bytes_eq_iff, length, All, In, Bool-cases,
}
use geneza.Base.Int.{ℤ, pos, eqb_ℤ_iff, ◌-ℤ◌, ◌≤ℤ◌}
use geneza.Trust.Grant.{
  SessionGrant, action_shell, action_exec, action_sftp, action_forward, action_attach, action_vpn,
  known_action, is_empty, clock_skew, check_scope, validate, Caps, implied_caps, contains,
  check_targets, verify_downgrade,
}

abbrev pub KnownAction : Str → Type 0
KnownAction a =
    In a
      (action_shell ∷ action_exec ∷ action_sftp ∷ action_forward ∷ action_attach ∷ action_vpn ∷ [])

-- What a valid grant is for the agent of a node, at an instant.
pub record IsValid (g : SessionGrant) (node_id agent_noise_pub : Str) (now : ℤ) : Type 0 where
  pub version : g.version ≡ pos 1
  pub for_node : g.node_id ≡ node_id
  pub for_agent : g.agent_noise_pub ≡ agent_noise_pub
  pub begun : g.issued_at -ℤ clock_skew ≤ℤ now
  pub not_over : now ≤ℤ g.expires_at
  pub client_key : length g.client_noise_pub ≡ 32
  pub known : KnownAction g.action
  pub exec_scope : g.action ≡ action_exec → g.command ≢ []
  pub attach_scope : g.action ≡ action_attach → g.attach_id ≢ []
  pub forward_scope : g.action ≡ action_forward → g.forward_target ≢ []
  pub vpn_scope : g.action ≡ action_vpn → g.routes ≢ []

known_action_iff : (a : Str) → (known_action a ≡ true) ↔ KnownAction a
unfolding known_action
known_action_iff a = ground (
  arith,
  bytes_eq_iff a action_shell,
  bytes_eq_iff a action_exec,
  bytes_eq_iff a action_sftp,
  bytes_eq_iff a action_forward,
  bytes_eq_iff a action_attach,
  bytes_eq_iff a action_vpn,
)

is_empty_iff {ℓ} : {A : Type ℓ} (xs : List A) → (is_empty xs ≡ true) ↔ (xs ≡ [])
is_empty_iff [] = (λ _. refl, λ _. refl)
is_empty_iff (x ∷ xs) = (λ h. cc, λ h. cc)

record ScopeOk (g : SessionGrant) : Type 0 where
  exec_scope : g.action ≡ action_exec → g.command ≢ []
  attach_scope : g.action ≡ action_attach → g.attach_id ≢ []
  forward_scope : g.action ≡ action_forward → g.forward_target ≢ []
  vpn_scope : g.action ≡ action_vpn → g.routes ≢ []

check_scope_iff : (g : SessionGrant) → (check_scope g ≡ none) ↔ ScopeOk g
unfolding check_scope
check_scope_iff g =
    let exec = bytes_eq_iff g.action action_exec in
    let attach = bytes_eq_iff g.action action_attach in
    let forward = bytes_eq_iff g.action action_forward in
    let vpn = bytes_eq_iff g.action action_vpn in
    let command = is_empty_iff g.command in
    let attach_id = is_empty_iff g.attach_id in
    let target = is_empty_iff g.forward_target in
    let routes = is_empty_iff g.routes in
    (
      λ h. record {
        exec_scope = λ a e. ground arith;
        attach_scope = λ a e. ground arith;
        forward_scope = λ a e. ground arith;
        vpn_scope = λ a e. ground arith;
      },
      λ h. ground (arith, h.exec_scope, h.attach_scope, h.forward_scope, h.vpn_scope),
    )

-- Validate passes a grant exactly when every one of the agent's local checks holds.
pub validate_iff :
    (g : SessionGrant) (node_id agent_noise_pub : Str) (now : ℤ)
    → (validate g node_id agent_noise_pub now ≡ none) ↔ IsValid g node_id agent_noise_pub now
unfolding validate
validate_iff g node_id agent_noise_pub now =
    let version = eqb_ℤ_iff g.version (pos 1) in
    let node = bytes_eq_iff g.node_id node_id in
    let agent = bytes_eq_iff g.agent_noise_pub agent_noise_pub in
    let known = known_action_iff g.action in
    let scope = check_scope_iff g in
    (
      λ h.
          let s = scope.0 (ground arith) in
          record {
            version = ground arith;
            for_node = ground arith;
            for_agent = ground arith;
            begun = ground arith;
            not_over = ground arith;
            client_key = ground arith;
            known = known.0 (ground arith);
            exec_scope = s.exec_scope;
            attach_scope = s.attach_scope;
            forward_scope = s.forward_scope;
            vpn_scope = s.vpn_scope;
          },
      λ v.
          let k = known.1 v.known in
          let s = scope.1 (record {
            exec_scope = v.exec_scope;
            attach_scope = v.attach_scope;
            forward_scope = v.forward_scope;
            vpn_scope = v.vpn_scope;
          }) in
          let a = version.1 v.version in
          let b = node.1 v.for_node in
          let c = agent.1 v.for_agent in ground (arith, v.begun, v.not_over, v.client_key),
    )

-- Every bit that is on is on in the ceiling, and every target is one of the ceiling's.
pub record Below (caps ceiling : Caps) : Type 0 where
  pub allow : caps.allow ≡ true → ceiling.allow ≡ true
  pub pty : caps.allow_pty ≡ true → ceiling.allow_pty ≡ true
  pub input : caps.allow_input ≡ true → ceiling.allow_input ≡ true
  pub targets : All (λ t. In t ceiling.forward_targets) caps.forward_targets
  pub sftp_write : caps.allow_sftp_write ≡ true → ceiling.allow_sftp_write ≡ true
  pub new_channels : caps.allow_new_channels ≡ true → ceiling.allow_new_channels ≡ true

contains_iff : (xs : List Str) (x : Str) → (contains xs x ≡ true) ↔ In x xs
contains_iff [] x = ground arith
contains_iff (v ∷ vs) x =
    let head = bytes_eq_iff v x in
    elim (Bool-cases (bytes_eq v x)) [
      | inl e ↦ rw e (λ _. inl (sym (head.0 e)), λ _. refl)
      | inr e ↦ rw e (
        λ h. inr ((contains_iff vs x).0 h),
        λ h. elim h [ inl q ↦ cc (e, head.1 (sym q)) | inr m ↦ (contains_iff vs x).1 m ],
      )
    ]

check_targets_iff :
    (ceiling ts : List Str) → (check_targets ceiling ts ≡ none) ↔ All (λ t. In t ceiling) ts
unfolding check_targets
check_targets_iff ceiling [] = (λ _. tt, λ _. refl)
check_targets_iff ceiling (t ∷ ts) =
    ground (arith, contains_iff ceiling t, check_targets_iff ceiling ts)

-- A delta passes exactly when it cuts the session, or turns on no bit and adds no forward target
-- that the standing grant withholds.
pub verify_downgrade_iff :
    (grant : SessionGrant) (caps : Caps)
    → (verify_downgrade grant (some caps) ≡ none)
      ↔ ((caps.allow ≡ false) ⊎ Below caps (implied_caps grant))
unfolding verify_downgrade
verify_downgrade_iff grant caps =
    let targets = check_targets_iff (implied_caps grant).forward_targets caps.forward_targets in
    let all_on : ((implied_caps grant).allow ≡ true)
        × ((implied_caps grant).allow_new_channels ≡ true) =
      unfold implied_caps in (refl, refl) in
    (
      λ h. elim (Bool-cases caps.allow) [
        | inr cut ↦ inl cut
        | inl on ↦ inr (record {
          allow = λ _. all_on.0;
          pty = λ e. ground arith;
          input = λ e. ground arith;
          targets = targets.0 (ground arith);
          sftp_write = λ e. ground arith;
          new_channels = λ _. all_on.1;
        })
      ],
      λ h. elim h [
        | inl cut ↦ ground arith
        | inr b ↦ let t = targets.1 b.targets in ground (arith, b.pty, b.input, b.sftp_write)
      ],
    )
