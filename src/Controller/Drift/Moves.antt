-- ===== src/Controller/Drift/Moves.antt =====
-- The writes of a verdict, and the baseline that each leaves.
use geneza.Base.{◌≡◌, refl, ◌⊎◌, true, false, ◌&&◌, some, Bool-cases, inl, inr, Str, map, Distinct}
use geneza.Base.Int.{ℤ, pos, ltb_ℤ}
use geneza.Controller.Rows.{Key}
use geneza.Controller.Nodes.{NodeRecord, get_node, is_empty, bless}
use geneza.Controller.Nodes.Writes.{closed, repin_baseline-found, get-blessed}
use geneza.Controller.Sessions.{session_key, Server, Env, emit}
use geneza.Controller.Drift.{
  Commits, Manifest, Published, release, unpublished, lookup_failed, with_store, drift_quarantine,
  fresh_approval, pin_floor, accept_release,
}
use geneza.Controller.Drift.Gate.{deny_anyway-cases}

-- How the baseline of a node stands after a measurement that the lookup `p` answered.
pub data Moved (n n' : NodeRecord) (hash : Str) (p : Published) : Type 0 where
  kept :
      n'.approved_binary_hash ≡ n.approved_binary_hash
      → n'.approved_binary_created_unix ≡ n.approved_binary_created_unix
      → Moved n n' hash p
  -- the first measurement of an approved node: the floor stays, or is that of its release
  pinned :
      n.approved ≡ true
      → is_empty n.approved_binary_hash ≡ true
      → n'.approved_binary_hash ≡ hash
      → (n'.approved_binary_created_unix ≡ n.approved_binary_created_unix)
        ⊎ ((m : Manifest) × (p ≡ release m) × (n'.approved_binary_created_unix ≡ m.created_unix))
      → Moved n n' hash p
  -- a release that is not older than the floor
  updated :
      (m : Manifest)
      → p ≡ release m
      → n.approved ≡ true
      → ltb_ℤ (pos 0) n.approved_binary_created_unix
          && ltb_ℤ m.created_unix n.approved_binary_created_unix
        ≡ false
      → n'.approved_binary_hash ≡ hash
      → n'.approved_binary_created_unix ≡ m.created_unix
      → Moved n n' hash p

-- The node after an operation, whose baseline moved so.
abbrev pub Left : Server → Key → NodeRecord → Str → Published → Type 0
Left s k n hash p = (n' : NodeRecord) × (get_node s.facts.store k ≡ some n') × Moved n n' hash p

module _ (env : Env) (c : Commits) (ws node_id : Str) where
  abbrev pub key : Key
  key = (ws, node_id)

  -- A quarantine leaves the baseline.
  pub drift_quarantine-Left :
      (reason : Str) (measured : ℤ) (s : Server) (n old : NodeRecord) (hash : Str) (p : Published)
      → get_node s.facts.store key ≡ some n
      → Distinct (map session_key s.sessions)
      → Moved old n hash p
      → Moved old (closed n) hash p
      → Left (drift_quarantine env c ws node_id reason measured s) key old hash p
  unfolding drift_quarantine
  drift_quarantine-Left reason measured s n old hash p there d same shut =
      elim (Bool-cases (c.reads_node && fresh_approval measured (get_node s.facts.store key))) [
        | inl h ↦ rw h (n, there, same)
        | inr h ↦ rw h (elim (deny_anyway-cases env c ws node_id s n there d reason) [
          | inl e ↦ (closed n, e, shut)
          | inr e ↦ (n, e, same)
        ])
      ]

  -- A release is blessed if that commits.
  pub accept_release-Left :
      (hash : Str) (m : Manifest) (s : Server) (n old : NodeRecord) (p : Published)
      → get_node s.facts.store key ≡ some n
      → Moved old n hash p
      → Moved old (bless hash m.created_unix n) hash p
      → Left (accept_release c ws node_id hash m s) key old hash p
  unfolding accept_release with_store emit
  accept_release-Left hash m s n old p there same moved = elim (Bool-cases c.repins) [
    | inl h ↦ (
      bless hash m.created_unix n,
      rw
          (
            accept_release,
            repin_baseline-found s.facts.store key n there c.repins hash m.created_unix,
            h,
          )
          (get-blessed s.facts.store key n there hash m.created_unix),
      moved,
    )
    | inr h ↦ (
      n,
      rw
          (
            accept_release,
            repin_baseline-found s.facts.store key n there c.repins hash m.created_unix,
            h,
          )
          there,
      same,
    )
  ]

  pub pin_floor-Left :
      (hash : Str) (q : Published) (s : Server) (n old : NodeRecord) (p : Published)
      → get_node s.facts.store key ≡ some n
      → Moved old n hash p
      → ((m : Manifest) → q ≡ release m → Moved old (bless hash m.created_unix n) hash p)
      → Left (pin_floor c key hash q s) key old hash p
  unfolding pin_floor with_store
  pin_floor-Left hash unpublished s n old p there same moved = (n, there, same)
  pin_floor-Left hash lookup_failed s n old p there same moved = (n, there, same)
  pin_floor-Left hash (release m) s n old p there same moved = elim (Bool-cases c.repins) [
    | inl h ↦ (
      bless hash m.created_unix n,
      rw (pin_floor, repin_baseline-found s.facts.store key n there c.repins hash m.created_unix, h)
          (get-blessed s.facts.store key n there hash m.created_unix),
      moved m refl,
    )
    | inr h ↦ (
      n,
      rw (pin_floor, repin_baseline-found s.facts.store key n there c.repins hash m.created_unix, h)
          there,
      same,
    )
  ]
