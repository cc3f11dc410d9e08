-- ===== src/Controller/Nodes/Writes.antt =====
-- What the transactions of the store leave of the node that they write.
use geneza.Base.{
  arith, bytes_eq, inr, inl, Bool-cases, [], ◌≡◌, refl, Bool, true, false, not, ◌&&◌, none, some,
  Str, length, ◌==◌, if◌then◌else◌,
}
use geneza.Base.Int.{ℤ, pos}
use geneza.Controller.Rows.{Key, key_eq_refl, get-update}
use geneza.Controller.Nodes.{
  record_node_measurement, is_empty, approved_store, bless, quarantined_store, measure,
  repin_baseline, set_node_approval, node_key, approval, write_node, NodeStore, NodeRecord,
  get_node, quarantine_node,
}

pub write_node-get :
    (st : NodeStore) (k : Key) (f : NodeRecord → NodeRecord) (n : NodeRecord)
    → ((x : NodeRecord) → node_key (f x) ≡ node_key x)
    → get_node st k ≡ some n
    → get_node (write_node st k f) k ≡ some (f n)
unfolding get_node write_node
write_node-get st k f n same h = rw (get-update node_key st.nodes k f same k, key_eq_refl k, h) refl

-- The gate of a node, closed.
unfoldable pub closed : NodeRecord → NodeRecord
closed n = record n { approved = false; approved_by = []; approved_at_unix = pos 0 }

same_measured : (hash : Str) (at : ℤ) (x : NodeRecord) → node_key (measure hash at x) ≡ node_key x
unfolding measure
same_measured hash at x = elim (Bool-cases (x.approved && is_empty x.approved_binary_hash)) [
  | inl h ↦ rw h refl
  | inr h ↦ rw h refl
]

module _ (st : NodeStore) (k : Key) (n : NodeRecord) (there : get_node st k ≡ some n) where
  pub quarantine_node-found :
      (commits : Bool) (reason by : Str) (now : ℤ)
      → quarantine_node commits st k reason by now
        ≡ (if not commits then none else some (quarantined_store st k reason by now))
  unfolding quarantine_node
  quarantine_node-found commits reason by now = rw (quarantine_node, there) refl

  pub get-quarantined :
      (reason by : Str) (now : ℤ)
      → get_node (quarantined_store st k reason by now) k ≡ some (closed n)
  unfolding quarantined_store get_node write_node closed approval
  get-quarantined reason by now =
      unfold get_node write_node in
      write_node-get st k (approval false by now) n (λ x. unfold approval in refl) there

  pub set_node_approval-found :
      (commits approve : Bool) (by : Str) (now : ℤ)
      → set_node_approval commits st k approve by now
        ≡ (if not commits then none else some (approved_store st k approve by now))
  unfolding set_node_approval
  set_node_approval-found commits approve by now = rw (set_node_approval, there) refl

  pub get-approved :
      (approve : Bool) (by : Str) (now : ℤ)
      → get_node (approved_store st k approve by now) k ≡ some (approval approve by now n)
  unfolding approved_store get_node write_node approval
  get-approved true by now = write_node-get st k (approval true by now) n (λ x. refl) there
  get-approved false by now = write_node-get st k (approval false by now) n (λ x. refl) there

  pub repin_baseline-found :
      (commits : Bool) (hash : Str) (created : ℤ)
      → repin_baseline commits st k hash created
        ≡ (if not commits then none else some (write_node st k (bless hash created)))
  unfolding repin_baseline
  repin_baseline-found commits hash created = rw (repin_baseline, there) refl

  pub get-blessed :
      (hash : Str) (created : ℤ)
      → get_node (write_node st k (bless hash created)) k ≡ some (bless hash created n)
  get-blessed hash created =
      write_node-get st k (bless hash created) n (λ x. unfold bless in refl) there

  pub get-measured :
      (hash : Str) (at : ℤ)
      → get_node (write_node st k (measure hash at)) k ≡ some (measure hash at n)
  get-measured hash at = write_node-get st k (measure hash at) n (same_measured hash at) there

  pub record_node_measurement-found :
      (commits : Bool) (hash : Str) (at : ℤ)
      → length hash == 32 ≡ true
      → commits ≡ true
      → record_node_measurement commits st k hash at
        ≡ some (
          write_node st k (measure hash at),
          record {
            drift =
                n.approved
                && not (is_empty n.approved_binary_hash)
                && not (bytes_eq n.approved_binary_hash hash);
            pinned = n.approved && is_empty n.approved_binary_hash;
            node = measure hash at n;
          },
        )
  unfolding record_node_measurement
  record_node_measurement-found commits hash at size h =
      rw (record_node_measurement, size, there, h) refl

  pub record_node_measurement-fails :
      (commits : Bool) (hash : Str) (at : ℤ)
      → length hash == 32 && commits ≡ false
      → record_node_measurement commits st k hash at ≡ none
  unfolding record_node_measurement
  record_node_measurement-fails commits hash at h = elim (Bool-cases (length hash == 32)) [
    | inr e ↦ rw (record_node_measurement, e) refl
    | inl e ↦ rw (record_node_measurement, e, there, uncommitted e) refl
  ]
    where
      uncommitted : length hash == 32 ≡ true → commits ≡ false
      uncommitted e = ground (arith, h)
