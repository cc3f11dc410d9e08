-- ===== src/Controller/Nodes.antt =====
-- internal/controller/store.go and authzstate.go: the node records of the store, their admission and
-- their blessed binary, and the quarantine rows.
-- Every write is one transaction: its first argument says whether the database commits it, and none
-- is its error, which writes nothing. Of a quarantine, the detail and the platform are left out.
pub mod Writes
use geneza.Base.{
  Bool, true, false, not, ◌&&◌, Option, none, some, List, [], ◌∷◌, ◌++◌, ◌==◌, length,
  if◌then◌else◌, Str, bytes, bytes_eq,
}
use geneza.Base.Int.{ℤ, pos}
use geneza.Base.Dict.{Dict, get, put, remove}
use geneza.Controller.Rows.{Key, get_row, update_row}
use geneza.Policy.Engine.{Labels}

pub record NodeRecord : Type 0 where
  pub workspace_id : Str
  pub id : Str
  pub name : Str
  pub labels : Labels
  pub approved : Bool
  pub approved_by : Str
  pub approved_at_unix : ℤ
  pub approved_binary_hash : Str
  pub approved_binary_created_unix : ℤ
  pub last_binary_hash : Str
  pub last_measured_unix : ℤ

pub record QuarantineRecord : Type 0 where
  pub reason : Str
  pub quarantined_by : Str
  pub quarantined_unix : ℤ

pub record NodeStore : Type 0 where
  pub nodes : List NodeRecord
  pub quarantines : Dict QuarantineRecord

abbrev pub node_key : NodeRecord → Key
node_key n = (n.workspace_id, n.id)

-- GetNode
unfoldable pub get_node : NodeStore → Key → Option NodeRecord
get_node st k = get_row node_key st.nodes k

unfoldable pub quarantine_key : Key → Str
quarantine_key (ws, node_id) = ws ++ bytes "|" ++ node_id

abbrev pub is_empty {ℓ} : {A : Type ℓ} → List A → Bool
is_empty [] = true
is_empty (x ∷ xs) = false

-- The write of a node that is there.
unfoldable pub write_node : NodeStore → Key → (NodeRecord → NodeRecord) → NodeStore
write_node st k f = record st { nodes = update_row node_key st.nodes k f }

-- The admission gate; the blessed binary is kept.
unfoldable pub approval : Bool → Str → ℤ → NodeRecord → NodeRecord
approval true by now n = record n { approved = true; approved_by = by; approved_at_unix = now }
approval false by now n = record n { approved = false; approved_by = []; approved_at_unix = pos 0 }

-- The writes of an approval, which lifts the quarantine, or of its withdrawal.
unfoldable pub approved_store : NodeStore → Key → Bool → Str → ℤ → NodeStore
unfolding write_node approval quarantine_key
approved_store st k approve by now =
    let st' : NodeStore = write_node st k (approval approve by now) in
    if approve then record st' { quarantines = remove st'.quarantines (quarantine_key k) } else st'

-- SetNodeApproval
unfoldable pub set_node_approval : Bool → NodeStore → Key → Bool → Str → ℤ → Option NodeStore
unfolding get_node approved_store
set_node_approval commits st k approve by now = elim (get_node st k) [
  | none ↦ none
  | some n ↦ if not commits then none else some (approved_store st k approve by now)
]

unfoldable pub quarantined_store : NodeStore → Key → Str → Str → ℤ → NodeStore
unfolding write_node approval quarantine_key
quarantined_store st k reason by now =
    let st' : NodeStore = write_node st k (approval false by now) in
    record st' {
      quarantines =
          put st'.quarantines (quarantine_key k)
            (record { reason = reason; quarantined_by = by; quarantined_unix = now });
    }

-- QuarantineNode
unfoldable pub quarantine_node : Bool → NodeStore → Key → Str → Str → ℤ → Option NodeStore
unfolding get_node quarantined_store
quarantine_node commits st k reason by now = elim (get_node st k) [
  | none ↦ none
  | some n ↦ if not commits then none else some (quarantined_store st k reason by now)
]

-- What a measurement shows: whether it differs from the pinned baseline, whether it became the
-- baseline, and the node after it.
pub record Measured : Type 0 where
  pub drift : Bool
  pub pinned : Bool
  pub node : NodeRecord

unfoldable pub measure : Str → ℤ → NodeRecord → NodeRecord
measure hash at n =
    let n' : NodeRecord = record n { last_binary_hash = hash; last_measured_unix = at } in
    if n.approved && is_empty n.approved_binary_hash
    then record n' { approved_binary_hash = hash }
    else n'

-- RecordNodeMeasurement; a hash has 32 bytes.
unfoldable pub record_node_measurement :
    Bool → NodeStore → Key → Str → ℤ → Option (NodeStore × Measured)
unfolding get_node write_node measure
record_node_measurement commits st k hash at =
    if not (length hash == 32) then none else elim (get_node st k) [
      | none ↦ none
      | some n ↦
          if not commits
          then none
          else some (
            write_node st k (measure hash at),
            record {
              drift =
                  n.approved
                  && not (is_empty n.approved_binary_hash)
                  && not (bytes_eq n.approved_binary_hash hash);
              pinned = n.approved && is_empty n.approved_binary_hash;
              node = measure hash at n;
            },
          )
    ]

unfoldable pub bless : Str → ℤ → NodeRecord → NodeRecord
bless hash created n = record n {
  approved_binary_hash = hash;
  approved_binary_created_unix = created;
  last_binary_hash = hash;
}

-- RepinBaseline
unfoldable pub repin_baseline : Bool → NodeStore → Key → Str → ℤ → Option NodeStore
unfolding get_node write_node bless
repin_baseline commits st k hash created = elim (get_node st k) [
  | none ↦ none
  | some n ↦ if not commits then none else some (write_node st k (bless hash created))
]

pub data QuarantineLookup : Type 0 where
  found : QuarantineRecord → QuarantineLookup
  not_found failed : QuarantineLookup

looked_up : Option QuarantineRecord → QuarantineLookup
looked_up none = not_found
looked_up (some q) = found q

-- GetQuarantine; its first argument says whether the database can be read.
unfoldable pub get_quarantine : Bool → NodeStore → Key → QuarantineLookup
unfolding looked_up quarantine_key
get_quarantine readable st k =
    if not readable then failed else looked_up (get st.quarantines (quarantine_key k))

-- What FindNode's walk over a workspace collects: the nodes of a name.
unfoldable pub named : Str → Str → List NodeRecord → List NodeRecord
named ws name [] = []
named ws name (n ∷ ns) =
    let rest = named ws name ns in
    if bytes_eq n.workspace_id ws && bytes_eq n.name name then n ∷ rest else rest

only : List NodeRecord → Option NodeRecord
only [] = none
only (n ∷ []) = some n
only (n ∷ m ∷ ns) = none

-- FindNode, by the id and then by a name that one node has; none is its error.
unfoldable pub find_node : NodeStore → Str → Str → Option NodeRecord
unfolding get_node named only
find_node st ws ref = elim (get_node st (ws, ref)) [
  | some n ↦ some n
  | none ↦ only (named ws ref st.nodes)
]
