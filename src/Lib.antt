-- ===== src/Lib.antt =====
-- A model of Geneza's core, with the theorems that make it correct.
--
-- Geneza gives people shells, forwards and file transfers on the nodes of a fleet. A controller
-- (internal/controller) decides by a policy (internal/policy) who may do what, mints signed session
-- grants and pushes signed enforcement messages (internal/types); an agent on each node
-- (internal/agentd), kept up to date by a bootstrap (cmd/geneza-bootstrap), checks them against its
-- pinned keys and serves the sessions, whose terminals live in a session host (internal/sessionhost);
-- the local processes speak length-prefixed frames (internal/wire).
--
-- Parts and files, with the code that each models:
--   Base            shared names, tests on numbers, integers (Base/Int), maps (Base/Dict)
--   Policy/Window   internal/policy/policy.go: TimeWindow.contains as `contains`
--   Policy/Engine   internal/policy/policy.go: Records, Parse, RolesFor, Evaluate, matchList,
--                   LabelsMatch and Rule.matches as `records`, `parse`, `roles_for`, `evaluate`,
--                   `match_list`, `labels_match`, `matches`; the loop of Evaluate is `consider_roles`,
--                   and what one matching rule does to the decision is `merge`
--   SessionHost/Ring  internal/sessionhost/ring.go: add, deltaFrom and zeroize, and the numbering of
--                   the pumps of session.go as `feed`
--   SessionHost/Session, SessionHost/Session/Control  internal/sessionhost/session.go: a session under
--                   its lock, with the queue of its client: pump, attach, catchUpSnapshot, clientGone,
--                   detachRequest, handleInput, handleResize, handleStdinEOF, terminate and finalize,
--                   with the writer of attach.go as `take_frame` and SetCaps of sessionhost.go. An
--                   operation takes a `World`, the session and the counters of its host, and returns
--                   it with its effects, in their order
--   SessionHost/Session/Control/Host  internal/sessionhost/sessionhost.go: Create, remove and
--                   ApplyPolicy, and startDrain of drain.go, whose warnings are `notices` of the
--                   sessions; `Reachable` is every run of a host
--   Wire            internal/wire/frame.go: WriteFrame, ReadFrame, ReadFrameLimit, WriteJSON, ReadJSON
--   Trust/Signed, Trust/MultiSigned  internal/types/signed.go and multisigned.go: Verify, VerifyOne,
--                   VerifyMultiSig, whose loop is `count_valid`
--   Trust/FleetState  internal/types/trustanchors.go: TrustedGrantKeys and VerifyFleetState
--   Trust/RootKeys  internal/types/rootkeys.go: SigningKeys, VerifyRootKeys and VerifyArtifactChain
--   Trust/Grant     internal/types/grant.go and sessionpolicy.go: Validate, grantImpliedCaps and
--                   VerifyDowngrade
--   Agent/Live, Agent/Lease  internal/agentd/lease.go, with the live sessions of worker.go and the
--                   forward scope of offer.go: a handler takes the worker and returns it with the
--                   effects that it has, in their order; `handle` is the dispatch of the stream
--   Controller/Rollout, Controller/Rollout/Steps  internal/controller/rollout.go, with canaryBlockers
--                   of adminapi.go: what the store holds for one product is a `Channel`; none is an
--                   error, and for `rollout_tick` it is a panic
--   Controller/DenyCache  internal/controller/denycache.go: a lookup in two operations around its
--                   loader, since the lock is not held there; System is every interleaving of them
--   Controller/Audit  internal/controller/audit.go: scanAuditFile and repairTornTail, with JSON and the
--                   MAC as a `Codec`; Ops has the log itself, OpenAudit, AppendWS and Verify, where an
--                   append is told how far its write, sync and checkpoint come; Query has QueryPage
--   Controller/Pagination  internal/controller/pagination.go
--   Controller/Presence  internal/controller/presence.go: one heartbeat is
--                   `verify_presence_session`, with the session that it reads and the row that it stamps
--   Controller/Rows, Controller/Nodes, Controller/Sessions  the rows of nodes, quarantines and
--                   sessions of internal/controller/store.go and authzstate.go with the methods of the
--                   store on them, and the signed pushes of sessionenforce.go, registry.go and
--                   streamrouter.go: nextEpoch is `next_epoch`, SendRevoke is `send_revoke`
--   Controller/Reauth  internal/controller/continuousauthz.go: reauthorizeWith as `reauthorize`,
--                   revokeSession and driveLiveSessionWith; Ops has reauthSweep, the revokes,
--                   suspendPrincipal and redeliverPendingRevokes, and Events has handleSessionEvent of
--                   nodecontrol.go; Broker has the writes of session rows of broker.go and presence.go,
--                   and `Run` of Lifetime is every run of all of these. A `Server` is the facts that decisions
--                   read, the sessions, the deny cache and the effects, in their order
--   Controller/Drift, Controller/Drift/Approval  the same file: quarantineNode, evaluateBinaryDrift,
--                   driftQuarantine, approveNodeWithReason and rebaselineNode, where `Commits` says
--                   which reads and writes of the store succeed
--   Update/Reconcile  internal/update/state.go and the update loop of cmd/geneza-bootstrap/main.go:
--                   a `Poll` is what the world answers during one round of it
--   Affected/Ecosystem  internal/affected/ecosystem.go: ParseEcosystem, the index key and
--                   EcosystemApplies
--   Affected/Engine internal/affected/engine/engine.go: evalRange, evalAffected, matchOne, selectAffected
--                   and MatchNode, with the comparison of versions as a parameter
--   EnrollCode      internal/enrollcode/enrollcode.go: Encode and Decode, with base64 in Base64
--   Purl, Purl/Distro  internal/purl/purl.go: Parse, with url.PathUnescape, and the ecosystem of a
--                   package, where distroVendorRelease is in four steps
-- The files below a part hold its lemmas and properties, and Examples runs them on concrete data.
--
-- How they interact: the agent accepts the messages of Agent/Lease by the `verify` of Trust/Signed,
-- bounds a delta by the `verify_downgrade` of Trust/Grant, and keeps the grant of each session; the
-- fleet state of Trust/FleetState is accepted by the quorum of Trust/MultiSigned; a session of
-- SessionHost/Session keeps its output in a ring of SessionHost/Ring and replays it from there. The
-- controller decides on a live session again by the `evaluate` of Policy/Engine, a suspension drops
-- the verdicts of Controller/DenyCache, and a revoke that Controller/Reauth pushes is one that the
-- `apply_revoke` of Agent/Lease takes.
--
-- Conventions. Text and bytes are lists of numbers. An int64 is an integer of Base/Int: the sums of
-- times and of sizes stay far from 2^63, and where a value may wrap, the modulus is written out: the
-- generation of the deny cache, the epochs of enforcement and the numbers of the output chunks. An
-- operation of a controller runs to its end and reads the clock once, and its writes of session rows
-- commit, while its reads, its signing and its sends may fail. A map is an association list. The
-- clock, the store's answers, the fleet's health and the outcome of a download are arguments. Ed25519,
-- SHA-256, HMAC, encoding/json and osv-scalibr are parameters. Every loop is a recursion on a list;
-- the only fuel is that of decimal digits, 20 of them for a port of at most 5.
--
-- Not modelled: sockets, files, gRPC, the database and its stores, the relay, the VPN, the web console
-- and the generated protocol code, which are I/O or glue; the reaper and the shutdown of the session
-- host, the process supervisor and the broker of sessions, but for its writes of session rows, are
-- logic that is left out. Terminal emulation is a `Screen`, a parameter. The audit log is without its
-- off-box sink and its cached verification, and the SBOM formats are decoders. The handlers of an
-- agent are each one step: that two of them interleave between their locks is not modelled, but
-- `delta_commit` makes the second check of the epoch.
pub mod Base
pub mod Policy
pub mod SessionHost
pub mod Wire
pub mod Trust
pub mod Agent
pub mod Controller
pub mod Update
pub mod Affected
pub mod EnrollCode
pub mod Purl
