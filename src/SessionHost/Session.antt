-- ===== src/SessionHost/Session.antt =====
-- internal/sessionhost/session.go: a session with the client that is attached to it, beside the counters
-- of its host. Every function is what runs under the lock of the session; time.Now is an argument.
-- The virtual terminal is a third-party package and a parameter; the recorder, the process and its
-- pipes are effects or left out. A client is known by a number, as by its pointer in the code.
pub mod Control
pub mod Delivery
use geneza.Base.{
  ℕ, ◌+◌, ◌%◌, ◌^◌, Bool, true, false, not, ◌&&◌, ◌||◌, Option, none, some, List, [], ◌∷◌, ◌++◌,
  map, ltb, leb, ◌==◌, if◌then◌else◌, length, Str, bytes, bytes_eq,
}
use geneza.Base.Int.{ℤ, pos, ◌+ℤ◌, ◌-ℤ◌, ltb_ℤ, leb_ℤ}
use geneza.SessionHost.Ring.{RingChunk, Ring, new_ring, add, delta_from}

pub data SessionState : Type 0 where
  attached detached exited : SessionState

pub data Frame : Type 0 where
  -- the data, the sequence number, and the size of the screen
  snapshot : Str → ℕ → ℕ → ℕ → Frame
  chunk : ℕ → Bool → Str → Frame
  exit_frame : ℤ → Str → Frame
  input_ack : ℕ → Frame

pub record Client : Type 0 where
  pub id : ℕ
  pub queue : List Frame
  pub lagged : Bool

abbrev pub client_chan_depth : ℕ
client_chan_depth = 256

-- The operations of a terminal that the session uses.
pub record Screen (VT : Type 0) : Type 0 where
  pub write : VT → Str → VT
  pub render : VT → Str
  pub resize : VT → ℕ → ℕ → VT

pub record Session (VT : Type 0) : Type 0 where
  pub pty_mode : Bool
  pub detachable : Bool
  pub state : SessionState
  pub last_activity : ℤ
  pub detached_since : ℤ
  pub detached_counted : Bool
  pub cols : ℕ
  pub rows : ℕ
  pub vt : Option VT
  pub ring : Ring
  pub seq : ℕ
  pub last_input_seq : ℕ
  pub stdin_closed : Bool
  pub client : Option Client
  pub allow_input : Bool
  pub is_exited : Bool
  pub exit_code : ℤ
  pub exit_reason : Str
  pub kill_reason : Str

-- A session with the counters of its host.
pub record World (VT : Type 0) : Type 0 where
  pub detached_n : ℤ
  pub active_n : ℤ
  pub max_detached : ℕ
  pub session : Session VT

pub data Effect : Type 0 where
  -- the stop channel of a client is closed
  closes : ℕ → Effect
  -- s.terminate with a reason
  terminates : Str → Effect
  -- bytes written to the process
  writes : Str → Effect
  closes_stdin : Effect

pub data DetachError : Type 0 where
  not_detachable max_detached_reached : DetachError

-- `s.client == cl`
pub is_client : Option Client → ℕ → Bool
is_client none id = false
is_client (some cl) id = cl.id == id

pub has_screen : {VT : Type 0} → Option VT → Bool
has_screen none = false
has_screen (some v) = true

drawn : {VT : Type 0} → Screen VT → Option VT → Str → Option VT
drawn t none output = none
drawn t (some v) output = some (t.write v output)

rendered : {VT : Type 0} → Screen VT → Option VT → Str
rendered t none = []
rendered t (some v) = t.render v

pub resized : {VT : Type 0} → Screen VT → Option VT → ℕ → ℕ → Option VT
resized t none cols rows = none
resized t (some v) cols rows = some (t.resize v cols rows)

pub chunk_frames : List RingChunk → List Frame
chunk_frames = map (λ c. chunk c.seq c.stderr c.payload)

pub clamp_dim : ℕ → ℕ → ℕ
clamp_dim v fallback = if v == 0 then fallback else if ltb 1000 v then 1000 else v

module _ {VT : Type 0} where
  pub mark_detached : ℤ → World VT → World VT
  mark_detached now w =
      let s = w.session in
      let s' = record s { state = detached; detached_since = now } in
      if s.detachable && not s.detached_counted
      then record w {
        detached_n = w.detached_n +ℤ pos 1;
        session = record s' { detached_counted = true };
      }
      else record w { session = s' }

  -- The client is dropped from a session that has no screen.
  drop_client : ℤ → World VT → ℕ → World VT × List Effect
  unfolding mark_detached
  drop_client now w id =
      let s = record w.session { client = none } in
      let w' = record w { session = s } in
      if s.is_exited
      then (w', closes id ∷ [])
      else if s.detachable
      then (mark_detached now w', closes id ∷ [])
      else (
        record w { session = record s { state = detached; detached_since = now } },
        closes id ∷ terminates (bytes "killed") ∷ [],
      )

  enqueue : ℤ → World VT → Frame → Option Client → World VT × List Effect
  unfolding drop_client has_screen
  enqueue now w m none = (w, [])
  enqueue now w m (some cl) =
      if ltb (length cl.queue) client_chan_depth
      then (
        record w {
          session = record w.session { client = some (record cl { queue = cl.queue ++ m ∷ [] }) };
        },
        [],
      )
      else if has_screen w.session.vt
      then (
        record w { session = record w.session { client = some (record cl { lagged = true }) } },
        [],
      )
      else drop_client now w cl.id

  -- deliverLocked
  pub deliver : ℤ → World VT → Frame → World VT × List Effect
  unfolding enqueue
  deliver now w m = enqueue now w m w.session.client

  taken : Session VT → Client → List Frame → Session VT × Option Frame
  taken s cl [] = (s, none)
  taken s cl (m ∷ ms) = (record s { client = some (record cl { queue = ms }) }, some m)

  -- The writer takes a frame off the queue of the attached client.
  pub take_frame : Session VT → Option Client → Session VT × Option Frame
  unfolding taken
  take_frame s none = (s, none)
  take_frame s (some cl) = taken s cl cl.queue

  pub marker : Session VT → ℕ → List Frame
  marker s last_seen =
      if not s.pty_mode && last_seen == 0 then snapshot [] 0 s.cols s.rows ∷ [] else []

  tombstone_frames : Session VT → ℕ → List RingChunk × Bool → List Frame
  unfolding marker chunk_frames
  tombstone_frames s last_seen (chunks, covered) =
      (if covered then marker s last_seen ++ chunk_frames chunks else [])
      ++ exit_frame s.exit_code s.exit_reason ∷ []

  -- The effect on a client that was attached before, and on the count of detached sessions.
  preempt : World VT → Option Client → World VT × List Effect
  preempt w (some old) = (w, closes old.id ∷ [])
  preempt w none =
      if w.session.detached_counted
      then (
        record w {
          detached_n = w.detached_n -ℤ pos 1;
          session = record w.session { detached_counted = false };
        },
        [],
      )
      else (w, [])

module _ {VT : Type 0} (t : Screen VT) where
  -- What the pump, emitNotice and sendDrainNotice do with a piece of output.
  pub emit : ℤ → Bool → Str → World VT → World VT × List Effect
  unfolding deliver drawn
  emit now stderr output w =
      let s = w.session in
      let seq = (s.seq + 1) % 2 ^ 64 in
      deliver now
        (record w {
          session = record s {
            seq = seq;
            ring = (add s.ring seq stderr output).0;
            vt = drawn t s.vt output;
          };
        })
        (chunk seq stderr output)

  pub pump : ℤ → Bool → Str → World VT → World VT × List Effect
  unfolding emit
  pump now stderr output w =
      emit now stderr output (record w { session = record w.session { last_activity = now } })

  caught_up : Session VT → Client → Session VT × Option Frame
  unfolding rendered has_screen
  caught_up s cl =
      if cl.lagged
      then (
        record s { client = some (record cl { queue = []; lagged = false }) },
        if has_screen s.vt then some (snapshot (rendered t s.vt) s.seq s.cols s.rows) else none,
      )
      else (s, none)

  -- catchUpSnapshot of the attached client.
  pub catch_up_snapshot : Session VT → Option Client → Session VT × Option Frame
  unfolding caught_up
  catch_up_snapshot s none = (s, none)
  catch_up_snapshot s (some cl) = caught_up s cl

  initial_frames : Session VT → ℕ → List RingChunk × Bool → List Frame
  unfolding marker chunk_frames rendered
  initial_frames s last_seen (chunks, covered) =
      if covered && (ltb 0 last_seen || not s.pty_mode)
      then marker s last_seen ++ chunk_frames chunks
      else snapshot (rendered t s.vt) s.seq s.cols s.rows ∷ []

  -- attach: the world, the effects, the initial frames and whether the client is registered.
  pub attach : ℕ → ℕ → World VT → World VT × List Effect × List Frame × Bool
  unfolding tombstone_frames initial_frames preempt
  attach id last_seen w =
      let delta = delta_from w.session.ring last_seen w.session.seq in
      if w.session.is_exited
      then (w, [], tombstone_frames w.session last_seen delta, false)
      else let (w', effects) = preempt w w.session.client in
        (
          record w' {
            session = record w'.session {
              client = some (record { id = id; queue = []; lagged = false });
              state = attached;
              detached_since = pos 0;
              last_input_seq = 0;
            };
          },
          effects,
          initial_frames w.session last_seen delta,
          true,
        )
