-- ===== src/SessionHost/Session/Control/Host.antt =====
-- internal/sessionhost/sessionhost.go: the sessions of a host, their creation, and the steps that the
-- clients, the agent and the processes make, in any order.
use geneza.Base.{
  ℕ, zero, suc, Bool, true, false, not, ◌&&◌, Option, none, some, List, [], ◌∷◌, ◌++◌, ◌==◌,
  if◌then◌else◌, get_elem?, set, Str, arith, Bool-cases, inl, inr,
}
use geneza.Base.Int.{ℤ, pos, ◌+ℤ◌, leb_ℤ}
use geneza.SessionHost.Ring.{new_ring}
use geneza.SessionHost.Session.{
  detached, Screen, Session, World, clamp_dim, emit, pump, attach, catch_up_snapshot, take_frame,
}
use geneza.SessionHost.Session.Control.{
  client_gone, detach_request, handle_input, handle_stdin_eof, terminate, set_caps, finalize,
  handle_resize,
}
use geneza.SessionHost.Session.Control.WellFormed.{
  Counted, client_gone-Counted, detach_request-Counted, terminate-Counted, handle_stdin_eof-Counted,
  handle_input-Counted, set_caps-Counted, emit-Counted, pump-Counted, handle_resize-Counted,
  attach-Counted, catch_up_snapshot-Counted, take_frame-Counted, finalize-Counted,
}

pub record Host (VT : Type 0) : Type 0 where
  pub forbid_detach : Bool
  pub max_sessions : ℕ
  pub max_detached : ℕ
  pub ring_bytes : ℤ
  pub draining : Bool
  pub active_n : ℤ
  pub detached_n : ℤ
  pub sessions : List (Session VT)

pub record CreateRequest : Type 0 where
  pub pty : Bool
  pub detachable : Bool
  pub has_command : Bool
  pub cols : ℕ
  pub rows : ℕ

pub data CreateError : Type 0 where
  is_draining detach_forbidden detach_needs_pty too_many_sessions too_many_detached needs_command
        start_failed :
      CreateError

-- A new session, as startSession makes it.
unfoldable pub new_session : {VT : Type 0} → Option VT → ℤ → ℤ → CreateRequest → Session VT
unfolding clamp_dim
new_session vt now ring_bytes q = record {
  pty_mode = q.pty;
  detachable = q.detachable;
  state = detached;
  last_activity = now;
  detached_since = now;
  detached_counted = q.detachable;
  cols = clamp_dim q.cols 80;
  rows = clamp_dim q.rows 24;
  vt = vt;
  ring = new_ring ring_bytes;
  seq = 0;
  last_input_seq = 0;
  stdin_closed = false;
  client = none;
  allow_input = true;
  is_exited = false;
  exit_code = pos 0;
  exit_reason = [];
  kill_reason = [];
}

module _ {VT : Type 0} (blank : ℕ → ℕ → VT) where
  -- Create: the reservation of the counters is undone when the session does not start. `starts` says
  -- that its user is one that it may run as, and that its process and pipes could be made.
  unfoldable pub create : ℤ → Bool → CreateRequest → Host VT → Host VT × Option CreateError
  unfolding new_session
  create now starts q h =
      if h.draining
      then (h, some is_draining)
      else if q.detachable && h.forbid_detach
      then (h, some detach_forbidden)
      else if q.detachable && not q.pty
      then (h, some detach_needs_pty)
      else if leb_ℤ (pos h.max_sessions) h.active_n
      then (h, some too_many_sessions)
      else if q.detachable && leb_ℤ (pos h.max_detached) h.detached_n
      then (h, some too_many_detached)
      else if not q.pty && not q.has_command
      then (h, some needs_command)
      else if not starts
      then (h, some start_failed)
      else (
        record h {
          active_n = h.active_n +ℤ pos 1;
          detached_n = if q.detachable then h.detached_n +ℤ pos 1 else h.detached_n;
          sessions =
              h.sessions
              ++ new_session
                  (if q.pty then some (blank (clamp_dim q.cols 80) (clamp_dim q.rows 24)) else none)
                  now h.ring_bytes q
                ∷ [];
        },
        none,
      )

-- What may happen to a session: the process, the writer of its client, its client, and the agent.
pub data Event : Type 0 where
  pumps notices : Bool → Str → Event
  attaches : ℕ → ℕ → Event
  catches_up takes : Event
  leaves detaches : ℕ → Event
  inputs : ℕ → ℕ → Str → Event
  resizes : ℕ → ℕ → ℕ → Event
  ends_input : ℕ → Event
  terminated : Str → Event
  capped : Bool → Event
  exits : ℤ → Str → Event

module _ {VT : Type 0} (t : Screen VT) where
  pub happens : ℤ → Event → World VT → World VT
  happens now (pumps stderr output) w = (pump t now stderr output w).0
  happens now (notices stderr output) w = (emit t now stderr output w).0
  happens now (attaches id last_seen) w = (attach t id last_seen w).0
  happens now catches_up w = record w {
    session = (catch_up_snapshot t w.session w.session.client).0;
  }
  happens now takes w = record w { session = (take_frame w.session w.session.client).0 }
  happens now (leaves id) w = (client_gone now id w).0
  happens now (detaches id) w = (detach_request now id w).0
  happens now (inputs id seq input) w = (handle_input now id seq input w).0
  happens now (resizes id cols rows) w = handle_resize t id cols rows w
  happens now (ends_input id) w = (handle_stdin_eof id w).0
  happens now (terminated reason) w = terminate reason w
  happens now (capped read_only) w = set_caps read_only w
  -- the waiter of a process runs once
  happens now (exits code status) w =
      if w.session.is_exited then w else (finalize now code status w).0

  pub happens-Counted :
      (d r : ℕ) (now : ℤ) (e : Event) (w : World VT) → Counted d r w → Counted d r (happens now e w)
  unfolding happens
  happens-Counted d r now (pumps stderr output) w k = pump-Counted t d r now stderr output w k
  happens-Counted d r now (notices stderr output) w k = emit-Counted t d r now stderr output w k
  happens-Counted d r now (attaches id last_seen) w k = attach-Counted t d r id last_seen w k
  happens-Counted d r now catches_up w k = catch_up_snapshot-Counted t d r w k
  happens-Counted d r now takes w k = take_frame-Counted d r w k
  happens-Counted d r now (leaves id) w k = client_gone-Counted d r now id w k
  happens-Counted d r now (detaches id) w k = detach_request-Counted d r now id w k
  happens-Counted d r now (inputs id seq input) w k = handle_input-Counted d r now id seq input w k
  happens-Counted d r now (resizes id cols rows) w k = handle_resize-Counted t d r id cols rows w k
  happens-Counted d r now (ends_input id) w k = handle_stdin_eof-Counted d r id w k
  happens-Counted d r now (terminated reason) w k = terminate-Counted d r reason w k
  happens-Counted d r now (capped read_only) w k = set_caps-Counted d r read_only w k
  happens-Counted d r now (exits code status) w k = elim (Bool-cases w.session.is_exited) [
    | inl over ↦ ground arith
    | inr run ↦ ground (arith, finalize-Counted d r now code status w run k)
  ]

  unfoldable pub stepped : ℤ → Event → ℕ → Host VT → Option (Session VT) → Host VT
  stepped now e i h none = h
  stepped now e i h (some s) =
      let w = happens now e (record {
        detached_n = h.detached_n;
        active_n = h.active_n;
        max_detached = h.max_detached;
        session = s;
      }) in
      record h {
        detached_n = w.detached_n;
        active_n = w.active_n;
        sessions = set h.sessions i w.session;
      }

  -- An event at the session in a place.
  unfoldable pub step : ℤ → Event → ℕ → Host VT → Host VT
  unfolding stepped
  step now e i h = stepped now e i h (get_elem? h.sessions i)

unfoldable pub drop_at : {A : Type 0} → ℕ → List A → List A
drop_at i [] = []
drop_at zero (x ∷ xs) = xs
drop_at (suc i) (x ∷ xs) = x ∷ drop_at i xs

unfoldable pub removed : {VT : Type 0} → ℕ → Host VT → Option (Session VT) → Host VT
unfolding drop_at
removed i h none = h
removed i h (some s) = if s.is_exited then record h { sessions = drop_at i h.sessions } else h

-- remove: the end of a tombstone.
unfoldable pub remove : {VT : Type 0} → ℕ → Host VT → Host VT
unfolding removed
remove i h = removed i h (get_elem? h.sessions i)

-- ApplyPolicy, by normalizePolicy: zero is the default.
unfoldable pub apply_policy : {VT : Type 0} → Bool → ℕ → ℕ → ℤ → Host VT → Host VT
apply_policy forbid_detach max_sessions max_detached ring_bytes h = record h {
  forbid_detach = forbid_detach;
  max_sessions = if max_sessions == 0 then 64 else max_sessions;
  max_detached = if max_detached == 0 then 16 else max_detached;
  ring_bytes = if leb_ℤ ring_bytes (pos 0) then pos 262144 else ring_bytes;
}

abbrev pub drain : {VT : Type 0} → Host VT → Host VT
drain h = record h { draining = true }

-- newHost with defaultPolicy
abbrev pub new_host : {VT : Type 0} → Host VT
new_host = record {
  forbid_detach = false;
  max_sessions = 64;
  max_detached = 16;
  ring_bytes = pos 262144;
  draining = false;
  active_n = pos 0;
  detached_n = pos 0;
  sessions = [];
}
