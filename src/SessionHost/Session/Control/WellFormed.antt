-- ===== src/SessionHost/Session/Control/WellFormed.antt =====
-- The invariant of a session and of the counters of its host, kept by every operation.
use geneza.Base.{
  ℕ, ◌+◌, ◌%◌, ◌^◌, ◌≤◌, ◌≡◌, refl, ap, Bool, true, false, not, ◌||◌, Option, none, some, List, [],
  ◌∷◌, ltb, ◌==◌, if◌then◌else◌, length, length-append, Str, arith,
}
use geneza.Base.Int.{ℤ, pos, ◌+ℤ◌, ◌-ℤ◌}
use geneza.SessionHost.Session.{
  attached, exited, Frame, Client, client_chan_depth, Screen, Session, World, has_screen,
  mark_detached, drop_client, enqueue, deliver, emit, pump, drawn, resized, preempt, attach,
  catch_up_snapshot, caught_up, taken, take_frame,
}
use geneza.SessionHost.Session.Control.{
  gone, client_gone, detach_request, handle_input, handle_stdin_eof, terminate, set_caps, finalize,
  handle_resize,
}

abbrev has_client : Option Client → Bool
has_client none = false
has_client (some cl) = true

abbrev Fits : Option Client → Type 0
Fits none = Unit
Fits (some cl) = length cl.queue ≤ client_chan_depth

abbrev pub bit : Bool → ℕ
bit b = if b then 1 else 0

module _ {VT : Type 0} where
  -- A session is attached exactly while it runs and has a client, it counts as detached only if it
  -- runs, is detachable and has no client, a terminal session has a screen until it exits, and no queue
  -- is over its bound.
  pub record WellFormed (s : Session VT) : Type 0 where
    pub attended : has_client s.client ≡ true → s.is_exited ≡ false → s.state ≡ attached
    pub attending : s.state ≡ attached → (has_client s.client ≡ true) × (s.is_exited ≡ false)
    pub over : s.is_exited ≡ true → s.state ≡ exited
    pub counts :
        s.detached_counted ≡ true
        → (has_client s.client ≡ false) × (s.is_exited ≡ false) × (s.detachable ≡ true)
    pub drawing : s.pty_mode ≡ true → s.is_exited ≡ false → has_screen s.vt ≡ true
    pub fits : Fits s.client

  -- The counters are those of the session, beside `d` others that are counted as detached and `r` others
  -- that run.
  pub record Counted (d r : ℕ) (w : World VT) : Type 0 where
    pub detached_n : w.detached_n ≡ pos (d + bit w.session.detached_counted)
    pub active_n : w.active_n ≡ pos (r + bit (not w.session.is_exited))
    pub well_formed : WellFormed w.session

  module _ (d r : ℕ) where
    enqueue-Counted :
        (now : ℤ) (w : World VT) (m : Frame) (o : Option Client)
        → w.session.client ≡ o
        → Counted d r w
        → Counted d r (enqueue now w m o).0
    unfolding enqueue drop_client mark_detached ◌+ℤ◌ has_screen
    enqueue-Counted now w m none e k = k
    enqueue-Counted now w m (some cl) e k = ground (arith, length-append cl.queue (m ∷ []))

    pub deliver-Counted :
        (now : ℤ) (w : World VT) (m : Frame) → Counted d r w → Counted d r (deliver now w m).0
    unfolding deliver
    deliver-Counted now w m k = enqueue-Counted now w m w.session.client refl k

    pub client_gone-Counted :
        (now : ℤ) (id : ℕ) (w : World VT) → Counted d r w → Counted d r (client_gone now id w).0
    unfolding client_gone gone mark_detached ◌+ℤ◌
    client_gone-Counted now id w k = ground arith

    pub detach_request-Counted :
        (now : ℤ) (id : ℕ) (w : World VT) → Counted d r w → Counted d r (detach_request now id w).0
    unfolding detach_request mark_detached ◌+ℤ◌
    detach_request-Counted now id w k = ground arith

    pub terminate-Counted :
        (reason : Str) (w : World VT) → Counted d r w → Counted d r (terminate reason w)
    unfolding terminate
    terminate-Counted reason w k = ground arith

    pub handle_stdin_eof-Counted :
        (id : ℕ) (w : World VT) → Counted d r w → Counted d r (handle_stdin_eof id w).0
    unfolding handle_stdin_eof
    handle_stdin_eof-Counted id w k = ground arith

    pub handle_input-Counted :
        (now : ℤ) (id seq : ℕ) (input : Str) (w : World VT)
        → Counted d r w
        → Counted d r (handle_input now id seq input w).0
    unfolding handle_input
    handle_input-Counted now id seq input w k =
        let s' = record w.session {
          last_input_seq =
              if ltb w.session.last_input_seq seq then seq else w.session.last_input_seq;
          last_activity = now;
        } in
        let w' : World VT = record w { session = s' } in
        let k' : Counted d r w' = ground arith in
        ground (arith, deliver-Counted now w' (Frame.input_ack seq) k')

    pub set_caps-Counted : (ro : Bool) (w : World VT) → Counted d r w → Counted d r (set_caps ro w)
    unfolding set_caps
    set_caps-Counted ro w k = ground arith

  -- The process of a session that runs has exited: the session no longer counts anywhere.
  pub finalize-Counted :
      (d r : ℕ) (now code : ℤ) (status : Str) (w : World VT)
      → w.session.is_exited ≡ false
      → Counted d r w
      → Counted d r (finalize now code status w).0
  unfolding finalize ◌-ℤ◌
  finalize-Counted d r now code status w run k =
      let reason = if length w.session.kill_reason == 0 then status else w.session.kill_reason in
      let s' : Session VT = record w.session {
        is_exited = true;
        state = exited;
        exit_code = code;
        exit_reason = reason;
        detached_counted = false;
        vt = none;
        stdin_closed = w.session.stdin_closed || not w.session.pty_mode;
      } in
      let w' : World VT = record w {
        session = s';
        detached_n = if w.session.detached_counted then w.detached_n -ℤ pos 1 else w.detached_n;
      } in
      let k' : Counted d (r + 1) w' = ground arith in
      let k'' = deliver-Counted d (r + 1) now w' (Frame.exit_frame code reason) k' in ground arith

module _ {VT : Type 0} (t : Screen VT) where
  pub emit-Counted :
      (d r : ℕ) (now : ℤ) (stderr : Bool) (output : Str) (w : World VT)
      → Counted d r w
      → Counted d r (emit t now stderr output w).0
  unfolding emit has_screen drawn
  emit-Counted d r now stderr output w k =
      let w' : World VT = record w {
        session = record w.session {
          seq = (w.session.seq + 1) % 2 ^ 64;
          ring =
              (geneza.SessionHost.Ring.add w.session.ring ((w.session.seq + 1) % 2 ^ 64) stderr
                output).0;
          vt = drawn t w.session.vt output;
        };
      } in
      let k' : Counted d r w' = ground arith in
      deliver-Counted d r now w' (Frame.chunk ((w.session.seq + 1) % 2 ^ 64) stderr output) k'

  pub pump-Counted :
      (d r : ℕ) (now : ℤ) (stderr : Bool) (output : Str) (w : World VT)
      → Counted d r w
      → Counted d r (pump t now stderr output w).0
  unfolding pump
  pump-Counted d r now stderr output w k =
      let w' : World VT = record w { session = record w.session { last_activity = now } } in
      emit-Counted d r now stderr output w' (ground arith)

  pub handle_resize-Counted :
      (d r : ℕ) (id cols rows : ℕ) (w : World VT)
      → Counted d r w
      → Counted d r (handle_resize t id cols rows w)
  unfolding handle_resize resized has_screen
  handle_resize-Counted d r id cols rows w k = ground arith

  pub attach-Counted :
      (d r : ℕ) (id last_seen : ℕ) (w : World VT)
      → Counted d r w
      → Counted d r (attach t id last_seen w).0
  unfolding attach preempt ◌-ℤ◌
  attach-Counted d r id last_seen w k = ground arith

  pub catch_up_snapshot-Counted :
      (d r : ℕ) (w : World VT)
      → Counted d r w
      → Counted d r (record w { session = (catch_up_snapshot t w.session w.session.client).0 })
  unfolding catch_up_snapshot caught_up
  catch_up_snapshot-Counted d r w k = ground arith

module _ {VT : Type 0} where
  taken-Counted :
      (d r : ℕ) (w : World VT) (cl : Client) (queue : List Frame)
      → w.session.client ≡ some cl
      → cl.queue ≡ queue
      → Counted d r w
      → Counted d r (record w { session = (taken w.session cl queue).0 })
  unfolding taken
  taken-Counted d r w cl [] e q k = k
  taken-Counted d r w cl (m ∷ ms) e q k = ground (arith, ap (length {0}) q)

  from-Counted :
      (d r : ℕ) (w : World VT) (o : Option Client)
      → w.session.client ≡ o
      → Counted d r w
      → Counted d r (record w { session = (take_frame w.session o).0 })
  unfolding take_frame
  from-Counted d r w none e k = k
  from-Counted d r w (some cl) e k = taken-Counted d r w cl cl.queue e refl k

  pub take_frame-Counted :
      (d r : ℕ) (w : World VT)
      → Counted d r w
      → Counted d r (record w { session = (take_frame w.session w.session.client).0 })
  take_frame-Counted d r w k = from-Counted d r w w.session.client refl k
