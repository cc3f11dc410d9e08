-- ===== src/SessionHost/Session/Control.antt =====
-- internal/sessionhost/session.go: what a client, the agent and the process do to a session.
pub mod WellFormed
pub mod Input
pub mod Exit
pub mod Host
pub mod Counters
mod Examples
use geneza.Base.{
  ℕ, ◌+◌, Bool, true, false, not, ◌&&◌, ◌||◌, Option, none, some, List, [], ◌∷◌, ◌++◌, ltb, leb,
  ◌==◌, if◌then◌else◌, length, Str, bytes, bytes_eq,
}
use geneza.Base.Int.{ℤ, pos, ◌+ℤ◌, ◌-ℤ◌, ltb_ℤ, leb_ℤ}
use geneza.SessionHost.Session.{
  SessionState, attached, detached, exited, Frame, exit_frame, input_ack, Client, Screen, Session,
  World, Effect, closes, terminates, writes, closes_stdin, DetachError, not_detachable,
  max_detached_reached, is_client, resized, clamp_dim, mark_detached, deliver,
}

module _ {VT : Type 0} where
  -- The client is gone and the session lives on without one.
  gone : ℤ → World VT → World VT × List Effect
  unfolding mark_detached
  gone now w =
      let s = w.session in
      let left = record w { session = record s { state = detached; detached_since = now } } in
      if s.is_exited
      then (w, [])
      else if not s.detachable
      then (left, terminates (bytes "killed") ∷ [])
      else if ltb_ℤ w.detached_n (pos w.max_detached)
      then (mark_detached now w, [])
      else (left, terminates (bytes "reaped") ∷ [])

  -- clientGone
  pub client_gone : ℤ → ℕ → World VT → World VT × List Effect
  unfolding gone is_client
  client_gone now id w =
      if not (is_client w.session.client id)
      then (w, [])
      else let (w', effects) =
          gone now (record w { session = record w.session { client = none } }) in
        (w', closes id ∷ effects)

  -- detachRequest
  pub detach_request : ℤ → ℕ → World VT → World VT × Option DetachError
  unfolding mark_detached is_client
  detach_request now id w =
      let s = w.session in
      if not (is_client s.client id) || s.is_exited
      then (w, none)
      else if not s.detachable
      then (w, some not_detachable)
      else if leb_ℤ (pos w.max_detached) w.detached_n
      then (w, some max_detached_reached)
      else (mark_detached now (record w { session = record s { client = none } }), none)

  -- What reaches the process: a frame that is new, if input is allowed and the input is open.
  applied : Session VT → ℕ → Str → List Effect
  applied s seq input =
      if ltb s.last_input_seq seq
        && s.allow_input
        && (s.pty_mode || not s.stdin_closed)
        && not (length input == 0)
      then writes input ∷ []
      else []

  -- handleInput, its two sections under the lock and the read of the caps between them in one step
  pub handle_input : ℤ → ℕ → ℕ → Str → World VT → World VT × List Effect
  unfolding applied deliver is_client
  handle_input now id seq input w =
      let s = w.session in
      if not (is_client s.client id) || s.is_exited
      then (w, [])
      else let s' = record s {
        last_input_seq = if ltb s.last_input_seq seq then seq else s.last_input_seq;
        last_activity = now;
      } in
        let (w', effects) = deliver now (record w { session = s' }) (input_ack seq) in
        (w', applied s seq input ++ effects)

  -- handleStdinEOF
  pub handle_stdin_eof : ℕ → World VT → World VT × List Effect
  unfolding is_client
  handle_stdin_eof id w =
      let s = w.session in
      if not (is_client s.client id) || s.is_exited || s.pty_mode || s.stdin_closed
      then (w, [])
      else (record w { session = record s { stdin_closed = true } }, closes_stdin ∷ [])

  -- terminate: the first reason stays.
  pub terminate : Str → World VT → World VT
  terminate reason w =
      let s = w.session in
      if s.is_exited then w else record w {
        session = record s {
          kill_reason = if length s.kill_reason == 0 then reason else s.kill_reason;
        };
      }

  -- SetCaps, as far as the host enforces it.
  pub set_caps : Bool → World VT → World VT
  set_caps read_only w = record w { session = record w.session { allow_input = not read_only } }

  -- finalize, with the exit status of the process. The host's count goes down in the same step.
  pub finalize : ℤ → ℤ → Str → World VT → World VT × List Effect
  unfolding deliver
  finalize now code status w =
      let s = w.session in
      let reason = if length s.kill_reason == 0 then status else s.kill_reason in
      let s' = record s {
        is_exited = true;
        state = exited;
        exit_code = code;
        exit_reason = reason;
        detached_counted = false;
        vt = none;
        stdin_closed = s.stdin_closed || not s.pty_mode;
      } in
      let n = if s.detached_counted then w.detached_n -ℤ pos 1 else w.detached_n in
      let (w', effects) =
        deliver now (record w { session = s'; detached_n = n }) (exit_frame code reason) in
      (record w' { active_n = w'.active_n -ℤ pos 1 }, effects)

-- handleResize
pub handle_resize : {VT : Type 0} → Screen VT → ℕ → ℕ → ℕ → World VT → World VT
unfolding is_client resized clamp_dim
handle_resize t id cols rows w =
    let s = w.session in
    if cols == 0 || rows == 0 || not (is_client s.client id) || s.is_exited then w else record w {
      session = record s {
        cols = clamp_dim cols 80;
        rows = clamp_dim rows 24;
        vt = resized t s.vt (clamp_dim cols 80) (clamp_dim rows 24);
      };
    }
