-- ===== src/SessionHost/Session/Control/Examples.antt =====
-- A host with one session, and a client that comes back to a session with output in its ring.
use geneza.Base.{
  ℕ, ◌+◌, ◌≤◌, ◌≡◌, refl, true, false, none, some, List, [], ◌∷◌, ◌++◌, map, length, bytes, arith,
  inl, inr,
}
use geneza.Base.Int.{pos}
use geneza.SessionHost.Ring.{Ring, new_ring, Output, feed, delta_from}
use geneza.SessionHost.Ring.Retention.{chunks_from}
use geneza.SessionHost.Ring.Replay.{newer}
use geneza.SessionHost.Session.{
  attached, input_ack, Client, Screen, World, chunk_frames, marker, attach, catch_up_snapshot,
}
use geneza.SessionHost.Session.Delivery.{pump_all, attach-delivers}
use geneza.SessionHost.Session.Control.{set_caps, finalize}
use geneza.SessionHost.Session.Control.Input.{
  Input, handle_inputs, handle_inputs-replayed, set_caps-inputs,
}
use geneza.SessionHost.Session.Control.Exit.{finalize-lagged}
use geneza.SessionHost.Session.Control.Host.{Host, CreateRequest, create, new_host}
use geneza.SessionHost.Session.Control.Counters.{
  total, is_counted, is_running, Exact, Reachable, begins, creates, Reachable-Exact, create_bounds,
}

-- A screen that counts the bytes written to it.
abbrev counter : Screen ℕ
counter = record { write = λ v s. v + length s; render = λ v. []; resize = λ v cols rows. v }

abbrev blank : ℕ → ℕ → ℕ
blank cols rows = 0

abbrev shell : CreateRequest
shell = record { pty = true; detachable = true; has_command = false; cols = 80; rows = 24 }

abbrev one_session : Host ℕ
one_session = (create blank (pos 5) true shell new_host).0

one_session-Reachable : Reachable counter blank one_session
one_session-Reachable = creates (pos 5) true shell (begins refl) refl

Reachable-Exact_example : Exact one_session
Reachable-Exact_example = Reachable-Exact counter blank one_session-Reachable

new_host-Reachable : Reachable counter blank new_host
new_host-Reachable = begins refl

create_bounds_example :
    let g = (create blank (pos 5) true shell new_host).0 in
    (total is_running g.sessions ≤ 64) × (true ≡ true → total is_counted g.sessions ≤ 16)
unfolding create
create_bounds_example = create_bounds counter blank (pos 5) true shell new_host-Reachable refl

abbrev outs : List Output
outs = (false, bytes "a") ∷ (false, bytes "b") ∷ []

abbrev client : Client
client = record { id = 1; queue = []; lagged = false }

abbrev running : World ℕ
running = record {
  detached_n = pos 0;
  active_n = pos 1;
  max_detached = 16;
  session = record {
    pty_mode = true;
    detachable = true;
    state = attached;
    last_activity = pos 5;
    detached_since = pos 0;
    detached_counted = false;
    cols = 80;
    rows = 24;
    vt = some 0;
    ring = feed (new_ring (pos 100)) 0 outs;
    seq = 2;
    last_input_seq = 0;
    stdin_closed = false;
    client = some client;
    allow_input = true;
    is_exited = false;
    exit_code = pos 0;
    exit_reason = [];
    kill_reason = [];
  };
}

abbrev one_more : List Output
one_more = (false, bytes "c") ∷ []

attach-delivers_example :
    let (w', effects, frames, registered) = attach counter 2 1 running in
    (cl : Client) × ((pump_all counter (pos 9) one_more w').session.client ≡ some cl)
    × (cl.id ≡ 2)
    × (frames ++ cl.queue
        ≡ marker running.session 1 ++ chunk_frames (newer 1 (chunks_from 0 (outs ++ one_more))))
unfolding delta_from feed new_ring geneza.SessionHost.Ring.add
attach-delivers_example =
    attach-delivers counter (pos 9) (pos 100) outs one_more 2 1 running
      (record { ring = refl; seq = refl; running = refl }) (omega arith) (omega arith) refl refl

abbrev typed : List Input
typed = (1, bytes "l") ∷ (2, bytes "s") ∷ []

handle_inputs-replayed_example :
    (handle_inputs (pos 9) 1 ((2, bytes "s") ∷ []) (handle_inputs (pos 9) 1 typed running).0).1 ≡ []
handle_inputs-replayed_example =
    handle_inputs-replayed (pos 9) 1 typed ((2, bytes "s") ∷ []) running
      (λ i m. elim m [ inl e ↦ inr (inl e) | inr n ↦ absurd n ])

set_caps-inputs_example :
    let r = handle_inputs (pos 9) 1 typed (set_caps true running) in
    (r.1 ≡ [])
    × (r.0.session.client ≡ some (record client { queue = [] ++ map (λ i. input_ack i.0) typed }))
set_caps-inputs_example =
    set_caps-inputs (pos 9) 1 typed running client refl refl refl (omega arith)

abbrev behind : Client
behind = record client { queue = input_ack 1 ∷ []; lagged = true }

abbrev lagging : World ℕ
lagging = record running { session = record running.session { client = some behind } }

finalize-lagged_example :
    let s = (finalize (pos 9) (pos 0) (bytes "exited") lagging).0.session in
    ((catch_up_snapshot counter s s.client).1 ≡ none)
    × ((catch_up_snapshot counter s s.client).0.client
        ≡ some (record behind { queue = []; lagged = false }))
finalize-lagged_example =
    finalize-lagged counter (pos 9) (pos 0) (bytes "exited") lagging behind refl refl (omega arith)
