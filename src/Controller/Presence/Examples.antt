-- ===== src/Controller/Presence/Examples.antt =====
-- A session with one heartbeat.
use geneza.Base.{◌≡◌, refl, true, false, [], ◌∷◌, bytes, bytes_eq, any, arith}
use geneza.Base.Int.{pos}
use geneza.Controller.Presence.{
  SessionRecord, PresenceConfig, stamped, verify_presence_session, factor_verify,
}
use geneza.Controller.Presence.Proof.{Proves, verify_presence_session-Proves}
use geneza.Controller.Presence.Replay.{Heartbeat, beats, beats-replay}

abbrev config : PresenceConfig
config = record { allow_software = true; heartbeat_interval = pos 10; ttl = pos 30 }

abbrev watched : SessionRecord
watched = record {
  id = bytes "s";
  require_presence = true;
  presence_challenge = bytes "c1";
  prev_presence_challenge = [];
  prev_challenge_unix = pos 0;
  last_presence_unix = pos 0;
  last_presence_counter = 0;
}

abbrev first_beat : Heartbeat
first_beat = record {
  now = pos 100;
  suspended = false;
  next = bytes "c2";
  att = record {
    kind = bytes "software";
    session_id = bytes "s";
    counter = 1;
    client_data = bytes "c1";
  };
  enrolled = [];
}

abbrev present : SessionRecord
present = record {
  id = bytes "s";
  require_presence = true;
  presence_challenge = bytes "c2";
  prev_presence_challenge = bytes "c1";
  prev_challenge_unix = pos 100;
  last_presence_unix = pos 100;
  last_presence_counter = 1;
}

first_beat-stamps :
    verify_presence_session config (pos 100) false (bytes "c2") first_beat.att [] watched watched
    ≡ stamped present
unfolding verify_presence_session factor_verify bytes_eq any
first_beat-stamps = refl

verify_presence_session-Proves_first :
    Proves config (pos 100) false first_beat.att [] watched
    × (present.last_presence_unix ≡ pos 100)
    × (present.last_presence_counter ≡ first_beat.att.counter)
verify_presence_session-Proves_first =
    verify_presence_session-Proves config (pos 100) false (bytes "c2") first_beat.att [] watched
      watched present first_beat-stamps

abbrev second_beat : Heartbeat
second_beat = record {
  now = pos 105;
  suspended = false;
  next = bytes "c3";
  att = record {
    kind = bytes "software";
    session_id = bytes "s";
    counter = 2;
    client_data = bytes "c2";
  };
  enrolled = [];
}

beats-replay_example :
    ¬ (
      verify_presence_session config
        (pos 100)
        false
        (bytes "c2")
        first_beat.att
        []
        (beats config present (second_beat ∷ []))
        (beats config present (second_beat ∷ []))
      ≡ stamped present)
    × ((late : SessionRecord) × (verify_presence_session config
            (pos 100)
            false
            (bytes "c2")
            first_beat.att
            []
            watched
            (beats config present (second_beat ∷ []))
          ≡ stamped late)
        × (late.last_presence_counter ≡ 1))
beats-replay_example =
    beats-replay config first_beat watched present (second_beat ∷ []) first_beat present
      first_beat-stamps (omega arith)
