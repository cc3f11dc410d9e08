-- ===== src/Controller/Presence/Replay.antt =====
-- A captured heartbeat.
use geneza.Base.{◌≤◌, ◌≡◌, refl, Bool, List, [], ◌∷◌, arith, Str}
use geneza.Base.Int.{ℤ}
use geneza.Controller.Presence.{
  Attestation, EnrolledCredential, SessionRecord, PresenceConfig, Beat, rejected, not_required,
  stamped, stamp, verify_presence_session, after_beat,
}
use geneza.Controller.Presence.Proof.{verify_presence_session-Proves, verify_presence_session_row}

-- One heartbeat of a run, with what it is met with.
pub record Heartbeat : Type 0 where
  pub now : ℤ
  pub suspended : Bool
  pub next : Str
  pub att : Attestation
  pub enrolled : List EnrolledCredential

pub beats : PresenceConfig → SessionRecord → List Heartbeat → SessionRecord
beats cfg s [] = s
beats cfg s (h ∷ hs) =
    beats cfg
      (after_beat s (verify_presence_session cfg h.now h.suspended h.next h.att h.enrolled s s)) hs

after_beat-counter :
    (cfg : PresenceConfig) (h : Heartbeat) (s : SessionRecord) (o : Beat)
    → verify_presence_session cfg h.now h.suspended h.next h.att h.enrolled s s ≡ o
    → s.last_presence_counter ≤ (after_beat s o).last_presence_counter
unfolding after_beat
after_beat-counter cfg h s rejected e = omega arith
after_beat-counter cfg h s not_required e = omega arith
after_beat-counter cfg h s (stamped t) e =
    let p = verify_presence_session-Proves cfg h.now h.suspended h.next h.att h.enrolled s s t e in
    omega (arith, p.0.newer, p.2)

beats-counter :
    (cfg : PresenceConfig) (hs : List Heartbeat) (s : SessionRecord)
    → s.last_presence_counter ≤ (beats cfg s hs).last_presence_counter
unfolding beats
beats-counter cfg [] s = omega arith
beats-counter cfg (h ∷ hs) s = omega (
  arith,
  after_beat-counter cfg h s _ refl,
  beats-counter cfg hs
      (after_beat s (verify_presence_session cfg h.now h.suspended h.next h.att h.enrolled s s)),
)

-- As long as heartbeats are handled one at a time, one that stamped a session never stamps it again,
-- whatever heartbeats come between, at any time, and with whatever the principal then has enrolled:
-- neither does any with its counter or a smaller one. But a copy of it that read the session before
-- the stamp stamps whatever the session is by then, and sets its counter back to that of the copy.
pub beats-replay :
    (cfg : PresenceConfig) (h : Heartbeat) (s s' : SessionRecord) (hs : List Heartbeat)
    (again : Heartbeat) (t : SessionRecord)
    → verify_presence_session cfg h.now h.suspended h.next h.att h.enrolled s s ≡ stamped s'
    → again.att.counter ≤ h.att.counter
    → ¬ (
        verify_presence_session cfg again.now again.suspended again.next again.att again.enrolled
          (beats cfg s' hs)
          (beats cfg s' hs)
        ≡ stamped t)
      × ((late : SessionRecord) × (verify_presence_session cfg h.now h.suspended h.next h.att
              h.enrolled s
              (beats cfg s' hs)
            ≡ stamped late)
          × (late.last_presence_counter ≡ h.att.counter))
unfolding stamp
beats-replay cfg h s s' hs again t e le = (
  λ k.
      let first =
        verify_presence_session-Proves cfg h.now h.suspended h.next h.att h.enrolled s s s' e in
      let second =
        verify_presence_session-Proves cfg again.now again.suspended again.next again.att
          again.enrolled (beats cfg s' hs) (beats cfg s' hs) t k in
      omega (arith, le, first.2, beats-counter cfg hs s', second.0.newer),
  (
    stamp h.now h.next h.att (beats cfg s' hs),
    verify_presence_session_row cfg h.now h.suspended h.next h.att h.enrolled s s s'
        (beats cfg s' hs) e,
    refl,
  ),
)
