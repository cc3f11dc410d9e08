-- ===== src/SessionHost/Session/Control/Exit.antt =====
-- What the attached client learns of the end of a session.
use geneza.Base.{
  ◌<◌, ◌≡◌, refl, ap, ◌∙◌, true, false, Option, none, some, [], ◌∷◌, ◌++◌, ltb, ◌==◌, if◌then◌else◌,
  length, Str, arith,
}
use geneza.Base.Int.{ℤ}
use geneza.SessionHost.Session.{
  exit_frame, Client, client_chan_depth, Screen, Session, World, has_screen, enqueue, deliver,
  caught_up, catch_up_snapshot,
}
use geneza.SessionHost.Session.Control.{terminate, finalize}

module _ {VT : Type 0} (t : Screen VT) where
  exited-client :
      (now code : ℤ) (status : Str) (w : World VT) (cl : Client)
      → w.session.client ≡ some cl
      → length cl.queue < client_chan_depth
      → let reason = if length w.session.kill_reason == 0 then status else w.session.kill_reason in
        let s = (finalize now code status w).0.session in
        (s.client ≡ some (record cl { queue = cl.queue ++ exit_frame code reason ∷ [] }))
        × (s.is_exited ≡ true)
        × (s.vt ≡ none)
  unfolding finalize deliver enqueue
  exited-client now code status w cl e room =
      let free : ltb (length cl.queue) client_chan_depth ≡ true = ground arith in
      ground (arith, free)

  terminated :
      (first later : Str) (w : World VT)
      → w.session.is_exited ≡ false
      → w.session.kill_reason ≡ []
      → 0 < length first
      → ((terminate later (terminate first w)).session.client ≡ w.session.client)
        × ((terminate later (terminate first w)).session.kill_reason ≡ first)
  unfolding terminate
  terminated first later w run unkilled given = ground (arith, ap (length {0}) unkilled)

  reason_is :
      (kill status first : Str)
      → kill ≡ first
      → 0 < length first
      → (if length kill == 0 then status else kill) ≡ first
  reason_is kill status first e given = ground (arith, ap (length {0}) e)

  -- When the process of a session exits that was told to terminate, the client whose queue has room is
  -- sent the exit frame last, and the frame says the first reason for which it was told so.
  pub finalize-terminate :
      (now code : ℤ) (status first later : Str) (w : World VT) (cl : Client)
      → w.session.client ≡ some cl
      → length cl.queue < client_chan_depth
      → w.session.is_exited ≡ false
      → w.session.kill_reason ≡ []
      → 0 < length first
      → (finalize now code status (terminate later (terminate first w))).0.session.client
        ≡ some (record cl { queue = cl.queue ++ exit_frame code first ∷ [] })
  finalize-terminate now code status first later w cl e room run unkilled given =
      let w' = terminate later (terminate first w) in
      let (same, kept) = terminated first later w run unkilled given in
      (exited-client now code status w' cl (same ∙ e) room).0
      ∙ ap (λ reason. some (record cl { queue = cl.queue ++ exit_frame code reason ∷ [] }))
          (reason_is w'.session.kill_reason status first kept given)

  caught_up-exited :
      (s : Session VT) (cl : Client) (o : Option Client)
      → s.client ≡ o
      → o ≡ some cl
      → cl.lagged ≡ true
      → s.vt ≡ none
      → ((catch_up_snapshot t s o).1 ≡ none)
        × ((catch_up_snapshot t s o).0.client ≡ some (record cl { queue = []; lagged = false }))
  unfolding catch_up_snapshot caught_up has_screen
  caught_up-exited s cl o e q l v = ground arith

  -- When a session exits while its client is flagged as lagged and its queue has room, the catch-up that the
  -- writer makes next throws the exit frame away with the backlog and sends nothing in its place: the
  -- client is left with an empty queue and no flag, and is never told of the exit.
  pub finalize-lagged :
      (now code : ℤ) (status : Str) (w : World VT) (cl : Client)
      → w.session.client ≡ some cl
      → cl.lagged ≡ true
      → length cl.queue < client_chan_depth
      → let s = (finalize now code status w).0.session in
        ((catch_up_snapshot t s s.client).1 ≡ none)
        × ((catch_up_snapshot t s s.client).0.client
            ≡ some (record cl { queue = []; lagged = false }))
  finalize-lagged now code status w cl e lag room =
      let (client, over, blank) = exited-client now code status w cl e room in
      let s = (finalize now code status w).0.session in
      caught_up-exited s _ s.client refl client lag blank
