-- ===== src/SessionHost/Session/Delivery.antt =====
-- What a client that attaches is sent, from its initial frames on.
use geneza.Base.{
  ℕ, suc, ◌+◌, ◌%◌, ◌^◌, ◌≤◌, ◌<◌, ◌≡◌, sym, ap, ◌∙◌, refl, Bool, true, false, not, ◌||◌, some,
  List, [], ◌∷◌, ◌++◌, ltb, length, length-append, Str, arith,
}
use geneza.Base.Int.{ℤ}
use mathlib.Core.List.{append-nil, append_assoc}
use geneza.SessionHost.Ring.{RingChunk, new_ring, delta_from, Output, feed}
use geneza.SessionHost.Ring.Retention.{chunks_from, length-chunks_from, Numbered-chunks_from}
use geneza.SessionHost.Ring.Replay.{newer, newer-append, newer-all, delta_from-feed}
use geneza.SessionHost.Session.{
  chunk, Client, client_chan_depth, Screen, Session, World, chunk_frames, marker, initial_frames,
  preempt, enqueue, deliver, emit, pump, attach,
}

chunks_from-append :
    (n : ℕ) (outs more : List Output)
    → chunks_from n (outs ++ more) ≡ chunks_from n outs ++ chunks_from (n + length outs) more
unfolding chunks_from
chunks_from-append n [] more = ap (λ k. chunks_from k more) (omega arith)
chunks_from-append n ((stderr, payload) ∷ outs) more =
    ap (◌∷◌ (record { seq = n + 1; stderr = stderr; payload = payload })) (
      chunks_from-append (n + 1) outs more
      ∙ ap (λ k. chunks_from (n + 1) outs ++ chunks_from k more) (omega arith))

chunk_frames-append :
    (cs ds : List RingChunk) → chunk_frames (cs ++ ds) ≡ chunk_frames cs ++ chunk_frames ds
unfolding chunk_frames
chunk_frames-append [] ds = refl
chunk_frames-append (c ∷ cs) ds =
    ap (◌∷◌ (chunk c.seq c.stderr c.payload)) (chunk_frames-append cs ds)

module _ {VT : Type 0} (t : Screen VT) (now : ℤ) where
  -- The pump, with one piece of output after the other.
  pub pump_all : List Output → World VT → World VT
  pump_all [] w = w
  pump_all ((stderr, payload) ∷ outs) w = pump_all outs (pump t now stderr payload w).0

  pump-queue :
      (stderr : Bool) (payload : Str) (w : World VT) (cl : Client)
      → w.session.client ≡ some cl
      → length cl.queue < client_chan_depth
      → w.session.seq + 1 < 2 ^ 64
      → ((pump t now stderr payload w).0.session.client
          ≡ some (record cl { queue = cl.queue ++ chunk (w.session.seq + 1) stderr payload ∷ [] }))
        × ((pump t now stderr payload w).0.session.seq ≡ w.session.seq + 1)
  unfolding pump emit deliver enqueue
  pump-queue stderr payload w cl e room small =
      let next : (w.session.seq + 1) % 2 ^ 64 ≡ w.session.seq + 1 = omega arith in
      let free : ltb (length cl.queue) client_chan_depth ≡ true = ground arith in
      ground (arith, next, free)

  pump_all-queue :
      (outs : List Output) (w : World VT) (cl : Client)
      → w.session.client ≡ some cl
      → length cl.queue + length outs ≤ client_chan_depth
      → w.session.seq + length outs < 2 ^ 64
      → (pump_all outs w).session.client
        ≡ some (record cl { queue = cl.queue ++ chunk_frames (chunks_from w.session.seq outs) })
  unfolding pump_all chunk_frames chunks_from
  pump_all-queue [] w cl e room small =
      e ∙ ap some (λ i. record cl { queue = sym (append-nil cl.queue) i })
  pump_all-queue ((stderr, payload) ∷ outs) w cl e room small =
      let w' = (pump t now stderr payload w).0 in
      let m = chunk (w.session.seq + 1) stderr payload in
      let (one, next) = pump-queue stderr payload w cl e (omega arith) (omega arith) in
      let rest =
        pump_all-queue outs w' (record cl { queue = cl.queue ++ m ∷ [] }) one
          (omega (arith, length-append cl.queue (m ∷ []))) (omega (arith, next)) in
      rest
      ∙ ap some (λ i. record cl {
        queue =
            ((λ j. (cl.queue ++ m ∷ []) ++ chunk_frames (chunks_from (next j) outs))
                ∙ append_assoc cl.queue (m ∷ [])
                    (chunk_frames (chunks_from (w.session.seq + 1) outs)))
              i;
      })

  -- The output of a session so far is in its ring and counted by its sequence number.
  pub record Holds (budget : ℤ) (outs : List Output) (s : Session VT) : Type 0 where
    pub ring : s.ring ≡ feed (new_ring budget) 0 outs
    pub seq : s.seq ≡ length outs
    pub running : s.is_exited ≡ false

  attach-client :
      (id last_seen : ℕ) (w : World VT)
      → w.session.is_exited ≡ false
      → ((attach t id last_seen w).0.session.client
          ≡ some (record { id = id; queue = []; lagged = false }))
        × ((attach t id last_seen w).0.session.seq ≡ w.session.seq)
        × ((attach t id last_seen w).2
            ≡ initial_frames t w.session last_seen
                (delta_from w.session.ring last_seen w.session.seq))
  unfolding attach preempt
  attach-client id last_seen w run = ground arith

  covered-frames :
      (s : Session VT) (last_seen : ℕ) (d : List RingChunk × Bool)
      → d.1 ≡ true
      → (ltb 0 last_seen || not s.pty_mode) ≡ true
      → initial_frames t s last_seen d ≡ marker s last_seen ++ chunk_frames d.0
  unfolding initial_frames
  covered-frames s last_seen (chunks, covered) e p = rw (e, p) refl

  -- A client attaches that has seen the output up to a number, and then more output comes, no more than
  -- its queue has room for. If the ring covers what it has not seen, and it either comes back or attaches
  -- to a session without a screen, then its initial frames and what is queued for it afterwards are all
  -- of the output after that number, in order, each piece once, behind the marker of a fresh attach.
  pub attach-delivers :
      (budget : ℤ) (outs more : List Output) (id last_seen : ℕ) (w : World VT)
      → Holds budget outs w.session
      → length (outs ++ more) < 2 ^ 64
      → length more ≤ client_chan_depth
      → (delta_from w.session.ring last_seen w.session.seq).1 ≡ true
      → (ltb 0 last_seen || not w.session.pty_mode) ≡ true
      → let (w', effects, frames, registered) = attach t id last_seen w in
        (cl : Client) × ((pump_all more w').session.client ≡ some cl)
        × (cl.id ≡ id)
        × (frames ++ cl.queue
            ≡ marker w.session last_seen
              ++ chunk_frames (newer last_seen (chunks_from 0 (outs ++ more))))
  attach-delivers budget outs more id last_seen w h small room covered p =
      let (client, seq, frames) = attach-client id last_seen w h.running in
      let w' = (attach t id last_seen w).0 in
      let n : w'.session.seq ≡ length outs = seq ∙ h.seq in
      let size = length-append outs more in
      let fresh : Client = record { id = id; queue = []; lagged = false } in
      let queue = pump_all-queue more w' fresh client (omega arith) (omega (arith, n, size)) in
      let at : delta_from w.session.ring last_seen w.session.seq
          ≡ delta_from (feed (new_ring budget) 0 outs) last_seen (length outs) =
        λ i. delta_from (h.ring i) last_seen (h.seq i) in
      let replays = delta_from-feed budget outs last_seen (omega (arith, size)) in
      let true' = sym (ap (λ d. d.1) at) ∙ covered in
      let replayed : (delta_from w.session.ring last_seen w.session.seq).0
          ≡ newer last_seen (chunks_from 0 outs) =
        ap (λ d. d.0) at ∙ replays.1 true' in
      let ahead = (replays.0.0 true').0 in
      let later =
        newer-all last_seen (suc (length outs)) (chunks_from (length outs) more)
          (Numbered-chunks_from (length outs) more)
          (omega (arith, ahead, length-chunks_from 0 outs)) in
      let whole : newer last_seen (chunks_from 0 (outs ++ more))
          ≡ newer last_seen (chunks_from 0 outs) ++ chunks_from (length outs) more =
        ap (newer last_seen) (
          chunks_from-append 0 outs more
          ∙ ap (λ k. chunks_from 0 outs ++ chunks_from k more) (omega arith))
        ∙ newer-append last_seen (chunks_from 0 outs) (chunks_from (length outs) more)
        ∙ ap (λ cs. newer last_seen (chunks_from 0 outs) ++ cs) later in
      (
        record fresh { queue = chunk_frames (chunks_from w'.session.seq more) },
        queue,
        refl,
        (λ i.
              (frames
                  ∙ covered-frames w.session last_seen _ covered p
                  ∙ ap (λ cs. marker w.session last_seen ++ chunk_frames cs) replayed)
                i
              ++ chunk_frames (chunks_from (n i) more))
            ∙ append_assoc (marker w.session last_seen) _ _
            ∙ ap (λ fs. marker w.session last_seen ++ fs)
                (sym (
                    chunk_frames-append (newer last_seen (chunks_from 0 outs))
                      (chunks_from (length outs) more))
                  ∙ ap chunk_frames (sym whole)),
      )
