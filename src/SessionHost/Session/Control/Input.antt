-- ===== src/SessionHost/Session/Control/Input.antt =====
-- What of a client's input reaches the process of a session.
use geneza.Base.{
  ℕ, ◌+◌, ◌≤◌, ◌<◌, ◌≡◌, ◌⊎◌, inl, inr, sym, ap, ◌∙◌, refl, true, false, Option, none, some, List,
  [], ◌∷◌, ◌++◌, map, ltb, ◌==◌, if◌then◌else◌, length, length-append, Str, arith, In, Bool-cases,
}
use geneza.Base.Int.{ℤ}
use mathlib.Core.List.{append-nil, append_assoc}
use geneza.SessionHost.Session.{
  Frame, input_ack, Client, client_chan_depth, World, Effect, closes, terminates, writes,
  closes_stdin, is_client, mark_detached, drop_client, enqueue, deliver,
}
use geneza.SessionHost.Session.Control.{applied, handle_input, set_caps}

-- The bytes that some effects write to the process.
abbrev pub written : List Effect → Str
written [] = []
written (writes input ∷ es) = input ++ written es
written (closes id ∷ es) = written es
written (terminates reason ∷ es) = written es
written (closes_stdin ∷ es) = written es

abbrev pub Input : Type 0
Input = ℕ × Str

module _ {VT : Type 0} (now : ℤ) (id : ℕ) where
  -- The inputs of a client, one after the other, and what is written.
  pub handle_inputs : List Input → World VT → World VT × Str
  handle_inputs [] w = (w, [])
  handle_inputs ((seq, input) ∷ is) w =
      let (w', effects) = handle_input now id seq input w in
      let (w'', rest) = handle_inputs is w' in (w'', written effects ++ rest)

  -- The session has no use for an input with this number.
  Stale : ℕ → World VT → Type 0
  Stale seq w =
      (is_client w.session.client id ≡ true)
      → w.session.is_exited ≡ false
      → seq ≤ w.session.last_input_seq

  deliver-Stale :
      (seq : ℕ) (w : World VT) (m : Frame) (o : Option Client)
      → w.session.client ≡ o
      → Stale seq w
      → Stale seq (enqueue now w m o).0 × (written (enqueue now w m o).1 ≡ [])
  unfolding Stale enqueue drop_client mark_detached is_client
  deliver-Stale seq w m none e s = (s, refl)
  deliver-Stale seq w m (some cl) e s = ground arith

  given : ℕ → World VT → World VT
  given seq w = record w {
    session = record w.session {
      last_input_seq = if ltb w.session.last_input_seq seq then seq else w.session.last_input_seq;
      last_activity = now;
    };
  }

  delivered :
      (seq : ℕ) (w : World VT) (m : Frame)
      → Stale seq w
      → Stale seq (deliver now w m).0 × (written (deliver now w m).1 ≡ [])
  unfolding deliver
  delivered seq w m s = deliver-Stale seq w m w.session.client refl s

  enqueue-unwritten :
      (w : World VT) (m : Frame) (o : Option Client) → written (enqueue now w m o).1 ≡ []
  unfolding enqueue drop_client
  enqueue-unwritten w m none = refl
  enqueue-unwritten w m (some cl) = ground arith

  unwritten : (w : World VT) (m : Frame) → written (deliver now w m).1 ≡ []
  unfolding deliver
  unwritten w m = enqueue-unwritten w m w.session.client

  -- An input makes its number stale, and keeps what is stale.
  handle_input-Stale :
      (k seq : ℕ) (input : Str) (w : World VT)
      → (k ≡ seq) ⊎ Stale k w
      → Stale k (handle_input now id seq input w).0
  unfolding handle_input Stale
  handle_input-Stale k seq input w h =
      let g : World VT = record w {
        session = record w.session {
          last_input_seq =
              if ltb w.session.last_input_seq seq then seq else w.session.last_input_seq;
          last_activity = now;
        };
      } in
      let s : Stale k g =
        λ c run. elim h [ inl e ↦ ground arith | inr old ↦ ground (arith, old c run) ] in
      let later = (delivered k g (input_ack seq) s).0 in ground (arith, later)

  idle :
      (seq : ℕ) (input : Str) (w : World VT)
      → (is_client w.session.client id ≡ false) ⊎ (w.session.is_exited ≡ true)
      → handle_input now id seq input w ≡ (w, [])
  unfolding handle_input
  idle seq input w h = elim h [
    | inl e ↦ rw (e, handle_input) refl
    | inr e ↦ elim (Bool-cases (is_client w.session.client id)) [
      | inl c ↦ rw (c, e, handle_input) refl
      | inr c ↦ rw (c, handle_input) refl
    ]
  ]

  live :
      (seq : ℕ) (input : Str) (w : World VT)
      → is_client w.session.client id ≡ true
      → w.session.is_exited ≡ false
      → let d = deliver now (given seq w) (input_ack seq) in
        handle_input now id seq input w ≡ (d.0, applied w.session seq input ++ d.1)
  unfolding handle_input given
  live seq input w c run = rw (c, run, handle_input) refl

  -- Where nothing is applied, nothing is written.
  unapplied :
      (seq : ℕ) (input : Str) (w : World VT)
      → (is_client w.session.client id ≡ true
          → w.session.is_exited ≡ false
          → applied w.session seq input ≡ [])
      → written (handle_input now id seq input w).1 ≡ []
  unapplied seq input w h = elim (Bool-cases (is_client w.session.client id)) [
    | inr c ↦ ap (λ r. written r.1) (idle seq input w (inl c))
    | inl c ↦ elim (Bool-cases w.session.is_exited) [
      | inl over ↦ ap (λ r. written r.1) (idle seq input w (inr over))
      | inr run ↦
          ap (λ r. written r.1) (live seq input w c run)
          ∙ ap (λ es. written (es ++ (deliver now (given seq w) (input_ack seq)).1)) (h c run)
          ∙ unwritten (given seq w) (input_ack seq)
    ]
  ]

  Stale-written :
      (seq : ℕ) (input : Str) (w : World VT)
      → Stale seq w
      → written (handle_input now id seq input w).1 ≡ []
  unfolding Stale applied
  Stale-written seq input w s = unapplied seq input w (λ c run. ground (arith, s c run))

  -- All the numbers of some inputs are stale.
  AllStale : List Input → World VT → Type 0
  AllStale is w = (i : Input) → In i is → Stale i.0 w

  handle_inputs-keeps :
      (k : ℕ) (is : List Input) (w : World VT) → Stale k w → Stale k (handle_inputs is w).0
  unfolding handle_inputs
  handle_inputs-keeps k [] w s = s
  handle_inputs-keeps k ((seq, input) ∷ is) w s =
      handle_inputs-keeps k is (handle_input now id seq input w).0
        (handle_input-Stale k seq input w (inr s))

  handle_inputs-AllStale : (is : List Input) (w : World VT) → AllStale is (handle_inputs is w).0
  unfolding AllStale handle_inputs
  handle_inputs-AllStale [] w i m = absurd m
  handle_inputs-AllStale ((seq, input) ∷ is) w i m = elim m [
    | inl e ↦
        handle_inputs-keeps i.0 is (handle_input now id seq input w).0
          (handle_input-Stale i.0 seq input w (inl (ap (λ j. j.0) e)))
    | inr m' ↦ handle_inputs-AllStale is (handle_input now id seq input w).0 i m'
  ]

  AllStale-written :
      (is js : List Input) (w : World VT)
      → AllStale is w
      → ((i : Input) → In i js → In i is)
      → (handle_inputs js w).1 ≡ []
  unfolding AllStale handle_inputs
  AllStale-written is [] w s sub = refl
  AllStale-written is ((seq, input) ∷ js) w s sub =
      ap (λ e. e ++ (handle_inputs js (handle_input now id seq input w).0).1)
        (Stale-written seq input w (s (seq, input) (sub (seq, input) (inl refl))))
      ∙ AllStale-written is js (handle_input now id seq input w).0
          (λ i m. handle_input-Stale i.0 seq input w (inr (s i m))) (λ i m. sub i (inr m))

  -- Within one attachment, inputs that a client sends again, any of those that it has sent since it
  -- attached and in any order, write nothing more to the process. An attach starts the numbers anew.
  pub handle_inputs-replayed :
      (is js : List Input) (w : World VT)
      → ((i : Input) → In i js → In i is)
      → (handle_inputs js (handle_inputs is w).0).1 ≡ []
  handle_inputs-replayed is js w sub =
      AllStale-written is js (handle_inputs is w).0 (handle_inputs-AllStale is w) sub

  handle_input-read_only :
      (seq : ℕ) (input : Str) (w : World VT) (cl : Client)
      → w.session.client ≡ some cl
      → (cl.id == id) ≡ true
      → w.session.is_exited ≡ false
      → w.session.allow_input ≡ false
      → length cl.queue < client_chan_depth
      → let w' = (handle_input now id seq input w).0 in
        (w'.session.client ≡ some (record cl { queue = cl.queue ++ input_ack seq ∷ [] }))
        × (w'.session.is_exited ≡ false)
        × (w'.session.allow_input ≡ false)
  unfolding handle_input is_client deliver enqueue
  handle_input-read_only seq input w cl e same run ro room =
      let free : ltb (length cl.queue) client_chan_depth ≡ true = ground arith in
      ground (arith, free)

  read_only-inputs :
      (is : List Input) (w : World VT) (cl : Client)
      → w.session.client ≡ some cl
      → (cl.id == id) ≡ true
      → w.session.is_exited ≡ false
      → w.session.allow_input ≡ false
      → length cl.queue + length is ≤ client_chan_depth
      → ((handle_inputs is w).1 ≡ [])
        × ((handle_inputs is w).0.session.client
            ≡ some (record cl { queue = cl.queue ++ map (λ i. input_ack i.0) is }))
  unfolding handle_inputs applied
  read_only-inputs [] w cl e same run ro room =
      (refl, e ∙ ap some (λ i. record cl { queue = sym (append-nil cl.queue) i }))
  read_only-inputs ((seq, input) ∷ is) w cl e same run ro room =
      let w' = (handle_input now id seq input w).0 in
      let (client, run', ro') = handle_input-read_only seq input w cl e same run ro (omega arith) in
      let nothing = unapplied seq input w (λ _ _. ground arith) in
      let (rest, acks) =
        read_only-inputs is w' (record cl { queue = cl.queue ++ input_ack seq ∷ [] }) client same
          run' ro' (omega (arith, length-append cl.queue (input_ack seq ∷ []))) in
      (
        ap (λ es. es ++ (handle_inputs is w').1) nothing ∙ rest,
        acks
            ∙ ap some (λ i. record cl {
              queue = append_assoc cl.queue (input_ack seq ∷ []) (map (λ i. input_ack i.0) is) i;
            }),
      )

  -- Once the agent has made a session read-only, nothing that its client sends reaches the process, and
  -- each input is still acknowledged, in order, while the client's queue has room.
  pub set_caps-inputs :
      (is : List Input) (w : World VT) (cl : Client)
      → w.session.client ≡ some cl
      → cl.id ≡ id
      → w.session.is_exited ≡ false
      → length cl.queue + length is ≤ client_chan_depth
      → let r = handle_inputs is (set_caps true w) in
        (r.1 ≡ [])
        × (r.0.session.client
            ≡ some (record cl { queue = cl.queue ++ map (λ i. input_ack i.0) is }))
  unfolding set_caps
  set_caps-inputs is w cl e same run room =
      read_only-inputs is (set_caps true w) cl e (ground arith) run refl room
