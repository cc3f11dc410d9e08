-- ===== src/SessionHost/Ring/Retention.antt =====
-- What the ring keeps of a session's output.
use geneza.Base.{
  subst, map, ℕ, suc, ◌+◌, ◌-◌, ◌%◌, ◌^◌, ◌≤◌, ◌<◌, ◌≡◌, refl, ap, sym, ◌∙◌, ◌⊎◌, inl, inr, Bool,
  List, [], ◌∷◌, ◌++◌, arith, ltb, length, length-append, Str, Bool-cases,
}
use mathlib.Core.List.{append_assoc, append-nil}
use geneza.Base.Int.{ℤ}
use geneza.SessionHost.Ring.{
  RingChunk, Ring, new_ring, Evicted, zero_bytes, evict, add, Output, feed,
}

abbrev pub total : List RingChunk → ℕ
total [] = 0
total (c ∷ cs) = length c.payload + total cs

total-append : (cs ds : List RingChunk) → total (cs ++ ds) ≡ total cs + total ds
total-append [] ds = omega arith
total-append (c ∷ cs) ds = omega (arith, total-append cs ds)

-- The chunks are numbered one by one from `n`.
abbrev pub Numbered : ℕ → List RingChunk → Type 0
Numbered n [] = Unit
Numbered n (c ∷ cs) = (c.seq ≡ n) × Numbered (suc n) cs

Numbered-append :
    (n : ℕ) (cs : List RingChunk) (c : RingChunk)
    → Numbered n cs
    → c.seq ≡ n + length cs
    → Numbered n (cs ++ c ∷ [])
Numbered-append n [] c h e = (omega arith, tt)
Numbered-append n (d ∷ cs) c h e = (h.0, Numbered-append (suc n) cs c h.1 (omega arith))

-- No fewer than needed: with the newest of the evicted chunks the ring would be over budget.
abbrev pub Needed : ℕ → List RingChunk → List RingChunk → Type 0
Needed budget [] kept = Unit
Needed budget (e ∷ []) kept = budget < length e.payload + total kept
Needed budget (e ∷ d ∷ es) kept = Needed budget (d ∷ es) kept

Needed-skip :
    (budget : ℕ) (xs : List RingChunk) (y : RingChunk) (ys kept : List RingChunk)
    → Needed budget (y ∷ ys) kept
    → Needed budget (xs ++ y ∷ ys) kept
Needed-skip budget [] y ys kept h = h
Needed-skip budget (x ∷ []) y ys kept h = h
Needed-skip budget (x ∷ x' ∷ xs) y ys kept h = Needed-skip budget (x' ∷ xs) y ys kept h

Needed-grow :
    (budget : ℕ) (evicted kept more : List RingChunk)
    → total kept ≤ total more
    → Needed budget evicted kept
    → Needed budget evicted more
Needed-grow budget [] kept more le h = tt
Needed-grow budget (e ∷ []) kept more le h = omega arith
Needed-grow budget (e ∷ d ∷ es) kept more le h = Needed-grow budget (d ∷ es) kept more le h

Needed-cons :
    (budget : ℕ) (c : RingChunk) (es kept : List RingChunk)
    → budget < length c.payload + total (es ++ kept)
    → Needed budget es kept
    → Needed budget (c ∷ es) kept
Needed-cons budget c [] kept over h = over
Needed-cons budget c (e ∷ es) kept over h = h

Needed-join :
    (budget : ℕ) (old chunks more gone kept : List RingChunk)
    → more ≡ gone ++ kept
    → total chunks ≤ total more
    → Needed budget old chunks
    → Needed budget gone kept
    → Needed budget (old ++ gone) kept
Needed-join budget old chunks more [] kept e le h k =
    rw append-nil (Needed-grow budget old chunks kept (omega (arith, ap total e)) h)
Needed-join budget old chunks more (y ∷ ys) kept e le h k = Needed-skip budget old y ys kept k

-- The ring holds the end of a history: its bytes are counted, it is within its budget unless it is
-- down to one chunk, it is not empty if the history is not, and it evicted no chunk too many.
pub record Retains (budget : ℕ) (history : List RingChunk) (size : ℕ) (kept : List RingChunk)
    : Type 0 where
  pub evicted : List RingChunk
  pub splits : history ≡ evicted ++ kept
  pub counted : size ≡ total kept
  pub within : (size ≤ budget) ⊎ (length kept ≤ 1)
  pub newest : (history ≡ []) ⊎ (0 < length kept)
  pub needed : Needed budget evicted kept

abbrev pub wiped : List RingChunk → List Str
wiped = map (λ (c : RingChunk). zero_bytes c.payload)

record Evicts (budget : ℕ) (cs : List RingChunk) (e : Evicted) : Type 0 where
  held : Retains budget cs e.left e.kept
  zeroed : e.released ≡ wiped held.evicted

evict-Evicts :
    (budget size : ℕ) (cs : List RingChunk)
    → size ≡ total cs
    → Evicts budget cs (evict budget size cs)
unfolding evict
evict-Evicts budget size [] e = record {
  held = record {
    evicted = [];
    splits = refl;
    counted = e;
    within = inr (omega arith);
    newest = inl refl;
    needed = tt;
  };
  zeroed = refl;
}
evict-Evicts budget size (c ∷ []) e = record {
  held = record {
    evicted = [];
    splits = refl;
    counted = e;
    within = inr (omega arith);
    newest = inr (omega arith);
    needed = tt;
  };
  zeroed = refl;
}
evict-Evicts budget size (c ∷ d ∷ cs) e = elim (Bool-cases (ltb budget size)) [
  | inr fits ↦ rw fits (record {
    held = record {
      evicted = [];
      splits = refl;
      counted = e;
      within = inl (ground arith);
      newest = inr (omega arith);
      needed = tt;
    };
    zeroed = refl;
  })
  | inl over ↦
      let rest = evict-Evicts budget (size - length c.payload) (d ∷ cs) (omega arith) in
      rw over (record {
        held = record {
          evicted = c ∷ rest.held.evicted;
          splits = ap (◌∷◌ c) rest.held.splits;
          counted = rest.held.counted;
          within = rest.held.within;
          newest = elim rest.held.newest [ inl n ↦ cc n | inr p ↦ inr p ];
          needed =
              Needed-cons budget c rest.held.evicted _ (ground (arith, ap total rest.held.splits))
                rest.held.needed;
        };
        zeroed = ap (◌∷◌ (zero_bytes c.payload)) rest.zeroed;
      })
]

-- `add` extends the history by the chunk.
add-Retains :
    (r : Ring) (history : List RingChunk) (seq : ℕ) (stderr : Bool) (payload : Str)
    → Retains r.budget history r.size r.chunks
    → let chunk : RingChunk = record { seq = seq; stderr = stderr; payload = payload } in
      let r' = (add r seq stderr payload).0 in
      Retains r'.budget (history ++ chunk ∷ []) r'.size r'.chunks
unfolding add
add-Retains r history seq stderr payload h =
    let chunk : RingChunk = record { seq = seq; stderr = stderr; payload = payload } in
    let size = r.size + length payload in
    let fits : size ≡ total (r.chunks ++ chunk ∷ []) =
      omega (arith, h.counted, total-append r.chunks (chunk ∷ [])) in
    let e = evict-Evicts r.budget size (r.chunks ++ chunk ∷ []) fits in
    record {
      evicted = h.evicted ++ e.held.evicted;
      splits =
          ap (λ cs. cs ++ chunk ∷ []) h.splits
          ∙ append_assoc h.evicted r.chunks (chunk ∷ [])
          ∙ ap (◌++◌ h.evicted) e.held.splits
          ∙ sym (append_assoc h.evicted e.held.evicted _);
      counted = e.held.counted;
      within = e.held.within;
      newest = elim e.held.newest [
        | inl n ↦ absurd (omega (arith, ap length n, length-append r.chunks (chunk ∷ [])))
        | inr p ↦ inr p
      ];
      needed =
          Needed-join r.budget h.evicted r.chunks (r.chunks ++ chunk ∷ []) e.held.evicted _
            e.held.splits (omega (arith, total-append r.chunks (chunk ∷ []))) h.needed
            e.held.needed;
    }

-- Every chunk of the output so numbered, kept or not.
unfoldable pub chunks_from : ℕ → List Output → List RingChunk
chunks_from seq [] = []
chunks_from seq ((stderr, payload) ∷ rest) =
    record { seq = seq + 1; stderr = stderr; payload = payload } ∷ chunks_from (seq + 1) rest

pub length-chunks_from :
    (seq : ℕ) (outs : List Output) → length (chunks_from seq outs) ≡ length outs
unfolding chunks_from
length-chunks_from seq [] = refl
length-chunks_from seq ((stderr, payload) ∷ rest) = ap suc (length-chunks_from (seq + 1) rest)

pub Numbered-chunks_from :
    (seq : ℕ) (outs : List Output) → Numbered (suc seq) (chunks_from seq outs)
unfolding chunks_from
Numbered-chunks_from seq [] = tt
Numbered-chunks_from seq ((stderr, payload) ∷ rest) = (
  omega arith,
  subst (λ k. Numbered (suc k) (chunks_from (seq + 1) rest)) (omega arith)
      (Numbered-chunks_from (seq + 1) rest),
)

feed-from :
    (r : Ring) (history : List RingChunk) (seq : ℕ) (outs : List Output)
    → seq + length outs < 2 ^ 64
    → Retains r.budget history r.size r.chunks
    → let r' = feed r seq outs in
      Retains r'.budget (history ++ chunks_from seq outs) r'.size r'.chunks
unfolding feed chunks_from
feed-from r history seq [] lt h = rw append-nil h
feed-from r history seq ((stderr, payload) ∷ rest) lt h =
    let next : (seq + 1) % 2 ^ 64 ≡ seq + 1 = omega arith in
    rw (next, feed)
      (rw (append_assoc history _ _) at (
        feed-from (add r (seq + 1) stderr payload).0
          (history ++ record { seq = seq + 1; stderr = stderr; payload = payload } ∷ []) (seq + 1)
          rest (omega arith) (add-Retains r history (seq + 1) stderr payload h)))

-- Whatever the output, of fewer than 2 ^ 64 pieces, the ring of a session holds its end: the bytes are counted, they are within
-- the budget unless the ring is down to one chunk, the newest chunk is there, and putting the last
-- evicted chunk back would exceed the budget.
pub feed-Retains :
    (budget : ℤ) (outs : List Output)
    → length outs < 2 ^ 64
    → let r = feed (new_ring budget) 0 outs in Retains r.budget (chunks_from 0 outs) r.size r.chunks
unfolding new_ring
feed-Retains budget outs lt = feed-from (new_ring budget) [] 0 outs (omega arith) (record {
  evicted = [];
  splits = refl;
  counted = refl;
  within = inl (omega arith);
  newest = inl refl;
  needed = tt;
})

-- Where the size is the number of the bytes held, the chunks that `add` lets go are the oldest ones,
-- and every buffer of theirs has been overwritten with zeros.
pub add-wipes :
    (r : Ring) (seq : ℕ) (stderr : Bool) (payload : Str)
    → r.size ≡ total r.chunks
    → let chunk : RingChunk = record { seq = seq; stderr = stderr; payload = payload } in
      (gone : List RingChunk) × (r.chunks ++ chunk ∷ []
        ≡ gone ++ (add r seq stderr payload).0.chunks)
      × ((add r seq stderr payload).1 ≡ wiped gone)
unfolding add
add-wipes r seq stderr payload h =
    let chunk : RingChunk = record { seq = seq; stderr = stderr; payload = payload } in
    let e =
      evict-Evicts r.budget (r.size + length payload) (r.chunks ++ chunk ∷ [])
        (omega (arith, h, total-append r.chunks (chunk ∷ []))) in
    (e.held.evicted, e.held.splits, e.zeroed)
