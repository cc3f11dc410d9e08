-- ===== src/SessionHost/Ring.antt =====
-- internal/sessionhost/ring.go: the bounded scrollback. A uint64 wraps; sizes are lengths of slices.
-- `add` and `zeroize` also return the buffers that they let go, as they leave them.
pub mod Retention
pub mod Replay
mod Examples
use geneza.Base.{
  ℕ, zero, suc, ◌+◌, ◌-◌, ◌%◌, ◌^◌, Bool, true, false, List, [], ◌∷◌, ◌++◌, map, ltb, leb, ◌==◌,
  if◌then◌else◌, length, Str,
}
use geneza.Base.Int.{ℤ, pos, leb_ℤ, pos_part}

pub record RingChunk : Type 0 where
  pub seq : ℕ
  pub stderr : Bool
  pub payload : Str

pub record Ring : Type 0 where
  pub budget : ℕ
  pub size : ℕ
  pub chunks : List RingChunk

abbrev pub default_ring_bytes : ℕ
default_ring_bytes = 262144

unfoldable pub new_ring : ℤ → Ring
new_ring budget = record {
  budget = if leb_ℤ budget (pos 0) then default_ring_bytes else pos_part budget;
  size = 0;
  chunks = [];
}

abbrev pub zero_bytes : Str → Str
zero_bytes = map (λ _. 0)

pub record Evicted : Type 0 where
  pub left : ℕ
  pub kept : List RingChunk
  pub released : List Str

-- The loop of add: whole chunks go, oldest first, while over budget and not alone.
unfoldable pub evict : ℕ → ℕ → List RingChunk → Evicted
evict budget size [] = record { left = size; kept = []; released = [] }
evict budget size (c ∷ []) = record { left = size; kept = c ∷ []; released = [] }
evict budget size (c ∷ d ∷ cs) =
    let rest = evict budget (size - length c.payload) (d ∷ cs) in
    if ltb budget size
    then record rest { released = zero_bytes c.payload ∷ rest.released }
    else record { left = size; kept = c ∷ d ∷ cs; released = [] }

unfoldable pub add : Ring → ℕ → Bool → Str → Ring × List Str
unfolding evict
add r seq stderr payload =
    let chunk : RingChunk = record { seq = seq; stderr = stderr; payload = payload } in
    let e = evict r.budget (r.size + length payload) (r.chunks ++ chunk ∷ []) in
    (record r { size = e.left; chunks = e.kept }, e.released)

drop_seen : ℕ → List RingChunk → List RingChunk
drop_seen after [] = []
drop_seen after (c ∷ cs) = let rest = drop_seen after cs in if leb c.seq after then rest else c ∷ cs

-- `len(r.chunks) == 0 || r.chunks[0].seq > after+1`
starts_late : List RingChunk → ℕ → Bool
starts_late [] after = true
starts_late (c ∷ cs) after = ltb ((after + 1) % 2 ^ 64) c.seq

unfoldable pub delta_from : Ring → ℕ → ℕ → List RingChunk × Bool
unfolding starts_late drop_seen
delta_from r after cur =
    if ltb cur after
    then ([], false)
    else if after == cur
    then ([], true)
    else if starts_late r.chunks after
    then ([], false)
    else (drop_seen after r.chunks, true)

pub zeroize : Ring → Ring × List Str
zeroize r = (record r { size = 0; chunks = [] }, map (λ c. zero_bytes c.payload) r.chunks)

-- A piece of output: whether it came from stderr, and its bytes.
abbrev pub Output : Type 0
Output = Bool × Str

-- What the pump of session.go does to the ring with each piece: `s.seq++`, then `add`.
unfoldable pub feed : Ring → ℕ → List Output → Ring
feed r seq [] = r
feed r seq ((stderr, payload) ∷ rest) =
    let next = (seq + 1) % 2 ^ 64 in feed (add r next stderr payload).0 next rest
