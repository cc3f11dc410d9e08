-- ===== src/SessionHost/Ring/Replay.antt =====
-- What a client that comes back is replayed.
use geneza.Base.{
  subst, ℕ, suc, ◌+◌, ◌-◌, ◌^◌, ◌==◌, ◌≤◌, ◌<◌, ◌≡◌, ◌↔◌, refl, ap, sym, ◌∙◌, inl, inr, Bool, true,
  false, List, [], ◌∷◌, ◌++◌, arith, ltb, length, length-append, Bool-cases, if◌then◌else◌,
}
use geneza.Base.Int.{ℤ}
use geneza.SessionHost.Ring.{
  RingChunk, Ring, new_ring, drop_seen, starts_late, delta_from, Output, feed,
}
use geneza.SessionHost.Ring.Retention.{
  Numbered-chunks_from, length-chunks_from, Numbered, chunks_from, Retains, feed-Retains,
}

-- The chunks with a number above `after`.
pub newer : ℕ → List RingChunk → List RingChunk
newer after [] = []
newer after (c ∷ cs) = let rest = newer after cs in if ltb after c.seq then c ∷ rest else rest

pub newer-append :
    (after : ℕ) (cs ds : List RingChunk) → newer after (cs ++ ds) ≡ newer after cs ++ newer after ds
unfolding newer
newer-append after [] ds = refl
newer-append after (c ∷ cs) ds = ground (arith, newer-append after cs ds)

length-newer :
    (after n : ℕ) (cs : List RingChunk)
    → Numbered (suc n) cs
    → length (newer after cs) ≡ length cs - (after - n)
unfolding newer
length-newer after n [] h = omega arith
length-newer after n (c ∷ cs) h = ground (arith, length-newer after (suc n) cs h.1)

pub newer-all :
    (after n : ℕ) (cs : List RingChunk) → Numbered n cs → after < n → newer after cs ≡ cs
unfolding newer
newer-all after n [] h lt = refl
newer-all after n (c ∷ cs) h lt = ground (arith, newer-all after (suc n) cs h.1)

newer-none :
    (after n : ℕ) (cs : List RingChunk)
    → Numbered (suc n) cs
    → n + length cs ≤ after
    → newer after cs ≡ []
unfolding newer
newer-none after n [] h le = refl
newer-none after n (c ∷ cs) h le = ground (arith, newer-none after (suc n) cs h.1)

drop_seen-newer :
    (after n : ℕ) (cs : List RingChunk) → Numbered n cs → drop_seen after cs ≡ newer after cs
unfolding drop_seen newer
drop_seen-newer after n [] h = refl
drop_seen-newer after n (c ∷ cs) h =
    ground (arith, drop_seen-newer after (suc n) cs h.1, newer-all after (suc n) cs h.1)

Numbered-right :
    (n : ℕ) (cs ds : List RingChunk) → Numbered n (cs ++ ds) → Numbered (n + length cs) ds
Numbered-right n [] ds h = subst (λ k. Numbered k ds) (omega arith) h
Numbered-right n (c ∷ cs) ds h =
    subst (λ k. Numbered k ds) (omega arith) (Numbered-right (suc n) cs ds h.1)

Numbered-left : (n : ℕ) (cs ds : List RingChunk) → Numbered n (cs ++ ds) → Numbered n cs
Numbered-left n [] ds h = tt
Numbered-left n (c ∷ cs) ds h = (h.0, Numbered-left (suc n) cs ds h.1)

-- The ring has the chunk after `after`, or it starts late.
starts_late_iff :
    (after n : ℕ) (cs : List RingChunk)
    → Numbered (suc n) cs
    → 0 < length cs
    → after < 2 ^ 64 - 1
    → (starts_late cs after ≡ false) ↔ (n ≤ after)
unfolding starts_late
starts_late_iff after n [] h pos lt = absurd (omega arith)
starts_late_iff after n (c ∷ cs) h pos lt = ground arith

abbrev pub Replays : List RingChunk → List RingChunk → ℕ → List RingChunk × Bool → Type 0
Replays history chunks after r =
    ((r.1 ≡ true) ↔ ((after ≤ length history) × (length (newer after history) ≤ length chunks)))
    × (r.1 ≡ true → r.0 ≡ newer after history)
    × (r.1 ≡ false → r.0 ≡ [])

delta_from-Replays :
    (r : Ring) (history : List RingChunk) (after : ℕ)
    → Numbered 1 history
    → length history < 2 ^ 64
    → Retains r.budget history r.size r.chunks
    → Replays history r.chunks after (delta_from r after (length history))
unfolding delta_from
delta_from-Replays r history after num lt h =
    let num' = subst (Numbered 1) h.splits num in
    let kept : Numbered (suc (length h.evicted)) r.chunks =
      subst (λ k. Numbered k r.chunks) (omega arith) (Numbered-right 1 h.evicted r.chunks num') in
    let gone = Numbered-left 1 h.evicted r.chunks num' in
    let long = length-newer after 0 history num in
    let sum = ap length h.splits ∙ length-append h.evicted r.chunks in
    let join = ap (newer after) h.splits ∙ newer-append after h.evicted r.chunks in
    let seen = drop_seen-newer after (suc (length h.evicted)) r.chunks kept in
    let late = starts_late_iff after (length h.evicted) r.chunks kept in
    let old = newer-none after 0 h.evicted gone in
    let size = length-newer after (length h.evicted) r.chunks kept in
    let some_kept : after < length history → 0 < length r.chunks =
      λ p. elim h.newest [ inl e ↦ absurd (omega (arith, ap length e)) | inr q ↦ q ] in
    elim (Bool-cases (ltb (length history) after)) [
      | inl ahead ↦ rw ahead (ground arith, λ e. cc, λ e. refl)
      | inr not_ahead ↦ elim (Bool-cases (after == length history)) [
        | inl same ↦
            rw (not_ahead, same)
              (ground arith, λ e. sym (newer-none after 0 history num (ground arith)), λ e. cc)
        | inr differ ↦ elim (Bool-cases (starts_late r.chunks after)) [
          | inl gone_by ↦
              rw (not_ahead, differ, gone_by) (ground (arith, some_kept, late), λ e. cc, λ e. refl)
          | inr held ↦
              rw (not_ahead, differ, held)
                (
                  ground (arith, some_kept, late),
                  λ e. ground (arith, some_kept, late, old),
                  λ e. cc,
                )
        ]
      ]
    ]

-- In a session of fewer than 2 ^ 64 pieces of output, a client that has seen everything up to
-- `after` is replayed the session's output after it, all of
-- it and nothing else, exactly when `after` is not ahead of the session and the ring still has all
-- of it; otherwise it gets nothing and is told that the replay is incomplete.
pub delta_from-feed :
    (budget : ℤ) (outs : List Output) (after : ℕ)
    → length outs < 2 ^ 64
    → let r = feed (new_ring budget) 0 outs in
      Replays (chunks_from 0 outs) r.chunks after (delta_from r after (length outs))
delta_from-feed budget outs after lt =
    let size = length-chunks_from 0 outs in
    subst
      (λ n.
        Replays (chunks_from 0 outs) (feed (new_ring budget) 0 outs).chunks after
          (delta_from (feed (new_ring budget) 0 outs) after n))
      size
      (delta_from-Replays (feed (new_ring budget) 0 outs) (chunks_from 0 outs) after
        (Numbered-chunks_from 0 outs) (omega (arith, size)) (feed-Retains budget outs lt))
