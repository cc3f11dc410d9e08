-- ===== src/Wire/RoundTrip.antt =====
-- What is written is what is read, and nothing larger is.
use mathlib.Core.List.{append_assoc, append-nil}
use geneza.Base.{
  ℕ, zero, suc, ◌^◌, ◌≤◌, ◌<◌, ◌≡◌, refl, sym, ap, ◌∙◌, inl, inr, true, false, none, List, [], ◌∷◌,
  ◌++◌, arith, ltb, if◌then◌else◌, length, length-append, take-append, take-append-drop,
  length-take, Bool-cases, drop-append, Str, All,
}
use geneza.Wire.{
  max_frame, too_large, Result, ok, err, ◌>>=◌, Writer, put_uint32, uint32, write_frame, read_full,
  read_frame_limit, read_frame,
}

-- A buffer takes every write.
abbrev pub buffer : Writer Str
buffer = record { write = λ s p. (s ++ p, true) }

uint32-put_uint32 : (n : ℕ) → n < 2 ^ 32 → uint32 (put_uint32 n) ≡ n
unfolding uint32 put_uint32
uint32-put_uint32 n h = omega arith

read_full-append : (p rest : Str) → read_full (length p) (p ++ rest) ≡ ok (p, rest)
unfolding read_full
read_full-append p rest =
    rw (take-append p rest, drop-append p rest) (ground (arith, length-append p rest))

-- The bytes of a frame.
abbrev pub frame : Str → Str
frame p = put_uint32 (length p) ++ p

read_full-header :
    (n : ℕ) (rest : Str) → read_full 4 (put_uint32 n ++ rest) ≡ ok (put_uint32 n, rest)
unfolding read_full put_uint32
read_full-header n rest = ground arith

-- A reader with a limit takes the frame of a payload below 4 GiB off the stream and leaves the rest,
-- or, where the payload is over the limit, refuses it by its declared length alone.
pub read_frame_limit-frame :
    (limit : ℕ) (p rest : Str)
    → length p < 2 ^ 32
    → read_frame_limit limit (frame p ++ rest)
      ≡ (if ltb limit (length p) then err (too_large (length p)) else ok (p, rest))
unfolding read_frame_limit
read_frame_limit-frame limit p rest h =
    rw
      (
        append_assoc (put_uint32 (length p)) p rest,
        read_full-header (length p) (p ++ rest),
        uint32-put_uint32 (length p) h,
        read_full-append p rest,
      )
      refl

read_full_sound :
    (n : ℕ) (r p rest : Str) → read_full n r ≡ ok (p, rest) → (r ≡ p ++ rest) × (length p ≡ n)
unfolding read_full
read_full_sound n r p rest h =
    let whole = take-append-drop n r in let size = length-take n r in (ground arith, ground arith)

after_length :
    (limit : ℕ) (r hdr tail p rest : Str)
    → read_full 4 r ≡ ok (hdr, tail)
    → (if ltb limit (uint32 hdr) then err (too_large (uint32 hdr)) else read_full (uint32 hdr) tail)
      ≡ ok (p, rest)
    → (r ≡ hdr ++ p ++ rest) × (length hdr ≡ 4) × (length p ≡ uint32 hdr) × (length p ≤ limit)
after_length limit r hdr tail p rest h k =
    let (whole, four) = read_full_sound 4 r hdr tail h in
    elim (Bool-cases (ltb limit (uint32 hdr))) [
      | inl over ↦ cc (k, over)
      | inr fits ↦
          let (split, size) = read_full_sound (uint32 hdr) tail p rest (rw fits at k) in
          (whole ∙ ap (◌++◌ hdr) split ∙ sym (append_assoc hdr p rest), four, size, ground arith)
    ]

-- What a reader returns is within its limit: the stream is a 4-byte header, a payload of the length
-- that the header declares, and the rest.
pub read_frame_limit_sound :
    (limit : ℕ) (r p rest : Str)
    → read_frame_limit limit r ≡ ok (p, rest)
    → (hdr : Str) × (r ≡ hdr ++ p ++ rest)
      × (length hdr ≡ 4)
      × (length p ≡ uint32 hdr)
      × (length p ≤ limit)
unfolding read_frame_limit
read_frame_limit_sound limit r p rest h = go (read_full 4 r) refl h
  where
    go :
        (o : Result (Str × Str))
        → read_full 4 r ≡ o
        → (o >>= λ (f : Str × Str).
            if ltb limit (uint32 f.0)
            then err (too_large (uint32 f.0))
            else read_full (uint32 f.0) f.1)
          ≡ ok (p, rest)
        → (hdr : Str) × (r ≡ hdr ++ p ++ rest)
          × (length hdr ≡ 4)
          × (length p ≡ uint32 hdr)
          × (length p ≤ limit)
    go (err e) q k = cc k
    go (ok (hdr, tail)) q k =
        let (whole, four, size, fits) = after_length limit r hdr tail p rest q k in
        (hdr, whole, four, size, fits)

-- Frames written one after the other into a buffer.
pub write_all : Str → List Str → Str
write_all s [] = s
write_all s (p ∷ ps) = write_all (write_frame buffer s p).0 ps

-- At most `n` frames read off a stream.
pub read_all : ℕ → Str → Result (List Str)
read_all zero r = ok []
read_all (suc n) r = read_frame r >>= λ (f : Str × Str). read_all n f.1 >>= λ ps. ok (f.0 ∷ ps)

write_frame-buffer :
    (s p : Str) → length p ≤ max_frame → write_frame buffer s p ≡ (s ++ frame p, none)
unfolding write_frame
write_frame-buffer s p h = ground (arith, append_assoc s (put_uint32 (length p)) p)

frames : List Str → Str
frames [] = []
frames (p ∷ ps) = frame p ++ frames ps

write_all-frames :
    (s : Str) (ps : List Str) → All (λ p. length p ≤ max_frame) ps → write_all s ps ≡ s ++ frames ps
unfolding write_all frames
write_all-frames s [] h = sym (append-nil s)
write_all-frames s (p ∷ ps) h =
    rw (write_frame-buffer s p h.0, write_all-frames (s ++ frame p) ps h.1)
      (append_assoc s (frame p) (frames ps))

read_all-frames :
    (ps : List Str) → All (λ p. length p ≤ max_frame) ps → read_all (length ps) (frames ps) ≡ ok ps
unfolding read_all frames read_frame
read_all-frames [] h = refl
read_all-frames (p ∷ ps) h =
    let fits : ltb max_frame (length p) ≡ false = ground arith in
    rw
      (
        read_frame_limit-frame max_frame p (frames ps) (omega (arith, h.0)),
        fits,
        read_all-frames ps h.1,
      )
      refl

-- Any sequence of payloads, each within the frame limit, is read back from one stream as written.
pub read_all-write_all :
    (ps : List Str)
    → All (λ p. length p ≤ max_frame) ps
    → read_all (length ps) (write_all [] ps) ≡ ok ps
read_all-write_all ps h = rw (write_all-frames [] ps h) (read_all-frames ps h)
