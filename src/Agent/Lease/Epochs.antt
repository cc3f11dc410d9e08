-- ===== src/Agent/Lease/Epochs.antt =====
-- The order of the messages of one session: epochs only grow, a redelivery changes nothing, and no
-- other session is touched.
use geneza.Base.{
  ◌≡◌, refl, sym, ◌∙◌, ap, true, false, Option, none, some, List, [], ◌∷◌, inl, inr, Bool-cases,
  arith, Str, bytes_eq, bytes_eq_iff,
}
use geneza.Base.Int.{ℤ, ltb_ℤ}
use geneza.Base.Dict.{get, get-put, get-remove}
use geneza.Trust.Signed.{Keys, Verifier, Signed}
use geneza.Agent.Live.{LiveSession, Worker}
use geneza.Agent.Lease.{Message, Decoders, handle, handle_all}
use geneza.Agent.Lease.Change.{
  Advances, Change, unchanged, removed, advanced, target, handle-Change,
}

-- What a run leaves of a session: it is gone, or it is as it was, or it is the same session with a
-- larger epoch. A session that is not live does not come back.
pub data Follows : Option LiveSession → Option LiveSession → Type 0 where
  gone : (o : Option LiveSession) → Follows o none
  kept : (a : LiveSession) → Follows (some a) (some a)
  later : (a b : LiveSession) → Advances a b → Follows (some a) (some b)

ltb_ℤ-trans : (a b c : ℤ) → ltb_ℤ a b ≡ true → ltb_ℤ b c ≡ true → ltb_ℤ a c ≡ true
ltb_ℤ-trans a b c h k = ground arith

Advances-trans : (a b c : LiveSession) → Advances a b → Advances b c → Advances a c
Advances-trans a b c x y = record {
  newer = ltb_ℤ-trans a.epoch b.epoch c.epoch x.newer y.newer;
  same_grant = y.same_grant ∙ x.same_grant;
  same_key = y.same_key ∙ x.same_key;
  in_scope = λ h. y.in_scope (x.in_scope h);
}

Follows-refl : (o : Option LiveSession) → Follows o o
Follows-refl none = gone none
Follows-refl (some a) = kept a

Follows-trans : {x y z : Option LiveSession} → Follows x y → Follows y z → Follows x z
Follows-trans (gone o) (gone _) = gone o
Follows-trans (kept a) q = q
Follows-trans (later a b s) (gone _) = gone (some a)
Follows-trans (later a b s) (kept _) = later a b s
Follows-trans (later a b s) (later _ c t) = later a c (Advances-trans a b c s t)

Follows-put :
    (o : Option LiveSession) (a b : LiveSession) → o ≡ some a → Advances a b → Follows o (some b)
Follows-put o a b e s = rw e (later a b s)

Change-Follows :
    (w : Worker) (id : Str) (w' : Worker) (j : Str)
    → Change w id w'
    → Follows (get w.live j) (get w'.live j)
Change-Follows w id w' j (unchanged e) = rw e (Follows-refl (get w.live j))
Change-Follows w id w' j (removed e) =
    rw (e, get-remove w.live id j)
      (elim (Bool-cases (bytes_eq id j)) [
        | inl h ↦ rw h (gone _)
        | inr h ↦ rw h (Follows-refl (get w.live j))
      ])
Change-Follows w id w' j (advanced a b e p s) =
    rw (p, get-put w.live id j b)
      (elim (Bool-cases (bytes_eq id j)) [
        | inl h ↦
            rw h (Follows-put _ a b (ap (λ k. get w.live k) (sym ((bytes_eq_iff id j).0 h)) ∙ e) s)
        | inr h ↦ rw h (Follows-refl (get w.live j))
      ])

Change-other :
    (w : Worker) (id : Str) (w' : Worker) (j : Str)
    → Change w id w'
    → bytes_eq id j ≡ false
    → get w'.live j ≡ get w.live j
Change-other w id w' j (unchanged e) h = rw e refl
Change-other w id w' j (removed e) h = rw (e, get-remove w.live id j, h) refl
Change-other w id w' j (advanced a b e p s) h = rw (p, get-put w.live id j b, h) refl

module _ (ed_verify : Verifier) (decode_signed : Str → Option Signed) (trusted : Keys)
    (decoders : Decoders) where
  -- Whatever messages a worker handles, a live session is afterwards gone, or exactly as it was, or
  -- it has a strictly larger epoch under the same grant and the same client key; a session that was
  -- not live is still not live.
  pub handle_all-Follows :
      (ms : List Message) (w : Worker) (id : Str)
      → Follows
          (get w.live id)
          (get (handle_all ed_verify decode_signed trusted decoders w ms).live id)
  unfolding handle_all
  handle_all-Follows [] w id = Follows-refl (get w.live id)
  handle_all-Follows (m ∷ ms) w id =
      Follows-trans
        (Change-Follows w (target m) _ id
          (handle-Change ed_verify decode_signed trusted decoders w m))
        (handle_all-Follows ms _ id)

  -- A message, valid or not, leaves every session but the one that it names as it was.
  pub handle-other :
      (w : Worker) (m : Message) (id : Str)
      → bytes_eq (target m) id ≡ false
      → get (handle ed_verify decode_signed trusted decoders w m).0.live id ≡ get w.live id
  handle-other w m id h =
      Change-other w (target m) _ id (handle-Change ed_verify decode_signed trusted decoders w m) h
