-- ===== src/Agent/Lease/Scope.antt =====
-- The caps that a worker ever enforces on a session, against the grant that the session was
-- established with.
use geneza.Base.{
  subst, ◌≡◌, refl, sym, ◌∙◌, true, Option, none, some, List, [], ◌∷◌, inl, inr, Bool-cases, Str,
  bytes_eq, if◌then◌else◌, ℕ, In, All,
}
use geneza.Base.Int.{ℤ}
use geneza.Base.Dict.{get, put, remove, get-put, get-remove}
use geneza.Trust.Signed.{Keys, Verifier, Signed}
use geneza.Trust.Grant.{SessionGrant, Caps, implied_caps, is_empty}
use geneza.Agent.Live.{
  LiveSession, Worker, Splice, forward_target_allowed, target_allowed, caps_allow_forward,
  register_live, unregister_live, on_live, track_splice, untrack_splice, set_sftp_cancel,
  clear_sftp_cancel,
}
use geneza.Agent.Lease.{Message, Decoders, handle}
use geneza.Agent.Lease.Change.{
  InScope, grant_max, downgraded, Change, unchanged, removed, advanced, target, handle-Change,
}

abbrev SessionScoped : Option LiveSession → Type 0
SessionScoped none = Unit
SessionScoped (some ls) = InScope ls.grant ls.caps

-- Every live session's caps are in the scope of its own grant.
abbrev Scoped : Worker → Type 0
Scoped w = (id : Str) → SessionScoped (get w.live id)

module _ (ed_verify : Verifier) (decode_signed : Str → Option Signed) (trusted : Keys)
    (decoders : Decoders) where
  -- The workers that a start without sessions leads to, by any sequence of sessions that are
  -- established and end, of messages, and of channels that are opened and closed.
  pub data Reachable : Worker → Type 0 where
    started : Reachable (record { live = [] })
    registered :
        (w : Worker) (deadline : ℤ) (id : Str) (grant : SessionGrant) (path_class : Str)
        → Reachable w
        → Reachable (register_live w deadline id grant path_class)
    unregistered : (w : Worker) (id : Str) → Reachable w → Reachable (unregister_live w id)
    handled :
        (w : Worker) (m : Message)
        → Reachable w
        → Reachable (handle ed_verify decode_signed trusted decoders w m).0
    tracked : (w : Worker) (id : Str) (s : Splice) → Reachable w → Reachable (track_splice w id s)
    untracked : (w : Worker) (id : Str) (h : ℕ) → Reachable w → Reachable (untrack_splice w id h)
    sftp_opened : (w : Worker) (id : Str) → Reachable w → Reachable (set_sftp_cancel w id)
    sftp_closed : (w : Worker) (id : Str) → Reachable w → Reachable (clear_sftp_cancel w id)

put-Scoped :
    (w : Worker) (id : Str) (b : LiveSession)
    → InScope b.grant b.caps
    → Scoped w
    → Scoped (record { live = put w.live id b })
put-Scoped w id b h s j =
    rw (get-put w.live id j b)
      (elim (Bool-cases (bytes_eq id j)) [ inl q ↦ rw q h | inr q ↦ rw q (s j) ])

remove-Scoped : (w : Worker) (id : Str) → Scoped w → Scoped (record { live = remove w.live id })
remove-Scoped w id s j =
    rw (get-remove w.live id j)
      (elim (Bool-cases (bytes_eq id j)) [ inl q ↦ rw q tt | inr q ↦ rw q (s j) ])

SessionScoped-some :
    (o : Option LiveSession) (a : LiveSession)
    → o ≡ some a
    → SessionScoped o
    → InScope a.grant a.caps
SessionScoped-some o a e s = subst SessionScoped e s

Change-Scoped : (w : Worker) (id : Str) (w' : Worker) → Change w id w' → Scoped w → Scoped w'
Change-Scoped w id w' (unchanged e) s j = rw e (s j)
Change-Scoped w id w' (removed e) s j = rw e (remove-Scoped w id s j)
Change-Scoped w id w' (advanced a b e p v) s j =
    rw p (put-Scoped w id b (v.in_scope (SessionScoped-some _ a e (s id))) s j)

-- A change of a session that keeps its grant and its caps.
on_live-Scoped :
    (w : Worker) (id : Str) (f : LiveSession → LiveSession)
    → ((ls : LiveSession) → ((f ls).grant ≡ ls.grant) × ((f ls).caps ≡ ls.caps))
    → (o : Option LiveSession) → get w.live id ≡ o
    → Scoped w
    → Scoped (on_live w id f o)
unfolding on_live
on_live-Scoped w id f k none e s = s
on_live-Scoped w id f k (some ls) e s =
    put-Scoped w id (f ls) (rw ((k ls).0, (k ls).1) (SessionScoped-some _ ls e (s id))) s

In-ceiling : (target t : Str) → In t (if is_empty target then [] else target ∷ []) → t ≡ target
In-ceiling [] t m = absurd m
In-ceiling (c ∷ s) t m = elim m [ inl e ↦ e | inr n ↦ absurd n ]

targets-narrow :
    (target : Str) (ts : List Str) (addr : Str) (port : ℕ)
    → All (λ t. In t (if is_empty target then [] else target ∷ [])) ts
    → target_allowed ts addr port ≡ true
    → forward_target_allowed target addr port ≡ true
unfolding target_allowed
targets-narrow target [] addr port a h = cc
targets-narrow target (t ∷ ts) addr port a h =
    elim (Bool-cases (forward_target_allowed t addr port)) [
      | inl q ↦ subst (λ x. forward_target_allowed x addr port ≡ true) (In-ceiling target t a.0) q
      | inr q ↦ targets-narrow target ts addr port a.1 (sym (rw q refl) ∙ h)
    ]

allowed-InScope :
    (grant : SessionGrant) (caps : Option Caps) (c : Caps) (addr : Str) (port : ℕ)
    → InScope grant caps
    → caps ≡ some c
    → caps_allow_forward caps addr port ≡ true
    → forward_target_allowed grant.forward_target addr port ≡ true
unfolding caps_allow_forward implied_caps
allowed-InScope grant caps c addr port grant_max e h = cc
allowed-InScope grant caps c addr port (downgraded d b) e h =
    targets-narrow grant.forward_target d.forward_targets addr port b.targets h

module _ (ed_verify : Verifier) (decode_signed : Str → Option Signed) (trusted : Keys)
    (decoders : Decoders) where
  Reachable-Scoped : (w : Worker) → Reachable ed_verify decode_signed trusted decoders w → Scoped w
  unfolding register_live unregister_live track_splice untrack_splice set_sftp_cancel
      clear_sftp_cancel get
  Reachable-Scoped w started j = tt
  Reachable-Scoped w (registered v deadline id grant path r) j =
      put-Scoped v id _ grant_max (Reachable-Scoped v r) j
  Reachable-Scoped w (unregistered v id r) j = remove-Scoped v id (Reachable-Scoped v r) j
  Reachable-Scoped w (handled v m r) j =
      Change-Scoped v (target m) _ (handle-Change ed_verify decode_signed trusted decoders v m)
        (Reachable-Scoped v r) j
  Reachable-Scoped w (tracked v id s r) j =
      on_live-Scoped v id _ (λ ls. (refl, refl)) _ refl (Reachable-Scoped v r) j
  Reachable-Scoped w (untracked v id h r) j =
      on_live-Scoped v id _ (λ ls. (refl, refl)) _ refl (Reachable-Scoped v r) j
  Reachable-Scoped w (sftp_opened v id r) j =
      on_live-Scoped v id _ (λ ls. (refl, refl)) _ refl (Reachable-Scoped v r) j
  Reachable-Scoped w (sftp_closed v id r) j =
      on_live-Scoped v id _ (λ ls. (refl, refl)) _ refl (Reachable-Scoped v r) j

  -- In every reachable worker the caps of a live session are none, or they are below what the
  -- session's own grant implies.
  pub Reachable-InScope :
      (w : Worker)
      → Reachable ed_verify decode_signed trusted decoders w
      → (id : Str) (ls : LiveSession) → get w.live id ≡ some ls
      → InScope ls.grant ls.caps
  Reachable-InScope w r id ls e = SessionScoped-some _ ls e (Reachable-Scoped w r id)

  -- In every reachable worker, a forward that the downgraded caps of a live session allow is the one
  -- that the session's own grant was minted for.
  pub Reachable-forward :
      (w : Worker)
      → Reachable ed_verify decode_signed trusted decoders w
      → (id : Str) (ls : LiveSession) (c : Caps) → get w.live id ≡ some ls
      → ls.caps ≡ some c
      → (addr : Str) (port : ℕ) → caps_allow_forward ls.caps addr port ≡ true
      → forward_target_allowed ls.grant.forward_target addr port ≡ true
  Reachable-forward w r id ls c e k addr port h =
      allowed-InScope ls.grant ls.caps c addr port (Reachable-InScope w r id ls e) k h
