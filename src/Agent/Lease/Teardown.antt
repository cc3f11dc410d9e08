-- ===== src/Agent/Lease/Teardown.antt =====
-- What a delta that shrinks a session's caps tears down at once.
use geneza.Base.{
  subst, ◌≡◌, refl, sym, ap, ◌∙◌, Bool, false, not, Option, none, some, List, [], ◌∷◌, ◌++◌, inl,
  inr, Bool-cases, Str, if◌then◌else◌, ◌↔◌, In, In-append, ℕ,
}
use geneza.Base.Int.{leb_ℤ, ltb_ℤ}
use geneza.Base.Dict.{get, put, get-put_self}
use geneza.Trust.Grant.{Caps}
use geneza.Agent.Live.{
  forwards_of, writes_of, cancel_sftp, LiveSession, Worker, Splice, cancel_splice, target_allowed,
  torn, tear_forwards, tear_writes,
}
use geneza.Agent.Lease.{pos, DeltaPayload, commit_caps, delta_commit, targets_of, allows_write}

-- An open splice whose target the caps do not allow.
abbrev pub Barred : List Str → List Splice → ℕ → Type 0
Barred allowed fwds h =
    (s : Splice) × In s fwds
    × (s.handle ≡ h)
    × (target_allowed allowed s.dest_addr s.dest_port ≡ false)

torn_iff :
    (id : Str) (allowed : List Str) (fwds : List Splice) (h : ℕ)
    → In (cancel_splice id h) (torn id allowed fwds) ↔ Barred allowed fwds h
unfolding torn
torn_iff id allowed [] h = (λ m. absurd m, λ b. absurd b.1)
torn_iff id allowed (s ∷ ss) h =
    elim (Bool-cases (target_allowed allowed s.dest_addr s.dest_port)) [
      | inl q ↦ rw q (
        λ m. let b = (torn_iff id allowed ss h).0 m in (b.0, inr b.1, b.2, b.3),
        λ b. elim b.1 [
          | inl e ↦ cc (q, b.3, ap (λ x. target_allowed allowed x.dest_addr x.dest_port) e)
          | inr n ↦ (torn_iff id allowed ss h).1 (b.0, n, b.2, b.3)
        ],
      )
      | inr q ↦ rw q (
        λ m. elim m [
          | inl e ↦ (s, inl refl, cc, q)
          | inr n ↦ let b = (torn_iff id allowed ss h).0 n in (b.0, inr b.1, b.2, b.3)
        ],
        λ b. elim b.1 [
          | inl e ↦ inl (ap (λ n. cancel_splice id n) (sym b.2 ∙ ap (λ x. x.handle) e))
          | inr n ↦ inr ((torn_iff id allowed ss h).1 (b.0, n, b.2, b.3))
        ],
      )
    ]

commit_caps-fwds :
    (ls : LiveSession) (p : DeltaPayload) (caps : Option Caps)
    → (commit_caps ls p caps).fwds ≡ ls.fwds
unfolding commit_caps
commit_caps-fwds ls p caps = elim (Bool-cases (ltb_ℤ (pos 0) p.lease_expiry_unix_ms)) [
  | inl b ↦ rw b refl
  | inr b ↦ rw b refl
]

no_splice : (o : Option LiveSession) (id : Str) (h : ℕ) → ¬ In (cancel_splice id h) (writes_of id o)
unfolding writes_of
no_splice none id h m = m
no_splice (some ls) id h m = elim (Bool-cases ls.sftp_open) [
  | inl b ↦
      elim (subst (λ x. In (cancel_splice id h) (if x then cancel_sftp id ∷ [] else [])) b m) [
        | inl e ↦ cc
        | inr n ↦ n
      ]
  | inr b ↦ subst (λ x. In (cancel_splice id h) (if x then cancel_sftp id ∷ [] else [])) b m
]

-- The delta's effects besides the caps that go to the session host.
teardown_iff :
    (w : Worker) (id : Str) (ls : LiveSession) (allowed : List Str) (keep : Bool) (h : ℕ)
    → get w.live id ≡ some ls
    → In
        (cancel_splice id h)
        (tear_forwards w id allowed ++ (if keep then tear_writes w id else []))
      ↔ Barred allowed ls.fwds h
unfolding tear_forwards tear_writes
teardown_iff w id ls allowed keep h e =
    let torn_here =
      subst
        (λ o. In (cancel_splice id h) (torn id allowed (forwards_of o)) ↔ Barred allowed ls.fwds h)
        (sym e) (unfold forwards_of in torn_iff id allowed ls.fwds h) in
    let both =
      In-append (cancel_splice id h) (torn id allowed (forwards_of (get w.live id)))
        (if keep then writes_of id (get w.live id) else []) in
    (
      λ m. elim (both.0 m) [
        | inl k ↦ torn_here.0 k
        | inr k ↦ elim (Bool-cases keep) [
          | inl b ↦ absurd (
              no_splice (get w.live id) id h (
                subst
                  (λ x. In (cancel_splice id h) (if x then writes_of id (get w.live id) else [])) b
                  k))
          | inr b ↦ absurd (
              subst (λ x. In (cancel_splice id h) (if x then writes_of id (get w.live id) else []))
                b k)
        ]
      ],
      λ b. both.1 (inl (torn_here.1 b)),
    )

-- A delta with a new epoch that commits its caps cancels, of the open splices of its session,
-- exactly those whose target the new caps do not allow.
pub delta_commit-cancels_iff :
    (w : Worker) (id : Str) (p : DeltaPayload) (caps : Option Caps) (ls : LiveSession) (h : ℕ)
    → leb_ℤ p.epoch ls.epoch ≡ false
    → In (cancel_splice id h) (delta_commit w id p caps ls).1 ↔ Barred (targets_of caps) ls.fwds h
unfolding delta_commit
delta_commit-cancels_iff w id p caps ls h s =
    let ls' = commit_caps ls p caps in
    let w' : Worker = record { live = put w.live id ls' } in
    let body =
      teardown_iff w' id ls' (targets_of caps) (not (allows_write caps)) h
        (get-put_self w.live id ls') in
    let same =
      subst
        (λ f.
          In (cancel_splice id h) (
            tear_forwards w' id (targets_of caps)
            ++ (if not (allows_write caps) then tear_writes w' id else []))
          ↔ Barred (targets_of caps) f h)
        (commit_caps-fwds ls p caps) body in
    rw s (λ m. elim m [ inl e ↦ cc | inr k ↦ same.0 k ], λ b. inr (same.1 b))
