-- ===== src/Update/Reconcile/Failed.antt =====
-- A version that failed its health gate, while the controller still desires it.
use geneza.Base.{
  bytes_eq_iff, false, inr, inl, ◌≡◌, refl, sym, ap, ◌∙◌, subst, true, Option, none, some, List, [],
  ◌∷◌, ◌++◌, ◌||◌, Bool-cases, Str, bytes_eq, bytes_eq_refl, All,
}
use geneza.Update.Reconcile.{
  ltb_ℤ, contains, ℤ, mark_bad, State, raise_root_keys_version, is_bad, reset_bad_on_change,
  is_empty, Manifest, Desired, RootKeys, single_key, refused, accepted, Gate, healthy, unhealthy,
  interrupted, Poll, Bootstrap, install, swap_worker, install_and_swap, establish_trust, update_to,
  decide, observe, polled, reconcile, reconcile_all,
}

reset-same_desired : (s : State) (v : Str) → reset_bad_on_change s v v ≡ s
unfolding reset_bad_on_change
reset-same_desired s v = elim (Bool-cases (is_empty v)) [
  | inl e ↦ rw e refl
  | inr e ↦ rw (e, bytes_eq_refl v) refl
]

observe-same : (b : Bootstrap) (d : Desired) → b.last_desired ≡ d.version → observe b d ≡ b
unfolding observe
observe-same b d e =
    let st : reset_bad_on_change b.st d.version b.last_desired ≡ b.st =
      ap (λ l. reset_bad_on_change b.st d.version l) e ∙ reset-same_desired b.st d.version in
    ap (λ s. record b { st = s; last_desired = d.version }) st
    ∙ ap (λ l. record b { last_desired = l }) (sym e)

decide-bad :
    (b : Bootstrap) (d : Desired) (p : Poll) → is_bad b.st d.version ≡ true → decide b d p ≡ b
unfolding decide
decide-bad b d p h = elim (Bool-cases (bytes_eq d.version b.current)) [
  | inl c ↦ rw c refl
  | inr c ↦ rw (c, h) refl
]

polled-bad :
    (b : Bootstrap) (p : Poll) (d : Desired)
    → is_bad b.st d.version ≡ true
    → b.last_desired ≡ d.version
    → polled b p (some d) ≡ b
unfolding polled
polled-bad b p d h e = ap (λ x. decide x d p) (observe-same b d e) ∙ decide-bad b d p h

swap_worker-last :
    (b : Bootstrap) (v : Str) (m : Manifest) (gate : Gate)
    → (swap_worker b v m.created_unix gate).last_desired ≡ b.last_desired
unfolding swap_worker
swap_worker-last b v m healthy = refl
swap_worker-last b v m unhealthy = refl
swap_worker-last b v m interrupted = refl

install_and_swap-last :
    (b : Bootstrap) (v : Str) (m : Manifest) (gate : Gate)
    → (install_and_swap b v m gate).last_desired ≡ b.last_desired
unfolding install_and_swap
install_and_swap-last b v m gate = elim (Bool-cases (install b.st.floor_unix m)) [
  | inr i ↦ rw i refl
  | inl i ↦ rw i (elim (Bool-cases (bytes_eq m.version v)) [
    | inr e ↦ rw e refl
    | inl e ↦ rw e (swap_worker-last b m.version m gate)
  ])
]

establish_trust-last :
    (b : Bootstrap) (v : Str) (m : Manifest) (gate : Gate) (root_keys : RootKeys)
    → (establish_trust b v m gate root_keys).last_desired ≡ b.last_desired
unfolding establish_trust
establish_trust-last b v m gate single_key = install_and_swap-last b v m gate
establish_trust-last b v m gate refused = refl
establish_trust-last b v m gate (accepted k) =
    install_and_swap-last (record b { st = raise_root_keys_version b.st k }) v m gate

update_to-last :
    (b : Bootstrap) (v : Str) (o : Option Manifest) (gate : Gate) (root_keys : RootKeys)
    → (update_to b v o gate root_keys).last_desired ≡ b.last_desired
unfolding update_to
update_to-last b v none gate root_keys = refl
update_to-last b v (some m) gate root_keys = establish_trust-last b v m gate root_keys

polled-last :
    (b : Bootstrap) (p : Poll) (d : Desired) → (polled b p (some d)).last_desired ≡ d.version
unfolding polled decide observe
polled-last b p d = elim (Bool-cases (bytes_eq d.version b.current)) [
  | inl c ↦ rw c refl
  | inr c ↦
      rw c
        (elim (Bool-cases (is_bad (reset_bad_on_change b.st d.version b.last_desired) d.version)) [
          | inl k ↦ rw k refl
          | inr k ↦ rw k (update_to-last (observe b d) d.version d.manifest p.gate p.root_keys)
        ])
]

-- A poll that desires a version.
abbrev pub Desires : Str → Poll → Type 0
Desires v p = (d : Desired) × (p.desired ≡ some d) × (d.version ≡ v)

bad-stays :
    (ps : List Poll) (b : Bootstrap) (v : Str)
    → is_bad b.st v ≡ true
    → b.last_desired ≡ v
    → All (Desires v) ps
    → reconcile_all b ps ≡ b
unfolding reconcile_all reconcile
bad-stays [] b v h e a = refl
bad-stays (p ∷ ps) b v h e a =
    let d = a.0.0 in
    let once : polled b p p.desired ≡ b =
      ap (λ o. polled b p o) a.0.1
      ∙ polled-bad b p d (subst (λ x. is_bad b.st x ≡ true) (sym a.0.2) h) (e ∙ sym a.0.2) in
    ap (λ x. reconcile_all x ps) once ∙ bad-stays ps b v h e a.1

-- Once a round leaves its desired version marked as bad, no later round changes anything, whatever
-- it offers, for as long as the controller desires that version.
reconcile_all-bad :
    (b : Bootstrap) (p : Poll) (v : Str) (ps : List Poll)
    → Desires v p
    → is_bad (reconcile b p).st v ≡ true
    → All (Desires v) ps
    → reconcile_all (reconcile b p) ps ≡ reconcile b p
unfolding reconcile
reconcile_all-bad b p v ps w h a =
    let last : (polled b p p.desired).last_desired ≡ v =
      ap (λ o. (polled b p o).last_desired) w.1 ∙ polled-last b p w.0 ∙ w.2 in
    bad-stays ps (polled b p p.desired) v h last a

contains-last : (xs : List Str) (v : Str) → contains (xs ++ v ∷ []) v ≡ true
unfolding contains
contains-last [] v = rw (bytes_eq_refl v) refl
contains-last (x ∷ xs) v = elim (Bool-cases (bytes_eq x v)) [
  | inl e ↦ rw e refl
  | inr e ↦ rw (e, contains-last xs v) refl
]

mark_bad-bad : (s : State) (v : Str) → is_bad (mark_bad s v) v ≡ true
unfolding mark_bad
mark_bad-bad s v = elim (Bool-cases (is_bad s v)) [
  | inl e ↦ rw e e
  | inr e ↦ rw e (contains-last s.bad v)
]

reset-floor : (s : State) (v l : Str) → (reset_bad_on_change s v l).floor_unix ≡ s.floor_unix
unfolding reset_bad_on_change
reset-floor s v l = elim (Bool-cases (is_empty l || bytes_eq v l || is_empty s.bad)) [
  | inl e ↦ rw e refl
  | inr e ↦ rw e refl
]

raise_root_keys-floor :
    (s : State) (v : ℤ) → (raise_root_keys_version s v).floor_unix ≡ s.floor_unix
unfolding raise_root_keys_version
raise_root_keys-floor s v = elim (Bool-cases (ltb_ℤ s.root_keys_version v)) [
  | inl e ↦ rw e refl
  | inr e ↦ rw e refl
]

install_and_swap-fails :
    (b : Bootstrap) (v : Str) (m : Manifest)
    → install b.st.floor_unix m ≡ true
    → bytes_eq m.version v ≡ true
    → is_bad (install_and_swap b v m unhealthy).st v ≡ true
unfolding install_and_swap swap_worker
install_and_swap-fails b v m i e =
    rw (i, e)
      (subst (λ x. is_bad (mark_bad b.st x) v ≡ true) (sym ((bytes_eq_iff m.version v).0 e))
        (mark_bad-bad b.st v))

establish_trust-fails :
    (b : Bootstrap) (v : Str) (m : Manifest) (keys : RootKeys)
    → ¬ (keys ≡ refused)
    → install b.st.floor_unix m ≡ true
    → bytes_eq m.version v ≡ true
    → is_bad (establish_trust b v m unhealthy keys).st v ≡ true
unfolding establish_trust
establish_trust-fails b v m single_key t i e = install_and_swap-fails b v m i e
establish_trust-fails b v m refused t i e = absurd (t refl)
establish_trust-fails b v m (accepted k) t i e =
    install_and_swap-fails (record b { st = raise_root_keys_version b.st k }) v m
      (ap (λ z. install z m) (raise_root_keys-floor b.st k) ∙ i) e

decide-fails :
    (b : Bootstrap) (d : Desired) (p : Poll) (m : Manifest)
    → d.manifest ≡ some m
    → bytes_eq d.version b.current ≡ false
    → ¬ (p.root_keys ≡ refused)
    → p.gate ≡ unhealthy
    → install b.st.floor_unix m ≡ true
    → bytes_eq m.version d.version ≡ true
    → is_bad (decide b d p).st d.version ≡ true
unfolding decide update_to
decide-fails b d p m offered other t gate i e = elim (Bool-cases (is_bad b.st d.version)) [
  | inl k ↦ rw (other, k) k
  | inr k ↦ rw (other, k, offered, gate) (establish_trust-fails b d.version m p.root_keys t i e)
]

-- A round that installs the version that the controller desires, one that is not running, with a
-- manifest that passes the installer's checks and the floor, and root keys that are not refused, and
-- whose gate finds the new worker unhealthy, marks the version as bad; and no later round changes
-- anything, whatever it offers, for as long as the controller desires that version: the broken build
-- is not tried again.
pub reconcile_all-fails :
    (b : Bootstrap) (p : Poll) (d : Desired) (m : Manifest) (ps : List Poll)
    → p.desired ≡ some d
    → d.manifest ≡ some m
    → bytes_eq d.version b.current ≡ false
    → ¬ (p.root_keys ≡ refused)
    → install b.st.floor_unix m ≡ true
    → bytes_eq m.version d.version ≡ true
    → p.gate ≡ unhealthy
    → All (Desires d.version) ps
    → (is_bad (reconcile b p).st d.version ≡ true)
      × (reconcile_all (reconcile b p) ps ≡ reconcile b p)
unfolding reconcile polled observe
reconcile_all-fails b p d m ps wants offered other t i e gate later =
    let bad : is_bad (reconcile b p).st d.version ≡ true =
      ap (λ o. is_bad (polled b p o).st d.version) wants
      ∙ decide-fails (observe b d) d p m offered other t gate
          (ap (λ z. install z m) (reset-floor b.st d.version b.last_desired) ∙ i) e in
    (bad, reconcile_all-bad b p d.version ps (d, wants, refl) bad later)
