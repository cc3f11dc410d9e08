-- ===== src/Update/Reconcile/Commit.antt =====
-- What one round of the update loop may do.
use geneza.Base.{
  ◌≡◌, refl, sym, ◌≢◌, subst, true, ◌||◌, Option, none, some, List, [], ◌∷◌, ◌⊎◌, inl, inr,
  Bool-cases, arith, Str, bytes_eq, bytes_eq_iff, All,
}
use geneza.Base.Int.{ℤ, pos, ltb_ℤ, ◌≤ℤ◌}
use geneza.Update.Reconcile.{
  State, raise_floor, raise_root_keys_version, is_bad, mark_bad, reset_bad_on_change, is_empty,
  Manifest, Desired, RootKeys, single_key, refused, accepted, Gate, healthy, unhealthy, interrupted,
  Poll, Bootstrap, install, swap_worker, install_and_swap, establish_trust, update_to, decide,
  observe, polled, reconcile, reconcile_all,
}

-- A commit of a version, from a state whose bad list is up to date.
pub record Commits (floor : ℤ) (d : Desired) (p : Poll) (b' : Bootstrap) : Type 0 where
  pub manifest : Manifest
  pub offered : d.manifest ≡ some manifest
  pub version : manifest.version ≡ d.version
  pub installs : manifest.installs ≡ true
  pub no_rollback : (floor ≤ℤ pos 0) ⊎ (floor ≤ℤ manifest.created_unix)
  pub gate : p.gate ≡ healthy
  pub runs : b'.worker ≡ d.version
  pub current : b'.current ≡ d.version
  pub raised : manifest.created_unix ≤ℤ b'.st.floor_unix

-- What holds of a round: neither mark goes back; the worker that runs is the current one, if it was
-- and the gate was not interrupted; and the current version stays, or it is a commit.
record Round (b b' : Bootstrap) (d : Desired) (p : Poll) : Type 0 where
  floor : b.st.floor_unix ≤ℤ b'.st.floor_unix
  root : b.st.root_keys_version ≤ℤ b'.st.root_keys_version
  worker : p.gate ≢ interrupted → b.worker ≡ b.current → b'.worker ≡ b'.current
  step : (b'.current ≡ b.current) ⊎ Commits b.st.floor_unix d p b'

le_refl : (a : ℤ) → a ≤ℤ a
le_refl a = omega arith

idle : (b : Bootstrap) (d : Desired) (p : Poll) → Round b b d p
idle b d p = record {
  floor = le_refl b.st.floor_unix;
  root = le_refl b.st.root_keys_version;
  worker = λ _ e. e;
  step = inl refl;
}

raise_floor-le :
    (s : State) (c : ℤ)
    → (s.floor_unix ≤ℤ (raise_floor s c).floor_unix)
      × (c ≤ℤ (raise_floor s c).floor_unix)
      × (s.root_keys_version ≤ℤ (raise_floor s c).root_keys_version)
unfolding raise_floor
raise_floor-le s c = elim (Bool-cases (ltb_ℤ s.floor_unix c)) [
  | inl b ↦ rw b (ground arith, le_refl c, le_refl s.root_keys_version)
  | inr b ↦ rw b (le_refl s.floor_unix, ground arith, le_refl s.root_keys_version)
]

raise_root-le :
    (s : State) (v : ℤ)
    → ((raise_root_keys_version s v).floor_unix ≡ s.floor_unix)
      × (s.root_keys_version ≤ℤ (raise_root_keys_version s v).root_keys_version)
unfolding raise_root_keys_version
raise_root-le s v = elim (Bool-cases (ltb_ℤ s.root_keys_version v)) [
  | inl b ↦ rw b (refl, ground arith)
  | inr b ↦ rw b (refl, le_refl s.root_keys_version)
]

mark_bad-same :
    (s : State) (v : Str)
    → ((mark_bad s v).floor_unix ≡ s.floor_unix)
      × ((mark_bad s v).root_keys_version ≡ s.root_keys_version)
unfolding mark_bad
mark_bad-same s v = elim (Bool-cases (is_bad s v)) [
  | inl b ↦ rw b (refl, refl)
  | inr b ↦ rw b (refl, refl)
]

reset-same :
    (s : State) (d l : Str)
    → ((reset_bad_on_change s d l).floor_unix ≡ s.floor_unix)
      × ((reset_bad_on_change s d l).root_keys_version ≡ s.root_keys_version)
unfolding reset_bad_on_change
reset-same s d l = elim (Bool-cases (is_empty l || bytes_eq d l || is_empty s.bad)) [
  | inl b ↦ rw b (refl, refl)
  | inr b ↦ rw b (refl, refl)
]

le_eq : (a b : ℤ) → b ≡ a → a ≤ℤ b
le_eq a b e = subst (λ x. a ≤ℤ x) (sym e) (le_refl a)

swap_worker-Round :
    (b : Bootstrap) (d : Desired) (p : Poll) (m : Manifest) (gate : Gate)
    → p.gate ≡ gate
    → d.manifest ≡ some m
    → m.version ≡ d.version
    → m.installs ≡ true
    → (b.st.floor_unix ≤ℤ pos 0) ⊎ (b.st.floor_unix ≤ℤ m.created_unix)
    → Round b (swap_worker b m.version m.created_unix gate) d p
unfolding swap_worker
swap_worker-Round b d p m healthy g o v i n =
    let raised =
      raise_floor-le (record b.st { previous = b.current; current = m.version; bad = [] })
        m.created_unix in
    record {
      floor = raised.0;
      root = raised.2;
      worker = λ _ _. refl;
      step = inr (record {
        manifest = m;
        offered = o;
        version = v;
        installs = i;
        no_rollback = n;
        gate = g;
        runs = v;
        current = v;
        raised = raised.1;
      });
    }
swap_worker-Round b d p m unhealthy g o v i n =
    let same = mark_bad-same b.st m.version in
    record {
      floor = le_eq b.st.floor_unix _ same.0;
      root = le_eq b.st.root_keys_version _ same.1;
      worker = λ _ _. refl;
      step = inl refl;
    }
swap_worker-Round b d p m interrupted g o v i n = record {
  floor = le_refl b.st.floor_unix;
  root = le_refl b.st.root_keys_version;
  worker = λ k _. absurd (k g);
  step = inl refl;
}

install_lem :
    (floor : ℤ) (m : Manifest)
    → install floor m ≡ true
    → (m.installs ≡ true) × ((floor ≤ℤ pos 0) ⊎ (floor ≤ℤ m.created_unix))
unfolding install
install_lem floor m h = (ground arith, ground arith)

install_and_swap-Round :
    (b : Bootstrap) (d : Desired) (p : Poll) (m : Manifest)
    → d.manifest ≡ some m
    → Round b (install_and_swap b d.version m p.gate) d p
unfolding install_and_swap
install_and_swap-Round b d p m o = elim (Bool-cases (install b.st.floor_unix m)) [
  | inr i ↦ rw i (idle b d p)
  | inl i ↦ rw i (elim (Bool-cases (bytes_eq m.version d.version)) [
    | inr v ↦ rw v (idle b d p)
    | inl v ↦
        let k = install_lem b.st.floor_unix m i in
        rw v
          (swap_worker-Round b d p m p.gate refl o ((bytes_eq_iff m.version d.version).0 v) k.0 k.1)
  ])
]

-- Rounds after a change of the state that keeps the floor and raises the version of the root keys.
Round-after :
    (b b' : Bootstrap) (s : State) (l : Str) (d : Desired) (p : Poll)
    → s.floor_unix ≡ b.st.floor_unix
    → b.st.root_keys_version ≤ℤ s.root_keys_version
    → Round (record b { st = s; last_desired = l }) b' d p
    → Round b b' d p
Round-after b b' s l d p f r k = record {
  floor = subst (λ x. x ≤ℤ b'.st.floor_unix) f k.floor;
  root = omega (arith, r, k.root);
  worker = k.worker;
  step = subst (λ x. (b'.current ≡ b.current) ⊎ Commits x d p b') f k.step;
}

establish_trust-Round :
    (b : Bootstrap) (d : Desired) (p : Poll) (m : Manifest) (root_keys : RootKeys)
    → d.manifest ≡ some m
    → Round b (establish_trust b d.version m p.gate root_keys) d p
unfolding establish_trust
establish_trust-Round b d p m single_key o = install_and_swap-Round b d p m o
establish_trust-Round b d p m refused o = idle b d p
establish_trust-Round b d p m (accepted v) o =
    let raised = raise_root-le b.st v in
    Round-after b _ (raise_root_keys_version b.st v) b.last_desired d p raised.0 raised.1
      (install_and_swap-Round (record b { st = raise_root_keys_version b.st v }) d p m o)

update_to-Round :
    (b : Bootstrap) (d : Desired) (p : Poll) (o : Option Manifest)
    → d.manifest ≡ o
    → Round b (update_to b d.version o p.gate p.root_keys) d p
unfolding update_to
update_to-Round b d p none e = idle b d p
update_to-Round b d p (some m) e = establish_trust-Round b d p m p.root_keys e

decide-Round : (b : Bootstrap) (d : Desired) (p : Poll) → Round b (decide b d p) d p
unfolding decide
decide-Round b d p = elim (Bool-cases (bytes_eq d.version b.current)) [
  | inl c ↦ rw c (idle b d p)
  | inr c ↦ rw c (elim (Bool-cases (is_bad b.st d.version)) [
    | inl k ↦ rw k (idle b d p)
    | inr k ↦ rw k (update_to-Round b d p d.manifest refl)
  ])
]

observed-Round : (b : Bootstrap) (d : Desired) (p : Poll) → Round b (polled b p (some d)) d p
unfolding polled observe
observed-Round b d p =
    let same = reset-same b.st d.version b.last_desired in
    Round-after b _ (reset_bad_on_change b.st d.version b.last_desired) d.version d p same.0
      (le_eq b.st.root_keys_version _ same.1) (decide-Round (observe b d) d p)

-- A round of the loop changes the current version only to the desired one, whose manifest installs,
-- is not older than the floor, if one was ever set, and passed the health gate as the worker that now runs; the floor is
-- then no lower than the manifest.
pub reconcile-Commits :
    (b : Bootstrap) (p : Poll) (d : Desired)
    → p.desired ≡ some d
    → ((reconcile b p).current ≡ b.current) ⊎ Commits b.st.floor_unix d p (reconcile b p)
unfolding reconcile
reconcile-Commits b p d e =
    subst (λ o. ((polled b p o).current ≡ b.current) ⊎ Commits b.st.floor_unix d p (polled b p o))
      (sym e) (observed-Round b d p).step

-- Between two states of a run.
pub record Advanced (b b' : Bootstrap) : Type 0 where
  pub floor : b.st.floor_unix ≤ℤ b'.st.floor_unix
  pub root : b.st.root_keys_version ≤ℤ b'.st.root_keys_version
  pub worker : b.worker ≡ b.current → b'.worker ≡ b'.current

polled-Advanced :
    (b : Bootstrap) (p : Poll) (o : Option Desired)
    → p.gate ≢ interrupted
    → Advanced b (polled b p o)
unfolding polled
polled-Advanced b p none g = record {
  floor = le_refl b.st.floor_unix;
  root = le_refl b.st.root_keys_version;
  worker = λ e. e;
}
polled-Advanced b p (some d) g =
    let r = observed-Round b d p in record { floor = r.floor; root = r.root; worker = r.worker g }

-- Whatever polls come, the rollback floor and the version of the root keys never go back; and if no
-- health gate is cut short by a shutdown, the worker that runs stays the current version.
pub reconcile_all-Advanced :
    (ps : List Poll) (b : Bootstrap)
    → All (λ p. p.gate ≢ interrupted) ps
    → Advanced b (reconcile_all b ps)
unfolding reconcile_all reconcile
reconcile_all-Advanced [] b g = record {
  floor = le_refl b.st.floor_unix;
  root = le_refl b.st.root_keys_version;
  worker = λ e. e;
}
reconcile_all-Advanced (p ∷ ps) b g =
    let one = polled-Advanced b p p.desired g.0 in
    let rest = reconcile_all-Advanced ps (reconcile b p) g.1 in
    record {
      floor = omega (arith, one.floor, rest.floor);
      root = omega (arith, one.root, rest.root);
      worker = λ e. rest.worker (one.worker e);
    }
