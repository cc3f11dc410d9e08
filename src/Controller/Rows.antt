-- ===== src/Controller/Rows.antt =====
-- internal/controller/store.go: the rows of a bucket of each workspace, of sessions or of nodes.
-- A row holds its workspace and its id, which are its key; the order of a bucket is the list's.
use geneza.Base.{
  false, sym, subst, Bool-cases, inl, Distinct, ◌≡◌, refl, ap, Bool, true, ◌&&◌, Option, none, some,
  List, [], ◌∷◌, map, ◌↔◌, inr, In, arith, Str, bytes_eq, bytes_eq_iff, bytes_eq_refl,
  if◌then◌else◌,
}

abbrev pub Key : Type 0
Key = Str × Str

unfoldable pub key_eq : Key → Key → Bool
key_eq (ws, id) (vs, jd) = bytes_eq ws vs && bytes_eq id jd

pub key_eq_refl : (k : Key) → key_eq k k ≡ true
unfolding key_eq
key_eq_refl (ws, id) = ground (arith, bytes_eq_refl ws, bytes_eq_refl id)

pub key_eq_iff : (k j : Key) → (key_eq k j ≡ true) ↔ (k ≡ j)
unfolding key_eq
key_eq_iff (ws, id) (vs, jd) = (
  λ h. (λ i.
      ((bytes_eq_iff ws vs).0 (ground (arith, h)) i, (bytes_eq_iff id jd).0 (ground (arith, h)) i)),
  λ e. ground (arith, bytes_eq_iff ws vs, bytes_eq_iff id jd, ap (λ k. k.0) e, ap (λ k. k.1) e),
)

pub key_ne : (k j : Key) → key_eq k j ≡ false → ¬ (k ≡ j)
key_ne k j h e = cc (h, (key_eq_iff k j).1 e)

module _ {V : Type 0} where
  -- getJSONB
  unfoldable pub get_row : (V → Key) → List V → Key → Option V
  get_row key [] k = none
  get_row key (v ∷ vs) k = if key_eq (key v) k then some v else get_row key vs k

  -- A read, a change and a write in one transaction; without the row it is an error that writes
  -- nothing.
  unfoldable pub update_row : (V → Key) → List V → Key → (V → V) → List V
  update_row key [] k f = []
  update_row key (v ∷ vs) k f =
      let rest = update_row key vs k f in if key_eq (key v) k then f v ∷ vs else v ∷ rest

abbrev pub map_option : {V W : Type 0} → (V → W) → Option V → Option W
map_option f none = none
map_option f (some v) = some (f v)

pub In-map : {V W : Type 0} (f : V → W) (vs : List V) (v : V) → In v vs → In (f v) (map f vs)
In-map f [] v m = absurd m
In-map f (u ∷ vs) v (inl e) = inl (ap f e)
In-map f (u ∷ vs) v (inr m) = inr (In-map f vs v m)

module _ {V : Type 0} (key : V → Key) where
  pub get-update :
      (vs : List V) (k : Key) (f : V → V) (same : (v : V) → key (f v) ≡ key v) (j : Key)
      → get_row key (update_row key vs k f) j
        ≡ (if key_eq k j then map_option f (get_row key vs j) else get_row key vs j)
  unfolding get_row update_row
  get-update [] k f same j = ground arith
  get-update (v ∷ vs) k f same j = ground (
    arith,
    get-update vs k f same j,
    same v,
    key_eq_iff (key v) k,
    key_eq_iff (key v) j,
    key_eq_iff k j,
  )

  pub get-none : (vs : List V) (k : Key) → get_row key vs k ≡ none → ¬ In k (map key vs)
  unfolding get_row
  get-none [] k h = λ m. m
  get-none (v ∷ vs) k h = ground (arith, get-none vs k, key_eq_iff (key v) k)

  pub get-key : (vs : List V) (k : Key) (v : V) → get_row key vs k ≡ some v → key v ≡ k
  unfolding get_row
  get-key [] k v h = ground arith
  get-key (u ∷ vs) k v h = ground (arith, get-key vs k v, key_eq_iff (key u) k)

  -- A row that is read is in the bucket, and a bucket without the key has no such row.
  pub get-In : (vs : List V) (k : Key) (v : V) → get_row key vs k ≡ some v → In v vs
  unfolding get_row
  get-In [] k v h = ground arith
  get-In (u ∷ vs) k v h = ground (arith, get-In vs k v)

  pub get-absent : (vs : List V) (k : Key) → ¬ In k (map key vs) → get_row key vs k ≡ none
  unfolding get_row
  get-absent [] k n = refl
  get-absent (v ∷ vs) k n = ground (arith, get-absent vs k (λ m. n (inr m)), key_eq_iff (key v) k)

  pub get-Distinct :
      (vs : List V) (v : V) → Distinct (map key vs) → In v vs → get_row key vs (key v) ≡ some v
  unfolding get_row
  get-Distinct [] v d m = absurd m
  get-Distinct (u ∷ vs) v d (inl e) = rw (e, key_eq_refl (key u)) refl
  get-Distinct (u ∷ vs) v d (inr m) = elim (Bool-cases (key_eq (key u) (key v))) [
    | inl h ↦
        absurd
          (d.0 (subst (λ k. In k (map key vs)) (sym ((key_eq_iff _ _).0 h)) (In-map key vs v m)))
    | inr h ↦ rw h (get-Distinct vs v d.1 m)
  ]

  -- Two changes of one row are one, no change is none, and the keys stay.
  pub update-update :
      (vs : List V) (k : Key) (f g : V → V)
      → ((v : V) → key (f v) ≡ key v)
      → update_row key (update_row key vs k f) k g ≡ update_row key vs k (λ v. g (f v))
  unfolding update_row
  update-update [] k f g same = refl
  update-update (v ∷ vs) k f g same = ground (arith, update-update vs k f g same, same v)

  pub update_id : (vs : List V) (k : Key) → update_row key vs k (λ v. v) ≡ vs
  unfolding update_row
  update_id [] k = refl
  update_id (v ∷ vs) k = ground (arith, update_id vs k)

  pub update-keys :
      (vs : List V) (k : Key) (f : V → V)
      → ((v : V) → key (f v) ≡ key v)
      → map key (update_row key vs k f) ≡ map key vs
  unfolding update_row
  update-keys [] k f same = refl
  update-keys (v ∷ vs) k f same = ground (arith, update-keys vs k f same, same v)
