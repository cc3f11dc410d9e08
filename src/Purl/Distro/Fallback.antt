-- ===== src/Purl/Distro/Fallback.antt =====
-- That a distro qualifier never costs a package its ecosystem.
use geneza.Base.{
  ℕ, ◌≡◌, refl, ap, Bool, true, false, not, ◌&&◌, ◌||◌, Bool-cases, inl, inr, Option, none, some,
  [], ◌∷◌, ◌++◌, map, if◌then◌else◌, Str, bytes, bytes_eq, lower, arith,
}
use geneza.Purl.Distro.{
  is_empty, cut, distro_osv_family, is_known, distro_vendor_alias, release_from_codename,
  by_namespace, by_release, by_word, by_qualifier, distro_vendor_release, named, os_ecosystem,
  lang_ecosystem, ecosystem, get_str, codename_of, debian_codenames, ubuntu_codenames,
}

-- A vendor with an OSV family.
IsVendor : Str × Str → Type 0
IsVendor p = is_known p.0 ≡ true

cons-nonempty : (b : ℕ) (v : Str) → is_empty (b ∷ v) ≡ false
cons-nonempty b v = ground arith

known-nonempty : (v : Str) → is_known v ≡ true → is_empty v ≡ false
unfolding is_known distro_osv_family get_str bytes_eq
known-nonempty [] h = cc h
known-nonempty (b ∷ v) h = cons-nonempty b v

debian-known : is_known (bytes "debian") ≡ true
unfolding is_known distro_osv_family get_str bytes_eq
debian-known = refl

ubuntu-known : is_known (bytes "ubuntu") ≡ true
unfolding is_known distro_osv_family get_str bytes_eq
ubuntu-known = refl

alpine-known : is_known (bytes "alpine") ≡ true
unfolding is_known distro_osv_family get_str bytes_eq
alpine-known = refl

-- A test between two vendors.
if-IsVendor :
    (b : Bool) (p q : Str × Str)
    → (b ≡ true → IsVendor p)
    → (b ≡ false → IsVendor q)
    → IsVendor (if b then p else q)
if-IsVendor true p q h k = h refl
if-IsVendor false p q h k = k refl

not-and : (a b : Bool) → (not a && b) ≡ true → a ≡ false
not-and true b h = cc h
not-and false b h = refl

and-right : (a b : Bool) → (a && b) ≡ true → b ≡ true
and-right true b h = h
and-right false b h = cc h

codename_of-known :
    (r r' : Str) → is_empty (codename_of r r').0 ≡ false → is_known (codename_of r r').1 ≡ true
unfolding codename_of
codename_of-known (b ∷ r) r' h = debian-known
codename_of-known [] (b ∷ r) h = ubuntu-known
codename_of-known [] [] h = cc h

by_release-IsVendor :
    (typ ns d : Str) → IsVendor (by_namespace typ ns) → IsVendor (by_release typ ns d)
unfolding by_release IsVendor
by_release-IsVendor typ ns d h =
    if-IsVendor (not (is_empty ns) && is_known ns) (ns, d) _
      (and-right (not (is_empty ns)) (is_known ns))
      (λ _.
        if-IsVendor (bytes_eq typ (bytes "apk")) (bytes "alpine", d) (by_namespace typ ns)
          (λ _. alpine-known) (λ _. h))

by_word-IsVendor : (typ ns d : Str) → IsVendor (by_namespace typ ns) → IsVendor (by_word typ ns d)
unfolding by_word IsVendor release_from_codename
by_word-IsVendor typ ns d h =
    let c = codename_of (debian_codenames d) (ubuntu_codenames d) in
    if-IsVendor (is_known (distro_vendor_alias d)) (distro_vendor_alias d, []) _ (λ e. e)
      (λ _.
        if-IsVendor (not (is_empty c.0) && (is_empty ns || bytes_eq ns c.1)) (c.1, c.0)
          (by_release typ ns d)
          (λ e.
            codename_of-known (debian_codenames d) (ubuntu_codenames d)
              (not-and (is_empty c.0) (is_empty ns || bytes_eq ns c.1) e))
          (λ _. by_release-IsVendor typ ns d h))

by_qualifier-IsVendor :
    (typ ns d : Str) (o : Option (Str × Str))
    → IsVendor (by_namespace typ ns)
    → IsVendor (by_qualifier typ ns d o)
unfolding by_qualifier IsVendor
by_qualifier-IsVendor typ ns d none h = by_word-IsVendor typ ns d h
by_qualifier-IsVendor typ ns d (some (vendor, release)) h =
    if-IsVendor (is_known (distro_vendor_alias vendor)) (distro_vendor_alias vendor, release)
      (by_word typ ns d) (λ e. e) (λ _. by_word-IsVendor typ ns d h)

distro_vendor_release-IsVendor :
    (typ namespace distro : Str)
    → IsVendor (distro_vendor_release typ namespace [])
    → IsVendor (distro_vendor_release typ namespace distro)
unfolding distro_vendor_release
distro_vendor_release-IsVendor typ namespace distro h =
    let ns = distro_vendor_alias (map lower namespace) in
    let d = map lower distro in
    if-IsVendor (not (is_empty distro)) (by_qualifier typ ns d (cut b'-' d)) (by_namespace typ ns)
      (λ _. by_qualifier-IsVendor typ ns d (cut b'-' d) h) (λ _. h)

append-nonempty : (s t : Str) → is_empty s ≡ false → is_empty (s ++ t) ≡ false
append-nonempty [] t h = cc h
append-nonempty (b ∷ s) t h = cons-nonempty b (s ++ t)

not-true : (b : Bool) → not b ≡ true → b ≡ false
not-true true h = cc h
not-true false h = refl

not-false : (b : Bool) → not b ≡ false → b ≡ true
not-false true h = refl
not-false false h = cc h

IsVendor-named : (v r : Str) → is_known v ≡ true → is_empty (named (v, r)).0 ≡ false
unfolding named is_known
IsVendor-named v r h =
    let family = not-true (is_empty (distro_osv_family v)) h in
    elim (Bool-cases (is_empty r)) [
      | inl e ↦ rw (known-nonempty v h, family, e) family
      | inr e ↦
          rw (known-nonempty v h, family, e)
            (append-nonempty (distro_osv_family v) (b':' ∷ r) family)
    ]

named-unknown : (v r : Str) → is_known v ≡ false → (named (v, r)).0 ≡ []
unfolding named is_known
named-unknown v r h =
    let family = not-false (is_empty (distro_osv_family v)) h in
    elim (Bool-cases (is_empty v)) [ inl e ↦ rw e refl | inr e ↦ rw (e, family) refl ]

named-IsVendor : (p : Str × Str) → is_empty (named p).0 ≡ false → IsVendor p
unfolding IsVendor
named-IsVendor (v, r) h = elim (Bool-cases (is_known v)) [
  | inl e ↦ e
  | inr e ↦ absurd (cc (ap is_empty (named-unknown v r e), h))
]

os_ecosystem-distro :
    (typ namespace distro : Str)
    → is_empty (os_ecosystem typ namespace []).0 ≡ false
    → is_empty (os_ecosystem typ namespace distro).0 ≡ false
unfolding os_ecosystem IsVendor
os_ecosystem-distro typ namespace distro h =
    let p = distro_vendor_release typ namespace distro in
    IsVendor-named p.0 p.1 (
      distro_vendor_release-IsVendor typ namespace distro
        (named-IsVendor (distro_vendor_release typ namespace []) h))

-- A test that both have in common.
on_both :
    (b : Bool) (p p' q : Str × Str)
    → (is_empty p.0 ≡ false → is_empty p'.0 ≡ false)
    → is_empty (if b then p else q).0 ≡ false
    → is_empty (if b then p' else q).0 ≡ false
on_both true p p' q f h = f h
on_both false p p' q f h = h

-- A package whose type and namespace alone give an ecosystem has one whatever distro qualifier comes
-- with them: more information never costs a component its ecosystem.
pub ecosystem-distro :
    (typ namespace distro : Str)
    → is_empty (ecosystem typ namespace []).0 ≡ false
    → is_empty (ecosystem typ namespace distro).0 ≡ false
unfolding ecosystem
ecosystem-distro typ namespace distro h =
    on_both (bytes_eq typ (bytes "deb") || bytes_eq typ (bytes "rpm") || bytes_eq typ (bytes "apk"))
      (os_ecosystem typ namespace []) (os_ecosystem typ namespace distro) (lang_ecosystem typ, [])
      (os_ecosystem-distro typ namespace distro) h
