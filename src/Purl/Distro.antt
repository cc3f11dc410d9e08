-- ===== src/Purl/Distro.antt =====
-- internal/purl/purl.go: the ecosystem of a package, by its type, its namespace and the distro qualifier.
pub mod Fallback
mod Examples
use geneza.Base.{
  ℕ, Bool, true, false, not, ◌&&◌, ◌||◌, Option, none, some, List, [], ◌∷◌, ◌++◌, map, ◌==◌,
  if◌then◌else◌, length, Str, bytes, bytes_eq, lower,
}

abbrev pub is_empty : Str → Bool
is_empty s = length s == 0

-- strings.Cut(s, sep), none if the separator is not there.
pub push_cut : ℕ → Option (Str × Str) → Option (Str × Str)
push_cut b none = none
push_cut b (some (before, after)) = some (b ∷ before, after)

unfoldable pub cut : ℕ → Str → Option (Str × Str)
unfolding push_cut
cut sep [] = none
cut sep (b ∷ s) = let rest = cut sep s in if b == sep then some ([], s) else push_cut b rest

-- A map of strings, "" where a key is missing.
pub get_str : List (Str × Str) → Str → Str
get_str [] k = []
get_str ((j, v) ∷ m) k = if bytes_eq j k then v else get_str m k

pub debian_codenames : Str → Str
unfolding get_str
debian_codenames name =
    get_str
      ((bytes "jessie", bytes "8")
        ∷ (bytes "stretch", bytes "9")
        ∷ (bytes "buster", bytes "10")
        ∷ (bytes "bullseye", bytes "11")
        ∷ (bytes "bookworm", bytes "12")
        ∷ (bytes "trixie", bytes "13")
        ∷ (bytes "forky", bytes "14")
        ∷ [])
      name

pub ubuntu_codenames : Str → Str
unfolding get_str
ubuntu_codenames name =
    get_str
      ((bytes "xenial", bytes "16.04")
        ∷ (bytes "bionic", bytes "18.04")
        ∷ (bytes "focal", bytes "20.04")
        ∷ (bytes "jammy", bytes "22.04")
        ∷ (bytes "noble", bytes "24.04")
        ∷ (bytes "questing", bytes "25.10")
        ∷ [])
      name

pub distro_osv_family : Str → Str
unfolding get_str
distro_osv_family vendor =
    get_str
      ((bytes "ubuntu", bytes "Ubuntu")
        ∷ (bytes "debian", bytes "Debian")
        ∷ (bytes "redhat", bytes "Red Hat")
        ∷ (bytes "rocky", bytes "Rocky Linux")
        ∷ (bytes "alma", bytes "AlmaLinux")
        ∷ (bytes "fedora", bytes "Fedora")
        ∷ (bytes "alpine", bytes "Alpine")
        ∷ (bytes "suse", bytes "SUSE")
        ∷ (bytes "opensuse", bytes "openSUSE")
        ∷ [])
      vendor

pub is_known : Str → Bool
unfolding distro_osv_family
is_known vendor = not (is_empty (distro_osv_family vendor))

pub distro_vendor_alias : Str → Str
distro_vendor_alias v =
    if bytes_eq v (bytes "rhel") || bytes_eq v (bytes "redhat") || bytes_eq v (bytes "red-hat")
    then bytes "redhat"
    else if bytes_eq v (bytes "alpine") || bytes_eq v (bytes "alpinelinux")
    then bytes "alpine"
    else v

-- The release and the vendor, by what the two maps hold; no entry of theirs is empty.
pub codename_of : Str → Str → Str × Str
codename_of (b ∷ r) r' = (b ∷ r, bytes "debian")
codename_of [] (b ∷ r) = (b ∷ r, bytes "ubuntu")
codename_of [] [] = ([], [])

pub release_from_codename : Str → Str × Str
unfolding codename_of debian_codenames ubuntu_codenames
release_from_codename name = codename_of (debian_codenames name) (ubuntu_codenames name)

-- The vendor and the release that distroVendorRelease finds without a qualifier.
pub by_namespace : Str → Str → Str × Str
by_namespace typ ns =
    if not (is_empty ns)
    then (ns, [])
    else if bytes_eq typ (bytes "apk")
    then (bytes "alpine", [])
    else ([], [])

-- With a qualifier that names no vendor.
pub by_release : Str → Str → Str → Str × Str
unfolding by_namespace is_known
by_release typ ns d =
    if not (is_empty ns) && is_known ns
    then (ns, d)
    else if bytes_eq typ (bytes "apk")
    then (bytes "alpine", d)
    else by_namespace typ ns

-- With a qualifier that is no vendor and release: a vendor, a codename, or a release.
pub by_word : Str → Str → Str → Str × Str
unfolding by_release distro_vendor_alias release_from_codename
by_word typ ns d =
    let (r, v) = release_from_codename d in
    if is_known (distro_vendor_alias d)
    then (distro_vendor_alias d, [])
    else if not (is_empty r) && (is_empty ns || bytes_eq ns v)
    then (v, r)
    else by_release typ ns d

pub by_qualifier : Str → Str → Str → Option (Str × Str) → Str × Str
unfolding by_word
by_qualifier typ ns d none = by_word typ ns d
by_qualifier typ ns d (some (vendor, release)) =
    if is_known (distro_vendor_alias vendor)
    then (distro_vendor_alias vendor, release)
    else by_word typ ns d

pub distro_vendor_release : Str → Str → Str → Str × Str
unfolding by_qualifier cut
distro_vendor_release typ namespace distro =
    let ns = distro_vendor_alias (map lower namespace) in
    let d = map lower distro in
    if not (is_empty distro) then by_qualifier typ ns d (cut b'-' d) else by_namespace typ ns

-- The ecosystem, and the id of the distro.
pub named : Str × Str → Str × Str
unfolding distro_osv_family
named (vendor, release) =
    if is_empty vendor
    then ([], [])
    else if is_empty (distro_osv_family vendor)
    then ([], [])
    else if is_empty release
    then (distro_osv_family vendor, vendor)
    else (distro_osv_family vendor ++ b':' ∷ release, vendor ++ b':' ∷ release)

pub os_ecosystem : Str → Str → Str → Str × Str
unfolding distro_vendor_release named
os_ecosystem typ namespace distro = named (distro_vendor_release typ namespace distro)

pub lang_ecosystem : Str → Str
unfolding get_str
lang_ecosystem typ =
    get_str
      ((bytes "npm", bytes "npm")
        ∷ (bytes "pypi", bytes "PyPI")
        ∷ (bytes "golang", bytes "Go")
        ∷ (bytes "cargo", bytes "crates.io")
        ∷ (bytes "maven", bytes "Maven")
        ∷ (bytes "gem", bytes "RubyGems")
        ∷ (bytes "nuget", bytes "NuGet")
        ∷ (bytes "composer", bytes "Packagist")
        ∷ (bytes "hex", bytes "Hex")
        ∷ (bytes "pub", bytes "Pub")
        ∷ (bytes "conan", bytes "ConanCenter")
        ∷ [])
      typ

pub ecosystem : Str → Str → Str → Str × Str
unfolding os_ecosystem lang_ecosystem
ecosystem typ namespace distro =
    if bytes_eq typ (bytes "deb") || bytes_eq typ (bytes "rpm") || bytes_eq typ (bytes "apk")
    then os_ecosystem typ namespace distro
    else (lang_ecosystem typ, [])
