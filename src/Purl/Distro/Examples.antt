-- ===== src/Purl/Distro/Examples.antt =====
-- A Debian package whose distro is spelled by its codename.
use geneza.Base.{◌≡◌, refl, false, bytes, bytes_eq, lower}
use geneza.Purl.Distro.{
  is_empty, get_str, distro_osv_family, distro_vendor_alias, by_namespace, distro_vendor_release,
  named, os_ecosystem, ecosystem,
}
use geneza.Purl.Distro.Fallback.{ecosystem-distro}

ecosystem-distro_debian :
    is_empty (ecosystem (bytes "deb") (bytes "debian") (bytes "bookworm")).0 ≡ false
unfolding ecosystem os_ecosystem distro_vendor_release by_namespace distro_vendor_alias named
    distro_osv_family get_str bytes_eq lower
ecosystem-distro_debian = ecosystem-distro (bytes "deb") (bytes "debian") (bytes "bookworm") refl
