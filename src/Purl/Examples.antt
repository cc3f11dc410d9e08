-- ===== src/Purl/Examples.antt =====
-- The package URL of a Debian package with a codename and a source package.
use geneza.Base.{◌≡◌, some, map, bytes, lower, arith}
use geneza.Purl.Distro.{ecosystem}
use geneza.Purl.{parse, qualifier, source_qualifier}
use geneza.Purl.Parsing.{IsSegment, parse-path}

deb-IsSegment : IsSegment (bytes "deb")
deb-IsSegment = ground arith

debian-IsSegment : IsSegment (bytes "debian")
debian-IsSegment = ground arith

curl-IsSegment : IsSegment (bytes "curl")
curl-IsSegment = ground arith

version-IsSegment : IsSegment (bytes "8.4")
version-IsSegment = ground arith

parse-path_curl : parse (bytes "pkg:deb/debian/curl@8.4?distro=bookworm&source=curl@8/x") ≡ (
    let q = bytes "distro=bookworm&source=curl@8/x" in
    let (eco, distro) =
      ecosystem (map lower (bytes "deb")) (bytes "debian") (qualifier q (bytes "distro")) in
    some (record {
      typ = map lower (bytes "deb");
      namespace = bytes "debian";
      name = bytes "curl";
      version = bytes "8.4";
      ecosystem = eco;
      distro = distro;
      source_name = source_qualifier q;
    }))
parse-path_curl =
    parse-path (bytes "deb") (bytes "debian") (bytes "curl") (bytes "8.4")
      (bytes "distro=bookworm&source=curl@8/x") deb-IsSegment debian-IsSegment curl-IsSegment
      version-IsSegment
