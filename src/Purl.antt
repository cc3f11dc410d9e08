-- ===== src/Purl.antt =====
-- internal/purl/purl.go: the parts of a package URL, and the ecosystem that they stand for.
pub mod Distro
pub mod Parsing
mod Examples
use geneza.Base.{
  ℕ, ◌+◌, ◌-◌, ◌*◌, Bool, true, false, not, ◌&&◌, Option, none, some, List, [], ◌∷◌, ◌++◌, map, leb,
  ◌==◌, if◌then◌else◌, length, Str, bytes, bytes_eq, lower, split_on, cut_prefix,
}
use geneza.Purl.Distro.{is_empty, cut, ecosystem}

pub record Parsed : Type 0 where
  pub typ : Str
  pub namespace : Str
  pub name : Str
  pub version : Str
  pub ecosystem : Str
  pub distro : Str
  pub source_name : Str

-- The text before the last separator and after it.
pub cut_here : ℕ → ℕ → Str → Option (Str × Str) → Option (Str × Str)
cut_here sep b s none = if b == sep then some ([], s) else none
cut_here sep b s (some (before, after)) = some (b ∷ before, after)

pub last_cut : ℕ → Str → Option (Str × Str)
unfolding cut_here
last_cut sep [] = none
last_cut sep (b ∷ s) = cut_here sep b s (last_cut sep s)

-- url.PathUnescape
hex_value : ℕ → Option ℕ
hex_value b =
    if leb b'0' b && leb b b'9'
    then some (b - 48)
    else if leb b'a' b && leb b b'f'
    then some (b - 87)
    else if leb b'A' b && leb b b'F'
    then some (b - 55)
    else none

pub push_byte : ℕ → Option Str → Option Str
push_byte b none = none
push_byte b (some s) = some (b ∷ s)

escaped : Option ℕ → Option ℕ → Option Str → Option Str
unfolding push_byte
escaped none l rest = none
escaped (some h) none rest = none
escaped (some h) (some l) rest = push_byte (h * 16 + l) rest

pub path_unescape : Str → Option Str
unfolding escaped push_byte hex_value
path_unescape [] = some []
path_unescape (b ∷ []) = if b == b'%' then none else some (b ∷ [])
path_unescape (b ∷ h ∷ []) =
    let rest = path_unescape (h ∷ []) in if b == b'%' then none else push_byte b rest
path_unescape (b ∷ h ∷ l ∷ s) =
    let rest = path_unescape (h ∷ l ∷ s) in
    let beyond = path_unescape s in
    if b == b'%' then escaped (hex_value h) (hex_value l) beyond else push_byte b rest

pub or_as_is : Str → Option Str → Str
or_as_is s none = s
or_as_is s (some u) = u

pub unescape : Str → Str
unfolding path_unescape or_as_is
unescape s = or_as_is s (path_unescape s)

-- The value of the first pair with the key.
pub value_of : Str → Option (Str × Str) → Str → Str
unfolding unescape
value_of key none others = others
value_of key (some (k, v)) others = if bytes_eq k key then unescape v else others

pub find_qualifier : Str → List Str → Str
unfolding value_of cut
find_qualifier key [] = []
find_qualifier key (kv ∷ kvs) = value_of key (cut b'=' kv) (find_qualifier key kvs)

pub qualifier : Str → Str → Str
unfolding find_qualifier split_on
qualifier qualifiers key =
    let (first, others) = split_on b'&' qualifiers in
    if is_empty qualifiers then [] else find_qualifier key (first ∷ others)

without_version : Str → Option (Str × Str) → Str
without_version v none = v
without_version v (some (before, after)) = if is_empty before then v else before

pub source_qualifier : Str → Str
unfolding qualifier without_version cut
source_qualifier qualifiers =
    let source = qualifier qualifiers (bytes "source") in
    let origin = qualifier qualifiers (bytes "origin") in
    let upstream = qualifier qualifiers (bytes "upstream") in
    if not (is_empty source)
    then without_version source (cut b'@' source)
    else if not (is_empty origin)
    then without_version origin (cut b'@' origin)
    else if not (is_empty upstream)
    then without_version upstream (cut b'@' upstream)
    else []

-- The text before a separator and after it, or all of it and nothing.
pub up_to : Str → Option (Str × Str) → Str × Str
up_to s none = (s, [])
up_to s (some p) = p

-- The namespace and the name of a path.
pub path_parts : Str → Option (Str × Str) → Str × Str
path_parts s none = ([], s)
path_parts s (some p) = p

pub finished : Str → Str → Str → Parsed
unfolding up_to path_parts unescape qualifier source_qualifier last_cut
finished typ path qualifiers =
    let (rest, version) = up_to path (last_cut b'@' path) in
    let (namespace, name) = path_parts rest (last_cut b'/' rest) in
    let (eco, distro) =
      ecosystem typ (unescape namespace) (qualifier qualifiers (bytes "distro")) in
    record {
      typ = typ;
      namespace = unescape namespace;
      name = unescape name;
      version = unescape version;
      ecosystem = eco;
      distro = distro;
      source_name = source_qualifier qualifiers;
    }

pub with_type : Str → Option (Str × Str) → Option Parsed
unfolding finished
with_type qualifiers none = none
with_type qualifiers (some (typ, path)) = some (finished (map lower typ) path qualifiers)

pub parsed : Option Str → Option Parsed
unfolding up_to with_type cut
parsed none = none
parsed (some s) =
    let (before, qualifiers) = up_to s (cut b'?' s) in
    let (rest, subpath) = up_to before (cut b'#' before) in with_type qualifiers (cut b'/' rest)

-- Parse, none for what is no package URL.
pub parse : Str → Option Parsed
unfolding parsed cut_prefix
parse s = parsed (cut_prefix s (bytes "pkg:"))
