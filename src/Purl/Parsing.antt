-- ===== src/Purl/Parsing.antt =====
-- That Parse takes a package URL apart into what it was put together from.
use geneza.Base.{
  ℕ, ◌≡◌, refl, ap, true, false, none, some, [], ◌∷◌, ◌++◌, map, ◌==◌, Str, bytes, lower,
  cut_prefix, All, arith,
}
use geneza.Purl.Distro.{cut, ecosystem}
use geneza.Purl.{
  cut_here, last_cut, push_byte, path_unescape, or_as_is, unescape, qualifier, source_qualifier,
  up_to, path_parts, finished, with_type, parsed, parse,
}

-- A text without a separator.
abbrev pub Free : ℕ → Str → Type 0
Free sep s = All (λ b. (b == sep) ≡ false) s

-- A text without any byte that has a meaning in a package URL.
abbrev pub IsSegment : Str → Type 0
IsSegment s = Free b'%' s × Free b'/' s × Free b'@' s × Free b'?' s × Free b'#' s

same : (b : ℕ) → (b == b) ≡ true
same b = ground arith

Free-append :
    (sep b : ℕ) (s t : Str) → Free sep s → (b == sep) ≡ false → Free sep t → Free sep (s ++ b ∷ t)
Free-append sep b [] t h e k = (e, k)
Free-append sep b (c ∷ s) t h e k = (h.0, Free-append sep b s t h.1 e k)

cut-first : (sep : ℕ) (s t : Str) → Free sep s → cut sep (s ++ sep ∷ t) ≡ some (s, t)
unfolding cut
cut-first sep [] t h = rw (same sep) refl
cut-first sep (b ∷ s) t h = rw (h.0, cut-first sep s t h.1) refl

cut-none : (sep : ℕ) (s : Str) → Free sep s → cut sep s ≡ none
unfolding cut
cut-none sep [] h = refl
cut-none sep (b ∷ s) h = rw (h.0, cut-none sep s h.1) refl

last_cut-none : (sep : ℕ) (s : Str) → Free sep s → last_cut sep s ≡ none
unfolding last_cut cut_here
last_cut-none sep [] h = refl
last_cut-none sep (b ∷ s) h = rw (last_cut-none sep s h.1, h.0) refl

last_cut-last : (sep : ℕ) (s t : Str) → Free sep t → last_cut sep (s ++ sep ∷ t) ≡ some (s, t)
unfolding last_cut cut_here
last_cut-last sep [] t h = rw (last_cut-none sep t h, same sep) refl
last_cut-last sep (b ∷ s) t h = rw (last_cut-last sep s t h) refl

path_unescape-plain : (s : Str) → Free b'%' s → path_unescape s ≡ some s
unfolding path_unescape push_byte
path_unescape-plain [] h = refl
path_unescape-plain (b ∷ []) h = rw (h.0) refl
path_unescape-plain (b ∷ c ∷ []) h = rw (h.0, path_unescape-plain (c ∷ []) h.1) refl
path_unescape-plain (b ∷ c ∷ d ∷ s) h = rw (h.0, path_unescape-plain (c ∷ d ∷ s) h.1) refl

unescape-plain : (s : Str) → Free b'%' s → unescape s ≡ s
unfolding unescape or_as_is
unescape-plain s h = ap (or_as_is s) (path_unescape-plain s h)

-- The text of a package URL up to its qualifiers.
abbrev pub path_of : Str → Str → Str → Str
path_of namespace name version = (namespace ++ b'/' ∷ name) ++ b'@' ∷ version

finished-path :
    (typ ns name version q : Str)
    → IsSegment ns
    → IsSegment name
    → IsSegment version
    → finished typ (path_of ns name version) q ≡ record {
      typ = typ;
      namespace = ns;
      name = name;
      version = version;
      ecosystem = (ecosystem typ ns (qualifier q (bytes "distro"))).0;
      distro = (ecosystem typ ns (qualifier q (bytes "distro"))).1;
      source_name = source_qualifier q;
    }
unfolding finished up_to path_parts
finished-path typ ns name version q a b c =
    rw
      (
        last_cut-last b'@' (ns ++ b'/' ∷ name) version c.2,
        last_cut-last b'/' ns name b.1,
        unescape-plain ns a.0,
        unescape-plain name b.0,
        unescape-plain version c.0,
      )
      refl

path-Free :
    (sep : ℕ) (ns name version : Str)
    → (b'/' == sep) ≡ false
    → (b'@' == sep) ≡ false
    → Free sep ns
    → Free sep name
    → Free sep version
    → Free sep (path_of ns name version)
path-Free sep ns name version slash at a b c =
    Free-append sep b'@' (ns ++ b'/' ∷ name) version (Free-append sep b'/' ns name a slash b) at c

-- A package URL of a type, a namespace, a name and a version that need no escapes parses into them, with
-- any qualifiers behind it: the type in lower case, the ecosystem of these and the distro qualifier,
-- and the source package of the qualifiers. No `@`, `/` or `#` in a qualifier is taken for a
-- separator of the path.
pub parse-path :
    (typ ns name version q : Str)
    → IsSegment typ
    → IsSegment ns
    → IsSegment name
    → IsSegment version
    → parse (bytes "pkg:" ++ (typ ++ b'/' ∷ path_of ns name version) ++ b'?' ∷ q) ≡ (
        let (eco, distro) = ecosystem (map lower typ) ns (qualifier q (bytes "distro")) in
        some (record {
          typ = map lower typ;
          namespace = ns;
          name = name;
          version = version;
          ecosystem = eco;
          distro = distro;
          source_name = source_qualifier q;
        }))
unfolding parse parsed cut_prefix up_to with_type
parse-path typ ns name version q t a b c =
    let path = path_of ns name version in
    let before = typ ++ b'/' ∷ path in
    let no_question : Free b'?' before =
      Free-append b'?' b'/' typ path t.3 refl
        (path-Free b'?' ns name version refl refl a.3 b.3 c.3) in
    let no_hash : Free b'#' before =
      Free-append b'#' b'/' typ path t.4 refl
        (path-Free b'#' ns name version refl refl a.4 b.4 c.4) in
    rw
      (
        cut-first b'?' before q no_question,
        cut-none b'#' before no_hash,
        cut-first b'/' typ path t.1,
      )
      (ap some (finished-path (map lower typ) ns name version q a b c))
