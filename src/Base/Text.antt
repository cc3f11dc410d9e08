-- ===== src/Base/Text.antt =====
-- Go strings and byte slices: lists of bytes, with `==` decided byte by byte.
use Prim.Native.Nat.{ℕ, ◌+◌}
use Prim.Native.Char.{code}
use Prim.Native.String.{String}
use mathlib.Core.Path.{◌≡◌, refl, sym, ◌∙◌}
use mathlib.Core.Logic.{◌↔◌, ◌≢◌}
use mathlib.Core.Option.{Option, none, some}
use mathlib.Core.Bool.{Bool, true, false, ◌&&◌}
use mathlib.Core.List.{List, [], ◌∷◌, ◌++◌, map, map-append}
use native.Mathlib.Omega.{arith}
use geneza.Base.Tests.{◌==◌, leb, if◌then◌else◌}

abbrev pub Str : Type 0
Str = List ℕ

-- The bytes of a literal, which is ASCII wherever the development uses it.
abbrev pub bytes : String → Str
bytes String.[] = []
bytes (String.◌∷◌ c s) = code c ∷ bytes s

unfoldable pub bytes_eq : Str → Str → Bool
bytes_eq [] [] = true
bytes_eq [] (b ∷ t) = false
bytes_eq (a ∷ s) [] = false
bytes_eq (a ∷ s) (b ∷ t) = a == b && bytes_eq s t

bytes_eq_sound : (s t : Str) → bytes_eq s t ≡ true → s ≡ t
unfolding bytes_eq
bytes_eq_sound [] [] h = refl
bytes_eq_sound [] (b ∷ t) h = cc
bytes_eq_sound (a ∷ s) [] h = cc
bytes_eq_sound (a ∷ s) (b ∷ t) h = ground (arith, bytes_eq_sound s t)

pub bytes_eq_refl : (s : Str) → bytes_eq s s ≡ true
unfolding bytes_eq
bytes_eq_refl [] = refl
bytes_eq_refl (a ∷ s) = ground (arith, bytes_eq_refl s)

pub bytes_eq_iff : (s t : Str) → (bytes_eq s t ≡ true) ↔ (s ≡ t)
bytes_eq_iff s t = (bytes_eq_sound s t, λ e. rw e (bytes_eq_refl t))

pub bytes_ne : (s t : Str) → bytes_eq s t ≡ false → s ≢ t
bytes_ne s t h e = ground (arith, bytes_eq_iff s t)

-- strings.EqualFold, on text that is ASCII wherever the development uses it.
unfoldable pub lower : ℕ → ℕ
lower b = if leb b'A' b && leb b b'Z' then b + 32 else b

unfoldable pub equal_fold : Str → Str → Bool
unfolding lower
equal_fold s t = bytes_eq (map lower s) (map lower t)

pub equal_fold_refl : (s : Str) → equal_fold s s ≡ true
unfolding equal_fold
equal_fold_refl s = bytes_eq_refl (map lower s)

pub equal_fold-append :
    (s t u v : Str)
    → equal_fold s t ≡ true
    → equal_fold u v ≡ true
    → equal_fold (s ++ u) (t ++ v) ≡ true
unfolding equal_fold
equal_fold-append s t u v p q =
    let left = (bytes_eq_iff (map lower s) (map lower t)).0 p in
    let right = (bytes_eq_iff (map lower u) (map lower v)).0 q in
    (bytes_eq_iff (map lower (s ++ u)) (map lower (t ++ v))).1
      (map-append lower s u ∙ (λ i. left i ++ right i) ∙ sym (map-append lower t v))

-- strings.Split(s, sep) with a separator of one byte: the first part, and the others.
push_first : ℕ → Str × List Str → Str × List Str
push_first b (first, rest) = (b ∷ first, rest)

unfoldable pub split_on : ℕ → Str → Str × List Str
unfolding push_first
split_on sep [] = ([], [])
split_on sep (b ∷ s) =
    let r = split_on sep s in if b == sep then ([], r.0 ∷ r.1) else push_first b r

-- strings.CutPrefix
unfoldable pub cut_prefix : Str → Str → Option Str
cut_prefix s [] = some s
cut_prefix [] (p ∷ ps) = none
cut_prefix (b ∷ s) (p ∷ ps) = let rest = cut_prefix s ps in if b == p then rest else none
