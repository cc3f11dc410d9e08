-- ===== src/Controller/Audit/Query.antt =====
-- internal/controller/audit.go: QueryPage, the pages of the records that a filter matches.
use geneza.Base.{
  ℕ, zero, suc, ◌+◌, ◌-◌, ◌≤◌, ◌<◌, sym, ap, ◌∙◌, ◌≡◌, refl, Bool, true, false, not, ◌&&◌, Option,
  none, some, List, [], ◌∷◌, ◌++◌, ltb, ◌==◌, if◌then◌else◌, length, take, take_all, drop, Str,
  bytes_eq, equal_fold, arith,
}
use geneza.Base.Int.{ℤ, pos, ◌-ℤ◌, ltb_ℤ, leb_ℤ, pos_part}
use geneza.Controller.Audit.{AuditEvent, AuditError, Codec, scan_audit_file}

pub record AuditQuery : Type 0 where
  pub since_unix : ℤ
  pub until_unix : ℤ
  pub kind : Str
  pub workspace : Str
  pub actor : Str
  pub node : Str
  pub limit : ℤ
  pub offset : ℤ

pub record AuditPage : Type 0 where
  pub lines : List Str
  pub total : ℕ
  pub chain_ok : Bool

is_set : Str → Bool
is_set s = not (length s == 0)

pub wanted : AuditQuery → AuditEvent → Bool
unfolding is_set equal_fold
wanted q e =
    not (ltb_ℤ (pos 0) q.since_unix && ltb_ℤ e.ts q.since_unix)
    && not (ltb_ℤ (pos 0) q.until_unix && ltb_ℤ q.until_unix e.ts)
    && not (is_set q.kind && not (bytes_eq e.kind q.kind))
    && not (is_set q.workspace && not (bytes_eq e.workspace q.workspace))
    && not (is_set q.actor && not (equal_fold e.actor q.actor))
    && not (is_set q.node && not (bytes_eq e.node q.node))

pub matched : AuditQuery → List (Str × AuditEvent) → List Str
matched q [] = []
matched q ((l, e) ∷ seen) = let rest = matched q seen in if wanted q e then l ∷ rest else rest

-- xs[lo:hi], or a panic
pub slice : ℕ → ℕ → List Str → Option (List Str)
slice lo hi xs = if ltb (length xs) hi then none else some (take (hi - lo) (drop lo xs))

abbrev at_least_zero : ℤ → ℕ
at_least_zero = pos_part

default_limit : ℤ → ℤ
default_limit limit = if leb_ℤ limit (pos 0) then pos 100 else limit

-- `end`, and then `start`
page_end : ℕ → ℤ → ℕ
page_end total offset = at_least_zero (pos total -ℤ offset)

page_start : ℕ → ℤ → ℕ
unfolding default_limit
page_start hi limit = at_least_zero (pos hi -ℤ default_limit limit)

shown : List Str → Bool → Option (List Str) → Option AuditPage
shown xs ok none = none
shown xs ok (some lines) = some (record { lines = lines; total = length xs; chain_ok = ok })

-- The page, from the newest match backwards.
page : AuditQuery → List Str → Bool → Option AuditPage
unfolding shown
page q xs ok =
    let hi = page_end (length xs) q.offset in shown xs ok (slice (page_start hi q.limit) hi xs)

is_nil : Option AuditError → Bool
is_nil none = true
is_nil (some problem) = false

pub query_page : Codec → Str → Str → AuditQuery → Option AuditPage
unfolding page is_nil
query_page c key file q =
    let (s, o) = scan_audit_file c key file in page q (matched q s.seen) (is_nil o)

-- The positions from `lo` up to `hi`.
abbrev range_of : ℕ → ℕ → List Str → List Str
range_of lo hi xs = take (hi - lo) (drop lo xs)

abbrev page_of : List Str → Bool → ℕ → ℕ → AuditPage
page_of xs ok n l = record {
  lines = range_of (length xs - n - l) (length xs - n) xs;
  total = length xs;
  chain_ok = ok;
}

page_end-sub : (total n : ℕ) → page_end total (pos n) ≡ total - n
unfolding page_end ◌-ℤ◌
page_end-sub total n = ground arith

page_start-sub : (hi l : ℕ) → 0 < l → page_start hi (pos l) ≡ hi - l
unfolding page_start ◌-ℤ◌
page_start-sub hi l p = ground arith

slice-range :
    (lo n : ℕ) (xs : List Str) → slice lo (length xs - n) xs ≡ some (range_of lo (length xs - n) xs)
unfolding slice
slice-range lo n xs =
    let within : ltb (length xs) (length xs - n) ≡ false = ground arith in rw within refl

page-page_of :
    (q : AuditQuery) (xs : List Str) (ok : Bool) (n l : ℕ)
    → 0 < l
    → page (record q { offset = pos n; limit = pos l }) xs ok ≡ some (page_of xs ok n l)
unfolding page
page-page_of q xs ok n l p =
    let hi = page_end-sub (length xs) n in
    ap (shown xs ok) (
      (λ i. slice (page_start (hi i) (pos l)) (hi i) xs)
      ∙ ap (λ lo. slice lo (length xs - n) xs) (page_start-sub (length xs - n) l p)
      ∙ slice-range (length xs - n - l) n xs)

matched-page :
    (q : AuditQuery) (seen : List (Str × AuditEvent)) (n l : ℤ)
    → matched (record q { offset = n; limit = l }) seen ≡ matched q seen
unfolding matched wanted
matched-page q [] n l = refl
matched-page q ((line, e) ∷ seen) n l = rw (matched-page q seen n l) refl

take-nil : (n : ℕ) → ◌≡◌ {A = List Str} [] (take n [])
take-nil zero = refl
take-nil (suc n) = refl

drop-nil : (n : ℕ) → ◌≡◌ {A = List Str} (drop n []) []
drop-nil zero = refl
drop-nil (suc n) = refl

take-split : (k n : ℕ) (xs : List Str) → k ≤ n → take n xs ≡ take k xs ++ take (n - k) (drop k xs)
take-split zero n xs h = ap (λ m. take m xs) (omega arith)
take-split (suc k) zero xs h = absurd (omega arith)
take-split (suc k) (suc n) [] h = take-nil (suc n - suc k)
take-split (suc k) (suc n) (x ∷ xs) h =
    ap (◌∷◌ x)
      (take-split k n xs (omega arith) ∙ ap (λ m. take k xs ++ take m (drop k xs)) (omega arith))

drop-drop : (lo k : ℕ) (xs : List Str) → drop k (drop lo xs) ≡ drop (lo + k) xs
drop-drop zero k xs = ap (λ m. drop m xs) (omega arith)
drop-drop (suc lo) k [] = drop-nil k ∙ sym (drop-nil (suc lo + k))
drop-drop (suc lo) k (x ∷ xs) =
    let e : suc (lo + k) ≡ suc lo + k = omega arith in
    drop-drop lo k xs ∙ ap (λ m. drop m (x ∷ xs)) e

range_of-split :
    (lo mid hi : ℕ) (xs : List Str)
    → lo ≤ mid
    → mid ≤ hi
    → range_of lo hi xs ≡ range_of lo mid xs ++ range_of mid hi xs
range_of-split lo mid hi xs p q =
    let right : hi - lo - (mid - lo) ≡ hi - mid = omega arith in
    let left : lo + (mid - lo) ≡ mid = omega arith in
    take-split (mid - lo) (hi - lo) (drop lo xs) (omega arith)
    ∙ ap (λ m. take (mid - lo) (drop lo xs) ++ take m (drop (mid - lo) (drop lo xs))) right
    ∙ ap (λ ys. take (mid - lo) (drop lo xs) ++ take (hi - mid) ys)
        (drop-drop lo (mid - lo) xs ∙ ap (λ m. drop m xs) left)

query_page-page_of :
    (c : Codec) (key file : Str) (q : AuditQuery) (n l : ℕ)
    → 0 < l
    → query_page c key file (record q { offset = pos n; limit = pos l })
      ≡ some (
          page_of
            (matched q (scan_audit_file c key file).0.seen)
            (is_nil (scan_audit_file c key file).1)
            n
            l)
unfolding query_page
query_page-page_of c key file q n l p =
    let (s, o) = scan_audit_file c key file in
    ap (λ xs. page (record q { offset = pos n; limit = pos l }) xs (is_nil o))
      (matched-page q s.seen (pos n) (pos l))
    ∙ page-page_of q (matched q s.seen) (is_nil o) n l p

page_of-split :
    (xs : List Str) (n l m : ℕ)
    → range_of (length xs - n - (l + m)) (length xs - n) xs
      ≡ range_of (length xs - (n + l) - m) (length xs - (n + l)) xs
        ++ range_of (length xs - n - l) (length xs - n) xs
page_of-split xs n l m =
    let middle : length xs - (n + l) ≡ length xs - n - l = omega arith in
    let low : length xs - (n + l) - m ≡ length xs - n - (l + m) = omega arith in
    range_of-split (length xs - n - (l + m)) (length xs - n - l) (length xs - n) xs (omega arith)
      (omega arith)
    ∙ (λ i.
        range_of (sym low i) (sym middle i) xs ++ range_of (length xs - n - l) (length xs - n) xs)

page_of-whole :
    (xs : List Str) (n l : ℕ)
    → n ≡ 0
    → length xs ≤ l
    → range_of (length xs - n - l) (length xs - n) xs ≡ xs
page_of-whole xs n l e le =
    let low : length xs - n - l ≡ 0 = omega arith in
    let high : length xs - n ≡ length xs = omega arith in
    (λ i. range_of (low i) (high i) xs) ∙ take_all (length xs - 0) xs (omega arith)

-- Pages tile the matching records from the newest backwards: at an offset of at least zero and a
-- positive limit there is a page, and never a panic; the page before it in time starts where it ends,
-- so that both together are one page of both limits; and a page at offset zero that is large enough
-- is all the lines that match, in the order of the file. The total is the count of all the matches.
pub query_page-tiles :
    (c : Codec) (key file : Str) (q : AuditQuery) (n l m : ℕ)
    → 0 < l
    → 0 < m
    → let at = λ (n l : ℕ). query_page c key file (record q { offset = pos n; limit = pos l }) in
      let all = matched q (scan_audit_file c key file).0.seen in
      (newer older both : AuditPage) × (at n l ≡ some newer)
      × (at (n + l) m ≡ some older)
      × (at n (l + m) ≡ some both)
      × (both.lines ≡ older.lines ++ newer.lines)
      × (both.total ≡ length all)
      × (n ≡ 0 → length all ≤ l → newer.lines ≡ all)
query_page-tiles c key file q n l m p p' =
    let (s, o) = scan_audit_file c key file in
    let xs = matched q s.seen in
    (
      page_of xs (is_nil o) n l,
      page_of xs (is_nil o) (n + l) m,
      page_of xs (is_nil o) n (l + m),
      query_page-page_of c key file q n l p,
      query_page-page_of c key file q (n + l) m p',
      query_page-page_of c key file q n (l + m) (omega arith),
      page_of-split xs n l m,
      refl,
      λ e le. page_of-whole xs n l e le,
    )
