-- ===== src/Controller/Pagination.antt =====
-- internal/controller/pagination.go: the page of a list query. No sum here comes near 2^63.
use geneza.Base.{ℕ, ◌+◌, ◌≤◌, ◌<◌, ◌≡◌, refl, ltb, if◌then◌else◌, arith}
use geneza.Base.Int.{ℤ, pos, pos_part, leb_ℤ, ltb_ℤ}

pub record Page : Type 0 where
  pub limit : ℤ
  pub offset : ℤ

-- The limit and the offset of normalize, which are not negative.
pub normalize : Page → ℕ × ℕ
normalize p =
    let limit = if leb_ℤ p.limit (pos 0) then pos 100 else p.limit in
    let capped = if ltb_ℤ (pos 1000) limit then pos 1000 else limit in
    (pos_part capped, if ltb_ℤ p.offset (pos 0) then 0 else pos_part p.offset)

cap : ℕ → ℕ → ℕ
cap x total = if ltb total x then total else x

pub bounds : Page → ℕ → ℕ × ℕ
unfolding normalize cap
bounds p total = let n = normalize p in let lo = cap n.1 total in (lo, cap (lo + n.0) total)

-- The page that follows.
abbrev pub next_page : Page → Page
next_page p = record { limit = p.limit; offset = pos ((normalize p).1 + (normalize p).0) }

normalize_lem :
    (p : Page)
    → (1 ≤ (normalize p).0)
      × ((normalize p).0 ≤ 1000)
      × ((normalize (next_page p)).0 ≡ (normalize p).0)
      × ((normalize (next_page p)).1 ≡ (normalize p).1 + (normalize p).0)
unfolding normalize
normalize_lem p = (ground arith, ground arith, refl, ground arith)

-- A page lies within the list and has 1000 entries at most; the page that follows it begins where it
-- ends; and it ends before the end of the list only if it is full.
pub bounds_lem :
    (p : Page) (total : ℕ)
    → let b = bounds p total in
      (b.0 ≤ b.1)
      × (b.1 ≤ total)
      × (b.1 ≤ b.0 + 1000)
      × ((bounds (next_page p) total).0 ≡ b.1)
      × (b.1 < total → b.1 ≡ b.0 + (normalize p).0)
unfolding bounds cap
bounds_lem p total =
    let n = normalize_lem p in
    (ground (arith, n.1), ground arith, ground (arith, n.1), ground (arith, n.3), ground arith)
