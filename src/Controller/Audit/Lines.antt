-- ===== src/Controller/Audit/Lines.antt =====
-- How a file splits into lines.
use geneza.Base.{false, ◌≡◌, refl, [], ◌∷◌, ◌++◌, ◌==◌, Str}
use geneza.Controller.Audit.{push_byte, split_lines}

-- A text with no newline.
abbrev pub OneLine : Str → Type 0
OneLine [] = Unit
OneLine (b ∷ s) = ((b == b'\n') ≡ false) × OneLine s

pub split_lines-tail : (rest : Str) → OneLine rest → split_lines rest ≡ ([], rest)
unfolding split_lines push_byte
split_lines-tail [] h = refl
split_lines-tail (b ∷ s) h = rw (h.0, split_lines-tail s h.1) refl

pub split_lines-cons :
    (l s : Str)
    → OneLine l
    → split_lines (l ++ b'\n' ∷ s) ≡ (l ∷ (split_lines s).0, (split_lines s).1)
unfolding split_lines push_byte
split_lines-cons [] s h = refl
split_lines-cons (b ∷ l) s h = rw (h.0, split_lines-cons l s h.1) refl
