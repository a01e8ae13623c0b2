-- ===== src/Config/Lines.antt =====
-- src/hx_clog_core.c: what the lines of an ini file set.
use hx_clog.Common.{ℕ, ◌≡◌, true, false, [], ◌∷◌, ◌++◌, reverse, ◌==◌, Bytes}
use hx_clog.Config.{Config, is_blank, skip_blanks}

unfoldable pub AllBlank : Bytes → Type 0
AllBlank [] = Unit
AllBlank (c ∷ s) = (is_blank c ≡ true) × AllBlank s

-- a text with no blank at its ends
abbrev pub Solid : Bytes → Type 0
Solid s = (skip_blanks s ≡ s) × (skip_blanks (reverse s) ≡ reverse s)

-- a text without a byte
unfoldable pub Lacks : ℕ → Bytes → Type 0
Lacks b [] = Unit
Lacks b (c ∷ s) = ((c == b) ≡ false) × Lacks b s

-- a byte that begins neither a comment nor a section
abbrev pub BeginsKey : ℕ → Type 0
BeginsKey c = ((c == b'#') ≡ false) × ((c == b';') ≡ false) × ((c == b'[') ≡ false)

-- the line between the blanks around it
abbrev pub pair_text : Bytes → Bytes → Bytes → Bytes → Bytes
pair_text k q r v = k ++ (q ++ (b'=' ∷ (r ++ v)))
