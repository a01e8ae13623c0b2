-- ===== src/Level.antt =====
-- include/hx_clog.h: the levels, and their names in src/hx_clog_core.c and src/hx_clog_format.c.
-- The levels are an enumeration without negative constants, which is an unsigned type; a value
-- above `off` is none of them.
mod Tests
use hx_clog.Common.Tables.{passes, passes_lem}
use hx_clog.Common.{
  ℕ, ◌+◌, ◌-◌, ◌≤◌, Bool, true, false, ◌&&◌, ◌||◌, List, [], ◌∷◌, Option, none, some, ◌≡◌, refl,
  arith, ltb, leb, ◌==◌, if◌then◌else◌, Bytes, codes, get_or, eqs, eqs_iff, map, ◌∙◌, ==_iff,
}

abbrev pub trace : ℕ
trace = 0

abbrev pub debug : ℕ
debug = 1

abbrev pub info : ℕ
info = 2

abbrev pub warn : ℕ
warn = 3

abbrev pub error : ℕ
error = 4

abbrev pub fatal : ℕ
fatal = 5

abbrev pub off : ℕ
off = 6

abbrev k_level_names_padded : List Bytes
k_level_names_padded =
    codes "TRACE"
    ∷ codes "DEBUG"
    ∷ codes "INFO "
    ∷ codes "WARN "
    ∷ codes "ERROR"
    ∷ codes "FATAL"
    ∷ codes "OFF  "
    ∷ []

unfoldable pub level_short_name : ℕ → Bytes
level_short_name level =
    if ltb off level then codes "?????" else get_or k_level_names_padded level []

-- `hx_clog_level_name` of src/hx_clog_core.c
unfoldable pub level_name : ℕ → Bytes
level_name level =
    if level == 0
    then codes "TRACE"
    else if level == 1
    then codes "DEBUG"
    else if level == 2
    then codes "INFO"
    else if level == 3
    then codes "WARN"
    else if level == 4
    then codes "ERROR"
    else if level == 5
    then codes "FATAL"
    else if level == 6
    then codes "OFF"
    else codes "UNKNOWN"

-- one byte of `ieq`, made small
abbrev lower : ℕ → ℕ
lower c = if leb b'A' c && leb c b'Z' then c - b'A' + b'a' else c

-- equality of texts, up to the case of ASCII letters
unfoldable pub ieq : Bytes → Bytes → Bool
ieq [] [] = true
ieq [] (y ∷ ys) = false
ieq (x ∷ xs) [] = false
ieq (x ∷ xs) (y ∷ ys) = lower x == lower y && ieq xs ys

unfoldable pub level_from_name : Option Bytes → ℕ
level_from_name none = info
level_from_name (some name) =
    if ieq name (codes "trace")
    then trace
    else if ieq name (codes "debug")
    then debug
    else if ieq name (codes "info")
    then info
    else if ieq name (codes "warn") || ieq name (codes "warning")
    then warn
    else if ieq name (codes "error")
    then error
    else if ieq name (codes "fatal")
    then fatal
    else if ieq name (codes "off")
    then off
    else info

ieq-eqs : (a b : Bytes) → ieq a b ≡ eqs (map lower a) (map lower b)
unfolding ieq
ieq-eqs [] [] = refl
ieq-eqs [] (y ∷ ys) = refl
ieq-eqs (x ∷ xs) [] = refl
ieq-eqs (x ∷ xs) (y ∷ ys) = rw (ieq-eqs xs ys)

level_from_name-ieq :
    (a b : Bytes) → ieq a b ≡ true → level_from_name (some a) ≡ level_from_name (some b)
unfolding level_from_name
level_from_name-ieq a b e =
    let low : map lower a ≡ map lower b = (eqs_iff _ _).0 (rw ieq-eqs at e) in simp ieq-eqs (rw low)

abbrev every_level : ℕ → Bool
every_level l = level_from_name (some (level_name l)) == l

level_table : passes every_level 7 ≡ true
unfolding passes level_name level_from_name ieq
level_table = refl

-- The name of each level, in any mixture of cases, is read back as that level.
pub level_from_name-level_name :
    (level : ℕ) (name : Bytes)
    → level ≤ off
    → ieq name (level_name level) ≡ true
    → level_from_name (some name) ≡ level
level_from_name-level_name level name h e =
    level_from_name-ieq name (level_name level) e
    ∙ (==_iff _ level).0 (passes_lem every_level 7 (omega arith) level_table)
