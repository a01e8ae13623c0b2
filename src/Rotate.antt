-- ===== src/Rotate.antt =====
-- src/hx_clog_rotate.c: the names of the archives. The texts are those of a C locale, and a number
-- in a file's name is one that an `int` holds.
pub mod Fresh
pub mod Match
pub mod Scan
pub mod Recognise
pub mod Cleanup
mod Tests
use hx_clog.Common.{
  ℕ, zero, suc, ◌+◌, ◌-◌, ◌*◌, ◌^◌, Bool, true, false, not, ◌&&◌, ◌||◌, List, [], ◌∷◌, ◌++◌, Option,
  none, some, ltb, leb, ◌==◌, if◌then◌else◌, Bytes, codes, length, take, drop, eqs,
}
use hx_clog.Format.Record.{Tm}
use hx_clog.Format.View.{decimal, padded}

-- `char[256]` and `char[64]` for the two parts of a name, `char[300]` for the beginning of an archive's
abbrev pub stem_cap : ℕ
stem_cap = 256

abbrev pub ext_cap : ℕ
ext_cap = 64

abbrev pub needle_cap : ℕ
needle_cap = 300

-- `HX_CLOG_PATH_MAX`
abbrev pub path_max : ℕ
path_max = 1024

-- what `snprintf` or a copying loop leaves in a buffer of `cap` bytes
abbrev pub cut : ℕ → Bytes → Bytes
cut cap s = take (cap - 1) s

-- the last dot of a text with one more byte in front
unfoldable pub dot_after : ℕ → Bytes → Option (Bytes × Bytes) → Option (Bytes × Bytes)
dot_after c s (some (before, after)) = some (c ∷ before, after)
dot_after c s none = if c == b'.' then some ([], s) else none

-- the bytes before the last dot and those behind it; `none`: there is no dot
unfoldable pub last_dot : Bytes → Option (Bytes × Bytes)
last_dot [] = none
last_dot (c ∷ s) = dot_after c s (last_dot s)

-- the stem and the extension of a name
unfoldable pub split_name : Bytes → Bytes × Bytes
split_name name = elim (last_dot name) [
  | none ↦ (cut stem_cap name, [])
  | some (before, after) ↦ elim before [
    | [] ↦ (cut stem_cap name, [])
    | c ∷ s ↦ (cut stem_cap (c ∷ s), cut ext_cap after)
  ]
]

-- `%04d-%02d-%02d`
unfoldable pub date_tag : Tm → Bytes
date_tag tmv =
    padded 4 (tmv.tm_year + 1900) ++ b'-' ∷ padded 2 (tmv.tm_mon + 1) ++ b'-' ∷ padded 2 tmv.tm_mday

unfoldable pub make_archive_name : Bytes → Bytes → Tm → ℕ → Bytes
make_archive_name stem ext tmv index =
    let name = stem ++ b'.' ∷ date_tag tmv ++ b'.' ∷ decimal 24 index in
    cut path_max (elim ext [ [] ↦ name | c ∷ e ↦ name ++ b'.' ∷ c ∷ e ])

unfoldable pub has_prefix : Bytes → Bytes → Bool
has_prefix s [] = true
has_prefix [] (c ∷ prefix) = false
has_prefix (x ∷ s) (c ∷ prefix) = x == c && has_prefix s prefix

unfoldable pub is_digit : ℕ → Bool
is_digit c = leb b'0' c && leb c b'9'

-- `isspace`
unfoldable pub is_space : ℕ → Bool
is_space c = c == b' ' || (leb 9 c && leb c 13)

unfoldable pub skip_spaces : Bytes → Bytes
skip_spaces [] = []
skip_spaces (c ∷ s) = if is_space c then skip_spaces s else c ∷ s

-- the number that the leading digits of a text make, on top of those read before
unfoldable pub leading : ℕ → Bytes → ℕ
leading n [] = n
leading n (c ∷ s) = if is_digit c then leading (n * 10 + (c - b'0')) s else n

-- `atoi` behind the spaces, with 0 for a negative number: the one use is to raise a maximum that is
-- not negative
unfoldable pub atoi_at : Bytes → ℕ
atoi_at [] = 0
atoi_at (c ∷ s) = if c == b'+' then leading 0 s else leading 0 (c ∷ s)

unfoldable pub atoi : Bytes → ℕ
atoi text = atoi_at (skip_spaces text)

-- `index_cb`: the maximum so far, and a name in the directory
unfoldable pub index_cb : Bytes → Bytes → ℕ → Bytes → ℕ
index_cb stem date max_index fname =
    let needle = cut needle_cap (stem ++ b'.' ∷ date ++ b'.' ∷ []) in
    let idx = atoi (drop (length needle) fname) in
    if not (has_prefix fname needle)
    then max_index
    else if ltb max_index idx
    then idx
    else max_index

-- `list_dir(dir, index_cb, &ic)` over the names in the directory
unfoldable pub scan_index : Bytes → Bytes → ℕ → List Bytes → ℕ
scan_index stem date max_index [] = max_index
scan_index stem date max_index (fname ∷ names) =
    scan_index stem date (index_cb stem date max_index fname) names

-- the archive for the active file `base_name`, among the names in its directory
unfoldable pub next_archive : Bytes → Tm → List Bytes → Bytes
next_archive base_name tmv names =
    let (stem, ext) = split_name base_name in
    make_archive_name stem ext tmv (scan_index stem (date_tag tmv) 0 names + 1)
