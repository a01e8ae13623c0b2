-- ===== src/Rotate/Match.antt =====
-- src/hx_clog_rotate.c: which names are recognised as archives, and the order they are given.
use hx_clog.Common.{
  ℕ, zero, suc, ◌+◌, ◌-◌, ◌*◌, Bool, true, false, not, ◌&&◌, [], ◌∷◌, ◌++◌, Option, none, some,
  ◌>>=◌, leb, ◌==◌, if◌then◌else◌, Bytes, codes, length, drop, eqs,
}
use hx_clog.Common.Int.{ℤ, diff, plus, times, add}
use hx_clog.Rotate.{has_prefix, is_digit, skip_spaces}

-- at most `room` more digits behind the number `n`
unfoldable pub scan_digits : ℕ → ℕ → Bytes → ℕ × Bytes
scan_digits zero n s = (n, s)
scan_digits (suc room) n [] = (n, [])
scan_digits (suc room) n (c ∷ s) =
    let more = scan_digits room (n * 10 + (c - b'0')) s in if is_digit c then more else (n, c ∷ s)

unfoldable pub scan_unsigned : ℕ → Bytes → Option (ℕ × Bytes)
scan_unsigned zero s = none
scan_unsigned (suc room) [] = none
scan_unsigned (suc room) (c ∷ s) = if is_digit c then some (scan_digits room (c - b'0') s) else none

unfoldable pub scan_signed : ℕ → Bytes → Option (ℤ × Bytes)
scan_signed room [] = none
scan_signed room (c ∷ s) =
    if c == b'-'
    then elim (scan_unsigned (room - 1) s) [ none ↦ none | some (n, t) ↦ some (diff 0 n, t) ]
    else elim (if c == b'+' then scan_unsigned (room - 1) s else scan_unsigned room (c ∷ s)) [
      | none ↦ none
      | some (n, t) ↦ some (ℤ.pos n, t)
    ]

-- `%<room>d` of `sscanf`
unfoldable pub scan_int : ℕ → Bytes → Option (ℤ × Bytes)
scan_int room text = scan_signed room (skip_spaces text)

-- a byte of the format that is to be met as it is
unfoldable pub scan_byte : ℕ → Bytes → Option Bytes
scan_byte b [] = none
scan_byte b (c ∷ s) = if c == b then some s else none

pub record Stamp : Type 0 where
  pub year : ℤ
  pub mon : ℤ
  pub day : ℤ
  pub index : ℤ

-- `sscanf(text, "%4d-%2d-%2d.%d%n", ...)`, and the rest of the text; `none` if a field is missing
unfoldable pub scan_stamp : Bytes → Option (Stamp × Bytes)
scan_stamp text = do
  (y, s) ← scan_int 4 text
  s ← scan_byte b'-' s
  (mo, s) ← scan_int 2 s
  s ← scan_byte b'-' s
  (d, s) ← scan_int 2 s
  s ← scan_byte b'.' s
  (idx, s) ← scan_int (length s) s
  some (record { year = y; mon = mo; day = d; index = idx }, s)

-- a whole number between two natural ones
unfoldable pub within : ℕ → ℕ → ℤ → Bool
within low high (ℤ.pos n) = leb low n && leb n high
within low high (ℤ.negsuc n) = false

unfoldable pub is_natural : ℤ → Bool
is_natural (ℤ.pos n) = true
is_natural (ℤ.negsuc n) = false

-- what follows the index: `none` if it is not what an archive's name ends in, else whether it is `.gz`
unfoldable pub match_ending : Bytes → Bytes → Option Bool
match_ending ext p =
    let want : Bytes = elim ext [ [] ↦ [] | c ∷ e ↦ b'.' ∷ c ∷ e ] in
    if eqs p want then some false else if eqs p (want ++ codes ".gz") then some true else none

-- `some compressed` if the name is an archive's
unfoldable pub archive_name_match : Bytes → Bytes → Bytes → Option Bool
archive_name_match fname prefix ext =
    if not (has_prefix fname prefix) then none else elim (scan_stamp (drop (length prefix) fname)) [
      | none ↦ none
      | some (t, p) ↦
          if is_natural t.index && within 1 12 t.mon && within 1 31 t.day
          then match_ending ext p
          else none
    ]

abbrev pub date_num : Stamp → ℤ
date_num t = add (add (times t.year 10000) (times t.mon 100)) t.day

-- the key that orders archives by age, of a name that is an archive's
unfoldable pub archive_order_key : Bytes → Bytes → ℤ → ℤ
archive_order_key fname prefix fallback = elim (scan_stamp (drop (length prefix) fname)) [
  | none ↦ fallback
  | some (t, p) ↦ elim t.index [
    | ℤ.negsuc n ↦ fallback
    | ℤ.pos idx ↦ plus (times (date_num t) 100000000) idx
  ]
]
