-- ===== src/Rotate/Recognise.antt =====
-- src/hx_clog_rotate.c: the name that a rotation gives an archive is recognised as an archive's name.
pub mod Archive
pub mod Newest
use hx_clog.Common.{
  ℕ, zero, suc, ◌+◌, ◌-◌, ◌*◌, ◌^◌, ◌≤◌, ◌<◌, ◌≡◌, ◌≢◌, ◌⊎◌, refl, ◌∙◌, sym, ap, inl, inr, Bool,
  true, false, [], ◌∷◌, ◌++◌, append_assoc, append-nil, arith, ltb, leb, ◌==◌, ==_iff, ne→==,
  Bool-cases, le→leb, Bytes, Option, some, none, length, drop, length-append, reverse, codes, eqs,
  eqs_iff, replicate,
}
use native.Mathlib.Decide.{dec_lt}
use hx_clog.Common.Int.{ℤ, plus, times, add}
use hx_clog.Format.Record.{Tm}
use hx_clog.Format.Appender.{digits, pad_digits}
use hx_clog.Format.View.{decimal, padded}
use hx_clog.Format.Decimal.{
  read, AllDigits, AllDigits-append, AllDigits-digits, read-padded, decimal_lem, length-decimal,
  length-padded,
}
use hx_clog.Rotate.{
  path_max, date_tag, make_archive_name, has_prefix, is_digit, is_space, skip_spaces,
}
use hx_clog.Rotate.Match.{
  scan_digits, scan_unsigned, scan_signed, scan_int, scan_byte, Stamp, scan_stamp, within,
  is_natural, match_ending, archive_name_match, archive_order_key,
}
use hx_clog.Rotate.Scan.{
  stamp_of, scan_int-append, field, scan_stamp-fields, dashed, length-decimal_pos, Ends,
}
use hx_clog.Rotate.Fresh.{
  Stops, ending, ending-Stops, needle_of, needle_append, make_archive_name_lem, digit_is_digit,
  digit_is_no_space, has_prefix-append, drop-length_append, IsDate,
}

-- the text behind the name's prefix
unfoldable pub tagged : Tm → ℕ → Bytes → Bytes
tagged tmv index s = date_tag tmv ++ b'.' ∷ (decimal 24 index ++ s)

scan_stamp-tagged :
    (tmv : Tm) (index : ℕ) (tail : Bytes)
    → IsDate tmv
    → index < 2 ^ 64
    → Stops tail
    → scan_stamp (tagged tmv index tail) ≡ some (stamp_of tmv index, tail)
unfolding tagged date_tag stamp_of
scan_stamp-tagged tmv index tail d h k =
    let at_index : Bytes = decimal 24 index ++ tail in
    let at_day : Bytes = padded 2 tmv.tm_mday ++ b'.' ∷ at_index in
    let at_mon : Bytes = padded 2 (tmv.tm_mon + 1) ++ b'-' ∷ at_day in
    let room : length (decimal 24 index) ≤ length at_index =
      omega (arith, length-append (decimal 24 index) tail) in
    let (value, digits_only) = decimal_lem index h in
    ap scan_stamp (
      dashed (padded 4 (tmv.tm_year + 1900)) (padded 2 (tmv.tm_mon + 1)) (padded 2 tmv.tm_mday)
        (b'.' ∷ at_index))
    ∙ scan_stamp-fields (padded 4 (tmv.tm_year + 1900) ++ b'-' ∷ at_mon) at_mon at_day at_index tail
        (ℤ.pos (tmv.tm_year + 1900)) (ℤ.pos (tmv.tm_mon + 1)) (ℤ.pos tmv.tm_mday) (ℤ.pos index)
        (field 4 (tmv.tm_year + 1900) (b'-' ∷ at_mon) (omega arith) (omega (arith, d.year_in))
          (omega (arith, d.year_in)))
        (field 2 (tmv.tm_mon + 1) (b'-' ∷ at_day) (omega arith) (omega (arith, d.mon_in))
          (omega (arith, d.mon_in)))
        (field 2 tmv.tm_mday (b'.' ∷ at_index) (omega arith) (omega (arith, d.day_in))
          (omega (arith, d.day_in)))
        (scan_int-append (length at_index) (decimal 24 index) tail digits_only
            (length-decimal_pos index h) (inr (room, k))
          ∙ ap (λ n. some (ℤ.pos n, tail)) value)

pub match_ending-plain : (ext : Bytes) → match_ending ext (ending ext) ≡ some false
unfolding match_ending ending
match_ending-plain [] = refl
match_ending-plain (c ∷ e) = rw ((eqs_iff (b'.' ∷ c ∷ e) (b'.' ∷ c ∷ e)).1 refl) refl

pub match_ending-gz : (ext : Bytes) → match_ending ext (ending ext ++ codes ".gz") ≡ some true
unfolding match_ending ending
match_ending-gz [] = refl
match_ending-gz (c ∷ e) =
    let p : Bytes = b'.' ∷ c ∷ e in
    elim (Bool-cases (eqs (p ++ codes ".gz") p)) [
      | inl y ↦
          let same : length (p ++ codes ".gz") ≡ length p =
            ap length ((eqs_iff (p ++ codes ".gz") p).0 y) in
          absurd (omega (arith, length-append p (codes ".gz"), same))
      | inr n ↦ rw (n, (eqs_iff (p ++ codes ".gz") (p ++ codes ".gz")).1 refl) refl
    ]

-- a name that begins with the prefix and goes on with the date and the index
unfoldable pub named : Bytes → Tm → ℕ → Bytes → Bytes
named stem tmv index tail = (stem ++ b'.' ∷ []) ++ tagged tmv index tail

module _ (stem tail : Bytes) (tmv : Tm) (index : ℕ) (d : IsDate tmv) (h : index < 2 ^ 64)
    (k : Stops tail) where
  abbrev pub prefix : Bytes
  prefix = stem ++ b'.' ∷ []

  scan_stamp-named :
      scan_stamp (drop (length prefix) (named stem tmv index tail))
      ≡ some (stamp_of tmv index, tail)
  unfolding named
  scan_stamp-named =
      ap scan_stamp (drop-length_append prefix (tagged tmv index tail))
      ∙ scan_stamp-tagged tmv index tail d h k

  pub archive_name_match-named :
      (ext : Bytes)
      → archive_name_match (named stem tmv index tail) prefix ext ≡ match_ending ext tail
  unfolding archive_name_match is_natural within stamp_of
  archive_name_match-named ext =
      let begins : has_prefix (named stem tmv index tail) prefix ≡ true =
        unfold named in has_prefix-append prefix (tagged tmv index tail) in
      rw
        (
          begins,
          scan_stamp-named,
          le→leb {a = 1} {b = tmv.tm_mon + 1} (omega arith),
          le→leb {a = tmv.tm_mon + 1} {b = 12} (omega (arith, d.mon_in)),
          le→leb {a = 1} {b = tmv.tm_mday} (omega (arith, d.day_pos)),
          le→leb {a = tmv.tm_mday} {b = 31} (omega (arith, d.day_in)),
        )
        refl

  pub archive_order_key-named :
      (fallback : ℤ)
      → archive_order_key (named stem tmv index tail) prefix fallback
        ≡ ℤ.pos (
            ((tmv.tm_year + 1900) * 10000 + (tmv.tm_mon + 1) * 100 + tmv.tm_mday) * 100000000
            + index)
  unfolding archive_order_key stamp_of
  archive_order_key-named fallback = rw (archive_order_key, scan_stamp-named) refl

pub needle_named :
    (stem : Bytes) (tmv : Tm) (index : ℕ) (tail : Bytes)
    → needle_of stem (date_tag tmv) ++ decimal 24 index ++ tail ≡ named stem tmv index tail
unfolding named tagged
needle_named stem tmv index tail =
    let date = date_tag tmv in
    let rest = decimal 24 index ++ tail in
    append_assoc (needle_of stem date) (decimal 24 index) tail
    ∙ needle_append stem date rest
    ∙ append_assoc stem (b'.' ∷ date) (b'.' ∷ rest)
    ∙ sym (append_assoc stem (b'.' ∷ []) (date ++ b'.' ∷ rest))

pub make_archive_name-named :
    (stem ext : Bytes) (tmv : Tm) (index : ℕ)
    → length (named stem tmv index (ending ext)) < path_max
    → make_archive_name stem ext tmv index ≡ named stem tmv index (ending ext)
make_archive_name-named stem ext tmv index short =
    let same = needle_named stem tmv index (ending ext) in
    make_archive_name_lem stem ext tmv index (omega (arith, ap length same, short)) ∙ same
