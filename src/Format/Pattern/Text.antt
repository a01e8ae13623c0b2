-- ===== src/Format/Pattern/Text.antt =====
-- The text that a pattern stands for, with no buffer, and that `hx_format_record` writes it.
use mathlib.Core.Option
use hx_clog.Common.{
  ℕ, ◌+◌, ◌^◌, ◌≤◌, ◌<◌, min, ◌≡◌, ne→==, [], ◌∷◌, ◌++◌, Option, some, append-nil, append_assoc,
  arith, ◌==◌, ==_iff, if◌then◌else◌, Bool-cases, inl, inr, Bytes, length, take,
}
use hx_clog.Format.Appender.{uint_max, Appender}
use hx_clog.Level.{level_short_name}
use hx_clog.Format.Record.{Tm, Record, basename_of}
use hx_clog.Format.View.{
  View, View-if, decimal, padded, View-ap_char, View-ap_str, View-ap_strn, View-ap_uint,
  View-ap_uint_pad,
}
use hx_clog.Format.Buffer.{Holds, View-start, View-finish}
use hx_clog.Format.Pattern.{or_empty, default_pattern, ap_specifier, ap_pattern, format_record}

abbrev pub specifier_text : Tm → Record → ℕ → Bytes
specifier_text tmv rec c =
    if c == b'Y'
    then padded 4 (tmv.tm_year + 1900)
    else if c == b'm'
    then padded 2 (tmv.tm_mon + 1)
    else if c == b'd'
    then padded 2 tmv.tm_mday
    else if c == b'H'
    then padded 2 tmv.tm_hour
    else if c == b'M'
    then padded 2 tmv.tm_min
    else if c == b'S'
    then padded 2 tmv.tm_sec
    else if c == b'e'
    then padded 3 rec.timestamp_msec
    else if c == b'l'
    then level_short_name rec.level
    else if c == b'c'
    then Option.get_or rec.logger_name []
    else if c == b't'
    then decimal 24 rec.tid
    else if c == b'p'
    then decimal 24 rec.pid
    else if c == b's'
    then basename_of rec.file
    else if c == b'F'
    then Option.get_or rec.file []
    else if c == b'#'
    then decimal 24 rec.line
    else if c == b'!'
    then Option.get_or rec.func []
    else if c == b'v'
    then take rec.message_len (Option.get_or rec.message [])
    else if c == b'x'
    then Option.get_or rec.context []
    else if c == b'n'
    then b'\n' ∷ []
    else if c == b'%'
    then b'%' ∷ []
    else b'%' ∷ c ∷ []

unfoldable pub pattern_text : Tm → Record → Bytes → Bytes
pattern_text tmv rec [] = []
pattern_text tmv rec (c ∷ []) = c ∷ []
pattern_text tmv rec (c ∷ d ∷ p) =
    let specified = specifier_text tmv rec d ++ pattern_text tmv rec p in
    let plain = c ∷ pattern_text tmv rec (d ∷ p) in if c == b'%' then specified else plain

module _ {size cap : ℕ} {rest : Bytes} where
  View-ap_specifier :
      (tmv : Tm) (rec : Record) {a : Appender} {text : Bytes} (c : ℕ)
      → View size cap rest a text
      → View size cap rest (ap_specifier tmv rec a c) (text ++ specifier_text tmv rec c)
  unfolding ap_specifier
  View-ap_specifier tmv rec {a} {text} c v =
      View-if (c == b'Y') text _ _ (View-ap_uint_pad (tmv.tm_year + 1900) 4 v) (
        View-if (c == b'm') text _ _ (View-ap_uint_pad (tmv.tm_mon + 1) 2 v) (
          View-if (c == b'd') text _ _ (View-ap_uint_pad tmv.tm_mday 2 v) (
            View-if (c == b'H') text _ _ (View-ap_uint_pad tmv.tm_hour 2 v) (
              View-if (c == b'M') text _ _ (View-ap_uint_pad tmv.tm_min 2 v) (
                View-if (c == b'S') text _ _ (View-ap_uint_pad tmv.tm_sec 2 v) (
                  View-if (c == b'e') text _ _ (View-ap_uint_pad rec.timestamp_msec 3 v) (
                    View-if (c == b'l') text _ _ (View-ap_str (some (level_short_name rec.level)) v)
                      (View-if (c == b'c') text _ _ (View-ap_str (or_empty rec.logger_name) v) (
                        View-if (c == b't') text _ _ (View-ap_uint rec.tid v) (
                          View-if (c == b'p') text _ _ (View-ap_uint rec.pid v) (
                            View-if (c == b's') text _ _
                              (View-ap_str (some (basename_of rec.file)) v)
                              (View-if (c == b'F') text _ _ (View-ap_str (or_empty rec.file) v) (
                                View-if (c == b'#') text _ _ (View-ap_uint rec.line v) (
                                  View-if (c == b'!') text _ _ (View-ap_str (or_empty rec.func) v) (
                                    View-if (c == b'v') text _ _
                                      (View-ap_strn rec.message rec.message_len v)
                                      (View-if (c == b'x') text _ _
                                        (View-ap_str (or_empty rec.context) v)
                                        (View-if (c == b'n') text _ _ (View-ap_char b'\n' v) (
                                          View-if (c == b'%') text _ _ (View-ap_char b'%' v) (
                                            rw append_assoc at (
                                              View-ap_char c
                                                (View-ap_char b'%' v)))))))))))))))))))))

  View-ap_pattern :
      (tmv : Tm) (rec : Record) (p : Bytes) {a : Appender} {text : Bytes}
      → View size cap rest a text
      → View size cap rest (ap_pattern tmv rec a p) (text ++ pattern_text tmv rec p)
  unfolding ap_pattern pattern_text
  View-ap_pattern tmv rec [] v = rw append-nil v
  View-ap_pattern tmv rec (c ∷ []) {text = text} v = elim (Bool-cases (c == b'%')) [
    | inl e ↦ rw (e, (==_iff c b'%').0 e) (View-ap_char b'%' v)
    | inr e ↦ rw e (View-ap_char c v)
  ]
  View-ap_pattern tmv rec (c ∷ d ∷ p) v = elim (Bool-cases (c == b'%')) [
    | inl e ↦ rw e (rw append_assoc at (View-ap_pattern tmv rec p (View-ap_specifier tmv rec d v)))
    | inr e ↦ rw e (rw append_assoc at (View-ap_pattern tmv rec (d ∷ p) (View-ap_char c v)))
  ]

module _ (localtime : ℕ → Tm) where
  -- For every pattern, record and buffer of a positive size, `hx_format_record` returns the length of
  -- the whole text that the pattern stands for (at most UINT_MAX), and leaves in the buffer as much
  -- of that text as fits with a NUL behind it, with no byte behind the buffer written.
  pub format_record_lem :
      (pattern : Option Bytes) (rec : Record) (out : Bytes) (out_size : ℕ)
      → 0 < out_size
      → out_size < 2 ^ 32
      → out_size ≤ length out
      → let tmv = localtime rec.timestamp_sec in
        let text = pattern_text tmv rec (Option.get_or pattern default_pattern) in
        (mem : Bytes) × (format_record localtime pattern rec (some out) out_size
          ≡ (min (length text) uint_max, some mem))
        × Holds out out_size text mem
  unfolding format_record
  format_record_lem pattern rec out out_size h k l =
      let tmv = localtime rec.timestamp_sec in
      let p = Option.get_or pattern default_pattern in
      rw (ne→== out_size 0 (omega arith)) (
        View-finish (pattern_text tmv rec p)
          (View-ap_pattern tmv rec p (View-start out out_size h k l)))
