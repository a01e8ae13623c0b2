-- ===== src/Format/Appender.antt =====
-- src/hx_clog_format.c: `appender_t` and the functions that append to it.
use hx_clog.Common.{
  ℕ, zero, suc, ◌+◌, ◌-◌, ◌/◌, ◌%◌, ◌^◌, [], ◌∷◌, ◌++◌, reverse, Option, none, some, ltb, ◌==◌,
  if◌then◌else◌, not, Bytes, length, set,
}

abbrev pub uint_max : ℕ
uint_max = 0xffff_ffff

-- `buf` is the caller's memory, `cap` bytes of which the appender may write.
pub record Appender : Type 0 where
  pub buf : Bytes
  pub cap : ℕ
  pub pos : ℕ
  pub needed : ℕ

ap_bump : Appender → Appender
ap_bump a = if not (a.needed == uint_max) then record a { needed = a.needed + 1 } else a

unfoldable pub ap_char : Appender → ℕ → Appender
unfolding ap_bump
ap_char a c =
    let b = ap_bump a in
    if ltb ((b.pos + 1) % 2 ^ 32) b.cap
    then record b { buf = set b.buf b.pos c; pos = b.pos + 1 }
    else b

-- the loop of `ap_str`, one byte a round
unfoldable pub ap_each : Appender → Bytes → Appender
ap_each a [] = a
ap_each a (c ∷ s) = ap_each (ap_char a c) s

-- `none` is the null pointer
unfoldable pub ap_str : Appender → Option Bytes → Appender
ap_str a none = a
ap_str a (some s) = ap_each a s

-- the loop of `ap_strn`: the first `n` bytes of `s`
unfoldable pub ap_first : Appender → Bytes → ℕ → Appender
ap_first a s zero = a
ap_first a [] (suc n) = a
ap_first a (c ∷ s) (suc n) = ap_first (ap_char a c) s n

unfoldable pub ap_strn : Appender → Option Bytes → ℕ → Appender
ap_strn a none n = a
ap_strn a (some s) n = ap_first a s n

-- `while (v > 0 && i < room) { tmp[i++] = '0' + v % 10; v /= 10; }`: the bytes of `tmp`, the last
-- digit first
unfoldable pub digits : ℕ → ℕ → Bytes
digits zero v = []
digits (suc room) v =
    let rest = digits room (v / 10) in if v == 0 then [] else (b'0' + v % 10) ∷ rest

unfoldable pub ap_uint : Appender → ℕ → Appender
ap_uint a v = if v == 0 then ap_char a b'0' else ap_each a (reverse (digits 24 v))

unfoldable pub ap_ull : Appender → ℕ → Appender
ap_ull a v = if v == 0 then ap_char a b'0' else ap_each a (reverse (digits 32 v))

-- `for (j = i; j < width; ++j) ap_char(a, '0')`, with `n` rounds to go
unfoldable pub ap_zeros : Appender → ℕ → Appender
ap_zeros a zero = a
ap_zeros a (suc n) = ap_zeros (ap_char a b'0') n

-- the bytes of `tmp` in `ap_uint_pad`
abbrev pub pad_digits : ℕ → Bytes
pad_digits v = (if v == 0 then b'0' ∷ [] else []) ++ digits 16 v

unfoldable pub ap_uint_pad : Appender → ℕ → ℕ → Appender
ap_uint_pad a v width =
    let tmp = pad_digits v in ap_each (ap_zeros a (width - length tmp)) (reverse tmp)
