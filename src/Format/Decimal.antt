-- ===== src/Format/Decimal.antt =====
-- src/hx_clog_format.c: the numbers that `ap_uint` and `ap_uint_pad` print, read back.
use native.Mathlib.Nat.{pow-suc}
use native.Mathlib.Decide.{dec_lt}
use mathlib.Core.List.{reverse-append}
use hx_clog.Common.{
  ℕ, zero, suc, ◌+◌, ◌-◌, ◌*◌, ◌/◌, ◌%◌, ◌^◌, ◌≤◌, ◌<◌, ◌≡◌, refl, ◌∙◌, ap, sym, [], ◌∷◌, ◌++◌,
  reverse, arith, ◌==◌, ==_iff, ne→==, Bool-cases, inl, inr, Bytes, length, length-append,
  length-reverse, length-replicate, replicate,
}
use hx_clog.Format.Appender.{Appender, digits, ap_uint, ap_uint_pad, pad_digits}
use hx_clog.Format.View.{View, decimal, padded, View-ap_uint, View-ap_uint_pad}

-- the number that a text of decimal digits continues `acc` to
unfoldable pub read : ℕ → Bytes → ℕ
read acc [] = acc
read acc (c ∷ s) = read (acc * 10 + (c - b'0')) s

abbrev pub AllDigits : Bytes → Type 0
AllDigits [] = Unit
AllDigits (c ∷ s) = (b'0' ≤ c) × (c ≤ b'9') × AllDigits s

read-append : (acc : ℕ) (s t : Bytes) → read acc (s ++ t) ≡ read (read acc s) t
unfolding read
read-append acc [] t = refl
read-append acc (c ∷ s) t = read-append (acc * 10 + (c - b'0')) s t

pub AllDigits-append : (s t : Bytes) → AllDigits s → AllDigits t → AllDigits (s ++ t)
AllDigits-append [] t h k = k
AllDigits-append (c ∷ s) t h k = (h.0, h.1, AllDigits-append s t h.2 k)

reverse-cons : (c : ℕ) (s : Bytes) → reverse (c ∷ s) ≡ reverse s ++ c ∷ []
reverse-cons c s = reverse-append (c ∷ []) s

pow-lt : (room v : ℕ) → v < 10 ^ suc room → v / 10 < 10 ^ room
pow-lt room v h = let k : v < 10 ^ room * 10 = rw pow-suc at h in omega arith

read-digits : (room v : ℕ) → v < 10 ^ room → read 0 (reverse (digits room v)) ≡ v
unfolding digits read
read-digits zero v h = omega arith
read-digits (suc room) v h = elim (Bool-cases (v == 0)) [
  | inl e ↦ rw e (sym ((==_iff v 0).0 e))
  | inr e ↦ rw e (
      ap (read 0) (reverse-cons (b'0' + v % 10) (digits room (v / 10)))
      ∙ read-append 0 (reverse (digits room (v / 10))) ((b'0' + v % 10) ∷ [])
      ∙ omega (arith, read-digits room (v / 10) (pow-lt room v h)))
]

pub AllDigits-digits : (room v : ℕ) → AllDigits (reverse (digits room v))
unfolding digits
AllDigits-digits zero v = tt
AllDigits-digits (suc room) v = elim (Bool-cases (v == 0)) [
  | inl e ↦ rw e tt
  | inr e ↦
      rw (e, reverse-cons)
        (AllDigits-append (reverse (digits room (v / 10))) ((b'0' + v % 10) ∷ [])
          (AllDigits-digits room (v / 10)) (omega arith, omega arith, tt))
]

length-digits : (room width v : ℕ) → v < 10 ^ width → length (digits room v) ≤ width
unfolding digits
length-digits zero width v h = omega arith
length-digits (suc room) zero v h = elim (Bool-cases (v == 0)) [
  | inl e ↦ rw e (omega arith)
  | inr e ↦ cc ((==_iff v 0).1 (omega arith))
]
length-digits (suc room) (suc width) v h = elim (Bool-cases (v == 0)) [
  | inl e ↦ rw e (omega arith)
  | inr e ↦ rw e (omega (arith, length-digits room width (v / 10) (pow-lt width v h)))
]

pub length-decimal : (v : ℕ) → v < 2 ^ 64 → length (decimal 24 v) ≤ 24
length-decimal v h = elim (Bool-cases (v == 0)) [
  | inl e ↦ rw e (omega arith)
  | inr e ↦ rw e (omega (arith, length-reverse (digits 24 v), length-digits 24 24 v (omega arith)))
]

-- Reading the text of `decimal` gives the number back.
pub decimal_lem : (v : ℕ) → v < 2 ^ 64 → (read 0 (decimal 24 v) ≡ v) × AllDigits (decimal 24 v)
unfolding read
decimal_lem v h = elim (Bool-cases (v == 0)) [
  | inl e ↦ rw e (sym ((==_iff v 0).0 e), (omega arith, omega arith, tt))
  | inr e ↦ rw e (read-digits 24 v (omega arith), AllDigits-digits 24 v)
]

read-zeros : (n : ℕ) → read 0 (replicate n b'0') ≡ 0
unfolding read
read-zeros zero = refl
read-zeros (suc n) = read-zeros n

digits-zero : (room : ℕ) → digits room 0 ≡ []
unfolding digits
digits-zero zero = refl
digits-zero (suc room) = refl

read-pad_digits : (v : ℕ) → v < 10 ^ 16 → read 0 (reverse (pad_digits v)) ≡ v
unfolding read
read-pad_digits v h = elim (dec_lt 0 v) [
  | yes p ↦ rw (ne→== v 0 (omega arith)) (read-digits 16 v h)
  | no p ↦ let z : v ≡ 0 = omega arith in rw (z, digits-zero)
]

length-pad_digits : (width v : ℕ) → 0 < width → v < 10 ^ width → length (pad_digits v) ≤ width
length-pad_digits width v k h = elim (dec_lt 0 v) [
  | yes p ↦ rw (ne→== v 0 (omega arith)) (length-digits 16 width v h)
  | no p ↦ let z : v ≡ 0 = omega arith in rw (z, digits-zero) (omega arith)
]

pub read-padded : (width v : ℕ) → v < 10 ^ 16 → read 0 (padded width v) ≡ v
read-padded width v h =
    let n = width - length (pad_digits v) in
    read-append 0 (replicate n b'0') (reverse (pad_digits v))
    ∙ ap (λ z. read z (reverse (pad_digits v))) (read-zeros n)
    ∙ read-pad_digits v h

pub length-padded : (width v : ℕ) → 0 < width → v < 10 ^ width → length (padded width v) ≡ width
length-padded width v k h =
    let n = width - length (pad_digits v) in
    length-append (replicate n b'0') (reverse (pad_digits v))
    ∙ omega (
      arith,
      length-replicate {A = ℕ} n b'0',
      length-reverse (pad_digits v),
      length-pad_digits width v k h,
    )

module _ {size cap : ℕ} {rest : Bytes} {a : Appender} {text : Bytes} where
  -- To an appender that holds a text, `ap_uint` appends the decimal form of a 64-bit number:
  -- digits only, which read as that number.
  ap_uint_lem :
      (v : ℕ)
      → v < 2 ^ 64
      → View size cap rest a text
      → (t : Bytes) × View size cap rest (ap_uint a v) (text ++ t) × (read 0 t ≡ v) × AllDigits t
  ap_uint_lem v h w = (decimal 24 v, View-ap_uint v w, (decimal_lem v h).0, (decimal_lem v h).1)

  -- `ap_uint_pad` appends a text that reads as the number, and is exactly `width` bytes long if the
  -- number has at most `width` digits.
  pub ap_uint_pad_lem :
      (v width : ℕ)
      → v < 10 ^ 16
      → 0 < width
      → View size cap rest a text
      → (t : Bytes) × View size cap rest (ap_uint_pad a v width) (text ++ t)
        × (read 0 t ≡ v)
        × (v < 10 ^ width → length t ≡ width)
  ap_uint_pad_lem v width h k w =
      (padded width v, View-ap_uint_pad v width w, read-padded width v h, length-padded width v k)
