-- ===== src/Config/Sizes.antt =====
-- src/hx_clog_core.c: `ini_size`, the sizes in an ini file.
use hx_clog.Common.{
  ℕ, ◌+◌, ◌-◌, ◌*◌, ◌%◌, ◌^◌, ◌≤◌, ◌<◌, ◌≡◌, ◌≢◌, refl, ◌∙◌, true, false, [], ◌∷◌, ◌++◌, ne→==,
  arith, Bytes,
}
use hx_clog.Rotate.{is_digit}
use hx_clog.Format.View.{decimal}
use hx_clog.Format.Decimal.{read, AllDigits, decimal_lem}
use hx_clog.Config.{unit_of, ini_size_from, ini_size}

-- a text that begins with no digit
unfoldable pub NoDigit : Bytes → Type 0
NoDigit [] = Unit
NoDigit (c ∷ s) = is_digit c ≡ false

digit_is_digit : (c : ℕ) → b'0' ≤ c → c ≤ b'9' → is_digit c ≡ true
unfolding is_digit
digit_is_digit c low high = ground arith

ini_size_from-stop :
    (m : ℕ) (tail : Bytes)
    → m < 2 ^ 64
    → NoDigit tail
    → ini_size_from m tail ≡ m * unit_of tail % 2 ^ 64
unfolding ini_size_from NoDigit
ini_size_from-stop m [] h k = unfold unit_of in omega arith
ini_size_from-stop m (c ∷ s) h k = rw k refl

-- the digits of `ini_size`, in 64 bits
ini_size_from-read :
    (s tail : Bytes) (n : ℕ)
    → AllDigits s
    → NoDigit tail
    → ini_size_from (n % 2 ^ 64) (s ++ tail) ≡ read n s % 2 ^ 64 * unit_of tail % 2 ^ 64
unfolding read ini_size_from
ini_size_from-read [] tail n d h = ini_size_from-stop (n % 2 ^ 64) tail (omega arith) h
ini_size_from-read (c ∷ s) tail n (low, high, d) h =
    let step : (n % 2 ^ 64 * 10 + (c - b'0')) % 2 ^ 64 ≡ (n * 10 + (c - b'0')) % 2 ^ 64 =
      omega arith in
    rw (digit_is_digit c low high, step) (ini_size_from-read s tail (n * 10 + (c - b'0')) d h)

-- How many bytes a size counts for, by the byte behind its digits.
pub data SizeUnit : Bytes → ℕ → Type 0 where
  kilo : {s : Bytes} → SizeUnit (b'k' ∷ s) (2 ^ 10)
  capital_kilo : {s : Bytes} → SizeUnit (b'K' ∷ s) (2 ^ 10)
  mega : {s : Bytes} → SizeUnit (b'm' ∷ s) (2 ^ 20)
  capital_mega : {s : Bytes} → SizeUnit (b'M' ∷ s) (2 ^ 20)
  giga : {s : Bytes} → SizeUnit (b'g' ∷ s) (2 ^ 30)
  capital_giga : {s : Bytes} → SizeUnit (b'G' ∷ s) (2 ^ 30)
  at_end : SizeUnit [] 1
  other :
      {c : ℕ} {s : Bytes}
      → is_digit c ≡ false
      → c ≢ b'k'
      → c ≢ b'K'
      → c ≢ b'm'
      → c ≢ b'M'
      → c ≢ b'g'
      → c ≢ b'G'
      → SizeUnit (c ∷ s) 1

unit_of-SizeUnit : {tail : Bytes} {u : ℕ} → SizeUnit tail u → (unit_of tail ≡ u) × NoDigit tail
unfolding unit_of NoDigit is_digit
unit_of-SizeUnit SizeUnit.kilo = (refl, refl)
unit_of-SizeUnit SizeUnit.capital_kilo = (refl, refl)
unit_of-SizeUnit SizeUnit.mega = (refl, refl)
unit_of-SizeUnit SizeUnit.capital_mega = (refl, refl)
unit_of-SizeUnit SizeUnit.giga = (refl, refl)
unit_of-SizeUnit SizeUnit.capital_giga = (refl, refl)
unit_of-SizeUnit SizeUnit.at_end = (refl, tt)
unit_of-SizeUnit (SizeUnit.other {c} d k1 k2 m1 m2 g1 g2) = (
  rw
      (
        ne→== c b'k' k1,
        ne→== c b'K' k2,
        ne→== c b'm' m1,
        ne→== c b'M' m2,
        ne→== c b'g' g1,
        ne→== c b'G' g2,
      )
      refl,
  d,
)

-- A 64-bit number in decimal is read, in 64 bits, times 2^10 with a `k` or `K` behind it, times
-- 2^20 with an `m` or `M`, times 2^30 with a `g` or `G`, and as it is at the end of the text or
-- with any other byte behind it that is no digit.
pub ini_size-decimal :
    (v : ℕ) {tail : Bytes} {u : ℕ}
    → v < 2 ^ 64
    → SizeUnit tail u
    → ini_size (decimal 24 v ++ tail) ≡ v * u % 2 ^ 64
unfolding ini_size
ini_size-decimal v {tail} {u} h known =
    let (units, no_digit) = unit_of-SizeUnit known in
    let (reads, all) = decimal_lem v h in
    let same : v % 2 ^ 64 ≡ v = omega arith in
    ini_size_from-read (decimal 24 v) tail 0 all no_digit ∙ rw (reads, same, units) refl
