-- ===== src/Rotate/Scan.antt =====
-- src/hx_clog_rotate.c: the numbers that `sscanf` reads in an archive's name.
use hx_clog.Common.{
  ℕ, zero, suc, ◌+◌, ◌-◌, ◌*◌, ◌^◌, ◌≤◌, ◌<◌, ◌≡◌, ◌⊎◌, refl, ◌∙◌, sym, ap, inl, inr, [], ◌∷◌, ◌++◌,
  append_assoc, arith, ◌==◌, ==_iff, ne→==, Bool-cases, Bytes, some, length, reverse, replicate,
}
use native.Mathlib.Decide.{dec_lt}
use hx_clog.Common.Int.{ℤ}
use hx_clog.Format.Record.{Tm}
use hx_clog.Format.Appender.{digits, pad_digits}
use hx_clog.Format.View.{decimal, padded}
use hx_clog.Format.Decimal.{
  read, AllDigits, AllDigits-append, AllDigits-digits, read-padded, decimal_lem, length-padded,
}
use hx_clog.Rotate.{is_digit, skip_spaces}
use hx_clog.Rotate.Match.{
  scan_digits, scan_unsigned, scan_signed, scan_int, scan_byte, Stamp, scan_stamp,
}
use hx_clog.Rotate.Fresh.{Stops, digit_is_digit, digit_is_no_space}

AllDigits-replicate : (n : ℕ) → AllDigits (replicate n b'0')
AllDigits-replicate zero = tt
AllDigits-replicate (suc n) = (omega arith, omega arith, AllDigits-replicate n)

AllDigits-pad_digits : (v : ℕ) → AllDigits (reverse (pad_digits v))
AllDigits-pad_digits v = elim (dec_lt 0 v) [
  | yes p ↦ rw (ne→== v 0 (omega arith)) (AllDigits-digits 16 v)
  | no p ↦ let z : v ≡ 0 = omega arith in rw z (unfold digits in (omega arith, omega arith, tt))
]

AllDigits-padded : (width v : ℕ) → AllDigits (padded width v)
AllDigits-padded width v =
    AllDigits-append (replicate (width - length (pad_digits v)) b'0') (reverse (pad_digits v))
      (AllDigits-replicate (width - length (pad_digits v))) (AllDigits-pad_digits v)

-- a number of at most `room` digits that its width or what follows it ends
abbrev pub Ends : ℕ → Bytes → Bytes → Type 0
Ends room s tail = (length s ≡ room) ⊎ ((length s ≤ room) × Stops tail)

scan_digits-append :
    (room n : ℕ) (s tail : Bytes)
    → AllDigits s
    → Ends room s tail
    → scan_digits room n (s ++ tail) ≡ (read n s, tail)
unfolding scan_digits read Stops
scan_digits-append zero n [] tail d h = refl
scan_digits-append zero n (c ∷ s) tail d (inl e) = absurd (omega arith)
scan_digits-append zero n (c ∷ s) tail d (inr (e, k)) = absurd (omega arith)
scan_digits-append (suc room) n [] tail d (inl e) = absurd (omega arith)
scan_digits-append (suc room) n [] [] d (inr (e, k)) = refl
scan_digits-append (suc room) n [] (c ∷ tail) d (inr (e, k)) = rw k (unfold is_digit in refl)
scan_digits-append (suc room) n (c ∷ s) tail (low, high, d) (inl e) =
    rw (digit_is_digit c low high)
      (scan_digits-append room (n * 10 + (c - b'0')) s tail d (inl (omega arith)))
scan_digits-append (suc room) n (c ∷ s) tail (low, high, d) (inr (e, k)) =
    rw (digit_is_digit c low high)
      (scan_digits-append room (n * 10 + (c - b'0')) s tail d (inr (omega arith, k)))

pub scan_int-append :
    (room : ℕ) (s tail : Bytes)
    → AllDigits s
    → 0 < length s
    → Ends room s tail
    → scan_int room (s ++ tail) ≡ some (ℤ.pos (read 0 s), tail)
unfolding scan_int skip_spaces scan_signed scan_unsigned read
scan_int-append room [] tail d l h = absurd (omega arith)
scan_int-append zero (c ∷ s) tail d l (inl e) = absurd (omega arith)
scan_int-append zero (c ∷ s) tail d l (inr (e, k)) = absurd (omega arith)
scan_int-append (suc room) (c ∷ s) tail (low, high, d) l h =
    let ends : Ends room s tail = elim h [
      | inl e ↦ inl (omega arith)
      | inr (e, k) ↦ inr (omega arith, k)
    ] in
    let zero_left : c - b'0' ≡ 0 + (c - b'0') = omega arith in
    rw
      (
        digit_is_no_space c low high,
        ne→== c b'-' (omega arith),
        ne→== c b'+' (omega arith),
        digit_is_digit c low high,
        scan_digits-append room (c - b'0') s tail d ends,
      )
      (ap (λ n. some (ℤ.pos (read n s), tail)) zero_left)

unfoldable pub stamp_of : Tm → ℕ → Stamp
stamp_of tmv index = record {
  year = ℤ.pos (tmv.tm_year + 1900);
  mon = ℤ.pos (tmv.tm_mon + 1);
  day = ℤ.pos tmv.tm_mday;
  index = ℤ.pos index;
}

-- a field of the date, that its width ends
pub field :
    (width v : ℕ) (tail : Bytes)
    → 0 < width
    → v < 10 ^ width
    → v < 10 ^ 16
    → scan_int width (padded width v ++ tail) ≡ some (ℤ.pos v, tail)
field width v tail k h l =
    let len = length-padded width v k h in
    scan_int-append width (padded width v) tail (AllDigits-padded width v) (omega (arith, len))
      (inl len)
    ∙ ap (λ n. some (ℤ.pos n, tail)) (read-padded width v l)

scan_byte_self : (c : ℕ) (s : Bytes) → scan_byte c (c ∷ s) ≡ some s
unfolding scan_byte
scan_byte_self c s = rw ((==_iff c c).1 refl) refl

-- four fields that are read one after the other
pub scan_stamp-fields :
    (text s1 s2 s3 tail : Bytes) (y m d i : ℤ)
    → scan_int 4 text ≡ some (y, b'-' ∷ s1)
    → scan_int 2 s1 ≡ some (m, b'-' ∷ s2)
    → scan_int 2 s2 ≡ some (d, b'.' ∷ s3)
    → scan_int (length s3) s3 ≡ some (i, tail)
    → scan_stamp text ≡ some (record { year = y; mon = m; day = d; index = i }, tail)
unfolding scan_stamp
scan_stamp-fields text s1 s2 s3 tail y m d i ey em ed ei =
    rw (ey, scan_byte_self b'-' s1, em, scan_byte_self b'-' s2, ed, scan_byte_self b'.' s3, ei) refl

pub dashed :
    (a b c t : Bytes) → (a ++ b'-' ∷ b ++ b'-' ∷ c) ++ t ≡ a ++ b'-' ∷ (b ++ b'-' ∷ (c ++ t))
dashed a b c t =
    append_assoc (a ++ b'-' ∷ b) (b'-' ∷ c) t ∙ append_assoc a (b'-' ∷ b) (b'-' ∷ (c ++ t))

nothing : (s : Bytes) → length s ≤ 0 → s ≡ []
nothing [] h = refl
nothing (c ∷ s) h = absurd (omega arith)

pub length-decimal_pos : (v : ℕ) → v < 2 ^ 64 → 0 < length (decimal 24 v)
unfolding read
length-decimal_pos v h = elim (Bool-cases (v == 0)) [
  | inl e ↦ rw e (omega arith)
  | inr e ↦ elim (dec_lt 0 (length (decimal 24 v))) [
    | yes p ↦ p
    | no p ↦
        let empty : decimal 24 v ≡ [] = nothing (decimal 24 v) (omega arith) in
        let z : v ≡ 0 = sym (decimal_lem v h).0 ∙ ap (read 0) empty in cc (e, (==_iff v 0).1 z)
  ]
]
