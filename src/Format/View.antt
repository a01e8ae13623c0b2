-- ===== src/Format/View.antt =====
-- What the functions of the appender write: `View` says that an appender holds the first bytes
-- of an unbounded text, and has counted the whole of it.
use mathlib.Core.Option
use hx_clog.Common.{
  Bool, true, false, ℕ, zero, suc, ◌+◌, ◌-◌, ◌^◌, ◌≤◌, ◌<◌, min, ◌≡◌, ◌∙◌, ap, sym, [], ◌∷◌, ◌++◌,
  reverse, Option, none, some, append-nil, append_assoc, arith, ◌==◌, if◌then◌else◌, Bool-cases,
  inl, inr, Bytes, length, take, drop, set, replicate, length-append, length-set, take-of_le,
  take-append_le, take-set, drop-set,
}
use native.Mathlib.Numerals.{add-one}
use native.Mathlib.Decide.{dec_lt}
use hx_clog.Format.Appender.{
  uint_max, Appender, ap_char, ap_each, ap_str, ap_first, ap_strn, digits, ap_uint, ap_ull,
  ap_zeros, pad_digits, ap_uint_pad,
}

-- The memory is `size` bytes, and ends in `rest` behind the `cap` bytes of the buffer.
pub record View (size cap : ℕ) (rest : Bytes) (a : Appender) (text : Bytes) : Type 0 where
  pub cap_eq : a.cap ≡ cap
  pub size_eq : length a.buf ≡ size
  pub cap_pos : 0 < cap
  pub cap_u32 : cap < 2 ^ 32
  pub fits : cap ≤ size
  pub pos_eq : a.pos ≡ min (length text) (cap - 1)
  pub written : take a.pos a.buf ≡ take (cap - 1) text
  pub needed_eq : a.needed ≡ min (length text) uint_max
  pub untouched : drop cap a.buf ≡ rest

-- the decimal text of a number with at most `room` digits
abbrev pub decimal : ℕ → ℕ → Bytes
decimal room n = if n == 0 then b'0' ∷ [] else reverse (digits room n)

-- at least `width` digits, with zeros in front
abbrev pub padded : ℕ → ℕ → Bytes
padded width n = let tmp = pad_digits n in replicate (width - length tmp) b'0' ++ reverse tmp

-- `ap_bump` on the counter
abbrev bumped : ℕ → ℕ
bumped n = if n == uint_max then n else n + 1

bumped-min : (n : ℕ) → bumped (min n uint_max) ≡ min (n + 1) uint_max
bumped-min n = ground arith

ap_char_room :
    (a : Appender) (c : ℕ)
    → a.pos + 1 < a.cap
    → a.cap < 2 ^ 32
    → ap_char a c
      ≡ record { buf = set a.buf a.pos c; cap = a.cap; pos = a.pos + 1; needed = bumped a.needed }
unfolding ap_char
ap_char_room a c h k = ground arith

ap_char_full :
    (a : Appender) (c : ℕ)
    → a.cap ≤ a.pos + 1
    → a.pos + 1 < 2 ^ 32
    → ap_char a c ≡ record a { needed = bumped a.needed }
unfolding ap_char
ap_char_full a c h k = ground arith

bumped-append :
    {n : ℕ} (text : Bytes) (c : ℕ)
    → n ≡ min (length text) uint_max
    → bumped n ≡ min (length (text ++ c ∷ [])) uint_max
bumped-append text c e =
    ap bumped e
    ∙ bumped-min (length text)
    ∙ ap (λ n. min n uint_max) (sym (length-append text (c ∷ [])))

take-set_append :
    (k pos : ℕ) (buf text : Bytes) (c : ℕ)
    → pos < length buf
    → length text < k
    → take pos buf ≡ take k text
    → take (pos + 1) (set buf pos c) ≡ take k (text ++ c ∷ [])
take-set_append k pos buf text c h l e =
    rw add-one (take-set pos buf c h)
    ∙ ap (λ t. t ++ c ∷ []) (e ∙ take-of_le k text (omega arith))
    ∙ sym (take-of_le k (text ++ c ∷ []) (omega (arith, length-append text (c ∷ []))))

module _ {size cap : ℕ} {rest : Bytes} where
  View-room :
      {a : Appender} (text : Bytes) (c : ℕ)
      → View size cap rest a text
      → length text < cap - 1
      → View size cap rest (ap_char a c) (text ++ c ∷ [])
  View-room {a} text c v h = rw (ap_char_room a c (omega (arith, v)) (omega (arith, v))) (record {
    cap_eq = v.cap_eq;
    size_eq = length-set a.buf a.pos c ∙ v.size_eq;
    cap_pos = v.cap_pos;
    cap_u32 = v.cap_u32;
    fits = v.fits;
    pos_eq = omega (arith, length-append text (c ∷ []));
    written = take-set_append (cap - 1) a.pos a.buf text c (omega arith) h v.written;
    needed_eq = bumped-append text c v.needed_eq;
    untouched = drop-set cap a.pos a.buf c (omega arith) ∙ v.untouched;
  })

  View-full :
      {a : Appender} (text : Bytes) (c : ℕ)
      → View size cap rest a text
      → cap - 1 ≤ length text
      → View size cap rest (ap_char a c) (text ++ c ∷ [])
  View-full {a} text c v h = rw (ap_char_full a c (omega (arith, v)) (omega (arith, v))) (record {
    cap_eq = v.cap_eq;
    size_eq = v.size_eq;
    cap_pos = v.cap_pos;
    cap_u32 = v.cap_u32;
    fits = v.fits;
    pos_eq = omega (arith, length-append text (c ∷ []));
    written = v.written ∙ sym (take-append_le (cap - 1) text (c ∷ []) h);
    needed_eq = bumped-append text c v.needed_eq;
    untouched = v.untouched;
  })

  pub View-ap_char :
      {a : Appender} {text : Bytes} (c : ℕ)
      → View size cap rest a text
      → View size cap rest (ap_char a c) (text ++ c ∷ [])
  View-ap_char {a} {text} c v = elim (dec_lt (length text) (cap - 1)) [
    | yes h ↦ View-room text c v h
    | no h ↦ View-full text c v (omega arith)
  ]

  pub View-ap_each :
      (s : Bytes) {a : Appender} {text : Bytes}
      → View size cap rest a text
      → View size cap rest (ap_each a s) (text ++ s)
  unfolding ap_each
  View-ap_each [] v = rw append-nil v
  View-ap_each (c ∷ s) v = rw append_assoc at (View-ap_each s (View-ap_char c v))

  pub View-ap_str :
      {a : Appender} {text : Bytes} (s : Option Bytes)
      → View size cap rest a text
      → View size cap rest (ap_str a s) (text ++ Option.get_or s [])
  unfolding ap_str
  View-ap_str none v = rw append-nil v
  View-ap_str (some s) v = View-ap_each s v

  View-ap_first :
      (s : Bytes) (n : ℕ) {a : Appender} {text : Bytes}
      → View size cap rest a text
      → View size cap rest (ap_first a s n) (text ++ take n s)
  unfolding ap_first
  View-ap_first s zero v = rw append-nil v
  View-ap_first [] (suc n) v = rw append-nil v
  View-ap_first (c ∷ s) (suc n) v = rw append_assoc at (View-ap_first s n (View-ap_char c v))

  pub View-ap_strn :
      {a : Appender} {text : Bytes} (s : Option Bytes) (n : ℕ)
      → View size cap rest a text
      → View size cap rest (ap_strn a s n) (text ++ take n (Option.get_or s []))
  unfolding ap_strn
  View-ap_strn none zero v = rw append-nil v
  View-ap_strn none (suc n) v = rw append-nil v
  View-ap_strn (some s) n v = View-ap_first s n v

  View-ap_zeros :
      (n : ℕ) {a : Appender} {text : Bytes}
      → View size cap rest a text
      → View size cap rest (ap_zeros a n) (text ++ replicate n b'0')
  unfolding ap_zeros
  View-ap_zeros zero v = rw append-nil v
  View-ap_zeros (suc n) v = rw append_assoc at (View-ap_zeros n (View-ap_char b'0' v))

  pub View-ap_uint :
      {a : Appender} {text : Bytes} (n : ℕ)
      → View size cap rest a text
      → View size cap rest (ap_uint a n) (text ++ decimal 24 n)
  unfolding ap_uint
  View-ap_uint n v = elim (Bool-cases (n == 0)) [
    | inl e ↦ rw e (View-ap_char b'0' v)
    | inr e ↦ rw e (View-ap_each (reverse (digits 24 n)) v)
  ]

  pub View-ap_ull :
      {a : Appender} {text : Bytes} (n : ℕ)
      → View size cap rest a text
      → View size cap rest (ap_ull a n) (text ++ decimal 32 n)
  unfolding ap_ull
  View-ap_ull n v = elim (Bool-cases (n == 0)) [
    | inl e ↦ rw e (View-ap_char b'0' v)
    | inr e ↦ rw e (View-ap_each (reverse (digits 32 n)) v)
  ]

  pub View-ap_uint_pad :
      {a : Appender} {text : Bytes} (n width : ℕ)
      → View size cap rest a text
      → View size cap rest (ap_uint_pad a n width) (text ++ padded width n)
  unfolding ap_uint_pad
  View-ap_uint_pad {text = text} n width v =
      let tmp = pad_digits n in
      rw append_assoc at (View-ap_each (reverse tmp) (View-ap_zeros (width - length tmp) v))

  pub View-if :
      (b : Bool) {x y : Appender} (text s t : Bytes)
      → View size cap rest x (text ++ s)
      → View size cap rest y (text ++ t)
      → View size cap rest (if b then x else y) (text ++ (if b then s else t))
  View-if true text s t v w = v
  View-if false text s t v w = w
