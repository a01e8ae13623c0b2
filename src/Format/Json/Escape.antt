-- ===== src/Format/Json/Escape.antt =====
-- The escaping of texts: what it writes, and that a JSON reader takes it back.
use hx_clog.Common.{
  ℕ, zero, suc, ◌+◌, ◌-◌, ◌*◌, ◌/◌, ◌%◌, ◌<◌, ◌≡◌, refl, Bool, true, ◌&&◌, ◌||◌, [], ◌∷◌, ◌++◌,
  Option, none, some, append-nil, append_assoc, arith, ◌==◌, ltb, leb, if◌then◌else◌, Bool-cases,
  inl, inr, ==_iff, ltb→lt, lt→ltb, Bytes, length, take, take-of_le,
}
use mathlib.Core.Option
use hx_clog.Common.Tables.{passes, passes_lem}
use hx_clog.Format.Appender.{Appender, ap_char, ap_str}
use hx_clog.Format.View.{View, View-ap_char, View-ap_str, View-if}
use hx_clog.Format.Json.{hex, ap_json_byte, ap_json_first, ap_json_escaped, ap_json_cstr}

abbrev pub json_byte : ℕ → Bytes
json_byte c =
    if c == b'"'
    then b'\\' ∷ b'"' ∷ []
    else if c == b'\\'
    then b'\\' ∷ b'\\' ∷ []
    else if c == 8
    then b'\\' ∷ b'b' ∷ []
    else if c == 12
    then b'\\' ∷ b'f' ∷ []
    else if c == b'\n'
    then b'\\' ∷ b'n' ∷ []
    else if c == b'\r'
    then b'\\' ∷ b'r' ∷ []
    else if c == b'\t'
    then b'\\' ∷ b't' ∷ []
    else if ltb c 0x20
    then b'\\' ∷ b'u' ∷ b'0' ∷ b'0' ∷ hex (c / 16 % 16) ∷ hex (c % 16) ∷ []
    else c ∷ []

unfoldable pub json_text : Bytes → Bytes
json_text [] = []
json_text (c ∷ s) = json_byte c ++ json_text s

module _ {size cap : ℕ} {rest : Bytes} where
  View-ap_json_byte :
      {a : Appender} {text : Bytes} (c : ℕ)
      → View size cap rest a text
      → View size cap rest (ap_json_byte a c) (text ++ json_byte c)
  unfolding ap_json_byte
  View-ap_json_byte {a} {text} c v =
      View-if (c == b'"') text _ _ (View-ap_str (some (b'\\' ∷ b'"' ∷ [])) v) (
        View-if (c == b'\\') text _ _ (View-ap_str (some (b'\\' ∷ b'\\' ∷ [])) v) (
          View-if (c == 8) text _ _ (View-ap_str (some (b'\\' ∷ b'b' ∷ [])) v) (
            View-if (c == 12) text _ _ (View-ap_str (some (b'\\' ∷ b'f' ∷ [])) v) (
              View-if (c == b'\n') text _ _ (View-ap_str (some (b'\\' ∷ b'n' ∷ [])) v) (
                View-if (c == b'\r') text _ _ (View-ap_str (some (b'\\' ∷ b'r' ∷ [])) v) (
                  View-if (c == b'\t') text _ _ (View-ap_str (some (b'\\' ∷ b't' ∷ [])) v)
                    (View-if (ltb c 0x20) text _ _ hexed (View-ap_char c v))))))))
    where
      hexed :
          View size cap rest
            (ap_char
              (ap_char (ap_str a (some (b'\\' ∷ b'u' ∷ b'0' ∷ b'0' ∷ []))) (hex (c / 16 % 16)))
              (hex (c % 16)))
            (text ++ (b'\\' ∷ b'u' ∷ b'0' ∷ b'0' ∷ hex (c / 16 % 16) ∷ hex (c % 16) ∷ []))
      hexed = simp append_assoc at (
          View-ap_char (hex (c % 16)) (
            View-ap_char (hex (c / 16 % 16))
              (View-ap_str (some (b'\\' ∷ b'u' ∷ b'0' ∷ b'0' ∷ [])) v)))

  View-ap_json_first :
      (s : Bytes) (n : ℕ) {a : Appender} {text : Bytes}
      → View size cap rest a text
      → View size cap rest (ap_json_first a s n) (text ++ json_text (take n s))
  unfolding ap_json_first json_text
  View-ap_json_first s zero v = rw append-nil v
  View-ap_json_first [] (suc n) v = rw append-nil v
  View-ap_json_first (c ∷ s) (suc n) v =
      rw append_assoc at (View-ap_json_first s n (View-ap_json_byte c v))

  pub View-ap_json_escaped :
      (s : Option Bytes) (n : ℕ) {a : Appender} {text : Bytes}
      → View size cap rest a text
      → View size cap rest (ap_json_escaped a s n) (text ++ json_text (take n (Option.get_or s [])))
  unfolding ap_json_escaped json_text
  View-ap_json_escaped none zero v = rw append-nil v
  View-ap_json_escaped none (suc n) v = rw append-nil v
  View-ap_json_escaped (some s) n v = View-ap_json_first s n v

  pub View-ap_json_cstr :
      (s : Bytes) {a : Appender} {text : Bytes}
      → View size cap rest a text
      → View size cap rest (ap_json_cstr a (some s)) (text ++ json_text s)
  unfolding ap_json_cstr
  View-ap_json_cstr s v =
      rw (take-of_le (length s) s (omega arith)) at (View-ap_json_escaped (some s) (length s) v)

-- A reader of the rest of a JSON string, as RFC 8259 has it: where it stands in an escape.
pub data Mode : Type 0 where
  plain : Mode
  escape : Mode
  hexes : ℕ → ℕ → Mode

is_hex : ℕ → Bool
is_hex c = (leb b'0' c && leb c b'9') || (leb b'a' c && leb c b'f') || (leb b'A' c && leb c b'F')

hex_value : ℕ → ℕ
hex_value c = if leb b'a' c then c - b'a' + 10 else if leb b'A' c then c - b'A' + 10 else c - b'0'

next_mode : Mode → ℕ → Mode
next_mode plain c = if c == b'\\' then escape else plain
next_mode escape c = if c == b'u' then hexes 3 0 else plain
next_mode (hexes zero v) c = plain
next_mode (hexes (suc k) v) c = hexes k (v * 16 + hex_value c)

-- the byte that the letter behind a backslash stands for; no other letter may stand there
named_escape : ℕ → Option ℕ
named_escape c =
    if c == b'"' || c == b'\\' || c == b'/'
    then some c
    else if c == b'b'
    then some 8
    else if c == b'f'
    then some 12
    else if c == b'n'
    then some b'\n'
    else if c == b'r'
    then some b'\r'
    else if c == b't'
    then some b'\t'
    else none

add_byte : Option ℕ → Option (Bytes × Bytes) → Option (Bytes × Bytes)
add_byte none r = none
add_byte (some c) none = none
add_byte (some c) (some (s, rest)) = some (c ∷ s, rest)

-- The byte `c`, read in mode `m`, with what the bytes behind it give. A control byte may not stand
-- in a string, and a code in hexadecimal has four digits; of the codes this reader knows those of
-- ASCII.
read_byte : Mode → ℕ → Bytes → Option (Bytes × Bytes) → Option (Bytes × Bytes)
read_byte plain c rest r =
    if c == b'"'
    then some ([], rest)
    else if c == b'\\'
    then r
    else add_byte (if ltb c 0x20 then none else some c) r
read_byte escape c rest r = if c == b'u' then r else add_byte (named_escape c) r
read_byte (hexes zero v) c rest r =
    let code = v * 16 + hex_value c in
    add_byte (if is_hex c && ltb code 128 then some code else none) r
read_byte (hexes (suc k) v) c rest r = if is_hex c then r else none

-- the text of a JSON string up to its closing quote, and what follows
pub json_read : Mode → Bytes → Option (Bytes × Bytes)
unfolding next_mode read_byte named_escape hex_value is_hex add_byte
json_read m [] = none
json_read m (c ∷ s) = let r = json_read (next_mode m c) s in read_byte m c s r

-- each digit is one, and has its value
hex_digit : (d : ℕ) → d < 16 → (is_hex (hex d) ≡ true) × (hex_value (hex d) ≡ d)
unfolding passes hex_value is_hex
hex_digit d h = (
  passes_lem (λ k. is_hex (hex k)) 16 h refl,
  (==_iff (hex_value (hex d)) d).0 (passes_lem (λ k. hex_value (hex k) == k) 16 h refl),
)

-- a code in four digits, the first two of which are 0
read-hexes :
    (c : ℕ) (s : Bytes)
    → c < 32
    → json_read plain (b'\\' ∷ b'u' ∷ b'0' ∷ b'0' ∷ hex (c / 16 % 16) ∷ hex (c % 16) ∷ s)
      ≡ add_byte (some c) (json_read plain s)
unfolding json_read is_hex hex_value
read-hexes c s h =
    let (first, high) = hex_digit (c / 16 % 16) (omega arith) in
    let (second, low) = hex_digit (c % 16) (omega arith) in
    let code : (0 + c / 16 % 16) * 16 + c % 16 ≡ c = omega arith in
    let small : ltb c 128 ≡ true = lt→ltb c 128 (omega arith) in
    rw (first, second, high, low, code, small) refl

read-json_byte :
    (c : ℕ) (s : Bytes)
    → c < 256
    → json_read plain (json_byte c ++ s) ≡ add_byte (some c) (json_read plain s)
unfolding json_read
read-json_byte c s h = elim (Bool-cases (c == b'"')) [
  | inl e ↦ rw ((==_iff c b'"').0 e) refl
  | inr e1 ↦ elim (Bool-cases (c == b'\\')) [
    | inl e ↦ rw ((==_iff c b'\\').0 e) refl
    | inr e2 ↦ elim (Bool-cases (c == 8)) [
      | inl e ↦ rw ((==_iff c 8).0 e) refl
      | inr e3 ↦ elim (Bool-cases (c == 12)) [
        | inl e ↦ rw ((==_iff c 12).0 e) refl
        | inr e4 ↦ elim (Bool-cases (c == b'\n')) [
          | inl e ↦ rw ((==_iff c b'\n').0 e) refl
          | inr e5 ↦ elim (Bool-cases (c == b'\r')) [
            | inl e ↦ rw ((==_iff c b'\r').0 e) refl
            | inr e6 ↦ elim (Bool-cases (c == b'\t')) [
              | inl e ↦ rw ((==_iff c b'\t').0 e) refl
              | inr e7 ↦ elim (Bool-cases (ltb c 0x20)) [
                | inl low ↦
                    rw (e1, e2, e3, e4, e5, e6, e7, low)
                      (read-hexes c s (omega (arith, ltb→lt c 0x20 low)))
                | inr high ↦ rw (e1, e2, e3, e4, e5, e6, e7, high, e1, e2, high) refl
              ]
            ]
          ]
        ]
      ]
    ]
  ]
]

abbrev pub AllBytes : Bytes → Type 0
AllBytes [] = Unit
AllBytes (c ∷ s) = (c < 256) × AllBytes s

read-json_text :
    (s rest : Bytes) → AllBytes s → json_read plain (json_text s ++ b'"' ∷ rest) ≡ some (s, rest)
unfolding json_text add_byte
read-json_text [] rest h = unfold json_read in refl
read-json_text (c ∷ s) rest h =
    rw (append_assoc, read-json_byte c (json_text s ++ b'"' ∷ rest) h.0, read-json_text s rest h.1)

module _ {size cap : ℕ} {rest : Bytes} where
  -- To an appender that holds a text, `ap_json_escaped` appends an escaped form of the first `n`
  -- bytes of its text, from which, with a closing quote behind it, a reader of JSON strings gets
  -- those very bytes. The reader is strict: it takes no control byte, no escape but those of RFC
  -- 8259, and no digit that is not hexadecimal. Bytes above 127 it takes as they are.
  pub ap_json_escaped_lem :
      (s : Bytes) (n : ℕ) (more : Bytes) {a : Appender} {text : Bytes}
      → AllBytes (take n s)
      → View size cap rest a text
      → (e : Bytes) × View size cap rest (ap_json_escaped a (some s) n) (text ++ e)
        × (json_read plain (e ++ b'"' ∷ more) ≡ some (take n s, more))
  ap_json_escaped_lem s n more h v =
      (json_text (take n s), View-ap_json_escaped (some s) n v, read-json_text (take n s) more h)
