-- ===== src/Format/Retry/Exact.antt =====
-- `format_with_retry` hands out the whole line, or as much of it as its buffer holds.
use mathlib.Core.Option
use native.Mathlib.Decide.{dec_lt}
use hx_clog.Common.{
  ap, sym, lt→ltb, ge→ltb, true, false, ℕ, ◌+◌, ◌-◌, ◌^◌, ◌≤◌, ◌<◌, ◌≡◌, ◌∙◌, min, Option, none,
  some, arith, ltb, leb, ◌%◌, false, if◌then◌else◌, Bytes, length, take, take-of_le, Option-cases,
  inl, inr, [],
}
use hx_clog.Format.Appender.{uint_max}
use hx_clog.Format.Record.{Tm, Record}
use hx_clog.Format.Buffer.{Holds}
use hx_clog.Format.Pattern.{default_pattern}
use hx_clog.Format.Pattern.Text.{pattern_text, format_record_lem}
use hx_clog.Format.Json.Text.{members_text, date_text, format_json_record_lem}
use hx_clog.Format.Retry.{
  max_line, clamp_line, FormatMode, Format, Line, format_by_mode, format_line, grow_to,
  format_with_retry,
}

abbrev pub line_text : (ℕ → Tm) → Record → FormatMode → Option Bytes → Bytes
line_text localtime rec FormatMode.pattern p =
    pattern_text (localtime rec.timestamp_sec) rec (Option.get_or p default_pattern)
line_text localtime rec FormatMode.json p =
    members_text rec (date_text (localtime rec.timestamp_sec) rec [])

abbrev pub built_in : FormatMode → Option Bytes → Format
built_in mode p = record { pattern = p; mode = mode; formatter = none }

module _ (localtime : ℕ → Tm) (rec : Record) where
  format_line_lem :
      (mode : FormatMode) (p : Option Bytes) (out : Bytes) (out_size : ℕ)
      → 0 < out_size
      → out_size < 2 ^ 32
      → out_size ≤ length out
      → let text = line_text localtime rec mode p in
        (mem : Bytes) × (format_line localtime rec out out_size (built_in mode p)
          ≡ (min (length text) uint_max, some mem))
        × Holds out out_size text mem
  unfolding format_line format_by_mode
  format_line_lem FormatMode.pattern p out n h k l = format_record_lem localtime p rec out n h k l
  format_line_lem FormatMode.json p out n h k l = format_json_record_lem localtime rec out n h k l

-- the most bytes of `text` that can be handed out
abbrev pub room : (ℕ → Option Bytes) → ℕ → Bytes → ℕ
room malloc stack_size text =
    if ltb (length text) stack_size
    then stack_size - 1
    else elim (malloc (clamp_line (length text + 1))) [
      | none ↦ stack_size - 1
      | some _ ↦ max_line - 1
    ]

abbrev pub Gives : Bytes → ℕ → Line → Type 0
Gives text n r = (r.len ≡ min (length text) n) × (take r.len r.line ≡ take n text)

take-min : (n : ℕ) (xs : Bytes) → take (min (length xs) n) xs ≡ take n xs
take-min n xs = elim (dec_lt n (length xs)) [
  | yes h ↦ let e : min (length xs) n ≡ n = omega arith in rw e
  | no h ↦
      let e : min (length xs) n ≡ length xs = omega arith in
      rw e (take-of_le (length xs) xs (omega arith) ∙ sym (take-of_le n xs (omega arith)))
]

-- how much of the heap buffer counts
heap_len :
    (cap k : ℕ)
    → k < uint_max
    → cap ≡ min (k + 1) max_line
    → (if ltb (cap - 1) (min k uint_max) then cap - 1 else min k uint_max) ≡ min k (cap - 1)
heap_len cap k h c = ground arith

heap_room : (cap k : ℕ) → cap ≡ min (k + 1) max_line → cap - 1 ≡ min k (max_line - 1)
heap_room cap k c = omega arith

fits_iff :
    (n size : ℕ) → n < uint_max → size < 2 ^ 32 → n < size → leb ((n + 1) % 2 ^ 32) size ≡ true
fits_iff n size h k l = ground arith

fits_not : (n size : ℕ) → n < uint_max → size ≤ n → leb ((n + 1) % 2 ^ 32) size ≡ false
fits_not n size h k = ground arith

clamp_line_lem : (n : ℕ) → clamp_line n ≡ min n max_line
clamp_line_lem n = ground arith

module _ (localtime : ℕ → Tm) (malloc : ℕ → Option Bytes) (rec : Record) where
  -- the stack buffer's content, where the line is longer
  Gives-stack :
      (text mem stackbuf : Bytes) (n : ℕ)
      → Holds stackbuf n text mem
      → n ≤ length text
      → Gives text (n - 1) (record { heap = false; line = mem; len = n - 1 })
  Gives-stack text mem stackbuf n v h =
      let short : min (length text) (n - 1) ≡ n - 1 = omega arith in
      (sym short, ap (λ j. take j mem) (sym short) ∙ v.string)

  grow_to-none :
      (f : Format) (stack : Bytes) (n cap : ℕ)
      → malloc cap ≡ none
      → grow_to localtime malloc rec f stack n cap
        ≡ record { heap = false; line = stack; len = n - 1 }
  unfolding grow_to
  grow_to-none f stack n cap e = rw (e, grow_to)

  grow_to-some :
      (f : Format) (stack : Bytes) (n cap : ℕ) {hp mem : Bytes} {got : ℕ}
      → malloc cap ≡ some hp
      → format_line localtime rec hp cap f ≡ (got, some mem)
      → grow_to localtime malloc rec f stack n cap
        ≡ record { heap = true; line = mem; len = if ltb (cap - 1) got then cap - 1 else got }
  unfolding grow_to
  grow_to-some f stack n cap e g = rw (e, grow_to) (rw g)

  Gives-heap :
      (mode : FormatMode) (p : Option Bytes) (stack : Bytes) (n cap : ℕ) {hp : Bytes}
      → let text = line_text localtime rec mode p in
        length text < uint_max
        → cap ≡ min (length text + 1) max_line
        → malloc cap ≡ some hp
        → cap ≤ length hp
        → Gives text (max_line - 1) (grow_to localtime malloc rec (built_in mode p) stack n cap)
  Gives-heap mode p stack n cap {hp} big c e fits =
      let text = line_text localtime rec mode p in
      let (mem, printed, v) =
        format_line_lem localtime rec mode p hp cap (omega arith) (omega arith) fits in
      rw (grow_to-some (built_in mode p) stack n cap e printed) (
        rw (heap_len cap (length text) big c) (
          omega arith,
          v.string
              ∙ ap (λ j. take j text) (heap_room cap (length text) c)
              ∙ take-min (max_line - 1) text,
        ))

  Gives-grown :
      (mode : FormatMode) (p : Option Bytes) (stackbuf mem : Bytes) (n : ℕ)
      → let text = line_text localtime rec mode p in
        length text < uint_max
        → n ≤ length text
        → Holds stackbuf n text mem
        → ((k : ℕ) (m : Bytes) → malloc k ≡ some m → k ≤ length m)
        → Gives text
            (room malloc n text)
            (grow_to localtime malloc rec (built_in mode p) mem n (clamp_line (length text + 1)))
  Gives-grown mode p stackbuf mem n big long v gives =
      let text = line_text localtime rec mode p in
      let cap : ℕ = clamp_line (length text + 1) in
      rw (ge→ltb (length text) n long) (elim (Option-cases (malloc cap)) [
        | inl e ↦
            rw (grow_to-none (built_in mode p) mem n cap e, e)
              (Gives-stack text mem stackbuf n v long)
        | inr (hp, e) ↦
            rw e (
              Gives-heap mode p mem n cap big (clamp_line_lem (length text + 1)) e (gives cap hp e))
      ])

  -- With a built-in format and a text of less than 2^32 - 1 bytes, `format_with_retry` hands out
  -- the first bytes of the line's text, exactly as many as `room` allows: all of them if they fit
  -- in the stack buffer; else, if the allocator gives the memory it is asked for, all but what
  -- exceeds the cap on lines; and else what fits in the stack buffer. The size of the stack buffer
  -- is positive and below 2^32, the buffer has at least that many bytes, and what the allocator
  -- gives has at least the size asked for.
  pub format_with_retry_lem :
      (mode : FormatMode) (p : Option Bytes) (stackbuf : Bytes) (stack_size : ℕ)
      → 0 < stack_size
      → stack_size < 2 ^ 32
      → stack_size ≤ length stackbuf
      → length (line_text localtime rec mode p) < uint_max
      → ((n : ℕ) (m : Bytes) → malloc n ≡ some m → n ≤ length m)
      → let text = line_text localtime rec mode p in
        Gives text
          (room malloc stack_size text)
          (format_with_retry localtime malloc rec (built_in mode p) stackbuf stack_size)
  unfolding format_with_retry
  format_with_retry_lem mode p stackbuf stack_size h k l big gives =
      let text = line_text localtime rec mode p in
      let (mem, e, v) = format_line_lem localtime rec mode p stackbuf stack_size h k l in
      let whole : min (length text) uint_max ≡ length text = omega arith in
      rw e (
        rw (whole, lt→ltb (length text) uint_max big)
          (elim (dec_lt (length text) stack_size) [
            | yes short ↦
                let inside : min (length text) (stack_size - 1) ≡ length text = omega arith in
                rw
                  (
                    fits_iff (length text) stack_size big k short,
                    lt→ltb (length text) stack_size short,
                  )
                  (omega arith, ap (λ j. take j mem) (sym inside) ∙ v.string)
            | no long ↦
                rw (fits_not (length text) stack_size big (omega arith))
                  (Gives-grown mode p stackbuf mem stack_size big (omega arith) v gives)
          ]))
