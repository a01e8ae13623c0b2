-- ===== src/Format/Retry.antt =====
-- src/hx_clog_core.c: `format_line` and `format_with_retry`, which print a record into a stack
-- buffer and, if it does not fit, into a heap buffer; src/hx_clog_internal.h: `hx_clamp_line`, in
-- the build with the default cap on lines.
pub mod Exact
use mathlib.Core.Option
use hx_clog.Common.{
  true, false, ℕ, ◌+◌, ◌-◌, ◌*◌, ◌%◌, ◌^◌, Bool, Option, none, some, ltb, leb, ◌==◌, if◌then◌else◌,
  Bytes, set,
}
use hx_clog.Format.Appender.{uint_max}
use hx_clog.Format.Record.{Tm, Record}
use hx_clog.Format.Pattern.{format_record}
use hx_clog.Format.Json.{format_json_record}

-- `HX_CLOG_MAX_LINE`
abbrev pub max_line : ℕ
max_line = 512 * 1024

abbrev pub clamp_line : ℕ → ℕ
clamp_line need = if ltb max_line need then max_line else need

-- `hx_clog_formatter_t`, the application's: it returns a length, and may write to the buffer.
abbrev pub Formatter : Type 0
Formatter = Record → Bytes → ℕ → ℕ × Bytes

pub data FormatMode : Type 0 where
  pattern json : FormatMode

pub record Format : Type 0 where
  pub pattern : Option Bytes
  pub mode : FormatMode
  pub formatter : Option Formatter

-- what `format_with_retry` hands out; `line` is the memory, of which `len` bytes count
pub record Line : Type 0 where
  pub heap : Bool
  pub line : Bytes
  pub len : ℕ

module _ (localtime : ℕ → Tm) where
  pub format_by_mode : FormatMode → Option Bytes → Record → Bytes → ℕ → ℕ × Option Bytes
  format_by_mode FormatMode.json p rec out out_size =
      format_json_record localtime rec (some out) out_size
  format_by_mode FormatMode.pattern p rec out out_size =
      format_record localtime p rec (some out) out_size

  -- The buffers of the two callers are never null.
  pub format_line : Record → Bytes → ℕ → Format → ℕ × Option Bytes
  unfolding format_by_mode
  format_line rec out out_size f = elim f.formatter [
    | none ↦ format_by_mode f.mode f.pattern rec out out_size
    | some g ↦
        let (n, mem) = g rec out out_size in
        let w = if leb out_size n then out_size - 1 else n in
        (n, some (if ltb 0 out_size then set mem w 0 else mem))
  ]

  -- `malloc` is the allocator: the memory that it gives for a size, or none.
  module _ (malloc : ℕ → Option Bytes) where
    -- the retry with a heap buffer of `cap` bytes, with the stack buffer's content at hand
    pub grow_to : Record → Format → Bytes → ℕ → ℕ → Line
    grow_to rec f stack stack_size cap = elim (malloc cap) [
      | none ↦ record { heap = false; line = stack; len = stack_size - 1 }
      | some hp ↦
          let (got, h) = format_line rec hp cap f in
          record {
            heap = true;
            line = Option.get_or h hp;
            len = if ltb (cap - 1) got then cap - 1 else got;
          }
    ]

    pub format_with_retry : Record → Format → Bytes → ℕ → Line
    format_with_retry rec f stackbuf stack_size =
        let (needed, m) = format_line rec stackbuf stack_size f in
        let stack = Option.get_or m stackbuf in
        if leb ((needed + 1) % 2 ^ 32) stack_size
        then record { heap = false; line = stack; len = needed }
        else let want = if ltb needed uint_max then needed + 1 else uint_max in
          grow_to rec f stack stack_size (clamp_line want)
