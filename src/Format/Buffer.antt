-- ===== src/Format/Buffer.antt =====
-- src/hx_clog_format.c: how both formatters begin and end with the caller's buffer.
use hx_clog.Common.{
  ℕ, ◌-◌, ◌^◌, ◌≤◌, ◌<◌, min, ◌≡◌, refl, ◌∙◌, sym, ap, [], Option, some, arith, Bytes, length, take,
  drop, get_or, set, length-set, take-set_ge, drop-set, get_or-set_self, take-of_le,
}
use hx_clog.Format.Appender.{uint_max, Appender}
use hx_clog.Format.View.{View}

-- The appender before the first byte, and its memory with the NUL behind the last.
abbrev pub start : Bytes → ℕ → Appender
start out out_size = record { buf = out; cap = out_size; pos = 0; needed = 0 }

abbrev pub finish : Appender → ℕ × Option Bytes
finish a = (a.needed, some (set a.buf a.pos 0))

-- `mem` is the memory at `out` after `text` was printed into its first `out_size` bytes: as much
-- of the text as fits, a NUL, and what stood behind those bytes before.
pub record Holds (out : Bytes) (out_size : ℕ) (text mem : Bytes) : Type 0 where
  pub size : length mem ≡ length out
  pub string : take (min (length text) (out_size - 1)) mem ≡ take (out_size - 1) text
  pub terminated : get_or mem (min (length text) (out_size - 1)) 1 ≡ 0
  pub beyond : drop out_size mem ≡ drop out_size out

pub View-start :
    (out : Bytes) (out_size : ℕ)
    → 0 < out_size
    → out_size < 2 ^ 32
    → out_size ≤ length out
    → View (length out) out_size (drop out_size out) (start out out_size) []
View-start out out_size h k l = record {
  cap_eq = refl;
  size_eq = refl;
  cap_pos = h;
  cap_u32 = k;
  fits = l;
  pos_eq = omega arith;
  written = sym (take-of_le (out_size - 1) [] (omega arith));
  needed_eq = omega arith;
  untouched = refl;
}

pub View-finish :
    {out : Bytes} {cap : ℕ} {a : Appender} (text : Bytes)
    → View (length out) cap (drop cap out) a text
    → (mem : Bytes) × (finish a ≡ (min (length text) uint_max, some mem)) × Holds out cap text mem
View-finish {out} {cap} {a} text v =
    let mem = set a.buf a.pos 0 in
    (
      mem,
      ap (λ n. (n, some mem)) v.needed_eq,
      record {
        size = length-set a.buf a.pos 0 ∙ v.size_eq;
        string = rw (← v.pos_eq) (take-set_ge a.pos a.pos a.buf 0 (omega arith) ∙ v.written);
        terminated = rw (← v.pos_eq) (get_or-set_self a.buf a.pos 0 1 (omega arith));
        beyond = drop-set cap a.pos a.buf 0 (omega arith) ∙ v.untouched;
      },
    )
