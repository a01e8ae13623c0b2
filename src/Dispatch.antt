-- ===== src/Dispatch.antt =====
-- src/hx_clog_core.c: the way of a log record to the sinks: its lines, the default one and one for each
-- sink with a format of its own, and their way through the queue or straight to the sinks.
pub mod Direct
pub mod Lines
pub mod Once
pub mod Queued
mod Tests
use mathlib.Core.Option
use hx_clog.Common.{
  ℕ, zero, suc, ◌+◌, ◌%◌, ◌^◌, Bool, true, false, not, ◌&&◌, ◌||◌, List, [], ◌∷◌, ◌++◌, Option,
  none, some, ltb, ◌==◌, if◌then◌else◌, Bytes, take,
}
use hx_clog.Status.{Status}
use hx_clog.Format.Record.{Tm, Record}
use hx_clog.Format.Retry
use hx_clog.Format.Retry.{FormatMode, Format, format_with_retry}
use hx_clog.CrashRing.{Ring, ring_push}
use hx_clog.Async.{Engine, Line, Outcome, enqueue}
use hx_clog.Sink.{Sink, Effect}
use hx_clog.Sink.Registry.{max_sinks, Sinks, emit_to_sinks}

-- `sizeof(line_stack)`: `HX_CLOG_STACK_BUF_SIZE + 256`
abbrev pub line_stack_size : ℕ
line_stack_size = 1024 + 256

-- of `g_core` the sinks, the mode and `written_lines`, with the crash ring and the engine
pub record Core : Type 0 where
  pub sinks : Sinks
  pub ring : Ring
  pub async : Bool
  pub engine : Engine
  pub written : ℕ

-- `hx_core_add_written`
unfoldable pub add_written : ℕ → Core → Core
add_written n c = record c { written = (c.written + n) % 2 ^ 64 }

-- `hx_core_emit_to_sinks`
unfoldable pub core_emit : Core → Line → Core × List Effect
core_emit c l =
    let (ss, out) = emit_to_sinks l.level (take l.size l.text) l.target c.sinks.sinks in
    let c' : Core = record c { sinks = record c.sinks { sinks = ss } } in
    (if l.count_stats then add_written 1 c' else c', out)

-- `malloc` is the allocator: the memory that it gives for a size, or none.
module _ (malloc : ℕ → Option Bytes) where
  -- what follows the call of `hx_async_enqueue`
  unfoldable pub enqueued : Core → Line → Outcome → Engine → Outcome × Core × List Effect
  enqueued c l (Outcome.returns Status.not_initialized report) e =
      let (c', out) = core_emit (record c { engine = e }) l in
      (Outcome.returns Status.ok report, c', out)
  enqueued c l Outcome.waits e = (Outcome.waits, record c { engine = e }, [])
  enqueued c l Outcome.loops e = (Outcome.loops, record c { engine = e }, [])
  enqueued c l (Outcome.returns s report) e =
      (Outcome.returns s report, record c { engine = e }, [])

  -- `core_dispatch_line`
  unfoldable pub dispatch_line : Core → Line → Outcome × Core × List Effect
  dispatch_line c l =
      if c.async
      then (let (o, e) = enqueue malloc c.engine l in enqueued c l o e)
      else (let (c', out) = core_emit c l in (Outcome.returns Status.ok false, c', out))

  -- the rest of a record's lines after one of them, unless its call does not return
  unfoldable pub goes_on :
      (Core → Core × List Effect × List Line)
      → List Line
      → Outcome × Core × List Effect
      → Core × List Effect × List Line
  goes_on rest ls (Outcome.returns s report, c, out) =
      let (c', outs, left) = rest c in (c', out ++ outs, left)
  goes_on rest ls (Outcome.waits, c, out) = (c, out, ls)
  goes_on rest ls (Outcome.loops, c, out) = (c, out, ls)

  -- The lines of a record one after the other, with the lines that are left where a call waits.
  unfoldable pub dispatch_lines : Core → List Line → Core × List Effect × List Line
  dispatch_lines c [] = (c, [], [])
  dispatch_lines c (l ∷ ls) = goes_on (λ c'. dispatch_lines c' ls) (l ∷ ls) (dispatch_line c l)

-- `override_snap_t`
pub record Override : Type 0 where
  pub id : ℕ
  pub mode : FormatMode
  pub pattern : Option Bytes

unfoldable pub snapshot : Sink → Override
snapshot s = record {
  id = s.id;
  mode = s.override_mode;
  pattern = if s.override_has_pattern then some s.override_pattern else none;
}

-- The loop that collects the overrides, with `ov_n` so far; with them is counted who has none.
unfoldable pub collect : ℕ → List Sink → List Override × ℕ
collect n [] = ([], 0)
collect n (s ∷ ss) =
    let own = s.override_set && ltb n max_sinks in
    let (ovs, defaults) = collect (if own then n + 1 else n) ss in
    if own
    then (snapshot s ∷ ovs, defaults)
    else if not s.override_set
    then (ovs, defaults + 1)
    else (ovs, defaults)

unfoldable pub is_empty : List Override → Bool
is_empty [] = true
is_empty (o ∷ os) = false

-- The format settings are those of the thread's snapshot, with a pattern. `stack k` is what
-- `line_stack` holds before the record is formatted for the `k`th time.
module _ (localtime : ℕ → Tm) (malloc : ℕ → Option Bytes) (stack : ℕ → Bytes) where
  -- the record in a format, as a line for a target
  unfoldable pub line_for : ℕ → Record → Format → ℕ → Bool → Line
  line_for k rec f target counts =
      let l = format_with_retry localtime malloc rec f (stack k) line_stack_size in
      record {
        level = rec.level;
        text = Retry.Line.line l;
        size = Retry.Line.len l;
        target = target;
        count_stats = counts;
      }

  -- the format of a sink that has its own
  unfoldable pub own_format : Format → Override → Format
  own_format f o = record {
    pattern = elim o.pattern [ none ↦ f.pattern | some p ↦ some p ];
    mode = o.mode;
    formatter = none;
  }

  unfoldable pub own_lines : ℕ → Record → Format → Bool → List Override → List Line
  own_lines k rec f counted [] = []
  own_lines k rec f counted (o ∷ os) =
      line_for k rec (own_format f o) o.id (not counted) ∷ own_lines (k + 1) rec f true os

  -- the lines of a record, the first of which counts
  unfoldable pub record_lines : Sinks → Record → Format → List Line
  record_lines r rec f =
      let some_own = ltb 0 r.override_count in
      let (ovs, defaults) = if some_own then collect 0 r.sinks else ([], 0) in
      let by_default = (if some_own then ltb 0 defaults else true) || is_empty ovs in
      let own = own_lines 1 rec f by_default ovs in
      if by_default then line_for 0 rec f 0 true ∷ own else own

  -- `core_dispatch_record` up to the flush that a FATAL record brings
  unfoldable pub dispatch_record : Core → Record → Format → Core × List Effect × List Line
  dispatch_record c rec f =
      let l = line_for 0 rec f 0 true in
      dispatch_lines malloc (record c { ring = ring_push c.ring l.text l.size })
        (record_lines c.sinks rec f)
