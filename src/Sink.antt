-- ===== src/Sink.antt =====
-- src/hx_clog_sink.c, and `struct hx_clog_sink` of src/hx_clog_internal.h: a sink, and what a line, a
-- flush and its end do at it, in a POSIX build with syslog and with colours. A text is the bytes at
-- `data`, as many as `size` says.
pub mod Registry
pub mod Parts
pub mod Invariant
pub mod Valid
pub mod Emit
pub mod Shown
pub mod Reach
mod Tests
use hx_clog.Common.{
  ℕ, Bool, true, false, ◌&&◌, List, [], ◌∷◌, Option, none, some, ltb, leb, ◌==◌, if◌then◌else◌,
  Bytes, codes,
}
use hx_clog.Level.{trace, debug, info, warn, error, fatal}
use hx_clog.Format.Retry.{FormatMode}

pub data Stream : Type 0 where
  stdout stderr : Stream

-- `console_impl`; `none` is a null pointer
pub record Console : Type 0 where
  pub out : Option Stream
  pub err : Option Stream
  pub enable_color : Bool
  pub color_out_tty : Bool
  pub color_err_tty : Bool

-- the kind of a sink with what its `impl` holds for this layer, for a callback its `last_level`
pub data Kind : Type 0 where
  console : Console → Kind
  file : Kind
  callback : ℕ → Kind
  syslog event_log android_log apple_log network : Kind

-- `handle` stands for the sink's address
pub record Sink : Type 0 where
  pub kind : Kind
  pub handle : ℕ
  pub is_file : Bool
  pub id : ℕ
  pub min_level : ℕ
  pub override_set : Bool
  pub override_mode : FormatMode
  pub override_has_pattern : Bool
  pub override_pattern : Bytes

-- What happens outside: a text on a stream, a call of the application's callback of a sink, an entry
-- for syslog, and the calls of a sink's vtable, which the sinks for files and networks implement.
pub data Effect : Type 0 where
  prints : Stream → Bytes → Effect
  calls : ℕ → ℕ → Bytes → Effect
  logs : ℕ → Bytes → Effect
  writes : ℕ → Bytes → Effect
  flushes : ℕ → Effect
  closes : ℕ → Effect

unfoldable pub level_color : ℕ → Bytes
level_color level =
    if level == trace
    then 27 ∷ codes "[37m"
    else if level == debug
    then 27 ∷ codes "[36m"
    else if level == info
    then 27 ∷ codes "[32m"
    else if level == warn
    then 27 ∷ codes "[33m"
    else if level == error
    then 27 ∷ codes "[31m"
    else if level == fatal
    then 27 ∷ codes "[1;41m"
    else 27 ∷ codes "[0m"

abbrev pub color_reset : Bytes
color_reset = 27 ∷ codes "[0m"

-- `LOG_CRIT`, `LOG_ERR`, `LOG_WARNING`, `LOG_INFO` and `LOG_DEBUG`
abbrev pub log_crit : ℕ
log_crit = 2

abbrev pub log_err : ℕ
log_err = 3

abbrev pub log_warning : ℕ
log_warning = 4

abbrev pub log_info : ℕ
log_info = 6

abbrev pub log_debug : ℕ
log_debug = 7

-- the priority of a level, in `system_sink_emit`
unfoldable pub priority : ℕ → ℕ
priority level =
    if level == trace
    then log_debug
    else if level == debug
    then log_debug
    else if level == info
    then log_info
    else if level == warn
    then log_warning
    else if level == error
    then log_err
    else if level == fatal
    then log_crit
    else log_info

-- equality of two pointers to streams
unfoldable pub same_stream : Option Stream → Option Stream → Bool
same_stream none none = true
same_stream (some Stream.stdout) (some Stream.stdout) = true
same_stream (some Stream.stderr) (some Stream.stderr) = true
same_stream (some Stream.stdout) (some Stream.stderr) = false
same_stream (some Stream.stderr) (some Stream.stdout) = false
same_stream (some x) none = false
same_stream none (some x) = false

unfoldable pub is_open : Option Stream → Bool
is_open none = false
is_open (some x) = true

unfoldable pub stream_of : Option Stream → Stream
stream_of none = Stream.stdout
stream_of (some x) = x

-- `hx_sink_console_emit`
unfoldable pub console_emit : Console → ℕ → Bytes → List Effect
console_emit c level text =
    let target = if leb warn level && is_open c.err then c.err else c.out in
    let tty = if same_stream target c.err then c.color_err_tty else c.color_out_tty in
    let s = stream_of target in
    if c.enable_color && tty
    then Effect.prints s (level_color level)
      ∷ Effect.prints s text
      ∷ Effect.prints s color_reset
      ∷ []
    else Effect.prints s text ∷ []

-- the `switch` of `hx_sink_write` and what follows it: the sink's kind is taken apart
unfoldable pub write_kind : Kind → Sink → ℕ → Bytes → Sink × List Effect
write_kind (Kind.console c) s level text = (s, console_emit c level text)
write_kind (Kind.callback last) s level text =
    (record s { kind = Kind.callback level }, Effect.calls s.handle level text ∷ [])
write_kind Kind.syslog s level text = (s, Effect.logs (priority level) text ∷ [])
write_kind Kind.event_log s level text = (s, [])
write_kind Kind.android_log s level text = (s, [])
write_kind Kind.apple_log s level text = (s, [])
write_kind Kind.file s level text = (s, Effect.writes s.handle text ∷ [])
write_kind Kind.network s level text = (s, Effect.writes s.handle text ∷ [])

unfoldable pub sink_write : Sink → ℕ → Bytes → Sink × List Effect
sink_write s level text = if ltb level s.min_level then (s, []) else write_kind s.kind s level text

-- a sink before it is registered, as the functions that create one leave it
unfoldable pub new_sink : Kind → ℕ → Bool → Sink
new_sink kind handle is_file = record {
  kind = kind;
  handle = handle;
  is_file = is_file;
  id = 0;
  min_level = trace;
  override_set = false;
  override_mode = FormatMode.pattern;
  override_has_pattern = false;
  override_pattern = [];
}

-- `hx_sink_console_create`: the two flags are those of the terminals, `none` is no memory
unfoldable pub console_create : Bool → Bool → Option ℕ → Bool → Bool → Option Sink
console_create out_tty err_tty none use_stderr enable_color = none
console_create out_tty err_tty (some handle) use_stderr enable_color = some (
    new_sink
      (Kind.console (record {
        out = some Stream.stdout;
        err = some (if use_stderr then Stream.stderr else Stream.stdout);
        enable_color = enable_color;
        color_out_tty = out_tty;
        color_err_tty = err_tty;
      }))
      handle false)

-- `hx_sink_callback_create` and `hx_sink_syslog_create`
unfoldable pub callback_create : Option ℕ → Option Sink
callback_create none = none
callback_create (some handle) = some (new_sink (Kind.callback info) handle false)

unfoldable pub syslog_create : Option ℕ → Option Sink
syslog_create none = none
syslog_create (some handle) = some (new_sink Kind.syslog handle false)
