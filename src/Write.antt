-- ===== src/Write.antt =====
-- src/hx_clog_core.c: `core_writev`, from the filters to the sinks, with `hx_clog_flush`. Of a record
-- whose lines have to wait for room in the queue the rest is left out here. The texts that `vsnprintf`
-- makes are parameters, and have no NUL.
pub mod Enough
pub mod Fatal
pub mod Named
mod Tests
use hx_clog.Common.{
  ℕ, zero, suc, ◌+◌, ◌-◌, ◌*◌, ◌%◌, ◌^◌, Bool, true, false, not, ◌&&◌, ◌||◌, List, [], ◌∷◌, ◌++◌,
  Option, none, some, ltb, leb, ◌==◌, ◌>>=◌, if◌then◌else◌, Bytes, codes, take, length,
}
use hx_clog.Level.{fatal, off}
use hx_clog.Format.Record.{Tm, Record}
use hx_clog.Format.Retry.{clamp_line}
use hx_clog.Context.{Item, snapshot_text}
use hx_clog.Settings.{Settings, Cache, cache_refresh, format_of}
use hx_clog.Sink.{Effect}
use hx_clog.Sink.Registry.{flush_sinks}
use hx_clog.Async.{Engine, Line}
use hx_clog.Async.Life.{flush_begin}
use hx_clog.Dispatch.{Core, dispatch_record}
use hx_clog.Dispatch.Direct.{emit_all}
use hx_clog.Duplicates.{
  Dup, Call, Summary, check_and_update, flush_pending, summary_record, name_or,
}

-- `sizeof(msg_stack)` and `sizeof(context)`
abbrev pub msg_stack_size : ℕ
msg_stack_size = 1024

abbrev pub context_size : ℕ
context_size = 1024

-- the state that a line reads and writes: `initialized` and `level` of `g_core`, its format settings
-- and the rest of it, the suppression, and the snapshot and the context of the thread
pub record System : Type 0 where
  pub initialized : Bool
  pub level : ℕ
  pub settings : Settings
  pub core : Core
  pub dup : Dup
  pub cache : Cache
  pub context : List Item

-- What the platform answers: the identity of the thread, the time of the `k`th question in seconds
-- and milliseconds, the allocator, what the stack buffers hold before they are written, and, where a
-- flush waits for the engine, the lines that its worker hands out until then, with the engine then.
pub record Env : Type 0 where
  pub pid : ℕ
  pub tid : ℕ
  pub clock : ℕ → ℕ × ℕ
  pub malloc : ℕ → Option Bytes
  pub localtime : ℕ → Tm
  pub stack : ℕ → Bytes
  pub flushed : List Line × Engine

-- the arguments of `core_writev`, with the whole text of the message, or none for an encoding error
pub record Request : Type 0 where
  pub logger_name : Option Bytes
  pub logger_level : Option ℕ
  pub level : ℕ
  pub file : Option Bytes
  pub line : ℕ
  pub func : Option Bytes
  pub text : Option Bytes

-- the first filter
unfoldable pub is_filtered : System → Request → Bool
is_filtered s r =
    ltb r.level s.level
    || elim r.logger_level [ none ↦ false | some l ↦ ltb r.level l ]
    || r.level == off

-- the message with its length, from its text
unfoldable pub message_of : Env → Bytes → Bytes
message_of env text =
    let n = length text in
    if leb msg_stack_size n
    then (let need = clamp_line ((n + 1) % 2 ^ 32) in
        elim (env.malloc need) [
          | some mem ↦ take (need - 1) text
          | none ↦ take (msg_stack_size - 1) text
        ])
    else text

unfoldable pub refreshed : System → System
refreshed s = record s { cache = cache_refresh s.settings s.cache }

-- The functions from here on give `none` if the fuel runs out. `deliver` hands a record to the sinks.
abbrev pub Delivery : Type 0
Delivery = System → Record → Option (System × List Effect)

-- `dup_emit_summary`, with a summary or without one
unfoldable pub emit_summary :
    Env → Delivery → System → Option Summary → Option (System × List Effect)
emit_summary env deliver s none = some (s, [])
emit_summary env deliver s (some m) =
    if not s.initialized || m.repeats == 0
    then some (s, [])
    else (let s' = refreshed s in
        let (sec, msec) = env.clock 1 in
        deliver s' (summary_record env.pid env.tid sec msec s'.cache.logger_name m))

-- `dup_flush_pending`
unfoldable pub flush_dups : Env → Delivery → System → Option (System × List Effect)
flush_dups env deliver s =
    let (m, d) = flush_pending s.dup in emit_summary env deliver (record s { dup = d }) m

-- `hx_async_flush`: the worker hands out lines while the call waits
unfoldable pub async_flush : Env → Core → Core × List Effect
async_flush env c =
    let (waits, e) = flush_begin c.engine in
    if waits
    then (let (c', out) = emit_all c env.flushed.0 in (record c' { engine = env.flushed.1 }, out))
    else (c, [])

-- `hx_clog_flush`
unfoldable pub flush : Env → Delivery → System → Option (System × List Effect)
flush env deliver s = if not s.initialized then some (s, []) else do
  (s', out) ← flush_dups env deliver s
  let (c, handed) = if s'.core.async then async_flush env s'.core else (s'.core, [])
  some (record s' { core = c }, out ++ handed ++ flush_sinks c.sinks.sinks)

-- `core_dispatch_record`, with the flush for a FATAL record
unfoldable pub deliver : Env → ℕ → Delivery
deliver env zero s rec = none
deliver env (suc fuel) s rec =
    let s' = refreshed s in
    let (c, out, left) =
      dispatch_record env.localtime env.malloc env.stack s'.core rec (format_of s'.cache) in
    let flushed = flush env (deliver env fuel) (record s' { core = c }) in
    if leb fatal rec.level
    then elim flushed [ none ↦ none | some (t, more) ↦ some (t, out ++ more) ]
    else some (record s' { core = c }, out)

-- A FATAL record brings a flush, and that a summary, after which nothing is pending.
abbrev pub deliveries : ℕ
deliveries = 2

unfoldable pub name_of : Bytes → Option Bytes → Bytes
name_of default none = default
name_of default (some name) = name_or default name

-- the record of a message
unfoldable pub record_of : Env → System → Request → Bytes → Bytes → Record
record_of env s r name msg =
    let (sec, msec) = env.clock 2 in
    record {
      level = r.level;
      logger_name = some name;
      file = r.file;
      line = r.line;
      func = r.func;
      pid = env.pid;
      tid = env.tid;
      timestamp_sec = sec;
      timestamp_msec = msec;
      message = some msg;
      message_len = length msg;
      context = some (snapshot_text s.context context_size);
    }

-- the call of `dup_check_and_update` for a message
unfoldable pub dup_call : Env → Request → Bytes → Bytes → Call
dup_call env r name msg =
    let (sec, msec) = env.clock 0 in
    record {
      level = r.level;
      file = r.file;
      line = r.line;
      logger_name = some name;
      msg = msg;
      msg_len = length msg;
      now_ms = sec * 1000 + msec;
    }

-- the message behind the filters
unfoldable pub write_message : Env → System → Request → Bytes → Option (System × List Effect)
write_message env s r msg =
    let name = name_of s.cache.logger_name r.logger_name in
    let (suppressed, m, d) = check_and_update s.dup (dup_call env r name msg) in
    do
      (s', before) ← emit_summary env (deliver env deliveries) (record s { dup = d }) m
      (s'', out) ←
          if suppressed
          then some (s', [])
          else deliver env deliveries s' (record_of env s' r name msg)
      some (s'', before ++ out)

-- `core_writev`
unfoldable pub core_writev : Env → System → Request → Option (System × List Effect)
core_writev env s r = if not s.initialized || is_filtered s r then some (s, []) else elim r.text [
  | none ↦ some (s, [])
  | some text ↦ write_message env (refreshed s) r (message_of env text)
]
