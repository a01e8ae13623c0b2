-- ===== src/Async/Life.antt =====
-- src/hx_clog_async.c: start, flush, stop and fork of the engine, and its counters.

use hx_clog.Common.{
  ℕ, Bool, true, false, not, ◌&&◌, ◌||◌, [], Option, none, some, ◌==◌, if◌then◌else◌, replicate,
}
use hx_clog.Status.{Status}
use hx_clog.Async.{Overflow, Engine, no_slot}

-- what `hx_async_start` reads of the configuration
pub record Settings : Type 0 where
  pub async_queue_size : ℕ
  pub async_batch_size : ℕ
  pub flush_interval_ms : ℕ
  pub overflow_policy : Overflow

-- a setting of 0 stands for its default
unfoldable pub or_default : ℕ → ℕ → ℕ
or_default n d = if n == 0 then d else n

-- The engine as `hx_async_start` leaves it for the worker: `cap` slots with no memory.
unfoldable pub started : Settings → ℕ → Engine
started cfg cap = record {
  slots = replicate cap no_slot;
  capacity = cap;
  head = 0;
  tail = 0;
  count = 0;
  batch_size = or_default cfg.async_batch_size 64;
  flush_interval_ms = or_default cfg.flush_interval_ms 1000;
  overflow = cfg.overflow_policy;
  running = true;
  stop = false;
  flush_request = false;
  scratch_cap = 0;
  dropped = 0;
  high_watermark = 0;
  prims_ready = true;
}

-- `slots_given`: the slots could be allocated; `thread_made`: the worker thread was created
unfoldable pub start : Bool → Bool → Settings → Engine → Status × Engine
start slots_given thread_made cfg e =
    let ready = record e { prims_ready = true } in
    let up = started cfg (or_default cfg.async_queue_size 8192) in
    if not slots_given
    then (Status.out_of_memory, ready)
    else if not thread_made
    then (Status.thread_failed, record up { running = false; slots = [] })
    else (Status.ok, up)

-- `hx_async_flush` up to its wait; `true`: it waits
unfoldable pub flush_begin : Engine → Bool × Engine
flush_begin e =
    if not e.prims_ready
    then (false, e)
    else if not e.running || e.count == 0
    then (false, e)
    else (true, record e { flush_request = true })

-- the test of the waiting loop of `hx_async_flush`
pub flush_waits : Engine → Bool
flush_waits e = e.flush_request && e.running && not e.stop

-- `hx_async_stop` up to the join of the worker; `true`: it joins
unfoldable pub stop_begin : Engine → Bool × Engine
stop_begin e =
    if not e.prims_ready
    then (false, e)
    else if not e.running
    then (false, e)
    else (true, record e { stop = true })

-- `hx_async_stop` once the worker has ended
pub stop_end : Engine → Engine
stop_end e = record e {
  slots = [];
  scratch_cap = 0;
  count = 0;
  head = 0;
  tail = 0;
  running = false;
}

-- the child after a fork; the status is for the error handler
pub after_fork_child : Bool → Engine → Option Status × Engine
after_fork_child thread_made e =
    let empty = record e { head = 0; tail = 0; count = 0; flush_request = false; stop = false } in
    if not e.prims_ready
    then (none, e)
    else if not e.running
    then (none, empty)
    else if thread_made
    then (none, empty)
    else (some Status.thread_failed, record empty { running = false })

pub async_dropped : Engine → ℕ
async_dropped e = if not e.prims_ready then 0 else e.dropped

pub async_high_watermark : Engine → ℕ
async_high_watermark e = if not e.prims_ready then 0 else e.high_watermark
