-- ===== src/Async/Worker.antt =====
-- src/hx_clog_async.c: the turns of the worker thread. The lock is given up while the sinks are called,
-- so a turn is made of the pieces between two such points.
use hx_clog.Common.{
  ℕ, ◌+◌, ◌-◌, ◌%◌, ◌^◌, Bool, true, false, not, ◌&&◌, Option, none, some, ltb, ◌==◌, if◌then◌else◌,
  Bytes, get_or,
}
use hx_clog.Async.{Engine, no_slot}
use hx_clog.Async.Grow.{grow, doublings}
use hx_clog.Async.Window.{Queued, line_of}

-- what the worker does with the line at the head
pub data Taken : Type 0 where
  emits : Queued → Taken
  skips : Taken
  stuck : Taken

-- the head goes one slot on
unfoldable pub advance : Engine → Engine
advance e = record e { head = (e.head + 1) % e.capacity; count = e.count - 1 }

-- One round of the batch, up to the release of the lock: the line at the head is copied out.
unfoldable pub take_line : (ℕ → Option Bytes) → Engine → Taken × Engine
take_line malloc e =
    let s = get_or e.slots e.head no_slot in
    let need = (s.len + 1) % 2 ^ 32 in
    if ltb e.scratch_cap need
    then elim (grow doublings (if e.scratch_cap == 0 then 256 else e.scratch_cap) need) [
      | none ↦ (Taken.stuck, e)
      | some nc ↦ elim (malloc nc) [
        | none ↦ (Taken.skips, record (advance e) { dropped = (e.dropped + 1) % 2 ^ 64 })
        | some nb ↦ (Taken.emits (line_of s), record (advance e) { scratch_cap = nc })
      ]
    ]
    else (Taken.emits (line_of s), advance e)

-- `while (count > 0 && written < batch_size)`
pub goes_on : Engine → ℕ → Bool
goes_on e written = ltb 0 e.count && ltb written e.batch_size

-- The queue is empty: whether to flush the sinks for a caller, and whether to exit.
unfoldable pub idle : Engine → (Bool × Bool) × Engine
idle e = ((e.flush_request, e.stop), record e { flush_request = false })

-- after the batch: a flush that has nothing left to wait for is done
unfoldable pub batch_end : Engine → Bool × Engine
batch_end e =
    if e.flush_request && e.count == 0
    then (true, record e { flush_request = false })
    else (false, e)

-- the test of the loop that waits for a line
pub sleeps : Engine → Bool
sleeps e = e.count == 0 && not e.stop && not e.flush_request
