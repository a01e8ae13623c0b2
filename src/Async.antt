-- ===== src/Async.antt =====
-- src/hx_clog_async.c: the state of the asynchronous engine, and the operations of the threads that
-- log. The lock is held over each function here; where the code gives it up, a function ends.
pub mod Grow
pub mod Worker
pub mod Window
pub mod Bounded
pub mod Commit
pub mod Queue
pub mod Room
pub mod Advance
pub mod Calls
pub mod Life
pub mod Fifo
pub mod Order
pub mod Drain
mod Tests
use hx_clog.Common.{
  ℕ, ◌+◌, ◌-◌, ◌*◌, ◌%◌, ◌^◌, Bool, true, false, not, ◌&&◌, ◌||◌, List, [], ◌∷◌, ◌++◌, Option, none,
  some, ltb, leb, ◌==◌, if◌then◌else◌, Bytes, take, drop, get_or, set,
}
use hx_clog.Status.{Status}
use Grow.{grow, doublings}

abbrev pub slot_keep_cap : ℕ
slot_keep_cap = 64 * 1024

abbrev pub drop_report_every : ℕ
drop_report_every = 10000

-- `async_slot_t`; `buf` is the memory at its `data`, empty for the null pointer
pub record Slot : Type 0 where
  pub level : ℕ
  pub target : ℕ
  pub count_stats : Bool
  pub len : ℕ
  pub cap : ℕ
  pub buf : Bytes

pub data Overflow : Type 0 where
  block drop_new drop_old : Overflow

-- `async_engine_t` without the thread's handle; `slots` is empty for the null pointer. Of the
-- worker's scratch buffer its size alone is kept: its content is written and read in one round.
pub record Engine : Type 0 where
  pub slots : List Slot
  pub capacity : ℕ
  pub head : ℕ
  pub tail : ℕ
  pub count : ℕ
  pub batch_size : ℕ
  pub flush_interval_ms : ℕ
  pub overflow : Overflow
  pub running : Bool
  pub stop : Bool
  pub flush_request : Bool
  pub scratch_cap : ℕ
  pub dropped : ℕ
  pub high_watermark : ℕ
  pub prims_ready : Bool

-- the arguments of `hx_async_enqueue`: `size` bytes at `text`
pub record Line : Type 0 where
  pub level : ℕ
  pub text : Bytes
  pub size : ℕ
  pub target : ℕ
  pub count_stats : Bool

-- How a call ends: it returns a status, and has reported drops or not; it waits for room in the
-- queue; or it doubles a capacity for ever.
pub data Outcome : Type 0 where
  returns : Status → Bool → Outcome
  waits : Outcome
  loops : Outcome

abbrev pub no_slot : Slot
no_slot = record { level = 0; target = 0; count_stats = false; len = 0; cap = 0; buf = [] }

pub count_drop : Engine → Engine × Bool
count_drop e =
    let n = (e.dropped + 1) % 2 ^ 64 in
    (record e { dropped = n }, n == 1 || n % drop_report_every == 0)

-- The slot before it is written, freed if a huge line had made it large.
pub shrunk : Slot → ℕ → Slot
shrunk s size =
    if ltb slot_keep_cap s.cap && leb ((size + 1) % 2 ^ 32) slot_keep_cap
    then record s { cap = 0; buf = [] }
    else s

-- the slot at the tail, with no line in it yet
abbrev pub put_slot : Engine → Slot → Engine
put_slot e s = record e { slots = set e.slots e.tail s }

-- the slot's fields and its first `size` bytes
pub fill : Slot → Line → Slot
fill s l = record {
  level = l.level;
  target = l.target;
  count_stats = l.count_stats;
  len = l.size;
  cap = s.cap;
  buf = take l.size l.text ++ drop l.size s.buf;
}

-- The line goes into slot `s` at the tail.
pub commit : Engine → Slot → Line → Engine
commit e s l =
    let n = e.count + 1 in
    record e {
      slots = set e.slots e.tail (fill s l);
      tail = (e.tail + 1) % e.capacity;
      count = n;
      high_watermark = if ltb e.high_watermark n then n else e.high_watermark;
    }

-- `malloc` is the allocator: the memory that it gives for a size, or none.
module _ (malloc : ℕ → Option Bytes) where
  -- The queue has room. `report` tells whether a drop is to be reported.
  pub store : Engine → Line → Bool → Outcome × Engine
  store e l report =
      let s = shrunk (get_or e.slots e.tail no_slot) l.size in
      let need = (l.size + 1) % 2 ^ 32 in
      if ltb s.cap need
      then elim (grow doublings (if s.cap == 0 then 256 else s.cap) need) [
        | none ↦ (Outcome.loops, put_slot e s)
        | some newcap ↦ elim (malloc newcap) [
          | none ↦
              let (e', again) = count_drop (put_slot e s) in
              (Outcome.returns Status.out_of_memory again, e')
          | some nb ↦
              (Outcome.returns Status.ok report, commit e (record s { cap = newcap; buf = nb }) l)
        ]
      ]
      else (Outcome.returns Status.ok report, commit e s l)

  -- the test of the waiting loop, and what follows the loop; again at each wake
  pub enqueue_blocked : Engine → Line → Outcome × Engine
  enqueue_blocked e l =
      if leb e.capacity e.count && not e.stop
      then (Outcome.waits, e)
      else if e.stop || not e.running
      then (Outcome.returns Status.not_initialized false, e)
      else store e l false

  -- the `switch` for a full queue
  pub enqueue_full : Overflow → Engine → Line → Outcome × Engine
  enqueue_full Overflow.drop_new e l =
      let (e', report) = count_drop e in (Outcome.returns Status.queue_full report, e')
  enqueue_full Overflow.drop_old e l =
      let older = record e { head = (e.head + 1) % e.capacity; count = e.count - 1 } in
      let (e', report) = count_drop older in store e' l report
  enqueue_full Overflow.block e l = enqueue_blocked e l

  unfoldable pub enqueue : Engine → Line → Outcome × Engine
  enqueue e l =
      if not e.prims_ready
      then (Outcome.returns Status.not_initialized false, e)
      else if not e.running || e.stop
      then (Outcome.returns Status.not_initialized false, e)
      else if leb e.capacity e.count
      then enqueue_full e.overflow e l
      else store e l false
