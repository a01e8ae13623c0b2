-- ===== src/Async/Fifo.antt =====
-- src/hx_clog_async.c: the threads that log and the worker, step by step, from the start of the engine
-- to its stop. Each step is what one thread does between taking the lock and giving it up.
use hx_clog.Common.{ℕ, ◌≡◌, ◌≢◌, true, List, [], ◌∷◌, ◌++◌, Option, ltb, Bytes}
use hx_clog.Async.{Overflow, Engine, Line, Outcome, enqueue, enqueue_blocked}
use hx_clog.Async.Window.{Queued, contents, IsValid}
use hx_clog.Async.Bounded.{queued, Verdict, verdict, IsLine}
use hx_clog.Async.Worker.{Taken, take_line, idle, batch_end}
use hx_clog.Async.Life.{flush_begin, stop_begin}

-- `accepted`: the lines whose call returned `HX_CLOG_OK`; `emitted`: those given to the sinks
pub record System : Type 0 where
  pub engine : Engine
  pub accepted : List Queued
  pub emitted : List Queued

-- a queue, with the line if it was accepted
unfoldable pub extended : Verdict → List Queued → Queued → List Queued
extended Verdict.accepted q x = q ++ x ∷ []
extended _ q x = q

-- the system after a call of `enqueue`
unfoldable pub called : System → Line → Outcome × Engine → System
called s l (o, e) = record s { engine = e; accepted = extended (verdict o) s.accepted (queued l) }

-- the system after a round of the worker's batch
unfoldable pub taken : System → Taken × Engine → System
taken s (Taken.emits q, e) = record s { engine = e; emitted = s.emitted ++ q ∷ [] }
taken s (Taken.skips, e) = record s { engine = e }
taken s (Taken.stuck, e) = record s { engine = e }

pub data Step (malloc : ℕ → Option Bytes) : System → System → Type 0 where
  calls :
      {s : System} (l : Line) → IsLine l → Step malloc s (called s l (enqueue malloc s.engine l))
  wakes :
      {s : System} (l : Line)
      → IsLine l
      → Step malloc s (called s l (enqueue_blocked malloc s.engine l))
  takes :
      {s : System}
      → ltb 0 s.engine.count ≡ true
      → Step malloc s (taken s (take_line malloc s.engine))
  idles : {s : System} → Step malloc s (record s { engine = (idle s.engine).1 })
  ends : {s : System} → Step malloc s (record s { engine = (batch_end s.engine).1 })
  flushes : {s : System} → Step malloc s (record s { engine = (flush_begin s.engine).1 })
  stops : {s : System} → Step malloc s (record s { engine = (stop_begin s.engine).1 })

pub data Run (malloc : ℕ → Option Bytes) : System → System → Type 0 where
  done : {s : System} → Run malloc s s
  goes : {s t u : System} → Step malloc s t → Run malloc t u → Run malloc s u

-- Every accepted line has been emitted or waits, in the order of the calls.
pub record IsFifo (s : System) : Type 0 where
  pub valid : IsValid s.engine
  pub keeps : s.engine.overflow ≢ Overflow.drop_old
  pub order : s.accepted ≡ s.emitted ++ contents s.engine
