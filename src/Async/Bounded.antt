-- ===== src/Async/Bounded.antt =====
-- src/hx_clog_async.c: a bounded queue of lines, and what a call of `hx_async_enqueue` makes of it.
use hx_clog.Common.{
  ℕ, ◌^◌, ◌≤◌, ◌<◌, ◌≡◌, true, false, List, [], ◌∷◌, ◌++◌, Option, some, leb, if◌then◌else◌, Bytes,
  length, take, drop,
}
use hx_clog.Status.{Status}
use hx_clog.Async.{Overflow, Engine, Line, Outcome}
use hx_clog.Async.Window.{Queued, contents, IsValid}

abbrev pub queued : Line → Queued
queued l = record {
  level = l.level;
  text = take l.size l.text;
  target = l.target;
  count_stats = l.count_stats;
}

pub data Verdict : Type 0 where
  accepted refused must_wait failed : Verdict

unfoldable pub verdict : Outcome → Verdict
verdict (Outcome.returns Status.ok r) = Verdict.accepted
verdict (Outcome.returns Status.queue_full r) = Verdict.refused
verdict (Outcome.returns _ r) = Verdict.failed
verdict Outcome.waits = Verdict.must_wait
verdict Outcome.loops = Verdict.failed

-- a line for a bounded queue that is full
unfoldable pub push_full : Overflow → List Queued → Queued → Verdict × List Queued
push_full Overflow.drop_new q x = (Verdict.refused, q)
push_full Overflow.drop_old q x = (Verdict.accepted, drop 1 q ++ x ∷ [])
push_full Overflow.block q x = (Verdict.must_wait, q)

-- a line for a queue of at most `room` lines
unfoldable pub push_bounded : Overflow → ℕ → List Queued → Queued → Verdict × List Queued
push_bounded o room q x =
    if leb room (length q) then push_full o q x else (Verdict.accepted, q ++ x ∷ [])

-- The allocator has memory for every 32-bit size.
abbrev pub Provides : (ℕ → Option Bytes) → Type 0
Provides malloc = (n : ℕ) → n < 2 ^ 32 → (nb : Bytes) × (malloc n ≡ some nb)

-- an engine that takes lines: started, and not about to stop
pub record IsOpen (e : Engine) : Type 0 where
  pub ready : e.prims_ready ≡ true
  pub running : e.running ≡ true
  pub going : e.stop ≡ false

-- A line that is `size` bytes long, and short enough for the loop that grows a slot.
pub record IsLine (l : Line) : Type 0 where
  pub size_in : l.size ≤ length l.text
  pub size_u31 : l.size < 2 ^ 31

-- What a call leads to: its verdict, the lines that wait after it, the policy, and the invariant.
abbrev pub Leads : Outcome × Engine → Verdict × List Queued → Overflow → Type 0
Leads (o, e) (w, q) p = (verdict o ≡ w) × (contents e ≡ q) × IsValid e × (e.overflow ≡ p)
