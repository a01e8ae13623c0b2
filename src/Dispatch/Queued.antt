-- ===== src/Dispatch/Queued.antt =====
-- src/hx_clog_core.c: in the asynchronous mode the lines of a record go into the queue, in their order.
use hx_clog.Common.{
  ℕ, ◌+◌, ◌≤◌, ◌<◌, ◌≡◌, refl, ◌∙◌, sym, ap, Bool, true, false, List, [], ◌∷◌, ◌++◌, append_assoc,
  append-nil, map, Option, arith, if◌then◌else◌, Bytes, length, length-append,
}
use hx_clog.Status.{Status}
use hx_clog.Async.{Engine, Line, Outcome, enqueue}
use hx_clog.Async.Window.{contents, IsValid}
use hx_clog.Async.Bounded.{queued, Verdict, verdict, Provides, IsOpen, IsLine}
use hx_clog.Async.Room.{enqueue_room}
use hx_clog.Sink.{Effect}
use hx_clog.Dispatch.{Core, enqueued, dispatch_line, goes_on, dispatch_lines}

abbrev pub AllLines : List Line → Type 0
AllLines [] = Unit
AllLines (l ∷ ls) = IsLine l × AllLines ls

-- a core whose lines go into a queue that is ready
pub record IsAsync (c : Core) : Type 0 where
  pub async : c.async ≡ true
  pub valid : IsValid c.engine
  pub up : IsOpen c.engine

-- what a run of lines leaves: they wait behind the others, and nothing else has changed
abbrev pub Waiting : Core → List Line → Core × List Effect × List Line → Type 0
Waiting c ls (c', out, left) =
    (out ≡ [])
    × (left ≡ [])
    × (contents c'.engine ≡ contents c.engine ++ map queued ls)
    × (c'.sinks ≡ c.sinks)
    × (c'.written ≡ c.written)
    × IsAsync c'

if_true : {A : Type 0} (b : Bool) (x y : A) → b ≡ true → (if b then x else y) ≡ x
if_true true x y h = refl
if_true false x y h = absurd (cc h)

module _ (malloc : ℕ → Option Bytes) (memory : Provides malloc) where
  enqueued_ok :
      (c : Core) (l : Line) (o : Outcome) (e : Engine)
      → verdict o ≡ Verdict.accepted
      → (report : Bool) × (enqueued malloc c l o e
          ≡ (Outcome.returns Status.ok report, record c { engine = e }, []))
  unfolding enqueued verdict
  enqueued_ok c l (Outcome.returns Status.ok report) e h = (report, refl)
  enqueued_ok c l (Outcome.returns Status.invalid_argument r) e h = absurd (cc h)
  enqueued_ok c l (Outcome.returns Status.not_initialized r) e h = absurd (cc h)
  enqueued_ok c l (Outcome.returns Status.already_initialized r) e h = absurd (cc h)
  enqueued_ok c l (Outcome.returns Status.open_file_failed r) e h = absurd (cc h)
  enqueued_ok c l (Outcome.returns Status.out_of_memory r) e h = absurd (cc h)
  enqueued_ok c l (Outcome.returns Status.thread_failed r) e h = absurd (cc h)
  enqueued_ok c l (Outcome.returns Status.queue_full r) e h = absurd (cc h)
  enqueued_ok c l (Outcome.returns Status.platform r) e h = absurd (cc h)
  enqueued_ok c l Outcome.waits e h = absurd (cc h)
  enqueued_ok c l Outcome.loops e h = absurd (cc h)

  line_queued :
      (c : Core) (l : Line)
      → IsAsync c
      → IsLine l
      → length (contents c.engine) < c.engine.capacity
      → (report : Bool) × (dispatch_line malloc c l ≡ (
        Outcome.returns Status.ok report,
        record c { engine = (enqueue malloc c.engine l).1 },
        [],
      ))
  unfolding dispatch_line
  line_queued c l a ok room =
      let (accepted, q) = enqueue_room malloc memory c.engine l a.valid a.up ok room in
      let (report, e) =
        enqueued_ok c l (enqueue malloc c.engine l).0 (enqueue malloc c.engine l).1 accepted in
      (report, if_true c.async _ _ a.async ∙ e)

  -- In the asynchronous mode, with the engine running and valid, each line less than `2 ^ 31`
  -- bytes, memory for the slots and room in the queue for all the lines, the lines go into the
  -- queue behind those that wait, in their order. Nothing is emitted, no line is left, the sinks
  -- and the count of written lines stay as they are, and the core is ready for the next record.
  pub dispatch_lines-queued :
      (c : Core) (ls : List Line)
      → IsAsync c
      → AllLines ls
      → length (contents c.engine) + length ls ≤ c.engine.capacity
      → Waiting c ls (dispatch_lines malloc c ls)
  unfolding dispatch_lines goes_on
  dispatch_lines-queued c [] a ok room =
      (refl, refl, sym (append-nil (contents c.engine)), refl, refl, a)
  dispatch_lines-queued c (l ∷ ls) a (ok, oks) room =
      let (accepted, q) = enqueue_room malloc memory c.engine l a.valid a.up ok (omega arith) in
      let (report, e) = line_queued c l a ok (omega arith) in
      let c' : Core = record c { engine = (enqueue malloc c.engine l).1 } in
      let longer : length (contents c'.engine) ≡ length (contents c.engine) + 1 =
        ap length q.last ∙ length-append (contents c.engine) (queued l ∷ []) in
      let (out, left, order, sinks, written, a') =
        dispatch_lines-queued c' ls (record { async = a.async; valid = q.valid; up = q.up }) oks
          (omega (arith, longer, q.capacity)) in
      rw e (
        out,
        left,
        order
            ∙ ap (λ z. z ++ map queued ls) q.last
            ∙ append_assoc (contents c.engine) (queued l ∷ []) (map queued ls),
        sinks,
        written,
        a',
      )
