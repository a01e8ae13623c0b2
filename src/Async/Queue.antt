-- ===== src/Async/Queue.antt =====
-- src/hx_clog_async.c: `hx_async_enqueue` and a bounded queue of lines, under each of the policies
-- for a queue that is full.
use hx_clog.Common.{
  ℕ, ◌⊎◌, inl, inr, ◌==◌, ◌+◌, ◌%◌, ◌^◌, ◌≤◌, ◌<◌, ◌≡◌, refl, ◌∙◌, ap, Bool, false, [], ◌∷◌, ◌++◌,
  Option, arith, ltb, leb, if◌then◌else◌, Bool-cases, ltb→lt, leb→le, leb→gt, le→leb, Bytes, length,
  drop, get_or,
}
use hx_clog.Status.{Status}
use hx_clog.Async.{
  Slot, Overflow, Engine, Line, Outcome, count_drop, shrunk, commit, store, enqueue_blocked,
  enqueue_full, enqueue, no_slot,
}
use hx_clog.Async.Grow.{grow_total}
use hx_clog.Async.Window.{length-window, contents, IsValid}
use hx_clog.Async.Bounded.{
  queued, Verdict, verdict, push_full, push_bounded, Provides, IsOpen, IsLine, Leads,
}
use hx_clog.Async.Commit.{
  contents-commit, commit-IsValid, count_drop-IsValid, older, older-IsValid, contents-older,
  contents-count_drop, count-count_drop, overflow-commit, overflow-count_drop,
}

-- the capacity from which a slot's buffer grows
pub start_in :
    (cap need : ℕ)
    → cap < need
    → need ≤ 2 ^ 31
    → (0 < (if cap == 0 then 256 else cap)) × ((if cap == 0 then 256 else cap) < 2 ^ 32)
start_in cap need less small = elim (Bool-cases (cap == 0)) [
  | inl e ↦ rw e (omega arith, omega arith)
  | inr e ↦ rw e (ground arith, omega arith)
]

module _ (malloc : ℕ → Option Bytes) (memory : Provides malloc) where
  -- With room in the queue and memory, the line is stored.
  store_commits :
      (e : Engine) (l : Line) (report : Bool)
      → IsLine l
      → (s : Slot) × (store malloc e l report ≡ (Outcome.returns Status.ok report, commit e s l))
  unfolding store
  store_commits e l report ok =
      let s = shrunk (get_or e.slots e.tail no_slot) l.size in
      let need = (l.size + 1) % 2 ^ 32 in
      let small : need ≤ 2 ^ 31 = omega (arith, ok.size_u31) in
      elim (Bool-cases (ltb s.cap need)) [
        | inl less ↦
            let (pos, start_u32) = start_in s.cap need (ltb→lt s.cap need less) small in
            let (r, grown, (big, up, size)) =
              grow_total (if s.cap == 0 then 256 else s.cap) need small pos in
            let r_u32 : r < 2 ^ 32 = elim size [
              | inl same ↦ omega arith
              | inr bound ↦ omega arith
            ] in
            let (nb, given) = memory r r_u32 in
            (record s { cap = r; buf = nb }, rw (less, grown, given) refl)
        | inr fits ↦ (s, rw fits refl)
      ]

  -- `enqueue` in an open engine with room
  pub store_pushes :
      (e : Engine) (l : Line) (report : Bool)
      → IsValid e
      → e.count < e.capacity
      → IsLine l
      → Leads (store malloc e l report) (Verdict.accepted, contents e ++ queued l ∷ []) e.overflow
  unfolding verdict
  store_pushes e l report v room ok =
      let (s, stored) = store_commits e l report ok in
      rw stored (
        refl,
        contents-commit e s l v room ok.size_in,
        commit-IsValid e s l v room,
        overflow-commit e s l,
      )

  -- `drop_old` drops the oldest line, counts it, and stores the new line.
  older_pushes :
      (e : Engine) (l : Line)
      → IsValid e
      → e.capacity ≤ e.count
      → IsLine l
      → (report : Bool)
      → Leads
          (store malloc (count_drop (older e)).0 l report)
          (Verdict.accepted, drop 1 (contents e) ++ queued l ∷ [])
          e.overflow
  unfolding older
  older_pushes e l v full ok report =
      let dropped = (count_drop (older e)).0 in
      let (n, c) = count-count_drop (older e) in
      let room : dropped.count < dropped.capacity = omega (arith, n, c, v.count_in, v.head_in) in
      let (w, q, v', p) =
        store_pushes dropped l report (count_drop-IsValid (older e) (older-IsValid e v full)) room
          ok in
      (
        w,
        q ∙ ap (λ r. r ++ queued l ∷ []) (contents-count_drop (older e) ∙ contents-older e v full),
        v',
        p ∙ overflow-count_drop (older e),
      )

  -- An open engine whose queue is full makes the caller wait.
  blocked_waits :
      (e : Engine) (l : Line)
      → IsOpen e
      → e.capacity ≤ e.count
      → enqueue_blocked malloc e l ≡ (Outcome.waits, e)
  unfolding enqueue_blocked
  blocked_waits e l up full = simp (le→leb full, up.going) refl

  full_pushes :
      (o : Overflow) (e : Engine) (l : Line)
      → IsValid e
      → IsOpen e
      → e.capacity ≤ e.count
      → IsLine l
      → Leads (enqueue_full malloc o e l) (push_full o (contents e) (queued l)) e.overflow
  unfolding verdict enqueue_full push_full older
  full_pushes Overflow.drop_new e l v up full ok =
      (refl, contents-count_drop e, count_drop-IsValid e v, overflow-count_drop e)
  full_pushes Overflow.drop_old e l v up full ok =
      older_pushes e l v full ok (count_drop (older e)).1
  full_pushes Overflow.block e l v up full ok = rw (blocked_waits e l up full) (refl, refl, v, refl)

  enqueue_open :
      (e : Engine) (l : Line)
      → IsOpen e
      → enqueue malloc e l ≡ (
          if leb e.capacity e.count
          then enqueue_full malloc e.overflow e l
          else store malloc e l false)
  unfolding enqueue
  enqueue_open e l up = simp (up.ready, up.running, up.going) refl

  -- A line for a valid open engine is put into the queue of the lines that wait, as the policy
  -- says: with room it becomes the last one; else it is refused, takes the place of the oldest
  -- line, or waits. The engine stays valid, with its policy. The allocator has memory, and the
  -- line has less than `2 ^ 31` bytes.
  pub enqueue_lem :
      (e : Engine) (l : Line)
      → IsValid e
      → IsOpen e
      → IsLine l
      → Leads
          (enqueue malloc e l)
          (push_bounded e.overflow e.capacity (contents e) (queued l))
          e.overflow
  unfolding push_bounded
  enqueue_lem e l v up ok =
      let n : length (contents e) ≡ e.count = length-window e.slots e.capacity e.head e.count in
      let queue = enqueue_open e l up in
      elim (Bool-cases (leb e.capacity e.count)) [
        | inl full ↦
            let pushes = full_pushes e.overflow e l v up (leb→le e.capacity e.count full) ok in
            rw (queue, n, full) pushes
        | inr room ↦
            let pushes = store_pushes e l false v (leb→gt e.capacity e.count room) ok in
            rw (queue, n, room) pushes
      ]

  -- An engine that is not open refuses the line and stays as it is.
  pub enqueue_cases :
      (e : Engine) (l : Line)
      → IsOpen e ⊎ (enqueue malloc e l ≡ (Outcome.returns Status.not_initialized false, e))
  unfolding enqueue
  enqueue_cases e l = elim (Bool-cases e.prims_ready) [
    | inr r ↦ inr (simp r refl)
    | inl r ↦ elim (Bool-cases e.running) [
      | inr n ↦ inr (simp (r, n) refl)
      | inl n ↦ elim (Bool-cases e.stop) [
        | inl s ↦ inr (simp (r, n, s) refl)
        | inr s ↦ inl (record { ready = r; running = n; going = s })
      ]
    ]
  ]
