-- ===== src/Async/Room.antt =====
-- src/hx_clog_async.c: calls of `hx_async_enqueue` while the queue has room keep the engine open.
use hx_clog.Common.{
  ℕ, ◌+◌, ◌%◌, ◌^◌, ◌<◌, ◌≡◌, refl, ◌∙◌, inl, inr, Bool, false, [], ◌∷◌, ◌++◌, Option, none, some,
  arith, ltb, leb, ◌==◌, Bool-cases, if◌then◌else◌, Bytes, length, get_or,
}
use hx_clog.Status.{Status}
use hx_clog.Async.{
  Overflow, Engine, Slot, Line, Outcome, no_slot, count_drop, shrunk, put_slot, commit, store,
  enqueue,
}
use hx_clog.Async.Grow.{grow, doublings}
use hx_clog.Async.Window.{contents, IsValid, length-window}
use hx_clog.Async.Bounded.{queued, Verdict, verdict, push_bounded, Provides, IsOpen, IsLine, Leads}
use hx_clog.Async.Queue.{enqueue_lem}

-- what a stored line does not change
abbrev Same : Engine → Engine → Type 0
Same e e' =
    (e'.capacity ≡ e.capacity)
    × (e'.prims_ready ≡ e.prims_ready)
    × (e'.running ≡ e.running)
    × (e'.stop ≡ e.stop)

commit-Same : (e : Engine) (s : Slot) (l : Line) → Same e (commit e s l)
unfolding commit
commit-Same e s l = (refl, refl, refl, refl)

count_drop-Same : (e : Engine) → Same e (count_drop e).0
unfolding count_drop
count_drop-Same e = (refl, refl, refl, refl)

module _ (malloc : ℕ → Option Bytes) where
  given-Same :
      (e : Engine) (s : Slot) (l : Line) (report : Bool) (cap : ℕ) (o : Option Bytes)
      → (λ (r : Outcome × Engine). Same e r.1)
          (elim o [
            | none ↦ (
              Outcome.returns Status.out_of_memory (count_drop (put_slot e s)).1,
              (count_drop (put_slot e s)).0,
            )
            | some nb ↦
                (Outcome.returns Status.ok report, commit e (record s { cap = cap; buf = nb }) l)
          ])
  given-Same e s l report cap none = count_drop-Same (put_slot e s)
  given-Same e s l report cap (some nb) = commit-Same e (record s { cap = cap; buf = nb }) l

  grown-Same :
      (e : Engine) (s : Slot) (l : Line) (report : Bool) (o : Option ℕ)
      → (λ (r : Outcome × Engine). Same e r.1)
          (elim o [
            | none ↦ (Outcome.loops, put_slot e s)
            | some newcap ↦ elim (malloc newcap) [
              | none ↦ (
                Outcome.returns Status.out_of_memory (count_drop (put_slot e s)).1,
                (count_drop (put_slot e s)).0,
              )
              | some nb ↦ (
                Outcome.returns Status.ok report,
                commit e (record s { cap = newcap; buf = nb }) l,
              )
            ]
          ])
  grown-Same e s l report none = (refl, refl, refl, refl)
  grown-Same e s l report (some cap) = given-Same e s l report cap (malloc cap)

  store-Same : (e : Engine) (l : Line) (report : Bool) → Same e (store malloc e l report).1
  unfolding store
  store-Same e l report =
      let s = shrunk (get_or e.slots e.tail no_slot) l.size in
      let need = (l.size + 1) % 2 ^ 32 in
      elim (Bool-cases (ltb s.cap need)) [
        | inl less ↦
            rw less
              (grown-Same e s l report (grow doublings (if s.cap == 0 then 256 else s.cap) need))
        | inr fits ↦ rw fits (commit-Same e s l)
      ]

  room_kept :
      (e : Engine) (l : Line)
      → IsOpen e
      → e.count < e.capacity
      → ((enqueue malloc e l).1.capacity ≡ e.capacity) × IsOpen (enqueue malloc e l).1
  unfolding enqueue
  room_kept e l up room =
      let few : leb e.capacity e.count ≡ false = ground arith in
      let (same, ready, running, going) = store-Same e l false in
      simp (up.ready, up.running, up.going, few)
        (
          same,
          record {
            ready = ready ∙ up.ready;
            running = running ∙ up.running;
            going = going ∙ up.going;
          },
        )

-- the line is the last one in the queue, and the engine is ready for the next
pub record Queues (e e' : Engine) (l : Line) : Type 0 where
  pub last : contents e' ≡ contents e ++ queued l ∷ []
  pub valid : IsValid e'
  pub up : IsOpen e'
  pub capacity : e'.capacity ≡ e.capacity

accepted_with :
    (o : Overflow) (room : ℕ) (e : Engine) (l : Line) (r : Outcome × Engine)
    → leb room (length (contents e)) ≡ false
    → Leads r (push_bounded o room (contents e) (queued l)) o
    → (verdict r.0 ≡ Verdict.accepted) × (contents r.1 ≡ contents e ++ queued l ∷ []) × IsValid r.1
unfolding push_bounded
accepted_with o room e l r few h = let (w, q, v, p) = (rw few at h) in (w, q, v)

module _ (malloc : ℕ → Option Bytes) (memory : Provides malloc) where
  pub enqueue_room :
      (e : Engine) (l : Line)
      → IsValid e
      → IsOpen e
      → IsLine l
      → length (contents e) < e.capacity
      → (verdict (enqueue malloc e l).0 ≡ Verdict.accepted) × Queues e (enqueue malloc e l).1 l
  enqueue_room e l v up ok room =
      let n : length (contents e) ≡ e.count = length-window e.slots e.capacity e.head e.count in
      let few : leb e.capacity (length (contents e)) ≡ false = ground arith in
      let (w, q, v') =
        accepted_with e.overflow e.capacity e l (enqueue malloc e l) few
          (enqueue_lem malloc memory e l v up ok) in
      let (same, up') = room_kept malloc e l up (omega (arith, n)) in
      (w, record { last = q; valid = v'; up = up'; capacity = same })
