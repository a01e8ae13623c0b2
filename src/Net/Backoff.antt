-- ===== src/Net/Backoff.antt =====
-- src/hx_clog_net.c: the times at which the network sink tries to connect.
use hx_clog.Common.{ℕ, ◌+◌, ◌≤◌, ◌≡◌, refl, List, [], ◌∷◌, ◌++◌, Option, none, some, arith, Bytes}
use hx_clog.Status.{Status}
use hx_clog.Net.{Net, Event, Call, retry_secs, net_disconnect, lost}
use hx_clog.Net.Events.{gather, gather-append, tried}
use hx_clog.Net.Ways.{Sent, whole, fails, Wrote, goes_out, backs_off, misses, reaches}
use hx_clog.Net.Sockets.{Run, done, goes, Wrote-net_write}

-- each of the times is at least `retry_secs` after the one before, the first after `last`
abbrev pub Spaced : ℕ → List ℕ → Type 0
Spaced last [] = Unit
Spaced last (t ∷ ts) = (last + retry_secs ≤ t) × Spaced t ts

-- the clock does not go back, from a time on
abbrev pub Clock : ℕ → List Call → Type 0
Clock t [] = Unit
Clock t (call ∷ calls) = (t ≤ call.now) × (call.now ≤ call.later) × Clock call.later calls

Spaced-weaken : (a b : ℕ) (ts : List ℕ) → a ≤ b → Spaced b ts → Spaced a ts
Spaced-weaken a b [] le h = tt
Spaced-weaken a b (t ∷ ts) le (far, h) = (omega arith, h)

Clock-weaken : (a b : ℕ) (calls : List Call) → a ≤ b → Clock b calls → Clock a calls
Clock-weaken a b [] le h = tt
Clock-weaken a b (call ∷ calls) le (now, later, h) = (omega arith, later, h)

-- at most one attempt, at the time of the call and after the pause
abbrev Paused : Call → Net → Net → List ℕ → Type 0
Paused call n n' [] = (n.last_attempt_sec ≤ n'.last_attempt_sec)
Paused call n n' (t ∷ []) = (n.last_attempt_sec + retry_secs ≤ t) × (t ≤ n'.last_attempt_sec)
Paused call n n' (t ∷ u ∷ ts) = ⊥

Paused-Spaced :
    (call : Call) (n n' : Net) (ts us : List ℕ)
    → Paused call n n' ts
    → Spaced n'.last_attempt_sec us
    → Spaced n.last_attempt_sec (ts ++ us)
Paused-Spaced call n n' [] us le h = Spaced-weaken n.last_attempt_sec n'.last_attempt_sec us le h
Paused-Spaced call n n' (t ∷ []) us (far, le) h = (far, Spaced-weaken t n'.last_attempt_sec us le h)
Paused-Spaced call n n' (t ∷ u ∷ ts) us b h = absurd b

shut-tried :
    (o : Option ℕ) → gather tried (elim o [ none ↦ [] | some fd ↦ Event.shuts fd ∷ [] ]) ≡ []
shut-tried none = refl
shut-tried (some fd) = refl

lost-tried : (later : ℕ) (n : Net) → gather tried (lost later n).1 ≡ []
unfolding lost net_disconnect
lost-tried later n = shut-tried n.fd

lost_last : (later : ℕ) (n : Net) → (lost later n).0.last_attempt_sec ≡ later
unfolding lost net_disconnect
lost_last later n = refl

-- A connected sink does not try again, and remembers a time of the call at the latest.
abbrev Still : Call → Net → Net → List Event → Type 0
Still call n n' es =
    (gather tried es ≡ [])
    × (n.last_attempt_sec ≤ n'.last_attempt_sec)
    × (n'.last_attempt_sec ≤ call.later)

module _ {call : Call} {text : Bytes} where
  Sent-Still :
      {n n' : Net} {s : Status} {es : List Event}
      → n.last_attempt_sec ≤ call.later
      → Sent call text n s n' es
      → Still call n n' es
  Sent-Still le (whole calm eq) = (calm.no_attempt, omega arith, le)
  Sent-Still {n} le (fails {es = es} {tail = tail} rest calm eq quiet none_taken) = (
    rw
        (
          gather-append tried (es ++ (lost call.later n).1) tail,
          gather-append tried es (lost call.later n).1,
          calm.no_attempt,
          lost-tried call.later n,
          quiet.no_attempt,
        )
        refl,
    omega (arith, lost_last call.later n),
    omega (arith, lost_last call.later n),
  )

  Wrote-Paused :
      {n n' : Net} {s : Status} {es : List Event}
      → n.last_attempt_sec ≤ call.now
      → call.now ≤ call.later
      → Wrote call text n s n' es
      → Paused call n n' (gather tried es) × (n'.last_attempt_sec ≤ call.later)
  Wrote-Paused le go (goes_out on out) =
      let (none_tried, up, down) = Sent-Still (omega arith) out in (rw none_tried up, down)
  Wrote-Paused le go (backs_off off soon) = (omega arith, omega arith)
  Wrote-Paused {n} le go (misses {es = es} off late h) =
      (rw (gather-append tried es (Event.reports ∷ []), h.no_attempt) (late, omega arith), go)
  Wrote-Paused {n} {n'} le go (reaches {es = es} {after = after} fd off late h out) =
      let (none_tried, up, down) = Sent-Still go out in
      (rw (gather-append tried es after, h.no_attempt, none_tried) (late, up), down)

-- While the clock does not go back, any two attempts to connect that calls of `net_write` make are
-- at least `HX_NET_RETRY_SECS` apart, and the first of them as long after `last_attempt_sec`.
pub Run-Spaced :
    {calls : List Call} {n n' : Net} {es : List Event}
    → Run calls n n' es
    → Clock n.last_attempt_sec calls
    → Spaced n.last_attempt_sec (gather tried es)
Run-Spaced done clock = tt
Run-Spaced (goes {n = n} {n' = n'} {es = es} {fs = fs} {calls = calls} call text s eq run)
      (le, go, clock) =
    let (paused, down) = Wrote-Paused le go (Wrote-net_write call text n n' s es eq) in
    rw (gather-append tried es fs) (
      Paused-Spaced call n n' (gather tried es) (gather tried fs) paused
        (Run-Spaced run (Clock-weaken n'.last_attempt_sec call.later calls down clock)))
