-- ===== src/Net/Sends.antt =====
-- src/hx_clog_net.c: what a call of `net_write` sends of its line.
use hx_clog.Common.{
  ℕ, ◌≡◌, refl, ◌∙◌, Bool, true, false, List, [], ◌∷◌, ◌++◌, append-nil, Option, none, some, Bytes,
  result_of,
}
use hx_clog.Status.{Status}
use hx_clog.Net.{Net, Event, Call, net_disconnect, lost, net_write}
use hx_clog.Net.Events.{gather, gather-append, taken, Searched}
use hx_clog.Net.Ways.{
  Sent, whole, fails, Wrote, goes_out, backs_off, misses, reaches, Report, WroteAs, net_write-Wrote,
}

abbrev pub is_ok : Status → Bool
is_ok s = elim s [ Status.ok ↦ true | _ ↦ false ]

-- the bytes that a call sends, in their order: all of the line, or a first part of it
abbrev pub Partly : Bytes → Report → Type 0
Partly text (s, n', es) =
    (n'.connected ≡ is_ok s)
    × (rest : Bytes) × (gather taken es ++ rest ≡ text)
    × (s ≡ Status.ok → rest ≡ [])

shut-taken :
    (o : Option ℕ) → gather taken (elim o [ none ↦ [] | some fd ↦ Event.shuts fd ∷ [] ]) ≡ []
shut-taken none = refl
shut-taken (some fd) = refl

lost-taken : (later : ℕ) (n : Net) → gather taken (lost later n).1 ≡ []
unfolding lost net_disconnect
lost-taken later n = shut-taken n.fd

lost-connected : (later : ℕ) (n : Net) → (lost later n).0.connected ≡ false
unfolding lost net_disconnect
lost-connected later n = refl

after_search :
    (text : Bytes) (now fd : ℕ) (es after : List Event) (s : Status) (n' : Net)
    → Searched (some fd) es
    → Partly text (s, n', after)
    → Partly text (s, n', Event.attempts now ∷ es ++ after)
after_search text now fd es after s n' h (state, rest, eq, all) =
    (state, rest, rw (gather-append taken es after, h.no_bytes) eq, all)

module _ {call : Call} {text : Bytes} where
  Sent-Partly :
      {n n' : Net} {s : Status} {es : List Event}
      → n.connected ≡ true
      → Sent call text n s n' es
      → Partly text (s, n', es)
  Sent-Partly on (whole {es = es} calm eq) = (on, [], append-nil (gather taken es) ∙ eq, λ e. refl)
  Sent-Partly {n} on (fails {es = es} {tail = tail} rest calm eq quiet none_taken) = (
    lost-connected call.later n,
    rest,
    rw
        (
          gather-append taken (es ++ (lost call.later n).1) tail,
          gather-append taken es (lost call.later n).1,
          lost-taken call.later n,
          none_taken,
          append-nil (gather taken es ++ []),
          append-nil (gather taken es),
        )
        eq,
    λ e. absurd (cc e),
  )

  Wrote-Partly :
      {n n' : Net} {s : Status} {es : List Event}
      → Wrote call text n s n' es
      → Partly text (s, n', es)
  Wrote-Partly (goes_out on out) = Sent-Partly on out
  Wrote-Partly (backs_off off soon) = (off, text, refl, λ e. absurd (cc e))
  Wrote-Partly (misses {es = es} off late h) = (
    off,
    text,
    rw (gather-append taken es (Event.reports ∷ []), h.no_bytes) refl,
    λ e. absurd (cc e),
  )
  Wrote-Partly (reaches {s = s} {n' = n'} {es = es} {after = after} fd off late h out) =
      after_search text call.now fd es after s n' h (Sent-Partly refl out)

-- Every call of `net_write` ends, whatever the system answers. The bytes that the system takes,
-- one part after the other, are a first part of the line, and all of the line if the call returns
-- `ok`. After it the sink is connected if it returned `ok`, and not otherwise.
pub net_write-part :
    (call : Call) (text : Bytes) (n : Net)
    → (s : Status) × (n' : Net) × (es : List Event) × (rest : Bytes) × (net_write call text n
        ≡ some (s, n', es))
      × (gather taken es ++ rest ≡ text)
      × (s ≡ Status.ok → rest ≡ [])
      × (n'.connected ≡ is_ok s)
net_write-part call text n =
    let ((s, n', es), eq, w) =
      result_of (WroteAs call text n) (net_write call text n) (net_write-Wrote call text n) in
    let (state, rest, bytes, all) = Wrote-Partly w in (s, n', es, rest, eq, bytes, all, state)
