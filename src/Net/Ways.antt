-- ===== src/Net/Ways.antt =====
-- src/hx_clog_net.c: the ways that a call of `net_write` goes.
use hx_clog.Common.{
  ℕ, ◌+◌, ◌≤◌, ◌<◌, ◌≡◌, refl, ◌∙◌, sym, ap, inl, inr, Bool, true, false, not, List, [], ◌∷◌, ◌++◌,
  append-nil, Option, none, some, arith, ltb, ltb→lt, ltb→ge, Bool-cases, ◌>>=◌, if◌then◌else◌,
  Bytes, length, Ends, Ends-bind, Ends-map,
}
use hx_clog.Status.{Status}
use hx_clog.Net.{
  Net, Event, Address, Call, retry_secs, connect_tcp, try_addresses, with_socket, net_open,
  send_all, fd_of, lost, send_udp, sent, send_tcp, send_line, connect_and_send, net_write,
}
use hx_clog.Net.Events.{
  gather, taken, Calm, Searched, Calm-nil, Calm-sends, Calm-reports, Searched-nil, Searched-keeps,
  Searched-gives_up,
}
use hx_clog.Net.Loop.{Part, send_all_lem}

-- what `send_line` makes of a line
pub data Sent (call : Call) (text : Bytes) (n : Net) : Status → Net → List Event → Type 0 where
  whole : {es : List Event} → Calm es → gather taken es ≡ text → Sent call text n Status.ok n es
  fails :
      {es tail : List Event} (rest : Bytes)
      → Calm es
      → gather taken es ++ rest ≡ text
      → Calm tail
      → gather taken tail ≡ []
      → Sent call text n Status.platform (lost call.later n).0 (es ++ (lost call.later n).1 ++ tail)

-- what `net_write` makes of a line
pub data Wrote (call : Call) (text : Bytes) (n : Net) : Status → Net → List Event → Type 0 where
  goes_out :
      {s : Status} {n' : Net} {es : List Event}
      → n.connected ≡ true
      → Sent call text n s n' es
      → Wrote call text n s n' es
  backs_off :
      n.connected ≡ false
      → call.now < n.last_attempt_sec + retry_secs
      → Wrote call text n Status.platform n []
  misses :
      {es : List Event}
      → n.connected ≡ false
      → n.last_attempt_sec + retry_secs ≤ call.now
      → Searched none es
      → Wrote call text n Status.platform
          (record n { last_attempt_sec = call.now })
          (Event.attempts call.now ∷ es ++ Event.reports ∷ [])
  reaches :
      {s : Status} {n' : Net} {es after : List Event} (fd : ℕ)
      → n.connected ≡ false
      → n.last_attempt_sec + retry_secs ≤ call.now
      → Searched (some fd) es
      → Sent call text
          (record n { fd = some fd; connected = true; last_attempt_sec = call.now })
          s
          n'
          after
      → Wrote call text n s n' (Event.attempts call.now ∷ es ++ after)

abbrev pub Report : Type 0
Report = Status × Net × List Event

abbrev SentAs : Call → Bytes → Net → Report → Type 0
SentAs call text n (s, n', es) = Sent call text n s n' es

abbrev pub WroteAs : Call → Bytes → Net → Report → Type 0
WroteAs call text n (s, n', es) = Wrote call text n s n' es

module _ (call : Call) (text : Bytes) where
  sent-Sent : (n : Net) (r : Bool × List Event) → Part text r → SentAs call text n (sent call n r)
  unfolding sent
  sent-Sent n (true, es) (calm, rest, eq, all) =
      whole calm
        (sym (append-nil (gather taken es)) ∙ ap (◌++◌ (gather taken es)) (sym (all refl)) ∙ eq)
  sent-Sent n (false, es) (calm, rest, eq, all) = fails rest calm eq Calm-reports refl

  datagram-Sent :
      (n : Net) (o : Option ℕ)
      → SentAs call text n (elim o [
        | none ↦ (Status.platform, (lost call.later n).0, (lost call.later n).1)
        | some s ↦ (Status.ok, n, Event.sends (fd_of n) text ∷ [])
      ])
  datagram-Sent n none =
      let h : Sent call text n Status.platform (lost call.later n).0 ((lost call.later n).1 ++ []) =
        fails {es = []} {tail = []} text Calm-nil refl Calm-nil refl in
      rw (append-nil (lost call.later n).1) at h
  datagram-Sent n (some s) = whole (Calm-sends (fd_of n) text [] Calm-nil) (append-nil text)

  send_udp-Sent : (n : Net) → SentAs call text n (send_udp call text n)
  unfolding send_udp
  send_udp-Sent n = datagram-Sent n (call.send 0 text)

  send_line-Sent : (n : Net) → Ends (SentAs call text n) (send_line call text n)
  unfolding send_line send_tcp
  send_line-Sent n = elim (Bool-cases n.udp) [
    | inl e ↦ simp e (send_udp-Sent n)
    | inr e ↦ simp e (
        Ends-bind (Part text) (SentAs call text n)
          (send_all call.send (length text + 1) (fd_of n) 0 text) (λ r. some (sent call n r))
          (send_all_lem call.send (fd_of n) (length text + 1) 0 text (omega arith))
          (λ r p. sent-Sent n r p))
  ]

address_lem :
    (a : Address) (udp : Bool) (o : Option ℕ) (r : Option ℕ × List Event)
    → Searched r.0 r.1
    → (λ (q : Option ℕ × List Event). Searched q.0 q.1)
        (elim o [
          | none ↦ r
          | some fd ↦
              if udp
              then (some fd, Event.opens fd ∷ [])
              else if connect_tcp a
              then (some fd, Event.opens fd ∷ [])
              else (r.0, Event.opens fd ∷ Event.shuts fd ∷ r.1)
        ])
address_lem a udp none r h = h
address_lem a true (some fd) r h = Searched-keeps fd
address_lem a false (some fd) r h = elim (Bool-cases (connect_tcp a)) [
  | inl e ↦ rw e (Searched-keeps fd)
  | inr e ↦ rw e (Searched-gives_up fd r.0 r.1 h)
]

try_addresses-Searched :
    (udp : Bool) (addresses : List Address)
    → Searched (try_addresses udp addresses).0 (try_addresses udp addresses).1
unfolding try_addresses
try_addresses-Searched udp [] = Searched-nil
try_addresses-Searched udp (a ∷ more) =
    address_lem a udp a.socket (try_addresses udp more) (try_addresses-Searched udp more)

module _ (call : Call) (text : Bytes) where
  by_search :
      (n : Net)
      → n.connected ≡ false
      → n.last_attempt_sec + retry_secs ≤ call.now
      → (found : Option ℕ × List Event) → Searched found.0 found.1
      → Ends (WroteAs call text n) (
          if not (elim found.0 [ none ↦ false | some fd ↦ true ])
          then some (
            Status.platform,
            with_socket (record n { last_attempt_sec = call.now }) found.0,
            (Event.attempts call.now ∷ found.1) ++ Event.reports ∷ [],
          )
          else (send_line call text (with_socket (record n { last_attempt_sec = call.now }) found.0)
              >>= λ r. some (r.0, r.1, (Event.attempts call.now ∷ found.1) ++ r.2)))
  unfolding with_socket
  by_search n off late (none, es) h = misses off late h
  by_search n off late (some fd, es) h =
      let n' : Net = record n { fd = some fd; connected = true; last_attempt_sec = call.now } in
      Ends-bind (SentAs call text n') (WroteAs call text n) (send_line call text n')
        (λ r. some (r.0, r.1, (Event.attempts call.now ∷ es) ++ r.2)) (send_line-Sent call text n')
        (λ r sent. reaches fd off late h sent)

  connect_and_send-Wrote :
      (n : Net)
      → n.connected ≡ false
      → n.last_attempt_sec + retry_secs ≤ call.now
      → Ends (WroteAs call text n) (connect_and_send call text n)
  unfolding connect_and_send net_open
  connect_and_send-Wrote n off late =
      by_search n off late (try_addresses n.udp call.addresses)
        (try_addresses-Searched n.udp call.addresses)

  pub net_write-Wrote : (n : Net) → Ends (WroteAs call text n) (net_write call text n)
  unfolding net_write
  net_write-Wrote n = elim (Bool-cases n.connected) [
    | inl on ↦ simp on (
        Ends-map (SentAs call text n) (WroteAs call text n) (send_line call text n)
          (λ r h. goes_out on h) (send_line-Sent call text n))
    | inr off ↦ elim (Bool-cases (ltb call.now (n.last_attempt_sec + retry_secs))) [
      | inl soon ↦ simp (off, soon) (backs_off off (ltb→lt _ _ soon))
      | inr late ↦ simp (off, late) (connect_and_send-Wrote n off (ltb→ge _ _ late))
    ]
  ]
