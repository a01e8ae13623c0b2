-- ===== src/Net/Sockets.antt =====
-- src/hx_clog_net.c: the sockets that the network sink makes and closes.
use hx_clog.Common.{
  ℕ, ◌+◌, ◌≡◌, refl, ◌∙◌, sym, ap, inl, inr, Bool, true, false, not, ◌||◌, List, [], ◌∷◌, ◌++◌,
  Option, none, some, arith, ◌==◌, Bool-cases, Bytes, length,
}
use hx_clog.Status.{Status}
use hx_clog.Net.{Net, Event, Call, net_disconnect, lost, net_write}
use hx_clog.Net.{net_close, network_create}
use hx_clog.Net.Events.{total, total-append, opened, closed, held}
use hx_clog.Net.Ways.{
  Sent, whole, fails, Wrote, goes_out, backs_off, misses, reaches, net_write-Wrote,
}

abbrev is_some : Option ℕ → Bool
is_some none = false
is_some (some fd) = true

-- a connection has a socket, and only a connection has one
abbrev pub IsTidy : Net → Type 0
IsTidy n = n.connected ≡ is_some n.fd

-- Of each socket, one more is made than is closed, or one less, as the sink comes to hold it or not.
abbrev Balanced : Net → Net → List Event → Type 0
Balanced n n' es = (x : ℕ) → total (opened x) es + held x n.fd ≡ total (closed x) es + held x n'.fd

-- calls of `net_write` one after the other
pub data Run : List Call → Net → Net → List Event → Type 0 where
  done : {n : Net} → Run [] n n []
  goes :
      {n n' n'' : Net} {es fs : List Event} {calls : List Call} (call : Call) (text : Bytes)
      (s : Status)
      → net_write call text n ≡ some (s, n', es)
      → Run calls n' n'' fs
      → Run (call ∷ calls) n n'' (es ++ fs)

pub Wrote-net_write :
    (call : Call) (text : Bytes) (n n' : Net) (s : Status) (es : List Event)
    → net_write call text n ≡ some (s, n', es)
    → Wrote call text n s n' es
Wrote-net_write call text n n' s es eq = rw eq at (net_write-Wrote call text n)

shut-Balanced :
    (x : ℕ) (o : Option ℕ)
    → (total (opened x) (elim o [ none ↦ [] | some fd ↦ Event.shuts fd ∷ [] ]) ≡ 0)
      × (total (closed x) (elim o [ none ↦ [] | some fd ↦ Event.shuts fd ∷ [] ]) ≡ held x o)
shut-Balanced x none = (refl, refl)
shut-Balanced x (some fd) = (omega arith, omega arith)

lost-Balanced :
    (later : ℕ) (n : Net) (x : ℕ)
    → (total (opened x) (lost later n).1 ≡ 0) × (total (closed x) (lost later n).1 ≡ held x n.fd)
unfolding lost net_disconnect
lost-Balanced later n x = shut-Balanced x n.fd

lost-IsTidy : (later : ℕ) (n : Net) → IsTidy (lost later n).0
unfolding lost net_disconnect
lost-IsTidy later n = refl

lost_fd : (later : ℕ) (n : Net) → (lost later n).0.fd ≡ none
unfolding lost net_disconnect
lost_fd later n = refl

no_socket : (x : ℕ) (o : Option ℕ) → is_some o ≡ false → held x o ≡ 0
no_socket x none e = refl
no_socket x (some fd) e = absurd (cc e)

module _ {call : Call} {text : Bytes} where
  Sent-Balanced :
      {n n' : Net} {s : Status} {es : List Event}
      → IsTidy n
      → Sent call text n s n' es
      → IsTidy n' × Balanced n n' es
  Sent-Balanced tidy (whole {es = es} calm eq) =
      (tidy, λ x. omega (arith, calm.no_open x, calm.no_close x))
  Sent-Balanced {n} tidy (fails {es = es} {tail = tail} rest calm eq quiet none_taken) = (
    lost-IsTidy call.later n,
    λ x. rw (ap (held x) (lost_fd call.later n)) (
        omega (
          arith,
          total-append (opened x) (es ++ (lost call.later n).1) tail,
          total-append (opened x) es (lost call.later n).1,
          total-append (closed x) (es ++ (lost call.later n).1) tail,
          total-append (closed x) es (lost call.later n).1,
          lost-Balanced call.later n x,
          calm.no_open x,
          calm.no_close x,
          quiet.no_open x,
          quiet.no_close x,
        )),
  )

  Wrote-Balanced :
      {n n' : Net} {s : Status} {es : List Event}
      → IsTidy n
      → Wrote call text n s n' es
      → IsTidy n' × Balanced n n' es
  Wrote-Balanced tidy (goes_out on out) = Sent-Balanced tidy out
  Wrote-Balanced tidy (backs_off off soon) = (tidy, λ x. refl)
  Wrote-Balanced tidy (misses {es = es} off late h) = (
    tidy,
    λ x. omega (
      arith,
      total-append (opened x) es (Event.reports ∷ []),
      total-append (closed x) es (Event.reports ∷ []),
      h.kept_open x,
    ),
  )
  Wrote-Balanced {n} tidy (reaches {es = es} {after = after} fd off late h out) =
      let (tidy', b) = Sent-Balanced refl out in
      (
        tidy',
        λ x. omega (
          arith,
          total-append (opened x) es after,
          total-append (closed x) es after,
          h.kept_open x,
          b x,
          no_socket x n.fd (sym tidy ∙ off),
        ),
      )

Run-Balanced :
    {calls : List Call} {n n' : Net} {es : List Event}
    → Run calls n n' es
    → IsTidy n
    → IsTidy n' × Balanced n n' es
Run-Balanced done tidy = (tidy, λ x. refl)
Run-Balanced (goes {n} {n'} {es = es} {fs = fs} call text s eq run) tidy =
    let (tidy', b) = Wrote-Balanced tidy (Wrote-net_write call text n n' s es eq) in
    let (tidy'', c) = Run-Balanced run tidy' in
    (
      tidy'',
      λ x. omega (arith, total-append (opened x) es fs, total-append (closed x) es fs, b x, c x),
    )

-- A sink is made without a connection, if it is made.
abbrev Unconnected : Option Net → Type 0
Unconnected none = Unit
Unconnected (some n) = (n.connected ≡ false) × (n.fd ≡ none)

network_create-Unconnected :
    (memory udp : Bool) (host : Option Bytes) (port : ℕ)
    → Unconnected (network_create memory udp host port)
unfolding network_create
network_create-Unconnected memory udp none port = tt
network_create-Unconnected memory udp (some host) port =
    elim (Bool-cases (length host == 0 || port == 0 || not memory)) [
      | inl e ↦ rw e tt
      | inr e ↦ rw e (refl, refl)
    ]

close-Balanced :
    (n : Net) (x : ℕ)
    → (total (opened x) (net_close n) ≡ 0) × (total (closed x) (net_close n) ≡ held x n.fd)
unfolding net_close net_disconnect
close-Balanced n x = shut-Balanced x n.fd

-- From the creation of a network sink, over any calls of `net_write`, to its close, each socket is
-- closed exactly as often as it is made.
pub Run-sockets :
    {calls : List Call} {n n' : Net} {es : List Event} (memory udp : Bool) (host : Option Bytes)
    (port x : ℕ)
    → network_create memory udp host port ≡ some n
    → Run calls n n' es
    → total (opened x) (es ++ net_close n') ≡ total (closed x) (es ++ net_close n')
Run-sockets {n} {n'} {es} memory udp host port x created run =
    let (off, no_fd) : (n.connected ≡ false) × (n.fd ≡ none) =
      rw created at (network_create-Unconnected memory udp host port) in
    let (tidy, b) = Run-Balanced run (rw (off, no_fd) refl) in
    omega (
      arith,
      total-append (opened x) es (net_close n'),
      total-append (closed x) es (net_close n'),
      b x,
      close-Balanced n' x,
      no_socket x n.fd (rw no_fd refl),
    )
