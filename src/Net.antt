-- ===== src/Net.antt =====
-- src/hx_clog_net.c: the network sink, in a POSIX build. What the system answers is in the arguments,
-- and what the sink does is a list of events. A socket is a number that is not negative, `none` is
-- `HX_INVALID_SOCK`, and a time is in seconds since the epoch. A line is the bytes at `data`, less than
-- `2 ^ 31`.
pub mod Events
pub mod Loop
pub mod Ways
pub mod Sends
pub mod Sockets
pub mod Backoff
mod Tests
use hx_clog.Common.{
  ℕ, zero, suc, ◌+◌, ◌-◌, Bool, true, false, not, ◌&&◌, ◌||◌, List, [], ◌∷◌, ◌++◌, Option, none,
  some, ltb, ◌==◌, ◌>>=◌, if◌then◌else◌, Bytes, take, drop, length,
}
use hx_clog.Status.{Status}
use hx_clog.Format.View.{decimal}

-- `HX_NET_RETRY_SECS`
abbrev pub retry_secs : ℕ
retry_secs = 2

-- `net_impl`; the address of a UDP collector is that of its socket
pub record Net : Type 0 where
  pub udp : Bool
  pub host : Bytes
  pub port : Bytes
  pub fd : Option ℕ
  pub connected : Bool
  pub last_attempt_sec : ℕ

pub data Event : Type 0 where
  -- the sink looks the host up and tries its addresses, at a time
  attempts : ℕ → Event
  -- a socket is made, and closed
  opens : ℕ → Event
  shuts : ℕ → Event
  -- the system takes bytes for a socket, as a part of a stream or as a datagram
  sends : ℕ → Bytes → Event
  -- `hx_core_report_error`
  reports : Event

-- what `connect` returns
pub data Connecting : Type 0 where
  connects in_progress refused : Connecting

-- an address of the host: its socket if one can be made, what `connect` returns for it, whether
-- `select` finds it writable in time, and whether it then has no error
pub record Address : Type 0 where
  pub socket : Option ℕ
  pub connecting : Connecting
  pub ready : Bool
  pub no_error : Bool

-- `net_connect_tcp`; `true`: it returns 0
unfoldable pub connect_tcp : Address → Bool
connect_tcp a = elim a.connecting [
  | Connecting.connects ↦ true
  | Connecting.in_progress ↦ a.ready && a.no_error
  | Connecting.refused ↦ false
]

-- the loop of `net_open`, with the socket that it keeps
unfoldable pub try_addresses : Bool → List Address → Option ℕ × List Event
try_addresses udp [] = (none, [])
try_addresses udp (a ∷ more) =
    let (kept, later) = try_addresses udp more in
    elim a.socket [
      | none ↦ (kept, later)
      | some fd ↦
          if udp
          then (some fd, Event.opens fd ∷ [])
          else if connect_tcp a
          then (some fd, Event.opens fd ∷ [])
          else (kept, Event.opens fd ∷ Event.shuts fd ∷ later)
    ]

unfoldable pub with_socket : Net → Option ℕ → Net
with_socket n none = n
with_socket n (some fd) = record n { fd = some fd; connected = true }

-- `net_open`, with the addresses that `getaddrinfo` finds
unfoldable pub net_open : List Address → Net → Bool × Net × List Event
net_open addresses n =
    let (kept, events) = try_addresses n.udp addresses in
    let opened : Bool = elim kept [ none ↦ false | some fd ↦ true ] in
    (opened, with_socket n kept, events)

unfoldable pub net_disconnect : Net → Net × List Event
net_disconnect n = (
  record n { fd = none; connected = false },
  elim n.fd [ none ↦ [] | some fd ↦ Event.shuts fd ∷ [] ],
)

-- What a call of `net_write` meets: the time at its start and after a failure, the addresses, and what
-- the `k`th call of `send` takes of the bytes that it is given, or none where it fails.
pub record Call : Type 0 where
  pub now : ℕ
  pub later : ℕ
  pub addresses : List Address
  pub send : ℕ → Bytes → Option ℕ

-- The loop of `net_write` over the bytes that are left, with `k` calls so far: whether all are
-- taken. The result is `none` if the fuel runs out.
unfoldable pub send_all : (ℕ → Bytes → Option ℕ) → ℕ → ℕ → ℕ → Bytes → Option (Bool × List Event)
send_all send zero fd k text = none
send_all send (suc fuel) fd k [] = some (true, [])
send_all send (suc fuel) fd k (c ∷ text) = elim (send k (c ∷ text)) [
  | none ↦ some (false, [])
  | some s ↦ if s == 0 then some (false, []) else do
    (done, events) ← send_all send fuel fd (k + 1) (drop s (c ∷ text))
    some (done, Event.sends fd (take s (c ∷ text)) ∷ events)
]

-- the descriptor that is handed to the system
unfoldable pub fd_of : Net → ℕ
fd_of n = elim n.fd [ none ↦ 0 | some fd ↦ fd ]

-- what follows a failure
unfoldable pub lost : ℕ → Net → Net × List Event
lost later n =
    let (n', events) = net_disconnect n in (record n' { last_attempt_sec = later }, events)

unfoldable pub send_udp : Call → Bytes → Net → Status × Net × List Event
send_udp call text n = elim (call.send 0 text) [
  | none ↦ (let (n', events) = lost call.later n in (Status.platform, n', events))
  | some s ↦ (Status.ok, n, Event.sends (fd_of n) text ∷ [])
]

-- after the loop
unfoldable pub sent : Call → Net → Bool × List Event → Status × Net × List Event
sent call n (true, events) = (Status.ok, n, events)
sent call n (false, events) =
    let (n', closing) = lost call.later n in
    (Status.platform, n', events ++ closing ++ Event.reports ∷ [])

unfoldable pub send_tcp : Call → Bytes → Net → Option (Status × Net × List Event)
send_tcp call text n = do
  r ← send_all call.send (length text + 1) (fd_of n) 0 text
  some (sent call n r)

-- the part of `net_write` with a connection
unfoldable pub send_line : Call → Bytes → Net → Option (Status × Net × List Event)
send_line call text n = if n.udp then some (send_udp call text n) else send_tcp call text n

-- an attempt to connect, and with a connection the line
unfoldable pub connect_and_send : Call → Bytes → Net → Option (Status × Net × List Event)
connect_and_send call text n =
    let (opened, n', events) = net_open call.addresses (record n { last_attempt_sec = call.now }) in
    let before : List Event = Event.attempts call.now ∷ events in
    if not opened
    then some (Status.platform, n', before ++ Event.reports ∷ [])
    else do (status, n'', after) ← send_line call text n'; some (status, n'', before ++ after)

-- `net_write`
unfoldable pub net_write : Call → Bytes → Net → Option (Status × Net × List Event)
net_write call text n =
    if n.connected
    then send_line call text n
    else if ltb call.now (n.last_attempt_sec + retry_secs)
    then some (Status.platform, n, [])
    else connect_and_send call text n

-- `net_close`
unfoldable pub net_close : Net → List Event
net_close n = (net_disconnect n).1

-- the sink as `hx_sink_network_create` makes it: `memory` tells whether both blocks are given
unfoldable pub network_create : Bool → Bool → Option Bytes → ℕ → Option Net
network_create memory udp none port = none
network_create memory udp (some host) port =
    if length host == 0 || port == 0 || not memory
    then none
    else some (record {
      udp = udp;
      host = take 255 host;
      port = take 15 (decimal 24 port);
      fd = none;
      connected = false;
      last_attempt_sec = 0;
    })
