-- ===== src/Net/Tests.antt =====
-- src/hx_clog_net.c: the theorems on the network sink at a collector that hangs up within a line.
use hx_clog.Common.{
  ℕ, zero, suc, ◌≡◌, refl, true, false, List, [], ◌∷◌, ◌++◌, Option, none, some, arith, Bytes,
  codes,
}
use hx_clog.Status.{Status}
use hx_clog.Net.{
  Net, Event, Connecting, Call, connect_tcp, try_addresses, with_socket, net_open, net_disconnect,
  send_all, fd_of, lost, sent, send_tcp, send_line, connect_and_send, net_write, net_close,
  network_create,
}
use hx_clog.Net.Events.{gather, total, taken, tried, opened, closed}
use hx_clog.Net.Sends.{is_ok, net_write-part}
use hx_clog.Net.Sockets.{Run, Run-sockets}
use hx_clog.Net.Backoff.{Spaced, Run-Spaced}

-- four bytes are taken, and then no more
abbrev hangs_up : ℕ → Bytes → Option ℕ
hangs_up zero text = some 4
hangs_up (suc k) text = none

abbrev first : Call
first = record {
  now = 100;
  later = 101;
  addresses =
      record { socket = some 5; connecting = Connecting.refused; ready = false; no_error = false }
      ∷ record {
        socket = some 6;
        connecting = Connecting.in_progress;
        ready = true;
        no_error = true;
      }
      ∷ [];
  send = hangs_up;
}

abbrev second : Call
second = record first { now = 102; later = 102 }

abbrev collector : Net
collector = record {
  udp = false;
  host = codes "log";
  port = codes "514";
  fd = none;
  connected = false;
  last_attempt_sec = 0;
}

abbrev hello : Bytes
hello = codes "hello"

abbrev after : Net
after = record collector { last_attempt_sec = 101 }

abbrev events : List Event
events =
    Event.attempts 100
    ∷ Event.opens 5
    ∷ Event.shuts 5
    ∷ Event.opens 6
    ∷ Event.sends 6 (codes "hell")
    ∷ Event.shuts 6
    ∷ Event.reports
    ∷ []

first_lem : net_write first hello collector ≡ some (Status.platform, after, events)
unfolding connect_tcp try_addresses with_socket net_open net_disconnect send_all fd_of lost sent
    send_tcp send_line connect_and_send net_write
first_lem = refl

second_lem : net_write second hello after ≡ some (Status.platform, after, [])
unfolding net_write
second_lem = refl

calls-Run : Run (first ∷ second ∷ []) collector after (events ++ [] ++ [])
calls-Run =
    Run.goes first hello Status.platform first_lem
      (Run.goes second hello Status.platform second_lem Run.done)

net_write-part_example :
    (s : Status) × (n' : Net) × (es : List Event) × (rest : Bytes) × (net_write first hello
        collector
      ≡ some (s, n', es))
    × (gather taken es ++ rest ≡ hello)
    × (s ≡ Status.ok → rest ≡ [])
    × (n'.connected ≡ is_ok s)
net_write-part_example = net_write-part first hello collector

created : network_create true false (some (codes "log")) 514 ≡ some collector
unfolding network_create hx_clog.Format.Appender.digits
created = refl

Run-sockets_example :
    total (opened 6) (events ++ net_close after) ≡ total (closed 6) (events ++ net_close after)
Run-sockets_example = Run-sockets true false (some (codes "log")) 514 6 created calls-Run

Run-Spaced_example : Spaced 0 (gather tried events)
Run-Spaced_example = Run-Spaced calls-Run (omega arith, omega arith, (omega arith, omega arith, tt))
