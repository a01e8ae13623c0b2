-- ===== src/CrashRing/Tests.antt =====
-- src/hx_clog_core.c: the theorems on the crash ring at a fresh ring and a line.
use hx_clog.Common.{◌≡◌, refl, map, true, false, List, [], ◌∷◌, none, Bytes, codes, length}
use hx_clog.CrashRing.{capacity, Ring, ring_init, ring_dump}
use hx_clog.CrashRing.Window.{clip, last_n}
use hx_clog.CrashRing.History.{push_all, ring_dump_history}

abbrev off_ring : Ring
off_ring = record { ring = none; head = 0; count = 0; inited = false }

abbrev two_lines : List Bytes
two_lines = codes "a" ∷ codes "b" ∷ []

ring_dump_history_example :
    ring_dump (push_all (ring_init true off_ring).0 two_lines)
    ≡ last_n capacity (map (λ l. clip l (length l)) two_lines)
ring_dump_history_example = ring_dump_history off_ring two_lines refl
