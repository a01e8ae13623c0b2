-- ===== src/CrashRing.antt =====
-- src/hx_clog_core.c: the crash ring buffer, which keeps the last lines for a crash report.
pub mod Window
pub mod History
mod Tests
use hx_clog.Common.{
  ℕ, zero, suc, ◌+◌, ◌-◌, ◌%◌, Bool, true, false, not, ◌||◌, List, [], ◌∷◌, ◌++◌, Option, none,
  some, ltb, leb, if◌then◌else◌, Bytes, take, drop, get_or, set, replicate,
}

-- `HX_CLOG_RING_CAPACITY` and `HX_CLOG_RING_ENTRY_SIZE`
abbrev pub capacity : ℕ
capacity = 1024

abbrev pub entry_size : ℕ
entry_size = 512

-- `ring_entry_t`: the memory `data`, of which `len` bytes count
pub record Entry : Type 0 where
  pub data_of : Bytes
  pub len : ℕ

-- `g_ring` (`none` is null), `g_ring_head`, `g_ring_count` and `g_ring_inited`
pub record Ring : Type 0 where
  pub ring : Option (List Entry)
  pub head : ℕ
  pub count : ℕ
  pub inited : Bool

abbrev pub blank : Entry
blank = record { data_of = []; len = 0 }

-- `memset` of `n` entries
pub zeroed : ℕ → List Entry
zeroed n = replicate n (record { data_of = replicate entry_size 0; len = 0 })

-- The flag is whether the allocation succeeds; with the new state it is returned whether the
-- failure is reported.
pub ring_init : Bool → Ring → Ring × Bool
ring_init allocated r =
    if r.inited
    then (r, false)
    else if not allocated
    then (record r { ring = none }, true)
    else (record { ring = some (zeroed capacity); head = 0; count = 0; inited = true }, false)

-- `memcpy(e->data, line, len); e->data[len] = 0; e->len = len;`
abbrev pub fill : Entry → Bytes → ℕ → Entry
fill e line len = record { data_of = take len line ++ (0 ∷ drop (len + 1) e.data_of); len = len }

push_into : List Entry → Ring → Bytes → ℕ → Ring
push_into es r line len =
    let len = if leb entry_size len then entry_size - 1 else len in
    record r {
      ring = some (set es r.head (fill (get_or es r.head blank) line len));
      head = (r.head + 1) % capacity;
      count = if ltb r.count capacity then r.count + 1 else r.count;
    }

pub ring_push : Ring → Bytes → ℕ → Ring
unfolding push_into
ring_push r line len =
    if not r.inited then r else elim r.ring [ none ↦ r | some es ↦ push_into es r line len ]

-- the `write` calls of `hx_ring_dump_fd` from index `k` on, with `n` rounds to go
pub dump_from : List Entry → ℕ → ℕ → List Bytes
dump_from es k zero = []
dump_from es k (suc n) =
    let e = get_or es (k % capacity) blank in take e.len e.data_of ∷ dump_from es (k + 1) n

pub ring_dump : Ring → List Bytes
ring_dump r = if not r.inited then [] else elim r.ring [
  | none ↦ []
  | some es ↦ dump_from es ((r.head + capacity - r.count) % capacity) r.count
]

pub ring_destroy : Ring → Ring
ring_destroy r =
    if not r.inited then r else record { ring = none; head = 0; count = 0; inited = false }
