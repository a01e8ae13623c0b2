-- ===== src/CrashRing/History.antt =====
-- src/hx_clog_core.c: the crash ring over a whole run of lines.
use hx_clog.Common.{
  ℕ, ◌-◌, ◌≤◌, ◌≡◌, refl, ◌∙◌, sym, ap, map, true, false, List, [], ◌∷◌, ◌++◌, some, arith, Bytes,
  length, drop, length-append, append-nil, length-drop, drop-append_le, drop-drop, length-replicate,
  append-nil, length-drop, drop-append_le, drop-drop, length-replicate, append_assoc,
}
use hx_clog.CrashRing.{capacity, Entry, Ring, zeroed, ring_init, ring_push, dump_from, ring_dump}
use hx_clog.CrashRing.Window.{
  IsValid, clip, last_n, last_n-of_le, ring_dump_valid, start, length-dump_from, ring_push_lem,
}

pub push_all : Ring → List Bytes → Ring
push_all r [] = r
push_all r (l ∷ ls) = push_all (ring_push r l (length l)) ls

last_n-append {ℓ} :
    {A : Type ℓ} (n : ℕ) (xs ys : List A) → last_n n (last_n n xs ++ ys) ≡ last_n n (xs ++ ys)
last_n-append n xs ys =
    let k = length xs - n in
    rw (drop-append_le k xs ys (omega arith)) (
      drop-drop (length (drop k (xs ++ ys)) - n) k (xs ++ ys)
      ∙ dropped (omega (arith, length-drop k (xs ++ ys), length-append xs ys)))
  where
    dropped :
        {i : ℕ}
        → i ≡ length (xs ++ ys) - n
        → drop i (xs ++ ys) ≡ drop (length (xs ++ ys) - n) (xs ++ ys)
    dropped e = rw e

push_all-dump :
    (lines : List Bytes) (es : List Entry) (r : Ring)
    → IsValid es r
    → ring_dump (push_all r lines)
      ≡ last_n capacity (ring_dump r ++ map (λ l. clip l (length l)) lines)
unfolding push_all
push_all-dump [] es r v =
    sym
      (ap (last_n capacity) (append-nil (ring_dump r)) ∙ last_n-of_le capacity (ring_dump r) short)
  where
    short : length (ring_dump r) ≤ capacity
    short =
        rw (ring_dump_valid v) (omega (arith, length-dump_from es (start r) r.count, v.count_in))
push_all-dump (l ∷ ls) es r v =
    let ((es', v'), e) = ring_push_lem es r l (length l) (omega arith) v in
    push_all-dump ls es' (ring_push r l (length l)) v'
    ∙ rw e (last_n-append capacity (ring_dump r ++ clip l (length l) ∷ []) _)
    ∙ ap (last_n capacity) (append_assoc (ring_dump r) (clip l (length l) ∷ []) _)

pub length-zeroed : (n : ℕ) → length (zeroed n) ≡ n
unfolding zeroed
length-zeroed n = length-replicate n _

-- After `hx_ring_init` of an uninitialised ring, with the memory at hand, and any sequence of
-- lines, the dump is the last `capacity` of those lines, oldest first, each cut to an entry's size.
pub ring_dump_history :
    (r : Ring) (lines : List Bytes)
    → r.inited ≡ false
    → ring_dump (push_all (ring_init true r).0 lines)
      ≡ last_n capacity (map (λ l. clip l (length l)) lines)
unfolding ring_init
ring_dump_history r lines e = rw e (
    push_all-dump lines (zeroed capacity) ready (record {
      inited = refl;
      ring = refl;
      size = length-zeroed capacity;
      head_in = omega arith;
      count_in = omega arith;
    })
    ∙ ap (λ xs. last_n capacity (xs ++ map (λ l. clip l (length l)) lines)) empty)
  where
    ready : Ring
    ready = record { ring = some (zeroed capacity); head = 0; count = 0; inited = true }

    empty : ring_dump ready ≡ []
    empty = unfold ring_dump dump_from in refl
