-- ===== src/CrashRing/Window.antt =====
-- The ring holds the last `capacity` lines that were pushed, each cut to an entry's size.
use native.Mathlib.Decide.{dec_lt}
use hx_clog.Common.{
  ℕ, zero, suc, ◌+◌, ◌-◌, ◌%◌, ◌≤◌, ◌<◌, ◌≡◌, ◌≢◌, refl, ◌∙◌, sym, ap, ap₂, true, List, [], ◌∷◌,
  ◌++◌, some, ltb, leb, if◌then◌else◌, lt→ltb, ge→ltb, arith, Bytes, length, take, drop, get_or,
  set, length-set, get_or-set_self, get_or-set_ne, length-take, length-append, take-length-append,
}
use hx_clog.CrashRing.{
  capacity, entry_size, Entry, Ring, blank, fill, ring_push, push_into, dump_from, ring_dump,
}

abbrev pub text_of : Entry → Bytes
text_of e = take e.len e.data_of

-- what an entry keeps of a line
abbrev pub clip : Bytes → ℕ → Bytes
clip line len = take (if leb entry_size len then entry_size - 1 else len) line

-- the last `n` of a list
abbrev pub last_n {ℓ} : {A : Type ℓ} → ℕ → List A → List A
last_n n xs = drop (length xs - n) xs

pub record IsValid (es : List Entry) (r : Ring) : Type 0 where
  pub inited : r.inited ≡ true
  pub ring : r.ring ≡ some es
  pub size : length es ≡ capacity
  pub head_in : r.head < capacity
  pub count_in : r.count ≤ capacity

text_of-fill :
    (e : Entry) (line : Bytes) (len : ℕ)
    → len ≤ length line
    → text_of (fill e line len) ≡ take len line
text_of-fill e line len h =
    ap (λ k. take k (take len line ++ (0 ∷ drop (len + 1) e.data_of))) (len_eq)
    ∙ take-length-append (take len line) (0 ∷ drop (len + 1) e.data_of)
  where
    len_eq : len ≡ length (take len line)
    len_eq = omega (arith, length-take len line)

dump_from-snoc :
    (es : List Entry) (k n : ℕ)
    → dump_from es k (suc n)
      ≡ dump_from es k n ++ text_of (get_or es ((k + n) % capacity) blank) ∷ []
unfolding dump_from
dump_from-snoc es k zero = ap (λ j. text_of (get_or es (j % capacity) blank) ∷ []) (omega arith)
dump_from-snoc es k (suc n) = ap (◌∷◌ (text_of (get_or es (k % capacity) blank))) (
    dump_from-snoc es (k + 1) n
    ∙ ap (λ j. dump_from es (k + 1) n ++ text_of (get_or es (j % capacity) blank) ∷ [])
        (omega arith))

-- An entry outside the window may be written.
dump_from-set :
    (es : List Entry) (e : Entry) (h k n : ℕ)
    → ((j : ℕ) → j < n → h ≢ (k + j) % capacity)
    → dump_from (set es h e) k n ≡ dump_from es k n
unfolding dump_from
dump_from-set es e h k zero out = refl
dump_from-set es e h k (suc n) out =
    ap₂ ◌∷◌ (ap text_of (get_or-set_ne es e blank (λ q. out 0 (omega arith) (omega arith))))
      (dump_from-set es e h (k + 1) n (λ j hj q. out (j + 1) (omega arith) (omega arith)))

dump_from-cong :
    (es : List Entry) (k j n : ℕ)
    → k % capacity ≡ j % capacity
    → dump_from es k n ≡ dump_from es j n
unfolding dump_from
dump_from-cong es k j zero e = refl
dump_from-cong es k j (suc n) e =
    ap₂ ◌∷◌ (ap (λ i. text_of (get_or es i blank)) e)
      (dump_from-cong es (k + 1) (j + 1) n (omega arith))

pub length-dump_from : (es : List Entry) (k n : ℕ) → length (dump_from es k n) ≡ n
unfolding dump_from
length-dump_from es k zero = refl
length-dump_from es k (suc n) = ap suc (length-dump_from es (k + 1) n)

abbrev pub start : Ring → ℕ
start r = (r.head + capacity - r.count) % capacity

pub ring_dump_valid :
    {es : List Entry} {r : Ring} → IsValid es r → ring_dump r ≡ dump_from es (start r) r.count
unfolding ring_dump
ring_dump_valid v = rw (v.inited, v.ring, ring_dump)

module _ (es : List Entry) (e : Entry) (h : ℕ) (size : length es ≡ capacity)
    (inside : h < capacity) where
  -- The entry written at `h` stands behind a window of fewer than `capacity` entries that ends there.
  written_last :
      (k n : ℕ)
      → n < capacity
      → (k + n) % capacity ≡ h
      → dump_from (set es h e) k (suc n) ≡ dump_from es k n ++ text_of e ∷ []
  written_last k n small at_h =
      dump_from-snoc (set es h e) k n
      ∙ ap₂ (λ xs x. xs ++ text_of x ∷ []) (dump_from-set es e h k n (λ j hj q. omega arith))
          (ap (λ i. get_or (set es h e) i blank) at_h ∙ get_or-set_self es h e blank (omega arith))

  -- the same for a full ring, whose oldest entry stood at `h`
  written_full :
      (n : ℕ)
      → n + 1 ≡ capacity
      → dump_from (set es h e) (h + 1) (suc n) ≡ drop 1 (dump_from es h (suc n)) ++ text_of e ∷ []
  unfolding dump_from
  written_full n full = written_last (h + 1) n (omega arith) (omega arith)

-- the state after a push, with the entry `e` written at the head
abbrev pushed : List Entry → Ring → Entry → Ring
pushed es r e = record r {
  ring = some (set es r.head e);
  head = (r.head + 1) % capacity;
  count = if ltb r.count capacity then r.count + 1 else r.count;
}

new_entry : List Entry → Ring → Bytes → ℕ → Entry
new_entry es r line len =
    fill (get_or es r.head blank) line (if leb entry_size len then entry_size - 1 else len)

clipped :
    (es : List Entry) (r : Ring) (line : Bytes) (len : ℕ)
    → len ≤ length line
    → text_of (new_entry es r line len) ≡ clip line len
unfolding new_entry
clipped es r line len h =
    text_of-fill (get_or es r.head blank) line (if leb entry_size len then entry_size - 1 else len)
      (ground arith)

ring_push_valid :
    {es : List Entry} {r : Ring} (line : Bytes) (len : ℕ)
    → IsValid es r
    → ring_push r line len ≡ pushed es r (new_entry es r line len)
unfolding ring_push push_into new_entry
ring_push_valid line len v = ground arith

pushed-IsValid :
    {es : List Entry} {r : Ring} (e : Entry)
    → IsValid es r
    → IsValid (set es r.head e) (pushed es r e)
pushed-IsValid {es} {r} e v = record {
  inited = v.inited;
  ring = refl;
  size = length-set es r.head e ∙ v.size;
  head_in = omega arith;
  count_in = ground arith;
}

pub last_n-of_le {ℓ} : {A : Type ℓ} (n : ℕ) (xs : List A) → length xs ≤ n → last_n n xs ≡ xs
last_n-of_le n xs h = let e : length xs - n ≡ 0 = omega arith in rw e

drop_one-append {ℓ} :
    {A : Type ℓ} (xs ys : List A) → 0 < length xs → drop 1 (xs ++ ys) ≡ drop 1 xs ++ ys
drop_one-append [] ys h = absurd (omega arith)
drop_one-append (x ∷ xs) ys h = refl

module _ (es : List Entry) (r : Ring) (e : Entry) (v : IsValid es r) where
  window_more :
      r.count < capacity
      → dump_from
          (set es r.head e)
          (((r.head + 1) % capacity + capacity - (r.count + 1)) % capacity)
          (r.count + 1)
        ≡ dump_from es (start r) r.count ++ text_of e ∷ []
  window_more more =
      dump_from-cong (set es r.head e) _ (start r) (r.count + 1) (omega arith)
      ∙ ap (dump_from (set es r.head e) (start r)) (omega arith)
      ∙ written_last es e r.head v.size v.head_in (start r) r.count more (omega arith)

  window_full :
      r.count ≡ capacity
      → dump_from
          (set es r.head e)
          (((r.head + 1) % capacity + capacity - r.count) % capacity)
          r.count
        ≡ drop 1 (dump_from es (start r) r.count) ++ text_of e ∷ []
  window_full full =
      let n = r.count - 1 in
      let c : r.count ≡ suc n = omega arith in
      dump_from-cong (set es r.head e) _ (r.head + 1) r.count (omega arith)
      ∙ ap (dump_from (set es r.head e) (r.head + 1)) c
      ∙ written_full es e r.head v.size v.head_in n (omega arith)
      ∙ ap (λ xs. drop 1 xs ++ text_of e ∷ [])
          (dump_from-cong es r.head (start r) (suc n) (omega arith)
            ∙ ap (dump_from es (start r)) (sym c))

dump-pushed :
    {es : List Entry} {r : Ring} (e : Entry)
    → IsValid es r
    → ring_dump (pushed es r e) ≡ last_n capacity (ring_dump r ++ text_of e ∷ [])
dump-pushed {es} {r} e v =
    let old = dump_from es (start r) r.count in
    let n = length-dump_from es (start r) r.count in
    let total = length-append old (text_of e ∷ []) in
    ring_dump_valid (pushed-IsValid e v)
    ∙ rw (ring_dump_valid v) (elim (dec_lt r.count capacity) [
      | yes more ↦
          rw (lt→ltb r.count capacity more)
            (window_more es r e v more ∙ sym (last_n-of_le capacity _ (omega arith)))
      | no full ↦
          let one : length (old ++ text_of e ∷ []) - capacity ≡ 1 = omega (arith, v.count_in) in
          rw (ge→ltb r.count capacity (omega arith), one)
            (window_full es r e v (omega (arith, v.count_in))
              ∙ sym (drop_one-append old (text_of e ∷ []) (omega arith)))
    ])

-- Pushing a line onto a valid ring keeps it valid, and the dump then ends with that line, cut to an
-- entry's size, behind the lines dumped before, of which the oldest is gone if the ring was full.
pub ring_push_lem :
    (es : List Entry) (r : Ring) (line : Bytes) (len : ℕ)
    → len ≤ length line
    → IsValid es r
    → ((es' : List Entry) × IsValid es' (ring_push r line len))
      × (ring_dump (ring_push r line len) ≡ last_n capacity (ring_dump r ++ clip line len ∷ []))
ring_push_lem es r line len h v =
    let e = new_entry es r line len in
    rw (ring_push_valid line len v) (
      (set es r.head e, pushed-IsValid e v),
      dump-pushed e v ∙ ap (λ x. last_n capacity (ring_dump r ++ x ∷ [])) (clipped es r line len h),
    )
