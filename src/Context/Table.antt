-- ===== src/Context/Table.antt =====
-- src/hx_clog_core.c: the context as a table from keys to values.
use mathlib.Core.Bool.{true≢false}
use hx_clog.Common.{
  ℕ, suc, ◌+◌, ◌-◌, ◌≤◌, ◌<◌, ◌≡◌, refl, ◌∙◌, sym, ap, Bool, true, false, ◌&&◌, List, [], ◌∷◌, ◌++◌,
  Option, none, some, ltb, leb, arith, inl, inr, if◌then◌else◌, Bool-cases, Option-cases, leb→gt,
  leb→le, ◌⊎◌, ◌≢◌, Bytes, length, length-append, take, take-of_le, length-take, eqs_iff, ne→==,
}
use hx_clog.Status.{Status}
use hx_clog.Context.{
  max_items, key_max, value_max, Item, same_key, find_key, context_key_index, set_value, put_at,
  put_new, put_text, parted, snapshot_from, snapshot_text,
}

-- the value of a key
pub lookup : List Item → Bytes → Option Bytes
lookup [] key = none
lookup (i ∷ items) key =
    let later = lookup items key in if same_key i.key key then some i.value else later

parted-length :
    (out : Bytes) (cap : ℕ)
    → (ltb 0 (length out) && leb cap (length out + 1)) ≡ false
    → length out < cap
    → length (parted out) < cap
parted-length out cap room h = elim (Bool-cases (ltb 0 (length out))) [
  | inr e ↦ rw e h
  | inl any ↦
      let room' : leb cap (length out + 1) ≡ false = rw any at room in
      rw any (omega (arith, length-append out (b' ' ∷ []), leb→gt cap (length out + 1) room'))
]

snapshot_from-length :
    (items : List Item) (cap : ℕ) (out : Bytes)
    → length out < cap
    → length (snapshot_from cap out items) < cap
unfolding snapshot_from
snapshot_from-length [] cap out h = h
snapshot_from-length (i ∷ items) cap out h =
    let need = length i.key + length i.value + 2 in
    let total = length-append (parted out ++ i.key) (b'=' ∷ i.value) in
    let front = length-append (parted out) i.key in
    elim (Bool-cases (ltb 0 (length out) && leb cap (length out + 1))) [
      | inl full ↦ simp full h
      | inr room ↦ elim (Bool-cases (leb cap (length (parted out) + need))) [
        | inl long ↦ simp (room, long) (parted-length out cap room h)
        | inr fits ↦
            simp (room, fits)
              (snapshot_from-length items cap (parted out ++ i.key ++ b'=' ∷ i.value)
                (omega (arith, leb→gt cap (length (parted out) + need) fits)))
      ]
    ]

-- The text of a context fits with its NUL into every buffer of a positive size.
pub snapshot_text-length :
    (items : List Item) (cap : ℕ) → 0 < cap → length (snapshot_text items cap) < cap
unfolding snapshot_text
snapshot_text-length items cap h =
    rw (ne→== cap 0 (omega arith)) (snapshot_from-length items cap [] h)

same_key_trans : (s k l : Bytes) → same_key s k ≡ true → same_key s l ≡ same_key k l
unfolding same_key
same_key_trans s k l h =
    let e : take (key_max - 1) s ≡ take (key_max - 1) k =
      (eqs_iff (take (key_max - 1) s) (take (key_max - 1) k)).0 h in
    rw e refl

same_key-sym : (s k : Bytes) → same_key s k ≡ true → same_key k s ≡ true
unfolding same_key
same_key-sym s k h =
    let e = (eqs_iff (take (key_max - 1) s) (take (key_max - 1) k)).0 h in
    (eqs_iff (take (key_max - 1) k) (take (key_max - 1) s)).1 (sym e)

same_key-take : (k l : Bytes) → same_key (take (key_max - 1) k) l ≡ same_key k l
unfolding same_key
same_key-take k l =
    let e : take (key_max - 1) (take (key_max - 1) k) ≡ take (key_max - 1) k =
      take-of_le (key_max - 1) (take (key_max - 1) k)
        (omega (arith, length-take (key_max - 1) k)) in
    rw e refl

-- two keys that are not the same are not both the same as a third
same_key-both : (s k l : Bytes) → same_key s k ≡ false → same_key k l ≡ true → same_key s l ≡ false
same_key-both s k l h e = elim (Bool-cases (same_key s l)) [
  | inr d ↦ d
  | inl d ↦
      let same : same_key s k ≡ true =
        same_key-sym k s (sym (same_key_trans l k s (same_key-sym k l e)) ∙ same_key-sym s l d) in
      absurd (true≢false (sym same ∙ h))
]

-- the value that key `l` has when key `key` has been given `value`
abbrev pub updated : List Item → Bytes → Bytes → Bytes → Option Bytes
updated items key value l =
    if same_key key l then some (take (value_max - 1) value) else lookup items l

-- an item that has the key, before the others are looked at, when both are updated or neither
updated-here :
    (sk : Bool) (new old rest : Option Bytes)
    → (if sk then new else rest) ≡ (if sk then new else (if sk then old else rest))
updated-here true new old rest = refl
updated-here false new old rest = refl

updated-later :
    (si sk : Bool) (new old rest : Option Bytes)
    → (sk ≡ true → si ≡ false)
    → (if si then old else (if sk then new else rest))
      ≡ (if sk then new else (if si then old else rest))
updated-later true true new old rest h = absurd (true≢false (h refl))
updated-later true false new old rest h = refl
updated-later false sk new old rest h = refl

lookup-set_value :
    (items : List Item) (n : ℕ) (key value l : Bytes)
    → find_key items key ≡ some n
    → lookup (set_value items n value) l ≡ updated items key value l
unfolding lookup find_key set_value
lookup-set_value [] n key value l h = cc
lookup-set_value (i ∷ items) n key value l h =
    let tv = some (take (value_max - 1) value) in
    elim (Bool-cases (same_key i.key key)) [
      | inl e ↦
          let first : some 0 ≡ some n = rw e at h in
          let zero_n : n ≡ 0 = cc in
          rw (zero_n, same_key_trans i.key key l e)
            (updated-here (same_key key l) tv (some i.value) (lookup items l))
      | inr e ↦ elim (Option-cases (find_key items key)) [
        | inl absent ↦ let clash : none ≡ some n = rw (e, absent) at h in cc
        | inr (m, later) ↦
            let next : some (suc m) ≡ some n = rw (e, later) at h in
            let n_eq : n ≡ suc m = cc in
            rw (n_eq, lookup-set_value items m key value l later)
              (updated-later (same_key i.key l) (same_key key l) tv (some i.value) (lookup items l)
                (same_key-both i.key key l e))
      ]
    ]

lookup-append :
    (items : List Item) (key value l : Bytes)
    → find_key items key ≡ none
    → lookup
        (items ++ record { key = take (key_max - 1) key; value = take (value_max - 1) value } ∷ [])
        l
      ≡ updated items key value l
unfolding lookup find_key
lookup-append [] key value l h = rw (same_key-take key l) refl
lookup-append (i ∷ items) key value l h =
    let tv = some (take (value_max - 1) value) in
    elim (Bool-cases (same_key i.key key)) [
      | inl e ↦ let clash : some 0 ≡ none = rw e at h in cc
      | inr e ↦ elim (Option-cases (find_key items key)) [
        | inr (m, later) ↦ let clash : some (suc m) ≡ none = rw (e, later) at h in cc
        | inl absent ↦ rw (lookup-append items key value l absent) (
            updated-later (same_key i.key l) (same_key key l) tv (some i.value) (lookup items l)
              (same_key-both i.key key l e))
      ]
    ]

-- Putting a value under a key that is not empty succeeds, and then that key has the value, cut to
-- 127 bytes, and every other key what it had; or it fails and changes nothing, which is when the
-- table is full and has not the key. Keys are compared by their first 63 bytes.
pub put_text-lookup :
    (items : List Item) (key value : Bytes)
    → key ≢ []
    → ((put_text items key value).0 ≡ Status.ok)
        × ((l : Bytes) → lookup (put_text items key value).1 l ≡ updated items key value l)
      ⊎ ((put_text items key value ≡ (Status.invalid_argument, items))
          × (max_items ≤ length items)
          × (find_key items key ≡ none))
unfolding put_text put_at put_new context_key_index
put_text-lookup items [] value nonempty = absurd (nonempty refl)
put_text-lookup items (c ∷ key) value nonempty = elim (Option-cases (find_key items (c ∷ key))) [
  | inr (n, found) ↦
      let at : put_text items (c ∷ key) value ≡ (Status.ok, set_value items n value) =
        ap (put_at items (c ∷ key) value) found in
      inl (
        ap (λ r. r.0) at,
        λ l. ap (λ r. lookup r.1 l) at ∙ lookup-set_value items n (c ∷ key) value l found,
      )
  | inl absent ↦
      let at : put_text items (c ∷ key) value ≡ put_new items (c ∷ key) value =
        ap (put_at items (c ∷ key) value) absent in
      elim (Bool-cases (leb max_items (length items))) [
        | inl full ↦
            let new : put_new items (c ∷ key) value ≡ (Status.invalid_argument, items) =
              rw full refl in
            inr (at ∙ new, leb→le max_items (length items) full, absent)
        | inr room ↦
            let last : Item = record {
              key = take (key_max - 1) (c ∷ key);
              value = take (value_max - 1) value;
            } in
            let new : put_new items (c ∷ key) value ≡ (Status.ok, items ++ last ∷ []) =
              rw room refl in
            inl (
              ap (λ r. r.0) (at ∙ new),
              λ l. ap (λ r. lookup r.1 l) (at ∙ new) ∙ lookup-append items (c ∷ key) value l absent,
            )
      ]
]
