-- ===== src/Context.antt =====
-- src/hx_clog_core.c: the context of a thread, a small table of texts that its log lines carry.
pub mod Table
mod Tests
use hx_clog.Common.{
  ℕ, zero, suc, ◌+◌, ◌-◌, Bool, true, false, not, ◌&&◌, ◌||◌, List, [], ◌∷◌, ◌++◌, Option, none,
  some, ltb, leb, ◌==◌, if◌then◌else◌, Bytes, length, take, eqs,
}
use hx_clog.Status.{Status}

-- `HX_CONTEXT_MAX_ITEMS`, `HX_CONTEXT_KEY_MAX` and `HX_CONTEXT_VALUE_MAX`
abbrev pub max_items : ℕ
max_items = 16

abbrev pub key_max : ℕ
key_max = 64

abbrev pub value_max : ℕ
value_max = 128

-- an index of the arrays `keys` and `values`
pub record Item : Type 0 where
  pub key : Bytes
  pub value : Bytes

-- `strncmp(stored, key, HX_CONTEXT_KEY_MAX - 1) == 0`
unfoldable pub same_key : Bytes → Bytes → Bool
same_key stored key = eqs (take (key_max - 1) stored) (take (key_max - 1) key)

unfoldable pub find_key : List Item → Bytes → Option ℕ
find_key [] key = none
find_key (i ∷ items) key =
    let later = find_key items key in
    if same_key i.key key then some 0 else elim later [ none ↦ none | some n ↦ some (suc n) ]

-- `context_key_index`, `none` for -1; a key is never null here
unfoldable pub context_key_index : List Item → Bytes → Option ℕ
context_key_index items [] = none
context_key_index items (c ∷ key) = find_key items (c ∷ key)

unfoldable pub set_value : List Item → ℕ → Bytes → List Item
set_value [] n value = []
set_value (i ∷ items) zero value = record i { value = take (value_max - 1) value } ∷ items
set_value (i ∷ items) (suc n) value = i ∷ set_value items n value

-- a key that is not there yet
unfoldable pub put_new : List Item → Bytes → Bytes → Status × List Item
put_new items key value =
    if leb max_items (length items) then (Status.invalid_argument, items) else (
      Status.ok,
      items ++ record { key = take (key_max - 1) key; value = take (value_max - 1) value } ∷ [],
    )

unfoldable pub put_at : List Item → Bytes → Bytes → Option ℕ → Status × List Item
put_at items key value (some n) = (Status.ok, set_value items n value)
put_at items key value none = put_new items key value

-- `hx_clog_context_put` with a key and a value at hand
unfoldable pub put_text : List Item → Bytes → Bytes → Status × List Item
put_text items key value = put_at items key value (context_key_index items key)

-- `none` is a null pointer
unfoldable pub context_put : List Item → Option Bytes → Option Bytes → Status × List Item
context_put items none value = (Status.invalid_argument, items)
context_put items (some []) value = (Status.invalid_argument, items)
context_put items (some (c ∷ key)) none = (Status.invalid_argument, items)
context_put items (some (c ∷ key)) (some value) = put_text items (c ∷ key) value

-- the items behind index `n` move down
unfoldable pub remove_at : List Item → ℕ → List Item
remove_at [] n = []
remove_at (i ∷ items) zero = items
remove_at (i ∷ items) (suc n) = i ∷ remove_at items n

unfoldable pub context_remove : List Item → Option Bytes → List Item
context_remove items none = items
context_remove items (some key) = elim (context_key_index items key) [
  | none ↦ items
  | some n ↦ remove_at items n
]

unfoldable pub context_clear : List Item → List Item
context_clear items = []

-- the space before an item that is not the first
abbrev pub parted : Bytes → Bytes
parted out = if ltb 0 (length out) then out ++ b' ' ∷ [] else out

-- the loop of `hx_context_snapshot_text`, with what it has put into the buffer
unfoldable pub snapshot_from : ℕ → Bytes → List Item → Bytes
snapshot_from cap out [] = out
snapshot_from cap out (i ∷ items) =
    let need = length i.key + length i.value + 2 in
    let more = snapshot_from cap (parted out ++ i.key ++ b'=' ∷ i.value) items in
    if ltb 0 (length out) && leb cap (length out + 1)
    then out
    else if leb cap (length (parted out) + need)
    then parted out
    else more

-- the text that is left in a buffer of `cap` bytes, which is not null
unfoldable pub snapshot_text : List Item → ℕ → Bytes
snapshot_text items cap = if cap == 0 then [] else snapshot_from cap [] items
