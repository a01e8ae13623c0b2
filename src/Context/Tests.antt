-- ===== src/Context/Tests.antt =====
-- src/hx_clog_core.c: the theorems on the context at a table of one key.
use hx_clog.Common.{◌≤◌, ◌<◌, ◌≡◌, ◌⊎◌, List, [], ◌∷◌, none, arith, Bytes, codes, length}
use hx_clog.Status.{Status}
use hx_clog.Context.{max_items, Item, find_key, put_text, snapshot_text}
use hx_clog.Context.Table.{lookup, updated, put_text-lookup, snapshot_text-length}

abbrev one_item : List Item
one_item = record { key = codes "user"; value = codes "ann" } ∷ []

put_text-lookup_example :
    ((put_text one_item (codes "id") (codes "7")).0 ≡ Status.ok)
      × ((l : Bytes)
          → lookup (put_text one_item (codes "id") (codes "7")).1 l
            ≡ updated one_item (codes "id") (codes "7") l)
    ⊎ ((put_text one_item (codes "id") (codes "7") ≡ (Status.invalid_argument, one_item))
        × (max_items ≤ 1)
        × (find_key one_item (codes "id") ≡ none))
put_text-lookup_example = put_text-lookup one_item (codes "id") (codes "7") (λ e. cc)

snapshot_text-length_example : length (snapshot_text one_item 4) < 4
snapshot_text-length_example = snapshot_text-length one_item 4 (omega arith)
