-- ===== src/Rotate/Cleanup.antt =====
-- src/hx_clog_rotate.c: `hx_rotate_cleanup`, which enforces the limits on the archives. The files are
-- removed and compressed by the system: the definitions take its answers.
pub mod Order
pub mod Kept
use hx_clog.Common.{
  ℕ, zero, suc, ◌+◌, ◌-◌, ◌*◌, Bool, true, false, not, ◌&&◌, ◌||◌, List, [], ◌∷◌, ◌++◌, reverse,
  Option, none, some, ltb, leb, ◌==◌, if◌then◌else◌, Bytes, codes, take, eqs,
}
use hx_clog.Common.Int.{ℤ, less, positive}
use hx_clog.Rotate.{cut, split_name}
use hx_clog.Rotate.Match.{archive_name_match, archive_order_key}

-- `compressed`: 0, 1 (`.gz` on the disk) and 2 (compressed just now, the name lacks the `.gz`)
pub data Form : Type 0 where
  plain gz fresh : Form

-- one index of the four arrays; the name is empty once the file is removed
pub record Backup : Type 0 where
  pub name : Bytes
  pub mtime : ℕ
  pub key : ℤ
  pub form : Form

unfoldable pub is_plain : Form → Bool
is_plain Form.plain = true
is_plain _ = false

unfoldable pub is_empty : Bytes → Bool
is_empty [] = true
is_empty (c ∷ s) = false

-- the fields of `collect_ctx` that change
pub record Collected : Type 0 where
  pub backups : List Backup
  pub count : ℕ
  pub cap : ℕ
  pub oom : Bool

-- `collect_grow`; `given`: the four arrays could be allocated
pub collect_grow : Bool → Collected → Collected
collect_grow given c = if given then record c { cap = c.cap * 2 } else record c { oom = true }

-- the name at the end of the arrays
unfoldable pub collect_add : (Bytes → ℕ) → Bytes → Bytes → Bool → Collected → Collected
collect_add stat prefix fname compressed c =
    let backup : Backup = record {
      name = take 255 fname;
      mtime = stat fname;
      key = archive_order_key fname prefix (ℤ.pos (stat fname));
      form = if compressed then Form.gz else Form.plain;
    } in
    record c { backups = c.backups ++ backup ∷ []; count = c.count + 1 }

-- `collect_cb`; `stat` is a file's time, or 0
unfoldable pub collect_cb :
    (Bytes → ℕ) → Bool → Bytes → Bytes → Bytes → Collected → Bytes → Collected
collect_cb stat given prefix ext active c fname =
    let roomy = if leb c.cap c.count then collect_grow given c else c in
    if c.oom
    then c
    else if eqs fname active
    then c
    else elim (archive_name_match fname prefix ext) [
      | none ↦ c
      | some compressed ↦
          if roomy.oom then roomy else collect_add stat prefix fname compressed roomy
    ]

unfoldable pub collect :
    (Bytes → ℕ) → Bool → Bytes → Bytes → Bytes → Collected → List Bytes → Collected
collect stat given prefix ext active c [] = c
collect stat given prefix ext active c (fname ∷ names) =
    collect stat given prefix ext active (collect_cb stat given prefix ext active c fname) names

-- The inner loop of the sort: the backup finds its place in what is sorted, the last backup first.
unfoldable pub sink : Backup → List Backup → List Backup
sink b [] = b ∷ []
sink b (x ∷ xs) = let behind = sink b xs in if less b.key x.key then x ∷ behind else b ∷ x ∷ xs

unfoldable pub sort_onto : List Backup → List Backup → List Backup
sort_onto sorted [] = reverse sorted
sort_onto sorted (b ∷ bs) = sort_onto (sink b sorted) bs

-- oldest first
unfoldable pub sort : List Backup → List Backup
sort bs = sort_onto [] bs

-- 1. The files that are too old are removed, and lose their names.
unfoldable pub drop_old : ℤ → ℕ → List Backup → List Backup
drop_old max_backup_days now [] = []
drop_old max_backup_days now (b ∷ bs) =
    let rest = drop_old max_backup_days now bs in
    let days = positive max_backup_days in
    (if ltb 0 days && ltb 0 b.mtime && ltb (b.mtime + days * 86400) now
      then record b { name = [] }
      else b)
    ∷ rest

-- the backups that have their names
unfoldable pub compact : List Backup → List Backup
compact [] = []
compact (b ∷ bs) = let rest = compact bs in if is_empty b.name then rest else b ∷ rest

unfoldable pub count_plain : List Backup → ℕ
count_plain [] = 0
count_plain (b ∷ bs) = (if is_plain b.form then 1 else 0) + count_plain bs

-- `compress_or_delete_backup` that succeeded, in the build with zlib and in that without
unfoldable pub compressed_to : Bool → Backup → Backup
compressed_to zlib b = if zlib then record b { form = Form.fresh } else record b { name = [] }

-- 2. `extra` plain backups are compressed or deleted, as far as `archives` succeeds.
unfoldable pub compress_extra : Bool → (Bytes → Bool) → ℕ → List Backup → List Backup
compress_extra zlib archives zero bs = bs
compress_extra zlib archives (suc extra) [] = []
compress_extra zlib archives (suc extra) (b ∷ bs) =
    let done = compressed_to zlib b ∷ compress_extra zlib archives extra bs in
    let skipped = b ∷ compress_extra zlib archives (suc extra) bs in
    if is_plain b.form && not (is_empty b.name) && archives b.name then done else skipped

unfoldable pub keep_plain : Bool → (Bytes → Bool) → ℤ → List Backup → List Backup
keep_plain zlib archives max_backup_files bs =
    let limit = positive max_backup_files in
    if ltb 0 limit then compress_extra zlib archives (count_plain bs - limit) bs else bs

unfoldable pub is_gz : Backup → Bool
is_gz b = not (is_empty b.name) && not (is_plain b.form)

unfoldable pub count_gz : List Backup → ℕ
count_gz [] = 0
count_gz (b ∷ bs) = (if is_gz b then 1 else 0) + count_gz bs

-- the name that a compressed backup has on the disk
unfoldable pub disk_name : Backup → Bytes
disk_name b = elim b.form [ Form.fresh ↦ b.name ++ codes ".gz" | _ ↦ b.name ]

-- 3. `extra` compressed backups are deleted, as far as `removes` succeeds.
unfoldable pub remove_extra : (Bytes → Bool) → ℕ → List Backup → List Backup
remove_extra removes zero bs = bs
remove_extra removes (suc extra) [] = []
remove_extra removes (suc extra) (b ∷ bs) =
    let done = record b { name = [] } ∷ remove_extra removes extra bs in
    let skipped = b ∷ remove_extra removes (suc extra) bs in
    if is_gz b && removes (disk_name b) then done else skipped

-- the limit on compressed backups; 0 or less: there is none
unfoldable pub gz_cap : ℤ → ℤ → ℕ
gz_cap (ℤ.negsuc n) max_backup_files = 0
gz_cap (ℤ.pos zero) max_backup_files = positive max_backup_files
gz_cap (ℤ.pos (suc n)) max_backup_files = suc n

unfoldable pub keep_gz : (Bytes → Bool) → ℤ → ℤ → List Backup → List Backup
keep_gz removes max_compressed_files max_backup_files bs =
    let limit = gz_cap max_compressed_files max_backup_files in
    if ltb 0 limit then remove_extra removes (count_gz bs - limit) bs else bs

pub record Limits : Type 0 where
  pub max_backup_files : ℤ
  pub max_backup_days : ℤ
  pub max_compressed_files : ℤ

-- `hx_rotate_cleanup` from the sort on
unfoldable pub enforce :
    Bool → (Bytes → Bool) → (Bytes → Bool) → ℕ → Limits → List Backup → List Backup
enforce zlib archives removes now l bs = keep_gz removes l.max_compressed_files l.max_backup_files (
    keep_plain zlib archives l.max_backup_files
      (compact (drop_old l.max_backup_days now (sort bs))))
