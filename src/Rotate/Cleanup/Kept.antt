-- ===== src/Rotate/Cleanup/Kept.antt =====
-- src/hx_clog_rotate.c: the limits on the backups.
use hx_clog.Common.{
  ℕ, zero, suc, ◌+◌, ◌-◌, ◌≤◌, ◌<◌, ◌≡◌, refl, Bool, true, false, not, ◌&&◌, List, [], ◌∷◌, arith,
  ltb, lt→ltb, if◌then◌else◌, Bool-cases, inl, inr, Bytes,
}
use hx_clog.Common.Int.{ℤ, positive}
use hx_clog.Rotate.Cleanup.{
  Backup, is_plain, is_empty, drop_old, compact, count_plain, compressed_to, compress_extra,
  keep_plain, is_gz, count_gz, disk_name, remove_extra, gz_cap, keep_gz, Limits, enforce, sort,
}

-- Every backup has its name.
pub Named : List Backup → Type 0
Named [] = Unit
Named (b ∷ bs) = (is_empty b.name ≡ false) × Named bs

compact-Named : (bs : List Backup) → Named (compact bs)
unfolding compact Named
compact-Named [] = tt
compact-Named (b ∷ bs) = elim (Bool-cases (is_empty b.name)) [
  | inl e ↦ rw e (compact-Named bs)
  | inr e ↦ rw e (e, compact-Named bs)
]

-- the plain backups that are on the disk
pub count_kept : List Backup → ℕ
count_kept [] = 0
count_kept (b ∷ bs) = (if not (is_empty b.name) && is_plain b.form then 1 else 0) + count_kept bs

count_kept-Named : (bs : List Backup) → Named bs → count_kept bs ≡ count_plain bs
unfolding count_kept count_plain Named
count_kept-Named [] h = refl
count_kept-Named (b ∷ bs) (h, hs) = rw (h, count_kept-Named bs hs)

-- a backup that was compressed or deleted is no plain one any more
compressed_to-kept :
    (zlib : Bool) (b : Backup)
    → (not (is_empty (compressed_to zlib b).name) && is_plain (compressed_to zlib b).form) ≡ false
unfolding compressed_to is_plain is_empty
compressed_to-kept true b = elim (Bool-cases (is_empty b.name)) [
  | inl e ↦ rw e refl
  | inr e ↦ rw e refl
]
compressed_to-kept false b = refl

compress_extra-kept :
    (zlib : Bool) (archives : Bytes → Bool) (extra : ℕ) (bs : List Backup)
    → ((name : Bytes) → archives name ≡ true)
    → Named bs
    → count_kept (compress_extra zlib archives extra bs) ≡ count_kept bs - extra
unfolding compress_extra count_kept Named
compress_extra-kept zlib archives zero bs a h = omega arith
compress_extra-kept zlib archives (suc extra) [] a h = omega arith
compress_extra-kept zlib archives (suc extra) (b ∷ bs) a (h, hs) =
    elim (Bool-cases (is_plain b.form)) [
      | inl e ↦
          let rest = compress_extra-kept zlib archives extra bs a hs in
          simp (e, h, a b.name, compressed_to-kept zlib b, rest) (omega arith)
      | inr e ↦
          let rest = compress_extra-kept zlib archives (suc extra) bs a hs in
          simp (e, h, rest) (omega arith)
    ]

-- With a positive limit on plain backups, and archiving that succeeds, at most as many plain backups are
-- kept as the limit says.
keep_plain-kept :
    (zlib : Bool) (archives : Bytes → Bool) (limit : ℤ) (bs : List Backup)
    → ((name : Bytes) → archives name ≡ true)
    → 0 < positive limit
    → Named bs
    → count_kept (keep_plain zlib archives limit bs) ≤ positive limit
unfolding keep_plain
keep_plain-kept zlib archives limit bs a pos h = rw (lt→ltb 0 (positive limit) pos) (
    omega (
      arith,
      compress_extra-kept zlib archives (count_plain bs - positive limit) bs a h,
      count_kept-Named bs h,
    ))

gz_not_kept : (b : Backup) → is_gz b ≡ true → (not (is_empty b.name) && is_plain b.form) ≡ false
unfolding is_gz
gz_not_kept b h = ground arith

-- the removal of compressed backups leaves the plain ones
remove_extra-kept :
    (removes : Bytes → Bool) (extra : ℕ) (bs : List Backup)
    → count_kept (remove_extra removes extra bs) ≡ count_kept bs
unfolding remove_extra count_kept is_empty
remove_extra-kept removes zero bs = refl
remove_extra-kept removes (suc extra) [] = refl
remove_extra-kept removes (suc extra) (b ∷ bs) =
    let rest = remove_extra-kept removes (suc extra) bs in
    let fewer = remove_extra-kept removes extra bs in
    elim (Bool-cases (is_gz b)) [
      | inr e ↦ simp (e, rest) refl
      | inl e ↦ elim (Bool-cases (removes (disk_name b))) [
        | inl r ↦ simp (e, r, fewer, gz_not_kept b e) refl
        | inr r ↦ simp (e, r, rest) refl
      ]
    ]

-- the removal of compressed backups, where it succeeds
remove_extra-gz :
    (removes : Bytes → Bool) (extra : ℕ) (bs : List Backup)
    → ((name : Bytes) → removes name ≡ true)
    → count_gz (remove_extra removes extra bs) ≡ count_gz bs - extra
unfolding remove_extra count_gz
remove_extra-gz removes zero bs a = omega arith
remove_extra-gz removes (suc extra) [] a = omega arith
remove_extra-gz removes (suc extra) (b ∷ bs) a = elim (Bool-cases (is_gz b)) [
  | inl e ↦
      let rest = remove_extra-gz removes extra bs a in
      let gone : is_gz (record b { name = [] }) ≡ false = unfold is_gz is_empty in refl in
      simp (e, a (disk_name b), rest, gone) (omega arith)
  | inr e ↦ let rest = remove_extra-gz removes (suc extra) bs a in simp (e, rest) (omega arith)
]

keep_gz-gz :
    (removes : Bytes → Bool) (max_compressed max_files : ℤ) (bs : List Backup)
    → ((name : Bytes) → removes name ≡ true)
    → 0 < gz_cap max_compressed max_files
    → count_gz (keep_gz removes max_compressed max_files bs) ≤ gz_cap max_compressed max_files
unfolding keep_gz
keep_gz-gz removes m n bs a pos =
    rw (lt→ltb 0 (gz_cap m n) pos)
      (omega (arith, remove_extra-gz removes (count_gz bs - gz_cap m n) bs a))

keep_gz-kept :
    (removes : Bytes → Bool) (max_compressed max_files : ℤ) (bs : List Backup)
    → count_kept (keep_gz removes max_compressed max_files bs) ≡ count_kept bs
unfolding keep_gz
keep_gz-kept removes m n bs = elim (Bool-cases (ltb 0 (gz_cap m n))) [
  | inl e ↦ rw e (remove_extra-kept removes (count_gz bs - gz_cap m n) bs)
  | inr e ↦ rw e refl
]

-- After a cleanup in which no compression or deletion of a plain backup fails, there are at most
-- `max_backup_files` plain backups, if that limit is positive.
pub enforce-plain :
    (zlib : Bool) (archives removes : Bytes → Bool) (now : ℕ) (l : Limits) (bs : List Backup)
    → ((name : Bytes) → archives name ≡ true)
    → 0 < positive l.max_backup_files
    → count_kept (enforce zlib archives removes now l bs) ≤ positive l.max_backup_files
unfolding enforce
enforce-plain zlib archives removes now l bs a pos =
    let named = compact (drop_old l.max_backup_days now (sort bs)) in
    let fewer = keep_plain zlib archives l.max_backup_files named in
    rw (keep_gz-kept removes l.max_compressed_files l.max_backup_files fewer) (
      keep_plain-kept zlib archives l.max_backup_files named a pos
        (compact-Named (drop_old l.max_backup_days now (sort bs))))

-- After a cleanup in which no removal fails, there are at most as many compressed backups as
-- `gz_cap` says, whether they were compressed before or just now, if that limit is positive.
enforce-gz :
    (zlib : Bool) (archives removes : Bytes → Bool) (now : ℕ) (l : Limits) (bs : List Backup)
    → ((name : Bytes) → removes name ≡ true)
    → 0 < gz_cap l.max_compressed_files l.max_backup_files
    → count_gz (enforce zlib archives removes now l bs)
      ≤ gz_cap l.max_compressed_files l.max_backup_files
unfolding enforce
enforce-gz zlib archives removes now l bs r pos =
    keep_gz-gz removes l.max_compressed_files l.max_backup_files
      (keep_plain zlib archives l.max_backup_files
        (compact (drop_old l.max_backup_days now (sort bs))))
      r pos
