-- ===== src/Rotate/Tests.antt =====
-- src/hx_clog_rotate.c: the theorems at a directory with an archive, and at a few backups.
use mathlib.Core.List.{Memᴰ, Permᴰ}
use hx_clog.Common.{
  ℕ, ◌≤◌, ◌≡◌, ◌≢◌, refl, Bool, true, false, some, inr, List, [], ◌∷◌, reverse, arith, Bytes, codes,
}
use hx_clog.Common.Int.{ℤ, less}
use hx_clog.Format.Record.{Tm}
use hx_clog.Format.Appender.{digits}
use hx_clog.Rotate.{
  split_name, last_dot, dot_after, date_tag, index_cb, has_prefix, atoi, atoi_at, skip_spaces,
  is_space, is_digit, leading, scan_index, next_archive, make_archive_name,
}
use hx_clog.Rotate.Match.{archive_name_match, archive_order_key}
use hx_clog.Rotate.Recognise.{named, tagged}
use hx_clog.Rotate.Recognise.Newest.{next_archive-newest}
use hx_clog.Rotate.Recognise.Archive.{stored, archive_name_match-make_archive_name}
use hx_clog.Rotate.Fresh.{ending, IsDate, next_archive_lem}
use hx_clog.Rotate.Cleanup.{Form, Backup, Limits, sort, enforce}
use hx_clog.Rotate.Cleanup.Order.{Falls, sort_lem}
use hx_clog.Rotate.Cleanup.Kept.{count_kept, enforce-plain}

abbrev day : Tm
day = record {
  tm_year = 126;
  tm_mon = 0;
  tm_mday = 2;
  tm_hour = 3;
  tm_min = 4;
  tm_sec = 5;
  tm_yday = 1;
}

abbrev archived : Bytes
archived = codes "app.2026-01-02.1.log"

day-IsDate : IsDate day
day-IsDate = record {
  year_in = omega arith;
  mon_in = omega arith;
  day_pos = omega arith;
  day_in = omega arith;
}

one_archive : scan_index (codes "app") (date_tag day) 0 (archived ∷ []) ≡ 1
one_archive =
    unfold scan_index index_cb has_prefix atoi atoi_at skip_spaces is_space is_digit leading
      date_tag digits in
    refl

next_archive_lem_example : archived ≢ next_archive (codes "app.log") day (archived ∷ [])
next_archive_lem_example =
    next_archive_lem (codes "app.log") (codes "app") (codes "log") day (archived ∷ []) archived
      (unfold split_name last_dot dot_after in refl) (omega arith) (omega arith) day-IsDate
      (omega (arith, one_archive)) (Memᴰ.head refl)

abbrev backup : ℕ → Form → Backup
backup n form = record { name = b'a' ∷ n ∷ []; mtime = n; key = ℤ.pos n; form = form }

abbrev three : List Backup
three = backup 3 Form.plain ∷ backup 1 Form.gz ∷ backup 2 Form.plain ∷ []

sort_lem_example : Permᴰ (sort three) three × Falls (reverse (sort three))
sort_lem_example = sort_lem three

abbrev one_each : Limits
one_each = record {
  max_backup_files = ℤ.pos 1;
  max_backup_days = ℤ.pos 0;
  max_compressed_files = ℤ.pos 0;
}

abbrev always : Bytes → Bool
always name = true

enforce-plain_example : count_kept (enforce true always always 9 one_each three) ≤ 1
enforce-plain_example =
    enforce-plain true always always 9 one_each three (λ name. refl) (omega arith)

abbrev later : Tm
later = record day { tm_mon = 1; tm_mday = 1 }

later-IsDate : IsDate later
later-IsDate = record {
  year_in = omega arith;
  mon_in = omega arith;
  day_pos = omega arith;
  day_in = omega arith;
}

archive_name_match-make_archive_name_example :
    archive_name_match
      (stored true (make_archive_name (codes "app") (codes "log") day 7))
      (codes "app.")
      (codes "log")
    ≡ some true
archive_name_match-make_archive_name_example =
    archive_name_match-make_archive_name (codes "app") (codes "log") day 7 true day-IsDate
      (omega arith) (unfold named tagged date_tag digits ending in omega arith)

made_archived : make_archive_name (codes "app") (codes "log") day 1 ≡ archived
unfolding make_archive_name date_tag digits
made_archived = refl

next_archive-newest_example :
    less (archive_order_key archived (codes "app.") (ℤ.pos 5)) (
      archive_order_key
        (next_archive (codes "app.log") day (archived ∷ []))
        (codes "app.")
        (ℤ.pos 0))
    ≡ true
unfolding make_archive_name date_tag digits
next_archive-newest_example =
    next_archive-newest (codes "app") (codes "log") (omega arith) (omega arith) (codes "app.log")
      day day (archived ∷ []) 1 false (ℤ.pos 5) (ℤ.pos 0)
      (unfold split_name last_dot dot_after in refl) day-IsDate day-IsDate
      (inr (refl, inr (refl, inr (refl, omega arith)))) (omega arith) (omega (arith, one_archive))
      (Memᴰ.head made_archived)
