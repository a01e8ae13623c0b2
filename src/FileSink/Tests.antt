-- ===== src/FileSink/Tests.antt =====
-- src/hx_clog_file.c and src/hx_clog_rotate.c: the theorems at a file that a line makes too large.
use hx_clog.Common.{
  ℕ, ◌≤◌, ◌≡◌, ◌≢◌, ap, eqs, get_or, if◌then◌else◌, inl, refl, true, false, [], arith, codes,
}
use hx_clog.Common.Int.{ℤ}
use hx_clog.Format.Record.{Tm}
use hx_clog.FileSink.{
  path_in, join_path, join_dir, ends_dir, Policy, FileSink, Os, sized, size_policy, rotate_maybe,
  file_write,
}
use hx_clog.FileSink.Write.{Works, Ready}
use hx_clog.FileSink.Disk.{Files, bytes_in, Placed, file_write-size}
use hx_clog.Rotate.{
  next_archive, make_archive_name, scan_index, split_name, date_tag, last_dot, dot_after,
}
use hx_clog.Format.Appender.{digits}
use hx_clog.FileSink.Rotation.{AllFresh, rotate_maybe-AllFresh}

abbrev day : ℕ → Tm
day sec = record {
  tm_year = 126;
  tm_mon = 0;
  tm_mday = 2;
  tm_hour = 3;
  tm_min = 4;
  tm_sec = 5;
  tm_yday = 1;
}

abbrev healthy : Os
healthy = record {
  now = 100;
  now_open = 100;
  opens = λ path. true;
  makes_dir = λ path. true;
  size_of = λ path. 0;
  names = λ dir. [];
  renames = λ from to. true;
  written = λ n. n;
}

abbrev app_log : FileSink
app_log = record {
  is_up = true;
  dir = codes "logs";
  active_dir = codes "logs";
  base_name = codes "app.log";
  active_path = codes "logs/app.log";
  current_size = 90;
  policy = Policy.by_size;
  max_file_size = 100;
  limits = record {
    max_backup_files = ℤ.pos 1;
    max_backup_days = ℤ.pos 0;
    max_compressed_files = ℤ.pos 0;
  };
  rotate_daily = false;
  rotate_interval_seconds = 0;
  rotate_align = false;
  date_subdir = false;
  cur_year = 126;
  cur_yday = 1;
  opened_sec = 50;
  write_failing = false;
  rename_failing = false;
  rotate_fail_sec = 0;
}

healthy-Works : Works healthy
healthy-Works = record {
  opens = λ path. refl;
  makes = λ path. refl;
  renames = λ from to. refl;
  writes = λ n. omega arith;
}

app_log-Ready : Ready healthy app_log
unfolding Ready
app_log-Ready = inl refl

-- 90 bytes in the file, and none elsewhere
abbrev disk : Files
disk path = if eqs path (codes "logs/app.log") then 90 else 0

-- the archive's name goes on with the date
archive_apart :
    path_in (codes "logs") (next_archive (codes "app.log") (day 0) []) ≢ codes "logs/app.log"
unfolding path_in next_archive make_archive_name scan_index split_name date_tag last_dot digits
    dot_after
archive_apart e = let at : b'2' ≡ b'l' = ap (λ s. get_or s 9 0) e in omega (arith, at)

app_log-Placed : Placed day healthy disk app_log
app_log-Placed = record {
  flat = refl;
  at_path = unfold join_path join_dir ends_dir in refl;
  counted = refl;
  apart = λ sec. archive_apart;
}

file_write-size_example :
    (bytes_in healthy disk 20 (file_write day healthy app_log 20) ≤ 100)
    × ((file_write day healthy app_log 20).1.current_size
        ≡ bytes_in healthy disk 20 (file_write day healthy app_log 20))
file_write-size_example =
    file_write-size day healthy disk app_log healthy-Works app_log-Placed 20 100 app_log-Ready
      (unfold sized size_policy in refl) (omega arith) (omega arith) (omega arith) (omega arith)

rotate_maybe-AllFresh_example : AllFresh healthy app_log (rotate_maybe day healthy app_log 20).2
rotate_maybe-AllFresh_example = rotate_maybe-AllFresh day healthy app_log 20
