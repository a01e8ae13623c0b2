-- ===== src/FileSink.antt =====
-- src/hx_clog_file.h and src/hx_clog_file.c: the file sink; src/hx_clog_rotate.c: when it rotates. The
-- system's answers to a call are a record `Os`, and the calls that others see are a list of events.
pub mod Rotation
pub mod Write
pub mod Create
pub mod Disk
mod Tests
use hx_clog.Common.{
  ℕ, zero, suc, ◌+◌, ◌-◌, ◌*◌, ◌/◌, ◌%◌, ◌^◌, Bool, true, false, not, ◌&&◌, ◌||◌, List, [], ◌∷◌,
  ◌++◌, Option, none, some, ltb, leb, ◌==◌, if◌then◌else◌, Bytes, codes, length, take, get_or, eqs,
}
use hx_clog.Status.{Status}
use hx_clog.Format.Record.{Tm, is_separator}
use hx_clog.Rotate.{path_max, cut, date_tag, next_archive}
use hx_clog.Rotate.Cleanup.{Limits}

pub data Policy : Type 0 where
  rotate_none by_size by_time by_size_and_time : Policy

unfoldable pub size_policy : Policy → Bool
size_policy Policy.by_size = true
size_policy Policy.by_size_and_time = true
size_policy _ = false

unfoldable pub time_policy : Policy → Bool
time_policy Policy.by_time = true
time_policy Policy.by_size_and_time = true
time_policy _ = false

unfoldable pub no_policy : Policy → Bool
no_policy Policy.rotate_none = true
no_policy _ = false

-- `hx_file_sink_impl` without its lock; `is_up`: its `fp` is not null
pub record FileSink : Type 0 where
  pub is_up : Bool
  pub dir : Bytes
  pub active_dir : Bytes
  pub base_name : Bytes
  pub active_path : Bytes
  pub current_size : ℕ
  pub policy : Policy
  pub max_file_size : ℕ
  pub limits : Limits
  pub rotate_daily : Bool
  pub rotate_interval_seconds : ℕ
  pub rotate_align : Bool
  pub date_subdir : Bool
  pub cur_year : ℕ
  pub cur_yday : ℕ
  pub opened_sec : ℕ
  pub write_failing : Bool
  pub rename_failing : Bool
  pub rotate_fail_sec : ℕ

-- What the system answers in a call: the time at its start and when a file is opened, and whether
-- and with what result the calls of the file system succeed.
pub record Os : Type 0 where
  pub now : ℕ
  pub now_open : ℕ
  pub opens : Bytes → Bool
  pub makes_dir : Bytes → Bool
  pub size_of : Bytes → ℕ
  pub names : Bytes → List Bytes
  pub renames : Bytes → Bytes → Bool
  pub written : ℕ → ℕ

pub data Event : Type 0 where
  closed : Bytes → Event
  renamed : Bytes → Bytes → Event
  reported : Status → Event
  counted_rotation : Event
  cleans : Bytes → Event

unfoldable pub ends_dir : Bytes → Bool
ends_dir [] = false
ends_dir (c ∷ []) = is_separator c
ends_dir (c ∷ d ∷ s) = ends_dir (d ∷ s)

-- the directory's part of `join_path`
unfoldable pub join_dir : ℕ → Bytes → Bytes
join_dir cap dir =
    let d = cut cap dir in
    if ltb 0 (length d) && not (ends_dir d) && ltb (length d + 1) cap then d ++ b'/' ∷ [] else d

unfoldable pub join_path : ℕ → Bytes → Bytes → Bytes
join_path cap dir name = let d = join_dir cap dir in d ++ take (cap - 1 - length d) name

-- `snprintf(out, HX_CLOG_PATH_MAX, "%s/%s", dir, name)`
unfoldable pub path_in : Bytes → Bytes → Bytes
path_in dir name = cut path_max (dir ++ b'/' ∷ name)

unfoldable pub sized : FileSink → Bool
sized fs = size_policy fs.policy

-- the rotation that a size asks for
unfoldable pub need_size : FileSink → ℕ → Bool
need_size fs incoming =
    sized fs
    && ltb 0 fs.max_file_size
    && ltb fs.max_file_size ((fs.current_size + incoming) % 2 ^ 64)
    && ltb 0 fs.current_size

unfoldable pub timed : FileSink → Bool
timed fs = time_policy fs.policy

unfoldable pub need_interval : Os → FileSink → Bool
need_interval os fs =
    timed fs
    && ltb 0 fs.rotate_interval_seconds
    && ltb 0 fs.current_size
    && (if fs.rotate_align
        then not (os.now / fs.rotate_interval_seconds == fs.opened_sec / fs.rotate_interval_seconds)
        else leb (fs.opened_sec + fs.rotate_interval_seconds) os.now)

-- `fflush(fs->fp); fclose(fs->fp); fs->fp = NULL;`
unfoldable pub close_active : FileSink → FileSink × List Event
close_active fs =
    if fs.is_up then (record fs { is_up = false }, Event.closed fs.active_path ∷ []) else (fs, [])

-- `fwrite`, with the report of the first failure
unfoldable pub put : Os → FileSink → ℕ → Status × FileSink × List Event
put os fs size =
    let n = os.written size in
    let fs' = record fs { current_size = (fs.current_size + n) % 2 ^ 64 } in
    if n == size
    then (Status.ok, record fs' { write_failing = false }, [])
    else if not fs.write_failing
    then (Status.platform, record fs' { write_failing = true }, Event.reported Status.platform ∷ [])
    else (Status.platform, fs', [])

unfoldable pub rotates : FileSink → Bool
rotates fs = fs.rotate_daily || not (no_policy fs.policy)

module _ (localtime : ℕ → Tm) where
  unfoldable pub dir_now : Os → FileSink → Bytes
  dir_now os fs =
      if fs.date_subdir
      then join_path path_max fs.dir (date_tag (localtime os.now_open))
      else cut path_max fs.dir

  -- the end of `hx_file_open_active`, with the directory at hand
  unfoldable pub open_in : Os → FileSink → Bytes → Bool × FileSink
  open_in os fs dir =
      let path = join_path path_max dir fs.base_name in
      let tmv = localtime os.now_open in
      if os.opens path
      then (
        true,
        record fs {
          active_dir = dir;
          active_path = path;
          is_up = true;
          current_size = os.size_of path;
          cur_year = tmv.tm_year;
          cur_yday = tmv.tm_yday;
          opened_sec = os.now_open;
        },
      )
      else (false, record fs { active_dir = dir; active_path = path; is_up = false })

  -- `hx_file_open_active`; `true`: it returns `HX_CLOG_OK`
  unfoldable pub open_active : Os → FileSink → Bool × FileSink
  open_active os fs =
      let dir = dir_now os fs in
      if fs.date_subdir && not (os.makes_dir dir)
      then (false, record fs { active_dir = dir })
      else open_in os fs dir

  unfoldable pub need_daily : Os → FileSink → Bool
  need_daily os fs =
      let tmv = localtime os.now in
      (fs.rotate_daily || timed fs)
      && not (tmv.tm_yday == fs.cur_yday && tmv.tm_year == fs.cur_year)

  -- a new day in date-subdir mode
  unfoldable pub roll_over : Os → FileSink → Status × FileSink × List Event
  roll_over os fs =
      let (shut, e) = close_active fs in
      let (ok, up) = open_active os shut in
      if ok
      then (Status.ok, record up { current_size = 0 }, e ++ Event.counted_rotation ∷ [])
      else (Status.open_file_failed, up, e ++ Event.reported Status.open_file_failed ∷ [])

  -- the rename failed at time `sec`: the file is opened again as it is
  unfoldable pub rename_failed : Os → FileSink → ℕ → Status × FileSink × List Event
  rename_failed os fs sec =
      let (ok, up) = open_active os (record fs { rename_failing = true; rotate_fail_sec = sec }) in
      if not ok
      then (Status.open_file_failed, up, Event.reported Status.open_file_failed ∷ [])
      else if not fs.rename_failing
      then (Status.platform, up, Event.reported Status.platform ∷ [])
      else (Status.platform, up, [])

  unfoldable pub rename_done : Os → FileSink → Status × FileSink × List Event
  rename_done os fs =
      let (ok, up) = open_active os (record fs { rename_failing = false; rotate_fail_sec = 0 }) in
      if not ok
      then (Status.open_file_failed, up, Event.reported Status.open_file_failed ∷ [])
      else (
        Status.ok,
        record up { current_size = 0 },
        Event.counted_rotation ∷ Event.cleans up.active_dir ∷ [],
      )

  -- The active file gets the name of an archive of day `tmv`; a failure is kept with the time `sec`.
  unfoldable pub archive : Os → FileSink → Tm → ℕ → Status × FileSink × List Event
  archive os fs tmv sec =
      let target = path_in fs.active_dir (next_archive fs.base_name tmv (os.names fs.active_dir)) in
      let (shut, e) = close_active fs in
      if os.renames fs.active_path target
      then (let (r, fs', more) = rename_done os shut in
          (r, fs', e ++ Event.renamed fs.active_path target ∷ more))
      else let (r, fs', more) = rename_failed os shut sec in (r, fs', e ++ more)

  unfoldable pub rotate_maybe : Os → FileSink → ℕ → Status × FileSink × List Event
  rotate_maybe os fs incoming =
      let time = need_daily os fs || need_interval os fs in
      let cur = if time && ltb 0 fs.opened_sec then fs.opened_sec else os.now in
      if not (fs.rotate_fail_sec == 0) && leb os.now fs.rotate_fail_sec
      then (Status.ok, fs, [])
      else if not (need_size fs incoming) && not time
      then (Status.ok, fs, [])
      else if fs.date_subdir && need_daily os fs
      then roll_over os fs
      else archive os fs (localtime cur) os.now

  unfoldable pub rotate_force : Os → FileSink → Status × FileSink × List Event
  rotate_force os fs =
      let sec = if ltb 0 fs.opened_sec then fs.opened_sec else os.now in
      if not fs.is_up || fs.current_size == 0
      then (Status.ok, fs, [])
      else archive os fs (localtime sec) os.now

  unfoldable pub file_write : Os → FileSink → ℕ → Status × FileSink × List Event
  file_write os fs size =
      let (r, ready, e) = if rotates fs then rotate_maybe os fs size else (Status.ok, fs, []) in
      if not ready.is_up
      then (Status.open_file_failed, ready, e)
      else let (status, fs', more) = put os ready size in (status, fs', e ++ more)

  -- `hx_sink_file_reopen` of a file sink
  unfoldable pub reopen : Os → FileSink → Bool × FileSink × List Event
  reopen os fs =
      let (shut, e) = close_active fs in let (ok, up) = open_active os shut in (ok, up, e)
