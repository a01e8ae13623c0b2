-- ===== src/FileSink/Create.antt =====
-- src/hx_clog_file.c: the creation, the flush and the end of a file sink.
use hx_clog.Common.{
  ℕ, Bool, false, not, ◌&&◌, ◌||◌, List, [], Option, none, some, ltb, codes, if◌then◌else◌, Bytes,
}
use hx_clog.Status.{Status}
use hx_clog.Format.Record.{Tm}
use hx_clog.Rotate.{cut, path_max}
use hx_clog.FileSink.{FileSink, Os, Event, close_active, open_active, rotate_force}
use hx_clog.Setup.{ClogConfig, or_text}

-- the sink for a configuration before its file is open
unfoldable pub blank_sink : Bytes → Bytes → ClogConfig → FileSink
blank_sink dir file_name cfg = record {
  is_up = false;
  dir = cut path_max dir;
  active_dir = [];
  base_name = cut 256 file_name;
  active_path = [];
  current_size = 0;
  policy = cfg.rotate_policy;
  max_file_size = cfg.max_file_size;
  limits = record {
    max_backup_files = cfg.max_backup_files;
    max_backup_days = cfg.max_backup_days;
    max_compressed_files = cfg.max_compressed_files;
  };
  rotate_daily = cfg.rotate_daily;
  rotate_interval_seconds = cfg.rotate_interval_seconds;
  rotate_align = cfg.rotate_align;
  date_subdir = cfg.date_subdir;
  cur_year = 0;
  cur_yday = 0;
  opened_sec = 0;
  write_failing = false;
  rename_failing = false;
  rotate_fail_sec = 0;
}

-- `file_flush`, with the result of `fflush`
unfoldable pub file_flush : Bool → FileSink → Status
file_flush flushed fs = if fs.is_up && not flushed then Status.platform else Status.ok

-- `file_close`
unfoldable pub file_close : FileSink → List Event
file_close fs = (close_active fs).1

module _ (localtime : ℕ → Tm) where
  -- with its file open, or without one
  unfoldable pub opened_sink : Os → ClogConfig → Bool × FileSink → Option (FileSink × List Event)
  opened_sink os cfg (ok, fs) =
      if not ok
      then none
      else if cfg.rotate_on_startup && ltb 0 fs.current_size
      then (let (status, fs', events) = rotate_force localtime os fs in some (fs', events))
      else some (fs, [])

  -- `hx_sink_file_create` with a configuration; `memory` tells whether both blocks are given
  unfoldable pub file_create :
      Os → Bool → Option Bytes → Option Bytes → ClogConfig → Option (FileSink × List Event)
  file_create os memory dir file_name cfg =
      let name = or_text file_name (codes "app.log") in
      let folder = or_text dir (codes "./logs") in
      if not (os.makes_dir folder) || not memory
      then none
      else opened_sink os cfg (open_active localtime os (blank_sink folder name cfg))
