-- ===== src/Lifecycle/Change.antt =====
-- src/hx_clog_core.c: `hx_clog_flush`, `hx_clog_shutdown`, `hx_clog_reconfigure` and `hx_clog_reopen`.
use hx_clog.Common.{false, not, List, [], ◌++◌, Option, none, some, ◌>>=◌, if◌then◌else◌}
use hx_clog.Status.{Status}
use hx_clog.CrashRing.{ring_destroy}
use hx_clog.Setup.{ClogConfig, filled, file_name_is_plain}
use hx_clog.Sink.{Sink, Effect}
use hx_clog.Sink.Registry.{
  recompute_override_count, close_non_callback_sinks, close_sinks, flush_sinks, reopen_sinks,
}
use hx_clog.Dispatch.{Core}
use hx_clog.Write.{async_flush, flush_dups, deliver, deliveries}
use hx_clog.Lifecycle.{
  World, Answers, add_sink, new_console, new_file, add_system_sinks, store_active_config,
  configured, with_core, with_sinks, start_engine, async_stop, Result,
}

-- The functions from here on give `none` if the fuel of a delivery runs out.

-- `hx_clog_flush`
unfoldable pub flush : Answers → World → Option (World × List Effect)
flush a w = if not w.system.initialized then some (w, []) else do
  (s, before) ← flush_dups a.env (deliver a.env deliveries) w.system
  let (c, handed) = if s.core.async then async_flush a.env s.core else (s.core, [])
  some (record w { system = record s { core = c } }, before ++ handed ++ flush_sinks c.sinks.sinks)

-- `hx_clog_shutdown`
unfoldable pub shutdown : Answers → World → Option (World × List Effect)
shutdown a w = if not w.system.initialized then some (w, []) else do
  (s, before) ← flush_dups a.env (deliver a.env deliveries) w.system
  let (c, handed) = if s.core.async then async_stop a s.core else (s.core, [])
  let c' : Core = record c {
    sinks = record c.sinks { sinks = []; override_count = 0 };
    ring = ring_destroy c.ring;
  }
  some (
    record w { system = record s { initialized = false; core = c' } },
    before ++ handed ++ close_sinks c.sinks.sinks,
  )

-- What `hx_clog_reconfigure` does when the sinks are flushed, with the new sink for the file. That
-- sink's file is opened again at the end, which the list does not show.
unfoldable pub swap_sinks : Answers → ClogConfig → Option Sink → World → Result
swap_sinks a cfg file w =
    let (c, handed) =
      if w.system.core.async
      then async_stop a (record w.system.core { async = false })
      else (w.system.core, []) in
    let (callbacks, closing) = close_non_callback_sinks c.sinks.sinks in
    let w' = configured cfg (with_core c w) in
    let (r, made, out) = add_system_sinks a cfg (
      add_sink file
        (add_sink (new_console a cfg) (record c.sinks { sinks = callbacks }, [], []))) in
    let w'' = with_sinks (recompute_override_count r) w' in
    let w''' = with_core (start_engine a cfg (record w''.system.core { async = false })) w'' in
    (Status.ok, store_active_config cfg w''', made, handed ++ closing ++ out)

-- the flush, and then the new sinks
unfoldable pub replace_sinks : Answers → ClogConfig → Option Sink → World → Option Result
replace_sinks a cfg file w = do
  (w', before) ← flush a w
  let (status, w'', made, out) = swap_sinks a cfg file w'
  some (status, w'', made, before ++ out)

unfoldable pub with_file : Answers → ClogConfig → World → Option Sink → Option Result
with_file a cfg w (some s) = replace_sinks a cfg (some s) w
with_file a cfg w none =
    if cfg.enable_file
    then some (Status.open_file_failed, w, [], [])
    else replace_sinks a cfg none w

-- `hx_clog_reconfigure_locked`
unfoldable pub reconfigure : Answers → Option ClogConfig → World → Option Result
reconfigure a none w =
    if not w.system.initialized
    then some (Status.not_initialized, w, [], [])
    else some (Status.invalid_argument, w, [], [])
reconfigure a (some given) w =
    let cfg = filled given in
    if not w.system.initialized
    then some (Status.not_initialized, w, [], [])
    else if not (file_name_is_plain cfg.file_name)
    then some (Status.invalid_argument, w, [], [])
    else with_file a cfg w (new_file a cfg)

-- `hx_clog_reopen`
unfoldable pub reopen : Answers → World → Status
reopen a w =
    if not w.system.initialized
    then Status.not_initialized
    else reopen_sinks a.reopened Status.ok w.system.core.sinks.sinks
