-- ===== src/Status.antt =====
-- include/hx_clog.h: the result codes; src/hx_clog_core.c: their texts.

pub data Status : Type 0 where
  ok invalid_argument not_initialized already_initialized open_file_failed : Status
  out_of_memory thread_failed queue_full platform : Status
