-- ===== src/Setup/Tests.antt =====
-- src/hx_clog_core.c: which names of files are plain.
use hx_clog.Common.{◌≡◌, refl, true, false, some, codes}
use hx_clog.Setup.{no_separator, file_name_is_plain}

plain_name : file_name_is_plain (some (codes "app.log")) ≡ true
unfolding file_name_is_plain no_separator
plain_name = refl

name_of_a_path : file_name_is_plain (some (codes "logs/app.log")) ≡ false
unfolding file_name_is_plain no_separator
name_of_a_path = refl
