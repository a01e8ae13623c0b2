-- ===== src/Level/Tests.antt =====
-- src/hx_clog_core.c: a level's name read back in other letters.
use hx_clog.Common.{◌≡◌, refl, some, arith, codes}
use hx_clog.Level.{level_name, ieq, level_from_name, level_from_name-level_name}

level_from_name-level_name_example : level_from_name (some (codes "wArn")) ≡ 3
level_from_name-level_name_example =
    level_from_name-level_name 3 (codes "wArn") (omega arith) (unfold ieq level_name in refl)
