-- ===== src/CrashCallback.antt =====
-- src/hx_clog_core.c: the callback for a crash with its user data, which one thread sets while the
-- handler of a crash may read them in another. The barriers keep the reads and the writes of each in
-- order; pointers are numbers, and `none` is null.
pub mod Pairs
pub mod Torn
mod Tests
use hx_clog.Common.{ℕ, List, [], ◌∷◌, Option, none, some, length}

-- `g_crash_cb` and `g_crash_cb_ud`
pub record Shared : Type 0 where
  pub crash_cb : Option ℕ
  pub crash_cb_ud : ℕ

-- the three writes of `hx_clog_set_crash_callback`
unfoldable pub detach : Shared → Shared
detach m = record m { crash_cb = none }

unfoldable pub store_data : ℕ → Shared → Shared
store_data user_data m = record m { crash_cb_ud = user_data }

unfoldable pub publish : Option ℕ → Shared → Shared
publish cb m = record m { crash_cb = cb }

-- the two reads of `hx_crash_get_callback`
unfoldable pub read_callback : Shared → Option ℕ
read_callback m = m.crash_cb

unfoldable pub read_data : Shared → ℕ
read_data m = m.crash_cb_ud

-- where the thread that sets stands, with its arguments
pub data Setter : Type 0 where
  idle : Setter
  detached stored : Option ℕ → ℕ → Setter

-- where the handler stands: with the callback, and how many calls of the setter had begun at its first
-- read; and then with the data too, and how many had begun at its second
pub data Handler : Type 0 where
  waiting : Handler
  looked : Option ℕ → ℕ → Handler
  got : Option ℕ → ℕ → ℕ → ℕ → Handler

-- `calls`: the arguments of the calls that have begun, the last one first
pub record System : Type 0 where
  pub memory : Shared
  pub setter : Setter
  pub handler : Handler
  pub calls : List (Option ℕ × ℕ)

pub data Step : System → System → Type 0 where
  detaches :
      {m : Shared} {h : Handler} {calls : List (Option ℕ × ℕ)} (cb : Option ℕ) (user_data : ℕ)
      → Step
          (record { memory = m; setter = Setter.idle; handler = h; calls = calls })
          (record {
            memory = detach m;
            setter = Setter.detached cb user_data;
            handler = h;
            calls = (cb, user_data) ∷ calls;
          })
  stores :
      {m : Shared} {h : Handler} {calls : List (Option ℕ × ℕ)} (cb : Option ℕ) (user_data : ℕ)
      → Step
          (record { memory = m; setter = Setter.detached cb user_data; handler = h; calls = calls })
          (record {
            memory = store_data user_data m;
            setter = Setter.stored cb user_data;
            handler = h;
            calls = calls;
          })
  publishes :
      {m : Shared} {h : Handler} {calls : List (Option ℕ × ℕ)} (cb : Option ℕ) (user_data : ℕ)
      → Step
          (record { memory = m; setter = Setter.stored cb user_data; handler = h; calls = calls })
          (record { memory = publish cb m; setter = Setter.idle; handler = h; calls = calls })
  looks :
      {m : Shared} {t : Setter} {calls : List (Option ℕ × ℕ)}
      → Step
          (record { memory = m; setter = t; handler = Handler.waiting; calls = calls })
          (record {
            memory = m;
            setter = t;
            handler = Handler.looked (read_callback m) (length calls);
            calls = calls;
          })
  gets :
      {m : Shared} {t : Setter} {calls : List (Option ℕ × ℕ)} (cb : Option ℕ) (n : ℕ)
      → Step
          (record { memory = m; setter = t; handler = Handler.looked cb n; calls = calls })
          (record {
            memory = m;
            setter = t;
            handler = Handler.got cb (read_data m) n (length calls);
            calls = calls;
          })

pub data Run : System → System → Type 0 where
  done : {s : System} → Run s s
  goes : {s t u : System} → Step s t → Run t u → Run s u

-- before the first call, with the two variables null
abbrev pub at_first : System
at_first = record {
  memory = record { crash_cb = none; crash_cb_ud = 0 };
  setter = Setter.idle;
  handler = Handler.waiting;
  calls = [];
}
