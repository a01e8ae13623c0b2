-- ===== src/CrashCallback/Torn.antt =====
-- src/hx_clog_core.c: the handler of a crash between two calls of `hx_clog_set_crash_callback`.
use hx_clog.Common.{ℕ, ◌≡◌, refl, [], ◌∷◌, some}
use hx_clog.CrashCallback.{
  detach, store_data, publish, read_callback, read_data, Handler, System, detaches, stores,
  publishes, looks, gets, Run, done, goes, at_first,
}

-- For any two callbacks and data there is a run in which the calls set the one after the other,
-- and the handler gets the first callback with the data of the second: the second call began
-- between the reads.
pub got-torn :
    (f u g v : ℕ)
    → (s : System) × Run at_first s
      × (s.handler ≡ Handler.got (some f) v 1 2)
      × (s.calls ≡ (some g, v) ∷ (some f, u) ∷ [])
unfolding detach store_data publish read_callback read_data
got-torn f u g v = (
  _,
  goes (detaches (some f) u) (
      goes (stores (some f) u) (
        goes (publishes (some f) u) (
          goes looks (
            goes (detaches (some g) v) (goes (stores (some g) v) (goes (gets (some f) 1) done)))))),
  refl,
  refl,
)
