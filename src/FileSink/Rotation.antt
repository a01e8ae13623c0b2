-- ===== src/FileSink/Rotation.antt =====
-- src/hx_clog_rotate.c, src/hx_clog_file.c: what a rotation renames.
use hx_clog.Common.{
  ℕ, inl, inr, true, false, not, ◌&&◌, ◌||◌, List, [], ◌∷◌, ◌++◌, ltb, leb, ◌==◌, if◌then◌else◌,
  Bool-cases, Bytes,
}
use hx_clog.Status.{Status}
use hx_clog.Format.Record.{Tm}
use hx_clog.Rotate.{next_archive}
use hx_clog.FileSink.{
  FileSink, Os, Event, path_in, open_active, need_size, need_daily, need_interval, close_active,
  roll_over, rename_failed, rename_done, archive, rotate_maybe,
}

-- The rename that an event tells of gives the active file the next archive's name for some day.
pub data Fresh (os : Os) (fs : FileSink) : Event → Type 0 where
  closes : {path : Bytes} → Fresh os fs (Event.closed path)
  renames :
      (tmv : Tm)
      → Fresh os fs (
          Event.renamed fs.active_path
            (path_in fs.active_dir (next_archive fs.base_name tmv (os.names fs.active_dir))))
  reports : {s : Status} → Fresh os fs (Event.reported s)
  counts : Fresh os fs Event.counted_rotation
  cleans_up : {dir : Bytes} → Fresh os fs (Event.cleans dir)

pub AllFresh : Os → FileSink → List Event → Type 0
AllFresh os fs [] = Unit
AllFresh os fs (e ∷ es) = Fresh os fs e × AllFresh os fs es

AllFresh-append :
    (os : Os) (fs : FileSink) (a b : List Event)
    → AllFresh os fs a
    → AllFresh os fs b
    → AllFresh os fs (a ++ b)
unfolding AllFresh
AllFresh-append os fs [] b h k = k
AllFresh-append os fs (e ∷ a) b (h, hs) k = (h, AllFresh-append os fs a b hs k)

close_active-AllFresh : (os : Os) (fs : FileSink) → AllFresh os fs (close_active fs).1
unfolding AllFresh close_active
close_active-AllFresh os fs = elim (Bool-cases fs.is_up) [
  | inl up ↦ simp up (Fresh.closes, tt)
  | inr down ↦ simp down tt
]

module _ (localtime : ℕ → Tm) (os : Os) (fs : FileSink) where
  roll_over-AllFresh : AllFresh os fs (roll_over localtime os fs).2
  unfolding AllFresh roll_over
  roll_over-AllFresh =
      let shut = close_active-AllFresh os fs in
      elim (Bool-cases (open_active localtime os (close_active fs).0).0) [
        | inl ok ↦ simp ok (
            AllFresh-append os fs (close_active fs).1 (Event.counted_rotation ∷ []) shut
              (Fresh.counts, tt))
        | inr bad ↦ simp bad (
            AllFresh-append os fs (close_active fs).1 (Event.reported Status.open_file_failed ∷ [])
              shut (Fresh.reports, tt))
      ]

  rename_done-AllFresh : (g : FileSink) → AllFresh os fs (rename_done localtime os g).2
  unfolding AllFresh rename_done
  rename_done-AllFresh g =
      let ready = record g { rename_failing = false; rotate_fail_sec = 0 } in
      elim (Bool-cases (open_active localtime os ready).0) [
        | inl ok ↦ simp ok (Fresh.counts, (Fresh.cleans_up, tt))
        | inr bad ↦ simp bad (Fresh.reports, tt)
      ]

  rename_failed-AllFresh :
      (g : FileSink) (sec : ℕ) → AllFresh os fs (rename_failed localtime os g sec).2
  unfolding AllFresh rename_failed
  rename_failed-AllFresh g sec =
      let late = record g { rename_failing = true; rotate_fail_sec = sec } in
      elim (Bool-cases (open_active localtime os late).0) [
        | inr bad ↦ simp bad (Fresh.reports, tt)
        | inl ok ↦ elim (Bool-cases g.rename_failing) [
          | inl again ↦ simp (ok, again) tt
          | inr first ↦ simp (ok, first) (Fresh.reports, tt)
        ]
      ]

  archive-AllFresh : (tmv : Tm) (sec : ℕ) → AllFresh os fs (archive localtime os fs tmv sec).2
  unfolding AllFresh archive
  archive-AllFresh tmv sec =
      let (g, closed) = close_active fs in
      let shut = close_active-AllFresh os fs in
      let target = path_in fs.active_dir (next_archive fs.base_name tmv (os.names fs.active_dir)) in
      elim (Bool-cases (os.renames fs.active_path target)) [
        | inl ok ↦ simp ok (
            AllFresh-append os fs closed
              (Event.renamed fs.active_path target ∷ (rename_done localtime os g).2) shut
              (Fresh.renames tmv, rename_done-AllFresh g))
        | inr bad ↦ simp bad (
            AllFresh-append os fs closed (rename_failed localtime os g sec).2 shut
              (rename_failed-AllFresh g sec))
      ]

  -- Whatever the calls of the file system answer, and on each of its branches, the only file that
  -- `hx_rotate_maybe` renames is the active one, and that gets the name of the next archive of a
  -- day in the directory.
  pub rotate_maybe-AllFresh :
      (incoming : ℕ) → AllFresh os fs (rotate_maybe localtime os fs incoming).2
  unfolding AllFresh rotate_maybe
  rotate_maybe-AllFresh incoming =
      let time = need_daily localtime os fs || need_interval os fs in
      let cur = if time && ltb 0 fs.opened_sec then fs.opened_sec else os.now in
      elim (Bool-cases (not (fs.rotate_fail_sec == 0) && leb os.now fs.rotate_fail_sec)) [
        | inl late ↦ simp late tt
        | inr free ↦ elim (Bool-cases (not (need_size fs incoming) && not time)) [
          | inl idle ↦ simp (free, idle) tt
          | inr due ↦ elim (Bool-cases (fs.date_subdir && need_daily localtime os fs)) [
            | inl new ↦ simp (free, due, new) roll_over-AllFresh
            | inr old ↦ simp (free, due, old) (archive-AllFresh (localtime cur) os.now)
          ]
        ]
      ]
