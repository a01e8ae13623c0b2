-- ===== src/FileSink/Disk.antt =====
-- src/hx_clog_file.c, src/hx_clog_rotate.c: the bytes of the active file, told from what a write does to
-- the files, and not from the sink's own count of them.
use hx_clog.Common.{
  ℕ, ◌+◌, ◌%◌, ◌^◌, ◌≤◌, ◌<◌, ◌≡◌, ◌≢◌, inl, inr, refl, ◌∙◌, sym, ap, true, false, not, ◌&&◌, ◌||◌,
  List, [], ◌∷◌, ◌++◌, arith, leb, ◌==◌, if◌then◌else◌, Bool-cases, Bytes, append-nil, eqs, eqs_iff,
}
use hx_clog.Status.{Status}
use hx_clog.Rotate.{next_archive, cut, path_max}
use hx_clog.Format.Record.{Tm}
use hx_clog.FileSink.{
  FileSink, Os, Event, path_in, join_path, dir_now, open_in, open_active, sized, need_size,
  need_daily, need_interval, close_active, rename_done, archive, rotate_maybe, put, file_write,
}
use hx_clog.FileSink.Write.{Works, Ready, rotate_maybe-room, sized-rotates, rename_done-size}

-- how many bytes there are under each path
abbrev pub Files : Type 0
Files = Bytes → ℕ

-- A rename takes the bytes away from a path and puts them under another one, in place of what was
-- there.
unfoldable pub happens : Event → Files → Files
happens (Event.renamed from to) files path =
    if eqs path to then files from else if eqs path from then 0 else files path
happens (Event.closed p) files path = files path
happens (Event.reported s) files path = files path
happens Event.counted_rotation files path = files path
happens (Event.cleans dir) files path = files path

unfoldable pub all_happen : List Event → Files → Files
all_happen [] files = files
all_happen (e ∷ es) files = all_happen es (happens e files)

-- the bytes of the active file after a write of `size` bytes, with what it leaves
unfoldable pub bytes_in : Os → Files → ℕ → Status × FileSink × List Event → ℕ
bytes_in os files size (status, fs, events) =
    all_happen events files fs.active_path + (if fs.is_up then os.written size else 0)

-- The sink is at its own path, without directories for the days; its count is that of the file; and
-- no archive takes the name of the active file.
pub record Placed (localtime : ℕ → Tm) (os : Os) (files : Files) (fs : FileSink) : Type 0 where
  pub flat : fs.date_subdir ≡ false
  pub at_path : fs.active_path ≡ join_path path_max (cut path_max fs.dir) fs.base_name
  pub counted : fs.current_size ≡ files fs.active_path
  pub apart :
      (sec : ℕ)
      → path_in fs.active_dir (next_archive fs.base_name (localtime sec) (os.names fs.active_dir))
        ≢ fs.active_path

-- The count is that of the file, where no byte of the line is written yet.
InStep : Files → Status × FileSink × List Event → Type 0
InStep files (status, fs, events) = all_happen events files fs.active_path ≡ fs.current_size

closed_first :
    (fs : FileSink) (es : List Event) (files : Files)
    → all_happen ((close_active fs).1 ++ es) files ≡ all_happen es files
unfolding close_active all_happen happens
closed_first fs es files = elim (Bool-cases fs.is_up) [
  | inl up ↦ simp up refl
  | inr down ↦ simp down refl
]

moved : (files : Files) (a to : Bytes) → to ≢ a → happens (Event.renamed a to) files a ≡ 0
unfolding happens
moved files a to n = elim (Bool-cases (eqs a to)) [
  | inl e ↦ absurd (n (sym ((eqs_iff a to).0 e)))
  | inr e ↦ rw (e, (eqs_iff a a).1 refl) refl
]

-- the path of a sink without directories for the days
abbrev flat_path : FileSink → Bytes
flat_path fs = join_path path_max (cut path_max fs.dir) fs.base_name

module _ (localtime : ℕ → Tm) (os : Os) (files : Files) (w : Works os) where
  open_active-flat :
      (g : FileSink)
      → g.date_subdir ≡ false
      → ((open_active localtime os g).0 ≡ true)
        × ((open_active localtime os g).1.active_path ≡ flat_path g)
  unfolding open_active open_in dir_now
  open_active-flat g flat = simp (flat, w.opens) (refl, refl)

  rename_done-flat :
      (g : FileSink)
      → g.date_subdir ≡ false
      → ((rename_done localtime os g).1.active_path ≡ flat_path g)
        × (all_happen (rename_done localtime os g).2 files ≡ files)
  unfolding rename_done all_happen happens
  rename_done-flat g flat =
      let (ok, path) =
        open_active-flat (record g { rename_failing = false; rotate_fail_sec = 0 }) flat in
      simp ok (path, refl)

  close_active-kept :
      (g : FileSink)
      → ((close_active g).0.date_subdir ≡ g.date_subdir)
        × (flat_path (close_active g).0 ≡ flat_path g)
  unfolding close_active
  close_active-kept g = elim (Bool-cases g.is_up) [
    | inl up ↦ simp up (refl, refl)
    | inr down ↦ simp down (refl, refl)
  ]

reported_last :
    (e : List Event) (x : Status) (files : Files)
    → all_happen (e ++ Event.reported x ∷ []) files ≡ all_happen e files
unfolding all_happen happens
reported_last [] x files = refl
reported_last (e ∷ es) x files = reported_last es x (happens e files)

module _ (localtime : ℕ → Tm) (os : Os) (files : Files) (fs : FileSink) (w : Works os)
    (p : Placed localtime os files fs) where
  archive-InStep : (day sec : ℕ) → InStep files (archive localtime os fs (localtime day) sec)
  unfolding archive all_happen InStep
  archive-InStep day sec =
      let to =
        path_in fs.active_dir
          (next_archive fs.base_name (localtime day) (os.names fs.active_dir)) in
      let g = (close_active fs).0 in
      let (flat, path) = close_active-kept localtime os files w fs in
      let disk = happens (Event.renamed fs.active_path to) files in
      let (at, same) = rename_done-flat localtime os disk w g (flat ∙ p.flat) in
      let count = rename_done-size localtime os g w in
      let here : (rename_done localtime os g).1.active_path ≡ fs.active_path =
        at ∙ path ∙ sym p.at_path in
      let events = Event.renamed fs.active_path to ∷ (rename_done localtime os g).2 in
      simp (w.renames) (
        ap (λ d. d (rename_done localtime os g).1.active_path) (closed_first fs events files ∙ same)
        ∙ ap disk here
        ∙ moved files fs.active_path to (p.apart day)
        ∙ sym count)

  rotate_maybe-InStep : (incoming : ℕ) → InStep files (rotate_maybe localtime os fs incoming)
  unfolding rotate_maybe all_happen InStep
  rotate_maybe-InStep incoming =
      let time = need_daily localtime os fs || need_interval os fs in
      elim (Bool-cases (not (fs.rotate_fail_sec == 0) && leb os.now fs.rotate_fail_sec)) [
        | inl late ↦ simp late (sym p.counted)
        | inr free ↦ elim (Bool-cases (not (need_size fs incoming) && not time)) [
          | inl idle ↦ simp (free, idle) (sym p.counted)
          | inr due ↦ simp (free, due, p.flat) (archive-InStep _ os.now)
        ]
      ]

  -- what the writing of a line adds, where the count stays below 64 bits
  put-bytes :
      (g : FileSink) (size : ℕ) (e : List Event) (status : Status)
      → g.is_up ≡ true
      → InStep files (status, g, e)
      → g.current_size + size < 2 ^ 64
      → let r = put os g size in
        let all : Status × FileSink × List Event = (r.0, r.1, e ++ r.2) in
        (bytes_in os files size all ≡ g.current_size + os.written size)
        × (r.1.current_size ≡ g.current_size + os.written size)
  unfolding put bytes_in InStep
  put-bytes g size e status up same small =
      let n = os.written size in
      let whole : (g.current_size + n) % 2 ^ 64 ≡ g.current_size + n =
        omega (arith, w.writes size) in
      elim (Bool-cases (n == size)) [
        | inl all ↦ simp (all, up, append-nil, same) (refl, whole)
        | inr part ↦ elim (Bool-cases g.write_failing) [
          | inl again ↦ simp (part, again, up, append-nil, same) (refl, whole)
          | inr first ↦
              simp (part, first, up)
                (
                  ap (λ d. d g.active_path + n) (reported_last e Status.platform files)
                      ∙ ap (λ k. k + n) same,
                  whole,
                )
        ]
      ]

  -- A write, in a sink that rotates by size with a positive limit, leaves the active file with no
  -- more bytes than the larger of that limit and the one line that was written, and the sink's
  -- count is again that of the file. At first it is, and the sink is at its own path, without
  -- directories for the days; no archive takes the name of the active file; the file system does
  -- what it is asked to; the second of a failed rotation is over; and the size with the line fits
  -- in 64 bits.
  pub file_write-size :
      (size limit : ℕ)
      → Ready os fs
      → sized fs ≡ true
      → 0 < fs.max_file_size
      → fs.current_size + size < 2 ^ 64
      → fs.max_file_size ≤ limit
      → size ≤ limit
      → let r = file_write localtime os fs size in
        (bytes_in os files size r ≤ limit) × (r.1.current_size ≡ bytes_in os files size r)
  unfolding file_write InStep bytes_in
  file_write-size size limit ready s pos small h k =
      let (status, g, e) = rotate_maybe localtime os fs size in
      let (room, fits) = rotate_maybe-room localtime os fs size limit w ready s pos small h k in
      let same = rotate_maybe-InStep size in
      elim (Bool-cases g.is_up) [
        | inl up ↦
            let (bytes, count) = put-bytes g size e status up same fits in
            simp (sized-rotates localtime os fs s, up)
              (omega (arith, bytes, room, w.writes size), count ∙ sym bytes)
        | inr down ↦
            simp (sized-rotates localtime os fs s, down)
              (omega (arith, same, room), omega (arith, same))
      ]
