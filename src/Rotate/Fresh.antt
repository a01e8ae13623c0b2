-- ===== src/Rotate/Fresh.antt =====
-- src/hx_clog_rotate.c: the name of a new archive is the name of no file in the directory.
use mathlib.Core.List.{Memᴰ}
use hx_clog.Common.{
  ℕ, ◌+◌, ◌-◌, ◌*◌, ◌^◌, ◌≤◌, ◌<◌, ◌≡◌, ◌≢◌, refl, ◌∙◌, sym, ap, inl, inr, true, false, List, [],
  ◌∷◌, ◌++◌, append_assoc, append-nil, arith, ltb, ==_iff, ne→==, Bool-cases, ltb→lt, ltb→ge, Bytes,
  length, drop, take-of_le, length-append,
}
use hx_clog.Format.Record.{Tm}
use hx_clog.Format.View.{decimal, padded}
use hx_clog.Format.Decimal.{read, AllDigits, decimal_lem, length-decimal, length-padded}
use hx_clog.Rotate.{
  stem_cap, ext_cap, needle_cap, path_max, cut, split_name, date_tag, make_archive_name, has_prefix,
  is_digit, is_space, skip_spaces, leading, atoi_at, atoi, index_cb, scan_index, next_archive,
}

-- a text that no digit begins
unfoldable pub Stops : Bytes → Type 0
Stops [] = Unit
Stops (c ∷ s) = c ≡ b'.'

pub digit_is_digit : (c : ℕ) → b'0' ≤ c → c ≤ b'9' → is_digit c ≡ true
unfolding is_digit
digit_is_digit c low high = ground arith

pub digit_is_no_space : (c : ℕ) → b'0' ≤ c → c ≤ b'9' → is_space c ≡ false
unfolding is_space
digit_is_no_space c low high = ground arith

leading-append :
    (s tail : Bytes) (n : ℕ) → AllDigits s → Stops tail → leading n (s ++ tail) ≡ read n s
unfolding leading read Stops
leading-append [] [] n d h = refl
leading-append [] (c ∷ tail) n d h = rw h (unfold is_digit in refl)
leading-append (c ∷ s) tail n (low, high, d) h =
    rw (digit_is_digit c low high) (leading-append s tail (n * 10 + (c - b'0')) d h)

atoi-digits : (s tail : Bytes) → AllDigits s → Stops tail → atoi (s ++ tail) ≡ read 0 s
unfolding atoi skip_spaces Stops atoi_at read
atoi-digits [] [] d h = refl
atoi-digits [] (c ∷ tail) d h = rw h (unfold is_space leading is_digit in refl)
atoi-digits (c ∷ s) tail (low, high, d) h =
    rw (digit_is_no_space c low high, ne→== c b'+' (omega arith))
      (leading-append (c ∷ s) tail 0 (low, high, d) h)

pub has_prefix-append : (needle x : Bytes) → has_prefix (needle ++ x) needle ≡ true
unfolding has_prefix
has_prefix-append [] x = refl
has_prefix-append (c ∷ needle) x = rw ((==_iff c c).1 refl) (has_prefix-append needle x)

pub drop-length_append : (xs ys : Bytes) → drop (length xs) (xs ++ ys) ≡ ys
drop-length_append [] ys = refl
drop-length_append (x ∷ xs) ys = drop-length_append xs ys

-- the beginning of the archives of a day
unfoldable pub needle_of : Bytes → Bytes → Bytes
needle_of stem date = stem ++ b'.' ∷ date ++ b'.' ∷ []

index_cb_ge : (stem date : Bytes) (m : ℕ) (f : Bytes) → m ≤ index_cb stem date m f
unfolding index_cb
index_cb_ge stem date m f =
    let needle = cut needle_cap (stem ++ b'.' ∷ date ++ b'.' ∷ []) in
    let idx = atoi (drop (length needle) f) in
    elim (Bool-cases (has_prefix f needle)) [
      | inr e ↦ rw e (omega arith)
      | inl e ↦ elim (Bool-cases (ltb m idx)) [
        | inl l ↦ rw (e, l) (omega (arith, ltb→lt m idx l))
        | inr l ↦ rw (e, l) (omega arith)
      ]
    ]

index_cb_reads :
    (stem date : Bytes) (m : ℕ) (f : Bytes)
    → let needle = cut needle_cap (needle_of stem date) in
      has_prefix f needle ≡ true → atoi (drop (length needle) f) ≤ index_cb stem date m f
unfolding index_cb needle_of
index_cb_reads stem date m f e =
    let needle = cut needle_cap (needle_of stem date) in
    let idx = atoi (drop (length needle) f) in
    elim (Bool-cases (ltb m idx)) [
      | inl l ↦ rw (e, l) (omega arith)
      | inr l ↦ rw (e, l) (omega (arith, ltb→ge m idx l))
    ]

scan_index_ge : (stem date : Bytes) (names : List Bytes) (m : ℕ) → m ≤ scan_index stem date m names
unfolding scan_index
scan_index_ge stem date [] m = omega arith
scan_index_ge stem date (f ∷ names) m =
    omega (arith, index_cb_ge stem date m f, scan_index_ge stem date names (index_cb stem date m f))

pub scan_index_reads :
    (stem date fname : Bytes) {names : List Bytes} (m : ℕ)
    → Memᴰ fname names
    → let needle = cut needle_cap (needle_of stem date) in
      has_prefix fname needle ≡ true
      → atoi (drop (length needle) fname) ≤ scan_index stem date m names
unfolding scan_index
scan_index_reads stem date f {names = []} m i begins = elim i [ ]
scan_index_reads stem date f {names = x ∷ names} m (Memᴰ.head e) begins =
    let begins' : has_prefix x (cut needle_cap (needle_of stem date)) ≡ true = rw e at begins in
    rw e (
      omega (
        arith,
        index_cb_reads stem date m x begins',
        scan_index_ge stem date names (index_cb stem date m x),
      ))
scan_index_reads stem date f {names = x ∷ names} m (Memᴰ.tail i) begins =
    scan_index_reads stem date f (index_cb stem date m x) i begins

-- a date whose numbers have four, two and two digits
pub record IsDate (tmv : Tm) : Type 0 where
  pub year_in : tmv.tm_year + 1900 < 10000
  pub mon_in : tmv.tm_mon < 12
  pub day_pos : 0 < tmv.tm_mday
  pub day_in : tmv.tm_mday ≤ 31

length-dashed :
    (a b c : Bytes)
    → length a ≡ 4
    → length b ≡ 2
    → length c ≡ 2
    → length (a ++ b'-' ∷ b ++ b'-' ∷ c) ≡ 10
length-dashed a b c x y z =
    omega (arith, length-append (a ++ b'-' ∷ b) (b'-' ∷ c), length-append a (b'-' ∷ b), x, y, z)

length-date_tag : (tmv : Tm) → IsDate tmv → length (date_tag tmv) ≡ 10
unfolding date_tag
length-date_tag tmv h =
    length-dashed (padded 4 (tmv.tm_year + 1900)) (padded 2 (tmv.tm_mon + 1)) (padded 2 tmv.tm_mday)
      (length-padded 4 (tmv.tm_year + 1900) (omega arith) (omega (arith, h.year_in)))
      (length-padded 2 (tmv.tm_mon + 1) (omega arith) (omega (arith, h.mon_in)))
      (length-padded 2 tmv.tm_mday (omega arith) (omega (arith, h.day_in)))

pub length-needle :
    (stem : Bytes) (tmv : Tm)
    → IsDate tmv
    → length (needle_of stem (date_tag tmv)) ≡ length stem + 12
unfolding needle_of
length-needle stem tmv h = omega (
  arith,
  length-append (stem ++ b'.' ∷ date_tag tmv) (b'.' ∷ []),
  length-append stem (b'.' ∷ date_tag tmv),
  length-date_tag tmv h,
)

-- what follows the index in the name of an archive
unfoldable pub ending : Bytes → Bytes
ending [] = []
ending (c ∷ e) = b'.' ∷ c ∷ e

pub length-ending : (ext : Bytes) → length (ending ext) ≤ length ext + 1
unfolding ending
length-ending [] = omega arith
length-ending (c ∷ e) = omega arith

pub ending-Stops : (ext : Bytes) → Stops (ending ext)
unfolding ending Stops
ending-Stops [] = tt
ending-Stops (c ∷ e) = refl

pub needle_append :
    (stem date s : Bytes) → needle_of stem date ++ s ≡ stem ++ b'.' ∷ date ++ b'.' ∷ s
unfolding needle_of
needle_append stem date s = append_assoc (stem ++ b'.' ∷ date) (b'.' ∷ []) s

pub make_archive_name_lem :
    (stem ext : Bytes) (tmv : Tm) (index : ℕ)
    → let name = needle_of stem (date_tag tmv) ++ decimal 24 index ++ ending ext in
      length name < path_max → make_archive_name stem ext tmv index ≡ name
unfolding needle_of ending make_archive_name
make_archive_name_lem stem [] tmv index short =
    let name = needle_of stem (date_tag tmv) ++ decimal 24 index in
    let text : name ++ [] ≡ name = append-nil name in
    let fits : length name ≤ path_max - 1 = omega (arith, ap length text, short) in
    ap (cut path_max) (sym (needle_append stem (date_tag tmv) (decimal 24 index)))
    ∙ take-of_le (path_max - 1) name fits
    ∙ sym text
make_archive_name_lem stem (c ∷ e) tmv index short =
    let d = decimal 24 index in
    let name = needle_of stem (date_tag tmv) ++ d in
    ap (λ x. cut path_max (x ++ b'.' ∷ c ∷ e)) (sym (needle_append stem (date_tag tmv) d))
    ∙ take-of_le (path_max - 1) (name ++ b'.' ∷ c ∷ e) (omega (arith, short))

-- the number in the name of an archive
pub archive_begins :
    (needle : Bytes) (index : ℕ) (tail : Bytes)
    → index < 2 ^ 64
    → Stops tail
    → (has_prefix (needle ++ decimal 24 index ++ tail) needle ≡ true)
      × (atoi (drop (length needle) (needle ++ decimal 24 index ++ tail)) ≡ index)
archive_begins needle index tail small stops =
    let d = decimal 24 index in
    let (reads, all) = decimal_lem index small in
    let parts : needle ++ d ++ tail ≡ needle ++ (d ++ tail) = append_assoc needle d tail in
    rw parts (
      has_prefix-append needle (d ++ tail),
      ap atoi (drop-length_append needle (d ++ tail)) ∙ atoi-digits d tail all stops ∙ reads,
    )

module _ (base_name stem ext : Bytes) (tmv : Tm) (names : List Bytes) where
  -- No file in the directory has the name that the new archive gets, so that its rename replaces
  -- no file. The stem and the extension of the base name fit into their buffers, the date has
  -- four, two and two digits, and the numbers of the archives of that day are less than `2 ^ 31 -
  -- 1`.
  pub next_archive_lem :
      (fname : Bytes)
      → split_name base_name ≡ (stem, ext)
      → length stem < stem_cap
      → length ext < ext_cap
      → IsDate tmv
      → scan_index stem (date_tag tmv) 0 names < 2 ^ 31 - 1
      → Memᴰ fname names
      → fname ≢ next_archive base_name tmv names
  unfolding next_archive
  next_archive_lem fname split stem_in ext_in date few i same =
      let index = scan_index stem (date_tag tmv) 0 names + 1 in
      let needle = needle_of stem (date_tag tmv) in
      let whole : cut needle_cap needle ≡ needle =
        take-of_le (needle_cap - 1) needle (omega (arith, length-needle stem tmv date)) in
      let name = needle ++ decimal 24 index ++ ending ext in
      let made : make_archive_name stem ext tmv index ≡ name =
        make_archive_name_lem stem ext tmv index (
          omega (
            arith,
            length-append (needle ++ decimal 24 index) (ending ext),
            length-append needle (decimal 24 index),
            length-needle stem tmv date,
            length-decimal index (omega arith),
            length-ending ext,
          )) in
      let chosen : next_archive base_name tmv names ≡ make_archive_name stem ext tmv index =
        rw split refl in
      let is : fname ≡ name = same ∙ chosen ∙ made in
      let (begins, reads) =
        archive_begins needle index (ending ext) (omega arith) (ending-Stops ext) in
      let begins' : has_prefix fname (cut needle_cap needle) ≡ true = rw (whole, is) begins in
      let counted = scan_index_reads stem (date_tag tmv) fname 0 i begins' in
      let low : index ≤ scan_index stem (date_tag tmv) 0 names = rw (whole, is, reads) at counted in
      omega arith
