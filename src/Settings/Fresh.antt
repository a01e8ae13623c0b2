-- ===== src/Settings/Fresh.antt =====
-- src/hx_clog_core.c: after a refresh, a thread's snapshot is that of the settings as they are.
use hx_clog.Common.{
  ℕ, ◌+◌, ◌-◌, ◌%◌, ◌^◌, ◌<◌, ◌≤◌, ◌≡◌, ◌⊎◌, refl, ap, inl, inr, false, Option, none, some, arith,
  ◌==◌, ==_iff, if◌then◌else◌, Bool-cases, Bytes,
}
use hx_clog.Format.Retry.{FormatMode, Formatter}
use hx_clog.Settings.{
  Settings, Cache, copied, cache_refresh, bump_format_gen, set_pattern, set_format_mode,
  set_formatter, set_all,
}

-- the settings and the snapshot of one thread
pub record Shared : Type 0 where
  pub settings : Settings
  pub cache : Cache

-- another thread sets something, each under `sink_lock`, or this one starts a line
pub data Step : Shared → Shared → Type 0 where
  patterns :
      {x : Shared} (p : Option Bytes)
      → Step x (record x { settings = (set_pattern p x.settings).1 })
  modes :
      {x : Shared} (m : FormatMode)
      → Step x (record x { settings = (set_format_mode m x.settings).1 })
  formatters :
      {x : Shared} (f : Option Formatter)
      → Step x (record x { settings = (set_formatter f x.settings).1 })
  sets_all :
      {x : Shared} (p : Bytes) (m : FormatMode) (f : Option Formatter) (name : Bytes)
      → Step x (record x { settings = set_all p m f name x.settings })
  refreshes : {x : Shared} → Step x (record x { cache = cache_refresh x.settings x.cache })

pub data Run : Shared → Shared → Type 0 where
  done : {x : Shared} → Run x x
  goes : {x y z : Shared} → Step x y → Run y z → Run x z

-- how many steps there are
unfoldable pub steps : {x y : Shared} → Run x y → ℕ
steps done = 0
steps (goes st run) = steps run + 1

-- The generations but 0, which stands for a snapshot that was never filled.
abbrev pub generations : ℕ
generations = 2 ^ 32 - 1

-- The library has been initialised, and the thread has no snapshot yet, or one of the settings.
pub record IsFresh (x : Shared) : Type 0 where
  pub some_gen : 0 < x.settings.gen
  pub known_gen : x.settings.gen < 2 ^ 32
  pub held : (x.cache.gen ≡ 0) ⊎ (x.cache ≡ copied x.settings)

-- A snapshot was never filled, or it was of the settings before their last `d` changes.
record IsValid (d : ℕ) (x : Shared) : Type 0 where
  some_gen : 0 < x.settings.gen
  known_gen : x.settings.gen < 2 ^ 32
  since :
      (x.cache.gen ≡ 0)
      ⊎ ((0 < x.cache.gen)
          × (x.cache.gen < 2 ^ 32)
          × (x.settings.gen - 1 ≡ (x.cache.gen - 1 + d) % generations)
          × (d ≡ 0 → x.cache ≡ copied x.settings))

-- what a change makes of the generation
next_gen : ℕ → ℕ
next_gen g = let h = (g + 1) % 2 ^ 32 in if h == 0 then 1 else h

not_zero : (n : ℕ) → (n == 0) ≡ false → 0 < n
not_zero n e = ground (arith, e)

next_gen_lem :
    (g : ℕ)
    → 0 < g
    → g < 2 ^ 32
    → (0 < next_gen g) × (next_gen g < 2 ^ 32) × (next_gen g - 1 ≡ (g - 1 + 1) % generations)
unfolding next_gen
next_gen_lem g pos small = elim (Bool-cases ((g + 1) % 2 ^ 32 == 0)) [
  | inl e ↦
      let z = (==_iff ((g + 1) % 2 ^ 32) 0).0 e in rw e (omega arith, omega arith, omega arith)
  | inr e ↦ let z = not_zero ((g + 1) % 2 ^ 32) e in rw e (omega arith, omega arith, omega arith)
]

bumped-IsValid :
    (d : ℕ) (s t : Settings) (c : Cache)
    → t.gen ≡ s.gen
    → IsValid d (record { settings = s; cache = c })
    → IsValid (d + 1) (record { settings = bump_format_gen t; cache = c })
unfolding bump_format_gen next_gen
bumped-IsValid d s t c e v =
    let (pos, small, next) =
      next_gen_lem t.gen (omega (arith, v.some_gen, e)) (omega (arith, v.known_gen, e)) in
    record {
      some_gen = pos;
      known_gen = small;
      since = elim v.since [
        | inl never ↦ inl never
        | inr (p, k, m, same) ↦
            inr (p, k, omega (arith, next, m, e, v.some_gen), λ z. absurd (omega (arith, z)))
      ];
    }

refreshed :
    (d : ℕ) (s : Settings) (c : Cache)
    → d < generations
    → IsValid d (record { settings = s; cache = c })
    → cache_refresh s c ≡ copied s
unfolding cache_refresh
refreshed d s c few v = elim (Bool-cases (s.gen == c.gen)) [
  | inr e ↦ rw e refl
  | inl e ↦
      let equal : s.gen ≡ c.gen = (==_iff s.gen c.gen).0 e in
      elim v.since [
        | inl never ↦ absurd (omega (arith, never, equal, v.some_gen))
        | inr (p, k, m, same) ↦ rw e (same (omega (arith, m, equal, few, k, p)))
      ]
]

kept-IsValid :
    (d : ℕ) (s : Settings) (c : Cache)
    → d < generations
    → IsValid d (record { settings = s; cache = c })
    → IsValid 0 (record { settings = s; cache = cache_refresh s c })
unfolding copied
kept-IsValid d s c few v = rw (refreshed d s c few v) record {
  some_gen = v.some_gen;
  known_gen = v.known_gen;
  since = inr (v.some_gen, v.known_gen, omega (arith, v.some_gen, v.known_gen), λ z. refl);
}

-- After a step the snapshot is of before at most one more change.
Step-IsValid :
    (d : ℕ) {x y : Shared}
    → d < generations
    → Step x y
    → IsValid d x
    → (d' : ℕ) × (d' ≤ d + 1) × IsValid d' y
unfolding set_pattern set_format_mode set_formatter set_all
Step-IsValid d few (patterns {x} none) v = (d, omega arith, v)
Step-IsValid d few (patterns {x} (some p)) v =
    (d + 1, omega arith, bumped-IsValid d x.settings _ x.cache refl v)
Step-IsValid d few (modes {x} m) v =
    (d + 1, omega arith, bumped-IsValid d x.settings _ x.cache refl v)
Step-IsValid d few (formatters {x} f) v =
    (d + 1, omega arith, bumped-IsValid d x.settings _ x.cache refl v)
Step-IsValid d few (sets_all {x} p m f name) v =
    (d + 1, omega arith, bumped-IsValid d x.settings _ x.cache refl v)
Step-IsValid d few (refreshes {x}) v = (0, omega arith, kept-IsValid d x.settings x.cache few v)

Run-IsValid :
    (d : ℕ) {x y : Shared} (run : Run x y)
    → d + steps run < generations
    → IsValid d x
    → cache_refresh y.settings y.cache ≡ copied y.settings
unfolding steps
Run-IsValid d {y} done few v = refreshed d y.settings y.cache (omega (arith, few)) v
Run-IsValid d (goes st run) few v =
    let (d', less, v') = Step-IsValid d (omega (arith, few)) st v in
    Run-IsValid d' run (omega (arith, few, less)) v'

fresh-IsValid : {x : Shared} → IsFresh x → IsValid 0 x
unfolding copied
fresh-IsValid {x} h = record {
  some_gen = h.some_gen;
  known_gen = h.known_gen;
  since = elim h.held [
    | inl never ↦ inl never
    | inr same ↦
        let equal : x.cache.gen ≡ x.settings.gen = ap (λ (c : Cache). c.gen) same in
        inr (
          omega (arith, equal, h.some_gen),
          omega (arith, equal, h.known_gen),
          omega (arith, equal, h.some_gen, h.known_gen),
          λ z. same,
        )
  ];
}

-- After any run of settings, each made under the lock, and refreshes, a refresh gives a thread the
-- snapshot of the settings as they are, if the library was initialised and the thread had no
-- snapshot or that of the settings at first, and the run has less than 2^32 - 1 steps, within
-- which no generation comes back. The initialisation is not among the steps.
pub Run-refreshed :
    {x y : Shared} (run : Run x y)
    → IsFresh x
    → steps run < generations
    → cache_refresh y.settings y.cache ≡ copied y.settings
Run-refreshed run h few = Run-IsValid 0 run (omega (arith, few)) (fresh-IsValid h)
