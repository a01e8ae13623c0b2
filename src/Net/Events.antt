-- ===== src/Net/Events.antt =====
-- src/hx_clog_net.c: what is read off the events of the network sink.
use hx_clog.Common.{
  ℕ, ◌+◌, ◌≡◌, refl, ◌∙◌, sym, ap, Bool, List, [], ◌∷◌, ◌++◌, append_assoc, Option, none, some,
  arith, ◌==◌, if◌then◌else◌, Bytes,
}
use hx_clog.Net.{Event}

-- the numbers that each event gives, one after the other
abbrev pub gather : (Event → List ℕ) → List Event → List ℕ
gather f [] = []
gather f (e ∷ es) = f e ++ gather f es

abbrev pub total : (Event → ℕ) → List Event → ℕ
total f [] = 0
total f (e ∷ es) = f e + total f es

pub gather-append :
    (f : Event → List ℕ) (es fs : List Event) → gather f (es ++ fs) ≡ gather f es ++ gather f fs
gather-append f [] fs = refl
gather-append f (e ∷ es) fs =
    ap (◌++◌ (f e)) (gather-append f es fs) ∙ sym (append_assoc (f e) (gather f es) (gather f fs))

pub total-append :
    (f : Event → ℕ) (es fs : List Event) → total f (es ++ fs) ≡ total f es + total f fs
total-append f [] fs = omega arith
total-append f (e ∷ es) fs = omega (arith, total-append f es fs)

-- the bytes that the system takes
abbrev pub taken : Event → Bytes
taken (Event.sends fd s) = s
taken (Event.attempts t) = []
taken (Event.opens fd) = []
taken (Event.shuts fd) = []
taken Event.reports = []

-- the times of the attempts to connect
abbrev pub tried : Event → List ℕ
tried (Event.attempts t) = t ∷ []
tried (Event.sends fd s) = []
tried (Event.opens fd) = []
tried (Event.shuts fd) = []
tried Event.reports = []

abbrev pub one_if : Bool → ℕ
one_if b = if b then 1 else 0

-- how often a socket is made, and closed
abbrev pub opened : ℕ → Event → ℕ
opened x (Event.opens fd) = one_if (fd == x)
opened x (Event.shuts fd) = 0
opened x (Event.sends fd s) = 0
opened x (Event.attempts t) = 0
opened x Event.reports = 0

abbrev pub closed : ℕ → Event → ℕ
closed x (Event.shuts fd) = one_if (fd == x)
closed x (Event.opens fd) = 0
closed x (Event.sends fd s) = 0
closed x (Event.attempts t) = 0
closed x Event.reports = 0

abbrev pub held : ℕ → Option ℕ → ℕ
held x none = 0
held x (some fd) = one_if (fd == x)

-- neither an attempt to connect nor a socket made or closed
pub record Calm (es : List Event) : Type 0 where
  pub no_attempt : gather tried es ≡ []
  pub no_open : (x : ℕ) → total (opened x) es ≡ 0
  pub no_close : (x : ℕ) → total (closed x) es ≡ 0

-- the events of a search for a socket, with the one that is kept
pub record Searched (kept : Option ℕ) (es : List Event) : Type 0 where
  pub no_bytes : gather taken es ≡ []
  pub no_attempt : gather tried es ≡ []
  pub kept_open : (x : ℕ) → total (opened x) es ≡ total (closed x) es + held x kept

abbrev pub Calm-nil : Calm []
Calm-nil = record { no_attempt = refl; no_open = λ x. refl; no_close = λ x. refl }

pub Calm-sends : (fd : ℕ) (s : Bytes) (es : List Event) → Calm es → Calm (Event.sends fd s ∷ es)
Calm-sends fd s es c = record {
  no_attempt = c.no_attempt;
  no_open = λ x. omega (arith, c.no_open x);
  no_close = λ x. omega (arith, c.no_close x);
}

pub Calm-reports : Calm (Event.reports ∷ [])
Calm-reports = record { no_attempt = refl; no_open = λ x. omega arith; no_close = λ x. omega arith }

pub Searched-nil : Searched none []
Searched-nil = record { no_bytes = refl; no_attempt = refl; kept_open = λ x. omega arith }

pub Searched-keeps : (fd : ℕ) → Searched (some fd) (Event.opens fd ∷ [])
Searched-keeps fd = record { no_bytes = refl; no_attempt = refl; kept_open = λ x. omega arith }

pub Searched-gives_up :
    (fd : ℕ) (kept : Option ℕ) (es : List Event)
    → Searched kept es
    → Searched kept (Event.opens fd ∷ Event.shuts fd ∷ es)
Searched-gives_up fd kept es h = record {
  no_bytes = h.no_bytes;
  no_attempt = h.no_attempt;
  kept_open = λ x. omega (arith, h.kept_open x);
}
