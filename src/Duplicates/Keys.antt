-- ===== src/Duplicates/Keys.antt =====
-- src/hx_clog_core.c: what tells messages apart, and what an output with summaries tells of.
use hx_clog.Common.{
  ℕ, zero, suc, ◌+◌, ◌-◌, ◌≡◌, refl, ◌∙◌, ap, sym, Bool, true, ◌&&◌, List, [], ◌∷◌, ◌++◌,
  append-nil, append_assoc, Option, none, some, arith, ltb, lt→ltb, ==_iff, if◌then◌else◌, Bytes,
  take, eqs_iff, replicate,
}
use hx_clog.Duplicates.{
  Dup, Call, logger_max, file_max, key_length, text_or_empty, is_same, remember,
}

-- what tells messages apart
pub record Key : Type 0 where
  pub level : ℕ
  pub line : ℕ
  pub msg_len : ℕ
  pub logger : Bytes
  pub file : Bytes
  pub msg : Bytes

abbrev pub key_of : Call → Key
key_of c = record {
  level = c.level;
  line = c.line;
  msg_len = c.msg_len;
  logger = take (logger_max - 1) (text_or_empty c.logger_name);
  file = take (file_max - 1) (text_or_empty c.file);
  msg = take (key_length c.msg_len) c.msg;
}

abbrev pub last_key : Dup → Key
last_key d = record {
  level = d.last_level;
  line = d.last_line;
  msg_len = d.last_msg_len;
  logger = take (logger_max - 1) d.last_logger;
  file = take (file_max - 1) d.last_file;
  msg = take (key_length d.last_msg_len) d.last_msg;
}

-- what goes on to the sinks: a message, or the summary of so many repeats
pub data Out : Type 0 where
  passed : Key → Out
  repeated : ℕ → Out

-- the messages that an output tells of, after the last one
unfoldable pub expand : Option Key → List Out → List Key
expand last [] = []
expand last (passed k ∷ os) = k ∷ expand (some k) os
expand none (repeated n ∷ os) = expand none os
expand (some k) (repeated n ∷ os) = replicate n k ++ expand (some k) os

unfoldable pub last_of : Option Key → List Out → Option Key
last_of last [] = last
last_of last (passed k ∷ os) = last_of (some k) os
last_of last (repeated n ∷ os) = last_of last os

pub and_true : (a b : Bool) → (a && b) ≡ true → (a ≡ true) × (b ≡ true)
and_true a b e = ground arith

pub is_same-key : (d : Dup) (c : Call) → is_same d c ≡ true → key_of c ≡ last_key d
unfolding is_same
is_same-key d c e =
    let (e4, msg) = and_true _ _ e in
    let (e3, file) = and_true _ _ e4 in
    let (e2, logger) = and_true _ _ e3 in
    let (e1, len) = and_true _ _ e2 in
    let (level, line) = and_true _ _ e1 in
    cc (
      (==_iff d.last_level c.level).0 level,
      (==_iff d.last_line c.line).0 line,
      (==_iff d.last_msg_len c.msg_len).0 len,
      (eqs_iff (take (logger_max - 1) d.last_logger)
            (take (logger_max - 1) (text_or_empty c.logger_name))).0
          logger,
      (eqs_iff (take (file_max - 1) d.last_file) (take (file_max - 1) (text_or_empty c.file))).0
          file,
      (eqs_iff (take (key_length c.msg_len) d.last_msg) (take (key_length c.msg_len) c.msg)).0 msg,
    )

take-take : (n : ℕ) (s : Bytes) → take n (take n s) ≡ take n s
take-take zero [] = refl
take-take zero (c ∷ s) = refl
take-take (suc n) [] = refl
take-take (suc n) (c ∷ s) = ap (λ x. c ∷ x) (take-take n s)

pub remember-key : (d : Dup) (c : Call) → last_key (remember d c) ≡ key_of c
unfolding remember
remember-key d c = simp take-take

pub expand-append :
    (last : Option Key) (xs ys : List Out)
    → expand last (xs ++ ys) ≡ expand last xs ++ expand (last_of last xs) ys
unfolding expand last_of
expand-append last [] ys = refl
expand-append last (passed k ∷ xs) ys = ap (λ z. k ∷ z) (expand-append (some k) xs ys)
expand-append none (repeated n ∷ xs) ys = expand-append none xs ys
expand-append (some k) (repeated n ∷ xs) ys =
    ap (λ z. replicate n k ++ z) (expand-append (some k) xs ys)
    ∙ sym (append_assoc (replicate n k) (expand (some k) xs) (expand (last_of (some k) xs) ys))

pub last_of-append :
    (last : Option Key) (xs ys : List Out) → last_of last (xs ++ ys) ≡ last_of (last_of last xs) ys
unfolding last_of
last_of-append last [] ys = refl
last_of-append last (passed k ∷ xs) ys = last_of-append (some k) xs ys
last_of-append last (repeated n ∷ xs) ys = last_of-append last xs ys

pub replicate_more : (n : ℕ) (k : Key) → replicate n k ++ k ∷ [] ≡ replicate (n + 1) k
replicate_more zero k = refl
replicate_more (suc n) k =
    let e : suc n + 1 ≡ suc (n + 1) = omega arith in rw e (ap (λ z. k ∷ z) (replicate_more n k))

-- what a number of owed repeats stands for
pub expand_owed :
    (n : ℕ) (k : Key) → expand (some k) (if ltb 0 n then repeated n ∷ [] else []) ≡ replicate n k
unfolding expand
expand_owed zero k = refl
expand_owed (suc n) k = rw (lt→ltb 0 (suc n) (omega arith)) (append-nil (replicate (suc n) k))
