-- ===== src/Bundle/Home.antt =====
-- What the scrub of the lines of a text artifact leaves.
use dtd_server_apm.Common.{
  ℕ, zero, suc, ◌≡◌, ◌≢◌, refl, sym, ◌∙◌, not, all, Bool, true, false, List, [], ◌∷◌, ◌++◌, Option,
  none, some, Text, codes, ◌==◌, if_cases, starts_with, drop, length, All, Lacks, arith, Bool-cases,
  inl, inr, and-true, is_space, lstrip,
}
use dtd_server_apm.Io.Json.{Json}
use dtd_server_apm.Bundle.Scrub.{occurs}
use dtd_server_apm.Bundle.Lines.{
  replace_from, hide_home, Tools, scrub_line, scrub_lines, kept_line, is_server_line,
  scrub_jsonl_line, parsed_line, has_shape, stamp_shape,
}

module _ (old : Text) where
  -- A prefix without the mark that the replaced text has, the text has.
  starts_with-replace :
      (prefix s : Text)
      → Lacks b'~' prefix
      → starts_with (replace_from old (codes "~") zero s) prefix ≡ true
      → starts_with s prefix ≡ true
  unfolding replace_from starts_with
  starts_with-replace [] s h e = refl
  starts_with-replace (d ∷ prefix) [] h e = e
  starts_with-replace (d ∷ prefix) (c ∷ s) h e =
      if_cases (λ t. starts_with t (d ∷ prefix) ≡ true → starts_with (c ∷ s) (d ∷ prefix) ≡ true)
        (starts_with (c ∷ s) old)
        (codes "~" ++ replace_from old (codes "~") (length (drop 1 old)) s)
        (c ∷ replace_from old (codes "~") zero s) (λ _ e. absurd (ground (arith, h.0, e)))
        (λ _ e. ground (arith, starts_with-replace prefix s h.1, e)) e

  -- The same of a character that stays in front.
  starts_with-kept :
      (c : ℕ) (prefix s : Text)
      → Lacks b'~' prefix
      → starts_with (c ∷ replace_from old (codes "~") zero s) prefix ≡ true
      → starts_with (c ∷ s) prefix ≡ true
  unfolding starts_with
  starts_with-kept c [] s h e = refl
  starts_with-kept c (d ∷ prefix) s h e = ground (arith, starts_with-replace prefix s h.1, e)

  starts_with-empty : old ≢ [] → starts_with [] old ≡ false
  unfolding starts_with
  starts_with-empty h = go old h
    where
      go : (t : Text) → t ≢ [] → starts_with [] t ≡ false
      go [] h = absurd (h refl)
      go (c ∷ t) h = refl

  starts_with-mark : (s : Text) → old ≢ [] → Lacks b'~' old → starts_with (b'~' ∷ s) old ≡ false
  unfolding starts_with
  starts_with-mark s h k = go old h k
    where
      go : (t : Text) → t ≢ [] → Lacks b'~' t → starts_with (b'~' ∷ s) t ≡ false
      go [] h k = absurd (h refl)
      go (c ∷ t) h k = ground (arith, k.0)

  starts_with-old :
      (c : ℕ) (s : Text)
      → Lacks b'~' old
      → starts_with (c ∷ s) old ≡ false
      → starts_with (c ∷ replace_from old (codes "~") zero s) old ≡ false
  starts_with-old c s l e =
      elim (Bool-cases (starts_with (c ∷ replace_from old (codes "~") zero s) old)) [
        | inl k ↦ absurd (cc (starts_with-kept c old s l k, e))
        | inr k ↦ k
      ]

  occurs-replace :
      (s : Text) (k : ℕ)
      → old ≢ []
      → Lacks b'~' old
      → occurs old (replace_from old (codes "~") k s) ≡ false
  unfolding replace_from occurs
  occurs-replace [] k h l = starts_with-empty h
  occurs-replace (c ∷ s) (suc k) h l = occurs-replace s k h l
  occurs-replace (c ∷ s) zero h l =
      if_cases (λ t. occurs old t ≡ false) (starts_with (c ∷ s) old)
        (codes "~" ++ replace_from old (codes "~") (length (drop 1 old)) s)
        (c ∷ replace_from old (codes "~") zero s)
        (λ _. rw (starts_with-mark _ h l) (occurs-replace s (length (drop 1 old)) h l))
        (λ e. rw (starts_with-old c s l e) (occurs-replace s zero h l))

module _ {N : Type 0} (tools : Tools N) where
  open tools use {is_digit, loads, home}

  has_shape-replace :
      (shape s : Text)
      → is_digit b'~' ≡ false
      → Lacks b'~' shape
      → has_shape is_digit shape (replace_from home (codes "~") zero s) ≡ true
      → has_shape is_digit shape s ≡ true
  unfolding replace_from has_shape
  has_shape-replace [] s d l e = refl
  has_shape-replace (k ∷ shape) [] d l e = e
  has_shape-replace (k ∷ shape) (c ∷ s) d l e =
      if_cases
        (λ t.
          has_shape is_digit (k ∷ shape) t ≡ true → has_shape is_digit (k ∷ shape) (c ∷ s) ≡ true)
        (starts_with (c ∷ s) home)
        (codes "~" ++ replace_from home (codes "~") (length (drop 1 home)) s)
        (c ∷ replace_from home (codes "~") zero s) (λ _ e. absurd (ground (arith, l.0, d, e)))
        (λ _ e. ground (arith, has_shape-replace shape s d l.1, e)) e

  has_shape-kept :
      (c : ℕ) (shape s : Text)
      → is_digit b'~' ≡ false
      → Lacks b'~' shape
      → has_shape is_digit shape (c ∷ replace_from home (codes "~") zero s) ≡ true
      → has_shape is_digit shape (c ∷ s) ≡ true
  unfolding has_shape
  has_shape-kept c [] s d l e = refl
  has_shape-kept c (k ∷ shape) s d l e = ground (arith, has_shape-replace shape s d l.1, e)

  server_line-space :
      (c : ℕ) (s : Text)
      → is_space c ≡ true
      → is_server_line is_digit (c ∷ s) ≡ is_server_line is_digit s
  unfolding is_server_line lstrip
  server_line-space c s e = rw e refl

  server_line-solid :
      (c : ℕ) (s : Text)
      → is_space c ≡ false
      → is_server_line is_digit (c ∷ s) ≡ has_shape is_digit stamp_shape (c ∷ s)
  unfolding is_server_line lstrip
  server_line-solid c s e = rw e refl

  stamp_shape-Lacks : Lacks b'~' stamp_shape
  stamp_shape-Lacks = go stamp_shape refl
    where
      go : (t : Text) → all (λ c. not (c == b'~')) t ≡ true → Lacks b'~' t
      go [] h = tt
      go (c ∷ t) h =
          let (p, q) = and-true (not (c == b'~')) (all (λ c. not (c == b'~')) t) h in
          (ground arith, go t q)

  server_line-kept :
      (s : Text)
      → is_digit b'~' ≡ false
      → is_server_line is_digit (replace_from home (codes "~") zero s) ≡ true
      → is_server_line is_digit s ≡ true
  unfolding replace_from is_server_line has_shape lstrip is_space
  server_line-kept [] d e = e
  server_line-kept (c ∷ s) d e =
      if_cases (λ t. is_server_line is_digit t ≡ true → is_server_line is_digit (c ∷ s) ≡ true)
        (starts_with (c ∷ s) home)
        (codes "~" ++ replace_from home (codes "~") (length (drop 1 home)) s)
        (c ∷ replace_from home (codes "~") zero s) (λ _ e. absurd (cc (d, e)))
        (λ _ e. elim (Bool-cases (is_space c)) [
          | inl b ↦
              server_line-space c s b
              ∙ server_line-kept s d
                  (sym (server_line-space c (replace_from home (codes "~") zero s) b) ∙ e)
          | inr b ↦
              server_line-solid c s b
              ∙ has_shape-kept c stamp_shape s d stamp_shape-Lacks
                  (sym (server_line-solid c (replace_from home (codes "~") zero s) b) ∙ e)
        ])
        e

  -- A line that may leave the host, of a structured record or of any other text.
  pub record IsPrivate (jsonl : Bool) (line : Text) : Type 0 where
    pub no_home : occurs home line ≡ false
    pub no_log : jsonl ≡ false → is_server_line is_digit line ≡ false

  module _ (filled : home ≢ []) (unmarked : Lacks b'~' home)
      (no_digit : is_digit b'~' ≡ false) where
    hide_home-clears : (s : Text) → occurs home (hide_home home s) ≡ false
    unfolding hide_home
    hide_home-clears s = occurs-replace home s zero filled unmarked

    parsed_line-clears :
        (line : Text) (o : Option (Json N)) → occurs home (parsed_line tools line o) ≡ false
    unfolding parsed_line
    parsed_line-clears line none = hide_home-clears line
    parsed_line-clears line (some v) = hide_home-clears _

    hide_home-log :
        (line : Text)
        → is_server_line is_digit line ≡ false
        → is_server_line is_digit (hide_home home line) ≡ false
    unfolding hide_home
    hide_home-log line e = elim (Bool-cases (is_server_line is_digit (hide_home home line))) [
      | inl k ↦ absurd (cc (server_line-kept line no_digit k, e))
      | inr k ↦ k
    ]

    AllPrivate : Bool → Option Text → Type 0
    AllPrivate jsonl none = Unit
    AllPrivate jsonl (some body) = IsPrivate jsonl body

    scrub_line-IsPrivate :
        (jsonl : Bool) (line : Text) → AllPrivate jsonl (scrub_line tools jsonl line)
    unfolding scrub_line AllPrivate scrub_jsonl_line
    scrub_line-IsPrivate true line = record {
      no_home = parsed_line-clears line (loads line);
      no_log = λ e. absurd (cc e);
    }
    scrub_line-IsPrivate false line =
        if_cases (AllPrivate false) (is_server_line is_digit line) none (some (hide_home home line))
          (λ _. tt)
          (λ e. record { no_home = hide_home-clears line; no_log = λ _. hide_home-log line e })

    kept_line-IsPrivate :
        (jsonl : Bool) (o : Option Text) (rest : List Text)
        → AllPrivate jsonl o
        → All (IsPrivate jsonl) rest
        → All (IsPrivate jsonl) (kept_line tools o rest)
    unfolding kept_line AllPrivate
    kept_line-IsPrivate jsonl none rest h k = k
    kept_line-IsPrivate jsonl (some body) rest h k = (h, k)

    -- No stored line of a text artifact or of structured records holds the user's home directory, and no
    -- stored line of a text artifact is a stamped console line of the game server, also not one that the
    -- replacement of the home directory brings about; where the home directory is not empty and has no
    -- tilde, and a tilde is no digit.
    pub scrub_lines-IsPrivate :
        (jsonl : Bool) (lines : List Text) → All (IsPrivate jsonl) (scrub_lines tools jsonl lines)
    unfolding scrub_lines
    scrub_lines-IsPrivate jsonl [] = tt
    scrub_lines-IsPrivate jsonl (line ∷ lines) =
        kept_line-IsPrivate jsonl (scrub_line tools jsonl line) _ (scrub_line-IsPrivate jsonl line)
          (scrub_lines-IsPrivate jsonl lines)
