-- ===== src/Prometheus/Labels.antt =====
-- A label value survives the exposition format.
use dtd_server_apm.Common.{
  ℕ, ◌≡◌, refl, ap, sym, ◌∙◌, [], ◌∷◌, ◌++◌, Text, codes, arith, ◌==◌, if◌then◌else◌, if_cases,
  append_assoc, append-nil, Option, none, some, ◌||◌,
}
use dtd_server_apm.Prometheus.{replace_with, prom_label}

-- A reader of the value up to the closing quote, with the text behind it. A backslash and the character
-- that follows it stand for one; a bare line break and an open value are refused.
pub unescaped : ℕ → ℕ
unescaped c = if c == b'n' then 0x0a else if c == b'r' then 0x0d else c

pub prefixed : ℕ → Option (Text × Text) → Option (Text × Text)
prefixed c none = none
prefixed c (some (value, rest)) = some (c ∷ value, rest)

pub read_label : Text → Option (Text × Text)
unfolding unescaped prefixed
read_label [] = none
read_label (c ∷ []) = if c == b'"' then some ([], []) else none
read_label (c ∷ e ∷ s) =
    let escape = prefixed (unescaped e) (read_label s) in
    let plain = prefixed c (read_label (e ∷ s)) in
    if c == b'"'
    then some ([], e ∷ s)
    else if c == 0x0a || c == 0x0d
    then none
    else if c == b'\\'
    then escape
    else plain

-- What stands for one character.
escaped : ℕ → Text
escaped c =
    if c == b'\\'
    then codes "\\\\"
    else if c == b'"'
    then codes "\\\""
    else if c == 0x0a
    then codes "\\n"
    else if c == 0x0d
    then codes "\\r"
    else c ∷ []

replace_with-append :
    (old : ℕ) (new s t : Text)
    → replace_with old new (s ++ t) ≡ replace_with old new s ++ replace_with old new t
unfolding replace_with
replace_with-append old new [] t = refl
replace_with-append old new (c ∷ s) t =
    if_cases
      (λ l.
        (if c == old
          then new ++ replace_with old new (s ++ t)
          else c ∷ replace_with old new (s ++ t))
        ≡ l ++ replace_with old new t)
      (c == old) (new ++ replace_with old new s) (c ∷ replace_with old new s)
      (λ e. rw (e, replace_with-append old new s t) (sym (append_assoc new _ _)))
      (λ e. rw (e, replace_with-append old new s t) refl)

prom_label-append : (s t : Text) → prom_label (s ++ t) ≡ prom_label s ++ prom_label t
unfolding prom_label
prom_label-append s t =
    rw (replace_with-append, replace_with-append, replace_with-append, replace_with-append) refl

-- A text of one character.
replace_with-one :
    (old : ℕ) (new : Text) (c : ℕ)
    → replace_with old new (c ∷ []) ≡ (if c == old then new else c ∷ [])
unfolding replace_with
replace_with-one old new c =
    if_cases (λ l. l ≡ (if c == old then new else c ∷ [])) (c == old) (new ++ []) (c ∷ [])
      (λ e. rw e (append-nil new)) (λ e. rw e refl)

label-one : (c : ℕ) → prom_label (c ∷ []) ≡ escaped c
unfolding prom_label escaped replace_with
label-one c = ground arith

prom_label-cons : (c : ℕ) (s : Text) → prom_label (c ∷ s) ≡ escaped c ++ prom_label s
prom_label-cons c s = prom_label-append (c ∷ []) s ∙ ap (λ l. l ++ prom_label s) (label-one c)

-- A closing quote ends a value.
read-quote : (rest : Text) → read_label (b'"' ∷ rest) ≡ some ([], rest)
unfolding read_label
read-quote [] = refl
read-quote (c ∷ rest) = refl

-- The text behind an escaped character goes on, so the character is not the last one.
read-escaped :
    (c d : ℕ) (s : Text) → read_label (escaped c ++ d ∷ s) ≡ prefixed c (read_label (d ∷ s))
unfolding escaped read_label unescaped
read-escaped c d s = ground arith

closed-cons : (s rest : Text) → (d : ℕ) × (t : Text) × (s ++ b'"' ∷ rest ≡ d ∷ t)
closed-cons [] rest = (b'"', rest, refl)
closed-cons (d ∷ s) rest = (d, s ++ b'"' ∷ rest, refl)

read-escaped_closed :
    (c : ℕ) (s rest : Text)
    → read_label (escaped c ++ (s ++ b'"' ∷ rest)) ≡ prefixed c (read_label (s ++ b'"' ∷ rest))
read-escaped_closed c s rest = let (d, t, e) = closed-cons s rest in rw e (read-escaped c d t)

-- Reading an escaped label value up to its closing quote gives back the value and what follows, whatever
-- characters the value holds: no quote in it closes the value early, and no line break is left bare.
pub read_label-prom_label :
    (value rest : Text) → read_label (prom_label value ++ b'"' ∷ rest) ≡ some (value, rest)
read_label-prom_label [] rest = unfold prom_label in unfold replace_with in read-quote rest
read_label-prom_label (c ∷ s) rest =
    ap (λ l. read_label (l ++ b'"' ∷ rest)) (prom_label-cons c s)
    ∙ ap read_label (append_assoc (escaped c) (prom_label s) (b'"' ∷ rest))
    ∙ read-escaped_closed c (prom_label s) rest
    ∙ (rw (read_label-prom_label s rest) (unfold prefixed in refl))
