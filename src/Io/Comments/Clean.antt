-- ===== src/Io/Comments/Clean.antt =====
-- What is left holds no comment, and a text with no comment is left as it is.
use dtd_server_apm.Common.{
  ℕ, zero, suc, ◌≤◌, ◌≡◌, refl, Bool, true, false, ◌&&◌, ◌||◌, [], ◌∷◌, ◌++◌, ◌==◌, if◌then◌else◌,
  Text, length, drop, arith, Bool-cases, inl, inr, ap, ◌∙◌,
}
use dtd_server_apm.Io.Comments.{
  from_newline, after_close, newlines_to_close, walk, strip_json_comments, starts, slash, star,
  quote, backslash,
}
use dtd_server_apm.Io.Comments.Lines.{length-from_newline, length-after_close}

-- No comment opens outside a string; the flag says whether the text begins inside one.
unfoldable pub is_clean : Bool → Text → Bool
is_clean in_string [] = true
is_clean true (c ∷ []) = true
is_clean true (c ∷ d ∷ t) =
    let escaped = is_clean true t in
    let closed = is_clean false (d ∷ t) in
    let inside = is_clean true (d ∷ t) in
    if c == backslash then escaped else if c == quote then closed else inside
is_clean false (c ∷ t) =
    let opened = is_clean true t in
    let plain = is_clean false t in
    if c == quote
    then opened
    else if c == slash && (starts slash t || starts star t)
    then false
    else plain

clean-newlines : (t u : Text) → is_clean false (newlines_to_close t ++ u) ≡ is_clean false u
unfolding newlines_to_close is_clean
clean-newlines [] u = refl
clean-newlines (c ∷ t) u = ground (arith, clean-newlines t u)

-- What the walk writes behind a slash that stays: the next character, or nothing.
starts-walk :
    (f : ℕ) (t : Text)
    → starts slash t ≡ false
    → starts star t ≡ false
    → (starts slash (walk f false t) ≡ false) × (starts star (walk f false t) ≡ false)
unfolding walk
starts-walk zero t p q = (refl, refl)
starts-walk (suc f) [] p q = (refl, refl)
starts-walk (suc f) (c ∷ t) p q = ground arith

clean_inside :
    (c : ℕ) (u : Text)
    → (c == backslash) ≡ false
    → is_clean true (c ∷ u) ≡ (if c == quote then is_clean false u else is_clean true u)
unfolding is_clean
clean_inside c [] h = ground arith
clean_inside c (d ∷ u) h = ground arith

-- The four ways to go on outside a string, for any texts that follow.
clean_outside :
    (c : ℕ) (t opened line block plain : Text)
    → is_clean true opened ≡ true
    → is_clean false line ≡ true
    → is_clean false block ≡ true
    → is_clean false plain ≡ true
    → (starts slash t ≡ false
        → starts star t ≡ false
        → (starts slash plain ≡ false) × (starts star plain ≡ false))
    → is_clean false (
        if c == quote
        then c ∷ opened
        else if c == slash && starts slash t
        then line
        else if c == slash && starts star t
        then block
        else c ∷ plain)
      ≡ true
unfolding is_clean
clean_outside c t opened line block plain ho hl hb hp next = elim (Bool-cases (c == quote)) [
  | inl q ↦ rw (q, q) ho
  | inr q ↦ rw q (elim (Bool-cases (c == slash)) [
    | inl s ↦ rw s (elim (Bool-cases (starts slash t)) [
      | inl a ↦ rw a hl
      | inr a ↦ rw a (elim (Bool-cases (starts star t)) [
        | inl b ↦ rw b hb
        | inr b ↦ rw (b, q, s, (next a b).0, (next a b).1) hp
      ])
    ])
    | inr s ↦ rw (s, q, s) hp
  ])
]

length-after_close-drop : (t : Text) → length (after_close (drop 1 t)) ≤ length t
length-after_close-drop [] = omega (arith, length-after_close [])
length-after_close-drop (c ∷ t) = omega (arith, length-after_close t)

clean-walk : (f : ℕ) (s : Bool) (t : Text) → length t ≤ f → is_clean s (walk f s t) ≡ true
unfolding walk is_clean
clean-walk zero s t h = refl
clean-walk (suc f) s [] h = refl
clean-walk (suc f) true (c ∷ []) h = refl
clean-walk (suc f) true (c ∷ d ∷ t) h = elim (Bool-cases (c == backslash)) [
  | inl e ↦ rw e (ground (arith, clean-walk f true t))
  | inr e ↦ rw e (elim (Bool-cases (c == quote)) [
    | inl q ↦ rw (q, clean_inside c _ e, q) (clean-walk f false (d ∷ t) (omega arith))
    | inr q ↦ rw (q, clean_inside c _ e, q) (clean-walk f true (d ∷ t) (omega arith))
  ])
]
clean-walk (suc f) false (c ∷ t) h =
    clean_outside c t _ _ _ _ (clean-walk f true t (omega arith))
      (clean-walk f false (from_newline t) (omega (arith, length-from_newline t)))
      (clean-newlines (drop 1 t) _
        ∙ clean-walk f false _ (omega (arith, length-after_close-drop t)))
      (clean-walk f false t (omega arith)) (starts-walk f t)

-- A text with no comment takes none of the two comment branches.
clean_step :
    (c : ℕ) (t line block plain : Text)
    → (c == quote) ≡ false
    → is_clean false (c ∷ t) ≡ true
    → (is_clean false t ≡ true → plain ≡ t)
    → (if c == slash && starts slash t
        then line
        else if c == slash && starts star t
        then block
        else c ∷ plain)
      ≡ c ∷ t
unfolding is_clean
clean_step c t line block plain q k ih = ground arith

walk_id : (f : ℕ) (s : Bool) (t : Text) → length t ≤ f → is_clean s t ≡ true → walk f s t ≡ t
unfolding walk is_clean
walk_id zero s [] h k = refl
walk_id zero s (c ∷ t) h k = absurd (omega arith)
walk_id (suc f) s [] h k = refl
walk_id (suc f) true (c ∷ []) h k = refl
walk_id (suc f) true (c ∷ d ∷ t) h k = elim (Bool-cases (c == backslash)) [
  | inl e ↦ rw e (ap (λ u. c ∷ d ∷ u) (walk_id f true t (omega arith) (rw e at k)))
  | inr e ↦ rw e (elim (Bool-cases (c == quote)) [
    | inl q ↦ rw q (ap (λ u. c ∷ u) (walk_id f false (d ∷ t) (omega arith) (rw (e, q) at k)))
    | inr q ↦ rw q (ap (λ u. c ∷ u) (walk_id f true (d ∷ t) (omega arith) (rw (e, q) at k)))
  ])
]
walk_id (suc f) false (c ∷ t) h k = elim (Bool-cases (c == quote)) [
  | inl q ↦ rw q (ap (λ u. c ∷ u) (walk_id f true t (omega arith) (rw q at k)))
  | inr q ↦ rw q (clean_step c t _ _ _ q k (walk_id f false t (omega arith)))
]

-- The result never holds a comment outside a string, and stripping it again changes nothing.
pub strip_json_comments-clean :
    (text : Text)
    → (is_clean false (strip_json_comments text) ≡ true)
      × (strip_json_comments (strip_json_comments text) ≡ strip_json_comments text)
unfolding strip_json_comments
strip_json_comments-clean text =
    let clean = clean-walk (length text) false text (omega arith) in
    (clean, walk_id _ false _ (omega arith) clean)

-- A text in which no comment opens outside a string is returned unchanged, strings included.
pub strip_json_comments_id :
    (text : Text) → is_clean false text ≡ true → strip_json_comments text ≡ text
unfolding strip_json_comments
strip_json_comments_id text = walk_id (length text) false text (omega arith)
