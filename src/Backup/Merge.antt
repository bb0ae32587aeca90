-- ===== src/Backup/Merge.antt =====
-- A backup only ever adds: to the copies, and to the record.
use mathlib.Core.Path.{subst}
use dtd_server_apm.Common.{
  ℕ, ◌+◌, ◌≡◌, refl, Bool, true, ◌&&◌, List, [], ◌∷◌, ◌++◌, map, suc, if◌then◌else◌, Option, none,
  some, Text, arith, ◌=?◌, nat_eq, list_eq, text_eq, if_cases, Bool-cases, inl, inr, ◌⊎◌, and-true,
}
use dtd_server_apm.Common.Dict.{lookup, insert, lookup-insert, lookup-insert_self}
use dtd_server_apm.Session.Files.{Session}
use dtd_server_apm.Session.Manifest.{Platform}
use dtd_server_apm.Backup.{
  Recorded, Destination, Copying, BackupReport, is_present, is_recorded, and_then, start,
  manifest_content, copy_session, copy_round, copy_sessions, strings_of, update, finish,
  copy_extras, back_up,
}
use dtd_server_apm.Backup.Record.{lookup-strings, strings-lookup, update-keeps, update-origin}

and_then-some {ℓ κ} :
    {A : Type ℓ} {B : Type κ} (o : Option A) (f : A → Option B) (y : B)
    → and_then o f ≡ some y
    → (x : A) × (o ≡ some x) × (f x ≡ some y)
and_then-some none f y h = absurd (cc h)
and_then-some (some x) f y h = (x, refl, h)

is_present-insert :
    (x name : Text) (s : Session) (m : List (Text × Session))
    → is_present (lookup x m) ≡ true
    → is_present (lookup x (insert name s m)) ≡ true
is_present-insert x name s m h =
    rw lookup-insert
      (if_cases (λ o. is_present o ≡ true) (name =? x) (some s) (lookup x m) (λ _. refl) (λ _. h))

-- How often a name is in a list.
pub count : Text → List Text → ℕ
count x [] = 0
count x (y ∷ ys) = let rest = count x ys in if y =? x then suc rest else rest

-- How often a name is reported.
abbrev pub reports : Text → List Text → List Text → List Text → ℕ
reports x copied unchanged skipped = count x copied + count x unchanged + count x skipped

count-append : (x : Text) (ys zs : List Text) → count x (ys ++ zs) ≡ count x ys + count x zs
unfolding count
count-append x [] zs = omega arith
count-append x (y ∷ ys) zs = ground (arith, count-append x ys zs)

-- From `c`, with the sessions of these names to go, to `c'`.
record IsCopying (names : List Text) (c c' : Copying) : Type 0 where
  keeps :
      (x : Text) → is_present (lookup x c.copies) ≡ true → is_present (lookup x c'.copies) ≡ true
  backed :
      ((x f : Text) → lookup x c.copied_sessions ≡ some f → is_present (lookup x c.copies) ≡ true)
      → (x f : Text) → lookup x c'.copied_sessions ≡ some f
      → is_present (lookup x c'.copies) ≡ true
  counted :
      (x : Text)
      → reports x c'.copied c'.unchanged c'.skipped
        ≡ reports x c.copied c.unchanged c.skipped + count x names

found-insert :
    (x f name fingerprint : Text) (m : List (Text × Text)) (copies copies' : List (Text × Session))
    → lookup x (insert name fingerprint m) ≡ some f
    → ((x f : Text) → lookup x m ≡ some f → is_present (lookup x copies) ≡ true)
    → (is_present (lookup x copies) ≡ true → is_present (lookup x copies') ≡ true)
    → is_present (lookup name copies') ≡ true
    → is_present (lookup x copies') ≡ true
found-insert x f name fingerprint m copies copies' p old more new =
    let q = rw lookup-insert at p in
    elim (Bool-cases (name =? x)) [
      | inl e ↦ rw (← (text_eq.beq_iff name x).0 e) new
      | inr e ↦ more (old x f (rw e at q))
    ]

-- Of a run that ends.
abbrev Ends {ℓ} : (Copying → Type ℓ) → Option Copying → Type ℓ
Ends P none = Unit
Ends P (some c) = P c

of_end {ℓ} : (P : Copying → Type ℓ) (o : Option Copying) (c : Copying) → Ends P o → o ≡ some c → P c
of_end P o c h e = subst (Ends P) e h

module _ (p : Platform) (refuses : Text → Bool) where
  copy_session-IsCopying :
      (recorded : Recorded) (name : Text) (s : Session) (fingerprint : Text) (c : Copying)
      → Ends (IsCopying (name ∷ []) c) (copy_session p refuses recorded name s fingerprint c)
  unfolding copy_session
  copy_session-IsCopying recorded name s fingerprint c =
      if_cases (Ends (IsCopying (name ∷ []) c))
        (is_recorded (lookup name recorded) fingerprint && is_present (lookup name c.copies)) _ _
        (λ e. record {
          keeps = λ x h. h;
          backed = λ old x f h.
              found-insert x f name fingerprint c.copied_sessions c.copies c.copies h old (λ q. q)
                (and-true (is_recorded (lookup name recorded) fingerprint) _ e).1;
          counted = λ x. omega (arith, count-append x c.unchanged (name ∷ []));
        })
        (λ _.
          if_cases (Ends (IsCopying (name ∷ []) c)) (refuses name) none _ (λ _. tt)
            (λ _. record {
              keeps = λ x h. is_present-insert x name s c.copies h;
              backed = λ old x f h.
                  found-insert x f name fingerprint c.copied_sessions c.copies
                    (insert name s c.copies) h old (is_present-insert x name s c.copies)
                    (rw lookup-insert_self refl);
              counted = λ x. omega (arith, count-append x c.copied (name ∷ []));
            }))

  copy_round-IsCopying :
      (recorded : Recorded) (name : Text) (s : Session) (content : Option Text) (c : Copying)
      → Ends (IsCopying (name ∷ []) c) (copy_round p refuses recorded name s content c)
  unfolding copy_round
  copy_round-IsCopying recorded name s none c = record {
    keeps = λ x h. h;
    backed = λ old. old;
    counted = λ x. omega (arith, count-append x c.skipped (name ∷ []));
  }
  copy_round-IsCopying recorded name s (some content) c =
      copy_session-IsCopying recorded name s (p.sha256 content) c

  copy_sessions-IsCopying :
      (recorded : Recorded) (store : List (Text × Session)) (c c' : Copying)
      → copy_sessions p refuses recorded store c ≡ some c'
      → IsCopying (map (λ e. e.0) store) c c'
  unfolding copy_sessions count
  copy_sessions-IsCopying recorded [] c c' h =
      of_end (IsCopying [] c) (some c) c'
        (record { keeps = λ x h. h; backed = λ old. old; counted = λ x. omega arith }) h
  copy_sessions-IsCopying recorded ((name, s) ∷ store) c c' h =
      let (d, e, k) =
        and_then-some (copy_round p refuses recorded name s (manifest_content s) c)
          (copy_sessions p refuses recorded store) c' h in
      let one =
        of_end (IsCopying (name ∷ []) c) _ d
          (copy_round-IsCopying recorded name s (manifest_content s) c) e in
      let more = copy_sessions-IsCopying recorded store d c' k in
      record {
        keeps = λ x q. more.keeps x (one.keeps x q);
        backed = λ old. more.backed (one.backed old);
        counted = λ x. omega (
          arith,
          one.counted x,
          more.counted x,
          count-append x (name ∷ []) (map (λ e. e.0) store),
        );
      }

  -- What a run adds to a destination.
  pub record IsAdded (store : List (Text × Session)) (d : Destination) (r : BackupReport)
      (d' : Destination) : Type 0 where
    pub copies :
        (x : Text) → is_present (lookup x d.copies) ≡ true → is_present (lookup x d'.copies) ≡ true
    pub recorded :
        (x f : Text)
        → lookup x (strings_of d.fingerprints) ≡ some f
        → (g : Text) × (lookup x d'.fingerprints ≡ some (some g))
    pub backed :
        (x f : Text)
        → lookup x d'.fingerprints ≡ some (some f)
        → ((g : Text) × (lookup x (strings_of d.fingerprints) ≡ some g))
          ⊎ (is_present (lookup x d'.copies) ≡ true)
    pub counted :
        (x : Text) → reports x r.copied r.unchanged r.skipped ≡ count x (map (λ e. e.0) store)

  finish-IsAdded :
      (store : List (Text × Session)) (d : Destination) (c : Copying) (extras : List Text)
      → IsCopying (map (λ e. e.0) store) (start d.copies) c
      → IsAdded store d (finish p refuses d c extras).0 (finish p refuses d c extras).1
  unfolding finish
  finish-IsAdded store d c extras h =
      let old : List (Text × Text) = strings_of d.fingerprints in
      record {
        copies = h.keeps;
        recorded = λ x f q.
            let (g, e) = update-keeps x f old c.copied_sessions q in
            (g, lookup-strings x g (update old c.copied_sessions) e);
        backed = λ x f q.
            elim (update-origin x f old c.copied_sessions
              (strings-lookup x f (update old c.copied_sessions) q)) [
                | inl (g, e) ↦ inl (g, e)
                | inr (g, e) ↦ inr (h.backed (λ y k z. absurd (unfold lookup in cc z)) x g e)
              ];
        counted = λ x. unfold count in omega (arith, h.counted x);
      }

  -- A run that ends only adds: under each name that had a copy there is one, perhaps a newer one, and
  -- each name whose recorded fingerprint is a string stays recorded, also that of a session which the
  -- store no longer has. Each name of the new record was recorded before or has a copy behind it. Each
  -- name is reported as often as the store has it, as copied, as unchanged or as skipped.
  pub back_up-IsAdded :
      (store : List (Text × Session)) (files : List Text) (d : Destination) (r : BackupReport)
      (d' : Destination)
      → back_up p refuses store files d ≡ some (r, d')
      → IsAdded store d r d'
  unfolding back_up
  back_up-IsAdded store files d r d' h =
      let (c, e, k) =
        and_then-some (copy_sessions p refuses d.fingerprints store (start d.copies)) _ (r, d') h in
      let (extras, e', k') = and_then-some (copy_extras p refuses files) _ (r, d') k in
      ended (finish p refuses d c extras) (r, d') k'
        (finish-IsAdded store d c extras
          (copy_sessions-IsCopying d.fingerprints store (start d.copies) c e))
    where
      ended :
          (w v : BackupReport × Destination)
          → some w ≡ some v
          → IsAdded store d w.0 w.1
          → IsAdded store d v.0 v.1
      ended w v q a = subst (λ (w : BackupReport × Destination). IsAdded store d w.0 w.1) (cc q) a
