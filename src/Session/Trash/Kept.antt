-- ===== src/Session/Trash/Kept.antt =====
-- A move into the trash loses nothing.
use mathlib.Core.Path.{subst}
use dtd_server_apm.Common.{
  not, ◌&&◌, ◌||◌, ℕ, zero, suc, ◌≡◌, ◌⊎◌, refl, ap, sym, ◌∙◌, Bool, true, false, List, [], ◌∷◌,
  ◌++◌, Option, none, some, Text, length, map, arith, ◌=?◌, nat_eq, list_eq, text_eq, if◌then◌else◌,
  if_cases, keep, inl, inr, Bool-cases,
}
use dtd_server_apm.Common.Dict.{lookup, insert, contains, lookup-insert, lookup-insert_self}
use dtd_server_apm.Io.Claim.{suffixed}
use dtd_server_apm.Session.Trash.{
  Error, denied, Entries, Store, without, is_present, free_from, free_trash_target, Race, interfere,
  replace_by, attempts, stamp, move_into_trash,
}

free_from-suffixed :
    (fuel : ℕ) (name : Text) (k : ℕ) (names : List Text)
    → (j : ℕ) × (free_from fuel name k names ≡ suffixed name j)
unfolding free_from
free_from-suffixed zero name k names = (k, refl)
free_from-suffixed (suc fuel) name k names =
    if_cases (λ t. (j : ℕ) × (t ≡ suffixed name j)) (contains names (suffixed name k))
      (free_from fuel name (suc k) names) (suffixed name k)
      (λ _. free_from-suffixed fuel name (suc k) names) (λ _. (k, refl))

free_trash_target-suffixed :
    (trash : Entries) (name : Text) → (j : ℕ) × (free_trash_target trash name ≡ suffixed name j)
unfolding free_trash_target
free_trash_target-suffixed trash name =
    free_from-suffixed (suc (length trash)) name 0 (map (λ e. e.0) trash)

pub lookup-without : (name : Text) (entries : Entries) → lookup name (without name entries) ≡ none
unfolding lookup without keep
lookup-without name [] = refl
lookup-without name ((x, v) ∷ entries) = ground (arith, lookup-without name entries)

lookup-append :
    (x : Text) (v : ℕ) (m n : Entries) → lookup x m ≡ some v → lookup x (m ++ n) ≡ some v
unfolding lookup
lookup-append x v [] n h = absurd (cc h)
lookup-append x v ((y, w) ∷ m) n h = ground (arith, lookup-append x v m n)

lookup-purged :
    (purged : Text → Bool) (x : Text) (m : Entries)
    → purged x ≡ false
    → lookup x (keep (λ e. not (purged e.0)) m) ≡ lookup x m
unfolding lookup keep
lookup-purged purged x [] h = refl
lookup-purged purged x ((y, v) ∷ m) h = elim (Bool-cases (y =? x)) [
  | inl e ↦
      let same : y ≡ x = (text_eq.beq_iff y x).0 e in
      let here : purged y ≡ false = ap purged same ∙ h in rw here (rw e refl)
  | inr e ↦
      if_cases (λ l. lookup x l ≡ (if y =? x then some v else lookup x m)) (not (purged y)) _ _
        (λ _. rw e (lookup-purged purged x m h)) (λ _. rw e (lookup-purged purged x m h))
]

-- An entry of the trash that another prune purged, or that was an empty directory.
pub data IsLost (race : ℕ → Race) (x : Text) : Type 0 where
  by_purge : (i : ℕ) → (race i).purged x ≡ true → IsLost race x
  was_empty : (i : ℕ) → (race i).hollow x ≡ true → IsLost race x

-- From the store `st`, in which the session has the time `mtime`, to the result `r`.
pub record IsKept (name : Text) (mtime : ℕ) (race : ℕ → Race) (st : Store)
    (r : Option Error × Store) : Type 0 where
  pub keeps :
      (x : Text) (v : ℕ)
      → lookup x st.trash ≡ some v
      → (lookup x r.1.trash ≡ some v) ⊎ IsLost race x
  pub leaves : r.0 ≡ none → lookup name r.1.sessions ≡ none
  pub somewhere :
      (lookup name r.1.sessions ≡ some mtime)
      ⊎ ((j : ℕ) × (lookup (suffixed name j) r.1.trash ≡ some mtime))
      ⊎ ((i : ℕ) × ((race i).gone ≡ true))

interfered :
    (r : Race) (name : Text) (mtime : ℕ) (st : Store)
    → lookup name st.sessions ≡ some mtime
    → (lookup name (interfere r name st).sessions ≡ some mtime)
      ⊎ ((lookup name (interfere r name st).sessions ≡ none) × (r.gone ≡ true))
unfolding interfere
interfered r name mtime st h = elim (Bool-cases r.gone) [
  | inl e ↦ inr (rw e (lookup-without name st.sessions), e)
  | inr e ↦ inl (rw e h)
]

absent-is_present : (o : Option ℕ) → is_present o ≡ false → o ≡ none
absent-is_present none h = refl
absent-is_present (some n) h = absurd (cc h)

moved-IsKept :
    (error : Option Error) (name candidate : Text) (mtime j : ℕ) (race : ℕ → Race) (st : Store)
    → candidate ≡ suffixed name j
    → (is_present (lookup candidate st.trash) ≡ false) ⊎ IsLost race candidate
    → IsKept name mtime race st (
      error,
      record st { sessions = without name st.sessions; trash = insert candidate mtime st.trash },
    )
moved-IsKept error name candidate mtime j race st e free = record {
  keeps = λ x v h. elim (Bool-cases (candidate =? x)) [
    | inl same ↦
        let eq : candidate ≡ x = (text_eq.beq_iff candidate x).0 same in
        elim free [
          | inl absent ↦ absurd (cc (absent-is_present (lookup candidate st.trash) absent, eq, h))
          | inr lost ↦ inr (subst (IsLost race) eq lost)
        ]
    | inr apart ↦ inl (lookup-insert candidate x mtime st.trash ∙ rw apart h)
  ];
  leaves = λ _. lookup-without name st.sessions;
  somewhere = inr (
      inl (
        j,
        ap (λ t. lookup t (insert candidate mtime st.trash)) (sym e)
            ∙ lookup-insert_self candidate mtime st.trash,
      ));
}

-- A result that is kept from a later store, whose trash lost only what it may, is kept from this one.
later :
    (name : Text) (mtime : ℕ) (race : ℕ → Race) (st st' : Store) (r : Option Error × Store)
    → ((x : Text) (v : ℕ)
        → lookup x st.trash ≡ some v
        → (lookup x st'.trash ≡ some v) ⊎ IsLost race x)
    → IsKept name mtime race st' r
    → IsKept name mtime race st r
later name mtime race st st' r more h = record {
  keeps = λ x v p. elim (more x v p) [ inl q ↦ h.keeps x v q | inr lost ↦ inr lost ];
  leaves = h.leaves;
  somewhere = h.somewhere;
}

-- One rename, where the next attempt is kept.
replace_by-IsKept :
    (name candidate : Text) (mtime j i : ℕ) (race : ℕ → Race) (rest : Option Error × Store)
    (st : Store)
    → candidate ≡ suffixed name j
    → lookup name st.sessions ≡ some mtime
    → IsKept name mtime race st rest
    → IsKept name mtime race st (replace_by (some mtime) name candidate (race i) rest st)
unfolding replace_by
replace_by-IsKept name candidate mtime j i race rest st e here h =
    let r : Race = race i in
    let present : Bool = is_present (lookup candidate st.trash) in
    if_cases (IsKept name mtime race st) (present && (r.refused || not (r.hollow candidate))) rest _
      (λ _. h)
      (λ free.
        if_cases (IsKept name mtime race st) r.refused (some denied, st) _
          (λ _. record {
            keeps = λ x v p. inl p;
            leaves = λ p. absurd (cc p);
            somewhere = inl here;
          })
          (λ _.
            moved-IsKept _ name candidate mtime j race st e
              (elim (Bool-cases (r.hollow candidate)) [
                | inl q ↦ inr (was_empty i q)
                | inr q ↦ inl (not_there present r.refused (r.hollow candidate) free q)
              ])))
  where
    not_there : (a b c : Bool) → (a && (b || not c)) ≡ false → c ≡ false → a ≡ false
    not_there a b c h k = ground (arith, h, k)

attempts-IsKept :
    (n : ℕ) (name : Text) (mtime : ℕ) (race : ℕ → Race) (st : Store)
    → lookup name st.sessions ≡ some mtime
    → IsKept name mtime race st (attempts n name race st)
unfolding attempts
attempts-IsKept zero name mtime race st h = record {
  keeps = λ x v p. inl p;
  leaves = λ p. absurd (cc p);
  somewhere = inl h;
}
attempts-IsKept (suc n) name mtime race st h =
    later name mtime race st st' _ more (elim (interfered (race n) name mtime st h) [
      | inl here ↦
          let (j, e) = free_trash_target-suffixed st.trash name in
          rw here (
            replace_by-IsKept name (free_trash_target st.trash name) mtime j n race
              (attempts n name race st') st' e here (attempts-IsKept n name mtime race st' here))
      | inr (none_left, gone) ↦
          rw (none_left, replace_by)
            (record {
              keeps = λ x v p. inl p;
              leaves = λ _. none_left;
              somewhere = inr (inr (n, gone));
            })
    ])
  where
    st' : Store
    st' = interfere (race n) name st

    more :
        (x : Text) (v : ℕ)
        → lookup x st.trash ≡ some v
        → (lookup x st'.trash ≡ some v) ⊎ IsLost race x
    more x v p = elim (Bool-cases ((race n).purged x)) [
      | inl e ↦ inr (by_purge n e)
      | inr e ↦ inl (
          unfold interfere in
          lookup-purged (race n).purged x (st.trash ++ (race n).taken) e
          ∙ lookup-append x v st.trash (race n).taken p)
    ]

-- The move of a session that is there. Between the probe for a name and the rename, other prunes may
-- put entries into the trash, purge entries of it and take the session. Of the entries that were in the
-- trash none is lost or overwritten but what such a prune purged and what was an empty directory; after
-- a success the session is out of the store; and it is still in the store, or it is in the trash under
-- its own name or that with a suffix, or another prune took it. Where it can be touched its time is now,
-- so that the grace starts with the move.
pub move_into_trash-IsKept :
    (now : ℕ) (can_touch : Bool) (name : Text) (race : ℕ → Race) (st : Store) (old : ℕ)
    → lookup name st.sessions ≡ some old
    → IsKept name
        (if can_touch then now else old)
        race
        st
        (move_into_trash now can_touch name race st)
unfolding move_into_trash stamp
move_into_trash-IsKept now true name race st old h =
    rw (h, move_into_trash)
      (later name now race st (stamp now true name st) _ (λ x v p. inl p)
        (attempts-IsKept 16 name now race (stamp now true name st)
          (lookup-insert_self name now st.sessions)))
move_into_trash-IsKept now false name race st old h =
    rw (h, move_into_trash) (attempts-IsKept 16 name old race st h)
