-- ===== src/Backup/Record.antt =====
-- The record of a backup: reading its strings, and the update.

use dtd_server_apm.Common.{
  ◌≡◌, refl, ap, sym, ◌∙◌, List, [], ◌∷◌, some, Text, map, ◌=?◌, nat_eq, list_eq, Bool-cases, inl,
  inr, ◌⊎◌,
}
use dtd_server_apm.Common.Dict.{lookup, insert, lookup-insert}
use dtd_server_apm.Backup.{update}

pub lookup-strings :
    (x f : Text) (m : List (Text × Text))
    → lookup x m ≡ some f
    → lookup x (map (λ e. (e.0, some e.1)) m) ≡ some (some f)
unfolding lookup
lookup-strings x f [] h = absurd (cc h)
lookup-strings x f ((y, g) ∷ m) h = elim (Bool-cases (y =? x)) [
  | inl e ↦ rw e (ap some (rw e at h))
  | inr e ↦ rw e (lookup-strings x f m (rw e at h))
]

pub strings-lookup :
    (x f : Text) (m : List (Text × Text))
    → lookup x (map (λ e. (e.0, some e.1)) m) ≡ some (some f)
    → lookup x m ≡ some f
unfolding lookup
strings-lookup x f [] h = absurd (cc h)
strings-lookup x f ((y, g) ∷ m) h = elim (Bool-cases (y =? x)) [
  | inl e ↦ rw e (let q = rw e at h in cc q)
  | inr e ↦ rw e (strings-lookup x f m (rw e at h))
]

pub update-keeps :
    (x f : Text) (m more : List (Text × Text))
    → lookup x m ≡ some f
    → (g : Text) × (lookup x (update m more) ≡ some g)
unfolding update
update-keeps x f m [] h = (f, h)
update-keeps x f m ((n, g) ∷ more) h = elim (Bool-cases (n =? x)) [
  | inl e ↦ update-keeps x g (insert n g m) more (lookup-insert n x g m ∙ rw e refl)
  | inr e ↦ update-keeps x f (insert n g m) more (lookup-insert n x g m ∙ rw e h)
]

pub update-origin :
    (x f : Text) (m more : List (Text × Text))
    → lookup x (update m more) ≡ some f
    → ((g : Text) × (lookup x m ≡ some g)) ⊎ ((g : Text) × (lookup x more ≡ some g))
unfolding update lookup
update-origin x f m [] h = inl (f, h)
update-origin x f m ((n, g) ∷ more) h = elim (Bool-cases (n =? x)) [
  | inl e ↦ inr (g, rw e refl)
  | inr e ↦ elim (update-origin x f (insert n g m) more h) [
    | inl (k, q) ↦ inl (k, rw e at (sym (lookup-insert n x g m) ∙ q))
    | inr (k, q) ↦ inr (k, rw e q)
  ]
]
