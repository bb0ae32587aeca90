-- ===== src/Session/Trash/Target.antt =====
-- The probe for a free name in the trash.
use dtd_server_apm.Common.{
  ℕ, zero, suc, ◌<◌, ◌≡◌, refl, ap, ◌∙◌, true, false, List, [], ◌∷◌, Text, length, map, arith,
  nat_eq, list_eq, Bool-cases, inl, inr,
}
use dtd_server_apm.Common.Dict.{contains}
use dtd_server_apm.Io.Claim.{suffixed, claim_loop}
use dtd_server_apm.Io.Claim.Free.{claim_loop-free}
use dtd_server_apm.Session.Trash.{Entries, free_from, free_trash_target}

free_from-claim_loop :
    (fuel : ℕ) (name : Text) (k : ℕ) (names : List Text)
    → free_from fuel name k names ≡ (claim_loop fuel name k names).0
unfolding free_from claim_loop
free_from-claim_loop zero name k names = refl
free_from-claim_loop (suc fuel) name k names =
    elim (Bool-cases (contains names (suffixed name k))) [
      | inl e ↦ rw e (free_from-claim_loop fuel name (suc k) names)
      | inr e ↦ rw e refl
    ]

abbrev names_of : Entries → List Text
names_of trash = map (λ e. e.0) trash

length-names_of : (trash : Entries) → length (names_of trash) ≡ length trash
length-names_of [] = refl
length-names_of (e ∷ trash) = ap suc (length-names_of trash)

-- The probe ends within the rounds that it is given: its name is not in the trash, and it is the first
-- such name of `name`, `name_1`, `name_2` and so on.
pub free_trash_target-least :
    (trash : Entries) (name : Text)
    → (j : ℕ) × (free_trash_target trash name ≡ suffixed name j)
      × (contains (map (λ e. e.0) trash) (suffixed name j) ≡ false)
      × ((i : ℕ) → i < j → contains (map (λ e. e.0) trash) (suffixed name i) ≡ true)
unfolding free_trash_target
free_trash_target-least trash name =
    let (j, p, q, r, s) =
      claim_loop-free (suc (length trash)) name 0 (names_of trash) (names_of trash) (λ j le. refl)
        (omega (arith, length-names_of trash)) in
    (
      j,
      free_from-claim_loop (suc (length trash)) name 0 (names_of trash) ∙ ap (λ r. r.0) q,
      r,
      λ i lt. s i (omega arith) lt,
    )
