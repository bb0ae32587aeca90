-- ===== src/Collectors/Plans.antt =====
-- `wanted`, `planned_layers` and `unknown_only_tokens` over the catalog.
use dtd_server_apm.Common.{
  ◌≡◌, refl, sym, Bool, true, List, [], ◌∷◌, Text, All, All-imp, all, any, nat_eq, list_eq, keep,
  and-true, codes,
}
use dtd_server_apm.Common.Dict.{contains}
use dtd_server_apm.Collectors.{specs, requested, aliases_of, known_only_tokens, tokens_of, wanted}
use dtd_server_apm.Collectors.Tokens.{is_listed, requested-known}

-- The catalog lists a token.
pub is_known : Text → Bool
unfolding contains
is_known t = contains known_only_tokens t

All-of_all {ℓ} :
    {A : Type ℓ} (p : A → Bool) (xs : List A) → all p xs ≡ true → All (λ x. p x ≡ true) xs
All-of_all p [] h = tt
All-of_all p (x ∷ xs) h = let (a, b) = and-true (p x) (all p xs) h in (a, All-of_all p xs b)

catalog_listed : all (is_listed is_known) specs ≡ true
unfolding is_known aliases_of
catalog_listed = refl

all_is_known : is_known (codes "all") ≡ true
unfolding is_known
all_is_known = refl

-- A token that the catalog does not list never starts or stops a collector: whatever the `--only`
-- string, each spec of the catalog is wanted exactly as its known tokens alone would have it.
pub unknown_tokens_inert :
    (only : Text)
    → All (λ spec. wanted spec only ≡ requested spec (keep is_known (tokens_of only))) specs
unfolding wanted
unknown_tokens_inert only =
    All-imp (λ spec h. sym (requested-known is_known spec (tokens_of only) all_is_known h)) specs
      (All-of_all (is_listed is_known) specs catalog_listed)

abbrev plans : Text → Bool
plans t = any (λ spec. requested spec (t ∷ [])) specs
