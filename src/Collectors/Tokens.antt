-- ===== src/Collectors/Tokens.antt =====
-- What an `--only` token can and cannot do: lemmas on sets of tokens.
use dtd_server_apm.Common.{
  ◌≡◌, refl, Bool, true, ◌&&◌, List, [], ◌∷◌, Text, all, arith, nat_eq, list_eq, text_eq, keep,
  and-true, codes,
}
use dtd_server_apm.Common.Dict.{contains}
use dtd_server_apm.Collectors.{
  CollectorSpec, requested, collector_requested, layer_requested, aliases_of, meets,
}

module _ (is_known : Text → Bool) where
  contains-known :
      (ts : List Text) (name : Text)
      → is_known name ≡ true
      → contains (keep is_known ts) name ≡ contains ts name
  unfolding contains keep
  contains-known [] name h = refl
  contains-known (t ∷ ts) name h = ground (arith, contains-known ts name h, text_eq.beq_iff t name)

  meets-known :
      (names ts : List Text)
      → all is_known names ≡ true
      → meets names (keep is_known ts) ≡ meets names ts
  unfolding meets
  meets-known [] ts h = refl
  meets-known (name ∷ names) ts h =
      let (p, q) = and-true (is_known name) (all is_known names) h in
      rw (contains-known ts name p, meets-known names ts q)

  layer_requested-known :
      (layer : Text) (ts : List Text)
      → is_known (codes "all") ≡ true
      → is_known layer ≡ true
      → all is_known (aliases_of layer) ≡ true
      → layer_requested layer (keep is_known ts) ≡ layer_requested layer ts
  unfolding layer_requested
  layer_requested-known layer ts h k l = rw (
    contains-known ts (codes "all") h,
    contains-known ts layer k,
    meets-known (aliases_of layer) ts l,
  )

  -- All the names by which a spec answers.
  abbrev pub is_listed : CollectorSpec → Bool
  is_listed spec =
      is_known spec.name
      && (is_known spec.layer
          && (all is_known (aliases_of spec.layer) && all is_known spec.extra_aliases))

  pub requested-known :
      (spec : CollectorSpec) (ts : List Text)
      → is_known (codes "all") ≡ true
      → is_listed spec ≡ true
      → requested spec (keep is_known ts) ≡ requested spec ts
  unfolding requested collector_requested
  requested-known spec ts h k =
      let (a, b) = and-true _ _ k in
      let (c, d) = and-true _ _ b in
      let (e, f) = and-true _ _ d in
      rw (
        contains-known ts spec.name a,
        meets-known spec.extra_aliases ts f,
        layer_requested-known spec.layer ts h c e,
      )

-- The request of one token is part of any request that holds it.
contains-head :
    (t name : Text) (ts : List Text) → contains (t ∷ []) name ≡ true → contains (t ∷ ts) name ≡ true
unfolding contains
contains-head t name ts h = ground arith

meets-head :
    (names : List Text) (t : Text) (ts : List Text)
    → meets names (t ∷ []) ≡ true
    → meets names (t ∷ ts) ≡ true
unfolding meets
meets-head [] t ts h = h
meets-head (name ∷ names) t ts h = ground (arith, contains-head t name ts, meets-head names t ts)

layer_requested-head :
    (layer t : Text) (ts : List Text)
    → layer_requested layer (t ∷ []) ≡ true
    → layer_requested layer (t ∷ ts) ≡ true
unfolding layer_requested
layer_requested-head layer t ts h = ground (
  arith,
  contains-head t (codes "all") ts,
  contains-head t layer ts,
  meets-head (aliases_of layer) t ts,
)

pub requested-head :
    (spec : CollectorSpec) (t : Text) (ts : List Text)
    → requested spec (t ∷ []) ≡ true
    → requested spec (t ∷ ts) ≡ true
unfolding requested collector_requested
requested-head spec t ts h = ground (
  arith,
  contains-head t spec.name ts,
  meets-head spec.extra_aliases t ts,
  layer_requested-head spec.layer t ts,
)
