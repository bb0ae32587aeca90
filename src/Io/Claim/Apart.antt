-- ===== src/Io/Claim/Apart.antt =====
-- Two claims at the same time.
use mathlib.Core.Path.{subst}
use dtd_server_apm.Common.{
  suc, ◌≡◌, ◌≢◌, refl, sym, ap, ◌∙◌, All, keep, not, ◌=?◌, Bool-cases, inl, inr, true, false, List,
  [], ◌∷◌, Option, none, some, Text, arith, nat_eq, list_eq, text_eq, if_cases,
}
use dtd_server_apm.Common.Dict.{contains}
use dtd_server_apm.Io.Claim.{
  suffixed, Claimer, attempt, attempt_by, Turn, first, second, other, unlinked, World, turn, turns,
}

-- Of one name `r`: it exists once a claim has returned it, and the other has not returned it too.
record IsApart (r : Text) (one two : Claimer) (names : List Text) : Type 0 where
  one_made : one.result ≡ some r → contains names r ≡ true
  two_made : two.result ≡ some r → contains names r ≡ true
  apart : one.result ≡ some r → ¬ (two.result ≡ some r)

contains-more :
    (x y : Text) (names : List Text) → contains names x ≡ true → contains (y ∷ names) x ≡ true
unfolding contains
contains-more x y names h = ground arith

contains-here : (x : Text) (names : List Text) → contains (x ∷ names) x ≡ true
unfolding contains
contains-here x names = rw ((text_eq.beq_iff x x).1 refl) refl

contains-keep :
    (r x : Text) (names : List Text)
    → x ≢ r
    → contains names r ≡ true
    → contains (keep (λ n. not (n =? x)) names) r ≡ true
unfolding contains keep
contains-keep r x [] h k = k
contains-keep r x (n ∷ names) h k = elim (Bool-cases (n =? x)) [
  | inl e ↦
      let same : n ≡ x = (text_eq.beq_iff n x).0 e in
      elim (Bool-cases (n =? r)) [
        | inl q ↦
            let eq : n ≡ r = (text_eq.beq_iff n r).0 q in
            let bad : x ≡ r = sym same ∙ eq in absurd (h bad)
        | inr q ↦ rw e (contains-keep r x names h (rw q at k))
      ]
  | inr e ↦ rw e (elim (Bool-cases (n =? r)) [
    | inl q ↦ rw q refl
    | inr q ↦ rw q (contains-keep r x names h (rw q at k))
  ])
]

swapped :
    (r : Text) (one two : Claimer) (names : List Text)
    → IsApart r one two names
    → IsApart r two one names
swapped r one two names h = record {
  one_made = h.two_made;
  two_made = h.one_made;
  apart = λ p q. h.apart q p;
}

attempt-IsApart :
    (r : Text) (one two : Claimer) (names : List Text)
    → IsApart r one two names
    → IsApart r (attempt one names).0 two (attempt one names).1
unfolding attempt attempt_by
attempt-IsApart r one two names h = go one.result refl
  where
    name : Text
    name = suffixed one.base one.suffix

    fresh :
        contains names name ≡ false
        → IsApart r (record one { result = some name }) two (name ∷ names)
    fresh free = record {
      one_made =
          λ p. subst (λ q. contains (name ∷ names) q ≡ true) (cc p) (contains-here name names);
      two_made = λ p. contains-more r name names (h.two_made p);
      apart = λ p q. absurd (cc (h.two_made q, free, p));
    }

    go :
        (o : Option Text)
        → one.result ≡ o
        → IsApart r (attempt_by o one names).0 two (attempt_by o one names).1
    go (some x) e = h
    go none e =
        if_cases (λ (w : Claimer × List Text). IsApart r w.0 two w.1) (contains names name)
          (record one { suffix = suc one.suffix }, names)
          (record one { result = some name }, name ∷ names)
          (λ _. record { one_made = h.one_made; two_made = h.two_made; apart = h.apart }) fresh

turn-IsApart :
    (r : Text) (t : Turn) (w : World)
    → t ≢ unlinked r
    → IsApart r w.one w.two w.names
    → IsApart r (turn t w).one (turn t w).two (turn t w).names
unfolding turn
turn-IsApart r first w k h = attempt-IsApart r w.one w.two w.names h
turn-IsApart r second w k h =
    swapped r _ _ _ (attempt-IsApart r w.two w.one w.names (swapped r w.one w.two w.names h))
turn-IsApart r (other name) w k h = record {
  one_made = λ p. contains-more r name w.names (h.one_made p);
  two_made = λ p. contains-more r name w.names (h.two_made p);
  apart = h.apart;
}
turn-IsApart r (unlinked name) w k h =
    let kept : name ≢ r = λ e. k (ap unlinked e) in
    record {
      one_made = λ p. contains-keep r name w.names kept (h.one_made p);
      two_made = λ p. contains-keep r name w.names kept (h.two_made p);
      apart = h.apart;
    }

turns-IsApart :
    (r : Text) (ts : List Turn) (w : World)
    → All (λ t. t ≢ unlinked r) ts
    → IsApart r w.one w.two w.names
    → IsApart r (turns ts w).one (turns ts w).two (turns ts w).names
unfolding turns
turns-IsApart r [] w k h = h
turns-IsApart r (t ∷ ts) w k h = turns-IsApart r ts (turn t w) k.1 (turn-IsApart r t w k.0 h)

abbrev pub starting : Text → Claimer
starting base = record { base = base; suffix = 0; result = none }

-- However the calls of two claims and of other programs, which make and remove names, interleave: where
-- no other program removes the name that the first claim returned, the second returned another, even
-- from the same base.
pub claims_apart :
    (base base' : Text) (names : List Text) (ts : List Turn) (r s : Text)
    → All (λ t. t ≢ unlinked r) ts
    → (turns ts (record { one = starting base; two = starting base'; names = names })).one.result
      ≡ some r
    → (turns ts (record { one = starting base; two = starting base'; names = names })).two.result
      ≡ some s
    → r ≢ s
claims_apart base base' names ts r s k p q e =
    (turns-IsApart r ts (record { one = starting base; two = starting base'; names = names }) k
        (record {
          one_made = λ p. absurd (cc p);
          two_made = λ p. absurd (cc p);
          apart = λ p q. absurd (cc p);
        })).apart
      p (q ∙ ap some (sym e))
