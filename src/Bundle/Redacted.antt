-- ===== src/Bundle/Redacted.antt =====
-- What the scrub of a JSON document leaves.
use dtd_server_apm.Common.{
  ◌≡◌, refl, ap, Bool, true, false, if◌then◌else◌, nat_eq, list_eq, Bool-cases, inl, inr,
}
use dtd_server_apm.Common.Dict.{contains}
use dtd_server_apm.Io.Json.{
  Json, null, bool, num, str, arr, obj, Items, nil, cons, Fields, end, field,
}
use dtd_server_apm.Bundle.Scrub.{
  scrub, scrub_items, scrub_fields, redact_keys, redacted_mark, is_text,
}

-- No object of a document, at any depth, holds a text but the mark under a redacted key.
unfoldable mutual
  pub IsRedacted : {N : Type 0} → Json N → Type 0
  IsRedacted null = Unit
  IsRedacted (bool b) = Unit
  IsRedacted (num n) = Unit
  IsRedacted (str s) = Unit
  IsRedacted (arr vs) = AreRedacted vs
  IsRedacted (obj fs) = HaveRedacted fs

  pub AreRedacted : {N : Type 0} → Items N → Type 0
  AreRedacted nil = Unit
  AreRedacted (cons v vs) = IsRedacted v × AreRedacted vs

  pub HaveRedacted : {N : Type 0} → Fields N → Type 0
  HaveRedacted end = Unit
  HaveRedacted (field k v fs) =
      (contains redact_keys k ≡ true → is_text v ≡ true → v ≡ str redacted_mark)
      × IsRedacted v
      × HaveRedacted fs

module _ {N : Type 0} where
  -- The value of one field, given what its scrub is.
  value_of : Bool → Json N → Json N → Json N
  value_of is_key v inner =
      if is_key then (if is_text v then str redacted_mark else inner) else inner

  is_text-scrub : (v : Json N) → is_text (scrub v) ≡ is_text v
  unfolding scrub
  is_text-scrub null = refl
  is_text-scrub (bool b) = refl
  is_text-scrub (num n) = refl
  is_text-scrub (str s) = refl
  is_text-scrub (arr vs) = refl
  is_text-scrub (obj fs) = refl

  value_of-marked :
      (is_key : Bool) (v : Json N)
      → is_key ≡ true
      → is_text (value_of is_key v (scrub v)) ≡ true
      → value_of is_key v (scrub v) ≡ str redacted_mark
  unfolding value_of
  value_of-marked false v h k = absurd (cc h)
  value_of-marked true v h k = elim (Bool-cases (is_text v)) [
    | inl e ↦ rw e refl
    | inr e ↦ absurd (cc (is_text-scrub v, e, k))
  ]

  value_of-IsRedacted :
      (is_key : Bool) (v : Json N) → IsRedacted (scrub v) → IsRedacted (value_of is_key v (scrub v))
  unfolding value_of IsRedacted
  value_of-IsRedacted false v h = h
  value_of-IsRedacted true (str s) h = tt
  value_of-IsRedacted true null h = h
  value_of-IsRedacted true (bool b) h = h
  value_of-IsRedacted true (num n) h = h
  value_of-IsRedacted true (arr vs) h = h
  value_of-IsRedacted true (obj fs) h = h

  value_of_id :
      (is_key : Bool) (v : Json N)
      → (is_key ≡ true → is_text v ≡ true → v ≡ str redacted_mark)
      → scrub v ≡ v
      → value_of is_key v (scrub v) ≡ v
  unfolding value_of
  value_of_id false v h k = k
  value_of_id true v h k = elim (Bool-cases (is_text v)) [
    | inl e ↦ rw e cc (h refl e)
    | inr e ↦ rw e k
  ]

mutual
  unfolding scrub IsRedacted value_of

  scrub-IsRedacted : {N : Type 0} (v : Json N) → IsRedacted (scrub v)
  scrub-IsRedacted null = tt
  scrub-IsRedacted (bool b) = tt
  scrub-IsRedacted (num n) = tt
  scrub-IsRedacted (str s) = tt
  scrub-IsRedacted (arr vs) = scrub_items-AreRedacted vs
  scrub-IsRedacted (obj fs) = scrub_fields-HaveRedacted fs

  scrub_items-AreRedacted : {N : Type 0} (vs : Items N) → AreRedacted (scrub_items vs)
  scrub_items-AreRedacted nil = tt
  scrub_items-AreRedacted (cons v vs) = (scrub-IsRedacted v, scrub_items-AreRedacted vs)

  scrub_fields-HaveRedacted : {N : Type 0} (fs : Fields N) → HaveRedacted (scrub_fields fs)
  scrub_fields-HaveRedacted end = tt
  scrub_fields-HaveRedacted (field k v fs) = (
    value_of-marked (contains redact_keys k) v,
    value_of-IsRedacted (contains redact_keys k) v (scrub-IsRedacted v),
    scrub_fields-HaveRedacted fs,
  )

mutual
  unfolding scrub IsRedacted value_of

  scrub_id : {N : Type 0} (v : Json N) → IsRedacted v → scrub v ≡ v
  scrub_id null h = refl
  scrub_id (bool b) h = refl
  scrub_id (num n) h = refl
  scrub_id (str s) h = refl
  scrub_id (arr vs) h = ap arr (scrub_items_id vs h)
  scrub_id (obj fs) h = ap obj (scrub_fields_id fs h)

  scrub_items_id : {N : Type 0} (vs : Items N) → AreRedacted vs → scrub_items vs ≡ vs
  scrub_items_id nil h = refl
  scrub_items_id (cons v vs) h = rw (scrub_id v h.0, scrub_items_id vs h.1) refl

  scrub_fields_id : {N : Type 0} (fs : Fields N) → HaveRedacted fs → scrub_fields fs ≡ fs
  scrub_fields_id end h = refl
  scrub_fields_id (field k v fs) h =
      rw (scrub_fields_id fs h.2, value_of_id (contains redact_keys k) v h.0 (scrub_id v h.1)) refl

-- The scrub leaves no text but the mark under a redacted key, at any depth of a document, and changes
-- nothing in a document that has none.
pub scrub_exact : {N : Type 0} (v : Json N) → IsRedacted (scrub v) × (IsRedacted v → scrub v ≡ v)
scrub_exact v = (scrub-IsRedacted v, scrub_id v)
