-- ===== src/Bundle/Guarded.antt =====
-- What an import may do to the store.
use dtd_server_apm.Common.{
  ℕ, ◌≤◌, ◌≡◌, refl, Bool, true, false, ◌||◌, List, [], ◌∷◌, Option, none, some, Text, length, map,
  sum, keep, All, arith, ◌=?◌, nat_eq, list_eq, text_eq, ltb, if_cases, Bool-cases, inl, inr,
}
use dtd_server_apm.Common.Dict.{contains, lookup, insert, lookup-insert, lookup-insert_self}
use dtd_server_apm.Io.Claim.{claim}
use dtd_server_apm.Io.Claim.Free.{claim-least}
use dtd_server_apm.Io.Members.{member_is_safe}
use dtd_server_apm.Session.Files.{Session}
use dtd_server_apm.Session.Manifest.{Platform}
use dtd_server_apm.Session.Audit.{Audit, audit_session}
use dtd_server_apm.Bundle.Import.{
  Archive, Extraction, extracted_all, caught, not_caught, SessionStore, Imported, rejected,
  restored, escaped, not_readable, ImportResult, import_stem, unsafe_in, names_of, remove_tree,
  restore, extract_into, import_safe, import_members, import_opened, import_bundle,
  max_import_members, max_import_uncompressed_bytes,
}

remove_tree-insert :
    (target : Text) (files : Session) (store : SessionStore)
    → contains (names_of store) target ≡ false
    → remove_tree target (insert target files store) ≡ store
unfolding remove_tree insert names_of contains keep
remove_tree-insert target files [] h = rw ((text_eq.beq_iff target target).1 refl) refl
remove_tree-insert target files ((name, s) ∷ store) h =
    ground (arith, remove_tree-insert target files store)

unsafe_in-none :
    (names : List Text) → unsafe_in names ≡ [] → All (λ m. member_is_safe m ≡ true) names
unfolding unsafe_in keep
unsafe_in-none [] h = tt
unsafe_in-none (m ∷ ms) h = elim (Bool-cases (member_is_safe m)) [
  | inl e ↦ (e, unsafe_in-none ms (ground (arith, h, e)))
  | inr e ↦ absurd (ground (arith, h, e))
]

module _ (p : Platform) (archive : Archive) (store : SessionStore) where
  -- An archive within the limits, all members of which stay below the directory they are extracted to.
  pub record IsAccepted : Type 0 where
    pub few : length archive.infos ≤ max_import_members
    pub small : sum (map (λ i. i.file_size) archive.infos) ≤ max_import_uncompressed_bytes
    pub safe : All (λ m. member_is_safe m ≡ true) (map (λ i. i.filename) archive.infos)

  -- The restored session has a name of its own and holds what was extracted, audited against the
  -- manifest that came with it; every other session is as it was.
  pub record IsRestored (r : ImportResult) (after : SessionStore) : Type 0 where
    pub accepted : IsAccepted
    pub fresh : contains (names_of store) r.session ≡ false
    pub files : Session
    pub extracted : archive.extracted ≡ extracted_all files
    pub audit : Audit
    pub audited : audit_session p files true ≡ some audit
    pub stored : lookup r.session after ≡ some audit.session
    pub findings : r.findings ≡ audit.manifest.errors
    pub others : (name : Text) → (r.session =? name) ≡ false → lookup name after ≡ lookup name store

  -- What can escape: an exception of `extractall` that is not caught, or one of the audit.
  pub data CanEscape (files : Session) : Type 0 where
    of_extraction : archive.extracted ≡ not_caught files → CanEscape files
    of_audit :
        archive.extracted ≡ extracted_all files
        → audit_session p files true ≡ none
        → CanEscape files

  -- An escaped exception leaves what was extracted under a name of its own; every other session is as
  -- it was.
  pub record IsEscaped (after : SessionStore) : Type 0 where
    pub accepted : IsAccepted
    pub session : Text
    pub fresh : contains (names_of store) session ≡ false
    pub files : Session
    pub reason : CanEscape files
    pub left : lookup session after ≡ some files
    pub others : (name : Text) → (session =? name) ≡ false → lookup name after ≡ lookup name store

  abbrev pub IsGuarded : Imported → SessionStore → Type 0
  IsGuarded (rejected e) after = after ≡ store
  IsGuarded (restored r) after = IsRestored r after
  IsGuarded escaped after = IsEscaped after

  apart-insert :
      (target : Text) (files : Session) (name : Text)
      → (target =? name) ≡ false
      → lookup name (insert target files (insert target [] store)) ≡ lookup name store
  apart-insert target files name apart =
      rw
        (
          lookup-insert target name files (insert target [] store),
          apart,
          lookup-insert target name [] store,
          apart,
        )
        refl

  insert-IsEscaped :
      (target : Text) (files : Session)
      → IsAccepted
      → contains (names_of store) target ≡ false
      → CanEscape files
      → IsEscaped (insert target files (insert target [] store))
  insert-IsEscaped target files a fresh reason = record {
    accepted = a;
    session = target;
    fresh = fresh;
    files = files;
    reason = reason;
    left = lookup-insert_self target files (insert target [] store);
    others = apart-insert target files;
  }

  restore-IsGuarded :
      (target : Text) (files : Session) (o : Option Audit)
      → IsAccepted
      → contains (names_of store) target ≡ false
      → archive.extracted ≡ extracted_all files
      → audit_session p files true ≡ o
      → IsGuarded
          (restore p target files o (insert target [] store)).0
          (restore p target files o (insert target [] store)).1
  unfolding restore
  restore-IsGuarded target files none a fresh e k =
      insert-IsEscaped target files a fresh (of_audit e k)
  restore-IsGuarded target files (some audit) a fresh e k = record {
    accepted = a;
    fresh = fresh;
    files = files;
    extracted = e;
    audit = audit;
    audited = k;
    stored = lookup-insert_self target audit.session (insert target [] store);
    findings = refl;
    others = apart-insert target audit.session;
  }

  extract_into-IsGuarded :
      (target : Text) (o : Extraction)
      → IsAccepted
      → contains (names_of store) target ≡ false
      → archive.extracted ≡ o
      → IsGuarded
          (extract_into p target o (insert target [] store)).0
          (extract_into p target o (insert target [] store)).1
  unfolding extract_into
  extract_into-IsGuarded target caught a fresh e = remove_tree-insert target [] store fresh
  extract_into-IsGuarded target (not_caught files) a fresh e =
      insert-IsEscaped target files a fresh (of_extraction e)
  extract_into-IsGuarded target (extracted_all files) a fresh e =
      restore-IsGuarded target files (audit_session p files true) a fresh e refl

  import_safe-IsGuarded :
      (stem : Text)
      → IsAccepted
      → IsGuarded (import_safe p stem archive store).0 (import_safe p stem archive store).1
  unfolding import_safe
  import_safe-IsGuarded stem a =
      let (j, e, free, least) = claim-least stem (names_of store) in
      extract_into-IsGuarded (claim stem (names_of store)).0 archive.extracted a (rw e free) refl

  import_members-IsGuarded :
      (unsafe : List Text) (stem : Text)
      → (unsafe ≡ [] → IsAccepted)
      → IsGuarded
          (import_members p unsafe stem archive store).0
          (import_members p unsafe stem archive store).1
  unfolding import_members
  import_members-IsGuarded [] stem a = import_safe-IsGuarded stem (a refl)
  import_members-IsGuarded (m ∷ ms) stem a = refl

  import_opened-IsGuarded :
      (stem : Text)
      → IsGuarded (import_opened p stem archive store).0 (import_opened p stem archive store).1
  unfolding import_opened
  import_opened-IsGuarded stem =
      let count : ℕ = length archive.infos in
      let declared : ℕ = sum (map (λ i. i.file_size) archive.infos) in
      if_cases (λ o. IsGuarded o.0 o.1)
        (ltb max_import_members count || ltb max_import_uncompressed_bytes declared) _
        (import_members p (unsafe_in (map (λ i. i.filename) archive.infos)) stem archive store)
        (λ _. refl)
        (λ e. import_members-IsGuarded _ stem (λ none_unsafe. record {
          few = ground arith;
          small = ground arith;
          safe = unsafe_in-none _ none_unsafe;
        }))

-- What an import does, of the archive that `zipfile` opened, if it did.
abbrev pub IsSafeImport :
    Platform → Option Archive → SessionStore → Imported → SessionStore → Type 0
IsSafeImport p none store outcome after = (outcome ≡ rejected not_readable) × (after ≡ store)
IsSafeImport p (some archive) store outcome after = IsGuarded p archive store outcome after

-- A refused import, also one whose extraction ended in an exception that it catches, leaves the store as
-- it was. A restored session has a name that the store did not have, comes of an archive within the
-- limits whose members all stay inside its directory, is audited against its own manifest, and changes no
-- other session. Any other exception, of the extraction or of the audit, comes after the same checks and
-- leaves the extracted files under such a name, and every other session as it was.
pub import_bundle-IsSafeImport :
    (p : Platform) (is_alnum : ℕ → Bool) (name : Text) (opened : Option Archive)
    (store : SessionStore)
    → IsSafeImport p opened store
        (import_bundle p is_alnum name opened store).0
        (import_bundle p is_alnum name opened store).1
unfolding import_bundle
import_bundle-IsSafeImport p is_alnum name none store = (refl, refl)
import_bundle-IsSafeImport p is_alnum name (some archive) store =
    import_opened-IsGuarded p archive store (import_stem is_alnum name)
