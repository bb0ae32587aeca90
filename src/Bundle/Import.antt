-- ===== src/Bundle/Import.antt =====
-- `import_bundle` of tools/apm_suite/bundle.py. The store is its session directories by name; what
-- `zipfile` reports of an archive and what `extractall` leaves is given.
use dtd_server_apm.Common.{
  ℕ, ◌^◌, ◌*◌, Bool, true, not, ◌||◌, List, [], ◌∷◌, ◌++◌, Option, none, some, Text, codes, ◌=?◌,
  ◌==◌, nat_eq, list_eq, if◌then◌else◌, length, map, sum, keep, ltb, starts_with,
}
use mathlib.Core.List.{reverse}
use dtd_server_apm.Common.Dict.{contains, insert}
use dtd_server_apm.Io.Claim.{claim}
use dtd_server_apm.Io.Members.{member_is_safe}
use dtd_server_apm.Session.Files.{Session}
use dtd_server_apm.Session.Manifest.{Finding, Platform}
use dtd_server_apm.Session.Audit.{Audit, audit_session}

abbrev pub max_import_members : ℕ
max_import_members = 20000

abbrev pub max_import_uncompressed_bytes : ℕ
max_import_uncompressed_bytes = 2 * 1024 ^ 3

-- What `extractall` ends in: the files, an exception that the import catches (`OSError`, `BadZipFile`,
-- `zlib.error`, `NotImplementedError`, `RuntimeError`), or any other with the files that were there by
-- then.
pub data Extraction : Type 0 where
  extracted_all : Session → Extraction
  caught : Extraction
  not_caught : Session → Extraction

-- `ZipInfo`, and an opened archive.
pub record Info : Type 0 where
  pub filename : Text
  pub file_size : ℕ

pub record Archive : Type 0 where
  pub infos : List Info
  pub extracted : Extraction

abbrev pub SessionStore : Type 0
SessionStore = List (Text × Session)

-- The `BundleError` of an import.
pub data Refusal : Type 0 where
  not_readable : Refusal
  beyond_limits : ℕ → ℕ → Refusal
  unsafe_members : List Text → Refusal
  extraction_failed : Refusal

-- `ImportResult`.
pub record ImportResult : Type 0 where
  pub session : Text
  pub valid : Bool
  pub errors : ℕ
  pub warnings : ℕ
  pub findings : List Finding

pub data Imported : Type 0 where
  rejected : Refusal → Imported
  restored : ImportResult → Imported
  -- an exception that is no `BundleError`
  escaped : Imported

-- `text.strip("._")`.
unfoldable pub lstrip_marks : Text → Text
lstrip_marks [] = []
lstrip_marks (c ∷ s) = let rest = lstrip_marks s in if c == b'.' || c == b'_' then rest else c ∷ s

unfoldable pub strip_marks : Text → Text
unfolding lstrip_marks
strip_marks s = reverse (lstrip_marks (reverse (lstrip_marks s)))

-- The name that is claimed, of the file's stem in NFC; `is_alnum` is `str.isalnum` of one character.
unfoldable pub import_stem : (ℕ → Bool) → Text → Text
unfolding strip_marks
import_stem is_alnum name =
    let stem : Text =
      strip_marks (map (λ c. if is_alnum c || contains (codes "._-") c then c else b'_') name) in
    if not (starts_with stem (codes "session_")) then codes "session_" ++ stem else stem

-- The members with an unsafe path.
unfoldable pub unsafe_in : List Text → List Text
unfolding keep
unsafe_in names = keep (λ m. not (member_is_safe m)) names

unfoldable pub names_of : SessionStore → List Text
names_of store = map (λ e. e.0) store

-- `shutil.rmtree(target)`.
unfoldable pub remove_tree : Text → SessionStore → SessionStore
unfolding keep
remove_tree name store = keep (λ e. not (e.0 =? name)) store

module _ (p : Platform) where
  -- The audit that an import ends with, of the session it extracted; one that raises leaves the files.
  unfoldable pub restore : Text → Session → Option Audit → SessionStore → Imported × SessionStore
  restore target files none store = (escaped, insert target files store)
  restore target files (some audit) store = (
    restored (record {
      session = target;
      valid = audit.valid;
      errors = length audit.manifest.errors;
      warnings = length audit.manifest.warnings;
      findings = audit.manifest.errors;
    }),
    insert target audit.session store,
  )

  -- From the claimed directory on: a failed extraction removes it, unless the exception is another one.
  unfoldable pub extract_into : Text → Extraction → SessionStore → Imported × SessionStore
  unfolding restore remove_tree
  extract_into target caught store = (rejected extraction_failed, remove_tree target store)
  extract_into target (not_caught files) store = (escaped, insert target files store)
  extract_into target (extracted_all files) store =
      restore target files (audit_session p files true) store

  unfoldable pub import_safe : Text → Archive → SessionStore → Imported × SessionStore
  unfolding extract_into names_of
  import_safe stem archive store =
      let target : Text = (claim stem (names_of store)).0 in
      extract_into target archive.extracted (insert target [] store)

  unfoldable pub import_members :
      List Text → Text → Archive → SessionStore → Imported × SessionStore
  unfolding import_safe
  import_members [] stem archive store = import_safe stem archive store
  import_members (m ∷ ms) stem archive store = (rejected (unsafe_members (m ∷ ms)), store)

  unfoldable pub import_opened : Text → Archive → SessionStore → Imported × SessionStore
  unfolding import_members unsafe_in
  import_opened stem archive store =
      let count : ℕ = length archive.infos in
      let declared_bytes : ℕ = sum (map (λ i. i.file_size) archive.infos) in
      if ltb max_import_members count || ltb max_import_uncompressed_bytes declared_bytes
      then (rejected (beyond_limits count declared_bytes), store)
      else import_members (unsafe_in (map (λ i. i.filename) archive.infos)) stem archive store

  -- none is what `zipfile` cannot open.
  unfoldable pub import_bundle :
      (ℕ → Bool) → Text → Option Archive → SessionStore → Imported × SessionStore
  unfolding import_opened import_stem
  import_bundle is_alnum name none store = (rejected not_readable, store)
  import_bundle is_alnum name (some archive) store =
      import_opened (import_stem is_alnum name) archive store
