-- ===== src/Backup.antt =====
-- `backup_store` of tools/apm_suite/backup.py. A store is its sessions by name, newest first, and a
-- destination its copies and its record `backup-index.json`. Which copies the system refuses is a
-- parameter, and so is the platform of the audit. The modes and the time stamps are left out.
pub mod Record
pub mod Merge
use dtd_server_apm.Common.{
  ℕ, Bool, true, false, not, ◌&&◌, ◌||◌, List, [], ◌∷◌, ◌++◌, Option, none, some, Text, codes, all,
  map, ◌=?◌, nat_eq, list_eq, if◌then◌else◌, keep,
}
use dtd_server_apm.Common.Dict.{lookup, insert, contains}
use dtd_server_apm.Session.Files.{Session, is_file, read}
use dtd_server_apm.Session.Manifest.{Finding, missing_or_empty, Platform, manifest_name}
use dtd_server_apm.Session.Verify.{verify_session}

-- `BACKUP_EXTRAS`.
abbrev pub backup_extras : List Text
backup_extras = codes ".scenario" ∷ codes "index.html" ∷ codes "index.json" ∷ []

-- What keeps a run from copying, and the failure of one copy.
pub data BackupError : Type 0 where
  no_store inside_store swallows_store no_destination copy_failed : BackupError

-- An error of a copy: a finding, or no manifest.
pub data Trouble : Type 0 where
  found : Finding → Trouble
  no_manifest : Trouble

pub record BackupReport : Type 0 where
  pub copied : List Text
  pub unchanged : List Text
  pub skipped : List Text
  pub invalid : List (Text × List Trouble)
  pub incomplete : List Text
  pub extras : List Text

-- A record of fingerprints as it is read; the value of a name is none if it is no string.
abbrev pub Recorded : Type 0
Recorded = List (Text × Option Text)

pub record Destination : Type 0 where
  pub copies : List (Text × Session)
  pub fingerprints : Recorded

-- The variables of the loop over the sessions.
pub record Copying : Type 0 where
  pub copies : List (Text × Session)
  pub copied_sessions : List (Text × Text)
  pub copied : List Text
  pub unchanged : List Text
  pub skipped : List Text

-- An exception ends the run.
abbrev pub and_then {ℓ κ} : {A : Type ℓ} {B : Type κ} → Option A → (A → Option B) → Option B
and_then none f = none
and_then (some x) f = f x

abbrev pub start : List (Text × Session) → Copying
start copies = record {
  copies = copies;
  copied_sessions = [];
  copied = [];
  unchanged = [];
  skipped = [];
}

-- `Path.is_relative_to`.
pub is_relative_to : List Text → List Text → Bool
is_relative_to path [] = true
is_relative_to [] (q ∷ qs) = false
is_relative_to (p ∷ path) (q ∷ qs) = p =? q && is_relative_to path qs

-- `recorded.get(name) == fingerprint`.
abbrev pub is_recorded : Option (Option Text) → Text → Bool
is_recorded (some (some f)) fingerprint = f =? fingerprint
is_recorded _ fingerprint = false

abbrev pub is_present : Option Session → Bool
is_present none = false
is_present (some s) = true

pub data Outcome : Type 0 where
  failed : BackupError → Outcome
  done : BackupReport → Destination → Outcome

abbrev outcome_of : Option (BackupReport × Destination) → Outcome
outcome_of none = failed copy_failed
outcome_of (some (report, d)) = done report d

-- The content of a session's manifest, or none where the loop skips the session.
unfoldable pub manifest_content : Session → Option Text
manifest_content s = if not (is_file s manifest_name) then none else read s manifest_name

-- The entries of a record that are strings.
pub strings_of : Recorded → List (Text × Text)
strings_of [] = []
strings_of ((name, none) ∷ recorded) = strings_of recorded
strings_of ((name, some f) ∷ recorded) = (name, f) ∷ strings_of recorded

-- `dict.update`.
pub update : List (Text × Text) → List (Text × Text) → List (Text × Text)
update merged [] = merged
update merged ((name, f) ∷ more) = update (insert name f merged) more

-- An error that only says that something was not recorded yet.
abbrev pub is_unverified : Trouble → Bool
is_unverified (found (missing_or_empty path)) = true
is_unverified no_manifest = true
is_unverified _ = false

module _ (p : Platform) (refuses : Text → Bool) where
  open p use {sha256}

  -- The branches of one round for a session with a fingerprint; none is a copy that failed.
  pub copy_session : Recorded → Text → Session → Text → Copying → Option Copying
  copy_session recorded name s fingerprint c =
      if is_recorded (lookup name recorded) fingerprint && is_present (lookup name c.copies)
      then some (record c {
        unchanged = c.unchanged ++ name ∷ [];
        copied_sessions = insert name fingerprint c.copied_sessions;
      })
      else if refuses name
      then none
      else some (record c {
        copies = insert name s c.copies;
        copied = c.copied ++ name ∷ [];
        copied_sessions = insert name fingerprint c.copied_sessions;
      })

  pub copy_round : Recorded → Text → Session → Option Text → Copying → Option Copying
  unfolding copy_session
  copy_round recorded name s none c = some (record c { skipped = c.skipped ++ name ∷ [] })
  copy_round recorded name s (some content) c = copy_session recorded name s (sha256 content) c

  pub copy_sessions : Recorded → List (Text × Session) → Copying → Option Copying
  unfolding copy_round manifest_content
  copy_sessions recorded [] c = some c
  copy_sessions recorded ((name, s) ∷ store) c =
      and_then (copy_round recorded name s (manifest_content s) c) (copy_sessions recorded store)

  pub troubles : Session → List Trouble
  troubles s =
      map (λ f. found f) (verify_session p s)
      ++ (if not (is_file s manifest_name) then no_manifest ∷ [] else [])

  -- The loop over the copies, and what it adds to the report.
  pub verify_copies : List (Text × Session) → List Text × List (Text × List Trouble)
  unfolding troubles
  verify_copies [] = ([], [])
  verify_copies ((name, s) ∷ copies) =
      let (incomplete, invalid) = verify_copies copies in
      elim (troubles s) [
        | [] ↦ (incomplete, invalid)
        | t ∷ ts ↦
            if all is_unverified (t ∷ ts)
            then (name ∷ incomplete, invalid)
            else (incomplete, (name, t ∷ ts) ∷ invalid)
      ]

  -- `_copy_extras`: none where a copy failed.
  pub copy_extras : List Text → Option (List Text)
  unfolding keep
  copy_extras store_files =
      let extras = keep (λ name. contains store_files name) backup_extras in
      if all (λ name. not (refuses name)) extras then some extras else none

  -- What is left when every copy is made.
  pub finish : Destination → Copying → List Text → BackupReport × Destination
  unfolding strings_of update verify_copies
  finish d c extras =
      let merged = update (strings_of d.fingerprints) c.copied_sessions in
      let (incomplete, invalid) = verify_copies c.copies in
      (
        record {
          copied = c.copied;
          unchanged = c.unchanged;
          skipped = c.skipped;
          invalid = invalid;
          incomplete = incomplete;
          extras = extras;
        },
        record { copies = c.copies; fingerprints = map (λ e. (e.0, some e.1)) merged },
      )

  -- The run behind the checks of the two paths.
  unfoldable pub back_up :
      List (Text × Session) → List Text → Destination → Option (BackupReport × Destination)
  unfolding copy_sessions copy_extras finish
  back_up store store_files d =
      and_then (copy_sessions d.fingerprints store (start d.copies))
        (λ c. and_then (copy_extras store_files) (λ extras. some (finish d c extras)))

  -- The paths are the parts of the resolved ones; `is_dir` is that of the store, and `makes` whether the
  -- destination is there or can be made.
  pub backup_store :
      List Text
      → List Text
      → Bool
      → Bool
      → List (Text × Session)
      → List Text
      → Destination
      → Outcome
  unfolding back_up is_relative_to
  backup_store store_path path is_dir makes store store_files d =
      if not is_dir
      then failed no_store
      else if is_relative_to path store_path
      then failed inside_store
      else if is_relative_to store_path path
      then failed swallows_store
      else if not makes
      then failed no_destination
      else outcome_of (back_up store store_files d)
