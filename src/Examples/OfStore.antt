-- ===== src/Examples/OfStore.antt =====
-- The theorems on the prune passes, the backup and the finalization at concrete inputs.
use dtd_server_apm.Common.{keep}
use dtd_server_apm.Session.Files.{stat}
use dtd_server_apm.Io.Claim.{unlinked}
use dtd_server_apm.Examples.OfSession.{text_floats}
use dtd_server_apm.Common.{
  ℕ, ◌≡◌, ◌≢◌, refl, Bool, true, false, not, List, [], ◌∷◌, ◌++◌, Option, none, some, Text, codes,
  leb, ◌<◌, if◌then◌else◌, nat_eq, list_eq, ◌=?◌, ltb,
}
use dtd_server_apm.Common.Dict.{lookup, insert, contains}
use dtd_server_apm.Common.Decimal.{str}
use dtd_server_apm.Io.Claim.{
  suffixed, claim, Turn, first, second, World, turn, turns, attempt, attempt_by,
}
use dtd_server_apm.Io.Claim.Free.{claim-least}
use dtd_server_apm.Io.Claim.Apart.{starting, claims_apart}
use dtd_server_apm.Session.Files.{Session, regular, is_file, read}
use dtd_server_apm.Session.Manifest.{unexpected, Platform}
use dtd_server_apm.Session.Trash.{
  Entries, Store, Race, Host, removed, vanished, move_into_trash, purge_expired_trash,
}
use dtd_server_apm.Session.Trash.Kept.{IsKept, move_into_trash-IsKept}
use dtd_server_apm.Session.Trash.Purged.{IsDict, purge_expired_trash-keeps}
use dtd_server_apm.Session.Settings.{IsGrace, prune_grace_hours, prune_grace_hours-IsGrace}
use dtd_server_apm.Finalize.{Actions, finalize}
use dtd_server_apm.Finalize.Exit.{
  is_none, failure, at_summary, at_health, at_events, at_render, at_manifest, finalize-reports,
}
use dtd_server_apm.Backup.{Destination, Copying, manifest_content, finish, back_up}
use dtd_server_apm.Backup.Merge.{IsAdded, back_up-IsAdded}

abbrev taken : List Text
taken = codes "s" ∷ codes "s_1" ∷ []

claim-least_example :
    (j : ℕ) × (claim (codes "s") taken ≡ (suffixed (codes "s") j, suffixed (codes "s") j ∷ taken))
    × (contains taken (suffixed (codes "s") j) ≡ false)
    × ((i : ℕ) → i < j → contains taken (suffixed (codes "s") i) ≡ true)
claim-least_example = claim-least (codes "s") taken

-- The first claim takes the base between the two calls of the second.
abbrev order : List Turn
order = unlinked (codes "s_1") ∷ first ∷ second ∷ second ∷ []

abbrev world : World
world = record { one = starting (codes "s"); two = starting (codes "s"); names = [] }

first_result : (turns order world).one.result ≡ some (codes "s")
unfolding turns turn attempt attempt_by contains suffixed str keep
first_result = refl

second_result : (turns order world).two.result ≡ some (codes "s_1")
unfolding turns turn attempt attempt_by contains suffixed str keep
second_result = refl

claims_apart_example : codes "s" ≢ codes "s_1"
claims_apart_example =
    claims_apart (codes "s") (codes "s") [] order (codes "s") (codes "s_1")
      ((λ e. cc e), ((λ e. cc e), ((λ e. cc e), ((λ e. cc e), tt)))) first_result second_result

abbrev trash : Entries
trash = (codes "session_1", 5) ∷ (codes "session_2", 90) ∷ []

abbrev store : Store
store = record { sessions = (codes "session_1", 7) ∷ []; trash = trash; scenario = [] }

-- Another prune takes the next free name during the first attempt, which is numbered 15.
abbrev race : ℕ → Race
race n = record {
  taken = (if leb n 14 then [] else (codes "session_1_1", 6) ∷ []);
  purged = λ entry. false;
  gone = false;
  hollow = λ entry. false;
  refused = false;
  sync_fails = false;
}

found_session : lookup (codes "session_1") store.sessions ≡ some 7
unfolding lookup
found_session = refl

move_into_trash-IsKept_example :
    IsKept
      (codes "session_1")
      (if true then 100 else 7)
      race
      store
      (move_into_trash 100 true (codes "session_1") race store)
move_into_trash-IsKept_example =
    move_into_trash-IsKept 100 true (codes "session_1") race store 7 found_session

abbrev host : Host
host = record {
  now = 100;
  can_touch = λ name. true;
  races = λ name. race;
  has_trash = true;
  removal = λ name. removed;
  is_fresh = λ t. ltb 50 t;
}

trash-IsDict : IsDict trash
unfolding lookup
trash-IsDict = (refl, (refl, tt))

found_entry : lookup (codes "session_2") trash ≡ some 90
unfolding lookup
found_entry = refl

is_removed : host.removal (codes "session_2") ≢ vanished
is_removed h = cc h

purge_expired_trash-keeps_example :
    lookup (codes "session_2") (purge_expired_trash host store).1.trash ≡ some 90
purge_expired_trash-keeps_example =
    purge_expired_trash-keeps host store (codes "session_2") 90 trash-IsDict found_entry refl
      is_removed

-- Every action appends its number, and that of the health raises.
abbrev note_of : ℕ → Bool → List ℕ → List ℕ × Bool
note_of n raised s = (s ++ n ∷ [], raised)

abbrev actions : Actions (List ℕ)
actions = record {
  annotate_session = note_of 1 true;
  build_summary = note_of 2 false;
  build_health = note_of 3 true;
  build_events = note_of 4 false;
  analyze = note_of 5 true;
  check_budget = note_of 6 false;
  render_session = note_of 7 false;
  record_manifest = λ s. (s ++ 8 ∷ [], some true);
  write_index = note_of 9 true;
}

finalize-reports_example :
    ((finalize actions false []).1.failed_stages
      ≡ failure (codes "summary") (actions.build_summary (at_summary actions [])).1
        ++ (failure (codes "health") (actions.build_health (at_health actions [])).1
            ++ (failure (codes "events") (actions.build_events (at_events actions [])).1
                ++ (failure (codes "render") (actions.render_session (at_render actions false [])).1
                    ++ failure
                        (codes "manifest")
                        (is_none (actions.record_manifest (at_manifest actions false [])).1)))))
    × ((finalize actions false []).1.audit_valid
        ≡ (actions.record_manifest (at_manifest actions false [])).1)
finalize-reports_example = finalize-reports actions false []

abbrev platform : Platform
platform = record {
  sha256 = λ content. content;
  decode_manifest = λ text. none;
  encode_manifest = λ m. [];
  schema_accepts = λ path text. true;
  decode_result = λ text. none;
  loads = λ text. none;
  int = λ v. unexpected;
  floats = text_floats;
  is_stamp = λ text. false;
  is_in_range = λ start window. true;
}

abbrev audited : Session
audited = (codes "manifest.json", regular (codes "M")) ∷ []

-- One session to copy, one without a manifest, and a record of one that was pruned.
abbrev to_back_up : List (Text × Session)
to_back_up = (codes "session_3", audited) ∷ (codes "session_2", []) ∷ []

abbrev destination : Destination
destination = record {
  copies = (codes "session_1", audited) ∷ [];
  fingerprints = (codes "session_1", some (codes "M")) ∷ [];
}

abbrev grants : Text → Bool
grants name = false

abbrev ended : Copying
ended = record {
  copies = (codes "session_1", audited) ∷ (codes "session_3", audited) ∷ [];
  copied_sessions = (codes "session_3", codes "M") ∷ [];
  copied = codes "session_3" ∷ [];
  unchanged = [];
  skipped = codes "session_2" ∷ [];
}

backed_up :
    back_up platform grants to_back_up [] destination
    ≡ some (finish platform grants destination ended [])
unfolding back_up lookup insert contains manifest_content is_file read stat
backed_up = refl

back_up-IsAdded_example :
    IsAdded platform grants to_back_up destination
      (finish platform grants destination ended []).0
      (finish platform grants destination ended []).1
back_up-IsAdded_example =
    back_up-IsAdded platform grants to_back_up [] destination
      (finish platform grants destination ended []).0
      (finish platform grants destination ended []).1 backed_up

-- A toy number is one character: `-` is negative and `i` is infinite.
abbrev parse_hours : Text → Option ℕ
parse_hours (c ∷ []) = some c
parse_hours text = none

prune_grace_hours-IsGrace_example :
    IsGrace parse_hours
      (λ c. not (c =? b'i'))
      (λ c. c =? b'-')
      24
      (codes "-")
      (prune_grace_hours parse_hours (λ c. not (c =? b'i')) (λ c. c =? b'-') 24 (codes "-"))
prune_grace_hours-IsGrace_example =
    prune_grace_hours-IsGrace parse_hours (λ c. not (c =? b'i')) (λ c. c =? b'-') 24 (codes "-")
