-- ===== src/Session/Trash.antt =====
-- Retired sessions, tools/apm_suite/session.py: `_free_trash_target`, `_move_into_trash`,
-- `remove_sessions`, `_expired`, `purge_expired_trash`, `purge_stale_scenario_runs` and `prune_store`.
-- A store is its directories with their modification times. Other prunes may run between any two
-- calls; what they do, and which calls the system refuses, is a parameter. The test `is_fresh` stands
-- for the comparison of a time with the float cutoff. The entries of the scenario directory are files.
pub mod Kept
pub mod Purged
pub mod Target
use dtd_server_apm.Common.{
  ℕ, zero, suc, ◌+◌, Bool, true, false, not, ◌&&◌, ◌||◌, any, List, [], ◌∷◌, ◌++◌, Option, none,
  some, Text, length, map, ◌=?◌, nat_eq, list_eq, if◌then◌else◌, keep, starts_with, codes,
}
use dtd_server_apm.Common.Dict.{lookup, insert, contains}
use dtd_server_apm.Common.Sort.{sorted}
use dtd_server_apm.Common.Order.{text_lt}
use dtd_server_apm.Io.Claim.{suffixed}

-- A failed call, a free name that other prunes took sixteen times, and the exception of
-- `sync_parent_directory` after a rename, which ends the whole prune.
pub data Error : Type 0 where
  denied collision unsynced : Error

abbrev pub Entries : Type 0
Entries = List (Text × ℕ)

pub record Store : Type 0 where
  pub sessions : Entries
  pub trash : Entries
  pub scenario : Entries

pub without : Text → Entries → Entries
unfolding keep
without name entries = keep (λ e. not (e.0 =? name)) entries

abbrev pub is_present : Option ℕ → Bool
is_present none = false
is_present (some n) = true

-- `_free_trash_target`: at most one round for each name in the trash, and one more.
pub free_from : ℕ → Text → ℕ → List Text → Text
free_from zero name k names = suffixed name k
free_from (suc fuel) name k names =
    let rest = free_from fuel name (suc k) names in
    if contains names (suffixed name k) then rest else suffixed name k

pub free_trash_target : Entries → Text → Text
unfolding free_from
free_trash_target trash name = free_from (suc (length trash)) name 0 (map (λ e. e.0) trash)

-- What happens between the probe for a free name and the rename: entries that other prunes put into
-- the trash and such as they purge there, whether one of them took the session, which entries of the
-- trash are empty directories by then, and whether the system refuses the rename or the sync after it.
pub record Race : Type 0 where
  pub taken : Entries
  pub purged : Text → Bool
  pub gone : Bool
  pub hollow : Text → Bool
  pub refused : Bool
  pub sync_fails : Bool

pub interfere : Race → Text → Store → Store
unfolding without keep
interfere r name st = record st {
  trash = keep (λ e. not (r.purged e.0)) (st.trash ++ r.taken);
  sessions = if r.gone then without name st.sessions else st.sessions;
}

-- `os.replace` of a session, given as its time if it is there, and what follows each outcome; `rest` is
-- the next attempt. It replaces an empty directory, and no other.
pub replace_by : Option ℕ → Text → Text → Race → Option Error × Store → Store → Option Error × Store
replace_by none name candidate r rest st = (none, st)
replace_by (some mtime) name candidate r rest st =
    if is_present (lookup candidate st.trash) && (r.refused || not (r.hollow candidate))
    then rest
    else if r.refused
    then (some denied, st)
    else (
      if r.sync_fails then some unsynced else none,
      record st { sessions = without name st.sessions; trash = insert candidate mtime st.trash },
    )

-- The loop over the attempts; `race` is numbered from the last attempt down.
pub attempts : ℕ → Text → (ℕ → Race) → Store → Option Error × Store
unfolding replace_by interfere free_trash_target
attempts zero name race st = (some collision, st)
attempts (suc n) name race st =
    let candidate = free_trash_target st.trash name in
    let st' = interfere (race n) name st in
    let rest = attempts n name race st' in
    replace_by (lookup name st'.sessions) name candidate (race n) rest st'

-- `os.utime(session, None)`: the time now, or the old one where the system refuses.
pub stamp : ℕ → Bool → Text → Store → Store
stamp now can_touch name st =
    if can_touch then record st { sessions = insert name now st.sessions } else st

pub move_into_trash : ℕ → Bool → Text → (ℕ → Race) → Store → Option Error × Store
unfolding attempts stamp
move_into_trash now can_touch name race st = elim (lookup name st.sessions) [
  | none ↦ (none, st)
  | some old ↦ attempts 16 name race (stamp now can_touch name st)
]

-- What the system does with a deletion.
pub data Removal : Type 0 where
  removed vanished refused : Removal

-- The host of a prune: the time, which sessions it can touch, the races of each session, whether the
-- trash directory can be made, the deletions, and which times lie past the cutoff `st_mtime > cutoff`.
pub record Host : Type 0 where
  pub now : ℕ
  pub can_touch : Text → Bool
  pub races : Text → ℕ → Race
  pub has_trash : Bool
  pub removal : Text → Removal
  pub is_fresh : ℕ → Bool

abbrev pub Event : Type 0
Event = Text × Option Error

abbrev pub event_of : Removal → Option Error
event_of removed = none
event_of vanished = none
event_of refused = some denied

abbrev pub after_removal : Removal → Text → Entries → Entries
after_removal removed name entries = without name entries
after_removal vanished name entries = without name entries
after_removal refused name entries = entries

-- `shutil.rmtree` of every doomed session: the branch without a grace.
pub remove_now : Host → List Text → Store → List Event × Store
remove_now host [] st = ([], st)
remove_now host (name ∷ names) st =
    let (events, st') =
      remove_now host names
        (record st { sessions = after_removal (host.removal name) name st.sessions }) in
    ((name, event_of (host.removal name)) ∷ events, st')

-- Whether an event is the exception that ends the prune.
abbrev pub is_unsynced : Option Error → Bool
is_unsynced (some unsynced) = true
is_unsynced (some denied) = false
is_unsynced (some collision) = false
is_unsynced none = false

pub move_all : Host → List Text → Store → List Event × Store
unfolding move_into_trash
move_all host [] st = ([], st)
move_all host (name ∷ names) st =
    let (error, st') = move_into_trash host.now (host.can_touch name) name (host.races name) st in
    let (events, st'') = move_all host names st' in
    if is_unsynced error then ((name, error) ∷ [], st') else ((name, error) ∷ events, st'')

-- The flag is `grace <= 0`.
pub remove_sessions : Host → Bool → List Text → Store → List Event × Store
unfolding remove_now move_all
remove_sessions host no_grace [] st = ([], st)
remove_sessions host no_grace (name ∷ names) st =
    if no_grace
    then remove_now host (name ∷ names) st
    else if host.has_trash
    then move_all host (name ∷ names) st
    else ((name, some denied) ∷ [], st)

-- Whether `entry.stat().st_mtime > cutoff`; the call fails on an entry that vanished.
abbrev pub is_skipped : Removal → Bool → Bool
is_skipped vanished is_fresh = false
is_skipped removed is_fresh = is_fresh
is_skipped refused is_fresh = is_fresh

-- `_expired`: the entries whose time is not past the cutoff are removed, in the order of their names.
pub expire : Host → Entries → Entries → List Event × Entries
expire host [] all = ([], all)
expire host ((name, mtime) ∷ entries) all =
    let skipped = expire host entries all in
    let (events, left) = expire host entries (after_removal (host.removal name) name all) in
    if is_skipped (host.removal name) (host.is_fresh mtime)
    then skipped
    else ((name, event_of (host.removal name)) ∷ events, left)

pub expired : Host → Text → Entries → List Event × Entries
unfolding expire sorted text_lt keep starts_with
expired host prefix all =
    expire host (sorted (λ a b. text_lt a.0 b.0) (keep (λ e. starts_with e.0 prefix) all)) all

pub purge_expired_trash : Host → Store → List Event × Store
unfolding expired
purge_expired_trash host st =
    let (events, left) = expired host (codes "session_") st.trash in
    (events, record st { trash = left })

pub purge_stale_scenario_runs : Host → Store → List Event × Store
unfolding expired
purge_stale_scenario_runs host st =
    let (events, left) = expired host (codes "loadgen_") st.scenario in
    (events, record st { scenario = left })

pub data Kind : Type 0 where
  session trash scenario : Kind

abbrev pub tagged : Kind → List Event → List (Kind × Event)
tagged kind events = map (λ e. (kind, e)) events

pub prune_store : Host → Bool → List Text → Store → List (Kind × Event) × Store
unfolding remove_sessions purge_expired_trash purge_stale_scenario_runs
prune_store host no_grace doomed st =
    let (a, st1) = remove_sessions host no_grace doomed st in
    let (b, st2) = purge_expired_trash host st1 in
    let (c, st3) = purge_stale_scenario_runs host st2 in
    if any (λ e. is_unsynced e.1) a
    then (tagged session a, st1)
    else (tagged session a ++ (tagged trash b ++ tagged scenario c), st3)
