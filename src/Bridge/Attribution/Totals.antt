-- ===== src/Bridge/Attribution/Totals.antt =====
-- What the totals of an attribution add up.
use dtd_server_apm.Common.{
  ◌≡◌, not, ◌&&◌, map, keep, Bool, false, List, Text, codes, ◌=?◌, nat_eq, list_eq, All,
}
use dtd_server_apm.Io.Json.{Fields}
use dtd_server_apm.Models.{get}
use dtd_server_apm.Models.Numbers.{Floats}
use dtd_server_apm.Bridge.Heats.{name_text}
use dtd_server_apm.Bridge.Subsystems.{Place, in_drilldown, in_subsystem, nowhere, place_of}
use dtd_server_apm.Bridge.Attribution.{add_up}
use dtd_server_apm.Bridge.Ledger.{Integers, SectionEntry, Ledger, scaled_ms, is_long_running}

-- A section counts for a subsystem.
unfoldable pub counts_for : Text → Place → Bool
counts_for key (in_subsystem k) = k =? key
counts_for key (in_drilldown k) = false
counts_for key nowhere = false

module _ {Z F : Type 0} (P : Text → SectionEntry Z F → Type 0) where
  -- All entries of a table are as their key says.
  abbrev AllEntries : List (Text × List (SectionEntry Z F)) → Type 0
  AllEntries details = All (λ b. All (P b.0) b.1) details

module _ {N Z F : Type 0} (fl : Floats N F) (ints : Integers Z F) (rate : Z) where
  -- A section whose time counts for a subsystem: one placed there and not long-running.
  unfoldable pub is_timed : Text → Fields N → Bool
  unfolding counts_for
  is_timed key section =
      not (is_long_running fl ints section)
      && counts_for key (place_of (name_text fl (get section (codes "name"))))

  -- The sum of the scaled times of these sections, in the order of the document.
  unfoldable pub time_of : Text → F → List (Fields N) → F
  unfolding add_up keep is_timed
  time_of key total sections = add_up fl ints total (
      map (λ section. scaled_ms fl ints rate section)
        (keep (λ section. is_timed key section) sections))

  -- Entries stand where their name places them.
  pub record IsPlaced (l : Ledger Z F) : Type 0 where
    pub buckets : All (λ b. All (λ e. place_of e.name ≡ in_subsystem b.0) b.1) l.details
    pub levels : All (λ b. All (λ e. place_of e.name ≡ in_drilldown b.0) b.1) l.drilldown_details
