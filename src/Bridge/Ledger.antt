-- ===== src/Bridge/Ledger.antt =====
-- The loop of `attribute_subsystems`, tools/apm_suite/analysis/bridge.py: each section adds to one total
-- and one list of entries. Python's integers are a parameter beside the floats.
use dtd_server_apm.Common.{
  ℕ, Bool, false, not, ◌&&◌, ◌||◌, List, [], ◌∷◌, ◌++◌, Option, none, some, Text, codes, ◌=?◌,
  nat_eq, list_eq, if◌then◌else◌,
}
use dtd_server_apm.Common.Dict.{lookup, insert, contains}
use dtd_server_apm.Io.Json.{Fields, end, field}
use dtd_server_apm.Models.{get, first_present, truthy}
use dtd_server_apm.Models.Numbers.{Floats}
use dtd_server_apm.Bridge.Heats.{name_text}
use dtd_server_apm.Bridge.Subsystems.{
  Place, deep_section_names, drilldown, place_of, subsystems, in_drilldown, in_subsystem, nowhere,
}

-- Python's integers as far as they are computed with here.
pub record Integers (Z F : Type 0) : Type 0 where
  -- `int(x)` of a float, and the float of an integer in a product or a quotient
  pub int_of : F → Z
  pub float_of : Z → F
  pub plus : Z → Z → Z
  pub times : Z → Z → Z
  pub minus : Z → Z → Z
  pub max_int : Z → Z → Z
  -- `n >= literal`
  pub at_least : Z → ℕ → Bool
  pub zero_int : Z
  pub one_int : Z
  -- `bool(n)`
  pub is_true_int : Z → Bool

pub record SectionEntry (Z F : Type 0) : Type 0 where
  pub name : Text
  pub scaled_total_ms : F
  pub calls_scaled : Z
  pub deep_sampled : Bool

-- The accumulators of the loop.
pub record Ledger (Z F : Type 0) : Type 0 where
  pub totals : List (Text × F)
  pub drilldown_totals : List (Text × F)
  pub details : List (Text × List (SectionEntry Z F))
  pub drilldown_details : List (Text × List (SectionEntry Z F))
  pub long_running : List Text

module _ {N : Type 0} where
  -- `key in mapping`.
  unfoldable pub has_key : Text → Fields N → Bool
  has_key key end = false
  has_key key (field k v fs) = k =? key || has_key key fs

module _ {N Z F : Type 0} (fl : Floats N F) (ints : Integers Z F) where
  open fl use {lt, plus_float, sub, mul, div, round, zero_float, hundredths, is_true}
  open ints use {int_of, float_of, times, minus, max_int, zero_int, one_int, is_true_int}

  unfoldable pub default_to {ℓ} : {A : Type ℓ} → A → Option A → A
  default_to x none = x
  default_to x (some y) = y

  -- `totals[key] += x`, and `details[key].append(entry)`.
  unfoldable pub add_to : Text → F → List (Text × F) → List (Text × F)
  unfolding insert lookup default_to
  add_to key x totals = insert key (plus_float (default_to zero_float (lookup key totals)) x) totals

  unfoldable pub append_to :
      Text
      → SectionEntry Z F
      → List (Text × List (SectionEntry Z F))
      → List (Text × List (SectionEntry Z F))
  unfolding insert lookup default_to
  append_to key entry details =
      insert key (default_to [] (lookup key details) ++ entry ∷ []) details

  unfoldable pub is_deep : Fields N → Text → Bool
  unfolding has_key contains
  is_deep section name =
      truthy fl (get section (codes "deep"))
      || not (has_key (codes "deep") section) && contains deep_section_names name

  unfoldable pub scale_of : Z → Fields N → Text → Z
  unfolding is_deep
  scale_of rate section name = if is_deep section name then max_int one_int rate else one_int

  unfoldable pub scaled_ms : Z → Fields N → F
  unfolding scale_of name_text first_present
  scaled_ms rate section =
      mul (first_present fl (get section (codes "totalMs") ∷ []))
        (float_of (scale_of rate section (name_text fl (get section (codes "name")))))

  unfoldable pub entry_of : Z → Fields N → SectionEntry Z F
  unfolding scaled_ms
  entry_of rate section =
      let name = name_text fl (get section (codes "name")) in
      record {
        name = name;
        scaled_total_ms = round (scaled_ms rate section) 1;
        calls_scaled =
            times (int_of (first_present fl (get section (codes "calls") ∷ [])))
              (scale_of rate section name);
        deep_sampled = is_deep section name;
      }

  -- Long-lived task sections, of 5000 ms a call and more.
  unfoldable pub is_long_running : Fields N → Bool
  unfolding first_present
  is_long_running section =
      fl.le (hundredths 500000) (first_present fl (get section (codes "avgMs") ∷ []))

  unfoldable pub put : Place → F → SectionEntry Z F → Ledger Z F → Ledger Z F
  unfolding add_to append_to
  put (in_drilldown key) x entry l = record l {
    drilldown_totals = add_to key x l.drilldown_totals;
    drilldown_details = append_to key entry l.drilldown_details;
  }
  put (in_subsystem key) x entry l = record l {
    totals = add_to key x l.totals;
    details = append_to key entry l.details;
  }
  put nowhere x entry l = l

  -- One round of the loop over the sections.
  unfoldable pub attribute : Z → Fields N → Ledger Z F → Ledger Z F
  unfolding put place_of entry_of is_long_running
  attribute rate section l =
      let name = name_text fl (get section (codes "name")) in
      if is_long_running section
      then record l { long_running = l.long_running ++ name ∷ [] }
      else put (place_of name) (scaled_ms rate section) (entry_of rate section) l

  unfoldable pub attribute_all : Z → List (Fields N) → Ledger Z F → Ledger Z F
  unfolding attribute
  attribute_all rate [] l = l
  attribute_all rate (section ∷ sections) l = attribute_all rate sections (attribute rate section l)

  abbrev pub zeros : List (Text × List Text) → List (Text × F)
  zeros [] = []
  zeros ((key, patterns) ∷ rules) = (key, zero_float) ∷ zeros rules

  abbrev pub no_entries : List (Text × List Text) → List (Text × List (SectionEntry Z F))
  no_entries [] = []
  no_entries ((key, patterns) ∷ rules) = (key, []) ∷ no_entries rules

  abbrev pub empty_ledger : Ledger Z F
  empty_ledger = record {
    totals = zeros subsystems;
    drilldown_totals = zeros drilldown;
    details = no_entries subsystems;
    drilldown_details = no_entries drilldown;
    long_running = [];
  }
