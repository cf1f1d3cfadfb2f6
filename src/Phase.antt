-- ===== src/Phase.antt =====
-- pkg/phase/phase.go: the names of the phases, their messages, and the next phase.
pub mod Transitioner
use operator_marketplace.Common.{String, Option, none, some, [], ◌∷◌}
use operator_marketplace.Common.Maps.{Map, lookup}
use operator_marketplace.Api.Meta.{Phase, new_phase}

abbrev pub initial : String
initial = ""

abbrev pub configuring : String
configuring = "Configuring"

abbrev pub succeeded : String
succeeded = "Succeeded"

abbrev pub failed : String
failed = "Failed"

abbrev pub validating : String
validating = "Validating"

abbrev pub downloading : String
downloading = "Downloading"

abbrev pub purging : String
purging = "Purging"

abbrev pub phase_messages : Map String
phase_messages =
    (validating, "Scheduled for validation")
    ∷ (downloading, "Scheduled for download of operator manifest(s)")
    ∷ (purging, "Scheduled for purging")
    ∷ (configuring, "Scheduled for configuration")
    ∷ (succeeded, "The object has been successfully reconciled")
    ∷ (failed, "Reconciliation has failed")
    ∷ (initial, "Out of sync, scheduled for phased reconciliation")
    ∷ []

-- Go's zero value where the map has no such key.
abbrev or_empty : Option String → String
or_empty none = ""
or_empty (some s) = s

unfoldable pub get_message : String → String
unfolding lookup
get_message phase_name = or_empty (lookup phase_name phase_messages)

unfoldable pub get_next : String → Phase
unfolding new_phase
get_next name = new_phase name (get_message name)

unfoldable pub get_next_with_message : String → String → Phase
unfolding new_phase
get_next_with_message name message = new_phase name message
