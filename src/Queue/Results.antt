-- ===== src/Queue/Results.antt =====
-- `mergeConsolidatePreservingInitial`, `requireConsolidatePhaseResult`, `readCoordinatePhaseResult`
-- and `readStoredInitial` of apps/api/src/modules/runtime/mission-result-store.ts.
use operaia_lab.Common.{Bool, true, false, not, ◌&&◌, ◌||◌, Option, none, some, if◌then◌else◌}
use operaia_lab.Json.{Json, arr, is_truthy, is_object, is_string, is_text, get, with_field}
use operaia_lab.Queue.Model.{Result, ok, err, bad_result}

abbrev is_array : Json → Bool
is_array (arr xs) = true
is_array other = false

unfoldable pub require_consolidate_phase_result : Json → Result Json
unfolding is_truthy is_object is_string is_text get
require_consolidate_phase_result incoming =
    if not (is_truthy incoming) || not (is_object incoming)
    then err bad_result
    else if not (is_text (get "phase" incoming) "consolidated")
    then err bad_result
    else if not (is_string (get "usableResult" incoming)) || not (is_truthy (get "final" incoming))
    then err bad_result
    else ok incoming

unfoldable pub read_coordinate_phase_result : Json → Option Json
unfolding is_truthy is_object is_text get
read_coordinate_phase_result result =
    if not (is_truthy result) || not (is_object result) || is_array result
    then none
    else if not (is_text (get "phase" result) "coordinated")
    then none
    else if not (is_truthy (get "initial" result)) || not (is_object (get "initial" result))
    then none
    else some result

unfoldable pub read_stored_initial : Json → Option Json
unfolding is_truthy is_object is_text get
read_stored_initial result =
    if not (is_truthy result) || not (is_object result)
    then none
    else if (is_text (get "phase" result) "coordinated"
          || is_text (get "phase" result) "consolidated")
        && is_truthy (get "initial" result)
        && is_object (get "initial" result)
    then some (get "initial" result)
    else none

keep_initial : Json → Option Json → Json
unfolding with_field
keep_initial base none = base
keep_initial base (some preserved) = with_field "initial" preserved base

merge_into : Json → Result Json → Result Json
unfolding read_stored_initial keep_initial is_truthy get
merge_into previous (err e) = err e
merge_into previous (ok base) =
    if is_truthy (get "initial" base)
    then ok base
    else ok (keep_initial base (read_stored_initial previous))

unfoldable pub merge_consolidate_preserving_initial : Json → Json → Result Json
unfolding require_consolidate_phase_result merge_into
merge_consolidate_preserving_initial previous incoming =
    merge_into previous (require_consolidate_phase_result incoming)
