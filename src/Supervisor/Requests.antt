-- ===== src/Supervisor/Requests.antt =====
-- `collectCoordinationRequests` and `exhaustedLatchKeys` of supervisor/coordination-dispatcher.ts.
use Prim.Native.String
use operaia_lab.Common.{
  decimal, String, Bool, true, false, not, ◌&&◌, ◌||◌, List, [], ◌∷◌, ◌++◌, map, none, some, ◌==◌,
  string_same, nat_same, if◌then◌else◌, leb, keep,
}
use operaia_lab.Supervisor.Types.{
  CoordinationReason, missao_parada, missao_bloqueada, missao_aguardando, missao_esgotada, retry,
  recuperacao, congestionamento_fila, WorkspaceScanItem, MissionScanItem, MissionScanCategory,
  category_waiting, category_blocked, category_failed, category_retry, category_stale,
  category_timeout, QueueScanReport, CoordinationRequest,
}
use operaia_lab.Supervisor.Latch.{CoordinationLatchKey, exhausted_mission_latch_reason}
use operaia_lab.Supervisor.Objective.{reason_text, given}

-- The requests and the keys of `seen`.
abbrev pub Collected : Type 0
Collected = List String × List CoordinationRequest

abbrev pub has_text : String → List String → Bool
has_text s [] = false
has_text s (t ∷ ts) = t == s || has_text s ts

-- The key of `push`: by workspace and reason, and by the mission of an exhausted one.
abbrev seen_key : CoordinationRequest → String
seen_key req = elim (given req.source_mission_id) [
  | none ↦ join req.workspace_id (reason_text req.reason)
  | some id ↦ join req.workspace_id (join (reason_text req.reason) id)
]
  where
    join : String → String → String
    join s t = String.◌++◌ s (String.◌++◌ ":" t)

unfoldable pub push : CoordinationRequest → Collected → Collected
push req (seen, requests) =
    if has_text (seen_key req) seen
    then (seen, requests)
    else (seen_key req ∷ seen, requests ++ (req ∷ []))

abbrev workspace_request : WorkspaceScanItem → CoordinationReason → String → CoordinationRequest
workspace_request ws reason detail = record {
  workspace_id = ws.workspace_id;
  project_id = some ws.project_id;
  reason = reason;
  detail = detail;
  source_mission_id = none;
  attempt = none;
  max_attempts = none;
}

abbrev push_reasons : WorkspaceScanItem → List CoordinationReason → Collected → Collected
push_reasons ws [] c = c
push_reasons ws (reason ∷ reasons) c = push_reasons ws reasons (
    push
      (workspace_request ws reason
        (String.◌++◌ "workspace " (String.◌++◌ ws.name (String.◌++◌ ": " (reason_text reason)))))
      c)

unfoldable pub push_workspaces : List WorkspaceScanItem → Collected → Collected
push_workspaces [] c = c
push_workspaces (ws ∷ rest) c =
    push_workspaces rest (if ws.needs_attention then push_reasons ws ws.attention_reasons c else c)

abbrev reason_of_category : MissionScanCategory → CoordinationReason
reason_of_category category_retry = retry
reason_of_category category_failed = missao_esgotada
reason_of_category category_blocked = missao_bloqueada
reason_of_category category_stale = missao_parada
reason_of_category category_timeout = missao_parada
reason_of_category category_waiting = missao_aguardando
reason_of_category _ = recuperacao

abbrev mission_request : MissionScanItem → CoordinationReason → CoordinationRequest
mission_request m missao_esgotada = record {
  workspace_id = m.workspace_id;
  project_id = none;
  reason = missao_esgotada;
  detail = m.reason;
  source_mission_id = some m.mission_id;
  attempt = some m.attempt;
  max_attempts = some m.max_attempts;
}
mission_request m reason = record {
  workspace_id = m.workspace_id;
  project_id = none;
  reason = reason;
  detail = m.reason;
  source_mission_id = none;
  attempt = none;
  max_attempts = none;
}

unfoldable pub push_missions : List MissionScanItem → Collected → Collected
push_missions [] c = c
push_missions (m ∷ rest) c =
    push_missions rest (
      if m.needs_coordination
      then push (mission_request m (reason_of_category m.category)) c
      else c)

unfoldable pub push_congested : QueueScanReport → List WorkspaceScanItem → Collected → Collected
push_congested queue [] c = c
push_congested queue (ws ∷ rest) c = push_congested queue rest (
    if not ws.needs_attention && ws.open_missions == 0
    then c
    else push
        (workspace_request ws congestionamento_fila (String.◌++◌ "depth=" (decimal queue.depth))) c)

unfoldable pub collect_coordination_requests :
    List WorkspaceScanItem → List MissionScanItem → QueueScanReport → List CoordinationRequest
unfolding push_workspaces push_missions push_congested push
collect_coordination_requests workspaces missions queue =
    let pushed = push_missions missions (push_workspaces workspaces ([], [])) in
    (if queue.congested then push_congested queue workspaces pushed else pushed).1

abbrev is_category_failed : MissionScanCategory → Bool
is_category_failed category_failed = true
is_category_failed _ = false

abbrev is_exhausted_item : MissionScanItem → Bool
is_exhausted_item item =
    is_category_failed item.category && not item.can_resume && leb item.max_attempts item.attempt

-- `exhaustedLatchKeys`
unfoldable pub exhausted_latch_keys : List MissionScanItem → List CoordinationLatchKey
exhausted_latch_keys missions =
    map
      (λ item. record {
        workspace_id = item.workspace_id;
        reason = exhausted_mission_latch_reason item.mission_id;
      })
      (keep is_exhausted_item missions)
