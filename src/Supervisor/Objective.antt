-- ===== src/Supervisor/Objective.antt =====
-- The latch reason and the objective of a request of supervisor/coordination-dispatcher.ts, and the
-- regular expression with which the dispatcher reads the reason back.
use Prim.Native.Char.{code}
use Prim.Native.String
use operaia_lab.Common.{
  decimal, ℕ, String, Bool, true, false, Option, none, some, ◌==◌, string_same, nat_same,
  if◌then◌else◌,
}
use operaia_lab.Supervisor.Types.{
  CoordinationReason, novo_workspace, missao_parada, missao_bloqueada, missao_aguardando,
  missao_esgotada, retry, recuperacao, backlog, mudanca_importante, congestionamento_fila,
  acompanhamento_periodico, CoordinationRequest,
}
use operaia_lab.Supervisor.Latch.{exhausted_mission_latch_reason}

infixr 40 ◌++◌
abbrev ◌++◌ : String → String → String
s ++ t = String.◌++◌ s t

abbrev pub reason_text : CoordinationReason → String
reason_text novo_workspace = "novo_workspace"
reason_text missao_parada = "missao_parada"
reason_text missao_bloqueada = "missao_bloqueada"
reason_text missao_aguardando = "missao_aguardando"
reason_text missao_esgotada = "missao_esgotada"
reason_text retry = "retry"
reason_text recuperacao = "recuperacao"
reason_text backlog = "backlog"
reason_text mudanca_importante = "mudanca_importante"
reason_text congestionamento_fila = "congestionamento_fila"
reason_text acompanhamento_periodico = "acompanhamento_periodico"

abbrev pub is_exhausted_reason : CoordinationReason → Bool
is_exhausted_reason missao_esgotada = true
is_exhausted_reason _ = false

-- `req.sourceMissionId` where it is there and not empty.
abbrev pub given : Option String → Option String
given none = none
given (some id) = if id == "" then none else some id

-- The mission of `req.reason === "missao_esgotada" && req.sourceMissionId`.
abbrev pub exhausted_source : CoordinationRequest → Option String
exhausted_source req = if is_exhausted_reason req.reason then given req.source_mission_id else none

-- `latchReasonFor`
abbrev pub latch_reason_of : CoordinationReason → Option String → String
latch_reason_of reason (some id) = exhausted_mission_latch_reason id
latch_reason_of reason none = reason_text reason

unfoldable pub latch_reason_for : CoordinationRequest → String
latch_reason_for req = latch_reason_of req.reason (exhausted_source req)

-- `value ?? "?"`
abbrev count_text : Option ℕ → String
count_text none = "?"
count_text (some n) = decimal n

abbrev pub objective_body : CoordinationRequest → Option String → String
objective_body req (some id) =
    " Missao "
    ++ id
    ++ " esgotada ("
    ++ count_text req.attempt
    ++ "/"
    ++ count_text req.max_attempts
    ++ ") no workspace "
    ++ req.workspace_id
    ++ ". "
    ++ req.detail
objective_body req none =
    " Atencao operacional no workspace " ++ req.workspace_id ++ ". " ++ req.detail

-- `buildCoordinationObjective`: both texts begin with the reason of the latch in brackets.
unfoldable pub build_coordination_objective : CoordinationRequest → String
build_coordination_objective req =
    "[COORDINATE/" ++ latch_reason_for req ++ "]" ++ objective_body req (exhausted_source req)

unfoldable pub strip_prefix : String → String → Option String
strip_prefix String.[] s = some s
strip_prefix (String.◌∷◌ c p) String.[] = none
strip_prefix (String.◌∷◌ c p) (String.◌∷◌ d s) =
    let rest = strip_prefix p s in if code c == code d then rest else none

-- What stands before the first `]`.
unfoldable pub before_bracket : String → Option String
before_bracket String.[] = none
before_bracket (String.◌∷◌ c s) =
    let rest = before_bracket s in
    if code c == 93
    then some String.[]
    else elim rest [ none ↦ none | some t ↦ some (String.◌∷◌ c t) ]

-- The first group of `/^\[COORDINATE\/([^\]]+)\]/`, if the text matches.
abbrev pub not_empty : Option String → Option String
not_empty none = none
not_empty (some s) = if s == "" then none else some s

unfoldable pub coordinate_reason : String → Option String
coordinate_reason objective = elim (strip_prefix "[COORDINATE/" objective) [
  | none ↦ none
  | some rest ↦ not_empty (before_bracket rest)
]
