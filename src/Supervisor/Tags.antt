-- ===== src/Supervisor/Tags.antt =====
-- The reason that the dispatcher writes at the head of an objective and reads back.
use Prim.Native.Char.{code}
use Prim.Native.String
use text.Mathlib.TextLemmas.{nil-append, cons-append, cons-ne-nil}
use operaia_lab.Common.{
  String, Bool, true, false, not, ◌&&◌, Option, none, some, ◌≡◌, refl, sym, ap, ◌∙◌, ◌==◌,
  string_same, nat_same, nat_beq_iff, str_iff, inl, inr, arith, Bool-cases,
}
use operaia_lab.Supervisor.Types.{
  novo_workspace, missao_parada, missao_bloqueada, missao_aguardando, missao_esgotada, retry,
  recuperacao, backlog, mudanca_importante, congestionamento_fila, acompanhamento_periodico,
  CoordinationReason, CoordinationRequest,
}
use operaia_lab.Supervisor.Latch.{exhausted_mission_latch_prefix, exhausted_mission_latch_reason}
use operaia_lab.Supervisor.Objective.{
  reason_text, exhausted_source, latch_reason_of, latch_reason_for, objective_body,
  build_coordination_objective, strip_prefix, before_bracket, coordinate_reason,
}

-- The text holds no `]`.
unfoldable pub has_no_bracket : String → Bool
has_no_bracket String.[] = true
has_no_bracket (String.◌∷◌ c s) = not (code c == 93) && has_no_bracket s

strip_prefix-append : (p s : String) → strip_prefix p (String.◌++◌ p s) ≡ some s
unfolding strip_prefix
strip_prefix-append String.[] s = ap some (nil-append s)
strip_prefix-append (String.◌∷◌ c p) s =
    rw (cons-append c p s) ground (arith, nat_beq_iff (code c) (code c), strip_prefix-append p s)

before_bracket-append :
    (s t : String)
    → has_no_bracket s ≡ true
    → before_bracket (String.◌++◌ s (String.◌++◌ "]" t)) ≡ some s
unfolding before_bracket has_no_bracket
before_bracket-append String.[] t h =
    rw (nil-append (String.◌++◌ "]" t), cons-append (String.char_at "]" 0) "" t) refl
before_bracket-append (String.◌∷◌ c s) t h =
    rw (cons-append c s (String.◌++◌ "]" t)) ground (arith, h, before_bracket-append s t)

has_no_bracket-append :
    (s t : String)
    → has_no_bracket s ≡ true
    → has_no_bracket t ≡ true
    → has_no_bracket (String.◌++◌ s t) ≡ true
unfolding has_no_bracket
has_no_bracket-append String.[] t h k = rw (nil-append t) k
has_no_bracket-append (String.◌∷◌ c s) t h k =
    rw (cons-append c s t) ground (arith, h, k, has_no_bracket-append s t)

-- A tag that may stand in brackets.
abbrev IsTag : String → Type 0
IsTag s = (has_no_bracket s ≡ true) × (s == "" ≡ false)

reason_text-IsTag : (r : CoordinationReason) → IsTag (reason_text r)
unfolding has_no_bracket
reason_text-IsTag novo_workspace = (refl, refl)
reason_text-IsTag missao_parada = (refl, refl)
reason_text-IsTag missao_bloqueada = (refl, refl)
reason_text-IsTag missao_aguardando = (refl, refl)
reason_text-IsTag missao_esgotada = (refl, refl)
reason_text-IsTag retry = (refl, refl)
reason_text-IsTag recuperacao = (refl, refl)
reason_text-IsTag backlog = (refl, refl)
reason_text-IsTag mudanca_importante = (refl, refl)
reason_text-IsTag congestionamento_fila = (refl, refl)
reason_text-IsTag acompanhamento_periodico = (refl, refl)

exhausted-not_empty : (id : String) → exhausted_mission_latch_reason id == "" ≡ false
unfolding exhausted_mission_latch_reason
exhausted-not_empty id = elim (Bool-cases (exhausted_mission_latch_reason id == "")) [
  | inl empty ↦ absurd (
      cons-ne-nil (String.char_at "m" 0) (String.◌++◌ "issao_esgotada:" id) (
        sym (cons-append (String.char_at "m" 0) "issao_esgotada:" id)
        ∙ (str_iff (exhausted_mission_latch_reason id) "").0 empty))
  | inr filled ↦ filled
]

exhausted-IsTag :
    (id : String) → has_no_bracket id ≡ true → IsTag (exhausted_mission_latch_reason id)
unfolding exhausted_mission_latch_reason has_no_bracket
exhausted-IsTag id h =
    (has_no_bracket-append exhausted_mission_latch_prefix id refl h, exhausted-not_empty id)

latch_reason_of-IsTag :
    (r : CoordinationReason) (source : Option String)
    → ((id : String) → source ≡ some id → has_no_bracket id ≡ true)
    → IsTag (latch_reason_of r source)
latch_reason_of-IsTag r none h = reason_text-IsTag r
latch_reason_of-IsTag r (some id) h = exhausted-IsTag id (h id refl)

-- The reason that is read back from the objective of a request is the reason of its latch, where
-- the id of its mission, if it has one, holds no `]`.
pub coordinate_reason-build :
    (req : CoordinationRequest)
    → ((id : String) → req.source_mission_id ≡ some id → has_no_bracket id ≡ true)
    → coordinate_reason (build_coordination_objective req) ≡ some (latch_reason_for req)
unfolding coordinate_reason build_coordination_objective latch_reason_for
coordinate_reason-build req h =
    let (free, filled) =
      latch_reason_of-IsTag req.reason (exhausted_source req) (λ id e. h id ground arith) in
    let body = objective_body req (exhausted_source req) in
    rw
      (
        coordinate_reason,
        strip_prefix-append "[COORDINATE/"
            (String.◌++◌ (latch_reason_for req) (String.◌++◌ "]" body)),
        before_bracket-append (latch_reason_for req) body free,
        filled,
      )
      refl
