-- ===== src/Tools/Granted.antt =====
-- The tools of an employee are those of its groups.
use operaia_lab.Common.{
  if◌then◌else◌, subst, String, Bool, true, false, not, ◌&&◌, ◌||◌, List, [], ◌∷◌, ◌++◌, ◌≡◌, refl,
  ◌==◌, string_same, str_iff, arith,
}
use operaia_lab.Tools.Permissions.{
  Table, ToolPermissionPolicy, includes, add, add_all, add_tools, groups_for, add_groups, tools_of,
  allowed_tools, includes_tool, is_allowed,
}
use operaia_lab.Common.Effects.{Result, ok, err}
use operaia_lab.Common.Objects.{Property, own, inherited, undefined, property, elements}

abbrev type_error : String
type_error = "TypeError: object is not iterable"

-- The list of a property of its own.
abbrev own_list : Property (List String) → List String
own_list (own l) = l
own_list inherited = []
own_list undefined = []

abbrev is_inherited_property : Property (List String) → Bool
is_inherited_property inherited = true
is_inherited_property _ = false

-- Some of the groups has the tool.
abbrev pub any_group_has : Table → String → List String → Bool
any_group_has group_tools tool [] = false
any_group_has group_tools tool (group ∷ groups) =
    includes tool (own_list (property group group_tools)) || any_group_has group_tools tool groups

-- Some of the groups is a key that the table only inherits.
abbrev any_inherited : Table → List String → Bool
any_inherited group_tools [] = false
any_inherited group_tools (group ∷ groups) =
    is_inherited_property (property group group_tools) || any_inherited group_tools groups

-- What `isAllowed` answers: it throws where the employee or one of its groups is a key that the
-- tables only inherit.
abbrev granted_to : Table → String → Property (List String) → Result String Bool
granted_to group_tools tool_id inherited = err type_error
granted_to group_tools tool_id undefined = ok false
granted_to group_tools tool_id (own groups) =
    if any_inherited group_tools groups
    then err type_error
    else ok (any_group_has group_tools tool_id groups)

abbrev pub granted : ToolPermissionPolicy → String → String → Result String Bool
granted policy employee_id tool_id =
    granted_to policy.group_tools tool_id (property employee_id policy.employee_groups)

-- No text comes twice.
abbrev pub has_distinct : List String → Bool
has_distinct [] = true
has_distinct (x ∷ xs) = not (includes x xs) && has_distinct xs

includes-append :
    (t : String) (l r : List String) → includes t (l ++ r) ≡ (includes t l || includes t r)
includes-append t [] r = refl
includes-append t (x ∷ l) r = ground (arith, includes-append t l r)

includes-add :
    (t x : String) (set : List String) → includes t (add x set) ≡ (x == t || includes t set)
includes-add t x set = ground (arith, includes-append t set (x ∷ []), str_iff x t)

includes-add_all :
    (t : String) (xs set : List String)
    → includes t (add_all xs set) ≡ (includes t xs || includes t set)
unfolding add_all
includes-add_all t [] set = refl
includes-add_all t (x ∷ xs) set =
    ground (arith, includes-add_all t xs (add x set), includes-add t x set)

has_distinct-append_one :
    (l : List String) (x : String)
    → has_distinct l ≡ true
    → includes x l ≡ false
    → has_distinct (l ++ (x ∷ [])) ≡ true
has_distinct-append_one [] x h n = refl
has_distinct-append_one (y ∷ l) x h n = ground (
  arith,
  h,
  n,
  includes-append y l (x ∷ []),
  str_iff x y,
  str_iff y x,
  has_distinct-append_one l x,
)

has_distinct-add_all :
    (xs set : List String) → has_distinct set ≡ true → has_distinct (add_all xs set) ≡ true
unfolding add_all
has_distinct-add_all [] set h = h
has_distinct-add_all (x ∷ xs) set h =
    has_distinct-add_all xs (add x set) ground (arith, h, has_distinct-append_one set x h)

-- What a list of tools says: nothing comes twice, and `has` is whether it has the tool.
record Holds (tool : String) (has : Bool) (set : List String) : Type 0 where
  includes_tool : includes tool set ≡ has
  distinct : has_distinct set ≡ true

-- A result that is the exception where `bad`, and otherwise a list that holds.
abbrev Gives : String → Bool → Bool → Result String (List String) → Type 0
Gives tool bad has (err e) = (bad ≡ true) × (e ≡ type_error)
Gives tool bad has (ok set) = (bad ≡ false) × Holds tool has set

err-add_groups :
    (group_tools : Table) (groups : List String) (e : String)
    → add_groups group_tools groups (err e) ≡ err e
unfolding add_groups
err-add_groups group_tools [] e = refl
err-add_groups group_tools (group ∷ groups) e = refl

swapped : (a b c : Bool) → (a || (b || c)) ≡ ((b || a) || c)
swapped a b c = ground arith

module _ (group_tools : Table) (tool : String) where
  abbrev Loop : List String → List String → Bool → Type 0
  Loop groups set has =
      Gives tool (any_inherited group_tools groups) (any_group_has group_tools tool groups || has)
        (add_groups group_tools groups (ok set))

  -- One turn of the loop, by what the group's property is.
  add_group-Gives :
      (p : Property (List String)) (groups set : List String) (has : Bool)
      → Holds tool has set
      → ((more : List String) (h : Bool) → Holds tool h more → Loop groups more h)
      → Gives tool
          (is_inherited_property p || any_inherited group_tools groups)
          ((includes tool (own_list p) || any_group_has group_tools tool groups) || has)
          (add_groups group_tools groups (add_tools (elements p) (ok set)))
  unfolding add_all
  add_group-Gives inherited groups set has h ih =
      rw (err-add_groups group_tools groups type_error) (refl, refl)
  add_group-Gives undefined groups set has h ih = ih set has h
  add_group-Gives (own l) groups set has h ih =
      subst
        (λ b.
          Gives tool (any_inherited group_tools groups) b
            (add_groups group_tools groups (ok (add_all l set))))
        (swapped (any_group_has group_tools tool groups) (includes tool l) has)
        (ih (add_all l set) (includes tool l || has) (record {
          includes_tool = ground (arith, includes-add_all tool l set, h.includes_tool);
          distinct = has_distinct-add_all l set h.distinct;
        }))

  add_groups-Gives :
      (groups set : List String) (has : Bool) → Holds tool has set → Loop groups set has
  unfolding add_groups
  add_groups-Gives [] set has h = (refl, h)
  add_groups-Gives (group ∷ groups) set has h =
      add_group-Gives (property group group_tools) groups set has h
        (λ more b k. add_groups-Gives groups more b k)

or_false : (a : Bool) → (a || false) ≡ a
or_false a = ground arith

-- Where the answer is a list, it holds no tool twice.
abbrev pub ListsOnce : Result String (List String) → Type 0
ListsOnce (err e) = Unit
ListsOnce (ok tools) = has_distinct tools ≡ true

given-granted :
    (group_tools : Table) (tool : String) (groups : List String) (r : Result String (List String))
    → Gives tool
        (any_inherited group_tools groups)
        (any_group_has group_tools tool groups || false)
        r
    → (includes_tool tool r ≡ granted_to group_tools tool (own groups)) × ListsOnce r
given-granted group_tools tool groups (err e) (bad, same) = (rw (bad, same) refl, tt)
given-granted group_tools tool groups (ok set) (good, h) =
    (rw (good, h.includes_tool, or_false (any_group_has group_tools tool groups)) refl, h.distinct)

tools_of-granted :
    (group_tools : Table) (tool : String) (p : Property (List String))
    → (includes_tool tool (tools_of group_tools (elements p)) ≡ granted_to group_tools tool p)
      × ListsOnce (tools_of group_tools (elements p))
unfolding add_groups
tools_of-granted group_tools tool inherited = (refl, tt)
tools_of-granted group_tools tool undefined = (refl, refl)
tools_of-granted group_tools tool (own groups) =
    given-granted group_tools tool groups (add_groups group_tools groups (ok [])) (
      add_groups-Gives group_tools tool groups [] false
        (record { includes_tool = refl; distinct = refl }))

-- An employee that the table has may use a tool exactly where one of its groups has the tool, and
-- an unknown one may use none; where the employee, or one of its groups, is a key that the tables
-- only inherit, such as "constructor", the test throws. A list of tools holds no tool twice.
pub is_allowed_lem :
    (policy : ToolPermissionPolicy) (employee_id tool_id : String)
    → (is_allowed policy employee_id tool_id ≡ granted policy employee_id tool_id)
      × ListsOnce (allowed_tools policy employee_id)
unfolding is_allowed allowed_tools groups_for
is_allowed_lem policy employee_id tool_id =
    tools_of-granted policy.group_tools tool_id (property employee_id policy.employee_groups)
