-- ===== src/Common/Objects.antt =====
-- Objects that a program uses as dictionaries. A key that the object does not have itself is looked
-- up in `Object.prototype`, whose values are functions and objects: none is undefined or iterable.
use Prim.Native.String.{String}
use mathlib.Core.Bool.{Bool, false, ◌||◌}
use mathlib.Core.List.{List, [], ◌∷◌}
use operaia_lab.Common.Tests.{◌==◌, string_same, if◌then◌else◌}
use operaia_lab.Common.Effects.{Result, ok, err}

abbrev names : List String
names =
    "constructor" ∷ "toString" ∷ "toLocaleString" ∷ "valueOf" ∷ "hasOwnProperty" ∷ "isPrototypeOf"
    ∷ "propertyIsEnumerable" ∷ "__proto__" ∷ "__defineGetter__" ∷ "__defineSetter__"
    ∷ "__lookupGetter__" ∷ "__lookupSetter__" ∷ []

abbrev is_among : String → List String → Bool
is_among key [] = false
is_among key (n ∷ ns) = n == key || is_among key ns

unfoldable pub is_inherited : String → Bool
is_inherited key = is_among key names

-- `object[key]`: a value of its own, one that is inherited, or undefined.
pub data Property {ℓ} (A : Type ℓ) : Type ℓ where
  own : A → Property A
  inherited : Property A
  undefined : Property A

unfoldable pub property {ℓ} : {A : Type ℓ} → String → List (String × A) → Property A
property key [] = if is_inherited key then inherited else undefined
property key ((k, a) ∷ object) = if k == key then own a else property key object

-- The elements of `object[key] ?? []` in a `for … of`.
abbrev pub elements : {A : Type 0} → Property (List A) → Result String (List A)
elements (own l) = ok l
elements inherited = err "TypeError: object is not iterable"
elements undefined = ok []
