-- ===== src/Json.antt =====
-- JSON values, as the columns of type `Json` hold them. A number is kept as the text that
-- `JSON.stringify` prints for it.
use operaia_lab.Common.{String, Bool, true, false, not, ◌==◌, string_same, if◌then◌else◌}

mutual
  pub data Json : Type 0 where
    null : Json
    bool : Bool → Json
    num : String → Json
    str : String → Json
    arr : Items → Json
    obj : Fields → Json

  pub data Items : Type 0 where
    nil : Items
    cons : Json → Items → Items

  pub data Fields : Type 0 where
    end : Fields
    field : String → Json → Fields → Fields

-- What `if (value)` tests.
unfoldable pub is_truthy : Json → Bool
is_truthy null = false
is_truthy (bool b) = b
is_truthy (num n) = not (n == "0")
is_truthy (str s) = not (s == "")
is_truthy (arr xs) = true
is_truthy (obj fs) = true

-- `typeof value === "object"`.
unfoldable pub is_object : Json → Bool
is_object null = true
is_object (arr xs) = true
is_object (obj fs) = true
is_object other = false

unfoldable pub is_string : Json → Bool
is_string (str s) = true
is_string other = false

-- `value === "text"`.
unfoldable pub is_text : Json → String → Bool
is_text (str s) t = s == t
is_text other t = false

-- The value of a field; a field that is not there reads as `undefined`, which every test of the
-- source treats as it treats `null`.
unfoldable pub get_field : String → Fields → Json
get_field k end = null
get_field k (field j v fs) = if j == k then v else get_field k fs

unfoldable pub get : String → Json → Json
unfolding get_field
get k (obj fs) = get_field k fs
get k other = null

-- `{ ...base, [k]: v }`.
unfoldable pub set_field : String → Json → Fields → Fields
set_field k v end = field k v end
set_field k v (field j w fs) = if j == k then field j v fs else field j w (set_field k v fs)

unfoldable pub with_field : String → Json → Json → Json
unfolding set_field
with_field k v (obj fs) = obj (set_field k v fs)
with_field k v other = other
