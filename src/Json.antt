-- ===== src/Json.antt =====
-- JSON values and `json.dumps` as the program calls it: sorted keys, text left as it is but for the
-- escapes of `ensure_ascii=False`. A dict is its list of entries; a float is held by its `repr`.
pub mod Dumps
use wordsworth.Prelude.{ℕ, String, Bool, Option, none, some, ◌==◌, string_eq, if◌then◌else◌}

mutual
  pub data Json : Type 0 where
    null : Json
    boolean : Bool → Json
    num : ℕ → Json
    float : String → Json
    str : String → Json
    arr : Items → Json
    obj : Fields → Json

  pub data Items : Type 0 where
    nil : Items
    cons : Json → Items → Items

  pub data Fields : Type 0 where
    end : Fields
    field : String → Json → Fields → Fields

-- `{"k": v, …}` and `{**a, …}`: a key that is there is given its value anew in its place.
unfoldable pub put : String → Json → Fields → Fields
put k v end = field k v end
put k v (field j w rest) = if j == k then field k v rest else field j w (put k v rest)

-- `d.get(k)`
unfoldable pub get : String → Fields → Option Json
get k end = none
get k (field j w rest) = if j == k then some w else get k rest

unfoldable pub str_or_null : Option String → Json
str_or_null none = null
str_or_null (some s) = str s
