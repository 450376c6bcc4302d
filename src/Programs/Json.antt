-- ===== src/Programs/Json.antt =====
-- JSON values as the wallet RPC of crates/cli/src/dashboard.rs and crates/wallet-cli/src/rpc.rs
-- writes and reads them. Both write their texts with format strings, without spaces; both read with
-- the serde_json crate, which is a parameter. Numbers are those that `as_u64` returns.
use summerpoem_cli.Prelude.{
  ℕ, ◌<◌, ◌≡◌, Bool, true, false, Option, none, some, List, [], ◌∷◌, ◌++◌, if◌then◌else◌, ◌==◌, All,
}
use summerpoem_cli.Prelude.Text.{bytes}
use summerpoem_cli.Prelude.Checked.{u64_mod}
use summerpoem_cli.Prelude.Result.{Result, ok}
use summerpoem_cli.Prelude.Equality.{bytes_eq}
use summerpoem_cli.Core.Hex.{IsPlainChar}
use summerpoem_cli.Programs.Amount.{decimal}

mutual
  pub data Json : Type 0 where
    null : Json
    boolean : Bool → Json
    number : ℕ → Json
    string : List ℕ → Json
    array : Items → Json
    object : Fields → Json

  pub data Items : Type 0 where
    nil : Items
    cons : Json → Items → Items

  pub data Fields : Type 0 where
    end : Fields
    field : List ℕ → Json → Fields → Fields

unfoldable pub quoted : List ℕ → List ℕ
quoted s = 34 ∷ (s ++ (34 ∷ []))

unfoldable pub bool_text : Bool → List ℕ
bool_text true = bytes "true"
bool_text false = bytes "false"

-- The text that the format strings make of a value, whose strings are written as they are.
unfoldable mutual
  unfolding quoted bool_text

  pub print : Json → List ℕ
  print null = bytes "null"
  print (boolean b) = bool_text b
  print (number n) = decimal n
  print (string s) = quoted s
  print (array items) = 91 ∷ (print_items items ++ (93 ∷ []))
  print (object fields) = 123 ∷ (print_fields fields ++ (125 ∷ []))

  pub print_items : Items → List ℕ
  print_items nil = []
  print_items (cons j nil) = print j
  print_items (cons j items) = print j ++ (44 ∷ print_items items)

  pub print_fields : Fields → List ℕ
  print_fields end = []
  print_fields (field k j end) = quoted k ++ (58 ∷ print j)
  print_fields (field k j fields) = quoted k ++ (58 ∷ (print j ++ (44 ∷ print_fields fields)))

-- `v.get(key)`
unfoldable pub lookup : List ℕ → Fields → Option Json
lookup key end = none
lookup key (field k j fields) =
    let rest = lookup key fields in if bytes_eq key k then some j else rest

unfoldable pub get_field : List ℕ → Json → Option Json
unfolding lookup
get_field key (object fields) = lookup key fields
get_field key _ = none

unfoldable pub as_u64 : Option Json → ℕ → ℕ
as_u64 (some (number n)) default = n
as_u64 _ default = default

unfoldable pub as_bool : Option Json → Bool → Bool
as_bool (some (boolean b)) default = b
as_bool _ default = default

unfoldable pub as_str : Option Json → Option (List ℕ)
as_str (some (string s)) = some s
as_str _ = none

unfoldable pub str_or_empty : Option Json → List ℕ
str_or_empty (some (string s)) = s
str_or_empty _ = []

-- The elements of an array, and none of anything else.
unfoldable pub as_array : Option Json → Items
as_array (some (array items)) = items
as_array _ = nil

-- `json_escape`
unfoldable pub json_escape : List ℕ → List ℕ
json_escape [] = []
json_escape (c ∷ cs) =
    let rest = json_escape cs in
    if c == 34 then 92 ∷ 34 ∷ rest else if c == 92 then 92 ∷ 92 ∷ rest else c ∷ rest

-- A value whose text is read as that value: its numbers are u64 and its strings need no escapes.
unfoldable mutual
  pub IsPlain : Json → Type 0
  IsPlain (number n) = n < u64_mod
  IsPlain (string s) = All IsPlainChar s
  IsPlain (array items) = ItemsPlain items
  IsPlain (object fields) = FieldsPlain fields
  IsPlain _ = Unit {0}

  pub ItemsPlain : Items → Type 0
  ItemsPlain nil = Unit {0}
  ItemsPlain (cons j items) = IsPlain j × ItemsPlain items

  pub FieldsPlain : Fields → Type 0
  FieldsPlain end = Unit {0}
  FieldsPlain (field k j fields) = All IsPlainChar k × IsPlain j × FieldsPlain fields

-- `serde_json::from_slice`, with its error as a text.
abbrev pub JsonParser : Type 0
JsonParser = List ℕ → Result (List ℕ) Json

-- It reads the text of a plain value as that value.
pub record Reads (parse : JsonParser) (j : Json) : Type 0 where
  pub reads : IsPlain j → parse (print j) ≡ ok j
