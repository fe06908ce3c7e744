-- ===== src/Config/Property.antt =====
-- config/property.go: `PropertyStore`, its `Load`, `PropertyUsageValidator` and `PropertyRuntime`.
-- A file is the lines that `bufio.Scanner` gives of it, and the error that ends the scan, if any.
pub mod RoundTrip
pub mod Continued
pub mod Usage
use go_infra.Prelude.{
  ℕ, Bool, true, false, not, ◌&&◌, ◌||◌, Option, none, some, List, [], ◌∷◌, ◌++◌, ◌==◌, ltb,
  if◌then◌else◌,
}
use go_infra.Prelude.Text.{Text, codes, text_eq, is_empty}
use go_infra.Prelude.Sort.{sort_strings}
use go_infra.Prelude.Dict.{Dict, lookup, insert, keys}
use go_infra.Config.Strings.{trim_space, ends_in_backslash, drop_last, cut}

pub record PropertyStore : Type 0 where
  pub values : Dict Text

unfoldable pub new_property_store : PropertyStore
new_property_store = record { values = [] }

unfoldable pub set : Text → Text → PropertyStore → PropertyStore
set key value s = record { values = insert key value s.values }

-- A missing key reads as the empty string.
abbrev pub text_or_empty : Option Text → Text
text_or_empty none = []
text_or_empty (some v) = v

unfoldable pub get : Text → PropertyStore → Text
get key s = text_or_empty (lookup key s.values)

-- The order of a map is not specified: this is one of its orders.
unfoldable pub store_keys : PropertyStore → List Text
store_keys s = keys s.values

-- The variables of `Load`.
pub record Loader : Type 0 where
  pub store : PropertyStore
  pub key : Text
  pub value : Text
  pub is_multi_line : Bool

unfoldable pub add_property : Loader → Loader
unfolding set
add_property l = if is_empty l.key then l else record l {
  store = set (trim_space l.key) (trim_space l.value) l.store;
  key = [];
  value = [];
}

-- `line == "" || line[0] == '#' || strings.HasPrefix(line, "//")`
unfoldable pub is_skipped : Text → Bool
is_skipped [] = true
is_skipped (c ∷ []) = c == b'#'
is_skipped (c ∷ d ∷ ds) = c == b'#' || c == b'/' && d == b'/'

-- The loop body for a line in a value that goes on.
next_part : Text → Loader → Loader
unfolding add_property
next_part line l =
    if ends_in_backslash line
    then record l { value = l.value ++ drop_last line }
    else add_property (record l { value = l.value ++ line; is_multi_line = false })

new_entry : Option (Text × Text) → Loader → Loader
unfolding add_property
new_entry none l = l
new_entry (some (key, value)) l =
    if ends_in_backslash value
    then record l { key = key; value = drop_last value; is_multi_line = true }
    else add_property (record l { key = key; value = value })

-- The body of the loop, for a line of the scanner.
unfoldable pub load_line : Text → Loader → Loader
unfolding next_part new_entry is_skipped
load_line raw l =
    let line = trim_space raw in
    if l.is_multi_line
    then next_part line l
    else if is_skipped line
    then l
    else new_entry (cut line) l

unfoldable pub load_lines : List Text → Loader → Loader
load_lines [] l = l
load_lines (line ∷ lines) l = load_lines lines (load_line line l)

abbrev pub start : PropertyStore → Loader
start s = record { store = s; key = []; value = []; is_multi_line = false }

-- `Load`: the store afterwards, and whether the scanner failed.
unfoldable pub load : List Text → Option Text → PropertyStore → PropertyStore × Option Text
unfolding load_lines add_property
load lines failure s = (
  (add_property (load_lines lines (start s))).store,
  elim failure [ none ↦ none | some e ↦ some (codes "read property file: " ++ e) ],
)

-- `usedKeys`, with the order of the calls of `Add`.
pub record PropertyUsageValidator : Type 0 where
  pub used_keys : List Text

unfoldable pub add : Text → PropertyUsageValidator → PropertyUsageValidator
add key v = record { used_keys = key ∷ v.used_keys }

unfoldable pub contains : Text → List Text → Bool
contains key [] = false
contains key (k ∷ ks) = text_eq k key || contains key ks

unfoldable pub used : Text → PropertyUsageValidator → Bool
unfolding contains
used key v = contains key v.used_keys

unfoldable pub unused_keys : PropertyUsageValidator → List Text → List Text
unused_keys v [] = []
unused_keys v (key ∷ keys) =
    let rest = unused_keys v keys in if not (used key v) then key ∷ rest else rest

-- The error names the unused keys, in order.
unfoldable pub validate_unused : List Text → PropertyUsageValidator → Option (List Text)
unfolding unused_keys sort_strings
validate_unused keys v = elim (unused_keys v keys) [
  | [] ↦ none
  | key ∷ rest ↦ some (sort_strings (key ∷ rest))
]

pub record PropertyRuntime : Type 0 where
  pub store : PropertyStore
  pub validator : PropertyUsageValidator

unfoldable pub new_property_runtime : PropertyRuntime
unfolding new_property_store
new_property_runtime = record { store = new_property_store; validator = record { used_keys = [] } }

unfoldable pub property : Text → PropertyRuntime → PropertyRuntime × Text
unfolding add get
property key p = (record p { validator = add key p.validator }, get key p.store)

-- `none` is the panic "required property not found"; the key counts as used all the same.
unfoldable pub required_property : Text → PropertyRuntime → PropertyRuntime × Option Text
unfolding property
required_property key p =
    let (p', value) = property key p in if is_empty value then (p', none) else (p', some value)

unfoldable pub validate : PropertyRuntime → Option (List Text)
unfolding validate_unused store_keys
validate p = validate_unused (store_keys p.store) p.validator
