-- ===== src/Tests/ConfigProperty.antt =====
-- config/property.go at concrete files.
use go_infra.Prelude.{none, some, List, [], ◌∷◌, ◌++◌, ◌≡◌, refl, map}
use go_infra.Prelude.Text.{Text, codes, text_eq}
use go_infra.Prelude.Sort.{text_leb}
use go_infra.Prelude.Dict.{insert}
use go_infra.Config.Strings.{trim_space, ends_in_backslash, drop_last, cut, ends_well}
use go_infra.Config.Property.{
  PropertyStore, PropertyUsageValidator, set, load, load_line, is_skipped, validate_unused, used,
}
use go_infra.Config.Property.RoundTrip.{IsKey, IsValue, Entry, IsEntry, line, load-set_all}
use go_infra.Config.Property.Continued.{goes_on, load-continued}

abbrev empty : PropertyStore
empty = record { values = [] }

abbrev port : Entry
port = record {
  key = codes "app.port";
  value = codes "80 80";
  before_key = codes " ";
  after_key = codes "\t";
  before_value = codes "  ";
  after_value = codes " ";
}

abbrev blank : Entry
blank = record {
  key = codes "k";
  value = [];
  before_key = [];
  after_key = [];
  before_value = codes " ";
  after_value = [];
}

-- A file with a comment, a value over two lines, and a line with no key.
abbrev file : List Text
file = codes "# demo" ∷ codes "a = x\\" ∷ codes "  y" ∷ codes "= lost" ∷ codes "// b = 1" ∷ []

load-file : (load file none empty).0 ≡ record { values = (codes "a", codes "xy") ∷ [] }
unfolding load load_line trim_space ends_in_backslash drop_last cut set insert
load-file = refl

port-IsKey : IsKey (codes "app.port")
unfolding is_skipped ends_well
port-IsKey = record {
  present = refl;
  starts = refl;
  ends = refl;
  no_equals = (refl, (refl, (refl, (refl, (refl, (refl, (refl, (refl, tt))))))));
  no_comment = refl;
}

port-IsEntry : IsEntry port
unfolding ends_in_backslash ends_well
port-IsEntry = record {
  key = port-IsKey;
  value = record { starts = refl; ends = refl; complete = refl };
  before_key = (refl, tt);
  after_key = (refl, tt);
  before_value = (refl, (refl, tt));
  after_value = (refl, tt);
}

load-set_all_example :
    (load (line port ∷ []) none empty).0 ≡ set (codes "app.port") (codes "80 80") empty
load-set_all_example = load-set_all (port ∷ []) none empty (port-IsEntry, tt)

last_part : IsValue (codes "z")
unfolding ends_in_backslash ends_well
last_part = record { starts = refl; ends = refl; complete = refl }

load-continued_example :
    (load
      ((codes "app.port" ++ b'=' ∷ goes_on (codes " x "))
        ∷ (map goes_on (codes "y" ∷ []) ++ codes "z" ∷ []))
      none
      empty).0
    ≡ set (codes "app.port") (codes "x yz") empty
unfolding trim_space
load-continued_example =
    load-continued (codes "app.port") (codes " x ") (codes "y" ∷ []) (codes "z") none empty
      port-IsKey (refl, tt) last_part

-- The spaces U+3000 and U+00A0 are trimmed, and the bytes of other characters are not.
trim_unicode :
    trim_space (227 ∷ 128 ∷ 128 ∷ 226 ∷ 130 ∷ 172 ∷ 32 ∷ 194 ∷ 160 ∷ []) ≡ 226 ∷ 130 ∷ 172 ∷ []
unfolding trim_space
trim_unicode = refl

one_value : PropertyStore
one_value = record { values = (codes "a", codes "1") ∷ [] }

no_reads : PropertyUsageValidator
no_reads = record { used_keys = [] }

-- The error names the unused keys in order.
unused_sorted :
    validate_unused (codes "b" ∷ codes "a" ∷ []) no_reads ≡ some (codes "a" ∷ codes "b" ∷ [])
unfolding validate_unused no_reads text_leb used text_eq
unused_sorted = refl
