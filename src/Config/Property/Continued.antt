-- ===== src/Config/Property/Continued.antt =====
-- Values of config/property.go that go over several lines: all but the last end in a backslash.
use mathlib.Core.List.{append-nil, append_assoc}
use go_infra.Prelude.{true, false, Option, List, [], ◌∷◌, ◌++◌, ◌≡◌, refl, ap, sym, ◌∙◌, All, map}
use go_infra.Prelude.Text.{Text}
use go_infra.Config.Strings.{
  trim_space, trim_right, ends_in_backslash, drop_last, starts_well, trim_left_well,
  trim_right_stop, trim_space-append, cut_first, ends_in_backslash-append,
}
use go_infra.Config.Property.{
  PropertyStore, set, Loader, add_property, is_skipped, next_part, new_entry, load_line, load_lines,
  start, load,
}
use go_infra.Config.Property.RoundTrip.{IsKey, IsValue, trim_line, not_skipped, trim_key}

-- A line that goes on: its part of the value, and the backslash.
abbrev pub goes_on : Text → Text
goes_on part = part ++ b'\\' ∷ []

abbrev pub concat : List Text → Text
concat [] = []
concat (x ∷ xs) = x ++ concat xs

goes_on_backslash : (s : Text) → ends_in_backslash (goes_on s) ≡ true
goes_on_backslash s = ends_in_backslash-append s b'\\' [] ∙ (unfold ends_in_backslash in refl)

drop_last-goes_on : (s : Text) → drop_last (goes_on s) ≡ s
unfolding drop_last
drop_last-goes_on [] = refl
drop_last-goes_on (c ∷ []) = refl
drop_last-goes_on (c ∷ d ∷ ds) = ap (◌∷◌ c) (drop_last-goes_on (d ∷ ds))

trim_right-goes_on : (s : Text) → trim_right (goes_on s) ≡ goes_on s
trim_right-goes_on s = trim_right_stop s b'\\' [] refl refl ∙ (unfold trim_right in refl)

trim-goes_on : (s : Text) → starts_well (goes_on s) ≡ true → trim_space (goes_on s) ≡ goes_on s
unfolding trim_space
trim-goes_on s h = ap trim_right (trim_left_well (goes_on s) h) ∙ trim_right-goes_on s

line_goes_on :
    (part : Text) (l : Loader)
    → starts_well (goes_on part) ≡ true
    → l.is_multi_line ≡ true
    → load_line (goes_on part) l ≡ record l { value = l.value ++ part }
unfolding load_line next_part
line_goes_on part l h m =
    rw (m, load_line)
      (rw (trim-goes_on part h)
        (rw (goes_on_backslash part, next_part) (rw (drop_last-goes_on part) refl)))

line_ends :
    (last : Text) (l : Loader)
    → IsValue last
    → l.is_multi_line ≡ true
    → load_line last l ≡ add_property (record l { value = l.value ++ last; is_multi_line = false })
unfolding load_line next_part
line_ends last l i m =
    let trimmed : trim_space last ≡ last =
      ap trim_space (sym (append-nil last)) ∙ trim_space-append [] last [] tt tt i.starts i.ends in
    rw (m, load_line) (rw trimmed (rw (i.complete, next_part) refl))

lines_go_on :
    (parts : List Text) (last : Text) (l : Loader)
    → All (λ part. starts_well (goes_on part) ≡ true) parts
    → IsValue last
    → l.is_multi_line ≡ true
    → load_lines (map goes_on parts ++ last ∷ []) l
      ≡ add_property (record l { value = l.value ++ (concat parts ++ last); is_multi_line = false })
unfolding load_lines
lines_go_on [] last l h i m = line_ends last l i m
lines_go_on (p ∷ ps) last l h i m =
    ap (load_lines (map goes_on ps ++ last ∷ [])) (line_goes_on p l h.0 m)
    ∙ lines_go_on ps last (record l { value = l.value ++ p }) h.1 i m
    ∙ ap (λ (v : Text). add_property (record l { value = v; is_multi_line = false }))
        (append_assoc l.value p (concat ps ++ last)
          ∙ ap (◌++◌ l.value) (sym (append_assoc p (concat ps) last)))

first_line :
    (k part : Text) (l : Loader)
    → IsKey k
    → l.is_multi_line ≡ false
    → load_line (k ++ b'=' ∷ goes_on part) l
      ≡ record l { key = k; value = part; is_multi_line = true }
unfolding load_line new_entry
first_line k part l i m =
    let trimmed : trim_space (k ++ b'=' ∷ goes_on part) ≡ k ++ b'=' ∷ trim_right (goes_on part) =
      rw (append-nil k) at (trim_line k [] (goes_on part) i tt [] tt) in
    let kept : is_skipped (k ++ b'=' ∷ goes_on part) ≡ false =
      rw (append-nil k) at (not_skipped k [] (goes_on part) i tt) in
    rw (m, load_line)
      (rw (trimmed, trim_right-goes_on part, kept, load_line)
        (rw (cut_first k (goes_on part) i.no_equals, new_entry)
          (rw (goes_on_backslash part, new_entry) (rw (drop_last-goes_on part) refl))))

add_twice :
    (k v : Text) (s : PropertyStore)
    → IsKey k
    → (add_property
        (add_property (record { store = s; key = k; value = v; is_multi_line = false }))).store
      ≡ set k (trim_space v) s
unfolding add_property
add_twice k v s i =
    let trimmed : trim_space k ≡ k = rw (append-nil k) at (trim_key k [] i tt) in
    rw (i.present, add_property) (rw trimmed refl)

-- A line of a key, an equals sign and a part that ends in a backslash, lines that are parts with a
-- backslash behind them, and a last line set the key to all the parts joined, with the white space at
-- the ends of the whole trimmed, whether or not the scanner failed after them. The key is not empty,
-- has no white space at its ends, no `=` in it and begins no comment; no line after the first begins
-- with white space, and the last line has none at its end either, and no backslash.
pub load-continued :
    (k part : Text) (parts : List Text) (last : Text) (failure : Option Text) (s : PropertyStore)
    → IsKey k
    → All (λ part. starts_well (goes_on part) ≡ true) parts
    → IsValue last
    → (load ((k ++ b'=' ∷ goes_on part) ∷ (map goes_on parts ++ last ∷ [])) failure s).0
      ≡ set k (trim_space (part ++ (concat parts ++ last))) s
unfolding load load_lines
load-continued k part parts last failure s i h v =
    ap (λ (l : Loader). (add_property l).store)
      (ap (load_lines (map goes_on parts ++ last ∷ [])) (first_line k part (start s) i refl)
        ∙ lines_go_on parts last (record (start s) { key = k; value = part; is_multi_line = true })
            h v refl)
    ∙ add_twice k (part ++ (concat parts ++ last)) s i
