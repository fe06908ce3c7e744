-- ===== src/Config/Property/RoundTrip.antt =====
-- What `PropertyStore.Load` of config/property.go reads back: every `key = value` line, whatever
-- blanks stand around the key, the equals sign and the value.
use mathlib.Core.List.{append_assoc}
use go_infra.Prelude.{
  true, false, Option, List, [], ◌∷◌, ◌++◌, ◌≡◌, refl, ap, sym, subst, ◌∙◌, arith, All, All-append,
  map,
}
use go_infra.Prelude.Text.{Text, is_empty}
use go_infra.Config.Strings.{
  trim_space, trim_right, ends_in_backslash, cut, starts_well, ends_well, IsBlank, HasNoEquals,
  trim_left_well, trim_left-append, trim_right-append, trim_right_blank, trim_space-append,
  trim_right_stop, trim_space-trim_right, cut_first, ends_in_backslash-append, ends_well-blank,
  space_width-append, starts_in_ascii, IsBlank-starts_in_ascii,
}
use go_infra.Config.Property.{
  PropertyStore, set, Loader, add_property, is_skipped, new_entry, load_line, load_lines, start,
  load,
}

-- A key that a line can start with: no white space at its ends, no `=`, and no comment.
pub record IsKey (k : Text) : Type 0 where
  pub present : is_empty k ≡ false
  pub starts : starts_well k ≡ true
  pub ends : ends_well k ≡ true
  pub no_equals : HasNoEquals k
  pub no_comment : is_skipped k ≡ false

-- A value that ends on its line: no white space of `unicode.IsSpace` at its ends, and no backslash behind it.
pub record IsValue (v : Text) : Type 0 where
  pub starts : starts_well v ≡ true
  pub ends : ends_well v ≡ true
  pub complete : ends_in_backslash v ≡ false

-- A line, and the blanks in it.
pub record Entry : Type 0 where
  pub key : Text
  pub value : Text
  pub before_key : Text
  pub after_key : Text
  pub before_value : Text
  pub after_value : Text

pub record IsEntry (e : Entry) : Type 0 where
  pub key : IsKey e.key
  pub value : IsValue e.value
  pub before_key : IsBlank e.before_key
  pub after_key : IsBlank e.after_key
  pub before_value : IsBlank e.before_value
  pub after_value : IsBlank e.after_value

abbrev pub value_text : Entry → Text
value_text e = e.before_value ++ (e.value ++ e.after_value)

abbrev pub line : Entry → Text
line e = e.before_key ++ ((e.key ++ e.after_key) ++ b'=' ∷ value_text e)

blank_then_equals : (s t : Text) → IsBlank s → starts_in_ascii (s ++ b'=' ∷ t) ≡ true
blank_then_equals [] t h = refl
blank_then_equals (c ∷ cs) t h = IsBlank-starts_in_ascii (c ∷ []) (h.0, tt)

pub trim_line :
    (k b t : Text)
    → IsKey k
    → IsBlank b
    → (s : Text) → IsBlank s
    → trim_space (b ++ ((k ++ s) ++ b'=' ∷ t)) ≡ (k ++ s) ++ b'=' ∷ trim_right t
unfolding trim_space
trim_line [] b t i h s h' = cc i.present
trim_line (c ∷ cs) b t i h s h' =
    ap trim_right (
      trim_left-append b (c ∷ ((cs ++ s) ++ b'=' ∷ t)) h
      ∙ trim_left_well (c ∷ ((cs ++ s) ++ b'=' ∷ t)) (
          subst (λ (l : Text). starts_well (c ∷ l) ≡ true) (sym (append_assoc cs s (b'=' ∷ t)))
            (space_width-append c cs (s ++ b'=' ∷ t) (blank_then_equals s t h') i.starts)))
    ∙ trim_right_stop (c ∷ (cs ++ s)) b'=' t refl refl

pub not_skipped : (k s t : Text) → IsKey k → IsBlank s → is_skipped ((k ++ s) ++ b'=' ∷ t) ≡ false
unfolding is_skipped
not_skipped [] s t i h = cc i.present
not_skipped (c ∷ []) [] t i h = ground (arith, i.no_comment)
not_skipped (c ∷ []) (d ∷ ds) t i h = ground (arith, i.no_comment, h.0)
not_skipped (c ∷ d ∷ ds) s t i h = ground (arith, i.no_comment)

blank_no_equals : (s : Text) → IsBlank s → HasNoEquals s
blank_no_equals [] h = tt
blank_no_equals (c ∷ cs) h = (ground (arith, h.0), blank_no_equals cs h.1)

value_complete :
    (b v b' : Text)
    → IsBlank b
    → IsBlank b'
    → IsValue v
    → ends_in_backslash (trim_right (b ++ (v ++ b'))) ≡ false
value_complete b [] b' h h' i =
    ap ends_in_backslash (trim_right_blank (b ++ b') (All-append _ b b' h h'))
    ∙ (unfold ends_in_backslash in refl)
value_complete b (c ∷ cs) b' h h' i =
    ap ends_in_backslash (
      ap trim_right (sym (append_assoc b (c ∷ cs) b'))
      ∙ trim_right-append (b ++ c ∷ cs) b' (ends_well-blank b c cs h ∙ i.ends) h')
    ∙ ends_in_backslash-append b c cs
    ∙ i.complete

pub trim_key : (k s : Text) → IsKey k → IsBlank s → trim_space (k ++ s) ≡ k
trim_key k s i h = trim_space-append [] k s tt h i.starts i.ends

key_present : (k s : Text) → is_empty k ≡ false → is_empty (k ++ s) ≡ false
key_present [] s h = cc
key_present (c ∷ cs) s h = refl

-- The state of the loop after an entry.
abbrev pub after : Entry → Loader → Loader
after e l = record l { store = set e.key e.value l.store; key = []; value = [] }

stored :
    (e : Entry) (l : Loader)
    → IsEntry e
    → l.is_multi_line ≡ false
    → add_property (record l { key = e.key ++ e.after_key; value = trim_right (value_text e) })
      ≡ after e l
unfolding add_property
stored e l i m =
    rw (key_present e.key e.after_key i.key.present, add_property)
      (rw (trim_key e.key e.after_key i.key i.after_key) (
        rw
          (trim_space-trim_right e.before_value e.value e.after_value i.before_value i.after_value
            i.value.starts i.value.ends)
          refl))

entered :
    (e : Entry) (l : Loader)
    → IsEntry e
    → l.is_multi_line ≡ false
    → new_entry (cut ((e.key ++ e.after_key) ++ b'=' ∷ trim_right (value_text e))) l ≡ after e l
unfolding new_entry
entered e l i m =
    rw
      (
        cut_first (e.key ++ e.after_key) (trim_right (value_text e)) (
            All-append _ e.key e.after_key i.key.no_equals
              (blank_no_equals e.after_key i.after_key)),
        new_entry,
      )
      (rw
        (
          value_complete e.before_value e.value e.after_value i.before_value i.after_value i.value,
          new_entry,
        )
        (stored e l i m))

pub load_line-entry :
    (e : Entry) (l : Loader)
    → IsEntry e
    → l.is_multi_line ≡ false
    → load_line (line e) l ≡ after e l
unfolding load_line
load_line-entry e l i m =
    rw (m, load_line)
      (rw
        (
          trim_line e.key e.before_key (value_text e) i.key i.before_key e.after_key i.after_key,
          load_line,
        )
        (rw (not_skipped e.key e.after_key (trim_right (value_text e)) i.key i.after_key, load_line)
          (entered e (record l { is_multi_line = false }) i refl)))

-- The entries of a file, set one after another.
abbrev pub set_all : List Entry → PropertyStore → PropertyStore
set_all [] s = s
set_all (e ∷ es) s = set_all es (set e.key e.value s)

load_lines-entries :
    (es : List Entry) (s : PropertyStore)
    → All IsEntry es
    → load_lines (map line es) (start s) ≡ start (set_all es s)
unfolding load_lines
load_lines-entries [] s h = refl
load_lines-entries (e ∷ es) s h =
    ap (load_lines (map line es)) (load_line-entry e (start s) h.0 refl)
    ∙ load_lines-entries es (set e.key e.value s) h.1

-- A file of entries, each `key = value` on a line of its own with any ASCII blanks around the key,
-- the equals sign and the value, sets each value under its key, in order, whether or not the scanner
-- failed after them. Of an entry neither the key nor the value has white space of Unicode at its ends;
-- the key is not empty, has no `=` in it and does not begin a comment, and the value does not end in a
-- backslash.
pub load-set_all :
    (es : List Entry) (failure : Option Text) (s : PropertyStore)
    → All IsEntry es
    → (load (map line es) failure s).0 ≡ set_all es s
unfolding load add_property
load-set_all es failure s h = rw (load_lines-entries es s h)
