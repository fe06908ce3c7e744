-- ===== src/Config/Loading.antt =====
-- How the components of the program read their settings from the properties, one after another.
use mathlib.Core.Option.{some_inj}
use go_infra.Prelude.{
  Option, none, some, List, ◌≡◌, refl, sym, ap, ◌∙◌, if◌then◌else◌, Bool-cases, inl, inr,
}
use go_infra.Prelude.Text.{Text, is_empty}
use go_infra.Config.Property.{PropertyRuntime, property, get}

-- A component with what its configuration works on: the properties, and the hosts of the probe.
pub record Loading (C : Type 0) : Type 0 where
  pub component : C
  pub property : PropertyRuntime
  pub host_uris : List Text

-- The setting of one property, and that of one that is parsed unless it is empty.
abbrev pub load_text : {C : Type 0} → Text → (Text → C → C) → Loading C → Loading C
load_text key setter l =
    let (p, value) = property key l.property in
    record l { property = p; component = setter value l.component }

abbrev pub set_parsed : {C A : Type 0} → Option A → (A → C → C) → Loading C → Option (Loading C)
set_parsed none setter l = none
set_parsed (some a) setter l = some (record l { component = setter a l.component })

abbrev pub load_parsed :
    {C A : Type 0} → (Text → Option A) → Text → (A → C → C) → Loading C → Option (Loading C)
load_parsed parse key setter l =
    let (p, value) = property key l.property in
    let l' = record l { property = p } in
    if is_empty value then some l' else set_parsed (parse value) setter l'

-- The value of a setting: the old one where the property is empty or missing.
abbrev pub setting : {A : Type 0} → (Text → Option A) → A → Text → Option A
setting parse old value = if is_empty value then some old else parse value

pub load_parsed_lem :
    {C A : Type 0} (parse : Text → Option A) (key : Text) (setter : A → C → C) (l : Loading C)
    (old a : A)
    → setter old l.component ≡ l.component
    → setting parse old (get key l.property.store) ≡ some a
    → load_parsed parse key setter l
      ≡ some (record l { property = (property key l.property).0; component = setter a l.component })
unfolding property
load_parsed_lem {C} {A} parse key setter l old a same s =
    elim (Bool-cases (is_empty (get key l.property.store))) [
      | inl e ↦
          let kept : old ≡ a = some_inj.0 (rw e at s) in
          rw e (
            ap
              (λ (c : C). some (record l { property = (property key l.property).0; component = c }))
              (sym same ∙ ap (λ (x : A). setter x l.component) kept))
      | inr e ↦
          let parsed : parse (get key l.property.store) ≡ some a = rw e at s in rw (e, parsed) refl
    ]
