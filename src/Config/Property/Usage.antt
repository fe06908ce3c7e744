-- ===== src/Config/Property/Usage.antt =====
-- `PropertyUsageValidator` of config/property.go: the check passes exactly where every stored key
-- was read, and its error does not depend on the order of the map.
use mathlib.Core.List.{Perm, Permᴰ}
use mathlib.Core.Logic.{∥∥₁_elim}
use go_infra.Prelude.{
  true, false, ◌||◌, Option, none, some, List, [], ◌∷◌, ◌≡◌, ◌↔◌, Option-cases, refl, ap, sym, ◌∙◌,
  arith, inl, inr,
}
use go_infra.Prelude.Text.{Text, is_empty, text_eq_iff, text_eq_refl}
use go_infra.Prelude.Sort.{insert_sorted, sort_strings, insert_sorted_comm}
use go_infra.Config.Property.{
  PropertyStore, store_keys, PropertyUsageValidator, contains, used, unused_keys, validate_unused,
  PropertyRuntime, property, required_property, get, validate,
}

abbrev of_sorted : List Text → Option (List Text)
of_sorted [] = none
of_sorted (x ∷ xs) = some (x ∷ xs)

of_sorted-insert :
    (x : Text) (l : List Text) → of_sorted (insert_sorted x l) ≡ some (insert_sorted x l)
unfolding insert_sorted
of_sorted-insert x [] = refl
of_sorted-insert x (y ∷ ys) = ground arith

validate-sorted :
    (keys : List Text) (v : PropertyUsageValidator)
    → validate_unused keys v ≡ of_sorted (sort_strings (unused_keys v keys))
unfolding validate_unused sort_strings
validate-sorted keys v = go (unused_keys v keys) refl
  where
    go :
        (u : List Text)
        → unused_keys v keys ≡ u
        → validate_unused keys v ≡ of_sorted (sort_strings u)
    go [] e = rw (e, validate_unused)
    go (x ∷ xs) e = rw (e, validate_unused) (sym (of_sorted-insert x (sort_strings xs)))

sort_unused-perm :
    (v : PropertyUsageValidator) {xs ys : List Text}
    → Permᴰ xs ys
    → sort_strings (unused_keys v xs) ≡ sort_strings (unused_keys v ys)
unfolding unused_keys sort_strings
sort_unused-perm v Permᴰ.nil = refl
sort_unused-perm v (Permᴰ.cons {a} {b} {l₁} {l₂} e p) = ground (arith, sort_unused-perm v p)
sort_unused-perm v (Permᴰ.swap {a} {b} {a'} {b'} {l} e f) =
    ground (arith, insert_sorted_comm a b (sort_strings (unused_keys v l)))
sort_unused-perm v (Permᴰ.trans p q) = sort_unused-perm v p ∙ sort_unused-perm v q

-- The order in which Go ranges over the map changes nothing of the result.
pub validate_unused-perm :
    (xs ys : List Text) (v : PropertyUsageValidator)
    → Perm xs ys
    → validate_unused xs v ≡ validate_unused ys v
validate_unused-perm xs ys v p =
    ∥∥₁_elim p (hlevel)
      λ q. validate-sorted xs v ∙ ap of_sorted (sort_unused-perm v q) ∙ sym (validate-sorted ys v)

-- The keys that are read, one after another.
unfoldable pub read_all : List Text → PropertyRuntime → PropertyRuntime
read_all [] p = p
read_all (k ∷ ks) p = read_all ks (property k p).0

used-read_all :
    (ks : List Text) (k : Text) (p : PropertyRuntime)
    → used k (read_all ks p).validator ≡ (contains k ks || used k p.validator)
unfolding read_all property used contains
used-read_all [] k p = refl
used-read_all (j ∷ ks) k p = used-read_all ks k (property j p).0 ∙ ground arith

store-read_all : (ks : List Text) (p : PropertyRuntime) → (read_all ks p).store ≡ p.store
unfolding read_all property
store-read_all [] p = refl
store-read_all (k ∷ ks) p = store-read_all ks (property k p).0

all_used :
    (keys : List Text) (v : PropertyUsageValidator) (k : Text)
    → unused_keys v keys ≡ []
    → contains k keys ≡ true
    → used k v ≡ true
unfolding unused_keys contains
all_used [] v k e c = cc
all_used (x ∷ xs) v k e c = ground (arith, all_used xs v k, text_eq_iff x k)

none_unused :
    (keys : List Text) (v : PropertyUsageValidator)
    → ((k : Text) → contains k keys ≡ true → used k v ≡ true)
    → unused_keys v keys ≡ []
unfolding unused_keys contains
none_unused [] v h = refl
none_unused (x ∷ xs) v h =
    let rest = none_unused xs v (λ k c. h k (ground arith)) in ground (arith, h x, text_eq_refl x)

validate_iff :
    (keys : List Text) (v : PropertyUsageValidator)
    → (validate_unused keys v ≡ none) ↔ (unused_keys v keys ≡ [])
unfolding validate_unused
validate_iff keys v = go (unused_keys v keys) refl
  where
    go :
        (u : List Text)
        → unused_keys v keys ≡ u
        → (validate_unused keys v ≡ none) ↔ (unused_keys v keys ≡ [])
    go [] e = (λ h. e, λ h. rw (e, validate_unused))
    go (x ∷ xs) e = (λ h. cc (rw (e, validate_unused) at h), λ h. cc)

-- A fresh application over a loaded store.
abbrev pub fresh : PropertyStore → PropertyRuntime
fresh s = record { store = s; validator = record { used_keys = [] } }

used-fresh :
    (ks : List Text) (k : Text) (s : PropertyStore)
    → used k (read_all ks (fresh s)).validator ≡ contains k ks
unfolding used contains
used-fresh ks k s = used-read_all ks k (fresh s) ∙ ground arith

-- After the keys `ks` were read the check passes exactly if every stored key is among them.
pub validate-read_all :
    (ks : List Text) (s : PropertyStore)
    → (validate (read_all ks (fresh s)) ≡ none)
      ↔ ((k : Text) → contains k (store_keys s) ≡ true → contains k ks ≡ true)
unfolding validate
validate-read_all ks s = (
  λ h k c.
      sym (used-fresh ks k s)
      ∙ all_used (store_keys s) (read_all ks (fresh s)).validator k
          ((validate_iff _ _).0 (rw (store-read_all ks (fresh s)) at h)) c,
  λ h.
      rw (store-read_all ks (fresh s))
        ((validate_iff _ _).1 (none_unused (store_keys s) _ (λ k c. used-fresh ks k s ∙ h k c))),
)

-- A stored property that was not read fails the check.
pub validate-unread :
    (k : Text) (p : PropertyRuntime)
    → contains k (store_keys p.store) ≡ true
    → used k p.validator ≡ false
    → (unused : List Text) × (validate p ≡ some unused)
unfolding validate
validate-unread k p stored unread = elim (Option-cases (validate p)) [
  | inl e ↦
      absurd (
        let read = all_used (store_keys p.store) p.validator k ((validate_iff _ _).0 e) stored in
        cc)
  | inr (unused, e) ↦ (unused, e)
]

-- A required property that is there.
pub required_lem :
    (key : Text) (p : PropertyRuntime)
    → is_empty (get key p.store) ≡ false
    → required_property key p ≡ ((property key p).0, some (get key p.store))
unfolding required_property property
required_lem key p e = rw e refl
