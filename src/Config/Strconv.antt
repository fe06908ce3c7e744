-- ===== src/Config/Strconv.antt =====
-- What the components use of package strconv to read a property. `none` is an error.
use go_infra.Prelude.{
  ℕ, zero, suc, ◌+◌, ◌-◌, ◌*◌, ◌^◌, ◌==◌, leb, Bool, true, false, ◌&&◌, ◌||◌, Option, none, some,
  List, [], ◌∷◌, if◌then◌else◌,
}
use go_infra.Prelude.Text.{Text, codes, text_eq}
use go_infra.Prelude.Int.{ℤ, pos, negsuc}

-- `strconv.Atoi`: a sign or none, at least one digit, and 64 bits.
abbrev digits : Text → ℕ → Option ℕ
digits [] n = some n
digits (c ∷ cs) n =
    let rest = digits cs (10 * n + (c - b'0')) in if leb b'0' c && leb c b'9' then rest else none

abbrev digits_of : Text → Option ℕ
digits_of [] = none
digits_of (c ∷ cs) = digits (c ∷ cs) 0

abbrev negated : ℕ → ℤ
negated zero = pos zero
negated (suc n) = negsuc n

abbrev up_to : ℕ → (ℕ → ℤ) → Option ℕ → Option ℤ
up_to limit f none = none
up_to limit f (some n) = if leb n limit then some (f n) else none

unfoldable pub atoi : Text → Option ℤ
atoi [] = none
atoi (c ∷ cs) =
    if c == b'-'
    then up_to (2 ^ 63) negated (digits_of cs)
    else up_to (2 ^ 63 - 1) pos (if c == b'+' then digits_of cs else digits_of (c ∷ cs))

-- `strconv.ParseUint` with base 10 and 64 bits: digits only.
unfoldable pub parse_uint : Text → Option ℕ
parse_uint s = elim (digits_of s) [
  | none ↦ none
  | some n ↦ if leb n (2 ^ 64 - 1) then some n else none
]

-- `strconv.ParseBool`
unfoldable pub parse_bool : Text → Option Bool
parse_bool s =
    if is_one_of s true_texts
    then some true
    else if is_one_of s false_texts
    then some false
    else none
  where
    is_one_of : Text → List Text → Bool
    is_one_of s [] = false
    is_one_of s (t ∷ ts) = text_eq s t || is_one_of s ts

    true_texts : List Text
    true_texts = codes "1" ∷ codes "t" ∷ codes "T" ∷ codes "TRUE" ∷ codes "true" ∷ codes "True" ∷ []

    false_texts : List Text
    false_texts =
        codes "0" ∷ codes "f" ∷ codes "F" ∷ codes "FALSE" ∷ codes "false" ∷ codes "False" ∷ []
