-- ===== src/Config/Strings.antt =====
-- The functions of package strings that config/property.go uses, on bytes. The spaces are those of
-- `unicode.IsSpace`, in UTF-8.
use mathlib.Core.List.{append-nil, append_assoc}
use go_infra.Prelude.{
  ℕ, Bool, true, false, not, ◌&&◌, ◌||◌, Option, none, some, [], ◌∷◌, ◌++◌, ◌≡◌, refl, ap, ◌∙◌,
  arith, ◌==◌, zero, suc, leb, ltb, if◌then◌else◌, All, All-append, sym,
}
use go_infra.Prelude.Text.{Text}

-- A space of one byte, and of two and three: U+0085 and U+00A0; U+1680, U+2000 to U+200A, U+2028,
-- U+2029, U+202F, U+205F and U+3000.
abbrev pub is_space : ℕ → Bool
is_space c = c == b' ' || leb b'\t' c && leb c b'\r'

abbrev pub is_space2 : ℕ → ℕ → Bool
is_space2 c d = c == 194 && (d == 133 || d == 160)

abbrev pub is_space3 : ℕ → ℕ → ℕ → Bool
is_space3 c d e =
    c == 225 && d == 154 && e == 128
    || c == 226 && d == 128 && (leb 128 e && leb e 138 || e == 168 || e == 169 || e == 175)
    || c == 226 && d == 129 && e == 159
    || c == 227 && d == 128 && e == 128

-- How many bytes the space at the start of a text has; 0 where there is none.
abbrev pub space_width : Text → ℕ
space_width [] = 0
space_width (c ∷ []) = if is_space c then 1 else 0
space_width (c ∷ d ∷ []) = if is_space c then 1 else if is_space2 c d then 2 else 0
space_width (c ∷ d ∷ e ∷ es) =
    if is_space c then 1 else if is_space2 c d then 2 else if is_space3 c d e then 3 else 0

-- `TrimLeftFunc` behind `n` bytes of a space.
trim_from : ℕ → Text → Text
trim_from n [] = []
trim_from (suc n) (c ∷ cs) = trim_from n cs
trim_from zero (c ∷ cs) = elim (space_width (c ∷ cs)) [ zero ↦ c ∷ cs | suc n ↦ trim_from n cs ]

unfoldable pub trim_left : Text → Text
unfolding trim_from
trim_left s = trim_from 0 s

-- A byte before a text with no space at its end: gone where the two are one space.
abbrev pub keep_right : ℕ → Text → Text
keep_right c [] = if is_space c then [] else c ∷ []
keep_right c (d ∷ []) = if is_space2 c d then [] else c ∷ d ∷ []
keep_right c (d ∷ e ∷ []) = if is_space3 c d e then [] else c ∷ d ∷ e ∷ []
keep_right c (d ∷ e ∷ f ∷ r) = c ∷ d ∷ e ∷ f ∷ r

unfoldable pub trim_right : Text → Text
trim_right [] = []
trim_right (c ∷ cs) = keep_right c (trim_right cs)

unfoldable pub trim_space : Text → Text
unfolding trim_left trim_right
trim_space s = trim_right (trim_left s)

-- `strings.HasSuffix(s, "\\")`
unfoldable pub ends_in_backslash : Text → Bool
ends_in_backslash [] = false
ends_in_backslash (c ∷ []) = c == b'\\'
ends_in_backslash (c ∷ d ∷ ds) = ends_in_backslash (d ∷ ds)

-- `s[:len(s)-1]` of a text that is not empty
unfoldable pub drop_last : Text → Text
drop_last [] = []
drop_last (c ∷ []) = []
drop_last (c ∷ d ∷ ds) = c ∷ drop_last (d ∷ ds)

-- `line[:index]` and `line[index+1:]` for the index of the first `=`; none for the index -1.
unfoldable pub cut : Text → Option (Text × Text)
cut [] = none
cut (c ∷ cs) =
    let rest = cut cs in
    if c == b'='
    then some ([], cs)
    else elim rest [ none ↦ none | some (before, after) ↦ some (c ∷ before, after) ]

-- Texts with no space at their start, and with none at their end.
abbrev pub starts_well : Text → Bool
starts_well s = space_width s == 0

unfoldable pub ends_well : Text → Bool
ends_well [] = true
ends_well (c ∷ []) = not (is_space c)
ends_well (c ∷ d ∷ []) = not (is_space d) && not (is_space2 c d)
ends_well (c ∷ d ∷ e ∷ []) = not (is_space e) && not (is_space2 d e) && not (is_space3 c d e)
ends_well (c ∷ d ∷ e ∷ f ∷ r) = ends_well (d ∷ e ∷ f ∷ r)

-- Spaces of one byte.
abbrev pub IsBlank : Text → Type 0
IsBlank = All (λ c. is_space c ≡ true)

-- A text that is empty or starts with a character of ASCII.
abbrev pub starts_in_ascii : Text → Bool
starts_in_ascii [] = true
starts_in_ascii (c ∷ cs) = ltb c 128

pub IsBlank-starts_in_ascii : (b : Text) → IsBlank b → starts_in_ascii b ≡ true
IsBlank-starts_in_ascii [] h = refl
IsBlank-starts_in_ascii (c ∷ cs) h = ground (arith, h.0)

-- What begins in ASCII makes no space of the bytes before it.
pub space_width-append :
    (c : ℕ) (cs t : Text)
    → starts_in_ascii t ≡ true
    → starts_well (c ∷ cs) ≡ true
    → starts_well (c ∷ (cs ++ t)) ≡ true
space_width-append c [] [] a h = h
space_width-append c [] (x ∷ []) a h = ground arith
space_width-append c [] (x ∷ y ∷ t) a h = ground arith
space_width-append c (d ∷ []) [] a h = h
space_width-append c (d ∷ []) (x ∷ t) a h = ground arith
space_width-append c (d ∷ e ∷ es) t a h = h

ends_well-tail : (c : ℕ) (s : Text) → ends_well (c ∷ s) ≡ true → ends_well s ≡ true
unfolding ends_well
ends_well-tail c [] h = refl
ends_well-tail c (d ∷ []) h = ground arith
ends_well-tail c (d ∷ e ∷ []) h = ground arith
ends_well-tail c (d ∷ e ∷ f ∷ r) h = h

keep_right_well : (c : ℕ) (s : Text) → ends_well (c ∷ s) ≡ true → keep_right c s ≡ c ∷ s
unfolding ends_well
keep_right_well c [] h = ground arith
keep_right_well c (d ∷ []) h = ground arith
keep_right_well c (d ∷ e ∷ []) h = ground arith
keep_right_well c (d ∷ e ∷ f ∷ r) h = refl

pub trim_left_well : (s : Text) → starts_well s ≡ true → trim_left s ≡ s
unfolding trim_left trim_from
trim_left_well [] h = refl
trim_left_well (c ∷ cs) h = ground arith

pub trim_right_blank : (b : Text) → IsBlank b → trim_right b ≡ []
unfolding trim_right
trim_right_blank [] h = refl
trim_right_blank (c ∷ cs) h = ground (arith, trim_right_blank cs)

pub trim_right-append : (s b : Text) → ends_well s ≡ true → IsBlank b → trim_right (s ++ b) ≡ s
unfolding trim_right
trim_right-append [] b e h = trim_right_blank b h
trim_right-append (c ∷ s) b e h =
    ap (keep_right c) (trim_right-append s b (ends_well-tail c s e) h) ∙ keep_right_well c s e

space_width_space : (c : ℕ) (s : Text) → is_space c ≡ true → space_width (c ∷ s) ≡ 1
space_width_space c [] h = ground arith
space_width_space c (d ∷ []) h = ground arith
space_width_space c (d ∷ e ∷ es) h = ground arith

pub trim_left-append : (b s : Text) → IsBlank b → trim_left (b ++ s) ≡ trim_left s
unfolding trim_left trim_from
trim_left-append [] s h = refl
trim_left-append (c ∷ cs) s h =
    rw (space_width_space c (cs ++ s) h.0, trim_from) (trim_left-append cs s h.1)

-- A character of ASCII begins the text that tells whether a space ends it.
pub ends_well-append :
    (s : Text) (c : ℕ) (t : Text) → ltb c 128 ≡ true → ends_well (s ++ c ∷ t) ≡ ends_well (c ∷ t)
unfolding ends_well
ends_well-append [] c t a = refl
ends_well-append (x ∷ []) c [] a = ground arith
ends_well-append (x ∷ []) c (d ∷ []) a = ground arith
ends_well-append (x ∷ []) c (d ∷ e ∷ t) a = refl
ends_well-append (x ∷ y ∷ []) c [] a = ground arith
ends_well-append (x ∷ y ∷ []) c (d ∷ t) a = ends_well-append (y ∷ []) c (d ∷ t) a
ends_well-append (x ∷ y ∷ z ∷ []) c t a = ends_well-append (y ∷ z ∷ []) c t a
ends_well-append (x ∷ y ∷ z ∷ u ∷ s) c t a = ends_well-append (y ∷ z ∷ u ∷ s) c t a

ends_well-space :
    (x c : ℕ) (cs : Text) → is_space x ≡ true → ends_well (x ∷ c ∷ cs) ≡ ends_well (c ∷ cs)
unfolding ends_well
ends_well-space x c [] h = ground arith
ends_well-space x c (d ∷ []) h = ground arith
ends_well-space x c (d ∷ e ∷ es) h = refl

pub ends_well-blank :
    (b : Text) (c : ℕ) (cs : Text) → IsBlank b → ends_well (b ++ c ∷ cs) ≡ ends_well (c ∷ cs)
ends_well-blank [] c cs h = refl
ends_well-blank (x ∷ []) c cs h = ends_well-space x c cs h.0
ends_well-blank (x ∷ y ∷ b) c cs h =
    ends_well-space x y (b ++ c ∷ cs) h.0 ∙ ends_well-blank (y ∷ b) c cs h.1

-- Blanks on both sides are trimmed away, and nothing else.
pub trim_space-append :
    (b s b' : Text)
    → IsBlank b
    → IsBlank b'
    → starts_well s ≡ true
    → ends_well s ≡ true
    → trim_space (b ++ (s ++ b')) ≡ s
unfolding trim_space
trim_space-append b [] b' l r p q = ap trim_right (trim_left-append b b' l ∙ trim_left_blank b' r)
  where
    trim_left_blank : (b : Text) → IsBlank b → trim_left b ≡ []
    trim_left_blank b h =
        ap trim_left (sym (append-nil b)) ∙ trim_left-append b [] h ∙ trim_left_well [] refl
trim_space-append b (c ∷ cs) b' l r p q =
    ap trim_right (
      trim_left-append b (c ∷ (cs ++ b')) l
      ∙ trim_left_well (c ∷ (cs ++ b'))
          (space_width-append c cs b' (IsBlank-starts_in_ascii b' r) p))
    ∙ trim_right-append (c ∷ cs) b' q r

keep_right_ascii :
    (c : ℕ) (r : Text) → is_space c ≡ false → ltb c 128 ≡ true → keep_right c r ≡ c ∷ r
keep_right_ascii c [] h a = ground arith
keep_right_ascii c (d ∷ []) h a = ground arith
keep_right_ascii c (d ∷ e ∷ []) h a = ground arith
keep_right_ascii c (d ∷ e ∷ f ∷ r) h a = refl

keep_right_before :
    (x c : ℕ) (s t : Text) → ltb c 128 ≡ true → keep_right x (s ++ c ∷ t) ≡ x ∷ (s ++ c ∷ t)
keep_right_before x c [] [] a = ground arith
keep_right_before x c [] (d ∷ []) a = ground arith
keep_right_before x c [] (d ∷ e ∷ t) a = refl
keep_right_before x c (d ∷ []) [] a = ground arith
keep_right_before x c (d ∷ []) (e ∷ t) a = refl
keep_right_before x c (d ∷ e ∷ []) t a = refl
keep_right_before x c (d ∷ e ∷ f ∷ s) t a = refl

-- Trimming on the right stops at a character of ASCII that is no space.
pub trim_right_stop :
    (s : Text) (c : ℕ) (t : Text)
    → is_space c ≡ false
    → ltb c 128 ≡ true
    → trim_right (s ++ c ∷ t) ≡ s ++ c ∷ trim_right t
unfolding trim_right
trim_right_stop [] c t h a = keep_right_ascii c (trim_right t) h a
trim_right_stop (x ∷ xs) c t h a =
    ap (keep_right x) (trim_right_stop xs c t h a) ∙ keep_right_before x c xs (trim_right t) a

-- A value with blanks around it, trimmed on the right first.
pub trim_space-trim_right :
    (b s b' : Text)
    → IsBlank b
    → IsBlank b'
    → starts_well s ≡ true
    → ends_well s ≡ true
    → trim_space (trim_right (b ++ (s ++ b'))) ≡ s
trim_space-trim_right b [] b' l r p q =
    ap trim_space (trim_right_blank (b ++ b') (All-append _ b b' l r))
    ∙ (unfold trim_space trim_left trim_from trim_right in refl)
trim_space-trim_right b (c ∷ cs) b' l r p q =
    ap trim_space (
      ap trim_right (sym (append_assoc b (c ∷ cs) b'))
      ∙ trim_right-append (b ++ c ∷ cs) b' (ends_well-blank b c cs l ∙ q) r
      ∙ ap (◌++◌ b) (sym (append-nil (c ∷ cs))))
    ∙ trim_space-append b (c ∷ cs) [] l tt p q

-- The first `=` is behind the key.
abbrev pub HasNoEquals : Text → Type 0
HasNoEquals = All (λ c. (c == b'=') ≡ false)

pub cut_first : (s t : Text) → HasNoEquals s → cut (s ++ b'=' ∷ t) ≡ some (s, t)
unfolding cut
cut_first [] t h = refl
cut_first (c ∷ cs) t h = ground (arith, cut_first cs t)

pub ends_in_backslash-append :
    (s : Text) (c : ℕ) (t : Text) → ends_in_backslash (s ++ c ∷ t) ≡ ends_in_backslash (c ∷ t)
unfolding ends_in_backslash
ends_in_backslash-append [] c t = refl
ends_in_backslash-append (x ∷ []) c t = refl
ends_in_backslash-append (x ∷ y ∷ ys) c t = ends_in_backslash-append (y ∷ ys) c t
