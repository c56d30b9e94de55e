-- ===== src/Prelude/Text.antt =====
-- Go's `strings.TrimSpace`, `strings.EqualFold` and `strings.Contains` on texts of code points.
use Prim.Native.Nat.{ℕ, ◌+◌, ◌-◌, ◌%◌, Ordering}
use Prim.Native.Char.{code}
use Prim.Native.String.{String, ◌++◌, compare}
use mathlib.Core.List.{List, [], ◌∷◌}
use mathlib.Core.Path.{◌≡◌, refl}
use mathlib.Core.Bool.{Bool, true, false, ◌&&◌, ◌||◌}
use text.Mathlib.Text.{◌==◌ as str_eq}
use adro.Prelude.Folds.{Run, runs}
use adro.Prelude.Tests.{leb, ◌==◌, if◌then◌else◌}

-- `unicode.IsSpace`
unfoldable pub is_space : ℕ → Bool
is_space c =
    (leb 9 c && leb c 13)
    || c == 0x20
    || c == 0x85
    || c == 0xA0
    || c == 0x1680
    || (leb 0x2000 c && leb c 0x200A)
    || c == 0x2028
    || c == 0x2029
    || c == 0x202F
    || c == 0x205F
    || c == 0x3000

trim_left : String → String
trim_left String.[] = ""
trim_left (String.◌∷◌ c s) =
    let rest = trim_left s in if is_space (code c) then rest else String.◌∷◌ c s

trim_right : String → String
trim_right String.[] = ""
trim_right (String.◌∷◌ c s) =
    let rest = trim_right s in if str_eq rest "" && is_space (code c) then "" else String.◌∷◌ c rest

unfoldable pub trim_space : String → String
unfolding trim_left trim_right is_space
trim_space s = trim_right (trim_left s)

-- `strings.TrimSpace(s) == ""`
unfoldable pub is_blank : String → Bool
unfolding trim_space
is_blank s = str_eq (trim_space s) ""

-- The first run that has the character folds it.
fold_in : List Run → ℕ → ℕ
fold_in [] c = c
fold_in (r ∷ rs) c =
    let later = fold_in rs c in
    if leb r.first c && leb c r.last && (c - r.first) % r.by == 0
    then r.onto + (c - r.first)
    else later

fold_char : ℕ → ℕ
unfolding fold_in
fold_char c = fold_in runs c

-- `strings.EqualFold`
unfoldable pub equal_fold : String → String → Bool
unfolding fold_char
equal_fold String.[] String.[] = true
equal_fold (String.◌∷◌ c s) (String.◌∷◌ d t) =
    fold_char (code c) == fold_char (code d) && equal_fold s t
equal_fold _ _ = false

has_prefix : String → String → Bool
has_prefix s String.[] = true
has_prefix (String.◌∷◌ c s) (String.◌∷◌ d t) = code c == code d && has_prefix s t
has_prefix String.[] (String.◌∷◌ d t) = false

unfoldable pub contains_text : String → String → Bool
unfolding has_prefix
contains_text String.[] t = has_prefix "" t
contains_text (String.◌∷◌ c s) t = has_prefix (String.◌∷◌ c s) t || contains_text s t

-- Go's `+` on strings.
infixl 65 ◌<>◌
unfoldable pub ◌<>◌ : String → String → String
s <> t = s ++ t

-- `s < t` on strings
unfoldable pub text_lt : String → String → Bool
text_lt s t = elim (compare s t) [ Ordering.lt ↦ true | _ ↦ false ]

unfoldable pub insert_text : String → List String → List String
unfolding text_lt
insert_text s [] = s ∷ []
insert_text s (t ∷ ts) = let rest = insert_text s ts in if text_lt t s then t ∷ rest else s ∷ t ∷ ts

-- `sort.Strings`
unfoldable pub sort_texts : List String → List String
unfolding insert_text
sort_texts [] = []
sort_texts (s ∷ ss) = insert_text s (sort_texts ss)

trims : trim_space "\t a b \n" ≡ "a b"
unfolding trim_space
trims = refl

blanks : is_blank " \n " ≡ true
unfolding is_blank
blanks = refl

folds : equal_fold "BuG ÄΣ" "bug äς" ≡ true
unfolding equal_fold
folds = refl
