-- ===== src/Orchestration/Value.antt =====
-- Values of Go's type `any` that reach the orchestration: JSON values and the numbers and string
-- lists that Go code puts into result fields. A nil slice and an empty one are not told apart.
use adro.Prelude.{
  ℕ, zero, suc, ◌-◌, ◌/◌, ◌%◌, ◌^◌, Bool, true, false, ◌&&◌, not, String, str_eq, List, [], ◌∷◌,
  Option, none, some, if◌then◌else◌, ltb, ◌==◌,
}
use adro.Prelude.Int.{ℤ, pos, negsuc, eqb_ℤ}
use adro.Prelude.Float64.{Float64, finite, feq, of_int}
use adro.Prelude.Text.{is_blank}
use adro.Prelude.Assoc.{Assoc, lookup}

mutual
  pub data Value : Type 0 where
    null : Value
    bool : Bool → Value
    int : ℤ → Value
    int8 : ℤ → Value
    int16 : ℤ → Value
    int32 : ℤ → Value
    int64 : ℤ → Value
    uint : ℕ → Value
    uint64 : ℕ → Value
    float64 : Float64 → Value
    float32 : Float64 → Value
    text : String → Value
    texts : List String → Value
    array : Values → Value
    -- a nested map, by its entries
    object : Entries → Value

  pub data Values : Type 0 where
    nil : Values
    cons : Value → Values → Values

  pub data Entries : Type 0 where
    end : Entries
    entry : String → Value → Entries → Entries

abbrev pub Fields : Type 0
Fields = Assoc Value

-- `number` of validate.go
unfoldable pub number : Value → Option Float64
number (int n) = some (of_int n)
number (int64 n) = some (of_int n)
number (float64 f) = some f
number (float32 f) = some f
number _ = none

-- The whole number below 2⁶³ that a float64 stands for, if it is one.
whole : Float64 → ℤ
whole (finite (pos m)) =
    if m % 2 ^ 1074 == 0 && ltb (m / 2 ^ 1074) (2 ^ 63) then pos (m / 2 ^ 1074) else pos 0
whole _ = pos 0

not_negative : ℤ → ℤ
not_negative (pos n) = pos n
not_negative (negsuc n) = pos 0

small : ℕ → ℤ
small n = if ltb n (2 ^ 63) then pos n else pos 0

usage_value : Value → ℤ
unfolding whole not_negative small
usage_value (int n) = not_negative n
usage_value (int8 n) = not_negative n
usage_value (int16 n) = not_negative n
usage_value (int32 n) = not_negative n
usage_value (int64 n) = not_negative n
usage_value (uint n) = small n
usage_value (uint64 n) = small n
usage_value (float64 f) = whole f
usage_value (float32 f) = whole f
usage_value _ = pos 0

-- `usageInt64` of transition.go; on a 64-bit platform `usageInt` is the same function.
unfoldable pub usage_int64 : Fields → String → ℤ
unfolding usage_value
usage_int64 fields key = elim (lookup key fields) [ none ↦ pos 0 | some v ↦ usage_value v ]

-- `value.(string)`, with the empty string for another type
unfoldable pub text_value : Option Value → String
text_value (some (text s)) = s
text_value _ = ""

text_items : Values → List String
text_items nil = []
text_items (cons (text s) vs) = s ∷ text_items vs
text_items (cons _ vs) = text_items vs

filled : List String → List String
filled [] = []
filled (s ∷ ss) = if is_blank s then filled ss else s ∷ filled ss

-- The strings of `fields["verification_node_ids"]`, as `repairVerificationNodes` reads them.
unfoldable pub text_list : Option Value → List String
unfolding text_items
text_list (some (texts ss)) = ss
text_list (some (array vs)) = text_items vs
text_list _ = []

-- `stringSliceValue`: the same, without the blank strings of an `[]any`
unfoldable pub string_slice_value : Option Value → List String
unfolding text_items filled
string_slice_value (some (texts ss)) = ss
string_slice_value (some (array vs)) = filled (text_items vs)
string_slice_value _ = []

-- The integer that `int(f)` gives a float64: truncation, and -2⁶³ where the result does not fit or
-- is no number, as on amd64.
truncate : Float64 → ℤ
truncate (finite (pos m)) =
    if ltb (m / 2 ^ 1074) (2 ^ 63) then pos (m / 2 ^ 1074) else negsuc (2 ^ 63 - 1)
truncate (finite (negsuc m)) = elim (suc m / 2 ^ 1074) [
  | zero ↦ pos 0
  | suc k ↦ if ltb k (2 ^ 63) then negsuc k else negsuc (2 ^ 63 - 1)
]
truncate _ = negsuc (2 ^ 63 - 1)

-- `intValue`
unfoldable pub int_value : Option Value → ℤ
unfolding truncate
int_value (some (int n)) = n
int_value (some (int64 n)) = n
int_value (some (float64 f)) = truncate f
int_value _ = pos 0

texts_equal : List String → List String → Bool
texts_equal [] [] = true
texts_equal (s ∷ ss) (t ∷ ts) = str_eq s t && texts_equal ss ts
texts_equal _ _ = false

bool_equal : Bool → Bool → Bool
bool_equal true b = b
bool_equal false b = not b

entry_count : Entries → ℕ
entry_count end = 0
entry_count (entry k v es) = suc (entry_count es)

entry_at : String → Entries → Option Value
entry_at k end = none
entry_at k (entry j v es) = if str_eq j k then some v else entry_at k es

-- `reflect.DeepEqual`: maps are compared by their keys.
unfoldable mutual
  unfolding texts_equal bool_equal entry_count entry_at

  pub deep_equal : Value → Value → Bool
  deep_equal null null = true
  deep_equal (bool a) (bool b) = bool_equal a b
  deep_equal (int a) (int b) = eqb_ℤ a b
  deep_equal (int8 a) (int8 b) = eqb_ℤ a b
  deep_equal (int16 a) (int16 b) = eqb_ℤ a b
  deep_equal (int32 a) (int32 b) = eqb_ℤ a b
  deep_equal (int64 a) (int64 b) = eqb_ℤ a b
  deep_equal (uint a) (uint b) = a == b
  deep_equal (uint64 a) (uint64 b) = a == b
  deep_equal (float64 a) (float64 b) = feq a b
  deep_equal (float32 a) (float32 b) = feq a b
  deep_equal (text a) (text b) = str_eq a b
  deep_equal (texts a) (texts b) = texts_equal a b
  deep_equal (array a) (array b) = values_equal a b
  deep_equal (object a) (object b) = entry_count a == entry_count b && entries_within a b
  deep_equal _ _ = false

  pub values_equal : Values → Values → Bool
  values_equal nil nil = true
  values_equal (cons a as_) (cons b bs) = deep_equal a b && values_equal as_ bs
  values_equal _ _ = false

  pub entries_within : Entries → Entries → Bool
  entries_within end bs = true
  entries_within (entry k v es) bs =
      elim (entry_at k bs) [ none ↦ false | some w ↦ deep_equal v w ] && entries_within es bs
