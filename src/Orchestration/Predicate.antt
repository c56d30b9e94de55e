-- ===== src/Orchestration/Predicate.antt =====
-- Edge and gate predicates: `ValidatePredicate` and `EvaluatePredicate` of
-- internal/orchestration/validate.go. The path in an error's text is left out.
use adro.Prelude.{
  ℕ, suc, Bool, true, false, ◌&&◌, ◌||◌, not, String, str_eq, [], ◌∷◌, Option, none, some,
  if◌then◌else◌, ltb, ◌==◌, any,
}
use adro.Prelude.Float64.{Float64, feq, flt, fle}
use adro.Prelude.Text.{is_blank, contains_text}
use adro.Prelude.Assoc.{lookup, has_key}
use adro.Orchestration.Value.{Value, text, Fields, number, deep_equal}

-- kind, field, op, value, children
mutual
  pub data Predicate : Type 0 where
    node : String → String → String → Value → Predicates → Predicate

  pub data Predicates : Type 0 where
    nil : Predicates
    cons : Predicate → Predicates → Predicates

-- `Predicate{}`
abbrev pub no_predicate : Predicate
no_predicate = node "" "" "" Value.null nil

pub data PredicateError : Type 0 where
  depth_exceeded field_required string_required op_invalid number_required : PredicateError
  children_required one_child_required too_many_children kind_invalid : PredicateError

unfoldable pub count : Predicates → ℕ
count nil = 0
count (cons p ps) = suc (count ps)

unfoldable pub is_text : Value → Bool
is_text (text s) = true
is_text _ = false

unfoldable pub is_number : Value → Bool
unfolding number
is_number v = elim (number v) [ none ↦ false | some f ↦ true ]

abbrev pub is_op : String → Bool
is_op op = any (str_eq op) ("eq" ∷ "ne" ∷ "lt" ∷ "lte" ∷ "gt" ∷ "gte" ∷ [])

abbrev pub is_leaf_kind : String → Bool
is_leaf_kind k = any (str_eq k) ("field_eq" ∷ "number_cmp" ∷ "contains" ∷ "exists" ∷ [])

abbrev pub is_tree_kind : String → Bool
is_tree_kind k = any (str_eq k) ("all" ∷ "any" ∷ "not" ∷ [])

-- The case of the comparisons.
unfoldable pub leaf_error : String → String → String → Value → Option PredicateError
unfolding is_text is_number
leaf_error kind field op value =
    if is_blank field
    then some field_required
    else if str_eq kind "contains" && not (is_text value)
    then some string_required
    else if str_eq kind "number_cmp" && not (is_op op)
    then some op_invalid
    else if str_eq kind "number_cmp" && not (is_number value)
    then some number_required
    else none

-- The tests on the number of children.
unfoldable pub tree_error : String → ℕ → Option PredicateError
tree_error kind n =
    if n == 0
    then some children_required
    else if str_eq kind "not" && not (n == 1)
    then some one_child_required
    else if ltb 32 n
    then some too_many_children
    else none

-- `ValidatePredicate`; `none` where Go returns nil.
unfoldable mutual
  unfolding count leaf_error tree_error

  pub validate_predicate : Predicate → ℕ → Option PredicateError
  validate_predicate (node kind field op value children) depth =
      let below = validate_children children (suc depth) in
      if ltb 8 depth
      then some depth_exceeded
      else if is_blank kind
      then none
      else if is_leaf_kind kind
      then leaf_error kind field op value
      else if is_tree_kind kind
      then elim (tree_error kind (count children)) [ some e ↦ some e | none ↦ below ]
      else some kind_invalid

  pub validate_children : Predicates → ℕ → Option PredicateError
  validate_children nil depth = none
  validate_children (cons p ps) depth =
      let rest = validate_children ps depth in
      elim (validate_predicate p depth) [ some e ↦ some e | none ↦ rest ]

unfoldable pub compare_numbers : String → Float64 → Float64 → Bool
compare_numbers op a b =
    if str_eq op "eq"
    then feq a b
    else if str_eq op "ne"
    then not (feq a b)
    else if str_eq op "lt"
    then flt a b
    else if str_eq op "lte"
    then fle a b
    else if str_eq op "gt"
    then flt b a
    else if str_eq op "gte"
    then fle b a
    else false

contains_value : Value → Value → Bool
contains_value (text s) (text needle) = contains_text s needle
contains_value _ _ = false

numbers_compare : String → Option Float64 → Option Float64 → Bool
numbers_compare op (some a) (some b) = compare_numbers op a b
numbers_compare _ _ _ = false

-- The comparison of a field that is there.
unfoldable pub eval_leaf : String → String → Value → Value → Bool
unfolding contains_value numbers_compare compare_numbers
eval_leaf kind op v value =
    if str_eq kind "contains"
    then contains_value v value
    else if str_eq kind "field_eq"
    then deep_equal v value
    else if str_eq kind "number_cmp"
    then numbers_compare op (number v) (number value)
    else false

-- `evalPredicate`. A "not" without a child panics in Go; validation has ruled it out, and here it
-- reads as the negation of a predicate that fails.
unfoldable mutual
  unfolding eval_leaf

  pub eval_predicate : Predicate → Fields → Bool
  eval_predicate (node kind field op value children) f =
      let every = eval_all children f in
      let some_one = eval_any children f in
      let first = eval_first children f in
      if str_eq kind "all"
      then every
      else if str_eq kind "any"
      then some_one
      else if str_eq kind "not"
      then not first
      else if str_eq kind "exists"
      then has_key field f
      else elim (lookup field f) [ none ↦ false | some v ↦ eval_leaf kind op v value ]

  pub eval_all : Predicates → Fields → Bool
  eval_all nil f = true
  eval_all (cons p ps) f = eval_predicate p f && eval_all ps f

  pub eval_any : Predicates → Fields → Bool
  eval_any nil f = false
  eval_any (cons p ps) f = eval_predicate p f || eval_any ps f

  pub eval_first : Predicates → Fields → Bool
  eval_first nil f = false
  eval_first (cons p ps) f = eval_predicate p f

-- The error, or whether the predicate holds.
pub data Verdict : Type 0 where
  holds : Bool → Verdict
  invalid : PredicateError → Verdict

abbrev kind_of : Predicate → String
kind_of (node kind field op value children) = kind

-- `EvaluatePredicate`
unfoldable pub evaluate_predicate : Predicate → Fields → Verdict
unfolding validate_predicate eval_predicate
evaluate_predicate p f = elim (validate_predicate p 0) [
  | some e ↦ invalid e
  | none ↦ if is_blank (kind_of p) then holds true else holds (eval_predicate p f)
]
