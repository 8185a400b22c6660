-- ===== src/SqlCache/Conditions.antt =====
-- simpleConditionsArgs of sql_cache.go: the shape of conditions and the values that they bind, unless a
-- condition is of a kind that is not cached. `dialect` is the dialect's name, `marshal` json.Marshal.
use oro.Base.{◌||◌, String, List, [], ◌∷◌, ◌++◌, Option, none, some, if◌then◌else◌, length}
use oro.Base.Text.{◌⋄◌, ◌==◌, join, itoa, to_lower, trim_space}
use oro.QueryAst.{
  Any, slice, str, source_ptr, column_condition, json_condition, Condition, condition, Conditions,
  no_conditions, more_conditions, to_list,
}
use oro.Mysql.Ident.{json_path}
use oro.Mysql.Conditions.{
  OpKind, op_kind, group, not_group, json, column, in_values, not_in_values, between, is_null,
  is_not_null, comparison,
}

unfoldable pub simple_json_path : String → List String → String
simple_json_path dialect parts =
    if dialect == "pgsql" then "{" ⋄ join "," parts ⋄ "}" else json_path parts

-- the value that simpleJSONArgs binds
unfoldable pub json_value : (Any → Option String) → String → Any → Option Any
json_value marshal dialect value =
    if (dialect == "mysql") || (dialect == "pgsql")
    then elim (marshal value) [ none ↦ none | some bytes ↦ some (str bytes) ]
    else some value

-- simpleJSONArgs, at the lower-case operator
unfoldable pub simple_json_op :
    (Any → Option String) → String → String → String → Any → Option (List Any)
unfolding json_value
simple_json_op marshal dialect path op value =
    if (op == "=") || ((op == "!=") || (op == "contains"))
    then elim (json_value marshal dialect value) [ none ↦ none | some v ↦ some (str path ∷ v ∷ []) ]
    else if (op == "is null") || ((op == "is not null") || (op == "exists"))
    then some (str path ∷ [])
    else none

-- the JSON case of simpleConditionArgs
unfoldable pub simple_json :
    (Any → Option String) → String → String → Any → Option (List Any × String)
unfolding simple_json_op simple_json_path
simple_json marshal dialect field (json_condition _ parts op value) =
    elim (simple_json_op marshal dialect (simple_json_path dialect parts) (to_lower op) value) [
      | none ↦ none
      | some args ↦ some (args, field ⋄ "|json|" ⋄ op ⋄ "|" ⋄ join "." parts)
    ]
simple_json marshal dialect field _ = none

unfoldable pub simple_column : String → Any → Option (List Any × String)
simple_column field (column_condition op right) = some ([], field ⋄ "|col|" ⋄ op ⋄ "|" ⋄ right)
simple_column field _ = none

unfoldable pub simple_values : String → String → Any → Option (List Any × String)
simple_values field op (slice values) =
    some (to_list values, field ⋄ "|" ⋄ op ⋄ "|" ⋄ itoa (length (to_list values)))
simple_values field op _ = none

unfoldable pub simple_value : String → String → Any → Option (List Any × String)
simple_value field op (source_ptr source) = none
simple_value field op value = some (value ∷ [], field ⋄ "|" ⋄ op)

unfoldable pub simple_group : String → Option (List Any × String) → Option (List Any × String)
simple_group op none = none
simple_group op (some (args, shape)) = some (args, op ⋄ "{" ⋄ shape ⋄ "}")

-- The switch of simpleConditionArgs, with the operator as it is written and in lower case without
-- spaces around it. `nested` is what becomes of the conditions inside.
unfoldable pub simple_condition :
    (Any → Option String)
    → String
    → OpKind
    → String
    → String
    → String
    → Any
    → Option (List Any × String)
    → Option (List Any × String)
unfolding simple_json simple_column simple_values simple_value simple_group
simple_condition marshal dialect group word op field value nested = simple_group word nested
simple_condition marshal dialect not_group word op field value nested = simple_group word nested
simple_condition marshal dialect column word op field value nested = simple_column field value
simple_condition marshal dialect json word op field value nested =
    simple_json marshal dialect field value
simple_condition marshal dialect in_values word op field value nested =
    simple_values field word value
simple_condition marshal dialect not_in_values word op field value nested =
    simple_values field word value
simple_condition marshal dialect between word op field value nested = simple_values field word value
simple_condition marshal dialect is_null word op field value nested = some ([], field ⋄ "|" ⋄ word)
simple_condition marshal dialect is_not_null word op field value nested =
    some ([], field ⋄ "|" ⋄ word)
simple_condition marshal dialect comparison word op field value nested =
    if word == "" then none else simple_value field op value
simple_condition marshal dialect _ word op field value nested = none

-- one round of the loop of simpleConditionsArgs
unfoldable pub more_shapes :
    String → Option (List Any × String) → Option (List Any × String) → Option (List Any × String)
more_shapes word none rest = none
more_shapes word (some first) none = none
more_shapes word (some (args, shape)) (some (more, shapes)) =
    some (args ++ more, "[" ⋄ word ⋄ "|" ⋄ shape ⋄ "]" ⋄ shapes)

abbrev pub bool_of : Condition → String
bool_of (condition word field op value nested escape) = word

module _ (marshal : Any → Option String) (dialect : String) where
  unfoldable mutual
    pub simple_condition_args : Condition → Option (List Any × String)
    simple_condition_args (condition word field op value nested escape) =
        simple_condition marshal dialect (op_kind (to_lower (trim_space op)))
          (to_lower (trim_space op)) op field value (simple_conditions_args nested)

    pub simple_conditions_args : Conditions → Option (List Any × String)
    simple_conditions_args no_conditions = some ([], "")
    simple_conditions_args (more_conditions c cs) =
        more_shapes (bool_of c) (simple_condition_args c) (simple_conditions_args cs)
