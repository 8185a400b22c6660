-- ===== src/Mysql/Ident.antt =====
-- Identifiers, JSON paths and aggregates of driver/mysql/dialect.go and internal/queryutil.
use oro.Base.{
  ℕ, Bool, true, false, ◌&&◌, ◌||◌, String, List, [], ◌∷◌, map, Result, ok, err, ErrorKind,
  invalid_argument, if◌then◌else◌, leb, eqb,
}
use Prim.Native.Char.{code}
use oro.Base.Text.{◌⋄◌, ◌==◌, join, replace_all, split}
use oro.QueryAst.{OroError}

abbrev pub error_of : String → ErrorKind → String → OroError
error_of op kind field = record { op = op; kind = kind; field = field }

abbrev pub quote_part : String → String
quote_part part = "`" ⋄ replace_all part b'`' "``" ⋄ "`"

unfoldable pub quote_ident : String → String
unfolding join replace_all split
quote_ident name = join "." (map quote_part (split name b'.'))

-- jsonPathReplacer
unfoldable pub replace_json : String → String
replace_json String.[] = ""
replace_json (String.◌∷◌ c s) =
    let rest = replace_json s in
    if eqb (code c) b'\\'
    then "\\\\" ⋄ rest
    else if eqb (code c) b'"'
    then "\\\"" ⋄ rest
    else String.◌∷◌ c rest

is_letter : ℕ → Bool
is_letter c = eqb c b'_' || leb b'a' c && leb c b'z' || leb b'A' c && leb c b'Z'

-- the loop of isJSONPathIdentifier past the first character
is_json_rest : String → Bool
unfolding is_letter
is_json_rest String.[] = true
is_json_rest (String.◌∷◌ c s) =
    (is_letter (code c) || leb b'0' (code c) && leb (code c) b'9') && is_json_rest s

unfoldable pub is_json_path_identifier : String → Bool
unfolding is_letter is_json_rest
is_json_path_identifier String.[] = false
is_json_path_identifier (String.◌∷◌ c s) = is_letter (code c) && is_json_rest s

json_path_parts : List String → String
json_path_parts [] = ""
json_path_parts (part ∷ parts) =
    (if is_json_path_identifier part then "." ⋄ part else ".\"" ⋄ replace_json part ⋄ "\"")
    ⋄ json_path_parts parts

unfoldable pub json_path : List String → String
unfolding json_path_parts is_json_path_identifier replace_json
json_path parts = "$" ⋄ json_path_parts parts

-- AggregateSelectSQL with a quoting function; its error is turned into the caller's.
unfoldable pub aggregate_select_sql : String → String → Result OroError String
unfolding quote_ident
aggregate_select_sql func field =
    if func == "" || field == ""
    then err (error_of "mysql.select" invalid_argument "")
    else if field == "*"
    then ok (func ⋄ "(*)")
    else ok (func ⋄ "(" ⋄ quote_ident field ⋄ ")")
