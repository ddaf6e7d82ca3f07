-- ===== src/Kv/Names.antt =====
-- The checks of names and sizes in app/routes/kv_store.py. A text is walked as its characters.
use Prim.Native.Char.{code}
use floww_backend.Prelude.{
  ℕ, Bool, true, false, not, ◌&&◌, ◌||◌, List, [], ◌∷◌, String, ltb, leb, ◌==◌, length,
  if◌then◌else◌,
}
use floww_backend.Session.{Session, pure, raise, http_exception, value_error}

abbrev pub codes : String → List ℕ
codes String.[] = []
codes (String.◌∷◌ c s) = code c ∷ codes s

-- `[a-zA-Z0-9_-]`
unfoldable pub name_char : ℕ → Bool
name_char c =
    (leb b'a' c && leb c b'z')
    || ((leb b'A' c && leb c b'Z') || ((leb b'0' c && leb c b'9') || (c == b'_' || c == b'-')))

-- The rest of a match of `[a-zA-Z0-9_-]*$`: Python's `$` also matches before a last newline.
unfoldable pub match_rest : List ℕ → Bool
unfolding name_char
match_rest [] = true
match_rest (c ∷ []) = name_char c || c == 10
match_rest (c ∷ d ∷ cs) = name_char c && match_rest (d ∷ cs)

-- `re.compile(r"^[a-zA-Z0-9_-]+$").match(name)`
unfoldable pub pattern_match : List ℕ → Bool
unfolding match_rest
pattern_match [] = false
pattern_match (c ∷ cs) = name_char c && match_rest cs

abbrev pub max_name_length : ℕ
max_name_length = 255

abbrev pub max_value_size : ℕ
max_value_size = 1_000_000

unfoldable pub validate_table_name : {S : Type 0} → String → Session S Unit
validate_table_name name =
    if length (codes name) == 0
    then raise (http_exception 400 "Table name cannot be empty")
    else if ltb max_name_length (length (codes name))
    then raise (http_exception 400 "Table name too long (max 255 characters)")
    else if not (pattern_match (codes name))
    then raise (
        http_exception 400
          "Table name must contain only alphanumeric characters, underscores, and hyphens")
    else pure tt

unfoldable pub validate_key : {S : Type 0} → String → Session S Unit
validate_key key =
    if length (codes key) == 0
    then raise (http_exception 400 "Key cannot be empty")
    else if ltb max_name_length (length (codes key))
    then raise (http_exception 400 "Key too long (max 255 characters)")
    else if not (pattern_match (codes key))
    then raise (
        http_exception 400
          "Key must contain only alphanumeric characters, underscores, and hyphens")
    else pure tt

-- `SetValueRequest.validate_value_size`
unfoldable pub validate_value_size : {S : Type 0} → String → Session S String
validate_value_size value_str =
    if ltb max_value_size (length (codes value_str))
    then raise (value_error "Value size exceeds maximum")
    else pure value_str
