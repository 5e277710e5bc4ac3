-- ===== src/Config/Dotenv.antt =====
-- core/src/config.rs: the lines of a `.env` file.
use smolit_assistant.Base.{
  ℕ, ◌≡◌, refl, String, ◌||◌, Option, none, some, List, [], ◌∷◌, ◌==◌, if◌then◌else◌, ◌>>=◌,
  or_else, or_option, is_empty, is_some, trim,
}
use smolit_assistant.Base.Text.Search.{strip_prefix, strip_last, split, split_once}

-- `strip_prefix(q).and_then(|v| v.strip_suffix(q))`, with `k` the code of `q`.
unfoldable pub unquoted : String → ℕ → String → Option String
unfolding strip_prefix strip_last
unquoted q k value = strip_prefix q value >>= strip_last k

unfoldable pub normalize_env_value : String → String
unfolding trim unquoted
normalize_env_value value =
    let trimmed = trim value in
    or_else (or_option (unquoted "\"" b'"' trimmed) (unquoted "'" b'\'' trimmed)) trimmed

unfoldable pub env_key : String → String
unfolding trim strip_prefix
env_key key = trim (or_else (strip_prefix "export " (trim key)) (trim key))

-- The two sides of the first `=`; an empty key is dropped.
abbrev pub env_entry : Option (String × String) → Option (String × String)
env_entry none = none
env_entry (some (key, value)) =
    if is_empty (env_key key) then none else some (env_key key, normalize_env_value (trim value))

unfoldable pub parse_dotenv_line : String → Option (String × String)
unfolding split_once env_key normalize_env_value strip_prefix
parse_dotenv_line line =
    if is_empty line || is_some (strip_prefix "#" line)
    then none
    else env_entry (split_once b'=' line)

-- The entry of a line goes in front of those of the later lines.
abbrev pub keep_entry : Option (String × String) → List (String × String) → List (String × String)
keep_entry none entries = entries
keep_entry (some entry) entries = entry ∷ entries

unfoldable pub entries_of : List String → List (String × String)
unfolding parse_dotenv_line
entries_of [] = []
entries_of (line ∷ lines) = keep_entry (parse_dotenv_line (trim line)) (entries_of lines)

-- `lines()` ends a line at a line feed; a carriage return before it is white space, which the trim
-- of the line takes off.
unfoldable pub parse_dotenv : String → List (String × String)
unfolding entries_of split
parse_dotenv content = entries_of (split b'\n' content)

-- `HashMap::get`, where a later entry has replaced an earlier one of its key.
unfoldable pub get : String → List (String × String) → Option String
get key [] = none
get key ((k, v) ∷ entries) = or_option (get key entries) (if k == key then some v else none)

dotenv_test :
    parse_dotenv "# note\nexport A = \"x y\"\n\nB='q'\nbad\nA=z"
    ≡ ("A", "x y") ∷ ("B", "q") ∷ ("A", "z") ∷ []
unfolding parse_dotenv
dotenv_test = refl

get_test : get "A" (("A", "x") ∷ ("A", "z") ∷ []) ≡ some "z"
unfolding get
get_test = refl
