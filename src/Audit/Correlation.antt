-- ===== src/Audit/Correlation.antt =====
-- core/src/audit/correlation.rs: generation and validation of correlation identifiers. The clock
-- reading and the process-wide counter are arguments of the generator.
pub mod Generated
use smolit_assistant.Base.{
  ℕ, ◌+◌, ◌%◌, ◌^◌, String, len, Bool, not, Option, none, some, ◌>>=◌, is_empty, trim, all_chars,
  is_id_char, leb, ltb, if◌then◌else◌,
}
use Prim.Native.String.{◌++◌, slice}
use text.Mathlib.Text.{starts_with}
use smolit_assistant.Base.Hex.{hex_padded}

abbrev pub correlation_id_prefix : String
correlation_id_prefix = "corr_"

abbrev pub max_correlation_id_len : ℕ
max_correlation_id_len = 80

abbrev pub min_correlation_id_len : ℕ
min_correlation_id_len = 24

-- `n` is the counter's next value.
unfoldable pub format_correlation_id : ℕ → ℕ → String
format_correlation_id ts n = correlation_id_prefix ++ (hex_padded 12 ts ++ hex_padded 16 n)

-- The counter is a `u64` and wraps. The identifier, and the counter's new value.
unfoldable pub generate_correlation_id : ℕ → ℕ → String × ℕ
unfolding format_correlation_id
generate_correlation_id ts counter =
    let n = (counter + 1) % 2 ^ 64 in (format_correlation_id ts n, n)

-- The checks on the trimmed token; `len` counts bytes and `slice` cuts at byte positions.
check_correlation_id : String → Option String
check_correlation_id t =
    let body = slice t (len correlation_id_prefix) (len t) in
    if is_empty t
    then none
    else if ltb max_correlation_id_len (len t)
    then none
    else if ltb (len t) min_correlation_id_len
    then none
    else if not (starts_with t correlation_id_prefix)
    then none
    else if is_empty body
    then none
    else if not (all_chars is_id_char body)
    then none
    else some t

unfoldable pub sanitize_correlation_id : Option String → Option String
unfolding check_correlation_id trim
sanitize_correlation_id raw = do s ← raw; check_correlation_id (trim s)
