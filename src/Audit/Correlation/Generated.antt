-- ===== src/Audit/Correlation/Generated.antt =====
-- The generator and the validation of core/src/audit/correlation.rs.
use smolit_assistant.Base.{
  ℕ, ◌<◌, ◌≤◌, ◌^◌, ◌+◌, ◌≡◌, refl, ap, ◌∙◌, Bool, true, false, String, len, Option, none, some,
  ◌%◌, is_whitespace, all_chars, is_id_char, is_empty, ltb, not, if◌then◌else◌, arith,
}
use Prim.Native.String.len
use Prim.Native.String.{[], ◌∷◌, ◌++◌, slice}
use text.Mathlib.TextPositions.{len-append, slice-append_right, starts_with-append}
use text.Mathlib.TextLemmas.{length-append}
use smolit_assistant.Base.Hex.{hex_padded}
use smolit_assistant.Base.Hex.Shape.{
  plain, hex_padded-plain, count-hex_padded, len_of_plain, trim_of_plain, id_of_plain,
  all_chars-append, places,
}
use smolit_assistant.Base.Text.Trim.{trim_check_idem}
use smolit_assistant.Audit.Correlation.{
  correlation_id_prefix, format_correlation_id, generate_correlation_id, check_correlation_id,
  sanitize_correlation_id,
}

check_same : (t id : String) → check_correlation_id t ≡ some id → t ≡ id
unfolding check_correlation_id
check_same t id h = ground arith

-- A token that passed once passes again unchanged.
pub sanitize_correlation_id_idem :
    (raw : Option String)
    → sanitize_correlation_id (sanitize_correlation_id raw) ≡ sanitize_correlation_id raw
unfolding sanitize_correlation_id
sanitize_correlation_id_idem raw = trim_check_idem check_correlation_id check_same raw

-- The digits behind the prefix of a generated identifier.
digits : ℕ → ℕ → String
digits ts n = hex_padded 12 ts ++ hex_padded 16 n

digits-plain : (ts n : ℕ) → all_chars plain (digits ts n) ≡ true
unfolding digits
digits-plain ts n =
    all_chars-append plain (hex_padded 12 ts) (hex_padded 16 n) (hex_padded-plain 12 ts)
      (hex_padded-plain 16 n)

digits-len :
    (ts n : ℕ) → ts < 2 ^ 64 → n < 2 ^ 64 → (28 ≤ len (digits ts n)) × (len (digits ts n) ≤ 32)
unfolding digits places
digits-len ts n hts hn =
    let (t_low, t_high) = count-hex_padded 12 ts 15 hts (omega arith) in
    let (n_low, n_high) = count-hex_padded 16 n 15 hn (omega arith) in
    rw
      (
        len_of_plain (hex_padded 12 ts ++ hex_padded 16 n) (digits-plain ts n),
        length-append (hex_padded 12 ts) (hex_padded 16 n),
      )
      (omega arith, omega arith)

nonempty : (s : String) → 1 ≤ len s → is_empty s ≡ false
nonempty [] h = absurd (omega (arith, len.nil))
nonempty (c ∷ s) h = refl

-- None of the six tests of the validation holds.
passes :
    (a b c d e f : Bool) (t : String)
    → a ≡ false
    → b ≡ false
    → c ≡ false
    → d ≡ true
    → e ≡ false
    → f ≡ true
    → (if a
        then none
        else if b
        then none
        else if c
        then none
        else if not d
        then none
        else if e
        then none
        else if not f
        then none
        else some t)
      ≡ some t
passes a b c d e f t ha hb hc hd he hf = ground arith

small : (n : ℕ) → n ≤ 37 → ltb 80 n ≡ false
small n h = ground arith

large : (n : ℕ) → 24 ≤ n → ltb n 24 ≡ false
large n h = ground arith

checks :
    (body : String)
    → all_chars is_id_char body ≡ true
    → 28 ≤ len body
    → len body ≤ 32
    → check_correlation_id (correlation_id_prefix ++ body) ≡ some (correlation_id_prefix ++ body)
unfolding check_correlation_id
checks body chars low high =
    passes _ _ _ _ _ _ token (nonempty token (omega (arith, total)))
      (small (len token) (omega (arith, total))) (large (len token) (omega (arith, total)))
      (starts_with-append correlation_id_prefix body)
      (ap is_empty rest ∙ nonempty body (omega arith)) (ap (all_chars is_id_char) rest ∙ chars)
  where
    token : String
    token = correlation_id_prefix ++ body

    total : len token ≡ 5 + len body
    total = len-append correlation_id_prefix body

    rest : slice token 5 (len token) ≡ body
    rest = ap (slice token 5) total ∙ slice-append_right correlation_id_prefix body

prefix_plain : all_chars plain correlation_id_prefix ≡ true
unfolding all_chars plain is_id_char is_whitespace
prefix_plain = refl

-- A generated identifier, for a clock reading of 64 bits, passes the validation unchanged.
pub sanitize-generate :
    (ts counter : ℕ)
    → ts < 2 ^ 64
    → let (id, n) = generate_correlation_id ts counter in
      sanitize_correlation_id (some id) ≡ some id
unfolding generate_correlation_id format_correlation_id sanitize_correlation_id digits
sanitize-generate ts counter h =
    let n = (counter + 1) % 2 ^ 64 in
    let (low, high) = digits-len ts n h (omega arith) in
    ap check_correlation_id (
      trim_of_plain (correlation_id_prefix ++ digits ts n) (
        all_chars-append plain correlation_id_prefix (digits ts n) prefix_plain
          (digits-plain ts n)))
    ∙ checks (digits ts n) (id_of_plain (digits ts n) (digits-plain ts n)) low high
