-- ===== src/Capabilities/Vocabulary.antt =====
-- The vocabulary and the sanitizer of core/src/capabilities.rs.
use smolit_assistant.Base.{
  String, Bool, true, false, some, none, ◌≡◌, refl, ◌↔◌, ◌==◌, eq_iff, all, In, test-In, Option, ap,
  trim, split_dots, is_id_char, all_chars, arith,
}
use smolit_assistant.Base.Text.Listed.{any-In_iff}
use smolit_assistant.Base.Text.Trim.{trim_check_idem}
use smolit_assistant.Capabilities.{
  known_capability_ids, is_known_capability_id, executable_today, is_executable_today,
  sanitize_trimmed, sanitize_capability_id,
}

pub known_iff : (id : String) → (is_known_capability_id id ≡ true) ↔ In id known_capability_ids
unfolding is_known_capability_id
known_iff id = any-In_iff id known_capability_ids

pub executable_iff : (id : String) → (is_executable_today id ≡ true) ↔ In id executable_today
unfolding is_executable_today
executable_iff id = any-In_iff id executable_today

-- What passes the sanitizer is the trimmed text itself, and a known identifier.
sanitize_trimmed_sound :
    (t id : String) → sanitize_trimmed t ≡ some id → (t ≡ id) × (is_known_capability_id t ≡ true)
unfolding sanitize_trimmed
sanitize_trimmed_sound t id h = ground arith

abbrev answers : Option String → String → Bool
answers none id = false
answers (some t) id = t == id

eq_of_answers : (o : Option String) (id : String) → answers o id ≡ true → o ≡ some id
eq_of_answers none id h = cc
eq_of_answers (some t) id h = ap some ((eq_iff t id).0 h)

-- Each identifier of the vocabulary meets the rules on length, segments and characters.
vocabulary_well_formed : all (λ id. answers (sanitize_trimmed id) id) known_capability_ids ≡ true
unfolding sanitize_trimmed split_dots is_id_char all_chars is_known_capability_id
vocabulary_well_formed = refl

sanitize_trimmed_complete :
    (id : String) → In id known_capability_ids → sanitize_trimmed id ≡ some id
sanitize_trimmed_complete id m =
    eq_of_answers (sanitize_trimmed id) id
      (test-In (λ k. answers (sanitize_trimmed k) k) known_capability_ids vocabulary_well_formed m)

-- The sanitizer answers with an identifier exactly when the trimmed input is that identifier and it
-- stands in the vocabulary: its checks of length, segments and characters refuse no known
-- identifier, and nothing else passes.
pub sanitize_iff :
    (s id : String)
    → (sanitize_capability_id (some s) ≡ some id) ↔ ((trim s ≡ id) × In id known_capability_ids)
unfolding sanitize_capability_id
sanitize_iff s id = (
  λ e.
      let (same, known) = sanitize_trimmed_sound (trim s) id e in
      (same, rw (← same) ((known_iff (trim s)).0 known)),
  λ h. rw h.0 (sanitize_trimmed_complete id h.1),
)

pub sanitize_capability_id_idem :
    (raw : Option String)
    → sanitize_capability_id (sanitize_capability_id raw) ≡ sanitize_capability_id raw
unfolding sanitize_capability_id
sanitize_capability_id_idem raw =
    trim_check_idem sanitize_trimmed (λ t id h. (sanitize_trimmed_sound t id h).0) raw

pub sanitize_capability_id-In :
    (raw : Option String) (id : String)
    → sanitize_capability_id raw ≡ some id
    → In id known_capability_ids
sanitize_capability_id-In none id h = unfold sanitize_capability_id in cc
sanitize_capability_id-In (some s) id h = ((sanitize_iff s id).0 h).1
