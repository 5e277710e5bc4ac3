-- ===== src/Settings/Restart.antt =====
-- core/src/settings_store.rs: what a save leaves for the next start.
use smolit_assistant.Base.{
  ◌≡◌, refl, ap, ◌∙◌, String, true, Option, none, some, inl, inr, List, [], ◌∷◌, ltb, or_option,
  is_some, if◌then◌else◌, Bool-cases, Option-cases,
}
use smolit_assistant.Config.{AudioConfig, LlamafileConfig}
use smolit_assistant.Config.Values.{some_unless_blank, validate_llamafile_mode}
use smolit_assistant.Settings.{
  Disk, load_llamafile_override, load_tts_override, load_stt_override, load_text_chain_override,
}
use smolit_assistant.Settings.Overrides.{
  overridden, mode_or, apply_llamafile_override, apply_stt_override, apply_tts_override,
}
use smolit_assistant.Settings.Saves.{
  counted, replaced, write_file, no_settings_dir, write_override_atomic, save_llamafile_override,
  save_stt_override, save_tts_override, save_text_chain_override,
}

-- A change of a file that reports no error has the new disk, which stands in a directory.
write_file-none :
    (no_dir : String) (disk after : Disk)
    → (write_file no_dir disk after).0 ≡ none
    → (is_some disk.dir ≡ true) × ((write_file no_dir disk after).1 ≡ counted after)
unfolding write_file
write_file-none no_dir disk after h = elim (Bool-cases (is_some disk.dir)) [
  | inr missing ↦ cc (rw (missing, if◌then◌else◌) at h)
  | inl there ↦ elim (Option-cases (disk.faults disk.changes)) [
    | inl fine ↦ (there, rw (there, if◌then◌else◌, fine, replaced))
    | inr (e, fault) ↦ cc (rw (there, if◌then◌else◌, fault, replaced) at h)
  ]
]

-- A text that is kept trimmed and not blank.
unfoldable pub IsKept : Option String → Type 0
unfolding some_unless_blank
IsKept none = Unit
IsKept (some v) = some_unless_blank v ≡ some v

overridden_kept :
    (saved value : Option String) → IsKept saved → overridden saved value ≡ or_option saved value
unfolding overridden IsKept
overridden_kept none value h = refl
overridden_kept (some v) value h = h

-- A llamafile configuration that the file can hold: a mode that is allowed, a positive time, a trimmed
-- path.
unfoldable pub IsStorable : LlamafileConfig → Type 0
unfolding IsKept validate_llamafile_mode
IsStorable cfg =
    (validate_llamafile_mode cfg.mode ≡ some cfg.mode)
    × (ltb 0 cfg.idle_timeout_seconds ≡ true)
    × IsKept cfg.path

-- What the next start makes of a saved llamafile configuration, laid over the configuration of the
-- environment.
pub save-apply_llamafile :
    (cfg base : LlamafileConfig) (disk : Disk)
    → IsStorable cfg
    → (save_llamafile_override cfg disk).0 ≡ none
    → apply_llamafile_override base (load_llamafile_override (save_llamafile_override cfg disk).1)
      ≡ record base {
        enabled = cfg.enabled;
        mode = cfg.mode;
        idle_timeout_seconds = cfg.idle_timeout_seconds;
        path = or_option cfg.path base.path;
      }
unfolding save_llamafile_override write_override_atomic load_llamafile_override
    apply_llamafile_override mode_or IsStorable
save-apply_llamafile cfg base disk (mode, positive, path) h =
    let (there, e) =
      write_file-none no_settings_dir disk
        (record disk {
          llamafile = some (record {
            enabled = some cfg.enabled;
            mode = some cfg.mode;
            idle_timeout_seconds = some cfg.idle_timeout_seconds;
            path = cfg.path;
          });
        })
        h in
    ap (λ d. apply_llamafile_override base (load_llamafile_override d)) e
    ∙ rw (there, if◌then◌else◌, mode, positive, overridden_kept cfg.path base.path path)

-- The same of the speech recognition and the speech output.
pub save-apply_stt :
    (audio base : AudioConfig) (disk : Disk)
    → IsKept audio.stt_cmd
    → (save_stt_override audio disk).0 ≡ none
    → apply_stt_override base (load_stt_override (save_stt_override audio disk).1) ≡ record base {
      stt_enabled = audio.stt_enabled;
      stt_cmd = or_option audio.stt_cmd base.stt_cmd;
    }
unfolding save_stt_override write_override_atomic load_stt_override apply_stt_override
save-apply_stt audio base disk kept h =
    let (there, e) =
      write_file-none no_settings_dir disk
        (record disk {
          stt = some (record { enabled = some audio.stt_enabled; command = audio.stt_cmd });
        })
        h in
    ap (λ d. apply_stt_override base (load_stt_override d)) e
    ∙ rw (there, if◌then◌else◌, overridden_kept audio.stt_cmd base.stt_cmd kept)

pub save-apply_tts :
    (audio base : AudioConfig) (disk : Disk)
    → IsKept audio.tts_cmd
    → (save_tts_override audio disk).0 ≡ none
    → apply_tts_override base (load_tts_override (save_tts_override audio disk).1) ≡ record base {
      tts_enabled = audio.tts_enabled;
      tts_cmd = or_option audio.tts_cmd base.tts_cmd;
      auto_speak = audio.auto_speak;
    }
unfolding save_tts_override write_override_atomic load_tts_override apply_tts_override
save-apply_tts audio base disk kept h =
    let (there, e) =
      write_file-none no_settings_dir disk
        (record disk {
          tts = some (record {
            enabled = some audio.tts_enabled;
            command = audio.tts_cmd;
            auto_speak = some audio.auto_speak;
          });
        })
        h in
    ap (λ d. apply_tts_override base (load_tts_override d)) e
    ∙ rw (there, if◌then◌else◌, overridden_kept audio.tts_cmd base.tts_cmd kept)

-- A saved chain is what the next start loads.
pub save-load_text_chain :
    (chain : List String) (disk : Disk)
    → (save_text_chain_override chain disk).0 ≡ none
    → load_text_chain_override (save_text_chain_override chain disk).1 ≡ some chain
unfolding save_text_chain_override write_override_atomic load_text_chain_override
save-load_text_chain [] disk h = cc
save-load_text_chain (kind ∷ chain) disk h =
    let (there, e) =
      write_file-none no_settings_dir disk (record disk { text_chain = some (kind ∷ chain) }) h in
    ap load_text_chain_override e ∙ rw (there, if◌then◌else◌)
