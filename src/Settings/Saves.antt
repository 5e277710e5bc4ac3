-- ===== src/Settings/Saves.antt =====
-- core/src/settings_store.rs and core/src/secrets_store.rs: the changes of the files.
use smolit_assistant.Settings.{Disk}
use smolit_assistant.Base.{◌+◌, String, Option, none, some, List, [], ◌∷◌, if◌then◌else◌, is_some}
use smolit_assistant.Base.Text.Cuts.{◌<>◌}
use smolit_assistant.Config.{AudioConfig, LlamafileConfig, LocalHttpConfig}
use smolit_assistant.Config.Values.{non_empty}

abbrev pub no_settings_dir : String
no_settings_dir =
    "no writable settings dir (neither SMOLIT_SETTINGS_DIR nor $XDG_CONFIG_HOME nor $HOME)"

abbrev pub no_secrets_dir : String
no_secrets_dir =
    "no writable settings dir for secrets (neither SMOLIT_SETTINGS_DIR nor $XDG_CONFIG_HOME nor $HOME)"

abbrev pub counted : Disk → Disk
counted disk = record disk { changes = disk.changes + 1 }

-- The temporary file replaces the old one, or the old one stays.
abbrev pub replaced : Option (List String) → Disk → Disk → Option (List String) × Disk
replaced (some e) disk after = (some e, counted disk)
replaced none disk after = (none, counted after)

-- A change of a file, `after` being the disk with the new file: the messages of the error, if there is
-- one, and the disk.
unfoldable pub write_file : String → Disk → Disk → Option (List String) × Disk
write_file no_dir disk after =
    if is_some disk.dir
    then replaced (disk.faults disk.changes) disk after
    else (some (no_dir ∷ []), disk)

unfoldable pub write_override_atomic : Disk → Disk → Option (List String) × Disk
unfolding write_file
write_override_atomic disk after = write_file no_settings_dir disk after

unfoldable pub save_llamafile_override : LlamafileConfig → Disk → Option (List String) × Disk
unfolding write_override_atomic
save_llamafile_override cfg disk = write_override_atomic disk (record disk {
  llamafile = some (record {
    enabled = some cfg.enabled;
    mode = some cfg.mode;
    idle_timeout_seconds = some cfg.idle_timeout_seconds;
    path = cfg.path;
  });
})

unfoldable pub save_stt_override : AudioConfig → Disk → Option (List String) × Disk
unfolding write_override_atomic
save_stt_override audio disk = write_override_atomic disk (record disk {
  stt = some (record { enabled = some audio.stt_enabled; command = audio.stt_cmd });
})

unfoldable pub save_tts_override : AudioConfig → Disk → Option (List String) × Disk
unfolding write_override_atomic
save_tts_override audio disk = write_override_atomic disk (record disk {
  tts = some (record {
    enabled = some audio.tts_enabled;
    command = audio.tts_cmd;
    auto_speak = some audio.auto_speak;
  });
})

unfoldable pub save_local_http_override : LocalHttpConfig → Disk → Option (List String) × Disk
unfolding write_override_atomic
save_local_http_override cfg disk = write_override_atomic disk (record disk {
  local_http = some (record {
    enabled = some cfg.enabled;
    endpoint = cfg.endpoint;
    request_timeout_seconds = some cfg.request_timeout_seconds;
  });
})

-- An empty chain is not written.
abbrev pub unless_empty :
    String → List String → Disk → Option (List String) × Disk → Option (List String) × Disk
unless_empty axis [] disk written =
    (some (("refusing to persist empty " <> (axis <> " provider chain")) ∷ []), disk)
unless_empty axis (kind ∷ chain) disk written = written

unfoldable pub save_text_chain_override : List String → Disk → Option (List String) × Disk
unfolding write_override_atomic
save_text_chain_override chain disk =
    unless_empty "text" chain disk
      (write_override_atomic disk (record disk { text_chain = some chain }))

unfoldable pub save_stt_chain_override : List String → Disk → Option (List String) × Disk
unfolding write_override_atomic
save_stt_chain_override chain disk =
    unless_empty "stt" chain disk
      (write_override_atomic disk (record disk { stt_chain = some chain }))

unfoldable pub save_tts_chain_override : List String → Disk → Option (List String) × Disk
unfolding write_override_atomic
save_tts_chain_override chain disk =
    unless_empty "tts" chain disk
      (write_override_atomic disk (record disk { tts_chain = some chain }))

-- Without a directory or a file there is nothing to delete.
unfoldable pub clear_override : Disk → Disk → Option (List String) × Disk
clear_override disk after =
    if is_some disk.dir then replaced (disk.faults disk.changes) disk after else (none, disk)

unfoldable pub clear_text_chain_override : Disk → Option (List String) × Disk
unfolding clear_override
clear_text_chain_override disk = clear_override disk (record disk { text_chain = none })

unfoldable pub clear_stt_chain_override : Disk → Option (List String) × Disk
unfolding clear_override
clear_stt_chain_override disk = clear_override disk (record disk { stt_chain = none })

unfoldable pub clear_tts_chain_override : Disk → Option (List String) × Disk
unfolding clear_override
clear_tts_chain_override disk = clear_override disk (record disk { tts_chain = none })

-- secrets_store::set_cloud_http_api_key, and save_secrets.
unfoldable pub save_cloud_http_api_key : Option String → Disk → Option (List String) × Disk
unfolding write_file non_empty
save_cloud_http_api_key value disk =
    write_file no_secrets_dir disk (record disk { cloud_http_api_key = non_empty value })
