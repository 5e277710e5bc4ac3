-- ===== src/Settings.antt =====
-- core/src/settings_store.rs and core/src/secrets_store.rs: what the core keeps on disk. A file is the
-- value that serde_json reads from it: `none` stands for a file that is missing, cannot be read or is
-- not valid JSON, which the loaders treat alike. Writing and reading back a value gives that value.
pub mod Overrides
pub mod Saves
pub mod Restart
use smolit_assistant.Base.{
  ℕ, zero, suc, ◌+◌, String, Bool, Option, none, some, List, [], ◌∷◌, ◌<◌, if◌then◌else◌, is_empty,
  trim, or_else, ltb, is_some,
}
use smolit_assistant.Base.Failures.{Result, ok, err, bail, context}
use smolit_assistant.Base.Text.Cuts.{◌<>◌}
use smolit_assistant.Config.{AudioConfig, LlamafileConfig, LocalHttpConfig}
use smolit_assistant.Config.Values.{non_empty, some_unless_blank, validate_llamafile_mode}

pub record LlamafileOverrideFile : Type 0 where
  pub enabled : Option Bool
  pub mode : Option String
  pub idle_timeout_seconds : Option ℕ
  pub path : Option String

pub record SttOverrideFile : Type 0 where
  pub enabled : Option Bool
  pub command : Option String

pub record TtsOverrideFile : Type 0 where
  pub enabled : Option Bool
  pub command : Option String
  pub auto_speak : Option Bool

pub record LocalHttpOverrideFile : Type 0 where
  pub enabled : Option Bool
  pub endpoint : Option String
  pub request_timeout_seconds : Option ℕ

-- A directory: a text from the environment, and the names joined to it.
pub record SettingsDir : Type 0 where
  pub base : String
  pub joined : List String

abbrev at_base : List String → String → SettingsDir
at_base joined base = record { base = base; joined = joined }

abbrev first_dir : Option SettingsDir → Option SettingsDir → Option SettingsDir
first_dir none d = d
first_dir (some d) other = some d

abbrev dir_of : List String → Option String → Option SettingsDir
dir_of joined none = none
dir_of joined (some base) = some (at_base joined base)

-- The home directory is taken as it stands, if it is not blank.
abbrev home_unless_blank : Option String → Option String
home_unless_blank none = none
home_unless_blank (some home) = if is_empty (trim home) then none else some home

unfoldable pub resolve_settings_dir : (String → Option String) → Option SettingsDir
unfolding non_empty trim
resolve_settings_dir env = first_dir (dir_of [] (non_empty (env "SMOLIT_SETTINGS_DIR"))) (
    first_dir (dir_of ("smolit-assistant" ∷ []) (non_empty (env "XDG_CONFIG_HOME")))
      (dir_of (".config" ∷ "smolit-assistant" ∷ []) (home_unless_blank (env "HOME"))))

-- The chain files and the key are the one field that their files hold. `faults` gives the messages of
-- the error that the k-th change of a file meets, if it meets one; `changes` counts the changes.
pub record Disk : Type 0 where
  pub dir : Option SettingsDir
  pub faults : ℕ → Option (List String)
  pub changes : ℕ
  pub llamafile : Option LlamafileOverrideFile
  pub stt : Option SttOverrideFile
  pub tts : Option TtsOverrideFile
  pub local_http : Option LocalHttpOverrideFile
  pub text_chain : Option (List String)
  pub stt_chain : Option (List String)
  pub tts_chain : Option (List String)
  pub cloud_http_api_key : Option String

-- A loader without a directory answers as without a file.
abbrev pub loaded : {A : Type 0} → Disk → Option A → Option A
loaded disk file = if is_some disk.dir then file else none

unfoldable pub load_llamafile_override : Disk → LlamafileOverrideFile
load_llamafile_override disk =
    or_else (loaded disk disk.llamafile)
      (record { enabled = none; mode = none; idle_timeout_seconds = none; path = none })

unfoldable pub load_stt_override : Disk → SttOverrideFile
load_stt_override disk = or_else (loaded disk disk.stt) (record { enabled = none; command = none })

unfoldable pub load_tts_override : Disk → TtsOverrideFile
load_tts_override disk =
    or_else (loaded disk disk.tts) (record { enabled = none; command = none; auto_speak = none })

unfoldable pub load_local_http_override : Disk → LocalHttpOverrideFile
load_local_http_override disk =
    or_else (loaded disk disk.local_http)
      (record { enabled = none; endpoint = none; request_timeout_seconds = none })

unfoldable pub load_text_chain_override : Disk → Option (List String)
load_text_chain_override disk = loaded disk disk.text_chain

unfoldable pub load_stt_chain_override : Disk → Option (List String)
load_stt_chain_override disk = loaded disk disk.stt_chain

unfoldable pub load_tts_chain_override : Disk → Option (List String)
load_tts_chain_override disk = loaded disk disk.tts_chain

unfoldable pub load_secrets : Disk → Option String
load_secrets disk = loaded disk disk.cloud_http_api_key
