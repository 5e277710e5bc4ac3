-- ===== src/Config/Load.antt =====
-- core/src/config.rs: Config::load. The command line, the process environment and the entries of the
-- `.env` file are given.
use smolit_assistant.Base.{
  ◌≡◌, refl, String, true, false, Option, none, some, List, [], ◌∷◌, or_else, or_option,
}
use smolit_assistant.Config.{
  Config, CliArgs, AudioConfig, InteractionConfig, TextProviderConfig, LlamafileConfig,
  LocalHttpConfig, CloudHttpConfig, default_abrain_cmd, default_log_level,
  default_stt_timeout_seconds, default_tts_timeout_seconds, default_ipc_bind,
  default_interaction_backend, default_interaction_allow_open_app,
  default_interaction_allow_focus_window, default_interaction_allow_type_text,
  default_interaction_allow_shortcuts, default_interaction_require_confirmation,
  default_approval_timeout_seconds, default_stt_provider_chain, default_tts_provider_chain,
  default_llamafile_idle_timeout_seconds, default_llamafile_startup_timeout_seconds,
  default_llamafile_request_timeout_seconds, default_local_http_request_timeout_seconds,
  default_local_http_prompt_field, default_local_http_response_field,
  default_cloud_http_request_timeout_seconds, default_cloud_http_prompt_field,
  default_cloud_http_response_field, default_cloud_http_auth_header,
}
use smolit_assistant.Config.Values.{
  parse_bool, parse_u64, non_empty, parse_audio_provider_chain, parse_text_provider_chain,
  parse_llamafile_mode, parse_llamafile_port,
}
use smolit_assistant.Config.Dotenv.{get}

-- The environment goes before the `.env` file.
unfoldable pub lookup : (String → Option String) → List (String × String) → String → Option String
unfolding get
lookup env dotenv key = or_option (env key) (get key dotenv)

module _ (look : String → Option String) where
  unfoldable pub load_audio : AudioConfig
  unfolding parse_bool parse_u64 non_empty parse_audio_provider_chain
  load_audio = record {
    tts_enabled = parse_bool (look "SMOLIT_TTS_ENABLED") true;
    tts_cmd = non_empty (look "SMOLIT_TTS_CMD");
    tts_timeout_seconds = parse_u64 (look "SMOLIT_TTS_TIMEOUT_SECONDS") default_tts_timeout_seconds;
    stt_enabled = parse_bool (look "SMOLIT_STT_ENABLED") true;
    stt_cmd = non_empty (look "SMOLIT_STT_CMD");
    stt_whisper_cpp_cmd = non_empty (look "SMOLIT_STT_WHISPER_CPP_CMD");
    tts_piper_cmd = non_empty (look "SMOLIT_TTS_PIPER_CMD");
    stt_timeout_seconds = parse_u64 (look "SMOLIT_STT_TIMEOUT_SECONDS") default_stt_timeout_seconds;
    auto_speak = parse_bool (look "SMOLIT_AUDIO_AUTO_SPEAK") true;
    stt_provider_chain =
        parse_audio_provider_chain (look "SMOLIT_STT_PROVIDER_CHAIN") default_stt_provider_chain;
    tts_provider_chain =
        parse_audio_provider_chain (look "SMOLIT_TTS_PROVIDER_CHAIN") default_tts_provider_chain;
  }

  unfoldable pub load_interaction : InteractionConfig
  unfolding parse_bool non_empty
  load_interaction = record {
    enabled = parse_bool (look "SMOLIT_INTERACTION_ENABLED") true;
    backend = or_else (non_empty (look "SMOLIT_INTERACTION_BACKEND")) default_interaction_backend;
    allow_open_application =
        parse_bool (look "SMOLIT_INTERACTION_ALLOW_OPEN_APP") default_interaction_allow_open_app;
    allow_focus_window =
        parse_bool (look "SMOLIT_INTERACTION_ALLOW_FOCUS_WINDOW")
          default_interaction_allow_focus_window;
    allow_type_text =
        parse_bool (look "SMOLIT_INTERACTION_ALLOW_TYPE_TEXT") default_interaction_allow_type_text;
    allow_shortcuts =
        parse_bool (look "SMOLIT_INTERACTION_ALLOW_SHORTCUTS") default_interaction_allow_shortcuts;
    require_confirmation =
        parse_bool (look "SMOLIT_INTERACTION_REQUIRE_CONFIRMATION")
          default_interaction_require_confirmation;
    open_app_cmd_template = non_empty (look "SMOLIT_INTERACTION_OPEN_APP_CMD");
    focus_window_cmd_template = non_empty (look "SMOLIT_INTERACTION_FOCUS_WINDOW_CMD");
  }

  unfoldable pub load_llamafile : LlamafileConfig
  unfolding parse_bool parse_u64 non_empty parse_llamafile_mode parse_llamafile_port
  load_llamafile = record {
    enabled = parse_bool (look "SMOLIT_LLAMAFILE_ENABLED") false;
    path = non_empty (look "SMOLIT_LLAMAFILE_PATH");
    mode = parse_llamafile_mode (look "SMOLIT_LLAMAFILE_MODE");
    idle_timeout_seconds =
        parse_u64 (look "SMOLIT_LLAMAFILE_IDLE_TIMEOUT_SECONDS")
          default_llamafile_idle_timeout_seconds;
    port = parse_llamafile_port (look "SMOLIT_LLAMAFILE_PORT");
    startup_timeout_seconds =
        parse_u64 (look "SMOLIT_LLAMAFILE_STARTUP_TIMEOUT_SECONDS")
          default_llamafile_startup_timeout_seconds;
    request_timeout_seconds =
        parse_u64 (look "SMOLIT_LLAMAFILE_REQUEST_TIMEOUT_SECONDS")
          default_llamafile_request_timeout_seconds;
  }

  unfoldable pub load_local_http : LocalHttpConfig
  unfolding parse_bool parse_u64 non_empty
  load_local_http = record {
    enabled = parse_bool (look "SMOLIT_LOCAL_HTTP_ENABLED") false;
    endpoint = non_empty (look "SMOLIT_LOCAL_HTTP_ENDPOINT");
    request_timeout_seconds =
        parse_u64 (look "SMOLIT_LOCAL_HTTP_REQUEST_TIMEOUT_SECONDS")
          default_local_http_request_timeout_seconds;
    prompt_field =
        or_else (non_empty (look "SMOLIT_LOCAL_HTTP_PROMPT_FIELD")) default_local_http_prompt_field;
    response_field =
        or_else (non_empty (look "SMOLIT_LOCAL_HTTP_RESPONSE_FIELD"))
          default_local_http_response_field;
  }

  unfoldable pub load_cloud_http : CloudHttpConfig
  unfolding parse_bool parse_u64 non_empty
  load_cloud_http = record {
    enabled = parse_bool (look "SMOLIT_CLOUD_HTTP_ENABLED") false;
    endpoint = non_empty (look "SMOLIT_CLOUD_HTTP_ENDPOINT");
    model = non_empty (look "SMOLIT_CLOUD_HTTP_MODEL");
    request_timeout_seconds =
        parse_u64 (look "SMOLIT_CLOUD_HTTP_REQUEST_TIMEOUT_SECONDS")
          default_cloud_http_request_timeout_seconds;
    prompt_field =
        or_else (non_empty (look "SMOLIT_CLOUD_HTTP_PROMPT_FIELD")) default_cloud_http_prompt_field;
    response_field =
        or_else (non_empty (look "SMOLIT_CLOUD_HTTP_RESPONSE_FIELD"))
          default_cloud_http_response_field;
    auth_header =
        or_else (non_empty (look "SMOLIT_CLOUD_HTTP_AUTH_HEADER")) default_cloud_http_auth_header;
  }

  unfoldable pub load_text_provider : TextProviderConfig
  unfolding parse_text_provider_chain load_llamafile load_local_http load_cloud_http
  load_text_provider = record {
    chain = parse_text_provider_chain (look "SMOLIT_TEXT_PROVIDER_CHAIN");
    llamafile = load_llamafile;
    local_http = load_local_http;
    cloud_http = load_cloud_http;
  }

  unfoldable pub load_config : CliArgs → Config
  unfolding parse_bool parse_u64 non_empty load_audio load_interaction load_text_provider
  load_config args = record {
    abrain_cmd = or_else (or_option args.abrain_cmd (look "ABRAIN_CMD")) default_abrain_cmd;
    log_level = or_else (or_option args.log_level (look "LOG_LEVEL")) default_log_level;
    audio = load_audio;
    ipc = record {
      enabled = parse_bool (look "SMOLIT_IPC_ENABLED") true;
      bind = or_else (non_empty (look "SMOLIT_IPC_BIND")) default_ipc_bind;
    };
    interaction = load_interaction;
    accessibility = record {
      rpc_enabled = parse_bool (look "SMOLIT_ACCESSIBILITY_RPC_ENABLED") false;
    };
    approval = record {
      timeout_seconds =
          parse_u64 (look "SMOLIT_APPROVAL_TIMEOUT_SECONDS") default_approval_timeout_seconds;
    };
    text_provider = load_text_provider;
  }

unfoldable pub load : CliArgs → (String → Option String) → List (String × String) → Config
unfolding load_config lookup
load args env dotenv = load_config (lookup env dotenv) args

-- The environment does not hide a key of the file that it does not set.
lookup_test : lookup (λ key. none) (("ABRAIN_CMD", "a") ∷ []) "ABRAIN_CMD" ≡ some "a"
unfolding lookup
lookup_test = refl
