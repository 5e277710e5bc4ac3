-- ===== src/App/Live/Start.antt =====
-- core/src/app.rs: App::new, the live values and the providers at the start.
use smolit_assistant.App.Live.{
  Live, llamafile_view_from, local_http_view_from, cloud_http_view_from,
}
use smolit_assistant.Base.{ℕ, String, Option, none, some, List, [], ◌∷◌}
use smolit_assistant.Config.{Config, AudioConfig}
use smolit_assistant.Providers.Axes.{text_from_chain, stt_from_chain, tts_from_chain}
use smolit_assistant.Settings.{
  Disk, load_llamafile_override, load_stt_override, load_tts_override, load_local_http_override,
  load_text_chain_override, load_stt_chain_override, load_tts_chain_override, load_secrets,
}
use smolit_assistant.Settings.Overrides.{
  apply_llamafile_override, apply_stt_override, apply_tts_override, apply_local_http_override,
}

-- A stored chain goes before the configured one, if it has an entry.
abbrev pub chain_or : Option (List String) → List String → List String
chain_or none configured = configured
chain_or (some []) configured = configured
chain_or (some (kind ∷ chain)) configured = kind ∷ chain

unfoldable pub start_audio : AudioConfig → Disk → AudioConfig
unfolding apply_stt_override apply_tts_override load_stt_override load_tts_override
    load_stt_chain_override load_tts_chain_override
start_audio audio disk =
    let staged = record (apply_stt_override audio (load_stt_override disk)) {
      stt_provider_chain = chain_or (load_stt_chain_override disk) audio.stt_provider_chain;
    } in
    record (apply_tts_override staged (load_tts_override disk)) {
      tts_provider_chain = chain_or (load_tts_chain_override disk) audio.tts_provider_chain;
    }

-- The resolvers at the start; `calls` counts on from the reading of the clock.
unfoldable pub start : Config → Disk → ℕ → Live
unfolding start_audio text_from_chain stt_from_chain tts_from_chain llamafile_view_from
    local_http_view_from cloud_http_view_from apply_llamafile_override apply_local_http_override
    load_llamafile_override load_local_http_override load_text_chain_override load_secrets
start config disk now =
    let chain = chain_or (load_text_chain_override disk) config.text_provider.chain in
    let llamafile =
      apply_llamafile_override config.text_provider.llamafile (load_llamafile_override disk) in
    let local =
      apply_local_http_override config.text_provider.local_http (load_local_http_override disk) in
    let audio = start_audio config.audio disk in
    record {
      abrain_cmd = config.abrain_cmd;
      text_provider = text_from_chain chain (record {
        abrain_cmd = config.abrain_cmd;
        llamafile = llamafile_view_from llamafile;
        local = local_http_view_from local;
        cloud = cloud_http_view_from config.text_provider.cloud_http (load_secrets disk);
        now = now;
      });
      stt = stt_from_chain audio.stt_provider_chain audio;
      tts = tts_from_chain audio.tts_provider_chain audio;
      live_text_chain = chain;
      live_llamafile = llamafile;
      live_audio = audio;
      live_local_http = local;
      live_cloud_http = config.text_provider.cloud_http;
      cloud_http_api_key = load_secrets disk;
      disk = disk;
      calls = 0;
    }
