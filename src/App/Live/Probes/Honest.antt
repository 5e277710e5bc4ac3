-- ===== src/App/Live/Probes/Honest.antt =====
-- core/src/app.rs: a probe reports success only of what is in use and set.
use smolit_assistant.Base.{◌≡◌, true}
use smolit_assistant.Messages.{SettingsProbeResultPayload}
use smolit_assistant.Providers.Outside.{Outside}
use smolit_assistant.App.Live.{Live}

-- Success means that the provider is in the chain, is enabled, and has what it needs.
pub IsHonest : SettingsProbeResultPayload → Type 0
IsHonest p = p.ok ≡ true → (p.in_chain ≡ true) × (p.enabled ≡ true) × (p.configured ≡ true)
