-- ===== src/App/Live/Restart.antt =====
-- core/src/app.rs: what a change of the settings leaves for the next start.
use smolit_assistant.Base.{
  ℕ, ◌+◌, ◌≡◌, ◌≢◌, refl, sym, ap, ◌∙◌, String, true, none, some, inl, inr, List, [], ◌∷◌,
  Option-cases, is_some, if◌then◌else◌, or_option,
}
use smolit_assistant.Config.{Config, LlamafileConfig}
use smolit_assistant.Config.Values.{normalized}
use smolit_assistant.Providers.{known_text_kinds, provider_name_abrain}
use smolit_assistant.Providers.Chain.{valid, validate_chain, validate_text_chain}
use smolit_assistant.Providers.Chain.Valid.{validate_chain_iff}
use smolit_assistant.Providers.Axes.Built.{mapped}
use smolit_assistant.Settings.{Disk}
use smolit_assistant.Settings.Saves.{
  replaced, write_file, write_override_atomic, save_text_chain_override, save_llamafile_override,
  clear_override, clear_text_chain_override,
}
use smolit_assistant.Settings.Restart.{IsStorable, save-load_text_chain, save-apply_llamafile}
use smolit_assistant.App.Live.{Live, persisted, rebuild_text}
use smolit_assistant.App.Live.Updates.{set_llamafile}
use smolit_assistant.App.Live.Chains.{
  text_chain_checked, update_text_provider_chain, reset_text_provider_chain,
}
use smolit_assistant.App.Live.Start.{chain_or, start}

-- The next change of a file succeeds.
unfoldable pub IsWritable : Disk → Type 0
IsWritable disk = (is_some disk.dir ≡ true) × (disk.faults disk.changes ≡ none)

save_writable :
    (chain : List String) (disk : Disk)
    → chain ≢ []
    → IsWritable disk
    → (save_text_chain_override chain disk).0 ≡ none
unfolding IsWritable save_text_chain_override write_override_atomic write_file
save_writable [] disk full w = absurd (full refl)
save_writable (k ∷ chain) disk full (there, fine) = rw (there, if◌then◌else◌, fine, replaced)

chain_or_full :
    (chain configured : List String) → chain ≢ [] → chain_or (some chain) configured ≡ chain
chain_or_full [] configured full = absurd (full refl)
chain_or_full (k ∷ chain) configured full = refl

kinds_full : (raw kinds : List String) → validate_text_chain raw ≡ valid kinds → kinds ≢ []
unfolding validate_text_chain
kinds_full raw kinds h =
    let (full, e, listed, distinct) = (validate_chain_iff known_text_kinds raw kinds refl).0 h in
    λ none_left. mapped normalized raw full (sym e ∙ none_left)

-- A chain that the core accepts while the disk can be written is in use from then on, and is the chain
-- of every later start, whatever its environment lists.
pub update_text_provider_chain-start :
    (raw kinds : List String) (now later : ℕ) (l : Live) (config : Config)
    → validate_text_chain raw ≡ valid kinds
    → IsWritable l.disk
    → ((update_text_provider_chain now raw l).1.live_text_chain ≡ kinds)
      × ((start config (update_text_provider_chain now raw l).1.disk later).live_text_chain ≡ kinds)
unfolding update_text_provider_chain rebuild_text start
update_text_provider_chain-start raw kinds now later l config h w =
    let full = kinds_full raw kinds h in
    (
      ap (λ v. (text_chain_checked now v l).1.live_text_chain) h,
      ap (λ v. (start config (text_chain_checked now v l).1.disk later).live_text_chain) h
          ∙ ap (λ stored. chain_or stored config.text_provider.chain)
              (save-load_text_chain kinds l.disk (save_writable kinds l.disk full w))
          ∙ chain_or_full kinds config.text_provider.chain full,
    )

cleared-IsWritable :
    (disk : Disk)
    → is_some disk.dir ≡ true
    → disk.faults (disk.changes + 1) ≡ none
    → IsWritable (clear_text_chain_override disk).1
unfolding clear_text_chain_override clear_override IsWritable
cleared-IsWritable disk there fine = elim (Option-cases (disk.faults disk.changes)) [
  | inl clear ↦ rw (there, if◌then◌else◌, clear, replaced) (there, fine)
  | inr (e, fault) ↦ rw (there, if◌then◌else◌, fault, replaced) (there, fine)
]

-- A reset of the text chain, with a directory and with a write of its file that succeeds, leaves the default chain for every later start,
-- whatever the environment lists: the deletion of the stored chain is undone by the write that follows.
pub reset_text_provider_chain-start :
    (now later : ℕ) (l : Live) (config : Config)
    → is_some l.disk.dir ≡ true
    → l.disk.faults (l.disk.changes + 1) ≡ none
    → (start config (reset_text_provider_chain now l).1.disk later).live_text_chain
      ≡ provider_name_abrain ∷ []
unfolding reset_text_provider_chain validate_text_chain validate_chain
reset_text_provider_chain-start now later l config there fine =
    (update_text_provider_chain-start (provider_name_abrain ∷ []) (provider_name_abrain ∷ []) now
      later (persisted (clear_text_chain_override l.disk) l) config refl
      (cleared-IsWritable l.disk there fine)).1

-- A storable llamafile configuration (an allowed mode, a positive time, a path that is trimmed or
-- missing) that is set while the disk can be written is in use from then on, and at every later start,
-- save that a missing path is then taken from the environment again.
pub set_llamafile-start :
    (merged : LlamafileConfig) (now later : ℕ) (l : Live) (config : Config)
    → IsStorable merged
    → IsWritable l.disk
    → ((set_llamafile now merged l).live_llamafile ≡ merged)
      × ((start config (set_llamafile now merged l).disk later).live_llamafile
          ≡ record (config.text_provider.llamafile) {
            enabled = merged.enabled;
            mode = merged.mode;
            idle_timeout_seconds = merged.idle_timeout_seconds;
            path = or_option merged.path config.text_provider.llamafile.path;
          })
unfolding set_llamafile rebuild_text start save_llamafile_override write_override_atomic write_file
    IsWritable
set_llamafile-start merged now later l config storable (there, fine) = (
  refl,
  save-apply_llamafile merged config.text_provider.llamafile l.disk storable
      (rw (there, if◌then◌else◌, fine, replaced)),
)
