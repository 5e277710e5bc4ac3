-- ===== src/System/Whole/Consistent.antt =====
-- The whole core and its providers: each resolver stays with the kinds of providers that its chain lists.
use smolit_assistant.Base.{ℕ, ◌≡◌, refl, ap, ◌∙◌, String, Option, List, [], ◌∷◌, if_both, map}
use smolit_assistant.Config.{CliArgs}
use smolit_assistant.Config.Load.{load}
use smolit_assistant.Settings.{Disk}
use smolit_assistant.Providers.Llamafile.{watchdog_tick}
use smolit_assistant.Providers.Llamafile.Settled.{IsSettled, watchdog_tick-IsSettled}
use smolit_assistant.Providers.Axes.{
  TextProviderImpl, abrain, llamafile_local, local_http, cloud_http, text_kind_name, text_kinds,
  stt_kinds, tts_kinds,
}
use smolit_assistant.Providers.Axes.Settled.{SettledIf, AllSettled}
use smolit_assistant.App.State.{Env, App}
use smolit_assistant.App.Live.{Live}
use smolit_assistant.App.Live.Agrees.{text-Agrees}
use smolit_assistant.App.Live.Consistent.{IsConsistent}
use smolit_assistant.Ipc.Services.{Services}
use smolit_assistant.Ipc.Services.Consistent.{start-IsConsistent, handle_service-IsConsistent}
use smolit_assistant.System.Whole.{
  boot, watched, watch, WholeEvent, acts, serves, checks, whole_step, run_whole,
}

watched_kind : (now : ℕ) (p : TextProviderImpl) → text_kind_name (watched now p) ≡ text_kind_name p
unfolding watched text_kind_name
watched_kind now (abrain p) = refl
watched_kind now (llamafile_local p) = refl
watched_kind now (local_http c) = refl
watched_kind now (cloud_http c) = refl

watched_kinds :
    (now : ℕ) (ps : List TextProviderImpl)
    → map text_kind_name (map (watched now) ps) ≡ map text_kind_name ps
watched_kinds now [] = refl
watched_kinds now (p ∷ ps) =
    ap (λ k. k ∷ map text_kind_name (map (watched now) ps)) (watched_kind now p)
    ∙ ap (λ ks. text_kind_name p ∷ ks) (watched_kinds now ps)

watched-SettledIf : (now : ℕ) (p : TextProviderImpl) → SettledIf p → SettledIf (watched now p)
unfolding watched
watched-SettledIf now (abrain p) h = h
watched-SettledIf now (llamafile_local p) h =
    if_both IsSettled p.watchdog_running (watchdog_tick now p) p
      (λ on. watchdog_tick-IsSettled now p h) (λ off. h)
watched-SettledIf now (local_http c) h = h
watched-SettledIf now (cloud_http c) h = h

watched-AllSettled :
    (now : ℕ) (ps : List TextProviderImpl) → AllSettled ps → AllSettled (map (watched now) ps)
watched-AllSettled now [] h = h
watched-AllSettled now (p ∷ ps) (h, hs) = (watched-SettledIf now p h, watched-AllSettled now ps hs)

watch-IsConsistent : (now : ℕ) (l : Live) → IsConsistent l → IsConsistent (watch now l)
unfolding watch IsConsistent
watch-IsConsistent now l (a, h) = (
  text-Agrees text_kinds stt_kinds tts_kinds
      (record (l.text_provider) { providers = map (watched now) l.text_provider.providers }) l.calls
      l (watched_kinds now l.text_provider.providers) a,
  watched-AllSettled now l.text_provider.providers h,
)

module _ {W : Type 0} (env : Env W) (v : Services) where
  whole_run-IsConsistent :
      (es : List WholeEvent) (state : App W × Live)
      → IsConsistent state.1
      → IsConsistent (run_whole env v es state).1
  unfolding run_whole whole_step
  whole_run-IsConsistent [] state c = c
  whole_run-IsConsistent (acts e ∷ es) (s, l) c = whole_run-IsConsistent es _ c
  whole_run-IsConsistent (serves msg ∷ es) (s, l) c =
      whole_run-IsConsistent es _ (handle_service-IsConsistent v msg s l c)
  whole_run-IsConsistent (checks now ∷ es) (s, l) c =
      whole_run-IsConsistent es (s, watch now l) (watch-IsConsistent now l c)

  -- Whatever happens to the core since its start, whatever clients ask and whatever happens outside: the
  -- resolver of each axis holds the kinds of providers that are built from the live chain and the live
  -- values, in the order of the chain, and a llamafile provider holds a server exactly in the lifecycle
  -- `ready`.
  pub boot_run-IsConsistent :
      (args : CliArgs) (vars : String → Option String) (dotenv : List (String × String))
      (disk : Disk) (capacity now : ℕ) (w : W) (es : List WholeEvent)
      → IsConsistent (run_whole env v es (boot args vars dotenv disk capacity now w)).1
  unfolding boot
  boot_run-IsConsistent args vars dotenv disk capacity now w es =
      whole_run-IsConsistent es (boot args vars dotenv disk capacity now w)
        (start-IsConsistent (load args vars dotenv) disk now)
