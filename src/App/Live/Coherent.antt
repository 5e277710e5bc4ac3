-- ===== src/App/Live/Coherent.antt =====
-- core/src/app.rs: whatever the settings are changed to, the providers are those of the live values.
use smolit_assistant.Base.{ℕ, List, [], ◌∷◌}
use smolit_assistant.Config.{Config}
use smolit_assistant.Settings.{Disk}
use smolit_assistant.App.Live.{Live}
use smolit_assistant.App.Live.Start.{start}
use smolit_assistant.App.Live.Agrees.{Agrees, SettingsStep, changed, changed-Agrees, start-Agrees}

-- Each resolver is what the live values build, the text resolver at some reading of the clock.
pub IsCoherent : Live → Type 0
IsCoherent l = Agrees (λ r. r) (λ r. r) (λ r. r) l

unfoldable pub run_changes : List SettingsStep → Live → Live
unfolding changed
run_changes [] l = l
run_changes (step ∷ steps) l = run_changes steps (changed step l).1

run-IsCoherent :
    (steps : List SettingsStep) (l : Live) → IsCoherent l → IsCoherent (run_changes steps l)
unfolding run_changes IsCoherent
run-IsCoherent [] l c = c
run-IsCoherent (step ∷ steps) l c =
    run-IsCoherent steps _ (changed-Agrees (λ r. r) (λ r. r) (λ r. r) step l c)

-- After any changes of the settings since the start, whatever was refused and whatever could not be
-- written, the resolvers of the three axes are the ones that the live values build: the text resolver
-- at some reading of the clock, the other two exactly.
pub run_changes-IsCoherent :
    (config : Config) (disk : Disk) (now : ℕ) (steps : List SettingsStep)
    → IsCoherent (run_changes steps (start config disk now))
unfolding IsCoherent
run_changes-IsCoherent config disk now steps =
    run-IsCoherent steps _ (start-Agrees (λ r. r) (λ r. r) (λ r. r) config disk now)
