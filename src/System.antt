-- ===== src/System.antt =====
-- The core as a transition system: a client's request (core/src/ipc/server.rs), the passing of a
-- deadline, and the continuation of a background task (core/src/app.rs) are its steps.
pub mod Gate
pub mod Whole
use smolit_assistant.Base.{ℕ, List, [], ◌∷◌}
use smolit_assistant.Messages.{OutgoingMessage}
use smolit_assistant.App.State.{Env, App}
use smolit_assistant.App.Tasks.{elapse, finish}
use smolit_assistant.Ipc.{IncomingMessage, handle}

-- `finishes i` runs the continuation of task `i`, if what it waits for is there.
pub data Event : Type 0 where
  requests : IncomingMessage → Event
  elapses : ℕ → Event
  finishes : ℕ → Event

module _ {W : Type 0} (env : Env W) where
  -- The messages that the requesting client is answered, and the state.
  unfoldable pub step : Event → App W → List OutgoingMessage × App W
  unfolding handle elapse finish
  step (requests message) s = handle env message s
  step (elapses i) s = ([], elapse i s)
  step (finishes i) s = ([], finish env i s)

  unfoldable pub run : List Event → App W → App W
  unfolding step
  run [] s = s
  run (e ∷ es) s = run es (step e s).1
