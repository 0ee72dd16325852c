-- ===== src/Ui/Root/Session.antt =====
-- internal/ui/root.go beside cmd/salt-events/hub.go: messages to the root and calls of the reader, in any
-- order.
use go_salt_events.Cache.Session.{Holds}
use go_salt_events.Base.{Bytes, List, Option, [], none, some, ◌∷◌}
use go_salt_events.Saltipc.Value.{Value}
use go_salt_events.Saltipc.Reader.{Call}
use go_salt_events.Stats.Floats.{Floats}
use go_salt_events.Hub.{Hub, deliver_all}
use go_salt_events.Hub.View.{Readings}
use go_salt_events.Ui.Messages.{Msg}
use go_salt_events.Ui.Detail.Render.{Formats}
use go_salt_events.Ui.Root.{Model}
use go_salt_events.Ui.Root.Update.{update}

-- What can happen next: the loop hands a message to `Update`, or the reader calls the hub.
pub data Step : Type 0 where
  message : Readings → Msg → Step
  ingest : List Call → Step

-- The hub that the source is, when there is one, after what happens to it.
unfoldable pub on_hub : (Hub → Hub) → Option Hub → Option Hub
on_hub f none = none
on_hub f (some h) = some (f h)

module _ (fl : Floats) (fmt : Formats) (decode : Option (Bytes → Option Value)) where
  open fl use {Float}

  unfoldable pub take_step : Model Float → Step → Model Float
  unfolding on_hub
  take_step m (message t msg) = (update fl fmt t m msg).0
  take_step m (ingest cs) = record m { src = on_hub (λ h. deliver_all decode h cs) m.src }

  unfoldable pub session : Model Float → List Step → Model Float
  unfolding take_step
  session m [] = m
  session m (s ∷ ss) = session (take_step m s) ss

  -- What every step keeps, every session keeps.
  pub session-keeps :
      (Holds : Model Float → Type 0)
      → ((m : Model Float) (s : Step) → Holds m → Holds (take_step m s))
      → (m : Model Float) (ss : List Step) → Holds m
      → Holds (session m ss)
  unfolding session
  session-keeps Holds keeps m [] h = h
  session-keeps Holds keeps m (s ∷ ss) h =
      session-keeps Holds keeps (take_step m s) ss (keeps m s h)
