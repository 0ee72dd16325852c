-- ===== src/Ui/Root/Paused.antt =====
-- internal/ui/root.go: what a pause stops, and what it does not.
use go_salt_events.Base.{
  Bytes, List, Option, [], ap, if◌then◌else◌, map, none, refl, some, true, ◌∙◌, ◌∷◌, ◌≡◌,
}
use go_salt_events.Saltipc.Value.{Value}
use go_salt_events.Saltipc.Reader.{Call}
use go_salt_events.Stats.Floats.{Floats}
use go_salt_events.Hub.{Hub, deliver_all, pin_job}
use go_salt_events.Hub.View.{Readings}
use go_salt_events.Ui.Messages.{tick}
use go_salt_events.Ui.Detail.Render.{Formats}
use go_salt_events.Ui.Root.{Model, pin_on, pinned_of, sync_pin}
use go_salt_events.Ui.Root.Update.{refresh, update}
use go_salt_events.Ui.Root.Session.{Step, ingest, message, on_hub, session, take_step}

-- The steps with no key and no other message: a tick, or the reader's calls.
pub data Beat : Type 0 where
  beat : Readings → Beat
  arrive : List Call → Beat

abbrev pub step_of : Beat → Step
step_of (beat t) = message t tick
step_of (arrive cs) = ingest cs

-- Pinning is all that a tick always does to the source.
pin_on-src :
    {F : Type 0} (m : Model F) (src : Option Hub)
    → m.src ≡ src
    → pin_on m src ≡ record m { src = on_hub (λ h. pin_job h (pinned_of m.panes)) src }
unfolding pin_on on_hub
pin_on-src m none e = ap (λ s. record m { src = s }) e
pin_on-src m (some h) e = refl

sync_pin-src :
    {F : Type 0} (m : Model F)
    → sync_pin m ≡ record m { src = on_hub (λ h. pin_job h (pinned_of m.panes)) m.src }
unfolding sync_pin
sync_pin-src m = pin_on-src m m.src refl

module _ (fl : Floats) (fmt : Formats) (decode : Option (Bytes → Option Value)) where
  open fl use {Float}

  -- What the hub gets from the reader and from the pane that holds the job open, in that order.
  unfoldable pub heard : Bytes → Option Hub → List Beat → Option Hub
  heard jid src [] = src
  heard jid src (beat t ∷ bs) = heard jid (on_hub (λ h. pin_job h jid) src) bs
  heard jid src (arrive cs ∷ bs) = heard jid (on_hub (λ h. deliver_all decode h cs) src) bs

  paused_tick :
      (t : Readings) (m : Model Float)
      → m.paused ≡ true
      → take_step fl fmt decode m (message t tick)
        ≡ record m { src = on_hub (λ h. pin_job h (pinned_of m.panes)) m.src }
  unfolding take_step update
  paused_tick t m still =
      let n : Model Float = record m { src = on_hub (λ h. pin_job h (pinned_of m.panes)) m.src } in
      ap (λ (x : Model Float). if x.paused then x else refresh fl t x) (sync_pin-src m)
      ∙ ap (λ b. if b then n else refresh fl t n) still

  -- While the view is paused, ticks and the reader's calls change nothing of the model but its source, and
  -- the source hears every one of the calls and every pin.
  pub paused_session :
      (m : Model Float) (bs : List Beat)
      → m.paused ≡ true
      → session fl fmt decode m (map step_of bs)
        ≡ record m { src = heard (pinned_of m.panes) m.src bs }
  unfolding session heard
  paused_session m [] still = refl
  paused_session m (beat t ∷ bs) still =
      ap (λ x. session fl fmt decode x (map step_of bs)) (paused_tick t m still)
      ∙ paused_session (record m { src = on_hub (λ h. pin_job h (pinned_of m.panes)) m.src }) bs
          still
  paused_session m (arrive cs ∷ bs) still =
      ap (λ x. session fl fmt decode x (map step_of bs)) (unfold take_step in refl)
      ∙ paused_session (record m { src = on_hub (λ h. deliver_all decode h cs) m.src }) bs still
