-- ===== src/Hub/Attached.antt =====
-- cmd/salt-events/hub.go and internal/saltipc/reader.go: the connection that the status bar shows.
use go_salt_events.Base.{Bytes, List, Option, [], refl, ℤ, ◌∙◌, ◌∷◌, ◌≡◌}
use go_salt_events.Model.Event.{Event, Time}
use go_salt_events.Saltipc.Frame.{Frame}
use go_salt_events.Saltipc.Value.{Value}
use go_salt_events.Saltipc.Reader.{Call, Input, attached, decode_error, event, gap, new_reader, run}
use go_salt_events.Saltipc.Reader.Trace.{is_reading, level, run_new-level}
use go_salt_events.Hub.{Hub, deliver, deliver_all, new_hub}

module _ (decode : Option (Bytes → Option Value)) where
  deliver_all-level :
      (h : Hub) (cs : List Call) → (deliver_all decode h cs).connected ≡ level h.connected cs
  unfolding deliver_all deliver
  deliver_all-level h [] = refl
  deliver_all-level h (attached a ∷ cs) = deliver_all-level (deliver decode h (attached a)) cs
  deliver_all-level h (event e ∷ cs) = deliver_all-level (deliver decode h (event e)) cs
  deliver_all-level h (gap from to ∷ cs) = deliver_all-level (deliver decode h (gap from to)) cs
  deliver_all-level h (decode_error e ∷ cs) =
      deliver_all-level (deliver decode h (decode_error e)) cs

  -- The hub reads as connected exactly while the reader stands in `consume`, with the socket open:
  -- neither a quiet master nor a gap report, not even the one that closes an outage, changes that.
  pub connected_iff_reading :
      (build : Time → Frame → Event) (max_memory max_jobs : ℤ) (is : List Input)
      → (deliver_all decode (new_hub max_memory max_jobs) (run build new_reader is).1).connected
        ≡ is_reading (run build new_reader is).0.phase
  connected_iff_reading build max_memory max_jobs is =
      deliver_all-level (new_hub max_memory max_jobs) (run build new_reader is).1
      ∙ unfold new_hub in run_new-level build is
