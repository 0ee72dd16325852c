-- ===== src/Saltipc/Reader/Build.antt =====
-- internal/saltipc/reader.go, `build`: a frame as an event.
use go_salt_events.Base.{Bytes, [], false, some, ◌∷◌}
use go_salt_events.Model.Event.{Event, Time}
use go_salt_events.SaltTag.{parse}
use go_salt_events.Saltipc.Frame.{Frame}
use go_salt_events.Saltipc.Codec.{Decoder, Fields, extract_fields, is_master_trimmed}

-- `if a == "" { a = b }`
abbrev pub or_text : Bytes → Bytes → Bytes
or_text [] b = b
or_text (c ∷ a) b = c ∷ a

-- `buildEvent`
unfoldable pub build_event : Time → Bytes → Fields → Bytes → Event
unfolding is_master_trimmed
build_event arrival tag fields payload =
    let info = parse tag in
    record {
      arrival = arrival;
      stamp = fields.stamp;
      tag = tag;
      namespace = info.namespace;
      category = info.category;
      jid = or_text fields.jid info.jid;
      minion = or_text fields.id info.minion;
      fun = fields.fun;
      kind = info.kind;
      ret_code = fields.ret_code;
      success = fields.success;
      has_ret = fields.has_ret;
      payload = some payload;
      shed = false;
      master_trimmed = is_master_trimmed payload;
    }

-- `build`
unfoldable pub build : Decoder → Time → Frame → Event
unfolding build_event
build d now f = build_event now f.tag (extract_fields d f.payload) f.payload
