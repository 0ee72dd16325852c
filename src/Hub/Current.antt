-- ===== src/Hub/Current.antt =====
-- cmd/salt-events/hub.go: calls that speak of the present keep the rings in the present.
use go_salt_events.Base.{Bytes, List, Option, [], arith, refl, subst, sym, ◌++◌, ◌/◌, ◌∷◌, ◌≡◌, ◌≤◌}
use go_salt_events.Model.Event.{Time}
use go_salt_events.Saltipc.Value.{Value}
use go_salt_events.Saltipc.Reader.{Call, attached, decode_error, event, gap}
use go_salt_events.Stats.Rings
use go_salt_events.Stats.Rings.{Rings, mark_gap, unix}
use go_salt_events.Stats.Rings.Gaps.{IsFull, advance-Advanced}
use go_salt_events.Stats.Rings.Outage.{add-IsFull, mark_gap-Reported}
use go_salt_events.Hub.{Hub, deliver, deliver_all, on_event}

-- The rings have been told of no time after `t`.
pub record Current (t : Time) (r : Rings) : Type 0 where
  pub full : IsFull r
  pub head : r.sec_epoch ≤ unix t
  pub through : r.gap_through ≤ t

unix_mono : (s t : Time) → s ≤ t → unix s ≤ unix t
unfolding unix
unix_mono s t h = omega arith

-- A call that speaks of the time `t`.
abbrev pub At : Time → Call → Type 0
At t (event e) = e.arrival ≡ t
At t (gap from to) = (from ≤ to) × (to ≡ t)
At t (decode_error _) = Unit {0}
At t (attached _) = Unit {0}

abbrev pub AllAt : Time → List Call → Type 0
AllAt t [] = Unit {0}
AllAt t (c ∷ cs) = At t c × AllAt t cs

add-Current : (t : Time) (r : Rings) → Current t r → Current t (Rings.add r t)
add-Current t r h =
    let d = advance-Advanced r (unix t) (unix t / 60) h.full h.head in
    let (full, head) = add-IsFull r t h.full h.head in
    record {
      full = full;
      head = omega (arith, head);
      through = unfold Rings.add in omega (arith, d.gap_through, h.through);
    }

mark_gap-Current :
    (from t : Time) (r : Rings) → from ≤ t → Current t r → Current t (mark_gap r from t)
mark_gap-Current from t r le h =
    let p = mark_gap-Reported r from t h.full h.head h.through le in
    record { full = p.full; head = omega (arith, p.head); through = omega (arith, p.gap_through) }

module _ (decode : Option (Bytes → Option Value)) where
  deliver-Current :
      (t : Time) (h : Hub) (c : Call)
      → At t c
      → Current t h.rings
      → Current t (deliver decode h c).rings
  unfolding deliver on_event
  deliver-Current t h (event e) at k =
      subst (λ x. Current t (Rings.add h.rings x)) (sym at) (add-Current t h.rings k)
  deliver-Current t h (gap from to) (le, at) k =
      subst (λ x. Current t (mark_gap h.rings from x)) (sym at)
        (mark_gap-Current from t h.rings (omega arith) k)
  deliver-Current t h (decode_error e) at k = k
  deliver-Current t h (attached a) at k = k

  pub deliver_all-Current :
      (t : Time) (h : Hub) (cs : List Call)
      → AllAt t cs
      → Current t h.rings
      → Current t (deliver_all decode h cs).rings
  unfolding deliver_all
  deliver_all-Current t h [] at k = k
  deliver_all-Current t h (c ∷ cs) (at, ats) k =
      deliver_all-Current t (deliver decode h c) cs ats (deliver-Current t h c at k)

  pub deliver_all-append :
      (h : Hub) (cs ds : List Call)
      → deliver_all decode h (cs ++ ds) ≡ deliver_all decode (deliver_all decode h cs) ds
  unfolding deliver_all
  deliver_all-append h [] ds = refl
  deliver_all-append h (c ∷ cs) ds = deliver_all-append (deliver decode h c) cs ds

pub Current-later : (s t : Time) (r : Rings) → s ≤ t → Current s r → Current t r
Current-later s t r le h =
    let later = unix_mono s t le in
    record {
      full = h.full;
      head = omega (arith, h.head, later);
      through = omega (arith, h.through);
    }
