-- ===== src/Export/Write/Safe.antt =====
-- internal/export/export.go: `Write`, from its first test to what is left.
use go_salt_events.Saltipc.Value.{Value}
use go_salt_events.Export.Options.{
  Library, Options, Outcome, Written, exported, failed, min_headroom, not_chowned,
}
use go_salt_events.Model.Event.{Event}
use go_salt_events.Base.{
  Bool-cases, Bytes, List, Option, Option-cases, [], arith, bytes_eq, exceeds, false, inl, inr,
  negsuc, none, pos, reaches, refl, some, subst, sym, ℕ, ℤ, ◌+◌, ◌≡◌, ◌≤◌, ◌⊎◌,
}
use go_salt_events.Export.Write.{estimate, preflight, write, write_file}
use go_salt_events.Config.Paths.{clean}
use go_salt_events.Export.Disk.{Disk, System}
use go_salt_events.Export.Write.Lines.{Kept}
use go_salt_events.Export.Write.Outcomes.{Complete, Leaves, write_file-Leaves}

-- An export that was fit to be written, and was.
pub record Safely (lib : Library) (d : Disk) (o : Options) (es : List Event) (res : Written)
    (d' : Disk) : Type 0 where
  pub decode : Bytes → Option Value
  pub available : Bytes → Option (ℕ × ℕ)
  pub avail : ℕ
  pub total : ℕ
  pub decoder : o.decode ≡ some decode
  pub checker : o.space ≡ some available
  pub answer : available (clean o.dir) ≡ some (avail, total)
  pub room : estimate lib es + min_headroom ≤ avail
  pub estimated : exceeds (estimate lib es) o.max ≡ false
  pub complete : Complete lib decode d o.max es res d'

-- What an export leaves: a failure, the disk as it was unless a file that it made cannot be removed; a file,
-- and then the events as estimated fit the limit and leave a gibibyte free, or more.
abbrev pub Says : Library → System → Disk → Options → List Event → Outcome × Disk → Type 0
Says lib sys d o es (failed err, d') = Kept d d' ⊎ (sys.removes ≡ false)
Says lib sys d o es (exported res, d') = Safely lib d o es res d'
Says lib sys d o es (not_chowned res, d') = Safely lib d o es res d'

preflight-none :
    (lib : Library) (es : List Event) (limit : ℤ) (room : Option (ℕ × ℕ))
    → preflight lib es limit room ≡ none
    → (avail : ℕ) × (total : ℕ) × (room ≡ some (avail, total))
      × (estimate lib es + min_headroom ≤ avail)
      × (exceeds (estimate lib es) limit ≡ false)
unfolding preflight
preflight-none lib es limit none h = ground (arith, h)
preflight-none lib es limit (some (avail, total)) h =
    (avail, total, refl, ground (arith, h), ground (arith, h))

Complete-Safely :
    (lib : Library) (d : Disk) (o : Options) (es : List Event) (decode : Bytes → Option Value)
    (available : Bytes → Option (ℕ × ℕ)) (res : Written) (d' : Disk)
    → o.decode ≡ some decode
    → o.space ≡ some available
    → preflight lib es o.max (available (clean o.dir)) ≡ none
    → Complete lib decode d o.max es res d'
    → Safely lib d o es res d'
Complete-Safely lib d o es decode available res d' dec sp ok h =
    let (avail, total, answer, room, fits) =
      preflight-none lib es o.max (available (clean o.dir)) ok in
    record {
      decode = decode;
      available = available;
      avail = avail;
      total = total;
      decoder = dec;
      checker = sp;
      answer = answer;
      room = room;
      estimated = fits;
      complete = h;
    }

Leaves-Says :
    (lib : Library) (sys : System) (d : Disk) (o : Options) (es : List Event)
    (decode : Bytes → Option Value) (available : Bytes → Option (ℕ × ℕ)) (r : Outcome × Disk)
    → o.decode ≡ some decode
    → o.space ≡ some available
    → preflight lib es o.max (available (clean o.dir)) ≡ none
    → Leaves lib decode sys d o.max es r
    → Says lib sys d o es r
Leaves-Says lib sys d o es decode available (failed err, d') dec sp ok h = h
Leaves-Says lib sys d o es decode available (exported res, d') dec sp ok h =
    Complete-Safely lib d o es decode available res d' dec sp ok h
Leaves-Says lib sys d o es decode available (not_chowned res, d') dec sp ok h =
    Complete-Safely lib d o es decode available res d' dec sp ok h

reaches-room : (limit : ℤ) → reaches 0 limit ≡ false → exceeds 0 limit ≡ false
reaches-room (pos n) h = ground (arith, h)
reaches-room (negsuc n) h = ground (arith, h)

-- `Write`, once every test has passed.
write_fit :
    (lib : Library) (sys : System) (d : Disk) (o : Options) (es : List Event)
    (decode : Bytes → Option Value) (available : Bytes → Option (ℕ × ℕ))
    → bytes_eq o.dir [] ≡ false
    → reaches 0 o.max ≡ false
    → o.space ≡ some available
    → o.decode ≡ some decode
    → preflight lib es o.max (available (clean o.dir)) ≡ none
    → write lib sys d o es ≡ write_file lib sys d decode (record o { dir = clean o.dir }) es
unfolding write
write_fit lib sys d o es decode available somewhere some_room sp dec ok =
    simp (somewhere, some_room, sp, dec, ok) refl

-- An export is whole or it is not there. When it succeeds, a path that was free holds the lines of all the
-- events, in order and within the limit; every other path reads as before; the estimate was within
-- the limit too; and the free space was at least a gibibyte more than the estimate. When it fails,
-- whatever it was that failed, every path reads as before, the partial file's included, unless the
-- system refused to remove that file. A failure to hand the file over leaves it in place.
pub write-Says :
    (lib : Library) (sys : System) (d : Disk) (o : Options) (es : List Event)
    → Says lib sys d o es (write lib sys d o es)
unfolding write
write-Says lib sys d o es = elim (Bool-cases (bytes_eq o.dir [])) [
  | inl nowhere ↦ rw (write, nowhere) (inl (λ p. refl))
  | inr somewhere ↦ elim (Bool-cases (reaches 0 o.max)) [
    | inl nothing ↦ rw (write, somewhere, nothing) (inl (λ p. refl))
    | inr some_room ↦ elim (Option-cases o.space) [
      | inl blind ↦ rw (write, somewhere, some_room, blind) (inl (λ p. refl))
      | inr (available, sp) ↦ elim (Option-cases o.decode) [
        | inl deaf ↦ rw (write, somewhere, some_room, sp, deaf) (inl (λ p. refl))
        | inr (decode, dec) ↦
            elim (Option-cases (preflight lib es o.max (available (clean o.dir)))) [
              | inr (err, bad) ↦ rw (write, somewhere, some_room, sp, dec, bad) (inl (λ p. refl))
              | inl ok ↦
                  subst (Says lib sys d o es)
                    (sym (write_fit lib sys d o es decode available somewhere some_room sp dec ok))
                    (Leaves-Says lib sys d o es decode available _ dec sp ok (
                      write_file-Leaves lib decode sys d (record o { dir = clean o.dir }) es
                        (reaches-room o.max some_room)))
            ]
      ]
    ]
  ]
]
