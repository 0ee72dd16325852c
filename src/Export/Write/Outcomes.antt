-- ===== src/Export/Write/Outcomes.antt =====
-- internal/export/export.go: what an export leaves on the disk, whatever fails.
use go_salt_events.Saltipc.Value.{Value}
use go_salt_events.Export.Options.{
  ExportError, Library, Options, Outcome, Written, exported, failed, max_attempts, not_chowned,
  partial_suffix,
}
use go_salt_events.Model.Event.{Event}
use go_salt_events.Model.Job.{is_some}
use go_salt_events.Base.{
  Bool-cases, Bytes, List, Option, Option-cases, [], ap, arith, either_way, exceeds, false, inl,
  inr, length, none, not, refl, some, subst, suc, sym, zero, ℕ, ℤ, ◌++◌, ◌+◌, ◌||◌, ◌∙◌, ◌≡◌, ◌⊎◌,
}
use go_salt_events.Export.Write.{
  candidate, finish, first_free, put_in_place, unique_path, write_all, write_file, write_named,
}
use go_salt_events.Config.Paths.{base}
use go_salt_events.Export.Disk.{Disk, System, find, overwrite, remove}
use go_salt_events.Export.Write.Lines.{
  Adds, Kept, Streams, all_lines, removed-Kept, replaced-Adds, write_all-Streams,
}

module _ (lib : Library) (decode : Bytes → Option Value) where
  -- A whole export: a path that was free has the lines of all events, within the limit; no other path is
  -- changed; and the result says so.
  pub record Complete (d : Disk) (limit : ℤ) (es : List Event) (res : Written) (d' : Disk)
      : Type 0 where
    pub content : Bytes
    pub fresh : find d res.path ≡ none
    pub disk : Adds d res.path content d'
    pub lines : all_lines lib decode es ≡ some content
    pub bytes : res.bytes ≡ length content
    pub fits : exceeds res.bytes limit ≡ false
    pub events : res.events ≡ length es

  -- What writing leaves: a whole export, or, when it fails, the disk as it was unless a file that it made
  -- cannot be removed.
  abbrev pub Leaves : System → Disk → ℤ → List Event → Outcome × Disk → Type 0
  Leaves sys d limit es (exported res, d') = Complete d limit es res d'
  Leaves sys d limit es (not_chowned res, d') = Complete d limit es res d'
  Leaves sys d limit es (failed err, d') = Kept d d' ⊎ (sys.removes ≡ false)

  put_in_place-Leaves :
      (sys : System) (d : Disk) (o : Options) (es : List Event) (final out : Bytes)
      → find d final ≡ none
      → find d (final ++ partial_suffix) ≡ none
      → Streams lib decode o.max [] es (inl out)
      → let partial = final ++ partial_suffix in
        Leaves sys d o.max es
          (put_in_place lib sys (overwrite (overwrite d partial []) partial out) o es final out)
  unfolding put_in_place
  put_in_place-Leaves sys d o es final out fresh free (rest, lines, is, fits) =
      let partial = final ++ partial_suffix in
      let two = overwrite (overwrite d partial []) partial out in
      let L = Leaves sys d o.max es in
      let whole : Complete d o.max es
          (record { path = final; events = length es; bytes = length out })
          (overwrite (remove two partial) final out) =
        record {
          content = out;
          fresh = fresh;
          disk = replaced-Adds d partial [] out final free;
          lines = lines ∙ ap some (sym is);
          bytes = refl;
          fits = fits;
          events = refl;
        } in
      elim (Bool-cases sys.renames) [
        | inr stuck ↦ elim (Bool-cases sys.removes) [
          | inl gone ↦ rw (put_in_place, stuck, gone) (inl (removed-Kept d partial [] out free))
          | inr there ↦ rw (put_in_place, stuck, there) (inr refl)
        ]
        | inl moved ↦ elim (Option-cases o.chown) [
          | inl nobody ↦ rw (put_in_place, moved, nobody) whole
          | inr (chown, asked) ↦
              rw (put_in_place, moved, asked) (either_way L (chown final) whole whole)
        ]
      ]

  finish-Leaves :
      (sys : System) (d : Disk) (o : Options) (es : List Event) (final : Bytes)
      (r : Bytes ⊎ ExportError)
      → find d final ≡ none
      → find d (final ++ partial_suffix) ≡ none
      → Streams lib decode o.max [] es r
      → Leaves sys d o.max es
          (finish lib sys (overwrite d (final ++ partial_suffix) []) o es final r)
  unfolding finish
  finish-Leaves sys d o es final (inl out) fresh free h =
      put_in_place-Leaves sys d o es final out fresh free h
  finish-Leaves sys d o es final (inr err) fresh free h = elim (Bool-cases sys.removes) [
    | inl gone ↦ rw (finish, gone) (inl (removed-Kept d (final ++ partial_suffix) [] sys.torn free))
    | inr there ↦ rw (finish, there) (inr refl)
  ]

  pub write_named-Leaves :
      (sys : System) (d : Disk) (o : Options) (es : List Event) (final : Bytes)
      → find d final ≡ none
      → exceeds 0 o.max ≡ false
      → Leaves sys d o.max es (write_named lib sys d decode o es final)
  unfolding write_named
  write_named-Leaves sys d o es final fresh some_room =
      let partial = final ++ partial_suffix in
      elim (Bool-cases (not sys.creates || is_some (find d partial))) [
        | inl taken ↦ rw (write_named, taken) (inl (λ p. refl))
        | inr made ↦
            let free : find d partial ≡ none = ground (arith, made) in
            rw (write_named, made)
              (finish-Leaves sys d o es final (write_all lib sys decode o.max es) fresh free
                (write_all-Streams lib decode sys o.max es some_room))
      ]

  -- The name is that of no file.
  abbrev IsFree : Disk → Option Bytes → Type 0
  IsFree d none = Unit {0}
  IsFree d (some p) = find d p ≡ none

  first_free-IsFree :
      (sys : System) (d : Disk) (base : Bytes) (k i : ℕ) → IsFree d (first_free lib sys d base k i)
  unfolding first_free
  first_free-IsFree sys d base zero i = tt
  first_free-IsFree sys d base (suc k) i =
      elim (Bool-cases
        (sys.hidden (candidate lib base i) || is_some (find d (candidate lib base i)))) [
          | inl taken ↦ rw (first_free, taken) (first_free-IsFree sys d base k (i + 1))
          | inr open_name ↦ rw (first_free, open_name) (ground (arith, open_name))
        ]

  pub write_file-Leaves :
      (sys : System) (d : Disk) (o : Options) (es : List Event)
      → exceeds 0 o.max ≡ false
      → Leaves sys d o.max es (write_file lib sys d decode o es)
  unfolding write_file unique_path
  write_file-Leaves sys d o es some_room = elim (Option-cases (unique_path lib sys d o.dir o.now)) [
    | inl full ↦ rw (write_file, full) (inl (λ p. refl))
    | inr (final, named) ↦
        let fresh : find d final ≡ none =
          subst (IsFree d) named (first_free-IsFree sys d _ max_attempts 0) in
        rw (write_file, named) (write_named-Leaves sys d o es final fresh some_room)
  ]
