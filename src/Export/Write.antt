-- ===== src/Export/Write.antt =====
-- internal/export/export.go: the checks before an export, its file, and what is left after a failure.
pub mod Lines
pub mod Outcomes
pub mod Safe
use go_salt_events.Base.{
  Bytes, List, Option, [], bytes_eq, codes, exceeds, if◌then◌else◌, inl, inr, length, ltb, max,
  none, not, pos, reaches, some, suc, zero, ℕ, ℤ, ◌*◌, ◌++◌, ◌+◌, ◌==◌, ◌||◌, ◌∷◌, ◌⊎◌,
}
use go_salt_events.Model.Event.{Event, Time, payload_len}
use go_salt_events.Model.Job.{is_some}
use go_salt_events.Config.Paths.{base, clean, join}
use go_salt_events.Saltipc.Value.{Value}
use go_salt_events.Saltipc.Codec.{format_int, fun, jid, ret_code, stamp, success}
use go_salt_events.Hub.Facts.{bytes_of}
use go_salt_events.Export.JsonSafe.{json_safe}
use go_salt_events.Export.Disk.{Disk, System, find, overwrite, remove}
use go_salt_events.Export.Options.{
  ExportError, Library, Line, Options, Outcome, Written, bad_max, exported, failed,
  insufficient_space, max_attempts, min_headroom, no_decoder, no_dir, no_free_space, no_name,
  no_space_checker, not_chowned, not_closed, not_created, not_encoded, not_removed, not_renamed,
  not_synced, not_written, over_max, partial_suffix, record_overhead,
}

module _ (lib : Library) where
  -- The sum of `Estimate`.
  unfoldable pub raw_size : List Event → ℕ
  raw_size [] = 0
  raw_size (e ∷ es) = length e.tag + payload_len e.payload + record_overhead + raw_size es

  -- `Estimate`
  unfoldable pub estimate : List Event → ℕ
  unfolding raw_size
  estimate es = lib.as_float (raw_size es) * 2

  -- `preflight`
  unfoldable pub preflight : List Event → ℤ → Option (ℕ × ℕ) → Option ExportError
  unfolding estimate
  preflight es limit room =
      let est = estimate es in
      if exceeds est limit then some over_max else elim room [
        | none ↦ some no_free_space
        | some (avail, total) ↦
            if ltb avail (est + max (lib.tenth total) min_headroom)
            then some insufficient_space
            else none
      ]

  -- The record of `encode`.
  unfoldable pub line_of : Event → Option Value → Line
  line_of e payload = record {
    arrival = lib.rfc3339 e.arrival;
    stamp = if e.stamp == 0 then [] else lib.rfc3339 e.stamp;
    tag = e.tag;
    namespace = e.namespace;
    category = e.category;
    jid = e.jid;
    minion = e.minion;
    fun = e.fun;
    ret_code = if e.has_ret then some e.ret_code else none;
    success = if e.has_ret then some e.success else none;
    payload = payload;
    payload_truncated = e.shed;
    master_trimmed = e.master_trimmed;
  }

  -- `append(line, '\n')`, or the error of `json.Marshal`.
  unfoldable pub marshalled : Line → Option Bytes
  marshalled l = elim (lib.marshal l) [ none ↦ none | some line ↦ some (line ++ b'\n' ∷ []) ]

  -- `encode`
  unfoldable pub encode : (Bytes → Option Value) → Event → Option Bytes
  unfolding line_of marshalled
  encode decode e =
      if payload_len e.payload == 0
      then marshalled (line_of e none)
      else elim (decode (bytes_of e.payload)) [
        | none ↦ none
        | some v ↦ marshalled (line_of e (some (json_safe lib.formats 0 v)))
      ]

  -- `stream`: the bytes that reach the file, if all do, or the error. `n` counts the lines.
  unfoldable pub stream :
      System → (Bytes → Option Value) → ℤ → ℕ → Bytes → List Event → Bytes ⊎ ExportError
  unfolding encode
  stream sys decode limit n out [] = if sys.flushes then inl out else inr not_written
  stream sys decode limit n out (e ∷ es) = elim (encode decode e) [
    | none ↦ inr (not_encoded e)
    | some line ↦
        let rest = stream sys decode limit (n + 1) (out ++ line) es in
        if not (sys.writes n)
        then inr not_written
        else if exceeds (length (out ++ line)) limit
        then inr over_max
        else rest
  ]

  -- `writeAll`
  unfoldable pub write_all : System → (Bytes → Option Value) → ℤ → List Event → Bytes ⊎ ExportError
  unfolding stream
  write_all sys decode limit es = elim (stream sys decode limit 0 [] es) [
    | inr err ↦ inr err
    | inl out ↦
        if not sys.syncs then inr not_synced else if not sys.closes then inr not_closed else inl out
  ]

  -- The names of `uniquePath`, in turn: the `i`th, of `base`.
  unfoldable pub candidate : Bytes → ℕ → Bytes
  candidate base zero = base ++ codes ".ndjson"
  candidate base (suc i) = base ++ b'-' ∷ format_int (pos (i + 2)) ++ codes ".ndjson"

  -- The loop of `uniquePath` with `k` attempts left, from the `i`th; a path that cannot be looked at is
  -- passed over.
  unfoldable pub first_free : System → Disk → Bytes → ℕ → ℕ → Option Bytes
  unfolding candidate
  first_free sys d base zero i = none
  first_free sys d base (suc k) i =
      let next = first_free sys d base k (i + 1) in
      let p = candidate base i in if sys.hidden p || is_some (find d p) then next else some p

  -- `uniquePath`
  unfoldable pub unique_path : System → Disk → Bytes → Time → Option Bytes
  unfolding first_free
  unique_path sys d dir now =
      first_free sys d (join dir (codes "salt-events-" ++ lib.file_stamp now)) max_attempts 0

  -- The end of `writeFile`: the rename and the handing over of the file.
  unfoldable pub put_in_place :
      System → Disk → Options → List Event → Bytes → Bytes → Outcome × Disk
  put_in_place sys d o es final out =
      let partial = final ++ partial_suffix in
      if not sys.renames
      then (failed not_renamed, if sys.removes then remove d partial else d)
      else let res : Written = record { path = final; events = length es; bytes = length out } in
        let d' = overwrite (remove d partial) final out in
        elim o.chown [
          | none ↦ (exported res, d')
          | some chown ↦ if chown final then (exported res, d') else (not_chowned res, d')
        ]

  -- `writeFile` after the writing: the partial file is removed if that failed.
  unfoldable pub finish :
      System → Disk → Options → List Event → Bytes → Bytes ⊎ ExportError → Outcome × Disk
  unfolding put_in_place
  finish sys created o es final (inl out) =
      put_in_place sys (overwrite created (final ++ partial_suffix) out) o es final out
  finish sys created o es final (inr err) =
      let partial = final ++ partial_suffix in
      let left = overwrite created partial sys.torn in
      if sys.removes then (failed err, remove left partial) else (failed (not_removed err), left)

  -- `writeFile` once the name is found. `Join` has cleaned the path, so the `Clean` of the open call leaves it
  -- as it is.
  unfoldable pub write_named :
      System → Disk → (Bytes → Option Value) → Options → List Event → Bytes → Outcome × Disk
  unfolding write_all finish
  write_named sys d decode o es final =
      let partial = final ++ partial_suffix in
      if not sys.creates || is_some (find d partial)
      then (failed not_created, d)
      else finish sys (overwrite d partial []) o es final (write_all sys decode o.max es)

  -- `writeFile`
  unfoldable pub write_file :
      System → Disk → (Bytes → Option Value) → Options → List Event → Outcome × Disk
  unfolding unique_path write_named
  write_file sys d decode o es = elim (unique_path sys d o.dir o.now) [
    | none ↦ (failed no_name, d)
    | some final ↦ write_named sys d decode o es final
  ]

  -- `Write`, with the tests of `normalised`.
  unfoldable pub write : System → Disk → Options → List Event → Outcome × Disk
  unfolding preflight write_file
  write sys d o es =
      if bytes_eq o.dir []
      then (failed no_dir, d)
      else if reaches 0 o.max
      then (failed bad_max, d)
      else elim o.space [
        | none ↦ (failed no_space_checker, d)
        | some available ↦ elim o.decode [
          | none ↦ (failed no_decoder, d)
          | some decode ↦
              let o' : Options = record o { dir = clean o.dir } in
              elim (preflight es o'.max (available o'.dir)) [
                | some err ↦ (failed err, d)
                | none ↦ write_file sys d decode o' es
              ]
        ]
      ]
