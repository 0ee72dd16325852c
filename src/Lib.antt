-- ===== src/Lib.antt =====
-- A verification library of salt-events, a terminal console for the event bus of a Salt master. Events
-- come off the bus one at a time, by a reader that dials again when the master restarts
-- (internal/saltipc); a tag decoder labels each (internal/salttag); a memory-bounded cache
-- keeps the newest (internal/cache); and the aggregates are fed at ingest and never from the cache
-- (internal/stats, internal/model): counters of the most frequent keys, events per second and per
-- minute, and each job's expected minions against its returns. The hub (cmd/salt-events/hub.go) is
-- where these meet: the reader calls it, and the panes read snapshots of it under the lock that ingest
-- holds, so every operation here is a function from one state to the next, and an interleaving is a
-- list of calls.
--
-- Which file models which part:
--   Base: byte strings, lists, sorting and integers, shared by the rest. Base.Utf8 is what the code uses
--     of Go's `unicode/utf8` and `strings`, Base.Strconv of its `strconv`.
--   Model.Event: internal/model/event.go (`Event`, `Kind`, `Kind.String`, `Size`).
--   Model.Job: internal/model/job.go (`NewJob`, `AddExpected`, `AddReturn`, `Missing`, `Returns`,
--     `Complete`, `Row`); Counters and Answers hold the proofs.
--   Cache: internal/cache/cache.go (`New`, `Add`, `degrade`, `Snapshot`, `All`, `Stats`); Degrade and
--     Drop are about the two loops of `degrade`, Session about runs of `Add`.
--   Filter.Glob: internal/filter/glob.go (`fnmatch` and its helpers); Matches is the relation that
--     says what a pattern means, Correct compares the two.
--   Filter.Query: internal/filter/filter.go (`parseTerm`, `compileGlob`, `validateGlob`, `match`,
--     `okMatch`); Accepted, Literal and Terms hold the proofs. Filter.Query.Parse is `Parse`, `IsZero`,
--     `String` and `Match`; Parse.Accepts holds the proof.
--   SaltTag: internal/salttag/salttag.go (`Parse` and its helpers); Split is `strings.SplitN` and
--     `strings.Join` of Go's library.
--   Saltipc.Frame: internal/saltipc/frame.go (`Next`, `decodeFrame`); Resync holds the proofs.
--   Saltipc.Value: what a payload decodes to. Saltipc.Codec: internal/saltipc/codec.go (`ExtractFields`,
--     `IsMasterTrimmed`); Extract holds the proof.
--   Saltipc.Reader: internal/saltipc/reader.go (`Run`, `dial`, `waitToRetry`, `consume`); Build is
--     `buildEvent`, and Wait and Trace hold the proofs.
--   Config.Paths: internal/config/paths.go, over `filepath.Clean`, `Join` and `Base` of Go's library;
--     Paths.Socket holds the proof. Config.Settings and Config.Load: internal/config/config.go (`Load`,
--     `parseFlags`, `applyFile`, `applyEnv`, `applyFlags`, `validate`); the modules under Load hold the
--     proofs.
--   Hub: cmd/salt-events/hub.go (`newHub`, `Event`, `Gap`, `Attached`, `DecodeError`, `PinJob`);
--     Facts is `factsFor`, View is `Snapshot`, `lookupJob` and `AllEvents`, and the other modules under
--     it hold proofs about the reader, the hub and its parts together.
--   Export.Space: internal/export/space.go (`bytesFrom`). Export.JsonSafe: internal/export/jsonsafe.go.
--     Export.Options, Export.Disk and Export.Write: internal/export/export.go (`Write`, `preflight`,
--     `writeFile`, `stream`, `encode`, `uniquePath`); the modules under Write hold the proofs.
--   Stats.TopN: internal/stats/topn.go (`NewCounter`, `Add`, `Top`).
--   Stats.Rings: internal/stats/rings.go (`Add`, `MarkGap`, `advance`, `opening`, `window`).
--   Stats.Callout: internal/stats/rings.go (`summarise` and its callers).
--   Stats.Jobs: internal/stats/jobs.go (`touch`, `settle`, `evict`, `oldestEvictable`, `drop`, `Job`);
--     Ingest is `Observe`, Evicted the memory of evictions; Entries, Victim, Valid, Observe and Learn
--     hold the proofs.
--   Ui.Table and Ui.Sparkline: internal/ui/components (`layout` and `shrink` of table.go; `resample`,
--     `merge` and `autoscale` of sparkline.go); Fits and Peak hold the proofs. Ui.Text: text.go
--     (`Sanitise`). Ui.Theme: internal/theme/registry.go (`Names`, `StylesFor`, `Next`).
--   Ui.Messages: the messages, keys and commands of internal/ui (msg.go, keymap.go, pane.go, snapshot.go).
--     Ui.Root: internal/ui/root.go (`NewModel`, `openDetail`, `openJobReturn`, `syncPin`, `step`,
--     `cycleTheme`); Update is `Update` with `handleKey`, `handleFilterKey`, `commitFilter` and
--     `routeToPane`, Session a list of messages with the reader's calls between them; the other modules
--     under it hold the proofs. Hub.Pinned and Hub.Index say what a pin is worth in the hub.
--   Ui.Live, Ui.Jobs and Ui.Detail: the `Pane` of internal/ui/live, jobs and detail; Detail.Render is
--     `render` and the renderer below it. Ui.Status: internal/ui/statusbar.go (`filterBarView`,
--     `reachNote`, `justify`, `humanBytes`) and the choice of a body in root.go.
--   Cmd.Capture: cmd/salt-events/capture.go (`splitCaptureArgs`, `copyFrames`). Cmd.Run: main.go and
--     version.go there (`run`, `serve` up to the start, `panesFor`, `exporter`).
--   Samples: runs at concrete inputs.
--
-- How the state corresponds:
--   An instant is the number of nanoseconds since Go's zero instant, so the zero `time.Time` is 0.
--   `Unix` counts the seconds since 1970; before that it is negative in the source, and a ring may be indexed
--   below its start, so the times are taken to be since 1970, as a clock's readings are.
--   Counts that are uint64 wrap at 2^64; the scan bound of `Snapshot` wraps as an int does. Byte totals
--   and lengths are natural numbers without a bound; the budget and the caps are integers, since the
--   code accepts negative ones. A subtraction from a byte total stops at 0, where an int64 would go
--   on below.
--   A string is the list of its bytes. A glob and its subject are lists of runes, as the pattern is in
--   the source; `utf8.DecodeRuneInString` is applied beforehand. The query terms take that decoding as a
--   parameter, which `Parse` fills with the decoder of Base.Utf8.
--   The index of jobs is one list of entries, oldest first, for its map and its list, which change
--   together; a job that is written through its element is put back under its JID.
--   A connection is the list of the bytes that it still yields. The msgpack library is a parameter of
--   the operations that call it: for frames and for the hub a function, for the extraction of fields a
--   record of the decoder's calls, with `time.Parse` beside them.
--   The reader is a state machine: its state says where `Run` stands, an input is what the world answers
--   there (the context done, a dial, a timer, a frame, each with the clock's reading), and a step yields
--   the calls on the sink. An input that answers another question than the one asked changes nothing.
--   A file system is an association list from paths to contents, with what it answers to each call of one
--   export; a file whose writing failed holds bytes of its choosing until it is removed. The
--   configuration's file, its environment and its TOML library are functions, and the arguments are what
--   Go's flag package makes of them: the last value of each flag that is given.
--   A map is an association list in some order, which stands for the order in which Go walks it.
--   `sort.Slice` and `sort.Strings` are an insertion sort with the same order.
--   The root model and the panes are values, and the pointers to panes are the entries of the model's
--   list: no two fields share one. The source is the hub or nothing; a message is handled together with
--   the readings of the clock that a snapshot takes. The panes are a closed type, so an interface that
--   only some panes have is a case of it. Styles are the name of their palette; notices and errors
--   are values in place of their texts. The text on the screen is runes, and widths in cells are numbers.
--   The lookup of a job that a snapshot carries is the hub's method, so it answers from the hub of the
--   moment, as in the code.
--   A float64 is a parameter: a type with its operations. The clock is an instant given to each
--   operation that reads it, and a matcher is a function or nothing.
--
-- Fuel: the loops of `degrade` get as much fuel as there are events to visit, and one event is passed
-- or dropped in each round. The loop of `fnmatch` gets one more than (s + 1)(p + 1) + p, for s runes
-- and p pattern runes: a backtrack moves the last star's subject forward, and between two of them the
-- pattern shortens. The loop of `evict` gets as much fuel as there are jobs, and drops one in each
-- round; the walk of `validateGlob` gets as much as there are runes, and passes one at least in each.
-- The loops of Base.Utf8 get the number of bytes, and each round takes one at least. A number in decimal
-- gets 20 digits, which every 64-bit number fits. `Run` has no fuel: it takes a step for each input.
--
-- The depth of jsonSafe is counted beside a recursion on the payload itself, which needs no fuel; the
-- attempts of `uniquePath` are the 100 of the source. `shrink` gets as much fuel as the columns are
-- wide, and each round takes one cell away. `node` recurses on the depth that is left, which is the
-- bound of 32 plus one: at zero the source prints that it stops. The loop of `humanBytes` has the three
-- divisions that the four suffixes allow. A session has no fuel: it takes a step for each message.
--
-- Not modelled: `DecodeValue` and the decoders of msgpack extensions, which that library calls;
-- `Diagnose` and other texts for the operator; the goroutine that closes a connection, the signals and
-- the terminal program around the model; the change of an export's owner, a system call; build
-- information; colours; the strings that the panes, the tabs, the hints and the help overlay are drawn
-- as, which a layout library styles and measures, and so the layout of the Rate and Summary panes; the
-- format of a duration; `stats.Clock`, an interface; and the fake dialer of the tests.
pub mod Base
pub mod Model
pub mod Cache
pub mod Cmd
pub mod Config
pub mod Export
pub mod Filter
pub mod Hub
pub mod Ui
pub mod SaltTag
pub mod Saltipc
pub mod Stats
pub mod Samples
