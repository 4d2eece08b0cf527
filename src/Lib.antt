-- ===== src/Lib.antt =====
-- A model of the data path of the WoW Markets companion, and the theorems that make it correct.
--
-- The companion reads the file in which a game addon saves its scans of an auction house, checks
-- the scans, archives them and uploads the archives to a server; a feed of signed releases tells
-- it of updates. The parts follow the packages of the program:
--
-- - Luasv: companion/internal/luasv. Luasv.Token, Luasv.Cursor, Luasv.Escapes and Luasv.Lexer are
--   lexer.go: `next`, `skipIgnored`, `scanString`, `scanNumber`, `scanIdentifier` and `advance`
--   (here `over`). A lexer is what is left of the input, with its line and column. Luasv.Value,
--   Luasv.Monad and Luasv.Parser are parser.go: a parser is explicit state that a small monad
--   passes on, `ParseVariable` is `parse_variable` on the text of the file. Luasv.Sequence is
--   `Table.Sequence`.
-- - Exportfmt: companion/internal/exportfmt. Exportfmt.Scan has the types and the errors,
--   Exportfmt.Validate is `Validate`, `validateRow` and `UnitBuyout` of export.go and
--   auction_house.go, Exportfmt.Fields the readers of a table's fields, Exportfmt.Decode is `Decode`
--   with `decodeScan`, `decodeItemDictionary` and `decodeRow`. It takes the tables of Luasv.
-- - Scanupload: companion/internal/scanupload/upload.go. Scanupload.Record has its types,
--   Scanupload.Outside what it takes from Go's library, Scanupload.Backoff is `backoff`,
--   Scanupload.Upload is `upload` on how its calls end, Scanupload.Queue is `Queue`,
--   Scanupload.Due is `dueChecksums`, `NextDueAt` and `ResetFailedAuthorization`,
--   Scanupload.Records is `recordsFromState`, and Scanupload.Process is
--   `ProcessDueLimitWithProgress`, which calls the others. Its state is the map of uploads in the
--   state's file.
-- - Scanfile: companion/internal/scanfile/load.go, which parses a file by Luasv and decodes it by
--   Exportfmt.
-- - Scanarchive: companion/internal/scanarchive/archive.go. Scanarchive.Record is its `Record`, which
--   `Queue` reads, Scanarchive.Process is `ProcessFile` on the scans of the loaded file, and
--   Scanarchive.Store is `New`, `loadState`, `Records` and `ProcessFile` as a whole;
--   Scanupload.Store is the same for the uploads.
-- - Watchagent: companion/internal/watchagent/agent.go. Watchagent has its types and the events,
--   Watchagent.Archiving is `processArchive`, which calls Scanarchive and the queue of Scanupload,
--   Watchagent.Uploading is `processUploads`, and Watchagent.Cycle is `runCycle` and `Run`. What the
--   cycles share is a record Watcher, what a cycle meets a record CycleWorld.
-- - Updatefeed: companion/internal/updatefeed. Updatefeed.Version is version.go, and of feed.go
--   Updatefeed.Select is `Select` and Updatefeed.Feed is `ParseSigned`, `ParseChannel` and
--   `VerifyArtifact`.
-- - Updater: companion/updater.go. Updater has its types and the fields of `App` that it reads and
--   writes, Updater.Configuration is `updateConfiguration` and the tests of origins and releases,
--   Updater.Fetch is `fetchUpdate` and `downloadUpdate` on how their requests end, Updater.Check is
--   `runUpdateCheck`, cut where it waits, and Updater.Actions are the calls of the window.
--   Updater.Steps is the relation of the states that these calls lead through, in any order.
-- - Scanupload.Lifecycle is what the uploads promise: a checksum's stage and its moves, which the
--   calls of Scanupload keep to, in any order.
-- - Activity: companion/activity.go, what the window shows of Scanarchive and Scanupload.
-- - Base: Booleans, lists, results, texts, int64 arithmetic, numerals and maps, as Go has them.
-- - Tests: runs at fixed inputs, and for each theorem with hypotheses an input where they hold.
--
-- Conventions. A string is the list of its runes, except a response's body, which is the list of
-- its bytes. An `int` and an `int64` are the integers in the range of 64 bits, with their
-- wrap-around where the code computes with them. A map is an association list; where Go iterates
-- a map in an order that it does not fix, the model takes the order of the list. An error is a
-- value that has what the message names, or its text where the program reads it again.
--
-- Fuel. The loops of the lexer have one round more than there are runes left, and the parser has
-- three rounds more than there are runes in the file; each round passes a rune, so neither
-- runs out. A number is printed with one round more than its value, and is printed whole.
--
-- Parameters. Go's tables of letters and digits are a record of two tests that agree with ASCII on
-- its letters and digits (Luasv.Token.Unicode). Times in RFC 3339, JSON, quoting and absolute
-- paths are fields of Scanupload.Outside.Library; of these only the times have laws, that a
-- formatted time is read back cut to the second, and that the empty text is no time. Canonical
-- JSON, checksums, archive files and the clock are fields of Scanarchive.Process.Archiver, and
-- base64, ed25519, XML and URLs of Updatefeed.Feed.Crypto, without laws. The build, its platform
-- and its environment are a record Updater.Build, with the parsing of URLs and the joining of
-- paths; how a request, a write or a call of the platform ends is an argument of each step.
--
-- Not modelled: reading and writing files (a write succeeds or leaves the file as it was), the
-- network (the outcome of each call is given), checksums and canonical JSON, how the XML of the
-- feed is read and its signature verified (fields of Updatefeed.Feed.Crypto), the archive's files
-- (their outcome is a parameter, Scanarchive.Process.Archiver), the search for an installation,
-- the application, its user interface and its build, the timers and the goroutines. A float64 is
-- kept as its text.
pub mod Base
pub mod Luasv
pub mod Exportfmt
pub mod Updatefeed
pub mod Updater
pub mod Scanfile
pub mod Scanarchive
pub mod Scanupload
pub mod Watchagent
pub mod Activity
pub mod Tests
