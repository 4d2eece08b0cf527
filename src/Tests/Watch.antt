-- ===== src/Tests/Watch.antt =====
-- A file that the watcher reads, runs of it, and witnesses.
use wow_markets.Base.{
  ◌+◌, ◌≤◌, ◌≡◌, ◌⊎◌, refl, true, false, List, [], ◌∷◌, ◌++◌, none, ok, err, codes,
}
use wow_markets.Base.Int.{pos}
use wow_markets.Base.Strings.{Text}
use wow_markets.Exportfmt.Scan.{Row, Scan, Database}
use wow_markets.Scanfile.{load}
use wow_markets.Scanarchive.Store.{missing}
use wow_markets.Watchagent.{Event, Signature, Watcher, new_watcher, not_queued}
use wow_markets.Watchagent.Archiving.{ArchiveWorld, process_archive}
use wow_markets.Watchagent.Uploading.{UploadWorld}
use wow_markets.Watchagent.Cycle.{CycleWorld, run}
use wow_markets.Watchagent.Queued.{Handled, process_archive-Handled}
use wow_markets.Watchagent.Unqueued.{process_archive-unqueued}
use wow_markets.Watchagent.Quiet.{recovered_event, error_reported, bit, total}
use wow_markets.Watchagent.Recovery.{run-recoveries_bounded}
use wow_markets.Tests.Archive.{archiver}
use wow_markets.Tests.Upload.{library, agent, worlds}
use wow_markets.Tests.Lua.{ascii}
use wow_markets.Tests.Export.{cloth, scan}
use wow_markets.Base.Int as Int
use wow_markets.Base.Maps as Maps
use wow_markets.Base.Numbers as Numbers
use wow_markets.Base.Strings as Strings
use wow_markets.Exportfmt.Decode as Decode
use wow_markets.Exportfmt.Fields as Fields
use wow_markets.Exportfmt.Validate as Validate
use wow_markets.Luasv.Cursor as Cursor
use wow_markets.Luasv.Escapes as Escapes
use wow_markets.Luasv.Lexer as Lexer
use wow_markets.Luasv.Parser as Parser
use wow_markets.Luasv.Sequence as Sequence
use wow_markets.Luasv.Value as Value
use wow_markets.Scanarchive.Process as Process
use wow_markets.Scanarchive.Store as Store
use wow_markets.Scanfile as Scanfile
use wow_markets.Scanupload.Backoff as Backoff
use wow_markets.Scanupload.Due as Due
use wow_markets.Scanupload.Process as ScanuploadProcess
use wow_markets.Scanupload.Queue as Queue
use wow_markets.Scanupload.Store as ScanuploadStore
use wow_markets.Scanupload.Upload as Upload
use wow_markets.Watchagent as Watchagent
use wow_markets.Watchagent.Archiving as Archiving
use wow_markets.Watchagent.Cycle as Cycle
use wow_markets.Watchagent.Quiet as Quiet
use wow_markets.Watchagent.Uploading as Uploading

-- `codes` of the parts.
abbrev file : Text
file =
    codes "WOW_MARKETS_DB={"
    ++ codes "schemaVersion=1,pendingScans={{"
    ++ codes "formatVersion=5,"
    ++ codes "status=\"ready\","
    ++ codes "capturedAt=1000,"
    ++ codes "exportStartedAt=1001,"
    ++ codes "exportFinishedAt=1003,"
    ++ codes "exportDurationMs=1500,"
    ++ codes "exportBatchSize=200,"
    ++ codes "region=\"eu\","
    ++ codes "realm=\"Thunderstrike\","
    ++ codes "faction=\"Horde\","
    ++ codes "auctionHouse=\"neutral\","
    ++ codes "captureZone=\"Tanaris\","
    ++ codes "captureSubzone=\"Gadgetzan\","
    ++ codes "captureUiMapID=1446,"
    ++ codes "scannerCharacterName=\"A\","
    ++ codes "scannerCharacterRealm=\"B\","
    ++ codes "scannerCharacterGUID=\"Player-1\","
    ++ codes "scannerRegion=\"eu\","
    ++ codes "source=\"C\","
    ++ codes "sourceEvent=\"D\","
    ++ codes "sourceVersion=\"1\","
    ++ codes "addonVersion=\"2\","
    ++ codes "sourceRowCount=1,"
    ++ codes "exportedRowCount=1,"
    ++ codes "itemCount=1,"
    ++ codes "truncated=false,"
    ++ codes "itemFields={\"itemId\",\"itemString\",\"name\",\"quality\",\"requiredLevel\"},"
    ++ codes
        "rowFields={\"sourceRow\",\"itemRef\",\"stackCount\",\"minBid\",\"minIncrement\",\"buyout\",\"bidAmount\",\"saleStatus\",\"hasAllInfo\"},"
    ++ codes "items={{2589,\"item:2589\",\"Linen Cloth\",1,0}},"
    ++ codes "rows={{1,1,20,100,5,250,0,0,1}}"
    ++ codes "}}}"

abbrev row : Row
row = record cloth { source_row = pos 1 }

abbrev whole_scan : Scan
whole_scan = record scan { source_row_count = pos 1; truncated = false; rows = row ∷ [] }

abbrev database : Database
database = record { schema_version = pos 1; scans = whole_scan ∷ [] }

loads : load ascii (ok file) (ok file) [] ≡ ok database
unfolding Int.wrap64 Int.add_ℤ Int.sub_ℤ Int.quotient Strings.str_eq Strings.str_lt Strings.is_space
    Strings.trim_left Strings.trim_space Strings.cut Strings.split_onto Strings.has_prefix
    Strings.to_lower Strings.drop_slashes Numbers.digits_value Numbers.decimal Numbers.saturated
    Numbers.parse_uint Numbers.parse_int Numbers.is_float Maps.lookup Maps.insert Cursor.take_while
    Cursor.skip_round Cursor.skip_rounds Cursor.skip_ignored Escapes.escape_rune
    Escapes.decimal_escape Escapes.more_digits Escapes.scan_escape Escapes.scan_round
    Escapes.scan_rounds Escapes.scan_string Lexer.punctuation Lexer.word_kind Lexer.next_at
    Lexer.next Value.as_table Value.as_string Value.as_integer Value.as_boolean Value.table_field
    Sequence.numbered Sequence.add_indexed Sequence.keys Sequence.insert_sorted Sequence.sort
    Sequence.collect Sequence.sequence Parser.assign Parser.has_point Parser.bracket_key
    Parser.number_value Parser.advance Parser.consume Parser.parse_bracket_key Parser.value_with
    Parser.bracket_entry Parser.named_entry Parser.array_entry Parser.table_entry Parser.separator
    Parser.table_entries Parser.parse_table Parser.parse_value Parser.optional_semicolon
    Parser.assignment Parser.parse_document Parser.new_parser Parser.parse_variable Validate.one_of
    Validate.valid_region Validate.is_neutral_map Validate.classify_auction_house Validate.market
    Validate.validate_row Validate.unit_buyout Validate.validate_export Validate.validate_place
    Validate.validate_scanner Validate.validate_counts Validate.seen Validate.check_row
    Validate.validate_rows Validate.validate Fields.value_string Fields.value_int64 Fields.value_int
    Fields.field_table Fields.string_field Fields.non_empty_string_field Fields.int_field
    Fields.int64_field Fields.bool_field Fields.is_string Fields.compare_fields
    Fields.validate_fields Decode.decode_each Decode.decode_item Decode.decode_item_dictionary
    Decode.item_at Decode.read_row Decode.row_of_values Decode.decode_row Decode.read_header
    Decode.decode_rows Decode.decode_scan Decode.decode Scanfile.load_variable Scanfile.load
    Process.archived Process.add_scan Process.process_scan Process.process_scans
    Process.process_file Store.load_state Store.new_processor Store.checksums Store.records_at
    Store.archive_records Store.read_records Store.process_source Queue.same_record Queue.merge
    Queue.queue_one Queue.queue_all Queue.queue Due.is_due Due.due_keys Due.insert_text
    Due.sort_texts Due.due_checksums Due.next_due_from Due.next_due_at Due.refused_with
    Due.is_authorization_failure Due.reset_all Due.reset_failed_authorization Backoff.backoff_loop
    Backoff.backoff Upload.print_onto Upload.print_nat Upload.is_retryable_status Upload.api_error
    Upload.read_payload Upload.upload ScanuploadProcess.recover ScanuploadProcess.finish
    ScanuploadProcess.begun ScanuploadProcess.attempted ScanuploadProcess.process
    ScanuploadProcess.process_due ScanuploadStore.resolve_data_dir ScanuploadStore.new_agent
    ScanuploadStore.stored_records Watchagent.archive_event Watchagent.upload_event
    Watchagent.new_watcher Archiving.archive_events Archiving.result_records Archiving.by_checksum
    Archiving.queue_events Archiving.any_queued Archiving.queue_records Archiving.queue_results
    Archiving.process_changed Archiving.process_archive Uploading.progressed
    Uploading.all_progressed Uploading.uploading_events Uploading.result_events
    Uploading.process_uploads Cycle.run_cycle Cycle.run_ticks Cycle.run
loads = refl

abbrev seen : Signature
seen = record { size = pos 900; modified_ns = pos 5 }

abbrev world : ArchiveWorld
world = record {
  stat = ok seen;
  source = ok (codes "/WoWMarkets.lua");
  first = ok file;
  second = ok file;
  archiver = archiver;
  archive_fault = none;
  records_fault = none;
  uploads_fault = none;
  write_archive = λ _. ok tt;
  write_uploads = λ _. ok tt;
  queued_at = 1 ∷ [];
  time = 5;
}

-- The uploads cannot be written.
abbrev full : ArchiveWorld
full = record world { write_uploads = λ _. err (codes "disk full") }

abbrev start : Watcher
start = new_watcher missing missing

handled : (process_archive ascii library [] true world start).result ≡ ok true
unfolding Int.wrap64 Int.add_ℤ Int.sub_ℤ Int.quotient Strings.str_eq Strings.str_lt Strings.is_space
    Strings.trim_left Strings.trim_space Strings.cut Strings.split_onto Strings.has_prefix
    Strings.to_lower Strings.drop_slashes Numbers.digits_value Numbers.decimal Numbers.saturated
    Numbers.parse_uint Numbers.parse_int Numbers.is_float Maps.lookup Maps.insert Cursor.take_while
    Cursor.skip_round Cursor.skip_rounds Cursor.skip_ignored Escapes.escape_rune
    Escapes.decimal_escape Escapes.more_digits Escapes.scan_escape Escapes.scan_round
    Escapes.scan_rounds Escapes.scan_string Lexer.punctuation Lexer.word_kind Lexer.next_at
    Lexer.next Value.as_table Value.as_string Value.as_integer Value.as_boolean Value.table_field
    Sequence.numbered Sequence.add_indexed Sequence.keys Sequence.insert_sorted Sequence.sort
    Sequence.collect Sequence.sequence Parser.assign Parser.has_point Parser.bracket_key
    Parser.number_value Parser.advance Parser.consume Parser.parse_bracket_key Parser.value_with
    Parser.bracket_entry Parser.named_entry Parser.array_entry Parser.table_entry Parser.separator
    Parser.table_entries Parser.parse_table Parser.parse_value Parser.optional_semicolon
    Parser.assignment Parser.parse_document Parser.new_parser Parser.parse_variable Validate.one_of
    Validate.valid_region Validate.is_neutral_map Validate.classify_auction_house Validate.market
    Validate.validate_row Validate.unit_buyout Validate.validate_export Validate.validate_place
    Validate.validate_scanner Validate.validate_counts Validate.seen Validate.check_row
    Validate.validate_rows Validate.validate Fields.value_string Fields.value_int64 Fields.value_int
    Fields.field_table Fields.string_field Fields.non_empty_string_field Fields.int_field
    Fields.int64_field Fields.bool_field Fields.is_string Fields.compare_fields
    Fields.validate_fields Decode.decode_each Decode.decode_item Decode.decode_item_dictionary
    Decode.item_at Decode.read_row Decode.row_of_values Decode.decode_row Decode.read_header
    Decode.decode_rows Decode.decode_scan Decode.decode Scanfile.load_variable Scanfile.load
    Process.archived Process.add_scan Process.process_scan Process.process_scans
    Process.process_file Store.load_state Store.new_processor Store.checksums Store.records_at
    Store.archive_records Store.read_records Store.process_source Queue.same_record Queue.merge
    Queue.queue_one Queue.queue_all Queue.queue Due.is_due Due.due_keys Due.insert_text
    Due.sort_texts Due.due_checksums Due.next_due_from Due.next_due_at Due.refused_with
    Due.is_authorization_failure Due.reset_all Due.reset_failed_authorization Backoff.backoff_loop
    Backoff.backoff Upload.print_onto Upload.print_nat Upload.is_retryable_status Upload.api_error
    Upload.read_payload Upload.upload ScanuploadProcess.recover ScanuploadProcess.finish
    ScanuploadProcess.begun ScanuploadProcess.attempted ScanuploadProcess.process
    ScanuploadProcess.process_due ScanuploadStore.resolve_data_dir ScanuploadStore.new_agent
    ScanuploadStore.stored_records Watchagent.archive_event Watchagent.upload_event
    Watchagent.new_watcher Archiving.archive_events Archiving.result_records Archiving.by_checksum
    Archiving.queue_events Archiving.any_queued Archiving.queue_records Archiving.queue_results
    Archiving.process_changed Archiving.process_archive Uploading.progressed
    Uploading.all_progressed Uploading.uploading_events Uploading.result_events
    Uploading.process_uploads Cycle.run_cycle Cycle.run_ticks Cycle.run
handled = refl

process_archive-Handled_example :
    ((process_archive ascii library [] true world start).watcher ≡ start) × (true ≡ false)
    ⊎ Handled ascii library [] true world
        (process_archive ascii library [] true world start).watcher
process_archive-Handled_example =
    process_archive-Handled ascii library [] true world start true handled

failed_run :
    (process_archive ascii library [] true full start).result ≡ err (not_queued (codes "disk full"))
unfolding Int.wrap64 Int.add_ℤ Int.sub_ℤ Int.quotient Strings.str_eq Strings.str_lt Strings.is_space
    Strings.trim_left Strings.trim_space Strings.cut Strings.split_onto Strings.has_prefix
    Strings.to_lower Strings.drop_slashes Numbers.digits_value Numbers.decimal Numbers.saturated
    Numbers.parse_uint Numbers.parse_int Numbers.is_float Maps.lookup Maps.insert Cursor.take_while
    Cursor.skip_round Cursor.skip_rounds Cursor.skip_ignored Escapes.escape_rune
    Escapes.decimal_escape Escapes.more_digits Escapes.scan_escape Escapes.scan_round
    Escapes.scan_rounds Escapes.scan_string Lexer.punctuation Lexer.word_kind Lexer.next_at
    Lexer.next Value.as_table Value.as_string Value.as_integer Value.as_boolean Value.table_field
    Sequence.numbered Sequence.add_indexed Sequence.keys Sequence.insert_sorted Sequence.sort
    Sequence.collect Sequence.sequence Parser.assign Parser.has_point Parser.bracket_key
    Parser.number_value Parser.advance Parser.consume Parser.parse_bracket_key Parser.value_with
    Parser.bracket_entry Parser.named_entry Parser.array_entry Parser.table_entry Parser.separator
    Parser.table_entries Parser.parse_table Parser.parse_value Parser.optional_semicolon
    Parser.assignment Parser.parse_document Parser.new_parser Parser.parse_variable Validate.one_of
    Validate.valid_region Validate.is_neutral_map Validate.classify_auction_house Validate.market
    Validate.validate_row Validate.unit_buyout Validate.validate_export Validate.validate_place
    Validate.validate_scanner Validate.validate_counts Validate.seen Validate.check_row
    Validate.validate_rows Validate.validate Fields.value_string Fields.value_int64 Fields.value_int
    Fields.field_table Fields.string_field Fields.non_empty_string_field Fields.int_field
    Fields.int64_field Fields.bool_field Fields.is_string Fields.compare_fields
    Fields.validate_fields Decode.decode_each Decode.decode_item Decode.decode_item_dictionary
    Decode.item_at Decode.read_row Decode.row_of_values Decode.decode_row Decode.read_header
    Decode.decode_rows Decode.decode_scan Decode.decode Scanfile.load_variable Scanfile.load
    Process.archived Process.add_scan Process.process_scan Process.process_scans
    Process.process_file Store.load_state Store.new_processor Store.checksums Store.records_at
    Store.archive_records Store.read_records Store.process_source Queue.same_record Queue.merge
    Queue.queue_one Queue.queue_all Queue.queue Due.is_due Due.due_keys Due.insert_text
    Due.sort_texts Due.due_checksums Due.next_due_from Due.next_due_at Due.refused_with
    Due.is_authorization_failure Due.reset_all Due.reset_failed_authorization Backoff.backoff_loop
    Backoff.backoff Upload.print_onto Upload.print_nat Upload.is_retryable_status Upload.api_error
    Upload.read_payload Upload.upload ScanuploadProcess.recover ScanuploadProcess.finish
    ScanuploadProcess.begun ScanuploadProcess.attempted ScanuploadProcess.process
    ScanuploadProcess.process_due ScanuploadStore.resolve_data_dir ScanuploadStore.new_agent
    ScanuploadStore.stored_records Watchagent.archive_event Watchagent.upload_event
    Watchagent.new_watcher Archiving.archive_events Archiving.result_records Archiving.by_checksum
    Archiving.queue_events Archiving.any_queued Archiving.queue_records Archiving.queue_results
    Archiving.process_changed Archiving.process_archive Uploading.progressed
    Uploading.all_progressed Uploading.uploading_events Uploading.result_events
    Uploading.process_uploads Cycle.run_cycle Cycle.run_ticks Cycle.run
failed_run = refl

process_archive-unqueued_example :
    let next = (process_archive ascii library [] true full start).watcher in
    (next.uploads_file ≡ start.uploads_file)
    × (process_archive ascii library [] false world next
        ≡ record { events = []; result = ok false; watcher = next })
process_archive-unqueued_example =
    process_archive-unqueued ascii library [] true full world start seen
      (not_queued (codes "disk full")) refl refl refl failed_run

abbrev uploading_world : UploadWorld
uploading_world = record {
  uploads_fault = none;
  now = 99_000_000_000;
  recover_write = none;
  worlds = worlds;
  next_fault = none;
  next_now = 102_000_000_000;
  time = 6;
}

abbrev cycle : CycleWorld
cycle = record { archive = world; checked_at = 0; upload = uploading_world; time = 7 }

abbrev unseen : CycleWorld
unseen = record cycle { archive = record world { stat = err (codes "no such file") } }

-- The first cycle archives, queues and uploads the scan, the second fails and the third recovers.
abbrev run_events : List Event
run_events = (run ascii library agent [] 0 cycle (unseen ∷ cycle ∷ []) 9 start).0

one_recovery : total recovered_event run_events ≡ 1
unfolding Int.wrap64 Int.add_ℤ Int.sub_ℤ Int.quotient Strings.str_eq Strings.str_lt Strings.is_space
    Strings.trim_left Strings.trim_space Strings.cut Strings.split_onto Strings.has_prefix
    Strings.to_lower Strings.drop_slashes Numbers.digits_value Numbers.decimal Numbers.saturated
    Numbers.parse_uint Numbers.parse_int Numbers.is_float Maps.lookup Maps.insert Cursor.take_while
    Cursor.skip_round Cursor.skip_rounds Cursor.skip_ignored Escapes.escape_rune
    Escapes.decimal_escape Escapes.more_digits Escapes.scan_escape Escapes.scan_round
    Escapes.scan_rounds Escapes.scan_string Lexer.punctuation Lexer.word_kind Lexer.next_at
    Lexer.next Value.as_table Value.as_string Value.as_integer Value.as_boolean Value.table_field
    Sequence.numbered Sequence.add_indexed Sequence.keys Sequence.insert_sorted Sequence.sort
    Sequence.collect Sequence.sequence Parser.assign Parser.has_point Parser.bracket_key
    Parser.number_value Parser.advance Parser.consume Parser.parse_bracket_key Parser.value_with
    Parser.bracket_entry Parser.named_entry Parser.array_entry Parser.table_entry Parser.separator
    Parser.table_entries Parser.parse_table Parser.parse_value Parser.optional_semicolon
    Parser.assignment Parser.parse_document Parser.new_parser Parser.parse_variable Validate.one_of
    Validate.valid_region Validate.is_neutral_map Validate.classify_auction_house Validate.market
    Validate.validate_row Validate.unit_buyout Validate.validate_export Validate.validate_place
    Validate.validate_scanner Validate.validate_counts Validate.seen Validate.check_row
    Validate.validate_rows Validate.validate Fields.value_string Fields.value_int64 Fields.value_int
    Fields.field_table Fields.string_field Fields.non_empty_string_field Fields.int_field
    Fields.int64_field Fields.bool_field Fields.is_string Fields.compare_fields
    Fields.validate_fields Decode.decode_each Decode.decode_item Decode.decode_item_dictionary
    Decode.item_at Decode.read_row Decode.row_of_values Decode.decode_row Decode.read_header
    Decode.decode_rows Decode.decode_scan Decode.decode Scanfile.load_variable Scanfile.load
    Process.archived Process.add_scan Process.process_scan Process.process_scans
    Process.process_file Store.load_state Store.new_processor Store.checksums Store.records_at
    Store.archive_records Store.read_records Store.process_source Queue.same_record Queue.merge
    Queue.queue_one Queue.queue_all Queue.queue Due.is_due Due.due_keys Due.insert_text
    Due.sort_texts Due.due_checksums Due.next_due_from Due.next_due_at Due.refused_with
    Due.is_authorization_failure Due.reset_all Due.reset_failed_authorization Backoff.backoff_loop
    Backoff.backoff Upload.print_onto Upload.print_nat Upload.is_retryable_status Upload.api_error
    Upload.read_payload Upload.upload ScanuploadProcess.recover ScanuploadProcess.finish
    ScanuploadProcess.begun ScanuploadProcess.attempted ScanuploadProcess.process
    ScanuploadProcess.process_due ScanuploadStore.resolve_data_dir ScanuploadStore.new_agent
    ScanuploadStore.stored_records Watchagent.archive_event Watchagent.upload_event
    Watchagent.new_watcher Archiving.archive_events Archiving.result_records Archiving.by_checksum
    Archiving.queue_events Archiving.any_queued Archiving.queue_records Archiving.queue_results
    Archiving.process_changed Archiving.process_archive Uploading.progressed
    Uploading.all_progressed Uploading.uploading_events Uploading.result_events
    Uploading.process_uploads Cycle.run_cycle Cycle.run_ticks Cycle.run Quiet.total
one_recovery = refl

run-recoveries_bounded_example :
    let done = run ascii library agent [] 0 cycle (unseen ∷ cycle ∷ []) 9 start in
    total recovered_event done.0 + bit done.1.unhealthy ≤ total error_reported done.0
run-recoveries_bounded_example =
    run-recoveries_bounded ascii library agent [] 0 9 cycle (unseen ∷ cycle ∷ []) missing missing
