-- ===== src/Tests/Life.antt =====
-- A life of an upload that was refused, and its witness.
use wow_markets.Base.{◌≡◌, refl, none, [], ◌∷◌, codes}
use wow_markets.Base.Int.{pos}
use wow_markets.Base.Maps.{lookup, IsMap, text_key}
use wow_markets.Scanupload.Record.{Uploads}
use wow_markets.Scanupload.Process.{process_due}
use wow_markets.Scanupload.Lifecycle.{
  stage, done, process_call, reset_call, Lives, Calls, none_yet, one_more, processing, resetting,
}
use wow_markets.Scanupload.Lifecycle.Refines.{Calls-Lives}
use wow_markets.Tests.Upload.{library, agent, worlds, uploads, now, write, after_reset, reset_run}
use wow_markets.Base.Int as Int
use wow_markets.Base.Maps as Maps
use wow_markets.Base.Numbers as Numbers
use wow_markets.Base.Strings as Strings
use wow_markets.Scanupload.Backoff as Backoff
use wow_markets.Scanupload.Due as Due
use wow_markets.Scanupload.Process as Process
use wow_markets.Scanupload.Queue as Queue
use wow_markets.Scanupload.Upload as Upload

after_reset-IsMap : IsMap after_reset
unfolding Int.wrap64 Int.add_ℤ Int.sub_ℤ Int.quotient Strings.str_eq Strings.str_lt Strings.is_space
    Strings.trim_left Strings.trim_space Strings.cut Strings.split_onto Strings.has_prefix
    Strings.to_lower Strings.drop_slashes Numbers.digits_value Numbers.decimal Numbers.saturated
    Numbers.parse_uint Numbers.parse_int Numbers.is_float Maps.lookup Maps.insert Queue.same_record
    Queue.merge Queue.queue_one Queue.queue_all Queue.queue Due.is_due Due.due_keys Due.insert_text
    Due.sort_texts Due.due_checksums Due.next_due_from Due.next_due_at Due.refused_with
    Due.is_authorization_failure Due.reset_all Due.reset_failed_authorization Backoff.backoff_loop
    Backoff.backoff Upload.print_onto Upload.print_nat Upload.is_retryable_status Upload.api_error
    Upload.read_payload Upload.upload Process.recover Process.finish Process.begun Process.attempted
    Process.process Process.process_due
after_reset-IsMap = (refl, (refl, (refl, (refl, tt))))

abbrev after : Uploads
after = (process_due library agent (pos 0) now none worlds after_reset).stored

-- The refused upload is reset, and then uploaded.
after-done : stage (lookup (codes "d") after) ≡ done
unfolding Int.wrap64 Int.add_ℤ Int.sub_ℤ Int.quotient Strings.str_eq Strings.str_lt Strings.is_space
    Strings.trim_left Strings.trim_space Strings.cut Strings.split_onto Strings.has_prefix
    Strings.to_lower Strings.drop_slashes Numbers.digits_value Numbers.decimal Numbers.saturated
    Numbers.parse_uint Numbers.parse_int Numbers.is_float Maps.lookup Maps.insert Queue.same_record
    Queue.merge Queue.queue_one Queue.queue_all Queue.queue Due.is_due Due.due_keys Due.insert_text
    Due.sort_texts Due.due_checksums Due.next_due_from Due.next_due_at Due.refused_with
    Due.is_authorization_failure Due.reset_all Due.reset_failed_authorization Backoff.backoff_loop
    Backoff.backoff Upload.print_onto Upload.print_nat Upload.is_retryable_status Upload.api_error
    Upload.read_payload Upload.upload Process.recover Process.finish Process.begun Process.attempted
    Process.process Process.process_due
after-done = refl

calls : Calls library agent uploads (process_call ∷ reset_call ∷ []) after
calls =
    one_more (one_more none_yet (resetting write uploads 1 after_reset reset_run))
      (processing (pos 0) now none worlds after_reset after_reset-IsMap)

Calls-Lives_example :
    Lives
      (stage (lookup (codes "d") uploads))
      (process_call ∷ reset_call ∷ [])
      (stage (lookup (codes "d") after))
Calls-Lives_example = Calls-Lives library agent (codes "d") calls
