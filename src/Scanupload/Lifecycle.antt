-- ===== src/Scanupload/Lifecycle.antt =====
-- The life of an upload, as `upload.go` promises it: what can become of a checksum, and the calls
-- of the package on the uploads of the state.
pub mod Due
pub mod Attempts
pub mod Refines
use wow_markets.Base.{
  ℕ, Bool, true, false, List, [], ◌∷◌, Option, none, some, Result, ok, ◌≡◌, if◌then◌else◌,
}
use wow_markets.Base.Int.{ℤ}
use wow_markets.Base.Maps.{IsMap, text_key}
use wow_markets.Base.Strings.{Text}
use wow_markets.Scanarchive.Record.{ArchiveRecord}
use wow_markets.Scanupload.Record.{
  Status, pending, uploading, uploaded, failed, other, Record, Uploads, QueueResult,
}
use wow_markets.Scanupload.Outside.{Time, Library}
use wow_markets.Scanupload.Queue.{queue}
use wow_markets.Scanupload.Due.{reset_failed_authorization}
use wow_markets.Scanupload.Process.{World, Agent, process_due}

-- What is known of a checksum, its record's metadata and times forgotten.
pub data Stage : Type 0 where
  absent waiting running done retrying dead unknown : Stage

abbrev pub failed_stage : Bool → Stage
failed_stage true = retrying
failed_stage false = dead

abbrev pub stage_of : Status → Bool → Stage
stage_of pending retryable = waiting
stage_of uploading retryable = running
stage_of uploaded retryable = done
stage_of failed retryable = failed_stage retryable
stage_of (other _) retryable = unknown

abbrev pub stage : Option Record → Stage
stage none = absent
stage (some r) = stage_of r.status r.retryable

-- What is called: `Queue`, `ProcessDueLimit` or `ResetFailedAuthorization`.
pub data Operation : Type 0 where
  queue_call process_call reset_call : Operation

-- The moves of an upload that a call can make. None leaves `done`, and only a reset leaves `dead`.
pub data Moves : Operation → Stage → Stage → Type 0 where
  enqueue : Moves queue_call absent waiting
  begin : Moves process_call waiting running
  retry : Moves process_call retrying running
  succeed : Moves process_call running done
  postpone : Moves process_call running retrying
  give_up : Moves process_call running dead
  reset_retrying : Moves reset_call retrying waiting
  reset_dead : Moves reset_call dead waiting

-- One call, that makes moves of its own only.
pub data Leads (c : Operation) (s : Stage) : Stage → Type 0 where
  stays : Leads c s s
  goes : {t u : Stage} → Leads c s t → Moves c t u → Leads c s u

pub Leads-trans : {c : Operation} {s t u : Stage} → Leads c s t → Leads c t u → Leads c s u
Leads-trans p stays = p
Leads-trans p (goes q m) = goes (Leads-trans p q) m

-- A life under a sequence of calls, the latest first.
pub data Lives (s : Stage) : List Operation → Stage → Type 0 where
  starts : Lives s [] s
  continues :
      {c : Operation} {cs : List Operation} {t u : Stage}
      → Lives s cs t
      → Leads c t u
      → Lives s (c ∷ cs) u

-- The calls on the uploads of the state, whatever they meet. A map holds no key twice.
pub data Call (lib : Library) (agent : Agent) : Operation → Uploads → Uploads → Type 0 where
  queueing :
      (now : Text) (write : Uploads → Result Text (Unit {0})) (stored : Uploads)
      (archives : List ArchiveRecord) (results : List QueueResult) (after : Uploads)
      → queue lib now write stored archives ≡ ok (results, after)
      → Call lib agent queue_call stored after
  processing :
      (limit : ℤ) (now : Time) (recover_write : Option Text) (worlds : Text → World)
      (stored : Uploads)
      → IsMap stored
      → Call lib agent process_call stored
          (process_due lib agent limit now recover_write worlds stored).stored
  resetting :
      (write : Uploads → Result Text (Unit {0})) (stored : Uploads) (n : ℕ) (after : Uploads)
      → reset_failed_authorization write stored ≡ ok (n, after)
      → Call lib agent reset_call stored after

-- A sequence of calls, the latest first.
pub data Calls (lib : Library) (agent : Agent) (u : Uploads)
    : List Operation → Uploads → Type 0 where
  none_yet : Calls lib agent u [] u
  one_more :
      {c : Operation} {cs : List Operation} {v w : Uploads}
      → Calls lib agent u cs v
      → Call lib agent c v w
      → Calls lib agent u (c ∷ cs) w
