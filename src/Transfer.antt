-- ===== src/Transfer.antt =====
-- pipeline/clipgauge_pipeline/runtime.py: a verified download, which resumes a part of the file.
-- The network is the record `Network`; SHA-256 is a parameter.
pub mod Opening
pub mod Verified
pub mod Resuming
use clipgauge.Common.{
  ℕ, zero, suc, ◌+◌, ◌<◌, String, Bool, true, false, ◌&&◌, ◌||◌, not, Option, none, some, List, [],
  ◌∷◌, ◌++◌, Result, ok, err, ltb, leb, ◌==◌, if◌then◌else◌, length,
}
use clipgauge.Text.{char_count}
use clipgauge.Text.Lower.{same_lower}

-- The chunks of a body, each with what `cancelled()` says behind it, up to its end or an error of
-- the connection.
pub data Stream : Type 0 where
  finished broken : Stream
  chunk : List ℕ → Bool → Stream → Stream

pub record Response : Type 0 where
  pub status : ℕ
  -- `int(content_length or 0)`; 0 stands for what is no number or below 0 too, where nothing is
  -- refused either.
  pub announced : ℕ
  pub body : Stream

pub data ServerReply : Type 0 where
  unreachable : ServerReply
  answers : Response → ServerReply

-- What each attempt of the first (0) and the second (1) request meets. The first one asks for the
-- bytes behind an offset, unless that is 0.
pub record Network : Type 0 where
  pub cancelled_at_start : Bool
  pub cancelled_before : ℕ → ℕ → Bool
  pub reply : ℕ → ℕ → ℕ → ServerReply

pub data TransferFailure : Type 0 where
  no_digest cancelled interrupted too_large wrong_size wrong_hash retries_exhausted :
      TransferFailure
  http_status http_status_after_retries : ℕ → TransferFailure

abbrev pub retryable_http_status : ℕ → Bool
retryable_http_status s = s == 408 || s == 425 || s == 429 || (leb 500 s && leb s 599)

-- `len(_DOWNLOAD_RETRY_DELAYS) + 1`
abbrev pub open_attempts : ℕ
open_attempts = 4

abbrev pub is_last_attempt : ℕ → Bool
is_last_attempt left = left == 0

module _ (net : Network) (request offset : ℕ) where
  -- What is done with the reply: `again` is the next attempt.
  abbrev pub on_reply :
      ℕ → ServerReply → Result TransferFailure Response → Result TransferFailure Response
  on_reply left unreachable again = err interrupted
  on_reply left (answers r) again =
      if retryable_http_status r.status
      then (if is_last_attempt left then err (http_status_after_retries r.status) else again)
      else ok r

  -- `_download_stream`, with the attempts left. The code's assertion behind the loop is
  -- `retries_exhausted`.
  unfoldable pub open_from : ℕ → ℕ → Result TransferFailure Response
  open_from zero attempt = err retries_exhausted
  open_from (suc left) attempt =
      let again = open_from left (attempt + 1) in
      if net.cancelled_before request attempt
      then err cancelled
      else on_reply left (net.reply request offset attempt) again

  unfoldable pub download_stream : Result TransferFailure Response
  unfolding open_from
  download_stream = open_from open_attempts 0

-- The partial file and the file itself.
pub record PartFiles : Type 0 where
  pub part : Option (List ℕ)
  pub destination : Option (List ℕ)

abbrev pub part_size : Option (List ℕ) → ℕ
part_size none = 0
part_size (some b) = length b

abbrev pub part_bytes : Option (List ℕ) → List ℕ
part_bytes none = []
part_bytes (some b) = b

-- `_safe_size` raises.
abbrev pub exceeds : ℕ → ℕ → ℕ → Bool
exceeds current announced max_bytes = not (announced == 0) && ltb max_bytes (current + announced)

-- What a loop over the chunks leaves in the partial file, and why it stopped early.
pub record Written : Type 0 where
  pub bytes : List ℕ
  pub stopped : Option TransferFailure

unfoldable pub write_chunks : ℕ → List ℕ → Stream → Written
write_chunks max_bytes done finished = record { bytes = done; stopped = none }
write_chunks max_bytes done broken = record { bytes = done; stopped = some interrupted }
write_chunks max_bytes done (chunk b stop rest) =
    let all = write_chunks max_bytes (done ++ b) rest in
    if stop
    then record { bytes = done; stopped = some cancelled }
    else if ltb max_bytes (length done + length b)
    then record { bytes = done; stopped = some too_large }
    else all

pub record TransferOutcome : Type 0 where
  pub files : PartFiles
  pub result : Result TransferFailure (Unit {0})

abbrev pub fail : PartFiles → TransferFailure → TransferOutcome
fail files e = record { files = files; result = err e }

pub record Wanted : Type 0 where
  pub sha256 : String
  pub max_bytes : ℕ
  pub size : Option ℕ

abbrev pub has_wrong_size : Option ℕ → ℕ → Bool
has_wrong_size none n = false
has_wrong_size (some m) n = not (n == m)

abbrev pub without_part : PartFiles → PartFiles
without_part files = record files { part = none }

abbrev pub must_restart : ℕ → ℕ → Bool
must_restart offset status = ltb 0 offset && (status == 200 || status == 416)

module _ (hash : List ℕ → String) (want : Wanted) where
  -- The checks behind the transfer, of the partial file `b`.
  abbrev pub verify : Option (List ℕ) → List ℕ → TransferOutcome
  verify old b =
      if has_wrong_size want.size (length b)
      then fail (record { part = some b; destination = old }) wrong_size
      else if not (same_lower (hash b) want.sha256)
      then fail (record { part = none; destination = old }) wrong_hash
      else record { files = record { part = none; destination = some b }; result = ok tt }

  abbrev pub finish : Option (List ℕ) → List ℕ → Option TransferFailure → TransferOutcome
  finish old b (some e) = fail (record { part = some b; destination = old }) e
  finish old b none = verify old b

  -- The body is written behind `done`, if what is announced fits.
  abbrev pub receive : PartFiles → List ℕ → Response → TransferOutcome
  receive files done r =
      let w = write_chunks want.max_bytes done r.body in
      if exceeds (length done) r.announced want.max_bytes
      then fail files too_large
      else finish files.destination w.bytes w.stopped

  abbrev pub restart : PartFiles → Result TransferFailure Response → TransferOutcome
  restart files (err e) = fail files e
  restart files (ok r) =
      if not (r.status == 200) then fail files (http_status r.status) else receive files [] r

  abbrev pub continue_with : Network → PartFiles → Result TransferFailure Response → TransferOutcome
  continue_with net files (err e) = fail files e
  continue_with net files (ok r) =
      if must_restart (part_size files.part) r.status
      then restart (without_part files) (download_stream net 1 0)
      else if not (r.status == 200 || r.status == 206)
      then fail files (http_status r.status)
      else receive files (part_bytes files.part) r

  -- A partial file that is too large is thrown away.
  abbrev pub usable_files : PartFiles → PartFiles
  usable_files files =
      if ltb want.max_bytes (part_size files.part) then without_part files else files

  unfoldable pub download_verified : Network → PartFiles → TransferOutcome
  unfolding download_stream write_chunks same_lower
  download_verified net files =
      let start = usable_files files in
      if not (char_count want.sha256 == 64)
      then fail files no_digest
      else if net.cancelled_at_start
      then fail start cancelled
      else continue_with net start (download_stream net 0 (part_size start.part))
