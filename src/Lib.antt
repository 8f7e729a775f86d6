-- ===== src/Lib.antt =====
-- A model of the ClipGauge pipeline, the Python program that turns a long video into short clips
-- (pipeline/clipgauge_pipeline).
--
-- A job is a row of a SQLite database and a directory of files. The stage runner (jobs/queue.py)
-- takes the stages of a job in order: it reuses a stage's checkpoint if the checkpoint and every
-- file it refers to still are what was written (jobs/artifacts.py), and otherwise checks the disk
-- (resource_guard.py, over the estimates of storage_estimate.py), runs the stage and stores its
-- result. The edit of a clip takes silences out of it and moves words and frames to the shorter
-- timeline (edits/timeline.py). The creator groups clips into collections, which are kept in one
-- JSON file of the job (collections/service.py), and titles clips (creator_state.py). Reactions in
-- the sound are found as spans of frames (events/post.py). A streamed operation ends with one
-- terminal event (protocol.py). Models and tools are downloaded by a manager that asks for consents
-- (downloads.py), with transfers that are resumed and verified (runtime.py). Speech is recognised in
-- batches that shrink when memory runs out, and then on the CPU (asr/stage.py). What a job leaves is
-- measured and cleaned up, with its rows of the database (storage.py). Subtitles that come with a
-- source are put in order (transcripts/formats.py), and captions are cut into chunks of words
-- (captions/ass.py). Clips are scored by a model that is asked over HTTP, with a few attempts
-- (scoring/providers.py).
--
--   Common           shared names: tests on numbers and texts, lists, the result monad
--   Json             the values that `json.loads` gives
--   Disk             storage_estimate.py and resource_guard.py: Estimate, Url, Guard; laws in Bounds
--   Jobs.Store       the tables of jobs/queue.py and the statements on them; laws in Rows, Lifecycle
--   Jobs.Artifacts   jobs/artifacts.py: descriptors, `prepare`, `restore`; Validate has `validate`
--                    and the manifest; laws in Managed, Plain, Validate.Sound, Validate.Manifest
--   Jobs.Checkpoint  checkpoints and dependency fingerprints of jobs/queue.py; laws in Reading and
--                    Writing
--   Jobs.Runner      `run_stages` and `cached_prefix_ready` of jobs/queue.py; laws in Timing, Status,
--                    Cache, Order and Gate
--   Text             the operations of `str` that the program uses; laws in Words, Starts
--   Timeline         edits/timeline.py: Cuts (`detect_dead_space`), Ranges (`keep_ranges`), Remap
--                    (`TimeRemap`); laws in Cuts.Silence, Ranges.Cover, Remap.Order, Remap.Frames
--   Collections      collections/model.py; Service and Smart have collections/service.py; laws in
--                    Stored, Checks, Changes, Edits, Accepted, Apart, Grouping and Regenerate
--   Titles           the title overrides of creator_state.py; laws in Stored and Shown
--   Events           the spans of events/post.py; laws in Separate and Loud
--   Protocol         `TerminalEmitter` of protocol.py; its law in Once
--   Transfer         `download_verified` of runtime.py; laws in Opening, Verified and Resuming
--   Downloads        downloads.py: Cache, Consent, Inventory, Space (`estimate`) and Manager; laws in
--                    Consent.Granted, Inventory.Faithful, Inventory.Probes, Inventory.Agrees, and
--                    Manager.Settled, Group, Permitted and Migration
--   Asr              the retries and the fall-back of asr/stage.py; laws in Batches and Fallback
--   Storage          storage.py: Tree (files and their removal), Scan (sizes) and Cleanup; laws in
--                    Tree, Scan and Cleanup.Allowed
--   Subtitles        `_normalize` of transcripts/formats.py; laws in Ordered and Kept
--   Captions         `chunk_words` of captions/ass.py; its law in Chunks
--   Providers        the attempts of a request in scoring/providers.py; its law in Attempts
--   Witnesses        the theorems at concrete inputs
--
-- State is passed explicitly: an operation takes the tables, the files or the runner's state, and
-- returns the new one. What may raise returns a `Result`, or an outcome type of its own with the
-- state that the raise leaves behind. Loops over lists are structural recursions, and loops over
-- attempts recurse on the attempts left, as many as the code allows. Fuel is used once, for the
-- sizes of batches (asr/stage.py): three steps more than the given size, which is shown to be
-- enough. The file system, pathlib, hashing, the clock, and what a stage does are parameters.
--
-- Not modelled: exceptions of the disk and of SQLite, but for the one behind a clean-up's deletion,
-- those of the JSON encoder, writes that fail half way (the code writes to a temporary file and
-- renames it), several processes on one job, the texts of messages, and the parts that PROJECT.json
-- lists.
--
-- Times of the timeline, of subtitles and of captions are whole milliseconds, and posteriors
-- thousandths: the code's floats are not modelled, and its rounding to three digits is the
-- identity.
mod Common
pub mod Text
pub mod Json
pub mod Disk
pub mod Jobs
pub mod Timeline
pub mod Collections
pub mod Titles
pub mod Events
pub mod Protocol
pub mod Transfer
pub mod Downloads
pub mod Asr
pub mod Storage
pub mod Subtitles
pub mod Captions
pub mod Providers
mod Witnesses
