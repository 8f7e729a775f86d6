-- ===== src/Jobs/Checkpoint.antt =====
-- Checkpoints and dependency fingerprints of pipeline/clipgauge_pipeline/jobs/queue.py.
pub mod Reading
pub mod Writing
use clipgauge.Common.{
  ℕ, String, Bool, true, ◌||◌, Option, none, some, List, [], ◌∷◌, ok, err, ◌>>=◌, ◌=s=◌,
  if◌then◌else◌,
}
use clipgauge.Json.{
  Value, null, bool, num, str, arr, obj, Fields, end, field, get, put, as_object, is_text,
}
use clipgauge.Jobs.Store.{Job, SourceType, url, file, other_source}
use clipgauge.Jobs.Artifacts.{
  FileSystem, Site, Descriptor, Raises, descriptors_json, prepare, Code, uncaught,
  checkpoint_corrupt, checkpoint_malformed, checkpoint_dependency_stale,
}
use clipgauge.Jobs.Artifacts.Validate.{validate, update_manifest}

-- A JSON file as it is found; one that is no UTF-8 is `undecodable`, one that cannot be parsed or read
-- is `corrupt`.
pub data Stored : Type 0 where
  missing corrupt undecodable : Stored
  parsed : Value → Stored

abbrev pub readable_value : Stored → Option Value
readable_value (parsed v) = some v
readable_value _ = none

-- The files of a job directory that the runner itself reads and writes: one checkpoint for each
-- stage, and the artifact manifest.
pub record Files : Type 0 where
  pub checkpoint : String → Stored
  pub manifest : Stored

abbrev pub set_checkpoint : (String → Stored) → String → Stored → String → Stored
set_checkpoint f k s j = if k =s= j then s else f j

-- `data.get("_checkpoint", {}).get(key)`
abbrev pub meta : Fields → String → Option Value
meta content key = elim (as_object (get content "_checkpoint")) [ some m ↦ get m key | none ↦ none ]

abbrev pub or_null : Option Value → Value
or_null none = null
or_null (some v) = v

unfoldable pub envelope : String → ℕ → ℕ → Fields → Value → List Descriptor → Fields
envelope stage version now content prepared descriptors = field "stage" (str stage) (
    field "schema_version" (num version) (
      field "created_at" (num now) (
        field "dependency_fingerprint" (or_null (meta content "dependency_fingerprint"))
          (field "data" prepared (field "artifacts" (arr (descriptors_json descriptors)) end)))))

-- What a read gives: the data, or nothing, with the reason if the file was there; `escapes` is an
-- exception other than an `ArtifactError`.
pub data Cached : Type 0 where
  absent escapes : Cached
  unusable : Code → Cached
  reusable : Value → Cached

-- `except artifacts.ArtifactError`
abbrev pub on_error : Code → Cached
on_error uncaught = escapes
on_error c = unusable c

-- `stored_dependency != expected_dependency_fingerprint`
abbrev pub is_dependency : Fields → Option String → Bool
is_dependency e none = true
is_dependency e (some expected) = is_text (get e "dependency_fingerprint") expected

module _ (site : Site) where
  -- The file half of `write_checkpoint`; its database half is `finish_run`.
  unfoldable pub write_checkpoint : FileSystem → Files → String → ℕ → Fields → ℕ → Raises Files
  unfolding envelope
  write_checkpoint fs files stage version content now = do
    prepared ← prepare site fs (obj content) stage
    ok (record {
      checkpoint =
          set_checkpoint files.checkpoint stage
            (parsed (obj (envelope stage version now content prepared.0 prepared.1)));
      manifest =
          parsed (
            obj
              (update_manifest site (readable_value files.manifest) stage version prepared.1 now));
    })

  read_envelope : FileSystem → Files → Fields → String → ℕ → Option String → Cached
  read_envelope fs files e stage version expected =
      elim (validate site fs (readable_value files.manifest) e stage version) [
        | err c ↦ on_error c
        | ok v ↦
            if is_dependency e expected then reusable v else unusable checkpoint_dependency_stale
      ]

  read_stored : FileSystem → Files → Stored → String → ℕ → Option String → Cached
  unfolding read_envelope
  read_stored fs files missing stage version expected = absent
  read_stored fs files undecodable stage version expected = escapes
  read_stored fs files corrupt stage version expected = unusable checkpoint_corrupt
  read_stored fs files (parsed (obj e)) stage version expected =
      read_envelope fs files e stage version expected
  read_stored fs files (parsed _) stage version expected = unusable checkpoint_malformed

  unfoldable pub read_checkpoint_detailed : FileSystem → Files → String → ℕ → Option String → Cached
  unfolding read_stored
  read_checkpoint_detailed fs files stage version expected =
      read_stored fs files (files.checkpoint stage) stage version expected

  -- `none` is an exception.
  unfoldable pub read_checkpoint : FileSystem → Files → String → ℕ → Option (Option Value)
  unfolding read_checkpoint_detailed
  read_checkpoint fs files stage version =
      elim (read_checkpoint_detailed fs files stage version none) [
        | reusable v ↦ some (some v)
        | escapes ↦ none
        | _ ↦ some none
      ]

-- `json.dumps` followed by SHA-256, `json.loads`, `Path.stat` of the source.
pub record Hashing : Type 0 where
  pub fingerprint : Value → String  -- `_fingerprint`
  pub loads : String → Option Value

abbrev source_type_text : SourceType → String
source_type_text url = "url"
source_type_text file = "file"
source_type_text other_source = ""

-- The source file of a job, if `stat` finds it: its size, its time and what `_sampled_source_hash`
-- makes of it.
pub record SourceStat : Type 0 where
  pub size : ℕ
  pub mtime_ns : ℕ
  pub sampled_hash : Value

abbrev with_subtitle : Option Value → Fields → Fields
with_subtitle (some (obj input)) identity = elim (as_object (get input "subtitle")) [
  | none ↦ identity
  | some subtitle ↦
      put (put identity "subtitle_mode" (or_null (get subtitle "mode"))) "subtitle_sha256"
        (or_null (get subtitle "sha256"))
]
with_subtitle _ identity = identity

abbrev with_stat : SourceType → Option SourceStat → String → Fields → Fields
with_stat file (some st) stage identity =
    put (put (put identity "size" (num st.size)) "mtime_ns" (num st.mtime_ns)) "sampled_hash"
      (if stage =s= "ingest" then st.sampled_hash else null)
with_stat file none stage identity = put identity "missing" (bool true)
with_stat _ _ stage identity = identity

abbrev input_value : Hashing → Option String → Option Value
input_value h none = none
input_value h (some text) = h.loads text

unfoldable pub source_identity : Hashing → Job → Option SourceStat → String → Fields
source_identity h job st stage = with_stat job.source_type st stage (
    with_subtitle (input_value h job.input_json)
      (field "type" (str (source_type_text job.source_type)) (field "source" (str job.source) end)))

-- The results of the stages so far, in order.
abbrev pub Results : Type 0
Results = List (String × Fields)

unfoldable pub result_of : Results → String → Option Fields
result_of [] k = none
result_of ((j, v) ∷ rs) k = if j =s= k then some v else result_of rs k

-- `results[k] = v`
unfoldable pub set_result : Results → String → Fields → Results
set_result [] k v = (k, v) ∷ []
set_result ((j, w) ∷ rs) k v = if j =s= k then (j, v) ∷ rs else (j, w) ∷ set_result rs k v

unfoldable pub upstream : Results → Fields
upstream [] = end
upstream ((k, content) ∷ rs) = field k (or_null (meta content "output_fingerprint")) (upstream rs)

abbrev source_hash : Option Fields → Value
source_hash none = null
source_hash (some ingest) = or_null (get ingest "source_hash")

unfoldable pub dependency_fingerprint :
    Hashing → Job → Option SourceStat → String → ℕ → Fields → Results → String
unfolding source_identity upstream result_of
dependency_fingerprint h job st stage version settings prior = h.fingerprint (
    obj (
      field "stage" (str stage) (
        field "schema_version" (num version) (
          field "source_hash" (source_hash (result_of prior "ingest")) (
            field "source_identity" (obj (source_identity h job st stage))
              (field "settings" (obj settings) (field "upstream" (obj (upstream prior)) end)))))))

-- `_with_checkpoint_metadata`
unfoldable pub with_checkpoint_metadata : Hashing → Fields → String → Fields
with_checkpoint_metadata h content dependency = put content "_checkpoint" (
    obj (
      field "dependency_fingerprint" (str dependency)
        (field "output_fingerprint" (str (h.fingerprint (obj content))) end)))

-- `{key: settings.get(key) for key in keys}`
abbrev select : Fields → List String → Fields
select settings [] = end
select settings (k ∷ ks) = field k (or_null (get settings k)) (select settings ks)

abbrev get_or : Fields → String → Value → Value
get_or settings k d = elim (get settings k) [ some v ↦ v | none ↦ d ]

-- `Stage.dependency_settings`: the settings that change what the stage puts out.
unfoldable pub dependency_settings : String → Fields → Fields
dependency_settings stage settings =
    if stage =s= "asr"
    then select settings ("allow_cpu_asr_fallback" ∷ [])
    else if stage =s= "score"
    then select settings (
        "llm_mode" ∷ "provider_profile_id" ∷ "provider_model" ∷ "provider_endpoint_identity"
        ∷ "provider_capabilities" ∷ "quality_mode" ∷ "output_preference" ∷ "content_category" ∷ [])
    else if stage =s= "enrich" || stage =s= "collections"
    then field "content_category" (get_or settings "content_category" (str "auto")) end
    else if stage =s= "camera"
    then select settings ("camera" ∷ [])
    else if stage =s= "render"
    then select settings ("caption_preset" ∷ "lufs_target" ∷ "true_peak_db" ∷ [])
    else end
