-- ===== src/Witnesses/Storage.antt =====
-- The theorems about the data root, at concrete inputs.
use clipgauge.Common.{false, true, none, some, [], ◌∷◌}
use clipgauge.Storage.{Node, Nodes}
use clipgauge.Storage.Scan.{IsSplit, node_size, scan, scan-IsSplit}
use clipgauge.Storage.Cleanup.{Target, Root, cleanup}
use clipgauge.Storage.Cleanup.Allowed.{Done, cleanup-Done}
use clipgauge.Jobs.Store.{JobStatus, SourceType}

abbrev downloads : Nodes
downloads = Nodes.named "model.bin" (Node.plain_file 9) (
    Nodes.named ".model.bin.part" (Node.plain_file 4)
      (Nodes.named "link" Node.symlink Nodes.no_more))

abbrev failed_job : Nodes
failed_job = Nodes.named "20260101-120000-0a1b2c" (Node.folder Nodes.no_more) Nodes.no_more

abbrev data_root : Root
data_root = record {
  tree =
      Nodes.named "downloads" (Node.folder downloads)
        (Nodes.named "jobs" (Node.folder failed_job) Nodes.no_more);
  database = some (record {
    jobs =
        record {
          id = "20260101-120000-0a1b2c";
          created_at = 5;
          source_type = SourceType.url;
          source = "https://example.com/v";
          title = none;
          status = JobStatus.failed;
          error = none;
          settings_json = "{}";
          input_json = none;
        }
        ∷ [];
    stage_runs = [];
  });
}

scan-IsSplit_example :
    IsSplit
      (node_size (Node.folder downloads))
      (scan "root" "downloads" false (Node.folder downloads))
scan-IsSplit_example = scan-IsSplit "root" "downloads" false (Node.folder downloads)

cleanup-Done_example :
    Done data_root Target.failed_session "20260101-120000-0a1b2c" true
      (cleanup data_root Target.failed_session "20260101-120000-0a1b2c" true false).0
      (cleanup data_root Target.failed_session "20260101-120000-0a1b2c" true false).1
cleanup-Done_example =
    cleanup-Done data_root Target.failed_session "20260101-120000-0a1b2c" true false
