-- ===== src/Witnesses/Disk.antt =====
-- The theorems about disk space and memory, at concrete inputs.
use clipgauge.Common.{◌+◌, ◌*◌, ◌/◌, ◌≤◌, ◌≡◌, refl, false, none, some}
use clipgauge.Disk.Estimate.{for_source, or_else, copy_size, checkpoint_size, min_safe_bytes}
use clipgauge.Disk.Guard.{estimated, render, disk_headroom_decision}
use clipgauge.Disk.Bounds.{needed, for_source-covers, disk_headroom-passed}

for_source-covers_example :
    6 * (copy_size 1000 none + checkpoint_size + 1000 / 2)
    ≤ 5 * needed (for_source 1000 (some 60000) none)
for_source-covers_example = for_source-covers 1000 (some 60000) none

passes :
    (disk_headroom_decision
      (some 90000000000)
      (estimated (for_source 1000 none none))
      false
      (some render)).blocked
    ≡ false
unfolding disk_headroom_decision for_source
passes = refl

disk_headroom-passed_example :
    (min_safe_bytes ≤ 90000000000)
    × (some render ≡ some render
        → 6 * (or_else (for_source 1000 none none).render_bytes 0 + checkpoint_size)
          ≤ 5 * 90000000000)
disk_headroom-passed_example =
    disk_headroom-passed 90000000000 (for_source 1000 none none) (some render) passes
