-- ===== src/Storage/Scan.antt =====
-- The node_sizes: `_size` and `_scan` of pipeline/clipgauge_pipeline/storage.py.
use clipgauge.Common.{ℕ, ◌+◌, ◌≤◌, String, ◌≡◌, refl, Bool, ◌||◌, ◌=s=◌, arith, if◌then◌else◌}
use clipgauge.Text.Find.{ends_with, has_text}
use clipgauge.Storage.{Node, Nodes, is_temporary}

-- `_size`
unfoldable mutual
  pub node_size : Node → ℕ
  node_size (Node.plain_file n) = n
  node_size Node.symlink = 0
  node_size (Node.folder ns) = node_sizes ns

  pub node_sizes : Nodes → ℕ
  node_sizes Nodes.no_more = 0
  node_sizes (Nodes.named name n ns) = node_size n + node_sizes ns

-- What `_scan` returns.
pub record Totals : Type 0 where
  pub total : ℕ
  pub rendered : ℕ
  pub partial : ℕ
  pub diagnostics : ℕ

abbrev pub none_at_all : Totals
none_at_all = record { total = 0; rendered = 0; partial = 0; diagnostics = 0 }

abbrev pub add_totals : Totals → Totals → Totals
add_totals s t = record {
  total = s.total + t.total;
  rendered = s.rendered + t.rendered;
  partial = s.partial + t.partial;
  diagnostics = s.diagnostics + t.diagnostics;
}

abbrev pub file_totals : String → String → Bool → ℕ → Totals
file_totals parent name in_diagnostics n = record {
  total = n;
  rendered = if parent =s= "outputs" || parent =s= "rendered" then n else 0;
  partial = if is_temporary name then n else 0;
  diagnostics = if in_diagnostics then n else 0;
}

-- `_scan` of the node with a name in a folder with a name.
unfoldable mutual
  unfolding ends_with has_text

  pub scan : String → String → Bool → Node → Totals
  scan parent name in_diagnostics (Node.plain_file n) = file_totals parent name in_diagnostics n
  scan parent name in_diagnostics Node.symlink = none_at_all
  scan parent name in_diagnostics (Node.folder ns) = scan_all name in_diagnostics ns

  pub scan_all : String → Bool → Nodes → Totals
  scan_all parent in_diagnostics Nodes.no_more = none_at_all
  scan_all parent in_diagnostics (Nodes.named name n ns) =
      add_totals (scan parent name (in_diagnostics || name =s= "diagnostics") n)
        (scan_all parent in_diagnostics ns)

-- The parts are parts of the whole, which is the node_size that is found otherwise.
abbrev pub IsSplit : ℕ → Totals → Type 0
IsSplit n t = (t.total ≡ n) × (t.rendered ≤ n) × (t.partial ≤ n) × (t.diagnostics ≤ n)

mutual
  unfolding node_size scan

  scan-IsSplit_at :
      (parent name : String) (in_diagnostics : Bool) (n : Node)
      → IsSplit (node_size n) (scan parent name in_diagnostics n)
  scan-IsSplit_at parent name d (Node.plain_file n) =
      (refl, ground arith, ground arith, ground arith)
  scan-IsSplit_at parent name d Node.symlink = (refl, omega arith, omega arith, omega arith)
  scan-IsSplit_at parent name d (Node.folder ns) = scan_all-IsSplit name d ns

  scan_all-IsSplit :
      (parent : String) (in_diagnostics : Bool) (ns : Nodes)
      → IsSplit (node_sizes ns) (scan_all parent in_diagnostics ns)
  scan_all-IsSplit parent d Nodes.no_more = (refl, omega arith, omega arith, omega arith)
  scan_all-IsSplit parent d (Nodes.named name n ns) =
      let (a, b, c, e) = scan-IsSplit_at parent name (d || name =s= "diagnostics") n in
      let (f, g, h, i) = scan_all-IsSplit parent d ns in
      (omega (arith, a, f), omega (arith, b, g), omega (arith, c, h), omega (arith, e, i))

-- Of whatever lies in the data root, the scan finds the total that `_size` finds, and the rendered,
-- partial and diagnostic bytes are each no more than that.
pub scan-IsSplit :
    (parent name : String) (in_diagnostics : Bool) (n : Node)
    → IsSplit (node_size n) (scan parent name in_diagnostics n)
scan-IsSplit = scan-IsSplit_at
