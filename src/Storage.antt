-- ===== src/Storage.antt =====
-- pipeline/clipgauge_pipeline/storage.py: the node_sizes of what lies below the data root, and the
-- clean-up. The data root is a tree, without what a symbolic link leads to; an `OSError` is left
-- out.
pub mod Tree
pub mod Cleanup
pub mod Scan
use clipgauge.Common.{
  ℕ, zero, suc, ◌+◌, String, Bool, true, false, ◌&&◌, ◌||◌, not, Option, none, some, List, [], ◌∷◌,
  ◌++◌, ◌=s=◌, if◌then◌else◌,
}
use clipgauge.Text.Find.{ends_with, has_text}

mutual
  pub data Node : Type 0 where
    plain_file : ℕ → Node
    symlink : Node
    folder : Nodes → Node

  pub data Nodes : Type 0 where
    no_more : Nodes
    named : String → Node → Nodes → Nodes

-- The names from the data root down.
abbrev pub TreePath : Type 0
TreePath = List String

-- The name ends like a partial file's, or is one of a folder of staged files.
abbrev pub is_temporary : String → Bool
is_temporary name = ends_with name ".part" || ends_with name ".tmp" || has_text name ".staging"
