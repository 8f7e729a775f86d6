-- ===== src/Storage/Tree.antt =====
-- The tree below the data root, for pipeline/clipgauge_pipeline/storage.py: what stands at a path,
-- and what is left when a path is removed.
use clipgauge.Common.{
  ℕ, String, ◌≡◌, refl, Bool, true, false, ◌&&◌, Option, none, some, [], ◌∷◌, ◌=s=◌, eq_iff, arith,
  if◌then◌else◌,
}
use clipgauge.Storage.{Node, Nodes, TreePath}

-- What stands at a path below a folder with these nodes.
unfoldable pub node_at : TreePath → Nodes → Option Node
node_at [] ns = none
node_at (k ∷ ks) Nodes.no_more = none
node_at (k ∷ []) (Nodes.named name n ns) =
    let beside = node_at (k ∷ []) ns in if name =s= k then some n else beside
node_at (k ∷ j ∷ ks) (Nodes.named name (Node.folder ms) ns) =
    let deeper = node_at (j ∷ ks) ms in
    let beside = node_at (k ∷ j ∷ ks) ns in if name =s= k then deeper else beside
node_at (k ∷ j ∷ ks) (Nodes.named name (Node.plain_file n) ns) =
    let beside = node_at (k ∷ j ∷ ks) ns in if name =s= k then none else beside
node_at (k ∷ j ∷ ks) (Nodes.named name Node.symlink ns) =
    let beside = node_at (k ∷ j ∷ ks) ns in if name =s= k then none else beside

-- The node_size of the file at a path.
abbrev pub file_size : Option Node → Option ℕ
file_size (some (Node.plain_file n)) = some n
file_size _ = none

-- `shutil.rmtree` of a folder and `unlink` of a file; a symbolic link stays.
abbrev pub removes : Node → Bool
removes Node.symlink = false
removes n = true

unfoldable pub remove_at : TreePath → Nodes → Nodes
remove_at [] ns = ns
remove_at (k ∷ ks) Nodes.no_more = Nodes.no_more
remove_at (k ∷ []) (Nodes.named name n ns) =
    let rest = remove_at (k ∷ []) ns in
    if name =s= k && removes n then rest else Nodes.named name n rest
remove_at (k ∷ j ∷ ks) (Nodes.named name (Node.folder ms) ns) =
    let inner = remove_at (j ∷ ks) ms in
    let rest = remove_at (k ∷ j ∷ ks) ns in
    Nodes.named name (Node.folder (if name =s= k then inner else ms)) rest
remove_at (k ∷ j ∷ ks) (Nodes.named name (Node.plain_file n) ns) =
    Nodes.named name (Node.plain_file n) (remove_at (k ∷ j ∷ ks) ns)
remove_at (k ∷ j ∷ ks) (Nodes.named name Node.symlink ns) =
    Nodes.named name Node.symlink (remove_at (k ∷ j ∷ ks) ns)

-- The path lies at another one or below it.
abbrev pub is_below : TreePath → TreePath → Bool
is_below [] q = true
is_below (k ∷ ks) [] = false
is_below (k ∷ ks) (l ∷ ls) = k =s= l && is_below ks ls

-- A single name is removed.
remove_name :
    (k : String) (q : TreePath) (ns : Nodes)
    → file_size (node_at q (remove_at (k ∷ []) ns))
      ≡ (if is_below (k ∷ []) q then none else file_size (node_at q ns))
unfolding node_at remove_at
remove_name k [] Nodes.no_more = refl
remove_name k (l ∷ []) Nodes.no_more = ground arith
remove_name k (l ∷ m ∷ ls) Nodes.no_more = ground arith
remove_name k [] (Nodes.named name n ns) = refl
remove_name k (l ∷ []) (Nodes.named name (Node.plain_file n) ns) =
    ground (arith, eq_iff name k, eq_iff name l, eq_iff k l, remove_name k (l ∷ []) ns)
remove_name k (l ∷ []) (Nodes.named name Node.symlink ns) =
    ground (arith, eq_iff name k, eq_iff name l, eq_iff k l, remove_name k (l ∷ []) ns)
remove_name k (l ∷ []) (Nodes.named name (Node.folder ms) ns) =
    ground (arith, eq_iff name k, eq_iff name l, eq_iff k l, remove_name k (l ∷ []) ns)
remove_name k (l ∷ m ∷ ls) (Nodes.named name (Node.plain_file n) ns) =
    ground (arith, eq_iff name k, eq_iff name l, eq_iff k l, remove_name k (l ∷ m ∷ ls) ns)
remove_name k (l ∷ m ∷ ls) (Nodes.named name Node.symlink ns) =
    ground (arith, eq_iff name k, eq_iff name l, eq_iff k l, remove_name k (l ∷ m ∷ ls) ns)
remove_name k (l ∷ m ∷ ls) (Nodes.named name (Node.folder ms) ns) =
    ground (arith, eq_iff name k, eq_iff name l, eq_iff k l, remove_name k (l ∷ m ∷ ls) ns)

-- What removing a path does to the file at another.
abbrev pub Removes : TreePath → TreePath → Nodes → Type 0
Removes p q ns =
    file_size (node_at q (remove_at p ns))
    ≡ (if is_below p q then none else file_size (node_at q ns))

module _ (k j : String) (ks : TreePath) where
  remove_nothing : (q : TreePath) → Removes (k ∷ j ∷ ks) q Nodes.no_more
  unfolding node_at remove_at
  remove_nothing [] = refl
  remove_nothing (l ∷ ls) = ground arith

  remove_beside_file :
      (q : TreePath) (name : String) (n : ℕ) (ns : Nodes)
      → Removes (k ∷ j ∷ ks) q ns
      → Removes (k ∷ j ∷ ks) q (Nodes.named name (Node.plain_file n) ns)
  unfolding node_at remove_at
  remove_beside_file [] name n ns h = refl
  remove_beside_file (l ∷ []) name n ns h = ground (arith, h)
  remove_beside_file (l ∷ m ∷ ls) name n ns h = ground (arith, h)

  remove_beside_symlink :
      (q : TreePath) (name : String) (ns : Nodes)
      → Removes (k ∷ j ∷ ks) q ns
      → Removes (k ∷ j ∷ ks) q (Nodes.named name Node.symlink ns)
  unfolding node_at remove_at
  remove_beside_symlink [] name ns h = refl
  remove_beside_symlink (l ∷ []) name ns h = ground (arith, h)
  remove_beside_symlink (l ∷ m ∷ ls) name ns h = ground (arith, h)

  remove_inside :
      (q : TreePath) (name : String) (ms ns : Nodes)
      → Removes (k ∷ j ∷ ks) q ns
      → ((r : TreePath) → Removes (j ∷ ks) r ms)
      → Removes (k ∷ j ∷ ks) q (Nodes.named name (Node.folder ms) ns)
  unfolding node_at remove_at
  remove_inside [] name ms ns h d = refl
  remove_inside (l ∷ []) name ms ns h d = ground (arith, h)
  remove_inside (l ∷ m ∷ ls) name ms ns h d =
      ground (arith, eq_iff name k, eq_iff name l, eq_iff k l, h, d (m ∷ ls))

-- Once a path is removed, no file is at it or below it, and all other files are as they were.
pub file_size-remove_at : (k : String) (ks q : TreePath) (ns : Nodes) → Removes (k ∷ ks) q ns
file_size-remove_at k [] q ns = remove_name k q ns
file_size-remove_at k (j ∷ ks) q Nodes.no_more = remove_nothing k j ks q
file_size-remove_at k (j ∷ ks) q (Nodes.named name (Node.plain_file n) ns) =
    remove_beside_file k j ks q name n ns (file_size-remove_at k (j ∷ ks) q ns)
file_size-remove_at k (j ∷ ks) q (Nodes.named name Node.symlink ns) =
    remove_beside_symlink k j ks q name ns (file_size-remove_at k (j ∷ ks) q ns)
file_size-remove_at k (j ∷ ks) q (Nodes.named name (Node.folder ms) ns) =
    remove_inside k j ks q name ms ns (file_size-remove_at k (j ∷ ks) q ns)
      (λ r. file_size-remove_at j ks r ms)
