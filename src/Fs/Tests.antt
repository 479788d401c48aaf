-- ===== src/Fs/Tests.antt =====
-- Tests of the file system at concrete trees.
use snowkernel.Base.{ℕ, none, some, update, List, [], ◌∷◌, replicate, ◌≡◌, refl, arith}
use snowkernel.Str.{Str}
use snowkernel.Fs.Defs.{Fs, add_child, file, null, root, fs_init, find_in}
use snowkernel.Fs.Ops.{new_child, fs_create_file, fs_mkdir, fs_unlink}
use snowkernel.Fs.Path.{fs_lookup}
use snowkernel.Fs.Tree.{IsTree, first_named, without, find_in-first_named}
use snowkernel.Fs.Link.{Linked, linked_kids, Linked-IsTree}
use snowkernel.Fs.Create.{Creates, InPool, reuse_file, new_child-Linked, fs_create_file-Creates}
use snowkernel.Fs.Unlink.Tree.{parent_of, fs_unlink_lem}
use snowkernel.Fs.Start.{zeroed, no_kids, start-IsTree}
use snowkernel.Fs.Same.{HasTree}
use snowkernel.Fs.Reach.{
  Reachable, starts, steps, makes_dir, makes_file, unlinks, renames, Reachable-Climbs, Climbs,
}
use snowkernel.Fs.Ops.{fs_rename}
use snowkernel.Fs.Lookup.{descend, fs_lookup-descend}

abbrev start : Fs
start = fs_init zeroed

abbrev long_name : Str
long_name = replicate 40 b'l'

abbrev name : Str
name = b'a' ∷ []

-- The root with one file in it.
abbrev one_file : Fs
one_file = (new_child start root name file null).1

one_file-Linked : Linked start root name file one_file
unfolding fs_init
one_file-Linked = new_child-Linked start root name (omega arith) file null refl

abbrev one_kid : ℕ → List ℕ
one_kid = linked_kids start no_kids root

one_file-IsTree : IsTree one_file one_kid
unfolding fs_init
one_file-IsTree =
    Linked-IsTree start no_kids root name file one_file start-IsTree (omega arith)
      (unfold fs_init in refl) (omega arith) one_file-Linked

find_in-first_named_example :
    find_in one_file root name ≡ first_named one_file.node (one_kid root) name
find_in-first_named_example = find_in-first_named one_file one_kid root name one_file-IsTree

root-InPool : InPool start (some root)
unfolding fs_init
root-InPool = omega arith

fs_create_file-Creates_example :
    Creates start no_kids file name
      (reuse_file start)
      (some root)
      (fs_create_file start (some root) name)
fs_create_file-Creates_example =
    fs_create_file-Creates start no_kids (some root) name start-IsTree root-InPool

abbrev long_file : Fs
long_file = (new_child start root long_name file null).1

long_file-Linked : Linked start root long_name file long_file
unfolding fs_init
long_file-Linked = new_child-Linked start root long_name (omega arith) file null refl

fs_unlink_lem_example :
    let (r, s') = fs_unlink one_file (some root) name in
    (r ≡ first_named one_file.node (one_kid root) name)
    × IsTree s' (update one_kid root (without one_file.node (one_kid root) name))
    × (parent_of s' r ≡ none)
unfolding new_child add_child fs_init
fs_unlink_lem_example = fs_unlink_lem one_file one_kid (some root) root name one_file-IsTree refl

abbrev tokens : List Str
tokens = (b'e' ∷ b't' ∷ b'c' ∷ []) ∷ []

fs_lookup-descend_example :
    fs_lookup one_file
      (replicate 128 7)
      (some root)
      (some (b'a' ∷ b'/' ∷ b'e' ∷ b't' ∷ b'c' ∷ 0 ∷ []))
    ≡ descend one_file root (name ∷ tokens)
fs_lookup-descend_example =
    fs_lookup-descend one_file (replicate 128 7) root name tokens [] refl (refl, tt)
      ((refl, (refl, (refl, tt))), tt) (omega arith) (omega arith)

-- A directory is made, a file in the root, which is renamed, and the directory is removed.
abbrev after_calls : Fs
after_calls =
    (fs_unlink
      (fs_rename (fs_create_file (fs_mkdir start (some root) name).1 (some root) (b'b' ∷ [])).1
        (some root) (b'b' ∷ []) (b'c' ∷ [])).1
      (some root) name).1

reached : Reachable after_calls
unfolding fs_init fs_mkdir
reached =
    steps
      (steps
        (steps (steps starts (makes_dir (some root) name (omega arith)))
          (makes_file (some root) (b'b' ∷ []) (omega arith)))
        (renames (some root) (b'b' ∷ []) (b'c' ∷ [])))
      (unlinks (some root) name)

Reachable-Climbs_example :
    HasTree after_calls × ((after_calls.node root).parent ≡ none) × ((x : ℕ) → Climbs after_calls x)
Reachable-Climbs_example = Reachable-Climbs reached
