-- ===== src/Boot/Tree.antt =====
-- The directories that the kernel makes as it starts, and the programs in /bin.
use snowkernel.Base.{
  ℕ, ◌≤◌, Bool, true, Option, none, some, leb, List, [], ◌∷◌, All, ◌&&◌, ◌≡◌, ◌≢◌, refl, arith,
}
use snowkernel.Str.{Str, kstrlen, str_eq}
use snowkernel.Fs.Defs.{
  Fs, DataPtr, dir, root, fs_init, find_in, find_from, fs_find_child, add_child,
}
use snowkernel.Fs.Ops.{fs_mkdir, fs_create_chardev}
use snowkernel.Fs.Data.{Memory}
use snowkernel.Fs.Same.{HasTree}
use snowkernel.Fs.Start.{zeroed}
use snowkernel.Fs.Reach.{Reachable, starts, steps, makes_dir, makes_device}
use snowkernel.Boot.{
  Image, bin_names, bins, tty_register_fs, hello_name, home_name, dev_name, tty0_name, bin_name,
  kernel_main64_dirs, kernel_main64_files,
}
use snowkernel.Boot.Embed.{Found, IsBooting, embed-EmbedsAll, still_found, embed_hello-Embeds}

-- Every name of the table fits a node.
are_short : List Str → Bool
are_short [] = true
are_short (name ∷ names) = leb (kstrlen name) 31 && are_short names

are_short-All : (names : List Str) → are_short names ≡ true → All (λ name. kstrlen name ≤ 31) names
unfolding are_short
are_short-All [] h = tt
are_short-All (name ∷ names) h = (ground (arith, h), are_short-All names (ground (arith, h)))

bin_names-short : All (λ name. kstrlen name ≤ 31) bin_names
unfolding are_short kstrlen
bin_names-short = are_short-All bin_names refl

-- The states on the way to `bin_dir`.
abbrev home : Fs
home = (fs_mkdir (fs_init zeroed) (some root) home_name).1

abbrev dev : Option ℕ × Fs
dev = fs_mkdir home (some root) dev_name

abbrev device : DataPtr → Fs
device tty0 = (fs_create_chardev dev.1 dev.0 tty0_name tty0).1

dirs_lem :
    (tty0 : DataPtr) → kernel_main64_dirs tty0 zeroed ≡ fs_mkdir (device tty0) (some root) bin_name
unfolding kernel_main64_dirs tty_register_fs fs_find_child find_in fs_mkdir fs_init find_from
    fs_create_chardev str_eq
dirs_lem tty0 = refl

dirs-reached : (tty0 : DataPtr) → Reachable (kernel_main64_dirs tty0 zeroed).1
dirs-reached tty0 = rw (dirs_lem tty0) (
    steps
      (steps
        (steps (steps starts (makes_dir (some root) home_name (omega arith)))
          (makes_dir (some root) dev_name (omega arith)))
        (makes_device dev.0 tty0_name tty0
          (unfold fs_mkdir fs_init find_in find_from str_eq in omega arith)))
      (makes_dir (some root) bin_name (omega arith)))

bin_found :
    (tty0 : DataPtr)
    → ((kernel_main64_dirs tty0 zeroed).0 ≡ some 4)
      × (((kernel_main64_dirs tty0 zeroed).1.ni ≡ 4)
          × (((kernel_main64_dirs tty0 zeroed).1.node 4).type ≡ dir))
unfolding kernel_main64_dirs tty_register_fs fs_find_child find_in find_from fs_mkdir
    fs_create_chardev add_child fs_init str_eq
bin_found tty0 = (refl, (refl, refl))

dirs-IsBooting : (tty0 : DataPtr) → IsBooting (kernel_main64_dirs tty0 zeroed).1 4
dirs-IsBooting tty0 =
    let (at, (count, isd)) = bin_found tty0 in
    record { reached = dirs-reached tty0; in_pool = omega (arith, count); isd = rw isd refl }

-- The tree is well formed, the call that makes `bin` gave a node, and in it is a node for each program
-- of the table that is linked in, and one for `hello` where it is.
pub record HasPrograms (linked : Str → Image) (hello : Image) (bin_dir : Option ℕ) (s : Fs)
    : Type 0 where
  pub tree : HasTree s
  pub bin : ℕ
  pub made : bin_dir ≡ some bin
  pub programs : All (λ name. linked name ≢ none → Found s bin name) bin_names
  pub user_program : hello ≢ none → Found s bin hello_name

-- Whatever programs are linked into the kernel and wherever they are, as `kernel_main64` leaves the
-- file system the nodes are a well-formed tree, the directory `bin` was made, and in it is a node for
-- each program of the table that is linked in, and one for `hello` where it is.
pub kernel_main64_files-HasPrograms :
    (mem : Memory) (tty0 : DataPtr) (linked : Str → Image) (hello : Image)
    → HasPrograms linked hello
        (kernel_main64_dirs tty0 zeroed).0
        (kernel_main64_files mem tty0 linked hello zeroed)
unfolding kernel_main64_files bins
kernel_main64_files-HasPrograms mem tty0 linked hello =
    let (at, (count, isd)) = bin_found tty0 in
    let r =
      embed-EmbedsAll mem 4 linked bin_names _ (dirs-IsBooting tty0) (omega (arith, count))
        bin_names-short in
    let m = r.most in
    let e = embed_hello-Embeds mem _ 4 hello r.booting (omega (arith, m, count)) in
    rw (at, kernel_main64_files)
      (record {
        tree = e.1.1;
        bin = 4;
        made = refl;
        programs = still_found linked 4 _ _ bin_names e.1.0 r.all;
        user_program = e.0;
      })
