-- ===== src/Fs/Disk/Tests.antt =====
-- Tests of the two backends.
use snowkernel.Base.{true, some, List, [], ◌∷◌, inl, ◌≡◌, refl, arith}
use snowkernel.Fs.Defs.{Fs, file, root, zero_node, fs_init, arena_size}
use snowkernel.Fs.Data.{Memory}
use snowkernel.Fs.Start.{zeroed}
use snowkernel.Fs.Disk.Calls.{
  Call, mkdir, write, stats, call, d_call, Alike, AllAlike, run, run-agree,
}

abbrev memory : Memory
memory a = a

abbrev calls : List Call
calls = mkdir (some root) (b'd' ∷ []) ∷ write memory (some 1) 3 2 true ∷ stats ∷ []

calls-AllAlike : AllAlike (fs_init zeroed) calls
unfolding AllAlike Alike fs_init
calls-AllAlike = (omega arith, (inl refl, (tt, tt)))

run-agree_example : run d_call (fs_init zeroed) calls ≡ run call (fs_init zeroed) calls
run-agree_example = run-agree (fs_init zeroed) calls calls-AllAlike

-- All nodes are files, and the arena is used up.
abbrev full : Fs
full = record {
  node = λ i. record zero_node { type = file };
  cwd = root;
  ni = 1;
  arena = λ i. 0;
  aoff = arena_size;
}
