-- ===== src/Fs/Start.antt =====
-- `fs_init` on the zeroed static storage.
use snowkernel.Base.{ℕ, none, ◌==◌, List, [], ◌≡◌, refl, arith, Bool-cases, inl, inr}
use snowkernel.Fs.Defs.{Fs, root, zero_node, fs_init}
use snowkernel.Fs.Tree.{IsTree}
use snowkernel.Fs.Write.{IsArena}

-- The static variables as the loader leaves them.
abbrev pub zeroed : Fs
zeroed = record { node = λ _. zero_node; cwd = root; ni = 0; arena = λ _. 0; aoff = 0 }

abbrev pub no_kids : ℕ → List ℕ
no_kids _ = []

start-child : (p : ℕ) → ((fs_init zeroed).node p).child ≡ none
unfolding fs_init
start-child p = elim (Bool-cases (p == 0)) [ inl e ↦ rw e | inr e ↦ rw e ]

-- After `fs_init` the file system is a tree of the root alone.
pub start-IsTree : IsTree (fs_init zeroed) no_kids
unfolding fs_init
start-IsTree = record {
  chains = start-child;
  below = λ _. tt;
  parents = λ _. tt;
  dirs = λ _. tt;
  home = λ x p e. elim (Bool-cases (x == 0)) [
    | inl z ↦ absurd (ground (arith, z, e))
    | inr z ↦ absurd (ground (arith, z, e))
  ];
  distinct = λ _. tt;
  fits = λ _. omega arith;
  unused = λ _ _. refl;
  pool = omega arith;
}

pub start-IsArena : IsArena (fs_init zeroed)
unfolding fs_init
start-IsArena = record {
  used = omega arith;
  below = λ f. elim (Bool-cases (f == 0)) [ inl e ↦ rw e refl | inr e ↦ rw e refl ];
}
