-- ===== src/Syscall/Open.antt =====
-- Descriptors that a process has open, and what keeps them open.
use snowkernel.Base.{
  ℕ, Bool, true, false, not, ◌||◌, none, some, ◌==◌, ltb, leb, if◌then◌else◌, update_self, ◌≡◌,
  refl, ap, ◌∙◌, if_elim, ==→eq, eq→==, Bool-cases, inl, inr,
}
use snowkernel.Base.Int.{ℤ, pos, negsuc}
use snowkernel.Fs.Defs.{Fs, NodeType, dir, file, chr, is_file, is_chr, arena_size}
use snowkernel.Fs.Data.{Memory, add_size, fs_write}
use snowkernel.Proc.{FdEntry, proc_get_fd, proc_fd_max}
use snowkernel.Syscall.{Kernel, entry, set_ofs, user_fd, user_node}

-- The descriptor `fd` is open on the file `n` by the entry `i`.
pub record OpenFile (k : Kernel) (fd : ℤ) (i n : ℕ) : Type 0 where
  pub got : user_fd k fd ≡ some i
  pub node : (entry k i).node ≡ some n
  pub isf : is_file (k.fs.node n).type ≡ true

not_chr : (t : NodeType) → is_file t ≡ true → is_chr t ≡ false
not_chr dir h = refl
not_chr file h = refl
not_chr chr h = cc h

pub OpenFile-user_node :
    (k : Kernel) (fd : ℤ) (i n : ℕ) → OpenFile k fd i n → user_node k fd ≡ some (i, n)
unfolding user_node
OpenFile-user_node k fd i n o = rw (o.got, user_node, o.node) refl

pub OpenFile-not_chr :
    (k : Kernel) (fd : ℤ) (i n : ℕ) → OpenFile k fd i n → is_chr (k.fs.node n).type ≡ false
OpenFile-not_chr k fd i n o = not_chr (k.fs.node n).type o.isf

-- Moving an offset leaves the descriptors and their nodes as they are.
set_ofs-used : (k : Kernel) (i ofs j : ℕ) → (entry (set_ofs k i ofs) j).used ≡ (entry k j).used
set_ofs-used k i ofs j = elim (Bool-cases (j == i)) [
  | inl e ↦ rw (e, ==→eq j i e) refl
  | inr e ↦ rw e refl
]

set_ofs-user_fd : (k : Kernel) (i ofs : ℕ) (fd : ℤ) → user_fd (set_ofs k i ofs) fd ≡ user_fd k fd
unfolding user_fd proc_get_fd
set_ofs-user_fd k i ofs (negsuc m) = refl
set_ofs-user_fd k i ofs (pos m) =
    ap
      (λ (used : Bool).
        elim (if not k.procs.current || leb proc_fd_max m
          then none
          else if not used
          then none
          else some m) [ none ↦ none | some j ↦ if ltb j 3 then none else some j ])
      (set_ofs-used k i ofs m)

pub set_ofs-OpenFile :
    (k : Kernel) (fd : ℤ) (i n ofs : ℕ) → OpenFile k fd i n → OpenFile (set_ofs k i ofs) fd i n
set_ofs-OpenFile k fd i n ofs o = record {
  got = set_ofs-user_fd k i ofs fd ∙ o.got;
  node =
      ap (λ (e : FdEntry). e.node)
        (update_self k.procs.init_proc.fds i (record (entry k i) { ofs = ofs }))
      ∙ o.node;
  isf = o.isf;
}

pub set_ofs-ofs : (k : Kernel) (i ofs : ℕ) → (entry (set_ofs k i ofs) i).ofs ≡ ofs
set_ofs-ofs k i ofs =
    ap (λ (e : FdEntry). e.ofs)
      (update_self k.procs.init_proc.fds i (record (entry k i) { ofs = ofs }))

-- An append leaves the types of the nodes as they are.
pub fs_write-type :
    (s : Fs) (mem : Memory) (f addr len : ℕ)
    → ((fs_write s mem (some f) addr len true).1.node f).type ≡ (s.node f).type
unfolding fs_write
fs_write-type s mem f addr len =
    if_elim (λ (out : ℤ × Fs). (out.1.node f).type ≡ (s.node f).type)
      (not (is_file (s.node f).type)) _ _ (λ _. refl)
      (λ _.
        if_elim (λ (out : ℤ × Fs). (out.1.node f).type ≡ (s.node f).type)
          (ltb arena_size (add_size s.aoff (add_size (s.node f).size len))) _ _ (λ _. refl)
          (λ _. rw (eq→== f f refl) refl))
