-- ===== src/Proc/Fds.antt =====
-- Descriptors: the lowest free one is given out, and closing frees it.
use snowkernel.Base.{
  ℕ, zero, suc, ◌+◌, ◌≤◌, ◌<◌, true, false, Option, none, some, ◌==◌, leb, ltb, update_self,
  update_ne, ◌≡◌, ◌≢◌, refl, ap, ◌∙◌, arith, Bool-cases, inl, inr, ==→eq, ==→ne, eq→==,
}
use snowkernel.Base.Int.{ℤ, pos, negsuc}
use snowkernel.Proc.{
  FdEntry, Procs, proc_fd_max, first_unused, set_fd, proc_alloc_fd, proc_get_fd, open_node,
  sys_close, sys_dup2,
}

-- The descriptors from `i` to `j` are in use.
abbrev pub InUse : (ℕ → FdEntry) → ℕ → ℕ → Type 0
InUse fds i j = (k : ℕ) → i ≤ k → k < j → (fds k).used ≡ true

data FirstUnused (fds : ℕ → FdEntry) (n i : ℕ) : Option ℕ → Type 0 where
  no_unused : InUse fds i (i + n) → FirstUnused fds n i none
  at_unused :
      (j : ℕ)
      → i ≤ j
      → j < i + n
      → (fds j).used ≡ false
      → InUse fds i j
      → FirstUnused fds n i (some j)

first_unused-FirstUnused :
    (n : ℕ) (fds : ℕ → FdEntry) (i : ℕ) → FirstUnused fds n i (first_unused n fds i)
unfolding first_unused
first_unused-FirstUnused zero fds i = no_unused (λ k h l. absurd (omega arith))
first_unused-FirstUnused (suc n) fds i = elim (Bool-cases (fds i).used) [
  | inl e ↦ rw e (later e (first_unused-FirstUnused n fds (i + 1)))
  | inr e ↦ rw e (at_unused i (omega arith) (omega arith) e (λ k h l. absurd (omega arith)))
]
  where
    extend : (j : ℕ) → (fds i).used ≡ true → InUse fds (i + 1) j → InUse fds i j
    extend j e u k h l = elim (Bool-cases (k == i)) [
      | inl same ↦ ap (λ (x : ℕ). (fds x).used) (==→eq k i same) ∙ e
      | inr ne ↦ u k (omega (arith, ==→ne k i ne)) l
    ]

    later :
        {out : Option ℕ}
        → (fds i).used ≡ true
        → FirstUnused fds n (i + 1) out
        → FirstUnused fds (suc n) i out
    later e (no_unused u) = no_unused (λ k h l. extend (i + 1 + n) e u k h (omega arith))
    later e (at_unused j a b f u) = at_unused j (omega arith) (omega arith) f (extend j e u)

-- What `proc_alloc_fd` gives for the node `n`.
pub data AllocatesFd (s : Procs) (n : Option ℕ) : ℤ × Procs → Type 0 where
  all_used : InUse s.init_proc.fds 3 proc_fd_max → AllocatesFd s n (negsuc 0, s)
  lowest :
      {s' : Procs} (i : ℕ)
      → 3 ≤ i
      → i < proc_fd_max
      → (s.init_proc.fds i).used ≡ false
      → InUse s.init_proc.fds 3 i
      → proc_get_fd s' (pos i) ≡ some i
      → (s'.init_proc.fds i).node ≡ n
      → (s'.init_proc.fds i).ofs ≡ 0
      → ((k : ℕ) → k ≢ i → s'.init_proc.fds k ≡ s.init_proc.fds k)
      → AllocatesFd s n (pos i, s')

-- Once a process runs, `proc_alloc_fd` gives the lowest descriptor from 3 on that is not in use,
-- which then is open on the node at offset 0, the others being what they were; or all 29 are in use,
-- and it returns -1 and changes nothing.
pub proc_alloc_fd-AllocatesFd :
    (s : Procs) (n : Option ℕ) → s.current ≡ true → AllocatesFd s n (proc_alloc_fd s n)
unfolding proc_alloc_fd proc_get_fd
proc_alloc_fd-AllocatesFd s n on = simp on (after (first_unused-FirstUnused 29 s.init_proc.fds 3))
  where
    entry : FdEntry
    entry = record { used = true; node = n; ofs = 0; flags = 0 }

    at_self : (i : ℕ) → (set_fd s i entry).init_proc.fds i ≡ entry
    at_self i = update_self s.init_proc.fds i entry

    after :
        {out : Option ℕ}
        → FirstUnused s.init_proc.fds 29 3 out
        → AllocatesFd s n (elim out [ none ↦ (negsuc 0, s) | some i ↦ (pos i, set_fd s i entry) ])
    after (no_unused u) = all_used u
    after (at_unused j a b f u) =
        let low : leb proc_fd_max j ≡ false = ground arith in
        lowest j a b f u (rw (on, low, at_self j) refl) (ap (λ (e : FdEntry). e.node) (at_self j))
          (ap (λ (e : FdEntry). e.ofs) (at_self j)) (λ k ne. update_ne s.init_proc.fds j k entry ne)

module _ (s : Procs) (fd node : ℕ) (on : s.current ≡ true) (above : 3 ≤ fd) (low : fd < proc_fd_max)
    (used : (s.init_proc.fds fd).used ≡ true) (has : (s.init_proc.fds fd).node ≡ some node) where
  abbrev cleared : FdEntry
  cleared = record (s.init_proc.fds fd) { used = false; node = none; ofs = 0 }

  in_range : leb proc_fd_max fd ≡ false
  in_range = ground arith

  user : ltb fd 3 ≡ false
  user = ground arith

  got : proc_get_fd s (pos fd) ≡ some fd
  unfolding proc_get_fd
  got = rw (on, in_range, used) refl

  closed : (sys_close s (pos fd)).1 ≡ set_fd s fd cleared
  unfolding sys_close
  closed = rw (got, sys_close, user) refl

  opened : open_node s (pos fd) ≡ some node
  unfolding open_node
  opened = rw (in_range, has) refl

  -- The state and result once the descriptor was closed.
  abbrev copied : Procs → ℤ × Procs
  copied s1 = (pos fd, set_fd s1 fd (s1.init_proc.fds fd))

  dup2_open : sys_dup2 s fd fd ≡ copied (sys_close s (pos fd)).1
  unfolding sys_dup2
  dup2_open = rw (opened, sys_dup2, in_range, has) refl

  dup2_set : sys_dup2 s fd fd ≡ copied (set_fd s fd cleared)
  dup2_set = dup2_open ∙ ap copied closed

  -- `sys_dup2` of a descriptor from 3 on that is open on a node onto itself returns the descriptor,
  -- which is closed before it is copied, and is not open afterwards.
  pub sys_dup2_same :
      ((sys_dup2 s fd fd).0 ≡ pos fd) × (proc_get_fd (sys_dup2 s fd fd).1 (pos fd) ≡ none)
  unfolding proc_get_fd
  sys_dup2_same = rw dup2_set (refl, rw (on, in_range, eq→== fd fd refl) refl)
