-- ===== src/Shell/Search.antt =====
-- The search for a program, and what a redirection leaves.
use snowkernel.Base.{
  ℕ, zero, suc, ◌≤◌, ◌<◌, false, ne→==, List, [], ◌∷◌, ◌++◌, replicate, append_assoc, append-nil,
  none, some, length, All, update_ne, update_self, ◌≡◌, ◌≢◌, refl, ap, ◌∙◌, arith,
}
use snowkernel.Base.Int.{ℤ, pos, negsuc}
use snowkernel.Str.{Str}
use snowkernel.Fs.Path.{first}
use snowkernel.Env.{Env, env_get}
use snowkernel.Proc.{sys_close, sys_dup, sys_dup2, set_fd, open_node, proc_get_fd, Procs, FdEntry}
use snowkernel.Syscall.{Kernel}
use snowkernel.Shell.Messages.{path_text}
use snowkernel.Shell.External.{
  segments, search_path, try_all, find_program, redirect_fd, restore_fd,
}

-- A character of a directory's path in PATH, and such a path.
abbrev pub IsPart : ℕ → Type 0
IsPart c = (c ≢ b':') × (c ≢ 0)

unfoldable pub IsPathDir : Str → Type 0
IsPathDir d = (0 < length d) × All IsPart d

-- The text with a colon between the directories.
unfoldable pub colon_joined : List Str → Str
colon_joined [] = []
colon_joined (d ∷ []) = d
colon_joined (d ∷ e ∷ ds) = d ++ b':' ∷ colon_joined (e ∷ ds)

segments_part :
    (seg : Str) (c : ℕ) (p : Str) → IsPart c → segments seg (c ∷ p) ≡ segments (seg ++ c ∷ []) p
unfolding segments
segments_part [] c p h = rw (ne→== c b':' h.0, ne→== c 0 h.1) refl
segments_part (s ∷ seg) c p h = rw (ne→== c b':' h.0, ne→== c 0 h.1) refl

segments_parts : (seg d p : Str) → All IsPart d → segments seg (d ++ p) ≡ segments (seg ++ d) p
segments_parts seg [] p h = rw (append-nil seg) refl
segments_parts seg (c ∷ d) p h =
    segments_part seg c (d ++ p) h.0
    ∙ segments_parts (seg ++ c ∷ []) d p h.1
    ∙ ap (λ (s : Str). segments s p) (append_assoc seg (c ∷ []) d)

segments_dir : (d p : Str) → IsPathDir d → segments [] (d ++ b':' ∷ p) ≡ d ∷ segments [] p
unfolding segments IsPathDir
segments_dir [] p h = absurd (omega (arith, h.0))
segments_dir (c ∷ s) p h = segments_parts [] (c ∷ s) (b':' ∷ p) h.1

segments_last : (d : Str) (n : ℕ) → IsPathDir d → segments [] (d ++ replicate n 0) ≡ d ∷ []
unfolding segments IsPathDir
segments_last [] n h = absurd (omega (arith, h.0))
segments_last (c ∷ s) zero h = segments_parts [] (c ∷ s) [] h.1
segments_last (c ∷ s) (suc n) h = segments_parts [] (c ∷ s) (replicate (suc n) 0) h.1

-- The directories that a text of non-empty directories with colons between them names are searched in
-- their order, each once, also where bytes that are zero follow the text.
pub segments-colon_joined :
    (d : Str) (ds : List Str) (n : ℕ)
    → IsPathDir d
    → All IsPathDir ds
    → segments [] (colon_joined (d ∷ ds) ++ replicate n 0) ≡ d ∷ ds
unfolding colon_joined
segments-colon_joined d [] n h k = segments_last d n h
segments-colon_joined d (e ∷ ds) n h k =
    ap (segments []) (append_assoc d (b':' ∷ colon_joined (e ∷ ds)) (replicate n 0))
    ∙ segments_dir d (colon_joined (e ∷ ds) ++ replicate n 0) h
    ∙ ap (λ (r : List Str). d ∷ r) (segments-colon_joined e ds n k.0 k.1)

search_path_lem :
    (env : Env) (p : Str) → env_get env path_text ≡ some p → first p ≢ 0 → search_path env ≡ p
unfolding search_path
search_path_lem env p e h = rw (e, search_path) (rw (ne→== (first p) 0 h) refl)

first-colon_joined :
    (d : Str) (ds : List Str) (p : Str) → IsPathDir d → first (colon_joined (d ∷ ds) ++ p) ≢ 0
unfolding colon_joined IsPathDir
first-colon_joined [] ds p h = absurd (omega (arith, h.0))
first-colon_joined (c ∷ s) [] p h = h.1.0.1
first-colon_joined (c ∷ s) (e ∷ ds) p h = h.1.0.1

-- Where PATH is a text of non-empty directories with colons between them, with bytes behind it that are
-- zero, run_external tries the program in these directories in their order, and in no other.
pub find_program-tries :
    (exec : Kernel → Str → ℤ × Kernel) (k : Kernel) (env : Env) (name d : Str) (ds : List Str)
    (n : ℕ)
    → IsPathDir d
    → All IsPathDir ds
    → env_get env path_text ≡ some (colon_joined (d ∷ ds) ++ replicate n 0)
    → find_program exec k env name ≡ try_all exec k name (d ∷ ds)
unfolding find_program
find_program-tries exec k env name d ds n h hs e =
    ap (λ (p : Str). try_all exec k name (segments [] p))
      (search_path_lem env (colon_joined (d ∷ ds) ++ replicate n 0) e
        (first-colon_joined d ds (replicate n 0) h))
    ∙ ap (try_all exec k name) (segments-colon_joined d ds n h hs)

dup_closed :
    (p : Procs) (std : ℕ) → (p.init_proc.fds std).node ≡ none → sys_dup p std ≡ (negsuc 0, p)
unfolding sys_dup open_node
dup_closed p std closed = ground (arith, closed)

dup2_closed :
    (p : Procs) (fd std n : ℕ)
    → fd < 32
    → std < 3
    → (p.init_proc.fds std).node ≡ none
    → (p.init_proc.fds fd).node ≡ some n
    → sys_dup2 p fd std ≡ (pos std, set_fd p std (p.init_proc.fds fd))
unfolding sys_dup2 open_node
dup2_closed p fd std n high small closed opened = ground (arith, closed, opened, high, small)

close_other :
    (p : Procs) (fd std : ℕ)
    → std ≢ fd
    → (sys_close p (pos fd)).1.init_proc.fds std ≡ p.init_proc.fds std
unfolding sys_close proc_get_fd
close_other p fd std ne = ground (
  arith,
  update_ne p.init_proc.fds fd std
      (record (p.init_proc.fds fd) { used = false; node = none; ofs = 0 }) ne,
)

-- A descriptor from 3 on that is open on a node, redirected to a standard descriptor that is not open:
-- no copy is made, the standard descriptor is open on the node afterwards, and restoring it changes
-- nothing.
pub redirect_fd_stays :
    (k : Kernel) (fd std n : ℕ)
    → 3 ≤ fd
    → fd < 32
    → std < 3
    → (k.procs.init_proc.fds std).node ≡ none
    → (k.procs.init_proc.fds fd).node ≡ some n
    → ((redirect_fd k fd std).0 ≡ negsuc 0)
      × (((redirect_fd k fd std).1.procs.init_proc.fds std).node ≡ some n)
      × (restore_fd (redirect_fd k fd std).1 (redirect_fd k fd std).0 std
          ≡ (redirect_fd k fd std).1)
unfolding redirect_fd restore_fd
redirect_fd_stays k fd std n low high small closed opened =
    let p = k.procs in
    let moved = set_fd p std (p.init_proc.fds fd) in
    rw (dup_closed p std closed, dup2_closed p fd std n high small closed opened)
      (
        refl,
        ap (λ (e : FdEntry). e.node)
              (close_other moved fd std (omega (arith, low, small))
                ∙ update_self p.init_proc.fds std (p.init_proc.fds fd))
            ∙ opened,
        refl,
      )
