-- ===== src/Shell/External.antt =====
-- `run_external` of src/kernel/shell.c: redirections of a program, and the search for it.
use snowkernel.Base.{
  ℕ, ◌+◌, ◌-◌, Bool, true, false, ◌==◌, if◌then◌else◌, List, [], ◌∷◌, ◌++◌, Option, none, some,
  length, take,
}
use snowkernel.Base.Int.{ℤ, pos, negsuc}
use snowkernel.Str.{Str}
use snowkernel.Fs.Path.{first}
use snowkernel.Env.{Env, env_get}
use snowkernel.Proc.{sys_close, sys_dup, sys_dup2}
use snowkernel.Syscall.{Kernel, sys_open, show_bytes}
use snowkernel.Shell.{ParsedCmd}
use snowkernel.Shell.Messages.{
  cannot_open_input, cannot_open_output, command_not_found, path_text, bin_text,
}

-- The segments that are tried, in order, from `cur` on, `seg` being the text from `seg` up to `cur`.
-- An empty segment is skipped, and the test that ends the search there reads the byte behind it, which
-- is behind the text where the segment is its last one.
unfoldable pub segments : Str → Str → List Str
segments [] [] = []
segments (s ∷ seg) [] = (s ∷ seg) ∷ []
segments [] (c ∷ p) =
    let after_colon = segments [] p in
    let after_end = segments (0 ∷ []) p in
    let on = segments (c ∷ []) p in
    if c == b':'
    then (if first p == 0 then [] else after_colon)
    else if c == 0
    then (if first p == 0 then [] else after_end)
    else on
segments (s ∷ seg) (c ∷ p) =
    let next = segments [] p in
    let on = segments ((s ∷ seg) ++ c ∷ []) p in
    if c == b':' then (s ∷ seg) ∷ next else if c == 0 then (s ∷ seg) ∷ [] else on

abbrev ends_in_slash : Str → Bool
ends_in_slash [] = false
ends_in_slash (c ∷ []) = c == b'/'
ends_in_slash (c ∷ d ∷ s) = ends_in_slash (d ∷ s)

-- `temp`, up to its terminator: the segment, a slash, and the name of the program.
unfoldable pub candidate : Str → Str → Str
candidate seg name =
    let head = take 127 seg in
    let dir = if ends_in_slash head then head else head ++ b'/' ∷ [] in
    dir ++ take (127 - length dir) name

-- `sys_execve`, which is a parameter, for one candidate after another until one gives no negative
-- number: whether one did, and the state.
unfoldable pub try_all : (Kernel → Str → ℤ × Kernel) → Kernel → Str → List Str → Bool × Kernel
unfolding candidate
try_all exec k name [] = (false, k)
try_all exec k name (seg ∷ segs) =
    let (r, k') = exec k (candidate seg name) in
    elim r [ pos n ↦ (true, k') | negsuc n ↦ try_all exec k' name segs ]

-- The text that is searched.
unfoldable pub search_path : Env → Str
unfolding env_get
search_path env = elim (env_get env path_text) [
  | none ↦ bin_text
  | some p ↦ if first p == 0 then bin_text else p
]

unfoldable pub find_program : (Kernel → Str → ℤ × Kernel) → Kernel → Env → Str → Bool × Kernel
unfolding search_path segments try_all
find_program exec k env name = try_all exec k name (segments [] (search_path env))

-- A descriptor takes the place of the standard one `std`: the copy of `std` that was made, and the
-- state.
unfoldable pub redirect_fd : Kernel → ℕ → ℕ → ℤ × Kernel
unfolding sys_dup sys_dup2 sys_close
redirect_fd k fd std =
    let (saved, p1) = sys_dup k.procs std in
    let (r2, p2) = sys_dup2 p1 fd std in
    let (r3, p3) = sys_close p2 (pos fd) in (saved, record k { procs = p3 })

-- `std` becomes what was copied, where the copy was made.
unfoldable pub restore_fd : Kernel → ℤ → ℕ → Kernel
unfolding sys_dup2 sys_close
restore_fd k (negsuc n) std = k
restore_fd k (pos saved) std =
    let (r1, p1) = sys_dup2 k.procs saved std in
    let (r2, p2) = sys_close p1 (pos saved) in record k { procs = p2 }

-- One redirection: the copy, or nothing where the file cannot be opened, and the state. `none` is a
-- fault of `fs_lookup`, of which `junk` is the stack.
unfoldable pub redirect : Kernel → List ℕ → Option Str → ℕ → ℕ → Option (Option ℤ × Kernel)
unfolding sys_open redirect_fd
redirect k junk none flags std = some (some (negsuc 0), k)
redirect k junk (some name) flags std = elim (sys_open k junk name flags) [
  | none ↦ none
  | some (fd, k') ↦ elim fd [
    | negsuc n ↦ some (none, k')
    | pos fd' ↦ let (saved, k'') = redirect_fd k' fd' std in some (some saved, k'')
  ]
]

-- The flags of the output file.
abbrev out_flags : Bool → ℕ
out_flags append = 1 + 64 + (if append then 1024 else 512)

-- `run_external` behind its redirections.
unfoldable pub run_found : (Kernel → Str → ℤ × Kernel) → Env → Str → ℤ → ℤ → Kernel → Kernel
unfolding find_program restore_fd
run_found exec env name saved_stdin saved_stdout k =
    let (attempted, k') = find_program exec k env name in
    let k'' = if attempted then k' else show_bytes k' command_not_found in
    restore_fd (restore_fd k'' saved_stdout 1) saved_stdin 0

unfoldable pub run_external :
    (Kernel → Str → ℤ × Kernel) → Kernel → List ℕ → Env → ParsedCmd → Option Kernel
unfolding redirect run_found restore_fd
run_external exec k junk env pc = elim pc.argv [
  | [] ↦ some k
  | name ∷ args ↦ elim (redirect k junk pc.in_redir 0 0) [
    | none ↦ none
    | some (none, k1) ↦ some (show_bytes k1 cannot_open_input)
    | some (some saved_stdin, k1) ↦
        elim (redirect k1 junk pc.out_redir (out_flags pc.out_append) 1) [
          | none ↦ none
          | some (none, k2) ↦ some (restore_fd (show_bytes k2 cannot_open_output) saved_stdin 0)
          | some (some saved_stdout, k2) ↦
              some (run_found exec env name saved_stdin saved_stdout k2)
        ]
  ]
]
