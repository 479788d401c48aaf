-- ===== src/Shell/Tests.antt =====
-- Tests of command lines.
use snowkernel.Base.{
  ◌==◌, if◌then◌else◌, Bool-cases, inl, inr, false, none, some, [], ◌∷◌, ◌++◌, take, All, ◌≡◌, refl,
  arith,
}
use snowkernel.Str.{Str, kstrlen, str_eq, kstrcmp}
use snowkernel.Fs.Defs.{Fs, root, file, zero_node, find_in, find_from}
use snowkernel.Fs.Ops.{fs_create_file}
use snowkernel.Fs.Data.{Memory}
use snowkernel.Fs.Write.{IsArena, Stored}
use snowkernel.Shell.{skip_spaces, parse_command_line, builtin_args}
use snowkernel.Shell.Words.{IsWord, IsWordChar, word, joined}
use snowkernel.Shell.Redirect.{parse-output}
use snowkernel.Shell.Args.{builtin_args-parse}
use snowkernel.Shell.Builtins.{Session, builtin_echo, with_bytes, run_redirected}
use snowkernel.Shell.Output.{run_redirected-Stored}
use snowkernel.Base.{true, replicate}
use snowkernel.Base.Int.{ℤ, negsuc}
use snowkernel.Env.{Env, env_get}
use snowkernel.Proc.{FdEntry}
use snowkernel.Syscall.{Kernel}
use snowkernel.Shell.Messages.{path_text}
use snowkernel.Shell.Edit.{builtin_edit}
use snowkernel.Shell.Edited.{IsTyped, type_lines, dot, builtin_edit-Stored}
use snowkernel.Shell.Edited
use snowkernel.Shell.External.{find_program, try_all}
use snowkernel.Shell.Search.{colon_joined, IsPathDir, find_program-tries}

abbrev echo : Str
echo = b'e' ∷ b'c' ∷ []

abbrev hi : Str
hi = b'h' ∷ b'i' ∷ []

echo-IsWord : IsWord echo
unfolding IsWordChar
echo-IsWord =
    word b'e' (b'c' ∷ []) refl
      ((omega arith, omega arith, omega arith), ((omega arith, omega arith, omega arith), tt))

hi-chars : All IsWordChar hi
unfolding IsWordChar
hi-chars = ((omega arith, omega arith, omega arith), ((omega arith, omega arith, omega arith), tt))

hi-IsWord : IsWord hi
hi-IsWord = word b'h' (b'i' ∷ []) refl hi-chars

-- `echo hi>f` with a short name for the command.
parse-output_example :
    parse_command_line (joined (echo ∷ []) ++ ((b' ' ∷ hi) ++ (b'>' ∷ b'f' ∷ []))) ≡ record {
      argv = echo ∷ [];
      out_redir = some (skip_spaces (b'f' ∷ []));
      out_append = false;
      in_redir = none;
    }
parse-output_example =
    parse-output (echo ∷ []) hi b'f' [] (echo-IsWord, tt) (omega arith) hi-chars (omega arith)

builtin_args-parse_example :
    builtin_args (parse_command_line (joined (echo ∷ hi ∷ hi ∷ []))).argv ≡ joined (hi ∷ hi ∷ [])
unfolding joined
builtin_args-parse_example =
    builtin_args-parse echo (hi ∷ hi ∷ []) (echo-IsWord, (hi-IsWord, (hi-IsWord, tt))) (omega arith)
      (omega arith)

-- The root, and below it the empty file `f`.
abbrev one_file : Fs
one_file = record {
  node = λ i.
      if i == 0
      then record zero_node { child = some 1 }
      else record zero_node { name = b'f' ∷ 0 ∷ []; type = file };
  cwd = root;
  ni = 1;
  arena = λ i. 0;
  aoff = 0;
}

one_file-IsArena : IsArena one_file
one_file-IsArena = record {
  used = omega arith;
  below = λ f. elim (Bool-cases (f == 0)) [ inl e ↦ rw e refl | inr e ↦ rw e refl ];
}

abbrev session : Session
session = record { fs = one_file; out = [] }

abbrev memory : Memory
memory a = a

found : fs_create_file one_file (some root) (b'f' ∷ []) ≡ (some 1, one_file)
unfolding fs_create_file find_in find_from str_eq kstrcmp
found = refl

run_redirected-Stored_example :
    Stored one_file
      (with_bytes memory 9000 (take 4096 (hi ++ 10 ∷ [])))
      1
      (take 4096 (hi ++ 10 ∷ []))
      (run_redirected session memory 9000 (λ s. builtin_echo s hi) (b'f' ∷ []) false).fs
    × ((run_redirected session memory 9000 (λ s. builtin_echo s hi) (b'f' ∷ []) false).out ≡ [])
unfolding builtin_echo
run_redirected-Stored_example =
    run_redirected-Stored session memory 9000 (λ s. builtin_echo s hi) (b'f' ∷ []) 1 one_file
      (hi ++ 10 ∷ []) found one_file-IsArena refl (omega arith) refl

hi-IsTyped : IsTyped hi
unfolding IsTyped str_eq kstrcmp
hi-IsTyped = (
  omega arith,
  omega arith,
  ((omega arith, omega arith, omega arith), ((omega arith, omega arith, omega arith), tt)),
  refl,
  refl,
)

builtin_edit-Stored_example :
    (t : Session) × (builtin_edit session memory 9000
        (b'f' ∷ [])
        (type_lines (hi ∷ hi ∷ []) ++ dot [])
      ≡ some (t, []))
    × Stored one_file
        (with_bytes memory 9000 (Edited.joined (hi ∷ hi ∷ [])))
        1
        (Edited.joined (hi ∷ hi ∷ []))
        t.fs
unfolding Edited.joined
builtin_edit-Stored_example =
    builtin_edit-Stored session memory 9000 1 (b'f' ∷ []) one_file (hi ∷ hi ∷ []) [] (omega arith)
      found one_file-IsArena refl (hi-IsTyped, (hi-IsTyped, tt)) (omega arith) (omega arith)

-- One variable, with two directories.
abbrev vars : Env
vars = record {
  env_store = λ i. path_text ++ b'=' ∷ b'/' ∷ b'a' ∷ b':' ∷ b'b' ∷ replicate 87 0;
  env_count = 1;
  initialized = true;
}

abbrev closed_fd : FdEntry
closed_fd = record { used = true; node = none; ofs = 0; flags = 0 }

abbrev opened_fd : FdEntry
opened_fd = record { used = true; node = some 1; ofs = 0; flags = 0 }

abbrev kernel : Kernel
kernel = record {
  fs = one_file;
  procs = record {
    init_proc = record {
      pid = 1;
      state = 0;
      fds = λ i. if i == 3 then opened_fd else closed_fd;
      pml4_phys = 0;
      alloc_pages = λ _. 0;
      alloc_count = 0;
      kernel_saved_rsp = 0;
      kernel_saved_rip = 0;
      brk_start = 0;
      brk_curr = 0;
      image_hi = 0;
    };
    current = true;
    next_pid = 2;
  };
  ttys = record {
    ttys = λ i. record { index = 0; inbuf = λ i. 0; in_head = 0; in_tail = 0; foreground = true };
    active_tty = 0;
  };
  console = record { vga = λ i. 0; cx = 0; cy = 0; color = 7; ports = [] };
}

refuse : Kernel → Str → ℤ × Kernel
refuse k path = (negsuc 0, k)

find_program-tries_example :
    find_program refuse kernel vars hi
    ≡ try_all refuse kernel hi ((b'/' ∷ b'a' ∷ []) ∷ (b'b' ∷ []) ∷ [])
unfolding IsPathDir env_get kstrlen colon_joined
find_program-tries_example =
    find_program-tries refuse kernel vars hi (b'/' ∷ b'a' ∷ []) ((b'b' ∷ []) ∷ []) 87
      (omega arith, ((omega arith, omega arith), ((omega arith, omega arith), tt)))
      ((omega arith, ((omega arith, omega arith), tt)), tt) refl
