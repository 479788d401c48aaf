-- ===== src/Shell/Builtins.antt =====
-- The builtins of src/kernel/shell.c on files, and `run_builtin` with its output in a file.
use snowkernel.Base.{
  ℕ, zero, suc, ◌+◌, ◌-◌, Bool, true, false, ◌&&◌, ◌==◌, ltb, leb, if◌then◌else◌, List, [], ◌∷◌,
  ◌++◌, Option, none, some, length, take, get_or,
}
use snowkernel.Base.Int.{pos, negsuc}
use snowkernel.Str.{Str, cstr}
use snowkernel.Fs.Defs.{Fs, Node, is_dir, is_file, pool_size, fs_set_cwd, fs_find_child}
use snowkernel.Fs.Ops.{fs_mkdir, fs_create_file, fs_unlink, fs_rename}
use snowkernel.Fs.Data.{Memory, fs_read, fs_write, fs_clone_file}
use snowkernel.Fs.Path.{at, nowhere, fault, first, fs_lookup}
use snowkernel.Shell.{skip_spaces}
use snowkernel.Shell.Messages.{
  not_a_file, usage_mkdir, error, no_such_dir, usage_touch, usage_rm, no_such_entry, not_empty,
  fail, usage_mv, target_exists, usage_cp, no_such_file, redir_error,
}

-- The file system, and the characters that were handed to `kputc`, in order.
pub record Session : Type 0 where
  pub fs : Fs
  pub out : List ℕ

-- `kputs`.
abbrev pub say : Session → Str → Session
say s text = record s { out = s.out ++ text }

unfoldable pub builtin_echo : Session → Str → Session
builtin_echo s args = say (say s args) (10 ∷ [])

-- The bytes are put out up to the first zero. `none` is a fault of `fs_lookup`, of which `junk` is the
-- stack; `mem` is the memory outside the file system.
unfoldable pub builtin_cat : Session → List ℕ → Memory → Str → Option Session
unfolding fs_lookup fs_read
builtin_cat s junk mem args = elim (fs_lookup s.fs junk (some s.fs.cwd) (some args)) [
  | fault ↦ none
  | nowhere ↦ some (say s not_a_file)
  | at n ↦
      if is_file (s.fs.node n).type
      then some (say (say s (cstr (fs_read s.fs mem (some n) 511))) (10 ∷ []))
      else some (say s not_a_file)
]

-- The state after a call that gives a node or null, and a message for null.
abbrev pub node_or : Session → Str → Option ℕ × Fs → Session
node_or s text out =
    let s' = record s { fs = out.1 } in elim out.0 [ none ↦ say s' text | some n ↦ s' ]

unfoldable pub builtin_mkdir : Session → Str → Session
unfolding fs_mkdir
builtin_mkdir s args =
    if first args == 0
    then say s usage_mkdir
    else node_or s error (fs_mkdir s.fs (some s.fs.cwd) args)

unfoldable pub builtin_touch : Session → Str → Session
unfolding fs_create_file
builtin_touch s args =
    if first args == 0
    then say s usage_touch
    else node_or s error (fs_create_file s.fs (some s.fs.cwd) args)

unfoldable pub builtin_cd : Session → List ℕ → Str → Option Session
unfolding fs_lookup fs_set_cwd
builtin_cd s junk args = elim (fs_lookup s.fs junk (some s.fs.cwd) (some args)) [
  | fault ↦ none
  | nowhere ↦ some (say s no_such_dir)
  | at n ↦
      if is_dir (s.fs.node n).type
      then some (record s { fs = fs_set_cwd s.fs (some n) })
      else some (say s no_such_dir)
]

-- The loop of `builtin_ls` from a child on; a chain of different nodes ends before the fuel.
unfoldable pub list_from : ℕ → Fs → Option ℕ → Str
list_from zero s c = []
list_from (suc fuel) s none = []
list_from (suc fuel) s (some c) =
    cstr (s.node c).name
    ++ (if is_dir (s.node c).type then b'/' ∷ [] else [])
    ++ 10 ∷ list_from fuel s (s.node c).sibling

unfoldable pub builtin_ls : Session → Session
unfolding list_from
builtin_ls s = say s (list_from (pool_size + 1) s.fs (s.fs.node s.fs.cwd).child)

abbrev has_child : Node → Bool
has_child n = elim n.child [ none ↦ false | some c ↦ true ]

unfoldable pub builtin_rm : Session → Str → Session
unfolding fs_find_child fs_unlink
builtin_rm s args =
    if first args == 0 then say s usage_rm else elim (fs_find_child s.fs (some s.fs.cwd) args) [
      | none ↦ say s no_such_entry
      | some n ↦
          if is_dir (s.fs.node n).type && has_child (s.fs.node n)
          then say s not_empty
          else node_or s fail (fs_unlink s.fs (some s.fs.cwd) args)
    ]

-- The first part of `builtin_mv` and of `builtin_cp`: the text to the first space, and what stands
-- behind the spaces, or nothing where the usage is shown.
unfoldable pub to_space : Str → Option (Str × Str)
to_space [] = none
to_space (c ∷ s) =
    if c == b' '
    then some ([], s)
    else elim (to_space s) [ none ↦ none | some (a, b) ↦ some (c ∷ a, b) ]

unfoldable pub two_args : Str → Option (Str × Str)
unfolding to_space skip_spaces
two_args args = elim (to_space args) [
  | none ↦ none
  | some (a, b) ↦ elim (skip_spaces b) [ [] ↦ none | c ∷ rest ↦ some (a, c ∷ rest) ]
]

unfoldable pub builtin_mv : Session → Str → Session
unfolding two_args fs_rename
builtin_mv s args = elim (two_args args) [
  | none ↦ say s usage_mv
  | some (a, b) ↦
      let (r, fs') = fs_rename s.fs (some s.fs.cwd) a b in
      let s' = record s { fs = fs' } in
      elim r [
        | pos n ↦ s'
        | negsuc n ↦
            if n == 0 then say s' no_such_entry else if n == 1 then say s' target_exists else s'
      ]
]

unfoldable pub builtin_cp : Session → Memory → Str → Session
unfolding two_args fs_find_child fs_clone_file
builtin_cp s mem args = elim (two_args args) [
  | none ↦ say s usage_cp
  | some (a, b) ↦ elim (fs_find_child s.fs (some s.fs.cwd) a) [
    | none ↦ say s no_such_file
    | some n ↦
        if is_file (s.fs.node n).type
        then node_or s error (fs_clone_file s.fs mem (some s.fs.cwd) (some n) b)
        else say s no_such_file
  ]
]

-- Memory with bytes at an address.
abbrev pub with_bytes : Memory → ℕ → List ℕ → Memory
with_bytes mem addr cs =
    λ a. if leb addr a && ltb a (addr + length cs) then get_or cs (a - addr) 0 else mem a

-- The end of `run_builtin`: `redir_buf`, which takes at most 4096 characters, is written to the file.
-- `redir_at` is its address.
unfoldable pub store_output : Session → Memory → ℕ → ℕ → Bool → Session → Session
unfolding fs_write
store_output s mem redir_at n append ran =
    let redir_buf = take 4096 ran.out in
    record s {
      fs =
          (fs_write ran.fs (with_bytes mem redir_at redir_buf) (some n) redir_at (length redir_buf)
            append).1;
    }

-- The part of `run_builtin` that puts the output of a builtin into a file, from the file that
-- `fs_create_file` gave on; the builtin's own output is not shown.
unfoldable pub run_into :
    Session → Memory → ℕ → (Session → Session) → Bool → Option ℕ × Fs → Session
unfolding store_output
run_into s mem redir_at builtin append opened = elim opened.0 [
  | none ↦ say (record s { fs = opened.1 }) redir_error
  | some n ↦ store_output s mem redir_at n append (builtin (record { fs = opened.1; out = [] }))
]

unfoldable pub run_redirected : Session → Memory → ℕ → (Session → Session) → Str → Bool → Session
unfolding fs_create_file run_into
run_redirected s mem redir_at builtin name append =
    run_into s mem redir_at builtin append (fs_create_file s.fs (some s.fs.cwd) name)
