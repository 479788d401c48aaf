-- ===== src/Fs/Disk/Calls.antt =====
-- Sequences of calls, on either backend.
use snowkernel.Base.{
  ℕ, Bool, true, false, Option, none, some, ltb, List, [], ◌∷◌, ◌≡◌, refl, ap, inl, inr, ◌⊎◌,
  Option-cases,
}
use snowkernel.Base.Int.{ℤ, pos, negsuc}
use snowkernel.Str.{Str}
use snowkernel.Fs.Defs.{Fs, is_file, arena_size, fs_set_cwd, fs_find_child, as_dir}
use snowkernel.Fs.Ops.{fs_mkdir, fs_create_file, fs_unlink, fs_rename, fs_stats}
use snowkernel.Fs.Data.{Memory, add_size, fs_write, fs_read, fs_clone_file}
use snowkernel.Fs.Path.{Looked, fs_lookup}
use snowkernel.Fs.Create.{InPool}
use snowkernel.Fs.Disk.{
  d_fs_mkdir, d_fs_create_file, d_fs_unlink, d_fs_rename, d_fs_write, d_fs_read, d_fs_clone_file,
  d_fs_lookup, d_fs_set_cwd, d_fs_find_child, d_fs_stats,
}
use snowkernel.Fs.Disk.Agree.{
  fs_mkdir-agree, fs_create_file-agree, fs_unlink-agree, fs_rename-agree, fs_clone_file-agree,
  fs_lookup-agree, find_in-agree,
}

-- A call of the interface fs.h, with what it reads of the stack or of other memory.
pub data Call : Type 0 where
  set_cwd : Option ℕ → Call
  mkdir create_file find_child unlink : Option ℕ → Str → Call
  rename : Option ℕ → Str → Str → Call
  lookup : List ℕ → Option ℕ → Option Str → Call
  write : Memory → Option ℕ → ℕ → ℕ → Bool → Call
  read : Memory → Option ℕ → ℕ → Call
  clone : Memory → Option ℕ → Option ℕ → Str → Call
  stats : Call

-- What a call gives back.
pub data Answer : Type 0 where
  nothing : Answer
  pointer : Option ℕ → Answer
  code : ℤ → Answer
  looked : Looked → Answer
  bytes_read : List ℕ → Answer
  numbers : ℕ × ℕ × ℕ → Answer

abbrev pub as_pointer : Option ℕ × Fs → Answer × Fs
as_pointer out = (pointer out.0, out.1)

abbrev pub as_code : ℤ × Fs → Answer × Fs
as_code out = (code out.0, out.1)

-- The memory backend's call.
unfoldable pub call : Fs → Call → Answer × Fs
unfolding fs_set_cwd fs_mkdir fs_create_file fs_find_child fs_unlink fs_rename fs_lookup fs_write
    fs_read fs_clone_file fs_stats
call s (set_cwd n) = (nothing, fs_set_cwd s n)
call s (mkdir p name) = as_pointer (fs_mkdir s p name)
call s (create_file p name) = as_pointer (fs_create_file s p name)
call s (find_child p name) = (pointer (fs_find_child s p name), s)
call s (unlink p name) = as_pointer (fs_unlink s p name)
call s (rename p oldn newn) = as_code (fs_rename s p oldn newn)
call s (lookup junk p path) = (looked (fs_lookup s junk p path), s)
call s (write mem f addr len append) = as_code (fs_write s mem f addr len append)
call s (read mem f max) = (bytes_read (fs_read s mem f max), s)
call s (clone mem p src name) = as_pointer (fs_clone_file s mem p src name)
call s stats = (numbers (fs_stats s), s)

-- The disk backend's.
unfoldable pub d_call : Fs → Call → Answer × Fs
unfolding d_fs_set_cwd d_fs_mkdir d_fs_create_file d_fs_find_child d_fs_unlink d_fs_rename
    d_fs_lookup d_fs_write d_fs_read d_fs_clone_file d_fs_stats
d_call s (set_cwd n) = (nothing, d_fs_set_cwd s n)
d_call s (mkdir p name) = as_pointer (d_fs_mkdir s p name)
d_call s (create_file p name) = as_pointer (d_fs_create_file s p name)
d_call s (find_child p name) = (pointer (d_fs_find_child s p name), s)
d_call s (unlink p name) = as_pointer (d_fs_unlink s p name)
d_call s (rename p oldn newn) = as_code (d_fs_rename s p oldn newn)
d_call s (lookup junk p path) = (looked (d_fs_lookup s junk p path), s)
d_call s (write mem f addr len append) = as_code (d_fs_write s mem f addr len append)
d_call s (read mem f max) = (bytes_read (d_fs_read s mem f max), s)
d_call s (clone mem p src name) = as_pointer (d_fs_clone_file s mem p src name)
d_call s stats = (numbers (d_fs_stats s), s)

-- The calls on which the backends are meant to agree: a new directory's parent is a node in use, and
-- an overwrite finds room in the arena.
unfoldable pub Alike : Fs → Call → Type 0
Alike s (mkdir p name) = InPool s p
Alike s (write mem f addr len append) =
    (append ≡ true) ⊎ (ltb arena_size (add_size s.aoff len) ≡ false)
Alike s (set_cwd n) = Unit
Alike s (create_file p name) = Unit
Alike s (find_child p name) = Unit
Alike s (unlink p name) = Unit
Alike s (rename p oldn newn) = Unit
Alike s (lookup junk p path) = Unit
Alike s (read mem f max) = Unit
Alike s (clone mem p src name) = Unit
Alike s stats = Unit

write-agree :
    (s : Fs) (mem : Memory) (f : Option ℕ) (addr len : ℕ) (append : Bool)
    → (append ≡ true) ⊎ (ltb arena_size (add_size s.aoff len) ≡ false)
    → d_fs_write s mem f addr len append ≡ fs_write s mem f addr len append
unfolding d_fs_write fs_write
write-agree s mem none addr len append h = refl
write-agree s mem (some f) addr len true h = refl
write-agree s mem (some f) addr len false (inl e) = absurd cc
write-agree s mem (some f) addr len false (inr e) = rw e refl

find_child-agree :
    (s : Fs) (parent : Option ℕ) (name : Str)
    → d_fs_find_child s parent name ≡ fs_find_child s parent name
unfolding d_fs_find_child fs_find_child
find_child-agree s parent name = elim (Option-cases (as_dir s parent)) [
  | inl d ↦ rw (d, d_fs_find_child, fs_find_child) refl
  | inr (p, d) ↦ rw (d, d_fs_find_child, fs_find_child) (find_in-agree s p name)
]

call-agree : (s : Fs) (c : Call) → Alike s c → d_call s c ≡ call s c
unfolding call d_call Alike
call-agree s (set_cwd n) h = unfold fs_set_cwd in unfold d_fs_set_cwd in refl
call-agree s (mkdir p name) h = ap as_pointer (fs_mkdir-agree s p name h)
call-agree s (create_file p name) h = ap as_pointer (fs_create_file-agree s p name)
call-agree s (find_child p name) h =
    ap {B = Answer × Fs} (λ (r : Option ℕ). (pointer r, s)) (find_child-agree s p name)
call-agree s (unlink p name) h = ap as_pointer (fs_unlink-agree s p name)
call-agree s (rename p oldn newn) h = ap as_code (fs_rename-agree s p oldn newn)
call-agree s (lookup junk p path) h =
    ap {B = Answer × Fs} (λ l. (looked l, s)) (fs_lookup-agree s junk p path)
call-agree s (write mem f addr len append) h = ap as_code (write-agree s mem f addr len append h)
call-agree s (read mem none max) h = unfold fs_read in unfold d_fs_read in refl
call-agree s (read mem (some f) max) h = unfold fs_read in unfold d_fs_read in refl
call-agree s (clone mem p src name) h = ap as_pointer (fs_clone_file-agree s p name mem src)
call-agree s stats h = unfold fs_stats in unfold d_fs_stats in refl

-- The answers to a sequence of calls, and the file system after it.
unfoldable pub run : (Fs → Call → Answer × Fs) → Fs → List Call → List Answer × Fs
run step s [] = ([], s)
run step s (c ∷ cs) =
    let (a, s1) = step s c in let (answers, s2) = run step s1 cs in (a ∷ answers, s2)

-- Each call of the sequence, where it is made, is one on which the backends are meant to agree.
unfoldable pub AllAlike : Fs → List Call → Type 0
AllAlike s [] = Unit
AllAlike s (c ∷ cs) = Alike s c × AllAlike (call s c).1 cs

-- A sequence of calls in which every new directory's parent is in use and every overwrite finds room
-- has the same answers, and leaves the same file system, on the disk backend as on the memory
-- backend.
pub run-agree : (s : Fs) (cs : List Call) → AllAlike s cs → run d_call s cs ≡ run call s cs
unfolding run AllAlike
run-agree s [] h = refl
run-agree s (c ∷ cs) h = rw (call-agree s c h.0, run-agree (call s c).1 cs h.1) refl

-- An overwrite for which the arena has no room returns -2 and changes nothing on the disk backend,
-- where the memory backend returns 0 and keeps the caller's pointer.
pub d_fs_write_full :
    (s : Fs) (mem : Memory) (f addr len : ℕ)
    → is_file (s.node f).type ≡ true
    → ltb arena_size (add_size s.aoff len) ≡ true
    → (d_fs_write s mem (some f) addr len false ≡ (negsuc 1, s))
      × ((fs_write s mem (some f) addr len false).0 ≡ pos 0)
unfolding d_fs_write fs_write
d_fs_write_full s mem f addr len isf full = rw (isf, full) (refl, refl)
