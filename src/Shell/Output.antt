-- ===== src/Shell/Output.antt =====
-- What a builtin's output in a file is.
use snowkernel.Base.{
  ℕ, suc, ◌+◌, ◌≤◌, ◌<◌, true, false, ◌&&◌, ltb, leb, List, [], ◌∷◌, some, length, take,
  length-take, get_or, ◌≡◌, refl, sym, ap, ap₂, subst, ◌∙◌, arith,
}
use snowkernel.Str.{Str}
use snowkernel.Fs.Defs.{Fs, is_file, arena_size}
use snowkernel.Fs.Ops.{fs_create_file}
use snowkernel.Fs.Data.{Memory, bytes, fs_write}
use snowkernel.Fs.Write.{IsArena, Stored, fs_write-Stored}
use snowkernel.Shell.Builtins.{Session, with_bytes, store_output, run_into, run_redirected}

bytes_of :
    (f : Memory) (a : ℕ) (cs : List ℕ)
    → ((j : ℕ) → j < length cs → f (a + j) ≡ get_or cs j 0)
    → bytes f a (length cs) ≡ cs
bytes_of f a [] h = refl
bytes_of f a (c ∷ cs) h =
    ap₂ ◌∷◌ (ap f (omega arith) ∙ h 0 (omega arith))
      (bytes_of f (a + 1) cs (λ j low. ap f (omega arith) ∙ h (suc j) (omega (arith, low))))

pub bytes-with_bytes :
    (mem : Memory) (a : ℕ) (cs : List ℕ) → bytes (with_bytes mem a cs) a (length cs) ≡ cs
bytes-with_bytes mem a cs = bytes_of (with_bytes mem a cs) a cs at
  where
    at : (j : ℕ) → j < length cs → with_bytes mem a cs (a + j) ≡ get_or cs j 0
    at j low =
        let here : (leb a (a + j) && ltb (a + j) (a + length cs)) ≡ true = ground (arith, low) in
        rw here (ap (λ (i : ℕ). get_or cs i 0) (omega arith))

store_output-Stored :
    (s : Session) (mem : Memory) (redir_at n : ℕ) (fs1 : Fs) (cs : List ℕ)
    → IsArena fs1
    → is_file (fs1.node n).type ≡ true
    → fs1.aoff + 4096 ≤ arena_size
    → Stored fs1
        (with_bytes mem redir_at (take 4096 cs))
        n
        (take 4096 cs)
        (store_output s mem redir_at n false (record { fs = fs1; out = cs })).fs
      × ((store_output s mem redir_at n false (record { fs = fs1; out = cs })).out ≡ s.out)
unfolding store_output
store_output-Stored s mem redir_at n fs1 cs v isf room =
    let buf = take 4096 cs in
    let mem' = with_bytes mem redir_at buf in
    let fits : length buf ≤ 4096 = omega (arith, length-take 4096 cs) in
    let stored =
      fs_write-Stored fs1 mem' n redir_at (length buf) v isf (omega (arith, room, fits)) in
    (
      subst
          (λ (bs : List ℕ).
            Stored fs1 mem' n bs (fs_write fs1 mem' (some n) redir_at (length buf) false).1)
          (bytes-with_bytes mem redir_at buf) stored.1,
      refl,
    )

-- A builtin that puts out `cs` and leaves the file system alone, run with `>` for a file that there is
-- or is made, where the arena has room for 4096 bytes: the file then holds the first 4096 characters
-- that the builtin put out, no other file has changed, and nothing is shown.
pub run_redirected-Stored :
    (s : Session) (mem : Memory) (redir_at : ℕ) (builtin : Session → Session) (name : Str) (n : ℕ)
    (fs1 : Fs) (cs : List ℕ)
    → fs_create_file s.fs (some s.fs.cwd) name ≡ (some n, fs1)
    → IsArena fs1
    → is_file (fs1.node n).type ≡ true
    → fs1.aoff + 4096 ≤ arena_size
    → builtin (record { fs = fs1; out = [] }) ≡ record { fs = fs1; out = cs }
    → Stored fs1
        (with_bytes mem redir_at (take 4096 cs))
        n
        (take 4096 cs)
        (run_redirected s mem redir_at builtin name false).fs
      × ((run_redirected s mem redir_at builtin name false).out ≡ s.out)
unfolding run_redirected
run_redirected-Stored s mem redir_at builtin name n fs1 cs made v isf room ran =
    let steps : run_redirected s mem redir_at builtin name false
        ≡ store_output s mem redir_at n false (record { fs = fs1; out = cs }) =
      ap (λ e. run_into s mem redir_at builtin false e) made
      ∙ ap (λ t. store_output s mem redir_at n false t) ran in
    subst
      (λ (t : Session).
        Stored fs1 (with_bytes mem redir_at (take 4096 cs)) n (take 4096 cs) t.fs × (t.out ≡ s.out))
      (sym steps) (store_output-Stored s mem redir_at n fs1 cs v isf room)
