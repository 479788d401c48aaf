-- ===== src/Syscall/Write.antt =====
-- `sys_write` to an open file, and reading back what it wrote.
use snowkernel.Base.{
  ℕ, zero, suc, ◌+◌, ◌-◌, ◌^◌, ◌≤◌, ◌<◌, true, some, if◌then◌else◌, ◌++◌, length, take_of_le, min,
  ◌≡◌, refl, ap, ◌∙◌, arith, ne→==,
}
use snowkernel.Base.Int.{ℤ, pos, negsuc, is_zero}
use snowkernel.Fs.Defs.{Fs, is_file, DataPtr, null, in_arena, outside, arena_size}
use snowkernel.Fs.Data.{Memory, bytes, read_data, fs_write}
use snowkernel.Fs.Write.{IsArena, content, Stored}
use snowkernel.Fs.Write.Append.{fs_write-append, fs_write_append_refused}
use snowkernel.Syscall.{Kernel, entry, set_ofs, user_fd, write_file, sys_write, sys_read}
use snowkernel.Syscall.Seek.{sys_lseek, sys_lseek_start}
use snowkernel.Syscall.Open.{
  OpenFile, OpenFile-user_node, OpenFile-not_chr, set_ofs-ofs, set_ofs-OpenFile, fs_write-type,
}
use snowkernel.Syscall.Read.{sys_read-prefix}

length-bytes : (f : Memory) (a n : ℕ) → length (bytes f a n) ≤ n
length-bytes f a zero = omega arith
length-bytes f a (suc n) = omega (arith, length-bytes f (a + 1) n)

length-read_data : (f mem : Memory) (d : DataPtr) (n : ℕ) → length (read_data f mem d n) ≤ n
unfolding read_data
length-read_data f mem null n = omega arith
length-read_data f mem (in_arena a) n = length-bytes f a n
length-read_data f mem (outside a) n = length-bytes mem a n

length-content : (s : Fs) (mem : Memory) (n : ℕ) → length (content s mem n) ≤ (s.node n).size
length-content s mem n = length-read_data s.arena mem (s.node n).contents (s.node n).size

-- The state after `count` bytes at the address `addr` were appended to the file `n`, which the entry
-- `i` has open.
abbrev pub appended : Kernel → Memory → ℕ → ℕ → ℕ → ℕ → Kernel
appended k mem i n addr count =
    let fs' = (fs_write k.fs mem (some n) addr count true).1 in
    set_ofs (record k { fs = fs' }) i (fs'.node n).size

module _ (k : Kernel) (mem : Memory) (m i n addr count : ℕ) (o : OpenFile k (pos m) i n)
    (user : 3 ≤ m) where
  sys_write-write_file : sys_write k mem (pos m) addr count ≡ write_file k mem i n addr count
  unfolding sys_write
  sys_write-write_file =
      rw
        (
          ne→== m 1 (omega arith),
          ne→== m 2 (omega arith),
          OpenFile-user_node k (pos m) i n o,
          sys_write,
          OpenFile-not_chr k (pos m) i n o,
          o.isf,
        )
        refl

  abbrev after : Kernel
  after = appended k mem i n addr count

  write_file-after :
      (fs_write k.fs mem (some n) addr count true).0 ≡ pos 0
      → write_file k mem i n addr count ≡ (pos count, after)
  unfolding write_file
  write_file-after e =
      ap
        (λ (r : ℤ).
          if is_zero r
          then (pos count, after)
          else (negsuc 0, record k { fs = (fs_write k.fs mem (some n) addr count true).1 }))
        e

  -- A write to a descriptor from 3 on that is open on a file, where the arena has room for a second
  -- copy of the file with the bytes, returns `count`; the file then holds what it held, followed by
  -- the bytes, whatever the offset was, no other file has changed, and the offset is the file's size.
  pub sys_write-append :
      IsArena k.fs
      → k.fs.aoff + (k.fs.node n).size + count ≤ arena_size
      → (sys_write k mem (pos m) addr count ≡ (pos count, after))
        × Stored k.fs mem n (content k.fs mem n ++ bytes mem addr count) after.fs
        × ((entry after i).ofs ≡ (after.fs.node n).size)
  sys_write-append v room =
      let w = fs_write-append k.fs mem n addr count v o.isf room in
      (
        sys_write-write_file ∙ write_file-after w.0,
        w.1,
        set_ofs-ofs (record k { fs = after.fs }) i (after.fs.node n).size,
      )

  -- Where the arena has no such room, a write of fewer than 2^63 bytes to a file of fewer than 2^62
  -- returns -1 and changes nothing.
  pub sys_write_refused :
      IsArena k.fs
      → count < 2 ^ 63
      → (k.fs.node n).size < 2 ^ 62
      → arena_size < k.fs.aoff + (k.fs.node n).size + count
      → sys_write k mem (pos m) addr count ≡ (negsuc 0, k)
  unfolding write_file
  sys_write_refused v small sz full =
      sys_write-write_file
      ∙ rw (fs_write_append_refused k.fs mem n addr count v o.isf small sz full) refl

  after-OpenFile : OpenFile after (pos m) i n
  unfolding user_fd
  after-OpenFile =
      let s = record k { fs = after.fs } in
      set_ofs-OpenFile s (pos m) i n (after.fs.node n).size (record {
        got = o.got;
        node = o.node;
        isf = ap is_file (fs_write-type k.fs mem n addr count) ∙ o.isf;
      })

  -- Back at the start, a read for as many bytes as the file has gives the whole file.
  read_whole :
      (k : Kernel) (mem' : Memory) (c : ℕ)
      → OpenFile k (pos m) i n
      → (k.fs.node n).size ≤ c
      → c < 2 ^ 64
      → (sys_read (set_ofs k i 0) mem' (pos m) c).stored ≡ content k.fs mem' n
  read_whole k mem' c o big fits =
      let start = set_ofs k i 0 in
      let size = (k.fs.node n).size in
      let len = length-content k.fs mem' n in
      (sys_read-prefix start mem' (pos m) i n c (set_ofs-OpenFile k (pos m) i n 0 o)
        (omega (arith, big, fits))).0
      ∙ take_of_le (min c (size - (entry start i).ofs)) (content k.fs mem' n)
          (omega (arith, big, len, set_ofs-ofs k i 0))

  -- A write to a file that the arena has room for, a seek to the start, and a read for at least as
  -- many bytes as the file has, with whatever is in memory by then: the write returns `count`, the
  -- seek returns 0, and the read gives what the file held before and the written bytes behind it.
  pub write-seek-read :
      (mem' : Memory) (c : ℕ)
      → IsArena k.fs
      → k.fs.aoff + (k.fs.node n).size + count ≤ arena_size
      → (after.fs.node n).size ≤ c
      → c < 2 ^ 64
      → (sys_write k mem (pos m) addr count ≡ (pos count, after))
        × (sys_lseek after (pos m) (pos 0) 0 ≡ some (pos 0, set_ofs after i 0))
        × ((sys_read (set_ofs after i 0) mem' (pos m) c).stored
            ≡ content k.fs mem n ++ bytes mem addr count)
  write-seek-read mem' c v room big fits =
      let w = sys_write-append v room in
      let still = after-OpenFile in
      (
        w.0,
        sys_lseek_start after (pos m) i n (pos 0) still.got still.node refl,
        read_whole after mem' c still big fits ∙ w.1.holds mem',
      )
