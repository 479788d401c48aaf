-- ===== src/Syscall/Read.antt =====
-- `sys_read` of an open file.
use snowkernel.Base.{
  ℕ, ◌+◌, ◌-◌, ◌^◌, ◌≤◌, ◌<◌, some, ltb, leb, if◌then◌else◌, List, [], take, length, length-take,
  min, ◌≡◌, refl, sym, ap, ◌∙◌, arith, if_elim, subst,
}
use snowkernel.Base.Int.{ℤ, pos}
use snowkernel.Fs.Data.{Memory, add_size, fs_read}
use snowkernel.Fs.Write.{content}
use snowkernel.Fs.Write.Read.{fs_read_lem}
use snowkernel.Syscall.{Kernel, ReadResult, entry, set_ofs, read_file, sys_read}
use snowkernel.Syscall.Open.{OpenFile, OpenFile-user_node, OpenFile-not_chr, set_ofs-ofs}

module _ (k : Kernel) (mem : Memory) (fd : ℤ) (i n count : ℕ) (o : OpenFile k fd i n) where
  abbrev size : ℕ
  size = (k.fs.node n).size

  abbrev ofs : ℕ
  ofs = (entry k i).ofs

  -- The part of the code past the checks.
  pub sys_read-read_file : sys_read k mem fd count ≡ read_file k mem i n count
  unfolding sys_read
  sys_read-read_file =
      rw (OpenFile-user_node k fd i n o, sys_read, OpenFile-not_chr k fd i n o, o.isf) refl

  -- What `sys_read` gives where it goes on with `cs`.
  abbrev Gives : List ℕ → ReadResult → Type 0
  Gives cs r =
      (r.stored ≡ cs) × (r.result ≡ pos (length cs)) × ((entry r.kernel i).ofs ≡ ofs + length cs)

  abbrev prefix : List ℕ
  prefix = take (min count (size - ofs)) (content k.fs mem n)

  length-prefix : length prefix ≤ size - ofs
  length-prefix = omega (arith, length-take (min count (size - ofs)) (content k.fs mem n))

  -- The answer past the end test, by the bytes that `fs_read` gives.
  abbrev answer : List ℕ → ReadResult
  answer cs = record {
    result = pos (length cs);
    stored = cs;
    kernel = set_ofs k i (add_size ofs (length cs));
  }

  at_end-Gives : size ≤ ofs → Gives prefix (record { result = pos 0; stored = []; kernel = k })
  at_end-Gives h =
      let none_left : min count (size - ofs) ≡ 0 = omega (arith, h) in
      rw none_left (refl, refl, omega arith)

  answer-Gives : size < 2 ^ 64 → ofs < size → Gives prefix (answer prefix)
  answer-Gives small h =
      let bound = length-prefix in
      (refl, refl, set_ofs-ofs k i (add_size ofs (length prefix)) ∙ omega (arith, small, h, bound))

  read_bytes :
      fs_read k.fs mem (some n) (if ltb (size - ofs) count then size - ofs else count) ≡ prefix
  read_bytes =
      fs_read_lem k.fs mem n (if ltb (size - ofs) count then size - ofs else count) o.isf
      ∙ ap (λ (m : ℕ). take m (content k.fs mem n)) (ground arith)

  read_file-Gives : size < 2 ^ 64 → Gives prefix (read_file k mem i n count)
  unfolding read_file
  read_file-Gives small =
      if_elim (Gives prefix) (leb size ofs) _ _ (λ at_end. at_end-Gives (ground (arith, at_end)))
        (λ inside.
          subst (λ cs. Gives prefix (answer cs)) (sym read_bytes)
            (answer-Gives small (ground (arith, inside))))

  -- A read of an open file of fewer than 2^64 bytes advances the offset by the number of bytes that
  -- it returns, which is `count` cut to what is left behind the offset; but whatever the offset is,
  -- the bytes it stores are those at the start of the file.
  pub sys_read-prefix :
      size < 2 ^ 64
      → ((sys_read k mem fd count).stored
          ≡ take (min count ((k.fs.node n).size - (entry k i).ofs)) (content k.fs mem n))
        × ((sys_read k mem fd count).result ≡ pos (length (sys_read k mem fd count).stored))
        × ((entry (sys_read k mem fd count).kernel i).ofs
            ≡ (entry k i).ofs + length (sys_read k mem fd count).stored)
  sys_read-prefix small =
      let g = read_file-Gives small in
      rw sys_read-read_file (
        g.0,
        g.1 ∙ ap (λ (cs : List ℕ). pos (length cs)) (sym g.0),
        g.2 ∙ ap (λ (cs : List ℕ). ofs + length cs) (sym g.0),
      )
