-- ===== src/Boot/Embed.antt =====
-- Putting the linked programs into a directory.
use snowkernel.Base.{
  ℕ, zero, suc, ◌+◌, ◌≤◌, ◌<◌, Bool, true, false, Option, none, some, List, [], ◌∷◌, All, map,
  length, ◌≡◌, ◌≢◌, refl, ◌∙◌, arith, Bool-cases, Option-cases, inl, inr,
}
use snowkernel.Str.{Str, kstrlen, str_eq}
use snowkernel.Fs.Defs.{Fs, file, find_in, find_from, is_dir, pool_size}
use snowkernel.Fs.Ops.{fs_create_file}
use snowkernel.Fs.Data.{Memory, fs_write}
use snowkernel.Fs.Tree.{IsTree, find_in-first_named}
use snowkernel.Fs.Link.{Linked}
use snowkernel.Fs.Create.{Creates, no_dir, there, full, new, reuse_file, fs_create_file-Creates}
use snowkernel.Fs.Names.{find_after, find_in-Linked_new}
use snowkernel.Fs.Same.{HasTree}
use snowkernel.Fs.Reach.{
  Reachable, steps, makes_file, writes, fs_write-SameLinks, Reachable-HasTree,
}
use snowkernel.Boot.{Image, Program, embed_one, embed, embed_hello, hello_name}

-- The directory `p` has a node of the name.
abbrev pub Found : Fs → ℕ → Str → Type 0
Found s p name = (n : ℕ) × (find_in s p name ≡ some n)

find_from-same :
    (fuel : ℕ) (s s' : Fs) (o : Option ℕ) (name : Str)
    → ((x : ℕ) → (s'.node x).name ≡ (s.node x).name)
    → ((x : ℕ) → (s'.node x).sibling ≡ (s.node x).sibling)
    → find_from fuel s' o name ≡ find_from fuel s o name
unfolding find_from
find_from-same zero s s' o name n l = refl
find_from-same (suc fuel) s s' none name n l = refl
find_from-same (suc fuel) s s' (some c) name n l =
    rw (n c, l c, find_from-same fuel s s' (s.node c).sibling name n l) refl

fs_write-name :
    (s : Fs) (mem : Memory) (f : Option ℕ) (addr len : ℕ) (append : Bool) (x : ℕ)
    → ((fs_write s mem f addr len append).1.node x).name ≡ (s.node x).name
unfolding fs_write
fs_write-name s mem none addr len append x = refl
fs_write-name s mem (some f) addr len append x = ground arith

fs_write-type :
    (s : Fs) (mem : Memory) (f : Option ℕ) (addr len : ℕ) (append : Bool) (x : ℕ)
    → ((fs_write s mem f addr len append).1.node x).type ≡ (s.node x).type
unfolding fs_write
fs_write-type s mem none addr len append x = refl
fs_write-type s mem (some f) addr len append x = ground arith

fs_write-find_in :
    (s : Fs) (mem : Memory) (f : Option ℕ) (addr len : ℕ) (append : Bool) (p : ℕ) (name : Str)
    → find_in (fs_write s mem f addr len append).1 p name ≡ find_in s p name
unfolding find_in
fs_write-find_in s mem f addr len append p name =
    let l = fs_write-SameLinks s mem f addr len append in
    rw (l.child p) (find_from-same _ s _ _ name (fs_write-name s mem f addr len append) l.sibling)

-- A state of the start-up, in which `p` is a directory in use.
pub record IsBooting (s : Fs) (p : ℕ) : Type 0 where
  pub reached : Reachable s
  pub in_pool : p ≤ s.ni
  pub isd : is_dir (s.node p).type ≡ true

-- What a step that puts the file `name` into `p` does: the file is there, what was there is there
-- still, and at most one node was taken.
record Embeds (s : Fs) (p : ℕ) (name : Str) (s' : Fs) : Type 0 where
  found : Found s' p name
  kept : (other : Str) → Found s p other → Found s' p other
  most : s'.ni ≤ s.ni + 1
  least : s.ni ≤ s'.ni
  still : is_dir (s'.node p).type ≡ true

Creates-Embeds :
    (s : Fs) (kids : ℕ → List ℕ) (p : ℕ) (name : Str) (reuse : ℕ → Option ℕ) (parent : Option ℕ)
    (out : Option ℕ × Fs)
    → IsTree s kids
    → parent ≡ some p
    → p ≤ s.ni
    → is_dir (s.node p).type ≡ true
    → s.ni < pool_size
    → kstrlen name ≤ 31
    → Creates s kids file name reuse parent out
    → Embeds s p name out.1
Creates-Embeds s kids p name reuse parent out t e h d room short (no_dir n) =
    absurd (ground (arith, n, e, d))
Creates-Embeds s kids p name reuse parent out t e h d room short (there q c a f) =
    let same : q ≡ p = ground (arith, a, e, d) in
    record {
      found = (c, find_in-first_named s kids p name t ∙ (rw same at f));
      kept = λ other was. was;
      most = omega arith;
      least = omega arith;
      still = d;
    }
Creates-Embeds s kids p name reuse parent out t e h d room short (full q a f g) =
    absurd (omega (arith, g, room))
Creates-Embeds s kids p name reuse parent out t e h d room short (new {s'} q a f g l') =
    let same : q ≡ p = ground (arith, a, e, d) in
    let l : Linked s p name file s' = rw same at l' in
    record {
      found = (s.ni + 1, find_in-Linked_new s kids p name file s' t h d room l short);
      kept = λ other was. elim (Bool-cases (str_eq l.new.name other)) [
        | inl e ↦ (s.ni + 1, find_after s kids p name file s' t h d room l other ∙ rw e refl)
        | inr e ↦ (was.0, find_after s kids p name file s' t h d room l other ∙ rw e was.1)
      ];
      most = omega (arith, l.count);
      least = omega (arith, l.count);
      still = rw l.at_parent d;
    }

-- A program of the table that is linked in.
abbrev linked_in : Str → ℕ × ℕ → Program
linked_in name image = record { name = name; image = some image }

module _ (mem : Memory) (s : Fs) (p : ℕ) (name : Str) (image : ℕ × ℕ) (v : IsBooting s p)
    (room : s.ni < pool_size) (short : kstrlen name ≤ 31) where
  created : Embeds s p name (fs_create_file s (some p) name).1
  unfolding HasTree
  created =
      let (kids, t) = Reachable-HasTree v.reached in
      Creates-Embeds s kids p name (reuse_file s) (some p) _ t refl v.in_pool v.isd room short
        (fs_create_file-Creates s kids (some p) name t v.in_pool)

  embed_one-Embeds : Embeds s p name (embed_one mem (some p) (linked_in name image) s)
  unfolding embed_one
  embed_one-Embeds =
      let (made, s1) = fs_create_file s (some p) name in
      let c = created in
      let same = fs_write-find_in s1 mem made image.0 image.1 false p in
      let l = fs_write-SameLinks s1 mem made image.0 image.1 false in
      record {
        found = (c.found.0, same name ∙ c.found.1);
        kept = λ other was. let (n, e) = c.kept other was in (n, same other ∙ e);
        most = omega (arith, c.most, l.count);
        least = omega (arith, c.least, l.count);
        still = rw (fs_write-type s1 mem made image.0 image.1 false p) c.still;
      }

  embed_one-IsBooting : IsBooting (embed_one mem (some p) (linked_in name image) s) p
  unfolding embed_one
  embed_one-IsBooting =
      let e = embed_one-Embeds in
      let (made, s1) = fs_create_file s (some p) name in
      record {
        reached =
            steps (steps v.reached (makes_file (some p) name v.in_pool))
              (writes mem made image.0 image.1 false);
        in_pool = omega (arith, e.least, v.in_pool);
        isd = e.still;
      }

-- What the loop over the table does.
pub record EmbedsAll (s : Fs) (p : ℕ) (linked : Str → Image) (names : List Str) (s' : Fs)
    : Type 0 where
  pub booting : IsBooting s' p
  pub kept : (other : Str) → Found s p other → Found s' p other
  pub all : All (λ name. linked name ≢ none → Found s' p name) names
  pub most : s'.ni ≤ s.ni + length names

pub embed-EmbedsAll :
    (mem : Memory) (p : ℕ) (linked : Str → Image) (names : List Str) (s : Fs)
    → IsBooting s p
    → s.ni + length names ≤ pool_size
    → All (λ name. kstrlen name ≤ 31) names
    → EmbedsAll s p linked names
        (embed mem (some p) (map (λ name. record { name = name; image = linked name }) names) s)
unfolding embed
embed-EmbedsAll mem p linked [] s v room short = record {
  booting = v;
  kept = λ other was. was;
  all = tt;
  most = omega arith;
}
embed-EmbedsAll mem p linked (name ∷ names) s v room short = elim (Option-cases (linked name)) [
  | inl e ↦
      let r = embed-EmbedsAll mem p linked names s v (omega (arith, room)) short.1 in
      rw e (record {
        booting = r.booting;
        kept = r.kept;
        all = (λ ne. absurd (ne e), r.all);
        most = let m = r.most in omega (arith, m);
      })
  | inr (image, e) ↦
      let below : s.ni < pool_size = omega (arith, room) in
      let one = embed_one-Embeds mem s p name image v below short.0 in
      let next = embed_one-IsBooting mem s p name image v below short.0 in
      let m1 = one.most in
      let r = embed-EmbedsAll mem p linked names _ next (omega (arith, room, m1)) short.1 in
      rw e (record {
        booting = r.booting;
        kept = λ other was. r.kept other (one.kept other was);
        all = (λ ne. r.kept name one.found, r.all);
        most = let m = r.most in omega (arith, m, m1);
      })
]

pub still_found :
    (linked : Str → Image) (p : ℕ) (s s' : Fs) (names : List Str)
    → ((other : Str) → Found s p other → Found s' p other)
    → All (λ name. linked name ≢ none → Found s p name) names
    → All (λ name. linked name ≢ none → Found s' p name) names
still_found linked p s s' [] kept all = tt
still_found linked p s s' (name ∷ names) kept all =
    (λ ne. kept name (all.0 ne), still_found linked p s s' names kept all.1)

pub embed_hello-Embeds :
    (mem : Memory) (s : Fs) (p : ℕ) (hello : Image)
    → IsBooting s p
    → s.ni < pool_size
    → (hello ≢ none → Found (embed_hello mem (some p) hello s) p hello_name)
      × (((other : Str) → Found s p other → Found (embed_hello mem (some p) hello s) p other)
          × HasTree (embed_hello mem (some p) hello s))
unfolding embed_hello
embed_hello-Embeds mem s p none v room =
    (λ ne. absurd (ne refl), (λ other was. was, Reachable-HasTree v.reached))
embed_hello-Embeds mem s p (some image) v room =
    let c = created mem s p hello_name image v room (unfold kstrlen in omega arith) in
    let (made, s1) = fs_create_file s (some p) hello_name in
    let reached1 : Reachable s1 = steps v.reached (makes_file (some p) hello_name v.in_pool) in
    elim (Option-cases made) [
      | inl e ↦ rw (e, embed_hello) ((λ ne. c.found), (c.kept, Reachable-HasTree reached1))
      | inr (f, e) ↦
          let same = fs_write-find_in s1 mem (some f) image.0 image.1 false p in
          rw (e, embed_hello)
            (
              (λ ne. (c.found.0, same hello_name ∙ c.found.1)),
              (
                λ other was. let (n, at) = c.kept other was in (n, same other ∙ at),
                Reachable-HasTree (steps reached1 (writes mem (some f) image.0 image.1 false)),
              ),
            )
    ]
