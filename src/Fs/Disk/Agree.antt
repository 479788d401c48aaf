-- ===== src/Fs/Disk/Agree.antt =====
-- The two backends call by call.
use mathlib.Core.Path.{fun_ext}
use snowkernel.Base.{
  ℕ, zero, suc, ◌+◌, ◌||◌, Option, none, some, ◌==◌, leb, if◌then◌else◌, update, List, [], ◌∷◌,
  ◌++◌, replicate, ◌≡◌, ◌≢◌, refl, sym, ap, ◌∙◌, arith, Bool-cases, Option-cases, inl, inr, ne→==,
  eq→==,
}
use snowkernel.Str.{Str, kmemset, kstrncpy}
use snowkernel.Fs.Defs.{
  Fs, Node, dir, file, null, zero_node, as_dir, pool_size, find_from, find_in, add_child,
}
use snowkernel.Fs.Ops.{
  copy_name, take_node, fs_mkdir, new_child, fs_create_file, unlink_from, fs_unlink, fs_rename,
}
use snowkernel.Fs.Data.{Memory, fs_clone_file}
use snowkernel.Fs.Path.{at, nowhere, enter, walk, walk_from, fs_lookup, first}
use snowkernel.Fs.Create.{InPool, as_dir-InPool}
use snowkernel.Fs.Disk.{
  d_add_child, d_find_from, d_find_in, d_new_child, d_fs_mkdir, d_fs_create_file, d_enter, d_walk,
  d_walk_from, d_fs_lookup, d_unlink_from, d_fs_unlink, d_fs_rename, d_fs_clone_file,
}

find_from-agree :
    (fuel : ℕ) (s : Fs) (c : Option ℕ) (name : Str)
    → d_find_from fuel s c name ≡ find_from fuel s c name
unfolding d_find_from find_from
find_from-agree zero s c name = refl
find_from-agree (suc fuel) s none name = refl
find_from-agree (suc fuel) s (some c) name =
    rw (find_from-agree fuel s (s.node c).sibling name) refl

pub find_in-agree : (s : Fs) (p : ℕ) (name : Str) → d_find_in s p name ≡ find_in s p name
unfolding d_find_in find_in
find_in-agree s p name = find_from-agree (pool_size + 1) s (s.node p).child name

unlink_from-agree :
    (fuel : ℕ) (s : Fs) (p : ℕ) (prev c : Option ℕ) (name : Str)
    → d_unlink_from fuel s p prev c name ≡ unlink_from fuel s p prev c name
unfolding d_unlink_from unlink_from
unlink_from-agree zero s p prev c name = refl
unlink_from-agree (suc fuel) s p prev none name = refl
unlink_from-agree (suc fuel) s p none (some c) name =
    rw (unlink_from-agree fuel s p (some c) (s.node c).sibling name) refl
unlink_from-agree (suc fuel) s p (some q) (some c) name =
    rw (unlink_from-agree fuel s p (some c) (s.node c).sibling name) refl

enter-agree : (s : Fs) (cur : ℕ) (tok : Str) → d_enter s cur tok ≡ enter s cur tok
unfolding d_enter enter
enter-agree s cur tok = rw (find_in-agree s cur tok) refl

walk-agree :
    (s : Fs) (cur : ℕ) (tok : Str) (rest : List ℕ) → d_walk s cur tok rest ≡ walk s cur tok rest
unfolding d_walk walk
walk-agree s cur tok [] = refl
walk-agree s cur tok (c ∷ rest) = elim (Bool-cases (c == b'/' || c == 0)) [
  | inr e ↦ rw (e, d_walk, walk) (walk-agree s cur (tok ++ c ∷ []) rest)
  | inl e ↦ elim (Option-cases (enter s cur tok)) [
    | inl o ↦ rw (e, enter-agree s cur tok ∙ o, o, d_walk, walk) refl
    | inr (p, o) ↦ elim (Bool-cases (c == 0)) [
      | inl z ↦ rw (e, enter-agree s cur tok ∙ o, o, d_walk, walk, z) refl
      | inr z ↦ rw (e, enter-agree s cur tok ∙ o, o, d_walk, walk, z) (walk-agree s p [] rest)
    ]
  ]
]

kmemset-zero : (n k : ℕ) → kmemset (replicate n 0) 0 k ≡ replicate n 0
unfolding kmemset
kmemset-zero zero zero = refl
kmemset-zero zero (suc k) = refl
kmemset-zero (suc n) zero = refl
kmemset-zero (suc n) (suc k) = ap (λ (l : List ℕ). 0 ∷ l) (kmemset-zero n k)

-- The names that the two copies leave in a cleared array.
copy_name-agree : (n k : ℕ) (s : Str) → copy_name (replicate n 0) s k ≡ kstrncpy (replicate n 0) s k
unfolding copy_name kstrncpy
copy_name-agree zero zero s = refl
copy_name-agree zero (suc k) s = refl
copy_name-agree (suc n) zero s = refl
copy_name-agree (suc n) (suc k) [] = ap (λ (l : List ℕ). 0 ∷ l) (sym (kmemset-zero n k))
copy_name-agree (suc n) (suc k) (c ∷ s) = elim (Bool-cases (c == 0)) [
  | inl e ↦ rw e (ap (λ (l : List ℕ). 0 ∷ l) (sym (kmemset-zero n k)))
  | inr e ↦ rw e (ap (λ (l : List ℕ). c ∷ l) (copy_name-agree n k s))
]

-- Linking a new directory by hand and by `d_add_child` comes to the same.
linked-agree :
    (node : ℕ → Node) (p n : ℕ) (name : List ℕ)
    → p ≢ n
    → let d_node = update node n (record zero_node { name = name; type = dir }) in
      let d_linked = update d_node n (record (d_node n) {
        parent = some p;
        sibling = (d_node p).child;
        child = none;
        contents = null;
        size = 0;
      }) in
      let taken =
        update node n (record zero_node {
          name = name;
          type = dir;
          parent = some p;
          sibling = (node p).child;
        }) in
      ◌≡◌ {A = ℕ → Node}
        (update d_linked p (record (d_linked p) { child = some n }))
        (update taken p (record (taken p) { child = some n }))
linked-agree node p n name ne = fun_ext (λ x. elim (Bool-cases (x == p)) [
  | inl e ↦ rw (e, ne→== p n ne) refl
  | inr e ↦ elim (Bool-cases (x == n)) [
    | inl f ↦ rw (e, f, ne→== p n ne, eq→== n n refl) refl
    | inr f ↦ rw (e, f) refl
  ]
])

module _ (s : Fs) (parent : Option ℕ) (name : Str) where
  pub fs_mkdir-agree : InPool s parent → d_fs_mkdir s parent name ≡ fs_mkdir s parent name
  unfolding d_fs_mkdir fs_mkdir d_new_child d_add_child take_node
  fs_mkdir-agree ptr = elim (Option-cases (as_dir s parent)) [
    | inl d ↦ rw (d, d_fs_mkdir, fs_mkdir) refl
    | inr (p, d) ↦ elim (Option-cases (find_in s p name)) [
      | inr (c, e) ↦ rw (d, d_fs_mkdir, fs_mkdir, find_in-agree s p name ∙ e, e) refl
      | inl e ↦ elim (Bool-cases (leb pool_size s.ni)) [
        | inl f ↦ rw (d, d_fs_mkdir, fs_mkdir, find_in-agree s p name ∙ e, e, f) refl
        | inr f ↦
            let le = as_dir-InPool s parent p d ptr in
            rw
              (
                d,
                d_fs_mkdir,
                fs_mkdir,
                find_in-agree s p name ∙ e,
                e,
                f,
                copy_name-agree 32 31 name,
              )
              (ap
                (λ (nodes : ℕ → Node). (some (s.ni + 1), record s { node = nodes; ni = s.ni + 1 }))
                (linked-agree s.node p (s.ni + 1) (kstrncpy (replicate 32 0) name 31)
                  (omega arith)))
      ]
    ]
  ]

  new_child-agree : (p : ℕ) → d_new_child s p name file ≡ new_child s p name file null
  unfolding d_new_child new_child d_add_child add_child take_node
  new_child-agree p = refl

  pub fs_create_file-agree : d_fs_create_file s parent name ≡ fs_create_file s parent name
  unfolding d_fs_create_file fs_create_file
  fs_create_file-agree = elim (Option-cases (as_dir s parent)) [
    | inl d ↦ rw (d, d_fs_create_file, fs_create_file) refl
    | inr (p, d) ↦ elim (Option-cases (find_in s p name)) [
      | inr (c, e) ↦ rw (d, d_fs_create_file, fs_create_file, find_in-agree s p name ∙ e, e) refl
      | inl e ↦
          rw (d, d_fs_create_file, fs_create_file, find_in-agree s p name ∙ e, e)
            (new_child-agree p)
    ]
  ]

  pub fs_unlink-agree : d_fs_unlink s parent name ≡ fs_unlink s parent name
  unfolding d_fs_unlink fs_unlink
  fs_unlink-agree = elim (Option-cases (as_dir s parent)) [
    | inl d ↦ rw (d, d_fs_unlink, fs_unlink) refl
    | inr (p, d) ↦
        rw (d, d_fs_unlink, fs_unlink)
          (unlink_from-agree (pool_size + 1) s p none (s.node p).child name)
  ]

  pub fs_rename-agree : (newn : Str) → d_fs_rename s parent name newn ≡ fs_rename s parent name newn
  unfolding d_fs_rename fs_rename
  fs_rename-agree newn = elim (Option-cases (as_dir s parent)) [
    | inl d ↦ rw (d, d_fs_rename, fs_rename) refl
    | inr (p, d) ↦ elim (Option-cases (find_in s p name)) [
      | inl e ↦ rw (d, d_fs_rename, fs_rename, find_in-agree s p name ∙ e, e) refl
      | inr (c, e) ↦ elim (Option-cases (find_in s p newn)) [
        | inl g ↦
            rw
              (
                d,
                d_fs_rename,
                fs_rename,
                find_in-agree s p name ∙ e,
                e,
                find_in-agree s p newn ∙ g,
                g,
              )
              refl
        | inr (k, g) ↦
            rw
              (
                d,
                d_fs_rename,
                fs_rename,
                find_in-agree s p name ∙ e,
                e,
                find_in-agree s p newn ∙ g,
                g,
              )
              refl
      ]
    ]
  ]

  pub fs_clone_file-agree :
      (mem : Memory) (src : Option ℕ)
      → d_fs_clone_file s mem parent src name ≡ fs_clone_file s mem parent src name
  unfolding d_fs_clone_file fs_clone_file d_add_child add_child take_node
  fs_clone_file-agree mem none = refl
  fs_clone_file-agree mem (some src) = elim (Option-cases (as_dir s parent)) [
    | inl d ↦ rw (d, d_fs_clone_file, fs_clone_file) refl
    | inr (p, d) ↦ elim (Option-cases (find_in s p name)) [
      | inl e ↦ rw (d, d_fs_clone_file, fs_clone_file, find_in-agree s p name ∙ e, e) refl
      | inr (c, e) ↦ rw (d, d_fs_clone_file, fs_clone_file, find_in-agree s p name ∙ e, e) refl
    ]
  ]

pub fs_lookup-agree :
    (s : Fs) (junk : List ℕ) (parent : Option ℕ) (path : Option Str)
    → d_fs_lookup s junk parent path ≡ fs_lookup s junk parent path
unfolding d_fs_lookup fs_lookup d_walk_from walk_from
fs_lookup-agree s junk parent none = refl
fs_lookup-agree s junk none (some path) = elim (Bool-cases (first path == b'/')) [
  | inl e ↦ rw e (
      ap (λ w. if first path == 0 then nowhere else w) (walk-agree s 0 [] (kstrncpy junk path 127)))
  | inr e ↦ rw e refl
]
fs_lookup-agree s junk (some p) (some path) = elim (Bool-cases (first path == b'/')) [
  | inl e ↦
      rw e
        (ap (λ w. if first path == 0 then at p else w) (walk-agree s 0 [] (kstrncpy junk path 127)))
  | inr e ↦
      rw e
        (ap (λ w. if first path == 0 then at p else w) (walk-agree s p [] (kstrncpy junk path 127)))
]
