-- ===== src/Nss/Files.antt =====
-- The operations of nss.c on the namespace: mkfile, rmfile, cd and ls.
pub mod Children
use somerubbish.Prelude.{
  ℕ, zero, suc, ◌+◌, ◌-◌, ◌%◌, ◌^◌, Bool, true, false, not, ◌&&◌, List, [], ◌∷◌, Option, none, some,
  ltb, ◌==◌, if◌then◌else◌, length, ◌>>=◌,
}
use somerubbish.Libc.{Name}
use somerubbish.Nss.Node.{NsNode, Namespace, Outside, write_node, deref}
use somerubbish.Nss.Path.{Lookup, get_ns_node}

-- What the allocator gives to one call of mkfile: the new node, the copy of its name, and the
-- longer array of children.
pub record Alloc : Type 0 where
  pub new_file : Option ℕ
  pub name_ok : Bool
  pub realloc_ok : Bool

-- `for(j = how_many_children - 1;j > index;j--) child[j] = child[j-1]; child[index] = new_file;`
unfoldable pub insert_child : (index new_file : ℕ) → List ℕ → List ℕ
insert_child zero new_file child = new_file ∷ child
insert_child (suc i) new_file [] = new_file ∷ []
insert_child (suc i) new_file (c ∷ child) = c ∷ insert_child i new_file child

-- The copy of as many children as are left, without the one at the index.
unfoldable pub remove_child : (index : ℕ) → List ℕ → List ℕ
remove_child i [] = []
remove_child zero (c ∷ child) = child
remove_child (suc i) (c ∷ []) = []
remove_child (suc i) (c ∷ d ∷ child) = c ∷ remove_child i (d ∷ child)

abbrev pub set_node : Namespace → ℕ → NsNode → Namespace
set_node ns a n = record ns { node = write_node ns.node a n }

-- The fields that mkfile gives to a new file.
abbrev pub new_node : Namespace → Lookup → (file_type acl : ℕ) → NsNode
new_node ns s file_type acl = record {
  name = s.file_name_buf;
  file_type = file_type;
  uid = ns.current_uid;
  gid = ns.current_gid;
  acl = acl;
  parent = s.lkup_node;
  child = [];
  how_many_children = 0;
}

-- The tail of mkfile, once the node and its name are allocated. A realloc that fails leaves the
-- count of children already raised.
unfoldable pub link_child :
    Namespace → (dir index new_file : ℕ) → NsNode → (realloc_ok : Bool) → Option ℕ × Namespace
link_child ns dir index new_file n realloc_ok =
    let d = ns.node dir in
    let more = (d.how_many_children + 1) % 2 ^ 32 in
    if realloc_ok
    then (
      some new_file,
      set_node (set_node ns new_file n) dir
          (record d { child = insert_child index new_file d.child; how_many_children = more }),
    )
    else (none, set_node ns dir (record d { how_many_children = more }))

-- The three results of ls: nothing, a file, and the children of a directory.
pub data Listing : Type 0 where
  failed : Listing
  single_file : ℕ → Listing
  all_file_in_dir : List ℕ → ℕ → Listing

module _ (out : Outside) where
  unfoldable pub mkfile :
      Namespace → Alloc → (file_path : Name) (file_type acl : ℕ) → Option (Option ℕ × Namespace)
  mkfile ns mem file_path file_type acl =
      if not (out.is_legal_file_type file_type)
      then some (none, ns)
      else (get_ns_node out ns file_path >>= λ s.
          if not (s.ret == 3)
          then some (none, ns)
          else if length s.file_name_buf == 0
          then some (none, ns)
          else elim mem.new_file [
            | none ↦ some (none, ns)
            | some a ↦
                if not mem.name_ok
                then some (none, ns)
                else some
                    (link_child ns s.lkup_node s.i a (new_node ns s file_type acl) mem.realloc_ok)
          ])

  -- The status beside the namespace. The file system's own remove is a comment in the code.
  unfoldable pub rmfile : Namespace → (file_path : Name) → Option (ℕ × Namespace)
  rmfile ns file_path = get_ns_node out ns file_path >>= λ s.
      if s.ret == 0
      then (deref ns s.lkup_node >>= λ n. deref ns n.parent >>= λ d. some (
        0,
        set_node ns n.parent (record d {
          child = remove_child s.i d.child;
          how_many_children = (d.how_many_children + 2 ^ 32 - 1) % 2 ^ 32;
        }),
      ))
      else some (1, ns)

  -- A path that is not found leaves `ret` at 0.
  unfoldable pub cd : Namespace → (file_path : Name) → Option (ℕ × Namespace)
  cd ns file_path = get_ns_node out ns file_path >>= λ s.
      if s.ret == 0
      then (deref ns s.lkup_node >>= λ n.
          if not (n.file_type == out.directory_file)
          then some (1, ns)
          else some (0, record ns { current_working_dir = s.lkup_node }))
      else if s.ret == 2
      then some (0, record ns { current_working_dir = s.lkup_node })
      else some (0, ns)

  unfoldable pub ls : Namespace → (file_path : Name) → Option Listing
  ls ns file_path = get_ns_node out ns file_path >>= λ s.
      if not (s.ret == 0) && not (s.ret == 2)
      then some failed
      else (deref ns s.lkup_node >>= λ n.
          if out.is_reg_file n.file_type
          then some (single_file s.lkup_node)
          else if out.is_dir_file n.file_type
          then some (all_file_in_dir n.child n.how_many_children)
          else some failed)
