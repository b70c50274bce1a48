-- ===== src/Nss/Files/Children.antt =====
-- What mkfile of nss.c does to the children of the directory that it finds.
use somerubbish.Prelude.{
  ℕ, zero, suc, ◌+◌, ◌^◌, ◌≤◌, ◌<◌, ◌≡◌, ◌≢◌, refl, ap, ◌∙◌, Bool, true, false, List, [], ◌∷◌, none,
  some, arith, ◌==◌, length, get_elem?,
}
use somerubbish.Nss.Node.{NsNode, Namespace, Outside}
use somerubbish.Libc.{Name, IsStrcmp}
use somerubbish.Nss.Path.{Lookup, get_ns_node}
use somerubbish.Nss.Path.Word.{IsWellFormed, IsPlace}
use somerubbish.Nss.Path.Total.{get_ns_node-ReturnsIf}
use somerubbish.Nss.Files.{insert_child, remove_child, new_node, link_child, mkfile}

length-insert_child :
    (i a : ℕ) (l : List ℕ) → i ≤ length l → length (insert_child i a l) ≡ suc (length l)
unfolding insert_child
length-insert_child zero a l h = refl
length-insert_child (suc i) a [] h = refl
length-insert_child (suc i) a (x ∷ l) h = ap suc (length-insert_child i a l (omega arith))

-- Removing the child that was inserted gives the children back.
pub remove_child-insert_child :
    (i a : ℕ) (l : List ℕ) → i ≤ length l → remove_child i (insert_child i a l) ≡ l
unfolding insert_child remove_child
remove_child-insert_child zero a l h = refl
remove_child-insert_child (suc i) a [] h = absurd (omega arith)
remove_child-insert_child (suc zero) a (x ∷ l) h = refl
remove_child-insert_child (suc (suc i)) a (x ∷ []) h = absurd (omega arith)
remove_child-insert_child (suc (suc i)) a (x ∷ y ∷ l) h =
    ap (λ r. x ∷ r) (remove_child-insert_child (suc i) a (y ∷ l) (omega arith))

get_elem?-insert_child :
    (i a : ℕ) (l : List ℕ) → i ≤ length l → get_elem? (insert_child i a l) i ≡ some a
unfolding insert_child
get_elem?-insert_child zero a l h = refl
get_elem?-insert_child (suc i) a [] h = absurd (omega arith)
get_elem?-insert_child (suc i) a (x ∷ l) h = get_elem?-insert_child i a l (omega arith)

link_child-true :
    (ns : Namespace) (dir i a : ℕ) (n : NsNode)
    → link_child ns dir i a n true ≡ (some a, (link_child ns dir i a n true).1)
unfolding link_child
link_child-true ns dir i a n = refl

module _ (out : Outside) (ns : Namespace) (path : Name) (strcmp : IsStrcmp out.strcmp)
    (wf : IsWellFormed ns) where
  -- What a successful mkfile has done.
  pub record IsMade (s : Lookup) (a file_type acl : ℕ) (ns' : Namespace) : Type 0 where
    pub well_formed : IsWellFormed ns'
    pub name : (ns'.node a).name ≡ s.file_name_buf
    pub parent : (ns'.node a).parent ≡ s.lkup_node
    pub at_index : get_elem? ((ns'.node s.lkup_node).child) s.i ≡ some a
    pub others : remove_child s.i ((ns'.node s.lkup_node).child) ≡ (ns.node s.lkup_node).child
    pub elsewhere : (b : ℕ) → b ≢ a → b ≢ s.lkup_node → ns'.node b ≡ ns.node b

  link_child-IsMade :
      (s : Lookup) (a file_type acl : ℕ) (n : NsNode)
      → s.i ≤ length ((ns.node s.lkup_node).child)
      → a ≢ s.lkup_node
      → length ((ns.node s.lkup_node).child) + 1 < 2 ^ 31
      → n.name ≡ s.file_name_buf
      → n.parent ≡ s.lkup_node
      → n.child ≡ []
      → n.how_many_children ≡ 0
      → IsMade s a file_type acl (link_child ns s.lkup_node s.i a n true).1
  unfolding link_child
  link_child-IsMade s a file_type acl n index fresh room named up leaf none_yet = record {
    well_formed = record {
      counted = λ b. ground (arith, grown, wf.counted b, wf.counted s.lkup_node, leaf_length);
      small = λ b. ground (arith, grown, wf.small b, leaf_length);
    };
    name = ground arith;
    parent = ground arith;
    at_index = ground (arith, get_elem?-insert_child s.i a child index);
    others = ground (arith, remove_child-insert_child s.i a child index);
    elsewhere = λ b not_a not_dir. ground arith;
  }
    where
      child : List ℕ
      child = (ns.node s.lkup_node).child

      grown : length (insert_child s.i a child) ≡ suc (length child)
      grown = length-insert_child s.i a child index

      leaf_length : length n.child ≡ 0
      leaf_length = ap length leaf

  some-IsPlace : (s : Lookup) → get_ns_node out ns path ≡ some s → IsPlace out ns path s
  some-IsPlace s e = (get_ns_node-ReturnsIf out ns path strcmp wf).0 s e

  -- With a legal type and memory for the node, mkfile of a missing file comes down to its tail.
  mkfile-eq-link_child :
      (s : Lookup) (a file_type acl : ℕ) (room : Bool)
      → get_ns_node out ns path ≡ some s
      → s.ret ≡ 3
      → out.is_legal_file_type file_type ≡ true
      → mkfile out ns
          (record { new_file = some a; name_ok = true; realloc_ok = room })
          path
          file_type
          acl
        ≡ some (link_child ns s.lkup_node s.i a (new_node ns s file_type acl) room)
  unfolding mkfile
  mkfile-eq-link_child s a file_type acl room e missing legal = rw (legal, e, is_missing, is_named)
    where
      is_missing : (s.ret == 3) ≡ true
      is_missing = ground arith

      is_named : (length s.file_name_buf == 0) ≡ false
      is_named = ground (arith, (some-IsPlace s e).named missing)

  -- With a legal type and the memory for it, mkfile of a missing file makes a node with the name and
  -- links it at the index of the look-up; every other child and node stays, and so does
  -- well-formedness.
  pub mkfile-IsMade :
      (s : Lookup) (a file_type acl : ℕ)
      → get_ns_node out ns path ≡ some s
      → s.ret ≡ 3
      → a ≢ s.lkup_node
      → length ((ns.node s.lkup_node).child) + 1 < 2 ^ 31
      → out.is_legal_file_type file_type ≡ true
      → (ns' : Namespace) × (mkfile out ns
            (record { new_file = some a; name_ok = true; realloc_ok = true })
            path
            file_type
            acl
          ≡ some (some a, ns'))
        × IsMade s a file_type acl ns'
  mkfile-IsMade s a file_type acl e missing fresh room legal = (
    (link_child ns s.lkup_node s.i a n true).1,
    mkfile-eq-link_child s a file_type acl true e missing legal
        ∙ ap some (link_child-true ns s.lkup_node s.i a n),
    link_child-IsMade s a file_type acl n ((some-IsPlace s e).index missing) fresh room refl refl
        refl refl,
  )
    where
      n : NsNode
      n = new_node ns s file_type acl

  -- When the array of children cannot be made longer, mkfile fails and leaves a namespace that is
  -- not well-formed: the directory counts a child that it does not have.
  pub mkfile-realloc_failure :
      (s : Lookup) (a file_type acl : ℕ)
      → get_ns_node out ns path ≡ some s
      → s.ret ≡ 3
      → out.is_legal_file_type file_type ≡ true
      → (ns' : Namespace) × (mkfile out ns
            (record { new_file = some a; name_ok = true; realloc_ok = false })
            path
            file_type
            acl
          ≡ some (none, ns'))
        × ¬ IsWellFormed ns'
  unfolding link_child
  mkfile-realloc_failure s a file_type acl e missing legal = (
    _,
    mkfile-eq-link_child s a file_type acl false e missing legal,
    λ bad. ground (arith, bad.counted s.lkup_node, wf.counted s.lkup_node, wf.small s.lkup_node),
  )
