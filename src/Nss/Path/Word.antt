-- ===== src/Nss/Path/Word.antt =====
-- What get_ns_node of nss.c does with one word of a path on a well-formed namespace.
use somerubbish.Prelude.{
  ℕ, ◌-◌, ◌≤◌, ◌<◌, ◌≡◌, ◌≢◌, refl, ap, ◌∙◌, true, List, map, Option, none, some, arith, ◌==◌,
  if◌then◌else◌, length, take, drop, length-take, length-drop, length-map, ◌^◌, Returns, ReturnsIf,
  Returns-ReturnsIf, ReturnsIf-bind, ltb, get_elem?, ◌&&◌, ◌>>=◌, Bool-cases, inl, inr,
  get_elem?-some, min,
}
use somerubbish.Libc.{Name, IsStrcmp, is_zero}
use somerubbish.Nss.Node.{Namespace, Outside, null, deref}
use somerubbish.Nss.Search.Bounds.{search_children-bounds}
use somerubbish.Nss.Path.{
  Lookup, Round, next, op_over, cont, find_child, lookup_word, fbufsiz, enter_file, upper_dir_name,
}

-- Every count of children is that of the array, and fits half of a `u32`.
pub record IsWellFormed (ns : Namespace) : Type 0 where
  pub counted : (a : ℕ) → (ns.node a).how_many_children ≡ length ((ns.node a).child)
  pub small : (a : ℕ) → length ((ns.node a).child) < 2 ^ 31

-- No NULL is followed: the first node is set, a directory has a parent and its children, and the
-- pointers to a home directory and to a shared directory are set where a node leads to them.
pub record IsLinked (out : Outside) (ns : Namespace) : Type 0 where
  pub root : ns.cfs_root_dir ≢ null
  pub working : ns.current_working_dir ≢ null
  pub parent :
      (a : ℕ) → a ≢ null → out.is_dir_file (ns.node a).file_type ≡ true → (ns.node a).parent ≢ null
  pub child : (a i c : ℕ) → get_elem? (ns.node a).child i ≡ some c → c ≢ null
  pub home : (a : ℕ) → out.is_shared_dir (ns.node a).file_type ≡ true → ns.home_dir ≢ null
  pub shared : (a : ℕ) → out.is_shared_flag_set (ns.node a).file_type ≡ true → ns.shared_dir ≢ null

module _ (out : Outside) (ns : Namespace) (path : Name) where
  -- What a caller may rely on when the file is reported missing.
  pub record IsPlace (s : Lookup) : Type 0 where
    pub ret_le : s.ret ≤ 4
    pub dir : s.ret ≡ 3 → out.is_dir_file ((ns.node s.lkup_node).file_type) ≡ true
    pub index : s.ret ≡ 3 → s.i ≤ length ((ns.node s.lkup_node).child)
    pub named : s.ret ≡ 3 → 0 < length s.file_name_buf

  abbrev pub TailFits : Option ℕ → Type 0
  TailFits none = Unit
  TailFits (some t) = t ≤ length path

  -- Such a namespace, and a path whose names fit into the buffer.
  abbrev pub CanWalk : Type 0
  CanWalk = IsLinked out ns × (length path < fbufsiz)

  pub record Inv (s : Lookup) : Type 0 where
    pub place : IsPlace s
    pub alive : CanWalk → s.lkup_node ≢ null
    pub tail : TailFits s.fn_tail

  abbrev pub RoundInv : Round → Type 0
  RoundInv (next s) = Inv s
  RoundInv (op_over s) = IsPlace s

  module _ (strcmp : IsStrcmp out.strcmp) (wf : IsWellFormed ns) where
    pub deref-ReturnsIf :
        (a : ℕ) → (CanWalk → a ≢ null) → ReturnsIf CanWalk (λ n. n ≡ ns.node a) (deref ns a)
    deref-ReturnsIf a alive = elim (Bool-cases (a == null)) [
      | inl z ↦ rw z (λ n e. absurd cc, λ w. absurd (alive w (ground (arith, z))))
      | inr z ↦ rw z (
          Returns-ReturnsIf CanWalk (λ n. n ≡ ns.node a) (some (ns.node a)) (ns.node a, refl, refl))
    ]

    -- The node that a user's shared directory stands for.
    shared-alive :
        (a : ℕ)
        → a ≢ null
        → IsLinked out ns
        → (if out.is_dir_file (ns.node a).file_type && out.is_shared_flag_set (ns.node a).file_type
            then ns.shared_dir
            else a)
          ≢ null
    shared-alive a alive w e = ground (arith, alive, w.shared a)

    cont-Inv : (s : Lookup) → Inv s → ReturnsIf CanWalk Inv (cont out ns s)
    unfolding cont
    cont-Inv s v = elim (Bool-cases (s.ret == 3)) [
      | inl e ↦ rw e (Returns-ReturnsIf CanWalk Inv (some s) (s, refl, v))
      | inr e ↦ rw e (
          ReturnsIf-bind CanWalk (λ n. n ≡ ns.node s.lkup_node) Inv (deref ns s.lkup_node) _
            (deref-ReturnsIf s.lkup_node v.alive)
            (λ n same. Returns-ReturnsIf CanWalk Inv _ (
              _,
              refl,
              record {
                place = record {
                  ret_le = v.place.ret_le;
                  dir = λ h. ground arith;
                  index = λ h. ground arith;
                  named = λ h. ground arith;
                };
                alive = λ (w, short). rw same (shared-alive s.lkup_node (v.alive (w, short)) w);
                tail = tt;
              },
            )))
    ]

    find_child-Inv :
        (s : Lookup)
        → s.ret ≡ 0
        → 0 < length s.file_name_buf
        → TailFits s.fn_tail
        → (CanWalk → s.lkup_node ≢ null)
        → out.is_dir_file ((ns.node s.lkup_node).file_type) ≡ true
        → Returns Inv (find_child out ns (ns.node s.lkup_node) s)
    unfolding find_child
    find_child-Inv s r named t alive d = rw all (elim (Bool-cases (length names == 0)) [
      | inl e ↦ rw e (_, refl, missing 0 (omega arith))
      | inr e ↦
          let (k, found, inside, _) =
            search_children-bounds out.strcmp strcmp s.file_name_buf names (ground arith)
              (omega (arith, length-names, wf.small s.lkup_node)) in
          let (c, at) = get_elem?-some child k (omega (arith, length-names)) in
          rw (e, found, at)
            (elim (Bool-cases (is_zero (out.strcmp s.file_name_buf (ns.node c).name))) [
              | inl hit ↦ rw hit (_, refl, reached k c at)
              | inr miss ↦ rw miss (_, refl, missing k (omega (arith, length-names)))
            ])
    ])
      where
        child : List ℕ
        child = (ns.node s.lkup_node).child

        names : List Name
        names = map (λ a. (ns.node a).name) child

        length-names : length names ≡ length child
        length-names = length-map child (λ a. (ns.node a).name)

        all : (ns.node s.lkup_node).how_many_children ≡ length names
        all = omega (arith, wf.counted s.lkup_node, length-names)

        missing : (k : ℕ) → k ≤ length child → Inv (record s { i = k; ret = 3 })
        missing k h = record {
          place = record { ret_le = omega arith; dir = λ _. d; index = λ _. h; named = λ _. named };
          alive = alive;
          tail = t;
        }

        reached : (k c : ℕ) → get_elem? child k ≡ some c → Inv (record s { i = k; lkup_node = c })
        reached k c at = record {
          place = record {
            ret_le = omega arith;
            dir = λ h. absurd (omega arith);
            index = λ h. absurd (omega arith);
            named = λ h. absurd (omega arith);
          };
          alive = λ (w, short). w.child s.lkup_node k c at;
          tail = t;
        }

    -- A state whose `ret` is none of a missing file satisfies all that is asked.
    pub other-IsPlace : (s : Lookup) → s.ret ≤ 4 → s.ret ≢ 3 → IsPlace s
    other-IsPlace s h ne = record {
      ret_le = h;
      dir = λ e. absurd (ne e);
      index = λ e. absurd (ne e);
      named = λ e. absurd (ne e);
    }

    -- Where ".." leads from a directory.
    upper-alive :
        (a : ℕ)
        → a ≢ null
        → out.is_dir_file (ns.node a).file_type ≡ true
        → IsLinked out ns
        → (if out.is_shared_dir (ns.node a).file_type then ns.home_dir else (ns.node a).parent)
          ≢ null
    upper-alive a alive dir w e = ground (arith, w.home a, w.parent a alive dir)

    -- The two steps that end in `cont`.
    goes_on :
        (s : Lookup) → Inv s → ReturnsIf CanWalk RoundInv (cont out ns s >>= λ s2. some (next s2))
    goes_on s v =
        ReturnsIf-bind CanWalk Inv RoundInv (cont out ns s) _ (cont-Inv s v)
          (λ s2 v2. Returns-ReturnsIf CanWalk RoundInv (some (next s2)) (_, refl, v2))

    enter_file-Inv :
        (s : Lookup)
        → s.ret ≡ 0
        → 0 < length s.file_name_buf
        → TailFits s.fn_tail
        → (CanWalk → s.lkup_node ≢ null)
        → ReturnsIf CanWalk RoundInv (enter_file out ns (ns.node s.lkup_node) s)
    unfolding enter_file
    enter_file-Inv s r named tail alive =
        elim (Bool-cases (out.is_dir_file (ns.node s.lkup_node).file_type)) [
          | inr no_dir ↦ rw no_dir (
              Returns-ReturnsIf CanWalk RoundInv _
                (_, refl, other-IsPlace _ (omega arith) (omega arith)))
          | inl dir ↦
              rw dir (elim (Bool-cases (is_zero (out.strcmp s.file_name_buf upper_dir_name))) [
                | inl up ↦ rw up (
                    goes_on _ (record {
                      place = other-IsPlace _ (omega arith) (omega arith);
                      alive = λ (w, short). upper-alive s.lkup_node (alive (w, short)) dir w;
                      tail = tail;
                    }))
                | inr down ↦ rw down (
                    ReturnsIf-bind CanWalk Inv RoundInv (find_child out ns (ns.node s.lkup_node) s)
                      _ (Returns-ReturnsIf CanWalk Inv _ (find_child-Inv s r named tail alive dir))
                      goes_on)
              ])
        ]

    pub lookup_word-Inv :
        (s : Lookup) (h t : ℕ)
        → Inv s
        → h < t
        → t ≤ length path
        → ReturnsIf CanWalk RoundInv (lookup_word out ns path s h t)
    unfolding lookup_word
    lookup_word-Inv s h t v lt fits = elim (Bool-cases (s.ret == 3)) [
      | inl e ↦ rw e (
          Returns-ReturnsIf CanWalk RoundInv _
            (_, refl, other-IsPlace _ (omega arith) (omega arith)))
      | inr e ↦ rw e (elim (Bool-cases (ltb (t - h) fbufsiz)) [
        | inr long ↦ rw long (λ r q. absurd cc, λ (w, short). absurd (ground arith))
        | inl room ↦ rw room (
            ReturnsIf-bind CanWalk (λ n. n ≡ ns.node s.lkup_node) RoundInv (deref ns s.lkup_node) _
              (deref-ReturnsIf s.lkup_node v.alive)
              (λ n same.
                rw same (enter_file-Inv s1 refl (omega (arith, length-word)) v.tail v.alive)))
      ])
    ]
      where
        word : Name
        word = take (t - h) (drop h path)

        s1 : Lookup
        s1 = record s { ret = 0; i = t - h; file_name_buf = word }

        length-word : length word ≡ min (t - h) (length path - h)
        length-word = length-take (t - h) (drop h path) ∙ ap (min (t - h)) (length-drop h path)
