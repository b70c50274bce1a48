-- ===== src/Nss/Path/Total.antt =====
-- What get_ns_node of nss.c returns on a well-formed namespace, what mkfile needs of it, and when it
-- returns.
use somerubbish.Prelude.{
  ℕ, zero, suc, ◌+◌, ◌≤◌, ◌<◌, ◌≡◌, ◌≢◌, refl, Bool, true, false, Option, none, some, arith,
  if◌then◌else◌, length, Returns, ReturnsIf, Returns-ReturnsIf, ReturnsIf-bind,
}
use somerubbish.Libc.{Name, IsStrcmp}
use somerubbish.Nss.Node.{Namespace, Outside, null, deref}
use somerubbish.Nss.Path.{
  Lookup, next, op_over, enter_word, leave_word, word_of, lookup_word, fbufsiz, round, path_loop,
  get_ns_node, start,
}
use somerubbish.Nss.Path.Word.{
  IsWellFormed, IsLinked, IsPlace, TailFits, CanWalk, Inv, RoundInv, deref-ReturnsIf, other-IsPlace,
  lookup_word-Inv,
}

module _ (out : Outside) (ns : Namespace) (path : Name) (strcmp : IsStrcmp out.strcmp)
    (wf : IsWellFormed ns) where
  if-Inv :
      (b : Bool) (x y : Lookup)
      → Inv out ns path x
      → Inv out ns path y
      → Inv out ns path (if b then x else y)
  if-Inv true x y vx vy = vx
  if-Inv false x y vx vy = vy

  -- The place and the tail alone matter.
  keep-IsPlace :
      (s : Lookup) (w : Bool) (h t : Option ℕ)
      → (IsPlace out ns path) s
      → (IsPlace out ns path) (record s { inword = w; fn_head = h; fn_tail = t })
  keep-IsPlace s w h t v = record {
    ret_le = v.ret_le;
    dir = v.dir;
    index = v.index;
    named = v.named;
  }

  enter_word-Inv : (p : ℕ) (s : Lookup) → Inv out ns path s → Inv out ns path (enter_word path p s)
  unfolding enter_word
  enter_word-Inv p s v =
      if-Inv _ _ s
        (record {
          place = keep-IsPlace s true (some p) s.fn_tail v.place;
          alive = v.alive;
          tail = v.tail;
        })
        v

  leave_word-Inv :
      (p : ℕ) (s : Lookup)
      → p ≤ length path
      → Inv out ns path s
      → Inv out ns path (leave_word path p s)
  unfolding leave_word
  leave_word-Inv p s h v =
      if-Inv _ _ s
        (record {
          place = keep-IsPlace s false s.fn_head (some p) v.place;
          alive = v.alive;
          tail = h;
        })
        v

  word_of-fits :
      (fh ft : Option ℕ) (h t : ℕ)
      → word_of fh ft ≡ some (h, t)
      → TailFits out ns path ft
      → (h < t) × (t ≤ length path)
  unfolding word_of
  word_of-fits none ft h t e v = absurd cc
  word_of-fits (some a) none h t e v = absurd cc
  word_of-fits (some a) (some b) h t e v = ground arith

  round-Inv :
      (p : ℕ) (s : Lookup)
      → p ≤ length path
      → Inv out ns path s
      → ReturnsIf (CanWalk out ns path) (RoundInv out ns path) (round out ns path p s)
  unfolding round
  round-Inv p s0 h v0 = go (word_of s.fn_head s.fn_tail) refl
    where
      s : Lookup
      s = leave_word path p (enter_word path p s0)

      v : Inv out ns path s
      v = leave_word-Inv p (enter_word path p s0) h (enter_word-Inv p s0 v0)

      go :
          (w : Option (ℕ × ℕ))
          → word_of s.fn_head s.fn_tail ≡ w
          → ReturnsIf
              (CanWalk out ns path)
              (RoundInv out ns path)
              (elim w [ none ↦ some (next s) | some (h, t) ↦ lookup_word out ns path s h t ])
      go none e = Returns-ReturnsIf (CanWalk out ns path) (RoundInv out ns path) _ (next s, refl, v)
      go (some (a, b)) e =
          let fits = word_of-fits s.fn_head s.fn_tail a b e v.tail in
          lookup_word-Inv out ns path strcmp wf s a b v fits.0 fits.1

  path_loop-IsPlace :
      (k p : ℕ) (s : Lookup)
      → p + k ≡ suc (length path)
      → Inv out ns path s
      → ReturnsIf (CanWalk out ns path) (IsPlace out ns path) (path_loop out ns path k p s)
  unfolding path_loop
  path_loop-IsPlace zero p s e v =
      Returns-ReturnsIf (CanWalk out ns path) (IsPlace out ns path) (some s) (s, refl, v.place)
  path_loop-IsPlace (suc k) p s e v =
      ReturnsIf-bind (CanWalk out ns path) (RoundInv out ns path) (IsPlace out ns path)
        (round out ns path p s) _ (round-Inv p s (omega arith) v)
        (elim [
          | next s' ↦ λ v'. path_loop-IsPlace k (p + 1) s' (omega arith) v'
          | op_over s' ↦ λ v'.
              Returns-ReturnsIf (CanWalk out ns path) (IsPlace out ns path) (some s') (s', refl, v')
        ])

  start-alive : CanWalk out ns path → (start out ns path).lkup_node ≢ null
  unfolding start
  start-alive (w, short) e = ground (arith, w.root, w.working)

  -- What the walk returns is such a place, and it returns where it can walk.
  pub get_ns_node-ReturnsIf :
      ReturnsIf (CanWalk out ns path) (IsPlace out ns path) (get_ns_node out ns path)
  unfolding get_ns_node start
  get_ns_node-ReturnsIf =
      ReturnsIf-bind (CanWalk out ns path) (λ n. n ≡ ns.node (start out ns path).lkup_node)
        (IsPlace out ns path) (deref ns (start out ns path).lkup_node) _
        (deref-ReturnsIf out ns path strcmp wf (start out ns path).lkup_node start-alive)
        (λ n same.
          path_loop-IsPlace (suc (length path)) 0 (start out ns path) (omega arith) (record {
            place =
                other-IsPlace out ns path strcmp wf (start out ns path) (omega arith) (omega arith);
            alive = start-alive;
            tail = tt;
          }))

  -- In a well-formed namespace in which no NULL can be followed, and with a path of less than 260
  -- bytes, the walk ends without a read outside an array, a NULL followed or a write behind the
  -- buffer. Its status is at most 4; with the status 3 the node is a directory, the index a place
  -- among its children or at their end, and the name is not empty.
  pub get_ns_node-IsPlace :
      IsLinked out ns
      → length path < fbufsiz
      → Returns (IsPlace out ns path) (get_ns_node out ns path)
  get_ns_node-IsPlace w short = get_ns_node-ReturnsIf.1 (w, short)
