-- ===== src/Nss/Rbt/Way.antt =====
-- The way that get_node_by_key of nss.c goes down: its steps, and what stays true.
use somerubbish.Prelude.{
  ℕ, suc, max, ◌+◌, ◌≤◌, ◌<◌, ◌≡◌, refl, ap, sym, subst, ◌∙◌, List, [], ◌∷◌, ◌++◌, arith, Option,
  some, ltb, true, false, ◌⊎◌, inr, length,
}
use somerubbish.Nss.Rbt.{Color, red, black, Rbt, minus_one, key_loop}
use somerubbish.Nss.Rbt.Tree.{
  Tree, leaf, node, Frame, is_left, is_right, addr_of, plug, IsPlace, keys,
}
use somerubbish.Nss.Rbt.Write.{==_other}
use somerubbish.Nss.Rbt.Place.{down_left, down_right}
use somerubbish.Nss.Rbt.Balance.{color_of, IsRb, IsRbAbove}
use somerubbish.Nss.Rbt.Order.{
  insert_key, IsSorted, AllBelow, IsSorted-before, IsSorted-left, IsSorted-right, AllBelow-trans,
  insert_key-left, insert_key-right, insert_key_more,
}

abbrev pub depth : Tree → ℕ
depth leaf = 0
depth (node a k c l r) = suc (max (depth l) (depth r))

-- `*di` for a free place.
abbrev pub side_of : Frame → ℕ
side_of (is_left a k c r) = minus_one
side_of (is_right a k c l) = 1

-- What stays true on the way down.
pub record Way (h : Rbt) (whole : Tree) (key d : ℕ) (new : List ℕ) (fs : List Frame) (t : Tree)
    : Type 0 where
  pub place : IsPlace h fs t
  pub is_in : plug fs t ≡ whole
  pub deep : length fs + depth t ≤ d
  pub height : ℕ
  pub rb : IsRb height t
  pub rb_above : IsRbAbove height (color_of t) fs
  pub sorted : IsSorted (keys t)
  pub fits : (s : Tree) → keys s ≡ insert_key key (keys t) → keys (plug fs s) ≡ new

-- The key is at the node that is found: `new` are the keys after an insertion.
pub record Hit (h : Rbt) (whole : Tree) (key d : ℕ) (new : List ℕ) (o : Option (ℕ × ℕ))
    : Type 0 where
  pub at_node : ℕ
  pub frames : List Frame
  pub its_key : ℕ
  pub color : Color
  pub left : Tree
  pub right : Tree
  pub way : Way h whole key d new frames (node at_node its_key color left right)
  pub same_key : key ≡ its_key
  pub not_nil : 0 < at_node
  pub key_there : (h.at at_node).i ≡ key
  pub found : o ≡ some (at_node, 0)
  pub known : new ≡ keys whole

-- There is a free place for it below the node that is found.
pub record Miss (h : Rbt) (whole : Tree) (key d : ℕ) (new : List ℕ) (o : Option (ℕ × ℕ))
    : Type 0 where
  pub frame : Frame
  pub frames : List Frame
  pub free : IsPlace h (frame ∷ frames) leaf
  pub is_in : plug (frame ∷ frames) leaf ≡ whole
  pub found : o ≡ some (addr_of frame, side_of frame)
  pub near : length (frame ∷ frames) ≤ d
  pub rb : IsRbAbove 0 black (frame ∷ frames)
  pub fits : (t : Tree) → keys t ≡ key ∷ [] → keys (plug (frame ∷ frames) t) ≡ new

-- Balance, one node down.
pub down_left-IsRb :
    (n : ℕ) (fs : List Frame) (a k : ℕ) (c : Color) (l r : Tree)
    → IsRb n (node a k c l r)
    → IsRbAbove n c fs
    → (m : ℕ) × IsRb m l × IsRbAbove m (color_of l) (is_left a k c r ∷ fs)
down_left-IsRb n fs a k red l r (el, er, vl, vr) w = (n, vl, (el, er, vr, w))
down_left-IsRb n fs a k black l r (m, e, vl, vr) w =
    (m, vl, (vr, subst (λ n. IsRbAbove n black fs) e w))

pub down_right-IsRb :
    (n : ℕ) (fs : List Frame) (a k : ℕ) (c : Color) (l r : Tree)
    → IsRb n (node a k c l r)
    → IsRbAbove n c fs
    → (m : ℕ) × IsRb m r × IsRbAbove m (color_of r) (is_right a k c l ∷ fs)
down_right-IsRb n fs a k red l r (el, er, vl, vr) w = (n, vr, (er, el, vl, w))
down_right-IsRb n fs a k black l r (m, e, vl, vr) w =
    (m, vr, (vl, subst (λ n. IsRbAbove n black fs) e w))

-- The steps of the loop.
module _ (fuel : ℕ) (h : Rbt) (key a k l r : ℕ) (ek : (h.at a).i ≡ k) where
  pub loop_left :
      key < k → (h.at a).l ≡ l → 0 < l → key_loop (suc fuel) h key a ≡ key_loop fuel h key l
  unfolding key_loop
  loop_left lt e pos =
      let less : ltb key k ≡ true = ground arith in
      rw (ek, less, e, ==_other {a = l} {b = 0} (λ e. omega arith)) refl

  pub end_left : key < k → (h.at a).l ≡ 0 → key_loop (suc fuel) h key a ≡ some (a, minus_one)
  unfolding key_loop
  end_left lt e = let less : ltb key k ≡ true = ground arith in rw (ek, less, e) refl

  pub loop_right :
      k < key → (h.at a).r ≡ r → 0 < r → key_loop (suc fuel) h key a ≡ key_loop fuel h key r
  unfolding key_loop
  loop_right lt e pos =
      let less : ltb key k ≡ false = ground arith in
      let more : ltb k key ≡ true = ground arith in
      rw (ek, less, more, e, ==_other {a = r} {b = 0} (λ e. omega arith)) refl

  pub end_right : k < key → (h.at a).r ≡ 0 → key_loop (suc fuel) h key a ≡ some (a, 1)
  unfolding key_loop
  end_right lt e =
      let less : ltb key k ≡ false = ground arith in
      let more : ltb k key ≡ true = ground arith in rw (ek, less, more, e) refl

  pub end_here : key ≡ k → key_loop (suc fuel) h key a ≡ some (a, 0)
  unfolding key_loop
  end_here e =
      let less : ltb key k ≡ false = ground arith in
      let more : ltb k key ≡ false = ground arith in rw (ek, less, more) refl

abbrev pub Located :
    (h : Rbt) (whole : Tree) (key d : ℕ) (new : List ℕ) (o : Option (ℕ × ℕ)) → Type 0
Located h whole key d new o = Hit h whole key d new o ⊎ Miss h whole key d new o

pub go_left :
    (h : Rbt) (whole : Tree) (key d : ℕ) (new : List ℕ) (fs : List Frame) (a k : ℕ) (c : Color)
    (l r : Tree)
    → key < k
    → Way h whole key d new fs (node a k c l r)
    → Way h whole key d new (is_left a k c r ∷ fs) l
go_left h whole key d new fs a k c l r lt v =
    let (m, rb, above) = down_left-IsRb v.height fs a k c l r v.rb v.rb_above in
    record {
      place = down_left _ _ _ _ _ _ _ v.place;
      is_in = v.is_in;
      deep = let w = v.deep in omega arith;
      height = m;
      rb = rb;
      rb_above = above;
      sorted = IsSorted-left (keys l) (k ∷ keys r) v.sorted;
      fits = λ s e.
          v.fits (node a k c s r)
            (ap (λ ks. ks ++ k ∷ keys r) e ∙ sym (insert_key-left key k (keys l) (keys r) lt));
    }

insert_beyond :
    (key k : ℕ) (xs ys : List ℕ)
    → k < key
    → AllBelow k xs
    → insert_key key (xs ++ k ∷ ys) ≡ xs ++ k ∷ insert_key key ys
insert_beyond key k xs ys lt v =
    insert_key-right key xs (k ∷ ys) (AllBelow-trans k key xs lt v)
    ∙ ap (λ ks. xs ++ ks) (insert_key_more key k ys lt)

pub go_right :
    (h : Rbt) (whole : Tree) (key d : ℕ) (new : List ℕ) (fs : List Frame) (a k : ℕ) (c : Color)
    (l r : Tree)
    → k < key
    → Way h whole key d new fs (node a k c l r)
    → Way h whole key d new (is_right a k c l ∷ fs) r
go_right h whole key d new fs a k c l r lt v =
    let (m, rb, above) = down_right-IsRb v.height fs a k c l r v.rb v.rb_above in
    record {
      place = down_right _ _ _ _ _ _ _ v.place;
      is_in = v.is_in;
      deep = let w = v.deep in omega arith;
      height = m;
      rb = rb;
      rb_above = above;
      sorted = IsSorted-right (keys l) k (keys r) v.sorted;
      fits = λ s e. v.fits (node a k c l s) (
          ap (λ ks. keys l ++ k ∷ ks) e
          ∙ sym (
              insert_beyond key k (keys l) (keys r) lt
                (IsSorted-before (keys l) k (keys r) v.sorted)));
    }

pub missed :
    {o : Option (ℕ × ℕ)} (h : Rbt) (whole : Tree) (key d : ℕ) (new : List ℕ) (f : Frame)
    (fs : List Frame)
    → Way h whole key d new (f ∷ fs) leaf
    → o ≡ some (addr_of f, side_of f)
    → Located h whole key d new o
missed h whole key d new f fs v e = inr record {
  frame = f;
  frames = fs;
  free = v.place;
  is_in = v.is_in;
  found = e;
  near = let w = v.deep in omega arith;
  rb = subst (λ n. IsRbAbove n black (f ∷ fs)) v.rb v.rb_above;
  fits = v.fits;
}
