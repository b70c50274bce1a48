-- ===== src/Nss/Rbt/Order.antt =====
-- What the red-black tree of nss.c is for: a sorted list of keys, with insertion.
use somerubbish.Prelude.{
  ℕ, ◌<◌, ◌≡◌, refl, ap, sym, subst, ◌∙◌, ◌⊎◌, List, [], ◌∷◌, ◌++◌, arith, ltb, if◌then◌else◌, true,
  false, inl, inr,
}

-- A key that is there is not inserted again.
abbrev pub insert_key : ℕ → List ℕ → List ℕ
insert_key key [] = key ∷ []
insert_key key (x ∷ xs) =
    let rest = insert_key key xs in
    if ltb key x then key ∷ x ∷ xs else if ltb x key then x ∷ rest else x ∷ xs

abbrev pub AllAbove : ℕ → List ℕ → Type 0
AllAbove x [] = Unit
AllAbove x (y ∷ ys) = (x < y) × AllAbove x ys

abbrev pub AllBelow : ℕ → List ℕ → Type 0
AllBelow x [] = Unit
AllBelow x (y ∷ ys) = (y < x) × AllBelow x ys

abbrev pub IsSorted : List ℕ → Type 0
IsSorted [] = Unit
IsSorted (x ∷ xs) = AllAbove x xs × IsSorted xs

AllAbove-before : (x : ℕ) (xs : List ℕ) (k : ℕ) (ys : List ℕ) → AllAbove x (xs ++ k ∷ ys) → x < k
AllAbove-before x [] k ys (lt, v) = lt
AllAbove-before x (y ∷ xs) k ys (lt, v) = AllAbove-before x xs k ys v

AllAbove-left : (x : ℕ) (xs ys : List ℕ) → AllAbove x (xs ++ ys) → AllAbove x xs
AllAbove-left x [] ys v = tt
AllAbove-left x (y ∷ xs) ys (lt, v) = (lt, AllAbove-left x xs ys v)

pub IsSorted-before : (xs : List ℕ) (k : ℕ) (ys : List ℕ) → IsSorted (xs ++ k ∷ ys) → AllBelow k xs
IsSorted-before [] k ys v = tt
IsSorted-before (x ∷ xs) k ys (a, v) = (AllAbove-before x xs k ys a, IsSorted-before xs k ys v)

pub IsSorted-left : (xs ys : List ℕ) → IsSorted (xs ++ ys) → IsSorted xs
IsSorted-left [] ys v = tt
IsSorted-left (x ∷ xs) ys (a, v) = (AllAbove-left x xs ys a, IsSorted-left xs ys v)

pub IsSorted-right : (xs : List ℕ) (k : ℕ) (ys : List ℕ) → IsSorted (xs ++ k ∷ ys) → IsSorted ys
IsSorted-right [] k ys (a, v) = v
IsSorted-right (x ∷ xs) k ys (a, v) = IsSorted-right xs k ys v

-- The three ways of a comparison, on an insertion.
pub insert_key_less : (key x : ℕ) (xs : List ℕ) → key < x → insert_key key (x ∷ xs) ≡ key ∷ x ∷ xs
insert_key_less key x xs lt = let e : ltb key x ≡ true = ground arith in rw e refl

pub insert_key_more :
    (key x : ℕ) (xs : List ℕ) → x < key → insert_key key (x ∷ xs) ≡ x ∷ insert_key key xs
insert_key_more key x xs lt =
    let e : ltb key x ≡ false = ground arith in
    let e' : ltb x key ≡ true = ground arith in rw (e, e') refl

pub insert_key_same : (key : ℕ) (xs : List ℕ) → insert_key key (key ∷ xs) ≡ key ∷ xs
insert_key_same key xs = let e : ltb key key ≡ false = ground arith in rw e refl

pub compare_keys : (a b : ℕ) → (a < b) ⊎ ((b < a) ⊎ (a ≡ b))
compare_keys a b = omega arith

pub insert_key-left :
    (key k : ℕ) (xs ys : List ℕ)
    → key < k
    → insert_key key (xs ++ k ∷ ys) ≡ insert_key key xs ++ k ∷ ys
insert_key-left key k [] ys lt = insert_key_less key k ys lt
insert_key-left key k (x ∷ xs) ys lt = elim (compare_keys key x) [
  | inl l ↦
      insert_key_less key x (xs ++ k ∷ ys) l
      ∙ ap (λ ks. ks ++ k ∷ ys) (sym (insert_key_less key x xs l))
  | inr (inl g) ↦
      insert_key_more key x (xs ++ k ∷ ys) g
      ∙ ap (λ ks. x ∷ ks) (insert_key-left key k xs ys lt)
      ∙ ap (λ ks. ks ++ k ∷ ys) (sym (insert_key_more key x xs g))
  | inr (inr e) ↦
      subst (λ y. insert_key key (y ∷ xs ++ k ∷ ys) ≡ insert_key key (y ∷ xs) ++ k ∷ ys) e
        (insert_key_same key (xs ++ k ∷ ys)
          ∙ ap (λ ks. ks ++ k ∷ ys) (sym (insert_key_same key xs)))
]

pub insert_key-right :
    (key : ℕ) (xs ys : List ℕ)
    → AllBelow key xs
    → insert_key key (xs ++ ys) ≡ xs ++ insert_key key ys
insert_key-right key [] ys v = refl
insert_key-right key (x ∷ xs) ys (lt, v) =
    insert_key_more key x (xs ++ ys) lt ∙ ap (λ ks. x ∷ ks) (insert_key-right key xs ys v)

pub AllBelow-trans : (k key : ℕ) (xs : List ℕ) → k < key → AllBelow k xs → AllBelow key xs
AllBelow-trans k key [] lt v = tt
AllBelow-trans k key (x ∷ xs) lt (a, v) = (omega arith, AllBelow-trans k key xs lt v)

AllAbove-trans : (x key : ℕ) (xs : List ℕ) → key < x → AllAbove x xs → AllAbove key xs
AllAbove-trans x key [] lt v = tt
AllAbove-trans x key (y ∷ xs) lt (a, v) = (omega arith, AllAbove-trans x key xs lt v)

insert_key-AllAbove :
    (x key : ℕ) (xs : List ℕ) → x < key → AllAbove x xs → AllAbove x (insert_key key xs)
insert_key-AllAbove x key [] lt v = (lt, tt)
insert_key-AllAbove x key (y ∷ xs) lt (a, v) = elim (compare_keys key y) [
  | inl l ↦ subst (AllAbove x) (sym (insert_key_less key y xs l)) (lt, (a, v))
  | inr (inl g) ↦
      subst (AllAbove x) (sym (insert_key_more key y xs g)) (a, insert_key-AllAbove x key xs lt v)
  | inr (inr e) ↦
      subst (λ y. (x < y) → AllAbove x (insert_key key (y ∷ xs))) e
        (λ a. subst (AllAbove x) (sym (insert_key_same key xs)) (a, v)) a
]

-- An insertion keeps the list sorted.
pub insert_key-IsSorted : (key : ℕ) (xs : List ℕ) → IsSorted xs → IsSorted (insert_key key xs)
insert_key-IsSorted key [] v = (tt, tt)
insert_key-IsSorted key (x ∷ xs) (a, v) = elim (compare_keys key x) [
  | inl l ↦
      subst IsSorted (sym (insert_key_less key x xs l)) ((l, AllAbove-trans x key xs l a), (a, v))
  | inr (inl g) ↦
      subst IsSorted (sym (insert_key_more key x xs g))
        (insert_key-AllAbove x key xs g a, insert_key-IsSorted key xs v)
  | inr (inr e) ↦
      subst (λ y. AllAbove y xs → IsSorted (insert_key key (y ∷ xs))) e
        (λ a. subst IsSorted (sym (insert_key_same key xs)) (a, v)) a
]
