-- ===== src/Nss/Rbt/Delete/Remove.antt =====
-- What rb_delete of nss.c is for: a sorted list of keys, with removal.
use somerubbish.Prelude.{
  ℕ, ◌≡◌, ◌≢◌, refl, ap, ◌∙◌, List, [], ◌∷◌, ◌++◌, arith, ◌==◌, if◌then◌else◌, inl, inr,
}
use somerubbish.Nss.Rbt.Write.{==_self, ==_other}
use somerubbish.Nss.Rbt.Order.{AllAbove, AllBelow, IsSorted}
use somerubbish.Nss.Rbt.Found.{IsIn}

-- The list without the key, which it has at most once.
abbrev pub remove_key : ℕ → List ℕ → List ℕ
remove_key key [] = []
remove_key key (x ∷ xs) = let rest = remove_key key xs in if x == key then xs else x ∷ rest

pub remove_key_other :
    (key x : ℕ) (xs : List ℕ) → x ≢ key → remove_key key (x ∷ xs) ≡ x ∷ remove_key key xs
remove_key_other key x xs n = rw (==_other n) refl

pub remove_key-append :
    (key : ℕ) (xs ys : List ℕ) → AllBelow key xs → remove_key key (xs ++ key ∷ ys) ≡ xs ++ ys
remove_key-append key [] ys v = rw (==_self key) refl
remove_key-append key (x ∷ xs) ys (lt, v) =
    remove_key_other key x (xs ++ key ∷ ys) (λ e. omega arith)
    ∙ ap (λ q. x ∷ q) (remove_key-append key xs ys v)

pub remove_key_absent : (key : ℕ) (xs : List ℕ) → (IsIn key xs → ⊥) → remove_key key xs ≡ xs
remove_key_absent key [] out = refl
remove_key_absent key (x ∷ xs) out =
    remove_key_other key x xs (λ e. out (inl e))
    ∙ ap (λ q. x ∷ q) (remove_key_absent key xs (λ i. out (inr i)))

AllAbove-remove :
    (x : ℕ) (xs : List ℕ) (k : ℕ) (ys : List ℕ) → AllAbove x (xs ++ k ∷ ys) → AllAbove x (xs ++ ys)
AllAbove-remove x [] k ys (lt, v) = v
AllAbove-remove x (y ∷ xs) k ys (lt, v) = (lt, AllAbove-remove x xs k ys v)

pub IsSorted-remove :
    (xs : List ℕ) (k : ℕ) (ys : List ℕ) → IsSorted (xs ++ k ∷ ys) → IsSorted (xs ++ ys)
IsSorted-remove [] k ys (a, v) = v
IsSorted-remove (x ∷ xs) k ys (a, v) = (AllAbove-remove x xs k ys a, IsSorted-remove xs k ys v)

pub IsIn-append : (xs : List ℕ) (k : ℕ) (ys : List ℕ) → IsIn k (xs ++ k ∷ ys)
IsIn-append [] k ys = inl refl
IsIn-append (x ∷ xs) k ys = inr (IsIn-append xs k ys)
