-- ===== src/Kmp/Match.antt =====
-- Beginnings of lists, by their elements: what kmp.c compares.
use somerubbish.Prelude.{
  ℕ, zero, suc, ◌+◌, ◌<◌, ◌≡◌, refl, ap, ap₂, sym, ◌∙◌, List, [], ◌∷◌, arith, Option, some, none,
  take, drop, get_elem?,
}

get_elem?-take : (xs : List ℕ) (j i : ℕ) → i < j → get_elem? (take j xs) i ≡ get_elem? xs i
get_elem?-take xs zero i lt = absurd (omega arith)
get_elem?-take [] (suc j) i lt = refl
get_elem?-take (x ∷ xs) (suc j) zero lt = refl
get_elem?-take (x ∷ xs) (suc j) (suc i) lt = get_elem?-take xs j i (omega arith)

pub take-get_elem? :
    (xs ys : List ℕ) (j i : ℕ) → take j xs ≡ take j ys → i < j → get_elem? xs i ≡ get_elem? ys i
take-get_elem? xs ys j i e lt =
    sym (get_elem?-take xs j i lt) ∙ ap (λ q. get_elem? q i) e ∙ get_elem?-take ys j i lt

value : Option ℕ → ℕ
value none = 0
value (some a) = a

pub get_elem?-take_eq :
    (xs ys : List ℕ) (j : ℕ)
    → ((i : ℕ) → i < j → get_elem? xs i ≡ get_elem? ys i)
    → take j xs ≡ take j ys
unfolding value
get_elem?-take_eq xs ys zero e = refl
get_elem?-take_eq [] [] (suc j) e = refl
get_elem?-take_eq [] (y ∷ ys) (suc j) e = let q = e 0 (omega arith) in absurd cc
get_elem?-take_eq (x ∷ xs) [] (suc j) e = let q = e 0 (omega arith) in absurd cc
get_elem?-take_eq (x ∷ xs) (y ∷ ys) (suc j) e =
    ap₂ (λ z zs. z ∷ zs) (ap value (e 0 (omega arith)))
      (get_elem?-take_eq xs ys j (λ i lt. e (suc i) (omega arith)))

pub get_elem?-drop : (xs : List ℕ) (k i : ℕ) → get_elem? (drop k xs) i ≡ get_elem? xs (k + i)
get_elem?-drop xs zero i = ap (get_elem? xs) (omega arith)
get_elem?-drop [] (suc k) i = refl
get_elem?-drop (x ∷ xs) (suc k) i =
    let e : suc (k + i) ≡ suc k + i = omega arith in
    get_elem?-drop xs k i ∙ ap (get_elem? (x ∷ xs)) e
