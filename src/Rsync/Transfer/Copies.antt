-- ===== src/Rsync/Transfer/Copies.antt =====
-- Read of rsync/rsync_utility.c, and copies into an array.
use somerubbish.Prelude.{
  ℕ, zero, suc, ◌+◌, ◌-◌, ◌≤◌, ◌<◌, ◌≡◌, refl, ap, ap₂, sym, ◌∙◌, List, [], ◌∷◌, ◌++◌, some, ◌==◌,
  true, false, length, length-append, length-drop, take, drop, append_assoc, append-nil, arith,
}
use somerubbish.Rsync.Transfer.{Outside, IsOutside, read_loop, read}

pub take-append : (n : ℕ) (xs ys : List ℕ) → length xs ≡ n → take n (xs ++ ys) ≡ xs
take-append zero [] ys e = refl
take-append zero (x ∷ xs) ys e = absurd (omega arith)
take-append (suc n) [] ys e = absurd (omega arith)
take-append (suc n) (x ∷ xs) ys e = ap (λ q. x ∷ q) (take-append n xs ys (omega arith))

pub drop-append : (n : ℕ) (xs ys : List ℕ) → length xs ≡ n → drop n (xs ++ ys) ≡ ys
drop-append zero [] ys e = refl
drop-append zero (x ∷ xs) ys e = absurd (omega arith)
drop-append (suc n) [] ys e = absurd (omega arith)
drop-append (suc n) (x ∷ xs) ys e = drop-append n xs ys (omega arith)

pub drop-all : (n : ℕ) (xs : List ℕ) → length xs ≤ n → drop n xs ≡ []
drop-all zero [] le = refl
drop-all zero (x ∷ xs) le = absurd (omega arith)
drop-all (suc n) [] le = refl
drop-all (suc n) (x ∷ xs) le = drop-all n xs (omega arith)

take-take : (i j : ℕ) (xs : List ℕ) → take i xs ++ take j (drop i xs) ≡ take (i + j) xs
take-take zero j xs = let e : 0 + j ≡ j = omega arith in ap (λ n. take n xs) (sym e)
take-take (suc i) zero [] = let e : suc i + 0 ≡ suc i = omega arith in ap (λ n. take n []) (sym e)
take-take (suc i) (suc j) [] =
    let e : suc i + suc j ≡ suc (i + suc j) = omega arith in ap (λ n. take n []) (sym e)
take-take (suc i) j (x ∷ xs) =
    let e : suc i + j ≡ suc (i + j) = omega arith in
    ap (λ q. x ∷ q) (take-take i j xs) ∙ ap (λ n. take n (x ∷ xs)) (sym e)

drop-drop : (i j : ℕ) (xs : List ℕ) → drop j (drop i xs) ≡ drop (i + j) xs
drop-drop zero j xs = let e : 0 + j ≡ j = omega arith in ap (λ n. drop n xs) (sym e)
drop-drop (suc i) zero [] = let e : suc i + 0 ≡ suc i = omega arith in ap (λ n. drop n []) (sym e)
drop-drop (suc i) (suc j) [] =
    let e : suc i + suc j ≡ suc (i + suc j) = omega arith in ap (λ n. drop n []) (sym e)
drop-drop (suc i) j (x ∷ xs) =
    let e : suc i + j ≡ suc (i + j) = omega arith in
    drop-drop i j xs ∙ ap (λ n. drop n (x ∷ xs)) (sym e)

module _ (o : Outside) (law : IsOutside o) where
  read_loop-takes :
      (fuel count n m : ℕ) (got from : List ℕ)
      → n + m ≡ count
      → m ≤ length from
      → m < fuel
      → read_loop fuel o count n got from ≡ some (got ++ take m from, drop m from)
  unfolding read_loop
  read_loop-takes zero count n m got from e le lt = absurd (omega arith)
  read_loop-takes (suc fuel) count n zero got from e le lt =
      let over : (n == count) ≡ true = ground arith in
      rw over (ap (λ q. some (q, from)) (sym (append-nil got)))
  read_loop-takes (suc fuel) count n (suc m) got from e le lt =
      let goes : (n == count) ≡ false = ground arith in
      let i = o.give (count - n) (length from) in
      let pos = law.gives (count - n) (length from) (omega arith) (omega arith) in
      let (most, room) = law.at_most (count - n) (length from) in
      let len = length-drop i from in
      let rest : i + (suc m - i) ≡ suc m = omega arith in
      rw goes (
        read_loop-takes fuel count (n + i) (suc m - i) (got ++ take i from) (drop i from)
          (omega arith) (omega arith) (omega arith)
        ∙ ap₂ (λ a b. some (a, b))
            (append_assoc got (take i from) (take (suc m - i) (drop i from))
              ∙ ap (λ q. got ++ q) (take-take i (suc m - i) from ∙ ap (λ n. take n from) rest))
            (drop-drop i (suc m - i) from ∙ ap (λ n. drop n from) rest))

  -- Read of bytes that are there ends with them, whatever the calls of read give.
  pub read-takes :
      (count : ℕ) (from : List ℕ)
      → count ≤ length from
      → read o count from ≡ some (take count from, drop count from)
  unfolding read
  read-takes count from le =
      read_loop-takes (suc count) count 0 count [] from (omega arith) le (omega arith)

  pub read-append :
      (count : ℕ) (xs ys : List ℕ) → length xs ≡ count → read o count (xs ++ ys) ≡ some (xs, ys)
  read-append count xs ys e =
      let len = length-append xs ys in
      read-takes count (xs ++ ys) (omega arith)
      ∙ ap₂ (λ a b. some (a, b)) (take-append count xs ys e) (drop-append count xs ys e)
