-- ===== src/Locks/Server/Counts.antt =====
-- An entry of the lock server that is asked for, and put back.
use somerubbish.Prelude.{
  ◌>>=◌, ℕ, zero, suc, ◌+◌, ◌<◌, ◌≡◌, ◌↔◌, refl, ap, sym, ◌∙◌, Bool, true, false, List, [], ◌∷◌,
  Option, none, some, ◌==◌, if◌then◌else◌, set, length, get_or, arith, get_or-set_self, Bool-cases,
  inl, inr, drop,
}
use somerubbish.Libc.{Name}
use somerubbish.Locks.Table.{ZzMutex, Table, hash_func, find, adjust, find_in, adjust_in, chain_of}
use somerubbish.Locks.Table.Find.{
  KeepsName, IsTable, find_in-adjust_in, adjust_in-IsTable, push-IsTable, find_in-push, same_self,
  hash_func-lt,
}
use somerubbish.Locks.Server.{
  OpType, is_locking, allocated, count_up, count_down, new_mutex, adjust_from, alloc_zz_mutex,
  get_zz_mutex, put_zz_mutex,
}

-- The old value put back.
set-restore {ℓ} :
    {A : Type ℓ}
    → (xs : List A) (i : ℕ) (x d : A) → i < length xs
    → set (set xs i x) i (get_or xs i d) ≡ xs
set-restore [] i x d lt = absurd (omega arith)
set-restore (y ∷ xs) zero x d lt = refl
set-restore (y ∷ xs) (suc i) x d lt = ap (◌∷◌ y) (set-restore xs i x d (omega arith))

count_up-KeepsName : KeepsName count_up
unfolding count_up
count_up-KeepsName = record { name = λ x y e. ground (arith, e) }

-- The entry after one more request.
abbrev pub counted : Name → Option ZzMutex → ZzMutex
counted n none = new_mutex n
counted n (some x) = record x { count = x.count + 1 }

module _ (same : Name → Name → Bool) (same_iff : (a b : Name) → (same a b ≡ true) ↔ (a ≡ b)) where
  adjust-count_down :
      (n : Name) (xs : List ZzMutex) (x : ZzMutex)
      → find same n xs ≡ some x
      → 0 < x.count
      → adjust same n count_down (adjust same n count_up xs) ≡ xs
  unfolding find adjust count_up count_down
  adjust-count_down n [] x e pos = absurd cc
  adjust-count_down n (y ∷ xs) x e pos = elim (Bool-cases (same n y.file_name)) [
    | inr no_hit ↦ rw (no_hit, no_hit) (ap (◌∷◌ y) (adjust-count_down n xs x (skip no_hit) pos))
    | inl hit ↦ rw (hit, hit, two hit) (ap (λ k. record y { count = k } ∷ xs) (omega arith))
  ]
    where
      skip : same n y.file_name ≡ false → find same n xs ≡ some x
      skip q = ground (arith, e, q)

      two : same n y.file_name ≡ true → (y.count + 1 == 1) ≡ false
      two q = ground (arith, e, q, pos)

  -- The two ways through get_zz_mutex of a thread that asks to lock.
  pub get_zz_mutex-none :
      (t : Table) (n : Name) (op : OpType) (ahead : ℕ)
      → is_locking op ≡ true
      → find same n (drop ahead (chain_of same t n)) ≡ none
      → get_zz_mutex same t n op allocated ahead
        ≡ some (true, set t (hash_func n) (new_mutex n ∷ chain_of same t n))
  unfolding get_zz_mutex alloc_zz_mutex
  get_zz_mutex-none t n op ahead lk e =
      let go : Option ZzMutex → Option (Bool × Table) = λ o. elim o [
        | none ↦ if is_locking op then alloc_zz_mutex same t n allocated else some (false, t)
        | some x ↦ some (true, if is_locking op then adjust_from same t n ahead count_up else t)
      ] in
      ap go e ∙ rw lk refl

  get_zz_mutex-some :
      (t : Table) (n : Name) (op : OpType) (x : ZzMutex)
      → is_locking op ≡ true
      → find_in same t n ≡ some x
      → get_zz_mutex same t n op allocated 0 ≡ some (true, adjust_in same t n count_up)
  unfolding get_zz_mutex adjust_from
  get_zz_mutex-some t n op x lk e =
      let go : Option ZzMutex → Option (Bool × Table) = λ o. elim o [
        | none ↦ if is_locking op then alloc_zz_mutex same t n allocated else some (false, t)
        | some x ↦ some (true, if is_locking op then adjust_from same t n 0 count_up else t)
      ] in
      ap go e ∙ rw lk refl

  -- What such a thread gets: the entry of its name counted once more, the entries of other names as
  -- they were, and put_zz_mutex takes the table back.
  pub record IsCounted (t : Table) (n : Name) (t' : Table) : Type 0 where
    pub table : IsTable same same_iff t'
    pub look :
        (m : Name)
        → find_in same t' m
          ≡ (if same m n then some (counted n (find_in same t n)) else find_in same t m)
    pub back : put_zz_mutex same t' n 0 ≡ t

  fresh-IsCounted :
      (t : Table) (n : Name)
      → IsTable same same_iff t
      → find_in same t n ≡ none
      → IsCounted t n (set t (hash_func n) (new_mutex n ∷ chain_of same t n))
  unfolding put_zz_mutex adjust_from adjust count_down
  fresh-IsCounted t n v e =
      let lt : hash_func n < length t = omega (arith, v.size, hash_func-lt n) in
      let self = same_self same same_iff n in
      record {
        table = push-IsTable same same_iff t (new_mutex n) v e;
        look = λ m.
            find_in-push same same_iff t (new_mutex n) m v
            ∙ ap (λ o. if same m n then some (counted n o) else find_in same t m) (sym e);
        back =
            rw (get_or-set_self t (hash_func n) (new_mutex n ∷ chain_of same t n) [] lt, self)
              (set-restore t (hash_func n) (new_mutex n ∷ chain_of same t n) [] lt);
      }

  again-IsCounted :
      (t : Table) (n : Name) (x : ZzMutex)
      → IsTable same same_iff t
      → find_in same t n ≡ some x
      → 0 < x.count
      → IsCounted t n (adjust_in same t n count_up)
  unfolding put_zz_mutex adjust_from count_up
  again-IsCounted t n x v e pos =
      let lt : hash_func n < length t = omega (arith, v.size, hash_func-lt n) in
      let more = adjust same n count_up (chain_of same t n) in
      record {
        table = adjust_in-IsTable same same_iff t n count_up count_up-KeepsName v;
        look = λ m.
            find_in-adjust_in same same_iff t v.size m n count_up count_up-KeepsName (v.unique n)
            ∙ ap (λ o. if same m n then o else find_in same t m)
                (ap (λ o. o >>= count_up) e ∙ ap (λ o. some (counted n o)) (sym e));
        back =
            rw
              (
                get_or-set_self t (hash_func n) more [] lt,
                adjust-count_down n (chain_of same t n) x e pos,
              )
              (set-restore t (hash_func n) more [] lt);
      }

  -- In a table with its 101 chains, no name twice and the entry of the name, if there is one, counted
  -- at least once: a thread that asks to lock, has memory and locks glob_mutex before another thread
  -- changes the chain is given an entry. The entry of its name is then counted once more, or new with
  -- the count 1; the look-up of every other name stays, no name stands twice, and put_zz_mutex of the
  -- entry gives the table back.
  pub put_zz_mutex-get_zz_mutex :
      (t : Table) (n : Name) (op : OpType)
      → IsTable same same_iff t
      → ((x : ZzMutex) → find_in same t n ≡ some x → 0 < x.count)
      → is_locking op ≡ true
      → (t' : Table) × (get_zz_mutex same t n op allocated 0 ≡ some (true, t')) × IsCounted t n t'
  put_zz_mutex-get_zz_mutex t n op v pos lk = go (find_in same t n) refl
    where
      go :
          (o : Option ZzMutex)
          → find_in same t n ≡ o
          → (t' : Table) × (get_zz_mutex same t n op allocated 0 ≡ some (true, t'))
            × IsCounted t n t'
      go none e = (_, get_zz_mutex-none t n op 0 lk e, fresh-IsCounted t n v e)
      go (some x) e = (_, get_zz_mutex-some t n op x lk e, again-IsCounted t n x v e (pos x e))
