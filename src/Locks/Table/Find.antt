-- ===== src/Locks/Table/Find.antt =====
-- What a change of one entry does to the look-up of every name.
use somerubbish.Prelude.{
  ◌<◌, ◌≡◌, ◌≢◌, ◌↔◌, refl, ap, sym, ◌∙◌, Bool, true, false, List, [], ◌∷◌, Option, none, some,
  arith, if◌then◌else◌, set, length, length-set, get_or-set_self, get_or-set_ne, ◌>>=◌, Bool-cases,
  inl, inr, ℕ_discrete, get_or-replicate, subst,
}
use somerubbish.Libc.{Name}
use somerubbish.Locks.Table.{
  ZzMutex, nhash, Table, hash_func, find, adjust, find_in, adjust_in, chain_of, mutex_hash_init,
}

-- A change that keeps the name of what it keeps.
pub record KeepsName (f : ZzMutex → Option ZzMutex) : Type 0 where
  pub name : (x y : ZzMutex) → f x ≡ some y → y.file_name ≡ x.file_name

pub hash_func-lt : (n : Name) → hash_func n < nhash
unfolding hash_func
hash_func-lt n = omega arith

module _ (same : Name → Name → Bool) (same_iff : (a b : Name) → (same a b ≡ true) ↔ (a ≡ b)) where
  -- No name stands twice in a chain.
  abbrev pub Unique : List ZzMutex → Type 0
  Unique [] = Unit
  Unique (x ∷ xs) = (find same (x.file_name) xs ≡ none) × Unique xs

  find-cong : (a b : Name) (xs : List ZzMutex) → same a b ≡ true → find same a xs ≡ find same b xs
  find-cong a b xs e = ap (λ n. find same n xs) ((same_iff a b).0 e)

  same_left : (a b c : Name) → same a b ≡ true → same a c ≡ same b c
  same_left a b c e = ap (λ n. same n c) ((same_iff a b).0 e)

  same_right : (a b c : Name) → same b c ≡ true → same a c ≡ same a b
  same_right a b c e = ap (same a) (sym ((same_iff b c).0 e))

  pub same_self : (a : Name) → same a a ≡ true
  same_self a = (same_iff a a).1 refl

  find-adjust :
      (m n : Name) (f : ZzMutex → Option ZzMutex) (xs : List ZzMutex)
      → KeepsName f
      → Unique xs
      → find same m (adjust same n f xs)
        ≡ (if same m n then find same n xs >>= f else find same m xs)
  unfolding find adjust
  find-adjust m n f [] k u = ground arith
  find-adjust m n f (x ∷ xs) k (fresh, u) = go (f x) refl (find-adjust m n f xs k u)
    where
      go :
          (o : Option ZzMutex)
          → f x ≡ o
          → find same m (adjust same n f xs)
            ≡ (if same m n then find same n xs >>= f else find same m xs)
          → find same m (adjust same n f (x ∷ xs))
            ≡ (if same m n then find same n (x ∷ xs) >>= f else find same m (x ∷ xs))
      go none e ih =
          ground (
            arith,
            same_left m n x.file_name,
            same_right m n x.file_name,
            find-cong m x.file_name xs,
          )
      go (some y) e ih = ground (
        arith,
        same_left m n x.file_name,
        same_right m n x.file_name,
        find-cong m x.file_name xs,
        k.name x y e,
      )

  adjust-Unique :
      (n : Name) (f : ZzMutex → Option ZzMutex) (xs : List ZzMutex)
      → KeepsName f
      → Unique xs
      → Unique (adjust same n f xs)
  unfolding adjust
  adjust-Unique n f [] k u = tt
  adjust-Unique n f (x ∷ xs) k (fresh, u) = elim (Bool-cases (same n x.file_name)) [
    | inl e ↦ rw e (keep (f x) refl)
    | inr e ↦ rw e (
      ground (arith, find-adjust x.file_name n f xs k u, find-cong x.file_name n xs, fresh),
      adjust-Unique n f xs k u,
    )
  ]
    where
      keep :
          (o : Option ZzMutex)
          → f x ≡ o
          → Unique (elim o as (λ _. List ZzMutex) [ none ↦ xs | some y ↦ y ∷ xs ])
      keep none e = u
      keep (some y) e = (rw (k.name x y e) fresh, u)

  other_name : (m n : Name) → hash_func n ≢ hash_func m → same m n ≡ false
  other_name m n ne = elim (Bool-cases (same m n)) [
    | inl e ↦ absurd (ne (ap hash_func (sym ((same_iff m n).0 e))))
    | inr e ↦ e
  ]

  module _ (t : Table) (size : length t ≡ nhash) where
    -- The look-up of a name in the table after a change of the entry of a name.
    pub find_in-adjust_in :
        (m n : Name) (f : ZzMutex → Option ZzMutex)
        → KeepsName f
        → Unique (chain_of same t n)
        → find_in same (adjust_in same t n f) m
          ≡ (if same m n then find_in same t n >>= f else find_in same t m)
    find_in-adjust_in m n f k u = elim (ℕ_discrete (hash_func n) (hash_func m)) [
      | yes e ↦
          rw
            (
              ← e,
              get_or-set_self t (hash_func n) (adjust same n f (chain_of same t n)) []
                  (omega (arith, hash_func-lt n)),
            )
            (find-adjust m n f (chain_of same t n) k u)
      | no ne ↦
          rw
            (get_or-set_ne t (hash_func n) (hash_func m) (adjust same n f (chain_of same t n)) []
              ne)
            (ground (arith, other_name m n ne))
    ]

  -- A table has its 101 chains, and no name twice.
  pub record IsTable (t : Table) : Type 0 where
    pub size : length t ≡ nhash
    pub unique : (n : Name) → Unique (chain_of same t n)

  pub adjust_in-IsTable :
      (t : Table) (n : Name) (f : ZzMutex → Option ZzMutex)
      → KeepsName f
      → IsTable t
      → IsTable (adjust_in same t n f)
  adjust_in-IsTable t n f k v = record {
    size = length-set t (hash_func n) _ ∙ v.size;
    unique = λ m. elim (ℕ_discrete (hash_func n) (hash_func m)) [
      | yes e ↦
          rw (← e, get_or-set_self t (hash_func n) new [] (omega (arith, hash_func-lt n, v.size)))
            (adjust-Unique n f (chain_of same t n) k (v.unique n))
      | no ne ↦ rw (get_or-set_ne t (hash_func n) (hash_func m) new [] ne) (v.unique m)
    ];
  }
    where
      new : List ZzMutex
      new = adjust same n f (chain_of same t n)

  -- A new entry in front of its chain.
  pub push-IsTable :
      (t : Table) (x : ZzMutex)
      → IsTable t
      → find_in same t x.file_name ≡ none
      → IsTable (set t (hash_func x.file_name) (x ∷ chain_of same t x.file_name))
  push-IsTable t x v fresh = record {
    size = length-set t (hash_func x.file_name) _ ∙ v.size;
    unique = λ m. elim (ℕ_discrete (hash_func x.file_name) (hash_func m)) [
      | yes e ↦
          rw
            (
              ← e,
              get_or-set_self t (hash_func x.file_name) new []
                  (omega (arith, hash_func-lt x.file_name, v.size)),
            )
            (fresh, v.unique x.file_name)
      | no ne ↦ rw (get_or-set_ne t (hash_func x.file_name) (hash_func m) new [] ne) (v.unique m)
    ];
  }
    where
      new : List ZzMutex
      new = x ∷ chain_of same t x.file_name

  pub find_in-push :
      (t : Table) (x : ZzMutex) (m : Name)
      → IsTable t
      → find_in same (set t (hash_func x.file_name) (x ∷ chain_of same t x.file_name)) m
        ≡ (if same m x.file_name then some x else find_in same t m)
  unfolding find
  find_in-push t x m v = elim (ℕ_discrete (hash_func x.file_name) (hash_func m)) [
    | yes e ↦ rw (
      ← e,
      get_or-set_self t (hash_func x.file_name) new []
          (omega (arith, hash_func-lt x.file_name, v.size)),
    )
    | no ne ↦ rw (
      get_or-set_ne t (hash_func x.file_name) (hash_func m) new [] ne,
      other_name m x.file_name ne,
    )
  ]
    where
      new : List ZzMutex
      new = x ∷ chain_of same t x.file_name

  -- The empty table.
  pub find_in-mutex_hash_init : (m : Name) → find_in same mutex_hash_init m ≡ none
  unfolding mutex_hash_init find
  find_in-mutex_hash_init m = ap (find same m) (get_or-replicate nhash (hash_func m) [])

  pub mutex_hash_init-IsTable : IsTable mutex_hash_init
  unfolding mutex_hash_init
  mutex_hash_init-IsTable = record {
    size = refl;
    unique = λ n. subst Unique (sym (get_or-replicate nhash (hash_func n) [])) tt;
  }
