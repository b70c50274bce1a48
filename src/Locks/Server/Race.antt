-- ===== src/Locks/Server/Race.antt =====
-- Two threads of the lock server in get_zz_mutex for the same new name.
use somerubbish.Prelude.{
  [], ap, ◌∙◌, length-set, ◌<◌, ◌≡◌, ◌↔◌, Bool, true, ◌∷◌, none, some, set, length, arith,
  get_or-set_self, drop,
}
use somerubbish.Libc.{Name}
use somerubbish.Locks.Table.{nhash, Table, hash_func, find, find_in, chain_of}
use somerubbish.Locks.Table.Find.{hash_func-lt}
use somerubbish.Locks.Server.{OpType, is_locking, allocated, new_mutex, get_zz_mutex}
use somerubbish.Locks.Server.Counts.{get_zz_mutex-none}

-- In a table with its 101 chains and no entry with the name, when two threads ask to lock it, each has
-- memory, and the second one reads the head of the chain before the first one puts its entry there:
-- both are given an entry, and the chain has two entries with the name, each counted once.
pub get_zz_mutex-duplicates :
    (same : Name → Name → Bool) (same_iff : (a b : Name) → (same a b ≡ true) ↔ (a ≡ b)) (t : Table)
    (n : Name) (op op' : OpType)
    → length t ≡ nhash
    → find_in same t n ≡ none
    → is_locking op ≡ true
    → is_locking op' ≡ true
    → (t1 t2 : Table) × (get_zz_mutex same t n op allocated 0 ≡ some (true, t1))
      × (get_zz_mutex same t1 n op' allocated 1 ≡ some (true, t2))
      × (chain_of same t2 n ≡ new_mutex n ∷ new_mutex n ∷ chain_of same t n)
get_zz_mutex-duplicates same same_iff t n op op' size fresh lk lk' =
    let lt : hash_func n < length t = omega (arith, hash_func-lt n, size) in
    let chain = chain_of same t n in
    let t1 = set t (hash_func n) (new_mutex n ∷ chain) in
    let c1 : chain_of same t1 n ≡ new_mutex n ∷ chain =
      get_or-set_self t (hash_func n) (new_mutex n ∷ chain) [] lt in
    let lt1 : hash_func n < length t1 =
      omega (arith, lt, length-set t (hash_func n) (new_mutex n ∷ chain)) in
    (
      t1,
      set t1 (hash_func n) (new_mutex n ∷ chain_of same t1 n),
      get_zz_mutex-none same same_iff t n op 0 lk fresh,
      get_zz_mutex-none same same_iff t1 n op' 1 lk' (ap (λ c. find same n (drop 1 c)) c1 ∙ fresh),
      get_or-set_self t1 (hash_func n) (new_mutex n ∷ chain_of same t1 n) [] lt1
          ∙ ap (◌∷◌ (new_mutex n)) c1,
    )
