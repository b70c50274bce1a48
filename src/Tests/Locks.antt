-- ===== src/Tests/Locks.antt =====
-- Runs of the lock server (md_distribute_mutex/new_md_mutex_server.c).
use somerubbish.Prelude.{
  ◌≡◌, ◌↔◌, ◌<◌, refl, Bool, true, false, [], ◌∷◌, some, ◌==◌, ◌&&◌, set, arith, subst,
}
use somerubbish.Libc.{Name}
use somerubbish.Locks.Table.{
  ZzMutex, Table, mutex_hash_init, hash_from, hash_func, find, find_in, chain_of,
}
use somerubbish.Locks.Table.Find.{
  IsTable, mutex_hash_init-IsTable, push-IsTable, find_in-mutex_hash_init,
}
use somerubbish.Locks.Server.{
  md_lock, md_try_lock, allocated, new_mutex, alloc_zz_mutex, get_zz_mutex,
}
use somerubbish.Locks.Server.Counts.{IsCounted, put_zz_mutex-get_zz_mutex}
use somerubbish.Locks.Server.Race.{get_zz_mutex-duplicates}

unfoldable pub same_name : Name → Name → Bool
same_name [] [] = true
same_name [] (y ∷ ys) = false
same_name (x ∷ xs) [] = false
same_name (x ∷ xs) (y ∷ ys) = (x == y) && same_name xs ys

same_name-eq : (a b : Name) → same_name a b ≡ true → a ≡ b
unfolding same_name
same_name-eq [] [] e = refl
same_name-eq [] (y ∷ ys) e = absurd cc
same_name-eq (x ∷ xs) [] e = absurd cc
same_name-eq (x ∷ xs) (y ∷ ys) e = ground (arith, same_name-eq xs ys)

same_name_self : (a : Name) → same_name a a ≡ true
unfolding same_name
same_name_self [] = refl
same_name_self (x ∷ xs) = ground (arith, same_name_self xs)

pub same_name_iff : (a b : Name) → (same_name a b ≡ true) ↔ (a ≡ b)
same_name_iff a b = (same_name-eq a b, λ e. subst (λ x. same_name a x ≡ true) e (same_name_self a))

abbrev file_a : Name
file_a = b'a' ∷ []

-- A thread asks to lock "a"; another one does before the entry is put back.
abbrev asked_table : Table
asked_table = set mutex_hash_init (hash_func file_a) (new_mutex file_a ∷ [])

asked_first :
    get_zz_mutex same_name mutex_hash_init file_a md_lock allocated 0 ≡ some (true, asked_table)
unfolding get_zz_mutex alloc_zz_mutex find hash_func hash_from mutex_hash_init
asked_first = refl

asked_table-IsTable : IsTable same_name same_name_iff asked_table
unfolding hash_func hash_from mutex_hash_init
asked_table-IsTable =
    push-IsTable same_name same_name_iff mutex_hash_init (new_mutex file_a)
      (mutex_hash_init-IsTable same_name same_name_iff)
      (find_in-mutex_hash_init same_name same_name_iff file_a)

asked_once : (x : ZzMutex) → find_in same_name asked_table file_a ≡ some x → 0 < x.count
unfolding find hash_func hash_from mutex_hash_init same_name
asked_once x e = ground (arith, e)

put_zz_mutex-get_zz_mutex_example :
    (t' : Table) × (get_zz_mutex same_name asked_table file_a md_try_lock allocated 0
      ≡ some (true, t'))
    × IsCounted same_name same_name_iff asked_table file_a t'
put_zz_mutex-get_zz_mutex_example =
    put_zz_mutex-get_zz_mutex same_name same_name_iff asked_table file_a md_try_lock
      asked_table-IsTable asked_once refl

get_zz_mutex-duplicates_example :
    (t1 t2 : Table) × (get_zz_mutex same_name mutex_hash_init file_a md_lock allocated 0
      ≡ some (true, t1))
    × (get_zz_mutex same_name t1 file_a md_lock allocated 1 ≡ some (true, t2))
    × (chain_of same_name t2 file_a
        ≡ new_mutex file_a ∷ new_mutex file_a ∷ chain_of same_name mutex_hash_init file_a)
unfolding mutex_hash_init
get_zz_mutex-duplicates_example =
    get_zz_mutex-duplicates same_name same_name_iff mutex_hash_init file_a md_lock md_lock refl
      (find_in-mutex_hash_init same_name same_name_iff file_a) refl refl
