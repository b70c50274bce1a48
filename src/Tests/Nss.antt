-- ===== src/Tests/Nss.antt =====
-- Runs of the namespace server (nss.c) over a small namespace.
use somerubbish.Prelude.{
  ℕ, zero, suc, ◌≤◌, ◌<◌, ◌≡◌, ◌≢◌, ◌⊎◌, refl, true, false, List, [], ◌∷◌, none, some, arith, ltb,
  ◌==◌, if◌then◌else◌, get_elem?, subst, Returns,
}
use somerubbish.Prelude.Int.{ℤ, pos, negsuc, to_u32}
use somerubbish.Libc.{Name, IsInt, IsStrcmp}
use somerubbish.Nss.Node.{NsNode, Namespace, Outside}
use somerubbish.Nss.Search.{binary_seach_file}
use somerubbish.Nss.Search.Bounds.{search_children, search_children-bounds, search_children-misses}
use mathlib.Core.Option
use somerubbish.Nss.Path.{
  Lookup, get_ns_node, path_loop, start, round, enter_word, leave_word, word_of, lookup_word,
  enter_file, find_child, cont,
}
use somerubbish.Nss.Path.Word.{IsWellFormed, IsLinked, IsPlace}
use somerubbish.Nss.Path.Total.{get_ns_node-IsPlace}
use somerubbish.Nss.Files.{mkfile}
use somerubbish.Nss.Files.Children.{IsMade, mkfile-IsMade, mkfile-realloc_failure}

-- The order of the bytes.
pub compare_names : Name → Name → ℤ
compare_names [] [] = pos 0
compare_names [] (y ∷ ys) = negsuc 0
compare_names (x ∷ xs) [] = pos 1
compare_names (x ∷ xs) (y ∷ ys) =
    if x == y then compare_names xs ys else if ltb x y then negsuc 0 else pos 1

compare_names-IsInt : (a b : Name) → IsInt (compare_names a b)
unfolding compare_names
compare_names-IsInt [] [] = omega arith
compare_names-IsInt [] (y ∷ ys) = omega arith
compare_names-IsInt (x ∷ xs) [] = omega arith
compare_names-IsInt (x ∷ xs) (y ∷ ys) = ground (arith, compare_names-IsInt xs ys)

pub compare_names-zero : (a b : Name) → compare_names a b ≡ pos 0 → a ≡ b
unfolding compare_names
compare_names-zero [] [] e = refl
compare_names-zero [] (y ∷ ys) e = absurd cc
compare_names-zero (x ∷ xs) [] e = ground arith
compare_names-zero (x ∷ xs) (y ∷ ys) e = ground (arith, compare_names-zero xs ys)

pub compare_names_self : (a : Name) → compare_names a a ≡ pos 0
unfolding compare_names
compare_names_self [] = refl
compare_names_self (x ∷ xs) = ground (arith, compare_names_self xs)

compare_names-IsStrcmp : IsStrcmp compare_names
compare_names-IsStrcmp = record {
  int = compare_names-IsInt;
  zero_iff = λ a b. (
    compare_names-zero a b,
    λ e. subst (λ x. compare_names a x ≡ pos 0) e (compare_names_self a),
  );
}

-- "a", "b" and "c", in order.
abbrev three_names : List Name
three_names = (b'a' ∷ []) ∷ (b'b' ∷ []) ∷ (b'c' ∷ []) ∷ []

-- The first of three names is missed: the search ends at the last.
first_missed : search_children compare_names (b'a' ∷ []) three_names ≡ some 2
unfolding binary_seach_file compare_names to_u32
first_missed = refl

search_children-bounds_example :
    (r : ℕ) × (search_children compare_names (b'b' ∷ []) three_names ≡ some r)
    × (r < 3)
    × ((r ≡ 2) ⊎ ((1 ≤ r) × (get_elem? three_names r ≡ some (b'b' ∷ []))))
search_children-bounds_example =
    search_children-bounds compare_names compare_names-IsStrcmp (b'b' ∷ []) three_names
      (omega arith) (omega arith)

search_children-misses_example :
    (r : ℕ) × (search_children compare_names (b'a' ∷ []) three_names ≡ some r)
    × (r < 3)
    × (get_elem? three_names r ≢ some (b'a' ∷ []))
search_children-misses_example =
    search_children-misses compare_names compare_names-IsStrcmp (b'a' ∷ []) three_names
      (omega arith) lower (omega arith)
  where
    lower : (i : ℕ) → get_elem? three_names i ≡ some (b'a' ∷ []) → i < 1
    lower zero e = omega arith
    lower (suc zero) e = absurd (ground arith)
    lower (suc (suc zero)) e = absurd (ground arith)
    lower (suc (suc (suc i))) e = absurd cc

abbrev outside : Outside
outside = record {
  strcmp = compare_names;
  is_dir_file = λ t. t == 1;
  is_reg_file = λ t. t == 2;
  is_shared_dir = λ t. false;
  is_shared_flag_set = λ t. false;
  is_legal_file_type = λ t. true;
  directory_file = 1;
}

-- The root has one child, "a".
abbrev small_node : ℕ → NsNode
small_node a = record {
  name = if a == 2 then b'/' ∷ [] else b'a' ∷ [];
  file_type = 1;
  uid = 0;
  gid = 0;
  acl = 0;
  parent = 2;
  child = if a == 2 then 1 ∷ [] else [];
  how_many_children = if a == 2 then 1 else 0;
}

abbrev small : Namespace
small = record {
  node = small_node;
  cfs_root_dir = 2;
  current_working_dir = 2;
  home_dir = 0;
  shared_dir = 0;
  current_uid = 7;
  current_gid = 7;
}

small-IsWellFormed : IsWellFormed small
small-IsWellFormed = record { counted = λ a. ground arith; small = λ a. ground arith }

small-IsLinked : IsLinked outside small
small-IsLinked = record {
  root = omega arith;
  working = omega arith;
  parent = λ a alive dir. omega arith;
  child = λ a i c e. child_lem a i c e;
  home = λ a e. absurd cc;
  shared = λ a e. absurd cc;
}
  where
    only_one : (i c : ℕ) → get_elem? (1 ∷ []) i ≡ some c → c ≢ 0
    only_one zero c e = ground (arith, e)
    only_one (suc i) c e = absurd cc

    child_lem : (a i c : ℕ) → get_elem? (if a == 2 then 1 ∷ [] else []) i ≡ some c → c ≢ 0
    child_lem a i c e = ground (arith, only_one i c)

-- What the look-up of "/b" returns.
abbrev b_is_missing : Lookup
b_is_missing = record {
  lkup_node = 2;
  inword = false;
  fn_head = some 1;
  fn_tail = some 2;
  ret = 3;
  i = 0;
  file_name_buf = b'b' ∷ [];
}

b_is_missing_lem : get_ns_node outside small (b'/' ∷ b'b' ∷ []) ≡ some b_is_missing
unfolding get_ns_node path_loop start round enter_word leave_word word_of lookup_word enter_file
    find_child cont binary_seach_file compare_names to_u32
b_is_missing_lem = refl

-- A directory is found, also behind "..".
a_is_found :
    Option.map
      (λ s. s.lkup_node)
      (get_ns_node outside small (b'a' ∷ b'/' ∷ b'.' ∷ b'.' ∷ b'/' ∷ b'a' ∷ []))
    ≡ some 1
unfolding get_ns_node path_loop start round enter_word leave_word word_of lookup_word enter_file
    find_child cont binary_seach_file compare_names to_u32
a_is_found = refl

get_ns_node-IsPlace_example :
    Returns
      (IsPlace outside small (b'/' ∷ b'b' ∷ []))
      (get_ns_node outside small (b'/' ∷ b'b' ∷ []))
get_ns_node-IsPlace_example =
    get_ns_node-IsPlace outside small (b'/' ∷ b'b' ∷ []) compare_names-IsStrcmp small-IsWellFormed
      small-IsLinked (omega arith)

mkfile-IsMade_example :
    (ns' : Namespace) × (mkfile outside small
        (record { new_file = some 9; name_ok = true; realloc_ok = true })
        (b'/' ∷ b'b' ∷ [])
        2
        0
      ≡ some (some 9, ns'))
    × IsMade outside small
        (b'/' ∷ b'b' ∷ [])
        compare_names-IsStrcmp
        small-IsWellFormed
        b_is_missing
        9
        2
        0
        ns'
mkfile-IsMade_example =
    mkfile-IsMade outside small (b'/' ∷ b'b' ∷ []) compare_names-IsStrcmp small-IsWellFormed
      b_is_missing 9 2 0 b_is_missing_lem refl (omega arith) (omega arith) refl

mkfile-realloc_failure_example :
    (ns' : Namespace) × (mkfile outside small
        (record { new_file = some 9; name_ok = true; realloc_ok = false })
        (b'/' ∷ b'b' ∷ [])
        2
        0
      ≡ some (none, ns'))
    × ¬ IsWellFormed ns'
mkfile-realloc_failure_example =
    mkfile-realloc_failure outside small (b'/' ∷ b'b' ∷ []) compare_names-IsStrcmp
      small-IsWellFormed b_is_missing 9 2 0 b_is_missing_lem refl refl
