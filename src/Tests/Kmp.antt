-- ===== src/Tests/Kmp.antt =====
-- Runs of the string search of kmp.c.
use somerubbish.Prelude.{ℕ, ◌≡◌, List, [], ◌∷◌, arith, take, subst}
use somerubbish.Prelude.Int.{ℤ, pos}
use somerubbish.Kmp.{IsStrncmp, init_partial_match_table, find_pattern}
use somerubbish.Kmp.Table.{IsBest, init_partial_match_table-IsBest}
use somerubbish.Kmp.Search.{Decides, find_pattern-Decides}
use somerubbish.Tests.Nss.{compare_names, compare_names-zero, compare_names_self}

abbrev compare_first : List ℕ → List ℕ → ℕ → ℤ
compare_first a b n = compare_names (take n a) (take n b)

compare_first-IsStrncmp : IsStrncmp compare_first
compare_first-IsStrncmp = record {
  zero_iff = λ a b n. (
    compare_names-zero (take n a) (take n b),
    λ e. subst (λ x. compare_names (take n a) x ≡ pos 0) e (compare_names_self (take n a)),
  );
}

abbrev aab : List ℕ
aab = b'a' ∷ b'a' ∷ b'b' ∷ []

abbrev aaab : List ℕ
aaab = b'a' ∷ aab

init_partial_match_table-IsBest_example :
    IsBest aab 1 (init_partial_match_table compare_first aab (λ i. 7) 3 1) 2
init_partial_match_table-IsBest_example =
    init_partial_match_table-IsBest compare_first compare_first-IsStrncmp aab (λ i. 7) 3 1
      (omega arith)

find_pattern-Decides_example :
    Decides aaab aab
      (find_pattern aaab aab 4 3 (init_partial_match_table compare_first aab (λ i. 7) 3) 9)
find_pattern-Decides_example =
    find_pattern-Decides compare_first aaab aab (λ i. 7) 9 compare_first-IsStrncmp (omega arith)
