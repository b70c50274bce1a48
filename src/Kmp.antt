-- ===== src/Kmp.antt =====
-- algorithm/kmp.c: a string search with a table of partial matches. The table is a function of the
-- index; `none` is a read outside a string, or the end of the fuel.
pub mod Table
pub mod Match
pub mod Rounds
pub mod Parts
pub mod Search
use somerubbish.Prelude.{
  ℕ, zero, suc, ◌+◌, ◌-◌, true, false, ◌&&◌, List, Option, none, some, ◌==◌, ltb, if◌then◌else◌,
  length, get_elem?, take, drop, ◌≡◌, ◌↔◌, ◌>>=◌,
}
use somerubbish.Prelude.Int.{ℤ, pos}
use somerubbish.Libc.{is_zero}

abbrev pub write : (ℕ → ℕ) → (i v : ℕ) → (ℕ → ℕ)
write a i v = λ b. if b == i then v else a b

-- What C says of strncmp: it is zero when the bytes that it compares are equal.
pub record IsStrncmp (strncmp : List ℕ → List ℕ → ℕ → ℤ) : Type 0 where
  pub zero_iff : (a b : List ℕ) (n : ℕ) → (strncmp a b n ≡ pos 0) ↔ (take n a ≡ take n b)

module _ (strncmp : List ℕ → List ℕ → ℕ → ℤ) (s : List ℕ) where
  unfoldable pub table_round : (pmt : ℕ → ℕ) → (i j : ℕ) → (ℕ → ℕ)
  table_round pmt i j =
      if is_zero (strncmp s (drop (i - j + 1) s) j) && ltb (pmt i) j then write pmt i j else pmt

  -- The loops take the number of rounds left.
  unfoldable pub part_loop : (rounds : ℕ) → (pmt : ℕ → ℕ) → (i j : ℕ) → (ℕ → ℕ)
  part_loop zero pmt i j = pmt
  part_loop (suc n) pmt i j = part_loop n (table_round pmt i j) i (j + 1)

  unfoldable pub table_loop : (rounds : ℕ) → (pmt : ℕ → ℕ) → (i : ℕ) → (ℕ → ℕ)
  table_loop zero pmt i = pmt
  table_loop (suc n) pmt i = table_loop n (part_loop i (write pmt i 0) i 1) (i + 1)

  unfoldable pub init_partial_match_table : (pmt : ℕ → ℕ) → (tflen : ℕ) → (ℕ → ℕ)
  init_partial_match_table pmt tflen = write (table_loop (tflen - 1) pmt 1) 0 0

-- A round of find_pattern on two bytes: the new index and tfindex.
unfoldable pub search_step : (pmt : ℕ → ℕ) → (a b index tfindex : ℕ) → ℕ × ℕ
search_step pmt a b index tfindex =
    if a == b
    then (index + 1, tfindex + 1)
    else if tfindex == 0
    then (index + 1, tfindex)
    else (index, pmt (tfindex - 1))

module _ (src pattern : List ℕ) (len tflen : ℕ) (pmt : ℕ → ℕ) where
  unfoldable pub search_loop : (fuel : ℕ) → (index tfindex : ℕ) → Option ℕ
  search_loop zero index tfindex = none
  search_loop (suc fuel) index tfindex =
      let step : ℕ → ℕ → Option (ℕ × ℕ) = λ a b. some (search_step pmt a b index tfindex) in
      let next : Option (ℕ × ℕ) =
        get_elem? src index >>= λ a. get_elem? pattern tfindex >>= λ b. step a b in
      let rest = next >>= λ (i, t). search_loop fuel i t in
      if ltb tfindex tflen
      then (if ltb (len - index) (tflen - tfindex) then some 1 else rest)
      else if tfindex == tflen
      then some 0
      else some 1

  unfoldable pub find_pattern : (fuel : ℕ) → Option ℕ
  find_pattern fuel = search_loop fuel 0 0
