-- ===== src/Kmp/Table.antt =====
-- init_partial_match_table of kmp.c gives the longest proper part at both ends of each beginning.
use somerubbish.Prelude.{
  ℕ, zero, suc, ◌+◌, ◌-◌, ◌<◌, ◌≡◌, ◌≢◌, ◌↔◌, refl, ap, sym, ◌∙◌, subst, Bool, true, false, ◌&&◌,
  List, arith, ◌⊎◌, inl, inr, ltb, if◌then◌else◌, take, drop, Bool-cases,
}
use somerubbish.Prelude.Int.{ℤ, pos, negsuc}
use somerubbish.Libc.{is_zero}
use somerubbish.Kmp.{write, IsStrncmp, table_round, part_loop, table_loop, init_partial_match_table}

pub write_self : (a : ℕ → ℕ) (i v : ℕ) → write a i v i ≡ v
write_self a i v = ground arith

pub write_other : (a : ℕ → ℕ) {i b : ℕ} (v : ℕ) → b ≢ i → write a i v b ≡ a b
write_other a v n = ground arith

-- The first `j` of the bytes 0 to `i` are the last `j` of them.
abbrev pub IsBorder : List ℕ → (i j : ℕ) → Type 0
IsBorder s i j = take j s ≡ take j (drop (i - j + 1) s)

-- `v` is the longest, of those that are shorter than `end`.
pub record IsBest (s : List ℕ) (i v end : ℕ) : Type 0 where
  pub shorter : v < end
  pub border : IsBorder s i v
  pub longest : (j : ℕ) → v < j → j < end → IsBorder s i j → ⊥

module _ (strncmp : List ℕ → List ℕ → ℕ → ℤ) (std : IsStrncmp strncmp) (s : List ℕ) where
  equal_test : (a b : List ℕ) (n : ℕ) → (is_zero (strncmp a b n) ≡ true) ↔ (take n a ≡ take n b)
  equal_test a b n = (
    λ e. (std.zero_iff a b n).0 (at_zero (strncmp a b n) e),
    λ e. ap is_zero ((std.zero_iff a b n).1 e),
  )
    where
      at_zero : (z : ℤ) → is_zero z ≡ true → z ≡ pos 0
      at_zero (pos n) e = ap pos (ground arith)
      at_zero (negsuc n) e = ground arith

  table_round_other : (pmt : ℕ → ℕ) (i j b : ℕ) → b ≢ i → table_round strncmp s pmt i j b ≡ pmt b
  unfolding table_round
  table_round_other pmt i j b n = pick (is_zero (strncmp s (drop (i - j + 1) s) j) && ltb (pmt i) j)
    where
      pick : (c : Bool) → (if c then write pmt i j else pmt) b ≡ pmt b
      pick true = write_other pmt j n
      pick false = refl

  no_border : (i j : ℕ) → is_zero (strncmp s (drop (i - j + 1) s) j) ≡ false → IsBorder s i j → ⊥
  no_border i j e b = let q = (equal_test s (drop (i - j + 1) s) j).1 b in absurd cc

  lt_or_eq : (k j : ℕ) → k < j + 1 → (k < j) ⊎ (k ≡ j)
  lt_or_eq k j lt = omega arith

  table_round-IsBest :
      (pmt : ℕ → ℕ) (i j : ℕ)
      → IsBest s i (pmt i) j
      → IsBest s i (table_round strncmp s pmt i j i) (j + 1)
  unfolding table_round
  table_round-IsBest pmt i j v =
      let less : ltb (pmt i) j ≡ true = let w = v.shorter in ground arith in
      elim (Bool-cases (is_zero (strncmp s (drop (i - j + 1) s) j))) [
        | inl e ↦
            rw (e, less)
              (subst (λ w. IsBest s i w (j + 1)) (sym (write_self pmt i j))
                record {
                  shorter = omega arith;
                  border = (equal_test s (drop (i - j + 1) s) j).0 e;
                  longest = λ k lt lt' b. absurd (omega arith);
                })
        | inr e ↦ rw e record {
          shorter = let w = v.shorter in omega arith;
          border = v.border;
          longest = λ k lt lt' b. elim (lt_or_eq k j lt') [
            | inl l ↦ v.longest k lt l b
            | inr q ↦ no_border i j e (subst (IsBorder s i) q b)
          ];
        }
      ]

  inner_loop_other :
      (n : ℕ) (pmt : ℕ → ℕ) (i j b : ℕ) → b ≢ i → part_loop strncmp s n pmt i j b ≡ pmt b
  unfolding part_loop
  inner_loop_other zero pmt i j b ne = refl
  inner_loop_other (suc n) pmt i j b ne =
      inner_loop_other n (table_round strncmp s pmt i j) i (j + 1) b ne
      ∙ table_round_other pmt i j b ne

  part_loop-IsBest :
      (n : ℕ) (pmt : ℕ → ℕ) (i j : ℕ)
      → IsBest s i (pmt i) j
      → IsBest s i (part_loop strncmp s n pmt i j i) (j + n)
  unfolding part_loop
  part_loop-IsBest zero pmt i j v = subst (IsBest s i (pmt i)) (omega arith) v
  part_loop-IsBest (suc n) pmt i j v =
      subst (IsBest s i (part_loop strncmp s n (table_round strncmp s pmt i j) i (j + 1) i))
        (omega arith)
        (part_loop-IsBest n (table_round strncmp s pmt i j) i (j + 1)
          (table_round-IsBest pmt i j v))

  row-IsBest :
      (pmt : ℕ → ℕ) (i : ℕ) → IsBest s i (part_loop strncmp s i (write pmt i 0) i 1 i) (1 + i)
  row-IsBest pmt i = part_loop-IsBest i (write pmt i 0) i 1 (
      subst (λ w. IsBest s i w 1) (sym (write_self pmt i 0))
        record {
          shorter = omega arith;
          border = refl;
          longest = λ j lt lt' b. absurd (omega arith);
        })

  table_loop-IsBest :
      (n : ℕ) (pmt : ℕ → ℕ) (i : ℕ)
      → ((c : ℕ) → 0 < c → c < i → IsBest s c (pmt c) (1 + c))
      → (c : ℕ) → 0 < c
      → c < i + n
      → IsBest s c (table_loop strncmp s n pmt i c) (1 + c)
  unfolding table_loop
  table_loop-IsBest zero pmt i v c lt lt' = v c lt (omega arith)
  table_loop-IsBest (suc n) pmt i v c lt lt' =
      table_loop-IsBest n (part_loop strncmp s i (write pmt i 0) i 1) (i + 1) rows c lt
        (omega arith)
    where
      rows :
          (c : ℕ)
          → 0 < c
          → c < i + 1
          → IsBest s c (part_loop strncmp s i (write pmt i 0) i 1 c) (1 + c)
      rows c lt lt' = elim (lt_or_eq c i lt') [
        | inl l ↦
            subst (λ w. IsBest s c w (1 + c))
              (sym (
                inner_loop_other i (write pmt i 0) i 1 c (λ e. omega arith)
                ∙ write_other pmt 0 (λ e. omega arith)))
              (v c lt l)
        | inr e ↦
            subst (λ c. IsBest s c (part_loop strncmp s i (write pmt i 0) i 1 c) (1 + c)) (sym e)
              (row-IsBest pmt i)
      ]

  -- Whatever the cells hold at first, each cell below the length of the pattern gets the length of
  -- the longest proper beginning of the bytes up to there that is also their end.
  pub init_partial_match_table-IsBest :
      (pmt : ℕ → ℕ) (tflen i : ℕ)
      → i < tflen
      → IsBest s i (init_partial_match_table strncmp s pmt tflen i) (1 + i)
  unfolding init_partial_match_table
  init_partial_match_table-IsBest pmt tflen zero lt = record {
    shorter = omega arith;
    border = refl;
    longest = λ j lt lt' b. absurd (omega arith);
  }
  init_partial_match_table-IsBest pmt tflen (suc i) lt =
      subst (λ w. IsBest s (suc i) w (1 + suc i))
        (sym (write_other (table_loop strncmp s (tflen - 1) pmt 1) 0 (λ e. omega arith)))
        (table_loop-IsBest (tflen - 1) pmt 1 (λ c lt lt'. absurd (omega arith)) (suc i)
          (omega arith) (omega arith))
