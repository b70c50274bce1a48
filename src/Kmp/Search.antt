-- ===== src/Kmp/Search.antt =====
-- find_pattern of kmp.c: it ends, reads inside the strings, and finds the pattern if it is there.
use somerubbish.Prelude.{
  ℕ, zero, suc, ◌+◌, ◌-◌, ◌*◌, ◌≤◌, ◌<◌, ◌≡◌, ◌≢◌, ap, sym, ◌∙◌, subst, List, arith, Option, some,
  ◌⊎◌, inl, inr, get_elem?, length, get_elem?-some,
}
use somerubbish.Prelude.Int.{ℤ}
use somerubbish.Kmp.{IsStrncmp, init_partial_match_table, search_loop, find_pattern}
use somerubbish.Kmp.Table.{IsBest, init_partial_match_table-IsBest}
use somerubbish.Kmp.Rounds.{loop_found, loop_short, loop_step, step_same, step_first, step_back}
use somerubbish.Kmp.Parts.{
  Agrees, Occurs, eq_or_ne, IsBorder-Agrees, Occurs-IsBorder, Occurs-apart, Agrees-suc, lt_or_ge,
}

-- The loop ends with 0 at an occurrence, or with 1 when there is none.
abbrev pub Decides : (src pattern : List ℕ) → Option ℕ → Type 0
Decides src pattern o =
    ((o ≡ some 0) × (p : ℕ) × Occurs src pattern p)
    ⊎ ((o ≡ some 1) × ((p : ℕ) → Occurs src pattern p → ⊥))

module _ (src pattern : List ℕ) (pmt : ℕ → ℕ)
    (best : (i : ℕ) → i < length pattern → IsBest pattern i (pmt i) (1 + i)) where
  -- `t` bytes agree at `p`, and the pattern does not occur before.
  record Sought (p t : ℕ) : Type 0 where
    pub inside : p + t ≤ length src
    pub part : t ≤ length pattern
    pub agrees : Agrees src pattern p t
    pub later : (q : ℕ) → q < p → Occurs src pattern q → ⊥

  -- The pattern is moved on by the table.
  back-Sought :
      (p u a b : ℕ)
      → Sought p (u + 1)
      → u + 1 < length pattern
      → get_elem? src (p + (u + 1)) ≡ some a
      → get_elem? pattern (u + 1) ≡ some b
      → a ≢ b
      → Sought (p + (u + 1 - pmt u)) (pmt u)
  back-Sought p u a b v lt ea eb n =
      let w = best u (omega arith) in
      let short : pmt u < 1 + u = w.shorter in
      let inside = v.inside in
      record {
        inside = omega arith;
        part = omega arith;
        agrees = IsBorder-Agrees src pattern p u (pmt u) (omega arith) v.agrees w.border;
        later = λ q l occ. elim (lt_or_ge q (p + 1)) [
          | inl q_le ↦ elim (lt_or_ge q p) [
            | inl before ↦ v.later q before occ
            | inr after ↦
                let e : q ≡ p = omega arith in
                Occurs-apart src pattern p (u + 1) a b lt ea eb n (subst (Occurs src pattern) e occ)
          ]
          | inr q_gt ↦ w.longest (p + (u + 1) - q) (omega arith) (omega arith) (
              Occurs-IsBorder src pattern p q u (omega arith) (omega arith) v.agrees occ.1
                (omega arith))
        ];
      }

  abbrev run : (fuel index t : ℕ) → Option ℕ
  run fuel index t = search_loop src pattern (length src) (length pattern) pmt fuel index t

  -- The next rounds, with less to do.
  abbrev Again : (fuel : ℕ) → Type 0
  Again fuel =
      (p t : ℕ)
      → 2 * (length src - (p + t)) + t < fuel
      → Sought p t
      → Decides src pattern (run fuel (p + t) t)

  reach_round :
      (fuel index p t : ℕ)
      → Again fuel
      → p + t ≡ index
      → 2 * (length src - index) + t < fuel
      → Sought p t
      → Decides src pattern (run fuel index t)
  reach_round fuel index p t again e f v =
      subst (λ i. Decides src pattern (run fuel i t)) e (again p t (rw e f) v)

  round-Decides :
      (fuel p t a b : ℕ)
      → Again fuel
      → 2 * (length src - (p + t)) + t < suc fuel
      → Sought p t
      → t < length pattern
      → length pattern - t ≤ length src - (p + t)
      → get_elem? src (p + t) ≡ some a
      → get_elem? pattern t ≡ some b
      → Decides src pattern (run (suc fuel) (p + t) t)
  round-Decides fuel p t a b again f v lt room ea eb =
      let inside = v.inside in
      let step = loop_step src pattern pmt fuel (p + t) t a b in
      elim (eq_or_ne a b) [
        | inl e ↦
            subst (Decides src pattern)
              (sym (step (p + t + 1) (t + 1) lt room ea eb (step_same pmt a b (p + t) t e)))
              (reach_round fuel (p + t + 1) p (t + 1) again (omega arith) (omega arith) record {
                inside = omega arith;
                part = omega arith;
                agrees = Agrees-suc src pattern p t a b ea eb e v.agrees;
                later = v.later;
              })
        | inr n ↦ elim (lt_or_ge 0 t) [
          | inl pos ↦
              let e : t ≡ t - 1 + 1 = omega arith in
              let w = best (t - 1) (omega arith) in
              let short : pmt (t - 1) < 1 + (t - 1) = w.shorter in
              subst (Decides src pattern)
                (sym (step (p + t) (pmt (t - 1)) lt room ea eb (step_back pmt a b (p + t) t n pos)))
                (reach_round fuel (p + t) (p + (t - 1 + 1 - pmt (t - 1))) (pmt (t - 1)) again
                  (omega arith) (omega arith)
                  (back-Sought p (t - 1) a b (subst (Sought p) e v) (omega arith)
                    (ap (λ t. get_elem? src (p + t)) (sym e) ∙ ea)
                    (ap (get_elem? pattern) (sym e) ∙ eb) n))
          | inr le ↦
              let e : t ≡ 0 = omega arith in
              subst (Decides src pattern)
                (sym (step (p + t + 1) t lt room ea eb (step_first pmt a b (p + t) t n e)))
                (reach_round fuel (p + t + 1) (p + 1) t again (omega arith) (omega arith) record {
                  inside = omega arith;
                  part = v.part;
                  agrees = λ i l. absurd (omega arith);
                  later = λ q l occ. elim (lt_or_ge q p) [
                    | inl before ↦ v.later q before occ
                    | inr after ↦
                        let e : q ≡ p = omega arith in
                        Occurs-apart src pattern p t a b lt ea eb n
                          (subst (Occurs src pattern) e occ)
                  ];
                })
        ]
      ]

  search_loop-Decides :
      (fuel p t : ℕ)
      → 2 * (length src - (p + t)) + t < fuel
      → Sought p t
      → Decides src pattern (run fuel (p + t) t)
  search_loop-Decides zero p t f v = absurd (omega arith)
  search_loop-Decides (suc fuel) p t f v = elim (lt_or_ge t (length pattern)) [
    | inr ge ↦
        let e : t ≡ length pattern = let part = v.part in omega arith in
        inl (
          loop_found src pattern pmt fuel (p + t) t e,
          p,
          (let inside = v.inside in omega arith, subst (Agrees src pattern p) e v.agrees),
        )
    | inl lt ↦ elim (lt_or_ge (length src - (p + t)) (length pattern - t)) [
      | inl out ↦ inr (
        loop_short src pattern pmt fuel (p + t) t lt out,
        λ q occ. elim (lt_or_ge q p) [
          | inl l ↦ v.later q l occ
          | inr g ↦ let room = occ.0 in let inside = v.inside in absurd (omega arith)
        ],
      )
      | inr room ↦
          let inside = v.inside in
          let (a, ea) = get_elem?-some src (p + t) (omega arith) in
          let (b, eb) = get_elem?-some pattern t lt in
          round-Decides fuel p t a b (search_loop-Decides fuel) f v lt room ea eb
    ]
  ]

-- With strncmp as documented, the table of init_partial_match_table whatever its cells hold at
-- first, and more fuel than twice the length of the text, find_pattern reads inside the strings and
-- ends; it returns 0 and the pattern stands somewhere in the text, or 1 and it stands nowhere.
pub find_pattern-Decides :
    (strncmp : List ℕ → List ℕ → ℕ → ℤ) (src pattern : List ℕ) (cells : ℕ → ℕ) (fuel : ℕ)
    → IsStrncmp strncmp
    → 2 * length src < fuel
    → Decides src pattern (
        find_pattern src pattern
          (length src)
          (length pattern)
          (init_partial_match_table strncmp pattern cells (length pattern))
          fuel)
unfolding find_pattern
find_pattern-Decides strncmp src pattern cells fuel std lt =
    search_loop-Decides src pattern
      (init_partial_match_table strncmp pattern cells (length pattern))
      (λ i l. init_partial_match_table-IsBest strncmp std pattern cells (length pattern) i l) fuel 0
      0 (omega arith)
      record {
        inside = omega arith;
        part = omega arith;
        agrees = λ i l. absurd (omega arith);
        later = λ q l occ. absurd (omega arith);
      }
