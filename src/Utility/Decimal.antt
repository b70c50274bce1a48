-- ===== src/Utility/Decimal.antt =====
-- atoi_u32 and atoi_u64 of utility.c read back decimal numbers, and refuse what is none.
use somerubbish.Prelude.{
  ℕ, zero, suc, ◌+◌, ◌-◌, ◌*◌, ◌/◌, ◌%◌, ◌^◌, ◌<◌, ◌≡◌, refl, ap, sym, ◌∙◌, subst, true, List, [],
  ◌∷◌, ◌++◌, arith, ltb, if◌then◌else◌, ◌⊎◌, inl, inr, Bool-cases,
}
use native.Mathlib.Nat.{div-add-mod, add-mul-mod_self_left}
use somerubbish.Utility.{is_no_digit, atoi_loop, atoi_u32, atoi_u64}

-- The digits of a number, with one unit of fuel for each.
abbrev pub decimal : (fuel n : ℕ) → List ℕ
decimal zero n = []
decimal (suc fuel) n =
    let rest = decimal fuel (n / 10) in
    if ltb n 10 then (48 + n) ∷ [] else rest ++ (48 + n % 10) ∷ []

-- Some byte is no digit.
abbrev pub HasOther : List ℕ → Type 0
HasOther [] = ⊥
HasOther (c ∷ cs) = (is_no_digit c ≡ true) ⊎ HasOther cs

abbrev value : List ℕ → ℕ → ℕ
value [] i = i
value (c ∷ cs) i = value cs (10 * i + (c - 48))

step-mod : (m i d : ℕ) → (10 * (i % m) + d) % m ≡ (10 * i + d) % m
step-mod m i d =
    let e = div-add-mod i m in
    let e' : 10 * i + d ≡ 10 * (i % m) + d + m * (10 * (i / m)) = grind arith in
    sym (ap (λ x. x % m) e' ∙ add-mul-mod_self_left (10 * (i % m) + d) m (10 * (i / m)))

module _ (w : ℕ) where
  -- A text of digits is read to its value.
  atoi_loop-value :
      (cs : List ℕ) (i j : ℕ)
      → j ≡ i % 2 ^ w
      → (HasOther cs → ⊥)
      → atoi_loop w cs j ≡ value cs i % 2 ^ w
  unfolding atoi_loop
  atoi_loop-value [] i j e ok = e
  atoi_loop-value (c ∷ cs) i j e ok = elim (Bool-cases (is_no_digit c)) [
    | inl q ↦ absurd (ok (inl q))
    | inr q ↦ rw q (
        atoi_loop-value cs (10 * i + (c - 48)) ((10 * j + (c - 48)) % 2 ^ w)
          (ap (λ j. (10 * j + (c - 48)) % 2 ^ w) e ∙ step-mod (2 ^ w) i (c - 48)) (λ o. ok (inr o)))
  ]

  atoi_loop-other : (cs : List ℕ) (i : ℕ) → HasOther cs → atoi_loop w cs i ≡ 2 ^ w - 1
  unfolding atoi_loop
  atoi_loop-other [] i o = elim o [ ]
  atoi_loop-other (c ∷ cs) i (inl q) = rw q refl
  atoi_loop-other (c ∷ cs) i (inr o) = elim (Bool-cases (is_no_digit c)) [
    | inl q ↦ rw q refl
    | inr q ↦ rw q (atoi_loop-other cs ((10 * i + (c - 48)) % 2 ^ w) o)
  ]

value-append : (cs : List ℕ) (c i : ℕ) → value (cs ++ c ∷ []) i ≡ 10 * value cs i + (c - 48)
value-append [] c i = refl
value-append (d ∷ cs) c i = value-append cs c (10 * i + (d - 48))

HasOther-append :
    (cs : List ℕ) (c : ℕ) → HasOther (cs ++ c ∷ []) → HasOther cs ⊎ (is_no_digit c ≡ true)
HasOther-append [] c (inl q) = inr q
HasOther-append [] c (inr o) = elim o [ ]
HasOther-append (d ∷ cs) c (inl q) = inl (inl q)
HasOther-append (d ∷ cs) c (inr o) = elim (HasOther-append cs c o) [
  | inl o' ↦ inl (inr o')
  | inr q ↦ inr q
]

is_no_digit-digit : (d : ℕ) → d < 10 → is_no_digit (48 + d) ≡ true → ⊥
is_no_digit-digit d lt q = ground arith

value-decimal : (fuel n : ℕ) → n < 10 ^ fuel → value (decimal fuel n) 0 ≡ n
value-decimal zero n lt = omega arith
value-decimal (suc fuel) n lt = elim (Bool-cases (ltb n 10)) [
  | inl q ↦ rw q (omega arith)
  | inr q ↦
      let e = value-decimal fuel (n / 10) (omega arith) in
      rw q (value-append (decimal fuel (n / 10)) (48 + n % 10) 0 ∙ omega arith)
]

HasOther-decimal : (fuel n : ℕ) → HasOther (decimal fuel n) → ⊥
HasOther-decimal zero n o = elim o [ ]
HasOther-decimal (suc fuel) n o = elim (Bool-cases (ltb n 10)) [
  | inl q ↦ small q (subst (λ b. HasOther (if b then (48 + n) ∷ [] else more)) q o)
  | inr q ↦ large (HasOther-decimal fuel (n / 10)) (
      HasOther-append (decimal fuel (n / 10)) (48 + n % 10)
        (subst (λ b. HasOther (if b then (48 + n) ∷ [] else more)) q o))
]
  where
    more : List ℕ
    more = decimal fuel (n / 10) ++ (48 + n % 10) ∷ []

    small : ltb n 10 ≡ true → HasOther ((48 + n) ∷ []) → ⊥
    small q (inl e) = is_no_digit-digit n (ground arith) e
    small q (inr o) = elim o [ ]

    large :
        (HasOther (decimal fuel (n / 10)) → ⊥)
        → HasOther (decimal fuel (n / 10)) ⊎ (is_no_digit (48 + n % 10) ≡ true)
        → ⊥
    large before (inl o) = before o
    large before (inr e) = is_no_digit-digit (n % 10) (omega arith) e

-- The decimal digits of a number, with enough of them, are read back to the number, reduced to the
-- width of the result.
pub atoi-decimal :
    (fuel n : ℕ)
    → n < 10 ^ fuel
    → (atoi_u32 (decimal fuel n) ≡ n % 2 ^ 32) × (atoi_u64 (decimal fuel n) ≡ n % 2 ^ 64)
unfolding atoi_u32 atoi_u64
atoi-decimal fuel n lt = (
  atoi_loop-value 32 (decimal fuel n) 0 0 refl (HasOther-decimal fuel n)
      ∙ ap (λ v. v % 2 ^ 32) (value-decimal fuel n lt),
  atoi_loop-value 64 (decimal fuel n) 0 0 refl (HasOther-decimal fuel n)
      ∙ ap (λ v. v % 2 ^ 64) (value-decimal fuel n lt),
)

-- A text with a byte that is no digit, wherever it stands, gives the greatest value of the width.
pub atoi-HasOther :
    (p : List ℕ) → HasOther p → (atoi_u32 p ≡ 2 ^ 32 - 1) × (atoi_u64 p ≡ 2 ^ 64 - 1)
unfolding atoi_u32 atoi_u64
atoi-HasOther p o = (atoi_loop-other 32 p 0 o, atoi_loop-other 64 p 0 o)
