-- ===== src/Kmp/Parts.antt =====
-- Where the pattern of kmp.c, or a part of it, stands in the text.
use somerubbish.Prelude.{
  ℕ, ◌+◌, ◌-◌, ◌≤◌, ◌<◌, ◌≡◌, ◌≢◌, ap, sym, ◌∙◌, subst, List, arith, some, ◌⊎◌, inl, inr, drop,
  get_elem?, length,
}
use somerubbish.Kmp.Table.{IsBorder}
use somerubbish.Kmp.Match.{take-get_elem?, get_elem?-take_eq, get_elem?-drop}

-- The first `t` bytes of the pattern stand at `p`.
abbrev pub Agrees : (src pattern : List ℕ) (p t : ℕ) → Type 0
Agrees src pattern p t = (i : ℕ) → i < t → get_elem? src (p + i) ≡ get_elem? pattern i

abbrev pub Occurs : (src pattern : List ℕ) (p : ℕ) → Type 0
Occurs src pattern p = (p + length pattern ≤ length src) × Agrees src pattern p (length pattern)

some-injective : {a b : ℕ} → some a ≡ some b → a ≡ b
some-injective e = cc

pub lt_or_ge : (a b : ℕ) → (a < b) ⊎ (b ≤ a)
lt_or_ge a b = omega arith

pub eq_or_ne : (a b : ℕ) → (a ≡ b) ⊎ (a ≢ b)
eq_or_ne a b = ground arith

module _ (src pattern : List ℕ) where
  -- A part at both ends agrees where the later of the two does.
  pub IsBorder-Agrees :
      (p u v : ℕ)
      → v ≤ u
      → Agrees src pattern p (u + 1)
      → IsBorder pattern u v
      → Agrees src pattern (p + (u + 1 - v)) v
  IsBorder-Agrees p u v le ok b i lt =
      let e : p + (u + 1 - v) + i ≡ p + (u - v + 1 + i) = omega arith in
      ap (get_elem? src) e
      ∙ ok (u - v + 1 + i) (omega arith)
      ∙ sym (get_elem?-drop pattern (u - v + 1) i)
      ∙ sym (take-get_elem? pattern (drop (u - v + 1) pattern) v i b lt)

  -- An occurrence inside of what agrees makes such a part.
  pub Occurs-IsBorder :
      (p q u : ℕ)
      → p < q
      → q ≤ p + u
      → Agrees src pattern p (u + 1)
      → Agrees src pattern q (length pattern)
      → u < length pattern
      → IsBorder pattern u (p + (u + 1) - q)
  Occurs-IsBorder p q u lt le ok there room =
      get_elem?-take_eq pattern (drop (u - (p + (u + 1) - q) + 1) pattern) (p + (u + 1) - q) (λ i l.
        let e : p + (u - (p + (u + 1) - q) + 1 + i) ≡ q + i = omega arith in
        sym (there i (omega arith))
        ∙ ap (get_elem? src) (sym e)
        ∙ ok (u - (p + (u + 1) - q) + 1 + i) (omega arith)
        ∙ sym (get_elem?-drop pattern (u - (p + (u + 1) - q) + 1) i))

  -- Bytes that differ, so no occurrence.
  pub Occurs-apart :
      (p t a b : ℕ)
      → t < length pattern
      → get_elem? src (p + t) ≡ some a
      → get_elem? pattern t ≡ some b
      → a ≢ b
      → Occurs src pattern p
      → ⊥
  Occurs-apart p t a b lt ea eb n (room, ok) = n (some-injective (sym ea ∙ ok t lt ∙ eb))

  pub Agrees-suc :
      (p t a b : ℕ)
      → get_elem? src (p + t) ≡ some a
      → get_elem? pattern t ≡ some b
      → a ≡ b
      → Agrees src pattern p t
      → Agrees src pattern p (t + 1)
  Agrees-suc p t a b ea eb e ok i lt = elim (lt_or_ge i t) [
    | inl l ↦ ok i l
    | inr g ↦
        let q : i ≡ t = omega arith in
        subst (λ i. get_elem? src (p + i) ≡ get_elem? pattern i) (sym q) (ea ∙ ap some e ∙ sym eb)
  ]
