-- ===== src/Nss/Search/Bounds.antt =====
-- Which indices binary_seach_file of nss.c looks at.
use somerubbish.Prelude.{
  ℕ, zero, suc, ◌+◌, ◌-◌, ◌/◌, ◌%◌, ◌^◌, ◌≤◌, ◌<◌, ◌≡◌, ◌≢◌, ◌⊎◌, inl, inr, refl, false, List,
  Option, some, arith, ltb, leb, ◌==◌, if◌then◌else◌, length, get_elem?, ◌>>=◌, ap, Bool-cases,
  get_elem?-some,
}
use somerubbish.Prelude.Int.{ℤ, pos, negsuc, to_u32}
use somerubbish.Libc.{Name, IsInt, IsStrcmp}
use somerubbish.Nss.Search.{binary_seach_file}

to_u32-eq-zero : (z : ℤ) → IsInt z → to_u32 z ≡ 0 → z ≡ pos 0
unfolding to_u32
to_u32-eq-zero (pos n) h e = ap pos (omega arith)
to_u32-eq-zero (negsuc n) h e = absurd (omega arith)

module _ (strcmp : Name → Name → ℤ) (name : Name) (child : List Name) where
  -- A run over a range ends at the upper end of the range, or in the upper half at a name that
  -- compares equal.
  pub data Ends (low high : ℕ) : Option ℕ → Type 0 where
    at_end : {r : ℕ} → r ≡ high → Ends low high (some r)
    at_hit :
        {r : ℕ} (n : Name)
        → (high + low) / 2 ≤ r
        → r < high
        → get_elem? child r ≡ some n
        → to_u32 (strcmp name n) ≡ 0
        → Ends low high (some r)

  Ends-widen : {low mid high : ℕ} {o : Option ℕ} → low ≤ mid → Ends mid high o → Ends low high o
  Ends-widen h (at_end e) = at_end e
  Ends-widen h (at_hit n lo hi e z) = at_hit n (omega arith) hi e z

  binary_seach_file-Ends :
      (fuel low high : ℕ)
      → high - low < fuel
      → low ≤ high
      → high < length child
      → length child < 2 ^ 31
      → Ends low high (binary_seach_file strcmp fuel name child low high)
  unfolding binary_seach_file
  binary_seach_file-Ends zero low high f o h s = absurd (omega arith)
  binary_seach_file-Ends (suc fuel) low high f o h s = elim (Bool-cases (leb high low)) [
    | inl e ↦ rw e (at_end (ground arith))
    | inr e ↦
        let lt : low < high = ground arith in
        let mid_is : (high + low) % 2 ^ 32 / 2 ≡ (high + low) / 2 = omega arith in
        rw (e, mid_is)
          (at_mid lt ((high + low) / 2) refl (
            binary_seach_file-Ends fuel ((high + low) / 2 + 1) high (omega arith) (omega arith) h
              s))
  ]
    where
      at_mid :
          low < high
          → (mid : ℕ) → mid ≡ (high + low) / 2
          → Ends (mid + 1) high (binary_seach_file strcmp fuel name child (mid + 1) high)
          → Ends low high (
              get_elem? child mid >>= λ n.
              let i = to_u32 (strcmp name n) in
              if ltb i 0
              then binary_seach_file strcmp fuel name child low ((mid + 2 ^ 32 - 1) % 2 ^ 32)
              else if i == 0
              then some mid
              else binary_seach_file strcmp fuel name child ((mid + 1) % 2 ^ 32) high)
      at_mid lt mid m rest =
          let (n, found) = get_elem?-some child mid (omega arith) in
          let next : (mid + 1) % 2 ^ 32 ≡ mid + 1 = omega arith in
          let never : ltb (to_u32 (strcmp name n)) 0 ≡ false = ground arith in
          rw (found, never, next)
            (elim (Bool-cases (to_u32 (strcmp name n) == 0)) [
              | inl e ↦ rw e (at_hit n (omega arith) (omega arith) found (ground arith))
              | inr e ↦ rw e (Ends-widen (omega arith) rest)
            ])

-- The search as the code calls it, over all of the children.
abbrev pub search_children : (Name → Name → ℤ) → Name → List Name → Option ℕ
search_children strcmp name child =
    binary_seach_file strcmp (length child) name child 0 (length child - 1)

module _ (strcmp : Name → Name → ℤ) (spec : IsStrcmp strcmp) (name : Name) (child : List Name) where
  -- On a directory with children the search always ends inside the array. What it returns is the
  -- last index, or the index of the name, and then one in the upper half.
  pub search_children-bounds :
      0 < length child
      → length child < 2 ^ 31
      → (r : ℕ) × (search_children strcmp name child ≡ some r)
        × (r < length child)
        × ((r ≡ length child - 1)
            ⊎ (((length child - 1) / 2 ≤ r) × (get_elem? child r ≡ some name)))
  search_children-bounds some_child small = read (
      binary_seach_file-Ends strcmp name child (length child) 0 (length child - 1) (omega arith)
        (omega arith) (omega arith) small)
    where
      read :
          {o : Option ℕ}
          → Ends strcmp name child 0 (length child - 1) o
          → (r : ℕ) × (o ≡ some r)
            × (r < length child)
            × ((r ≡ length child - 1)
                ⊎ (((length child - 1) / 2 ≤ r) × (get_elem? child r ≡ some name)))
      read (at_end {r} e) = (r, refl, omega arith, inl e)
      read (at_hit {r} n lo hi found z) =
          let same : name ≡ n =
            (spec.zero_iff name n).0 (to_u32-eq-zero (strcmp name n) (spec.int name n) z) in
          (r, refl, omega arith, inr (omega arith, rw same found))

  -- A name that stands in the lower half of the children alone is not found: the index that the
  -- search returns is that of another child.
  pub search_children-misses :
      length child < 2 ^ 31
      → ((i : ℕ) → get_elem? child i ≡ some name → i < (length child - 1) / 2)
      → 0 < length child
      → (r : ℕ) × (search_children strcmp name child ≡ some r)
        × (r < length child)
        × (get_elem? child r ≢ some name)
  search_children-misses small lower some_child =
      let (r, e, h, d) = search_children-bounds some_child small in
      (r, e, h, λ f. ground (arith, lower r f))
