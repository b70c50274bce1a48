-- ===== src/Nss/Search.antt =====
-- binary_seach_file of nss.c. Its recursion takes fuel, `none` stands for a read outside the array
-- of children as well as for fuel that runs out; Search/Bounds shows that neither happens.
pub mod Bounds
use somerubbish.Prelude.{
  ℕ, zero, suc, ◌+◌, ◌-◌, ◌/◌, ◌%◌, ◌^◌, Bool, List, Option, none, some, ltb, leb, ◌==◌,
  if◌then◌else◌, get_elem?, ◌>>=◌,
}
use somerubbish.Prelude.Int.{ℤ, to_u32}
use somerubbish.Libc.{Name}

-- The bounds are `u32`, and so is `i`, the result of strcmp: the test `i < 0` is one of a `u32`.
unfoldable pub binary_seach_file :
    (strcmp : Name → Name → ℤ) (fuel : ℕ) (file_name : Name) (child : List Name) (low high : ℕ)
    → Option ℕ
binary_seach_file strcmp zero file_name child low high = none
binary_seach_file strcmp (suc fuel) file_name child low high =
    if leb high low
    then some low
    else (let mid = (high + low) % 2 ^ 32 / 2 in
        get_elem? child mid >>= λ name.
        let i = to_u32 (strcmp file_name name) in
        let left =
          binary_seach_file strcmp fuel file_name child low ((mid + 2 ^ 32 - 1) % 2 ^ 32) in
        let right = binary_seach_file strcmp fuel file_name child ((mid + 1) % 2 ^ 32) high in
        if ltb i 0 then left else if i == 0 then some mid else right)
