-- ===== src/Prelude/Outcome.antt =====
-- Correctness of code that may fail: a value that it returns has a property, and it returns one, at
-- once or where a condition holds.
use mathlib.Core.Path.{◌≡◌, refl, ap, sym, subst, ◌∙◌}
use mathlib.Core.Option.{Option, none, some, some-injective}
use somerubbish.Prelude.Tests.{◌>>=◌}

module _ {ℓ κ} {A : Type ℓ} where
  abbrev pub Returns : (A → Type κ) → Option A → Type (ℓ ⊔ κ)
  Returns P o = (a : A) × (o ≡ some a) × P a

  pub Returns-bind {κ'} :
      {B : Type ℓ} (P : A → Type κ) (Q : B → Type κ') (o : Option A) (f : A → Option B)
      → Returns P o
      → ((a : A) → P a → (b : B) × (f a ≡ some b) × Q b)
      → (b : B) × ((o >>= f) ≡ some b) × Q b
  Returns-bind P Q o f (a, e, p) k = let (b, e', q) = k a p in (b, ap (λ x. x >>= f) e ∙ e', q)

  -- What is returned has the property; under the condition something is returned.
  abbrev pub ReturnsIf : Type κ → (A → Type κ) → Option A → Type (ℓ ⊔ κ)
  ReturnsIf H P o = ((a : A) → o ≡ some a → P a) × (H → Returns P o)

  pub Returns-ReturnsIf :
      (H : Type κ) (P : A → Type κ) (o : Option A) → Returns P o → ReturnsIf H P o
  Returns-ReturnsIf H P o (a, e, p) = (λ b e'. same b (sym e ∙ e'), λ h. (a, e, p))
    where
      same : (b : A) → some a ≡ some b → P b
      same b q = subst P (some-injective a b q) p

pub ReturnsIf-bind {ℓ κ} :
    {A B : Type ℓ} (H : Type κ) (P : A → Type κ) (Q : B → Type κ) (o : Option A) (f : A → Option B)
    → ReturnsIf H P o
    → ((a : A) → P a → ReturnsIf H Q (f a))
    → ReturnsIf H Q (o >>= f)
ReturnsIf-bind {A = A} {B = B} H P Q o f (p, r) k = (
  part o p,
  λ h. let (a, e, pa) = r h in let (b, e', q) = (k a pa).1 h in (b, ap (λ x. x >>= f) e ∙ e', q),
)
  where
    part : (o : Option A) → ((a : A) → o ≡ some a → P a) → (b : B) → (o >>= f) ≡ some b → Q b
    part none p b e = absurd cc
    part (some a) p b e = (k a (p a refl)).0 b e
