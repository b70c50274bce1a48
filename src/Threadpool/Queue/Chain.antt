-- ===== src/Threadpool/Queue/Chain.antt =====
-- The runners that the head of the queue leads to, and what each operation of threadpool.c does to
-- them.
use somerubbish.Prelude.{
  ℕ, ◌+◌, ◌≤◌, ◌≡◌, refl, ap, List, [], ◌∷◌, ◌++◌, Option, none, some, arith, ◌==◌, if◌then◌else◌,
}
use somerubbish.Threadpool.Queue.{TaskRunner, Store, write}

-- A runner with its address.
pub record Runner : Type 0 where
  pub addr : ℕ
  pub task_func : ℕ
  pub arg : ℕ

-- The runner is allocated, with this link.
abbrev pub Holds : Store → Runner → Option ℕ → Type 0
Holds h e n = h e.addr ≡ some (record { task_func = e.task_func; arg = e.arg; next = n })

-- The pointer leads to these runners and ends with NULL.
abbrev pub Chain : Store → Option ℕ → List Runner → Type 0
Chain h p [] = p ≡ none
Chain h p (e ∷ es) = (p ≡ some e.addr) × (n : Option ℕ) × Holds h e n × Chain h n es

-- These runners are allocated.
abbrev pub AllHeld : Store → List Runner → Type 0
AllHeld h [] = Unit
AllHeld h (e ∷ es) = ((n : Option ℕ) × Holds h e n) × AllHeld h es

abbrev pub copies : ℕ → List Runner → ℕ
copies a [] = 0
copies a (e ∷ es) = (if e.addr == a then 1 else 0) + copies a es

abbrev pub last_addr : List Runner → Option ℕ
last_addr [] = none
last_addr (e ∷ []) = some e.addr
last_addr (e ∷ f ∷ es) = last_addr (f ∷ es)

pub copies-append : (a : ℕ) (xs ys : List Runner) → copies a (xs ++ ys) ≡ copies a xs + copies a ys
copies-append a [] ys = omega arith
copies-append a (e ∷ xs) ys = omega (arith, copies-append a xs ys)

-- A write to an address that no runner has.
pub Chain-write :
    (h : Store) (a : ℕ) (v : Option TaskRunner) (p : Option ℕ) (es : List Runner)
    → copies a es ≡ 0
    → Chain h p es
    → Chain (write h a v) p es
unfolding write
Chain-write h a v p [] z c = c
Chain-write h a v p (e ∷ es) z (q, n, held, rest) =
    (q, n, ground (arith, z, held), Chain-write h a v n es (ground (arith, z)) rest)

pub AllHeld-write :
    (h : Store) (a : ℕ) (v : Option TaskRunner) (es : List Runner)
    → copies a es ≡ 0
    → AllHeld h es
    → AllHeld (write h a v) es
unfolding write
AllHeld-write h a v [] z c = tt
AllHeld-write h a v (e ∷ es) z ((n, held), rest) =
    ((n, ground (arith, z, held)), AllHeld-write h a v es (ground (arith, z)) rest)

-- A free address is the address of no runner.
pub copies-Chain :
    (h : Store) (a : ℕ) (p : Option ℕ) (es : List Runner)
    → h a ≡ none
    → Chain h p es
    → copies a es ≡ 0
copies-Chain h a p [] z c = refl
copies-Chain h a p (e ∷ es) z (q, n, held, rest) =
    ground (arith, z, held, copies-Chain h a n es z rest, ap h)

pub copies-AllHeld :
    (h : Store) (a : ℕ) (es : List Runner) → h a ≡ none → AllHeld h es → copies a es ≡ 0
copies-AllHeld h a [] z c = refl
copies-AllHeld h a (e ∷ es) z ((n, held), rest) =
    ground (arith, z, held, copies-AllHeld h a es z rest, ap h)

-- A runner is at most once in a list.
abbrev pub Once : List Runner → Type 0
Once es = (a : ℕ) → copies a es ≤ 1

pub copies-last : (b : ℕ) (es : List Runner) → last_addr es ≡ some b → 1 ≤ copies b es
copies-last b [] l = ground (arith, l)
copies-last b (e ∷ []) l = ground (arith, l)
copies-last b (e ∷ f ∷ es) l = omega (arith, copies-last b (f ∷ es) l)

-- A runner that ends its list, linked behind the last one.
pub Chain-append :
    (h : Store) (p : Option ℕ) (es : List Runner) (e : Runner) (b : ℕ)
    → last_addr es ≡ some b
    → Chain h p es
    → Holds h e none
    → Once (e ∷ es)
    → (last : TaskRunner) × (h b ≡ some last)
      × Chain (write h b (some (record last { next = some e.addr }))) p (es ++ e ∷ [])
unfolding write
Chain-append h p [] e b l c new once = ground (arith, l)
Chain-append h p (x ∷ []) e b l (q, n, held, rest) new once = (
  record { task_func = x.task_func; arg = x.arg; next = n },
  ground (arith, l, held, ap h),
  (q, some e.addr, ground (arith, l), (refl, none, ground (arith, l, new, once e.addr), refl)),
)
Chain-append h p (x ∷ y ∷ es) e b l (q, n, held, rest) new once =
    let (last, r, c) = Chain-append h n (y ∷ es) e b l rest new (λ a. omega (arith, once a)) in
    (last, r, (q, n, ground (arith, held, once x.addr, copies-last b (y ∷ es) l), c))

pub last_addr-append : (es : List Runner) (e : Runner) → last_addr (es ++ e ∷ []) ≡ some e.addr
last_addr-append [] e = refl
last_addr-append (x ∷ []) e = refl
last_addr-append (x ∷ y ∷ es) e = last_addr-append (y ∷ es) e

-- One more runner, whose address no other has.
pub Once-fresh : (e : Runner) (es : List Runner) → copies e.addr es ≡ 0 → Once es → Once (e ∷ es)
Once-fresh e es z once a = ground (arith, z, once a, λ (q : e.addr ≡ a). ap (λ b. copies b es) q)

pub last_addr-some : (x : Runner) (es : List Runner) → (b : ℕ) × (last_addr (x ∷ es) ≡ some b)
last_addr-some x [] = (x.addr, refl)
last_addr-some x (y ∷ es) = last_addr-some y es

pub AllHeld-mid :
    (h : Store) (before after : List Runner) (e : Runner)
    → AllHeld h (before ++ e ∷ after)
    → ((n : Option ℕ) × Holds h e n) × AllHeld h (before ++ after)
AllHeld-mid h [] after e v = v
AllHeld-mid h (x ∷ before) after e (w, v) =
    let (m, r) = AllHeld-mid h before after e v in (m, (w, r))

-- The order of the lists does not matter for what stands once.
pub Once-mid :
    (queue before after : List Runner) (e : Runner)
    → Once (queue ++ (before ++ e ∷ after))
    → Once (e ∷ (queue ++ (before ++ after)))
Once-mid queue before after e once a = omega (
  arith,
  once a,
  copies-append a queue (before ++ e ∷ after),
  copies-append a before (e ∷ after),
  copies-append a queue (before ++ after),
  copies-append a before after,
)

-- What stands once is not among the others.
pub Once-others : (e : Runner) (es : List Runner) → Once (e ∷ es) → copies e.addr es ≡ 0
Once-others e es once = ground (arith, once e.addr)
