-- ===== src/Base/Lists.antt =====
-- Lists measured by native numbers, under the library's names, and predicates over their items.
use Prim.Native.Nat.{ℕ, zero, suc, ◌+◌, ◌<◌}
use mathlib.Core.Path.{◌≡◌, refl, ap, sym, subst, ◌∙◌}
use mathlib.Core.Logic.{◌≢◌, ◌⊎◌, inl, inr}
use mathlib.Core.Bool.{Bool, true}
use mathlib.Core.List.{List, [], ◌∷◌, ◌++◌, map}
use mathlib.Core.Option.{Option, none, some}
use native.Mathlib.Omega.{arith}
use oro.Base.Tests.{if◌then◌else◌, if_cases}

module _ {ℓ} {A : Type ℓ} where
  abbrev pub length : List A → ℕ
  length [] = 0
  length (x ∷ xs) = suc (length xs)

  abbrev pub get_elem? : List A → ℕ → Option A
  get_elem? [] i = none
  get_elem? (x ∷ xs) zero = some x
  get_elem? (x ∷ xs) (suc i) = get_elem? xs i

  pub length-append : (xs ys : List A) → length (xs ++ ys) ≡ length xs + length ys
  length-append [] ys = omega arith
  length-append (x ∷ xs) ys = omega (arith, length-append xs ys)

  pub append-nil : (xs : List A) → xs ++ [] ≡ xs
  append-nil [] = refl
  append-nil (x ∷ xs) = ap (◌∷◌ x) (append-nil xs)

  pub get_elem?_below : (xs : List A) (i : ℕ) → i < length xs → (x : A) × (get_elem? xs i ≡ some x)
  get_elem?_below [] i h = elim h [ ]
  get_elem?_below (x ∷ xs) zero h = (x, refl)
  get_elem?_below (x ∷ xs) (suc i) h = get_elem?_below xs i (omega arith)

  pub get_elem?-append :
      (xs ys : List A) (i : ℕ) → i < length xs → get_elem? (xs ++ ys) i ≡ get_elem? xs i
  get_elem?-append [] ys i h = absurd (omega arith)
  get_elem?-append (x ∷ xs) ys zero h = refl
  get_elem?-append (x ∷ xs) ys (suc i) h = get_elem?-append xs ys i (omega arith)

  pub get_elem?-last : (xs : List A) (y : A) → get_elem? (xs ++ y ∷ []) (length xs) ≡ some y
  get_elem?-last [] y = refl
  get_elem?-last (x ∷ xs) y = get_elem?-last xs y

  -- an index with an item stays one when items are appended
  pub get_elem?-some-append :
      (xs ys : List A) (i : ℕ) (x : A) → get_elem? xs i ≡ some x → get_elem? (xs ++ ys) i ≡ some x
  get_elem?-some-append [] ys i x h = absurd cc
  get_elem?-some-append (y ∷ xs) ys zero x h = h
  get_elem?-some-append (y ∷ xs) ys (suc i) x h = get_elem?-some-append xs ys i x h

module _ {ℓ κ} {A : Type ℓ} (P : A → Type κ) where
  -- Every item satisfies `P`.
  abbrev pub All : List A → Type κ
  All [] = Unit
  All (x ∷ xs) = P x × All xs

  pub All-append : (xs ys : List A) → All xs → All ys → All (xs ++ ys)
  All-append [] ys hx hy = hy
  All-append (x ∷ xs) ys hx hy = (hx.0, All-append xs ys hx.1 hy)

pub All-weaken {ℓ κ} :
    {A : Type ℓ} {P Q : A → Type κ} → ((x : A) → P x → Q x) → (xs : List A) → All P xs → All Q xs
All-weaken f [] h = tt
All-weaken f (x ∷ xs) h = (f x h.0, All-weaken f xs h.1)

module _ {ℓ} {A B : Type ℓ} where
  pub length-map : (f : A → B) (xs : List A) → length (map f xs) ≡ length xs
  length-map f [] = refl
  length-map f (x ∷ xs) = ap suc (length-map f xs)

module _ {ℓ} {A : Type ℓ} where
  -- No item occurs twice.
  abbrev pub Distinct : List A → Type ℓ
  Distinct [] = Unit
  Distinct (x ∷ xs) = All (λ y. y ≢ x) xs × Distinct xs

  pub Distinct-snoc :
      (xs : List A) (x : A) → Distinct xs → All (λ y. y ≢ x) xs → Distinct (xs ++ x ∷ [])
  Distinct-snoc [] x d n = (tt, tt)
  Distinct-snoc (y ∷ ys) x d n =
      (All-append (λ z. z ≢ y) ys (x ∷ []) d.0 (λ e. n.0 (sym e), tt), Distinct-snoc ys x d.1 n.1)

module _ {A : Type 0} where
  abbrev pub Member : A → List A → Type 0
  Member x [] = ⊥
  Member x (y ∷ ys) = (x ≡ y) ⊎ Member x ys

  abbrev pub filter : (A → Bool) → List A → List A
  filter p [] = []
  filter p (x ∷ xs) = let rest = filter p xs in if p x then x ∷ rest else rest

  pub Member-filter :
      (p : A → Bool) (xs : List A) {x : A} → Member x (filter p xs) → Member x xs × (p x ≡ true)
  Member-filter p [] h = elim h [ ]
  Member-filter p (y ∷ ys) {x} h =
      let rec = Member-filter p ys {x = x} in
      if_cases (λ l. Member x l → Member x (y ∷ ys) × (p x ≡ true)) (p y)
        (λ e m. elim m [ inl q ↦ (inl q, ap p q ∙ e) | inr m' ↦ (inr (rec m').0, (rec m').1) ])
        (λ _ m. (inr (rec m).0, (rec m).1)) h

  pub filter-Member :
      (p : A → Bool) (xs : List A) {x : A} → Member x xs → p x ≡ true → Member x (filter p xs)
  filter-Member p [] h q = h
  filter-Member p (y ∷ ys) {x} (inl e) q =
      subst (λ b. Member x (if b then y ∷ filter p ys else filter p ys)) (sym (ap p (sym e) ∙ q))
        (inl e)
  filter-Member p (y ∷ ys) {x} (inr m) q =
      if_cases (λ l. Member x l) (p y) (λ _. inr (filter-Member p ys m q))
        (λ _. filter-Member p ys m q)

  pub Member-snoc : (xs : List A) (y : A) {x : A} → Member x (xs ++ y ∷ []) → Member x xs ⊎ (x ≡ y)
  Member-snoc [] y (inl e) = inr e
  Member-snoc [] y (inr m) = elim m [ ]
  Member-snoc (z ∷ zs) y (inl e) = inl (inl e)
  Member-snoc (z ∷ zs) y (inr m) = elim (Member-snoc zs y m) [
    | inl m' ↦ inl (inr m')
    | inr e ↦ inr e
  ]

  pub snoc-Member : (xs : List A) (y : A) → Member y (xs ++ y ∷ [])
  snoc-Member [] y = inl refl
  snoc-Member (z ∷ zs) y = inr (snoc-Member zs y)

  pub append-Member : (xs ys : List A) (x : A) → Member x xs → Member x (xs ++ ys)
  append-Member [] ys x m = elim m [ ]
  append-Member (z ∷ zs) ys x (inl e) = inl e
  append-Member (z ∷ zs) ys x (inr m) = inr (append-Member zs ys x m)

module _ {A B : Type 0} (f : A → B) where
  pub Member-map : (xs : List A) {y : B} → Member y (map f xs) → (x : A) × Member x xs × (y ≡ f x)
  Member-map [] h = elim h [ ]
  Member-map (x ∷ xs) (inl e) = (x, inl refl, e)
  Member-map (x ∷ xs) (inr m) = let (a, m', e) = Member-map xs m in (a, inr m', e)

  pub map-Member : (xs : List A) (x : A) → Member x xs → Member (f x) (map f xs)
  map-Member [] x m = elim m [ ]
  map-Member (z ∷ zs) x (inl e) = inl (ap f e)
  map-Member (z ∷ zs) x (inr m) = inr (map-Member zs x m)
