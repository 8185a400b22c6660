-- ===== src/StatementCache/Counts.antt =====
-- Counting the users of a statement.
use oro.Base.{ℕ, suc, ◌-◌, List, [], ◌∷◌, ◌≡◌, ◌≢◌, arith}
use oro.StatementCache.Steps.{count, remove}

pub count-cons_self : (x : ℕ) (xs : List ℕ) → count x (x ∷ xs) ≡ suc (count x xs)
count-cons_self x xs = ground arith

pub count-cons_ne : (x y : ℕ) (xs : List ℕ) → y ≢ x → count x (y ∷ xs) ≡ count x xs
count-cons_ne x y xs h = ground arith

pub count-remove_self : (x : ℕ) (xs : List ℕ) → count x (remove x xs) ≡ count x xs - 1
count-remove_self x [] = omega arith
count-remove_self x (y ∷ ys) = ground (arith, count-remove_self x ys)

pub count-remove_ne : (x y : ℕ) (xs : List ℕ) → y ≢ x → count x (remove y xs) ≡ count x xs
count-remove_ne x y [] h = omega arith
count-remove_ne x y (z ∷ zs) h = ground (arith, count-remove_ne x y zs)
