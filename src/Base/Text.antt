-- ===== src/Base/Text.antt =====
-- The functions of Go's `strings`, `strconv` and `sort` that the program uses, over native texts.
-- Case and white space are those of ASCII.
use Prim.Native.Nat.{ℕ, zero, suc, ◌<◌, ◌+◌, ◌/◌, ◌%◌}
use Prim.Native.Char.{Char, code}
use Prim.Native.String.{String, compare, count}
use mathlib.Core.Path.{◌≡◌, refl, ap}
use mathlib.Core.Logic.{inl, inr}
use native.Mathlib.Omega.{arith}
use mathlib.Core.Bool.{Bool, true, false, ◌&&◌, ◌||◌}
use mathlib.Core.List.{List, [], ◌∷◌}
use text.Mathlib.Text.{◌==◌ as str_eq, starts_with, is_le}
use text.Mathlib.TextEquality.{eq_iff}
use oro.Base.Tests.{Bool-cases, eqb, leb, ltb, if◌then◌else◌}

infixr 65 ◌⋄◌
-- Go's + on strings.
abbrev pub ◌⋄◌ : String → String → String
s ⋄ t = Prim.Native.String.◌++◌ s t

infix 50 ◌==◌
abbrev pub ◌==◌ : String → String → Bool
s == t = str_eq s t

unfoldable pub str_discrete : Discrete String
str_discrete s t =
    elim (str_eq s t) as (λ b. (str_eq s t ≡ b) → Dec (s ≡ t)) [
      | true ↦ λ e. yes ((eq_iff s t).0 e)
      | false ↦ λ e. no (λ p. cc ((eq_iff s t).1 p))
    ]
      refl

pub count-ne : (s : String) → 0 < count s → (s == "") ≡ false
count-ne s positive = elim (Bool-cases (s == "")) [
  | inl empty ↦ absurd (omega (arith, positive, ap count ((eq_iff s "").0 empty)))
  | inr other ↦ other
]

-- strings.Join(parts, sep)
unfoldable pub join : String → List String → String
join sep [] = ""
join sep (p ∷ []) = p
join sep (p ∷ q ∷ ps) = p ⋄ sep ⋄ join sep (q ∷ ps)

-- strings.ReplaceAll(s, c, by) at a single character
unfoldable pub replace_all : String → ℕ → String → String
replace_all String.[] c by = ""
replace_all (String.◌∷◌ d s) c by =
    let rest = replace_all s c by in if eqb (code d) c then by ⋄ rest else String.◌∷◌ d rest

-- strings.Split(s, c) at a single character: the first part, and the others
unfoldable pub split_first : String → ℕ → String × List String
split_first String.[] c = ("", [])
split_first (String.◌∷◌ d s) c =
    let (p, ps) = split_first s c in if eqb (code d) c then ("", p ∷ ps) else (String.◌∷◌ d p, ps)

unfoldable pub split : String → ℕ → List String
unfolding split_first
split s c = let (p, ps) = split_first s c in p ∷ ps

-- strings.Contains(s, sub)
unfoldable pub contains : String → String → Bool
contains String.[] sub = sub == ""
contains (String.◌∷◌ d s) sub = starts_with (String.◌∷◌ d s) sub || contains s sub

abbrev pub lower_code : ℕ → ℕ
lower_code c = if leb b'A' c && leb c b'Z' then c + 32 else c

-- the letter beside `c` in the second text, at its place in the first
lower_in : Char → String → String → Char
lower_in c (String.◌∷◌ u us) (String.◌∷◌ l ls) =
    let rest = lower_in c us ls in if eqb (code c) (code u) then l else rest
lower_in c _ _ = c

-- strings.ToLower(s)
unfoldable pub to_lower : String → String
unfolding lower_in
to_lower String.[] = ""
to_lower (String.◌∷◌ c s) =
    String.◌∷◌ (lower_in c "ABCDEFGHIJKLMNOPQRSTUVWXYZ" "abcdefghijklmnopqrstuvwxyz") (to_lower s)

abbrev is_space : Char → Bool
is_space c = leb 9 (code c) && leb (code c) 13 || eqb (code c) b' '

-- strings.TrimLeftFunc and strings.TrimRightFunc
unfoldable pub trim_left : (Char → Bool) → String → String
trim_left cut String.[] = ""
trim_left cut (String.◌∷◌ c s) =
    let rest = trim_left cut s in if cut c then rest else String.◌∷◌ c s

unfoldable pub trim_right : (Char → Bool) → String → String
trim_right cut String.[] = ""
trim_right cut (String.◌∷◌ c s) =
    let rest = trim_right cut s in if cut c && (rest == "") then "" else String.◌∷◌ c rest

-- strings.TrimSpace(s)
unfoldable pub trim_space : String → String
unfolding trim_left trim_right
trim_space s = trim_right is_space (trim_left is_space s)

-- strings.Fields(s): the word at the front, and the words behind it
fields_first : String → String × List String
fields_first String.[] = ("", [])
fields_first (String.◌∷◌ c s) =
    let (w, ws) = fields_first s in
    if is_space c then ("", if w == "" then ws else w ∷ ws) else (String.◌∷◌ c w, ws)

unfoldable pub fields : String → List String
unfolding fields_first
fields s = let (w, ws) = fields_first s in if w == "" then ws else w ∷ ws

-- strings.Repeat(s, n)
unfoldable pub repeat : String → ℕ → String
repeat s zero = ""
repeat s (suc n) = s ⋄ repeat s n

-- the text at a place, "9" past the end
abbrev pub pick : List String → ℕ → String
pick [] d = "9"
pick (x ∷ xs) zero = x
pick (x ∷ xs) (suc d) = pick xs d

abbrev pub low_digits : List String
low_digits = "0" ∷ "1" ∷ "2" ∷ "3" ∷ "4" ∷ "5" ∷ "6" ∷ "7" ∷ "8" ∷ []

abbrev pub digit : ℕ → String
digit d = pick low_digits d

-- the decimal digits of a number below 2 ^ fuel
unfoldable pub decimal : ℕ → ℕ → String
decimal zero n = ""
decimal (suc fuel) n =
    let higher = decimal fuel (n / 10) in if ltb n 10 then digit n else higher ⋄ digit (n % 10)

-- strconv.Itoa at a number that is not negative: n + 1 rounds are enough
unfoldable pub itoa : ℕ → String
unfolding decimal
itoa n = decimal (suc n) n

-- sort.Strings
insert_sorted : String → List String → List String
insert_sorted x [] = x ∷ []
insert_sorted x (y ∷ ys) =
    let rest = insert_sorted x ys in if is_le (compare x y) then x ∷ y ∷ ys else y ∷ rest

unfoldable pub sort : List String → List String
unfolding insert_sorted
sort [] = []
sort (x ∷ xs) = insert_sorted x (sort xs)

text_tests :
    (fields (to_lower "  IS  Not\tnull ") ≡ "is" ∷ "not" ∷ "null" ∷ [])
    × (trim_space " a b " ≡ "a b")
    × (split "a.b." b'.' ≡ "a" ∷ "b" ∷ "" ∷ [])
    × (itoa 1730 ≡ "1730")
    × (sort ("b" ∷ "a" ∷ []) ≡ "a" ∷ "b" ∷ [])
    × (join ", " ("a" ∷ "b" ∷ []) ≡ "a, b")
    × (contains "abc" "bc" ≡ true)
unfolding fields to_lower trim_space split itoa sort join contains
text_tests = (refl, refl, refl, refl, refl, refl, refl)
