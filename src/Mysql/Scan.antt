-- ===== src/Mysql/Scan.antt =====
-- How MySQL reads a text for placeholders: a `?` counts unless it stands in a quoted identifier or in
-- a string, where a backslash hides the character behind it. Comments and strings in double quotes are
-- read as plain text; the dialect writes neither.
use oro.Base.{
  ℕ, zero, suc, ◌+◌, ◌≡◌, refl, subst, String, List, [], ◌∷◌, map, eqb, if◌then◌else◌, arith, ltb,
  ◌/◌, ◌%◌, if_cases,
}
use Prim.Native.String.append
use Prim.Native.Char.{code}
use oro.Base.Text.{◌⋄◌, join, replace_all, split, split_first, decimal, itoa, digit, pick}
use oro.Mysql.Ident.{quote_ident, quote_part}

pub data Mode : Type 0 where
  plain ident string hidden : Mode

pub step : Mode → ℕ → Mode × ℕ
step plain c =
    if eqb c b'`'
    then (ident, 0)
    else if eqb c b'\''
    then (string, 0)
    else if eqb c b'?'
    then (plain, 1)
    else (plain, 0)
step ident c = if eqb c b'`' then (plain, 0) else (ident, 0)
step string c = if eqb c b'\'' then (plain, 0) else if eqb c b'\\' then (hidden, 0) else (string, 0)
step hidden c = (string, 0)

-- the mode at the end of a text, and its placeholders
unfoldable pub scan : Mode → String → Mode × ℕ
unfolding step
scan m String.[] = (m, 0)
scan m (String.◌∷◌ c s) = let (m', k) = step m (code c) in let (m'', n) = scan m' s in (m'', k + n)

pub scan-append :
    (m : Mode) (s t : String)
    → scan m (s ⋄ t) ≡ ((scan (scan m s).0 t).0, (scan m s).1 + (scan (scan m s).0 t).1)
unfolding scan
scan-append m String.[] t = rw (append.nil t) (ground arith)
scan-append m (String.◌∷◌ c s) t =
    rw (append.cons c s t) (ground (arith, scan-append (step m (code c)).0 s t))

-- A text that is read from plain mode back to plain mode, with `k` placeholders.
pub record Frag (s : String) (k : ℕ) : Type 0 where
  pub at : scan plain s ≡ (plain, k)

-- a text of the source, by evaluation
pub lit : (s : String) {k : ℕ} → scan plain s ≡ (plain, k) → Frag s k
lit s e = record { at = e }

infixr 6 ◌▹◌
pub ◌▹◌ : {s t : String} {k l : ℕ} → Frag s k → Frag t l → Frag (s ⋄ t) (k + l)
◌▹◌ {s} {t} p q = record { at = rw (scan-append, p.at, q.at) refl }

pub Frag-count : {s : String} {k l : ℕ} → k ≡ l → Frag s k → Frag s l
Frag-count {s} e p = subst (Frag s) e p

-- The parts are such texts, with `n` placeholders in all.
pub data Parts : List String → ℕ → Type 0 where
  none_left : Parts [] 0
  part : {p : String} {ps : List String} {k n : ℕ} → Frag p k → Parts ps n → Parts (p ∷ ps) (k + n)

pub Parts-count : {ps : List String} {k l : ℕ} → k ≡ l → Parts ps k → Parts ps l
Parts-count {ps} e p = subst (Parts ps) e p

pub join-Frag :
    {sep : String} {ps : List String} {n : ℕ} → Frag sep 0 → Parts ps n → Frag (join sep ps) n
unfolding join scan
join-Frag h none_left = lit "" refl
join-Frag h (part f none_left) = Frag-count (omega arith) f
join-Frag h (part f (part g r)) = Frag-count (omega arith) (f ▹ h ▹ join-Frag h (part g r))

replace_all-ident : (s : String) → scan ident (replace_all s b'`' "``") ≡ (ident, 0)
unfolding scan replace_all
replace_all-ident String.[] = refl
replace_all-ident (String.◌∷◌ c s) =
    if_cases (λ r. scan ident r ≡ (ident, 0)) (eqb (code c) b'`')
      (λ e. rw (scan-append, replace_all-ident s)) (λ e. ground (arith, replace_all-ident s))

pub quote_part-Frag : (p : String) → Frag (quote_part p) 0
unfolding scan
quote_part-Frag p = record { at = rw (scan-append, scan-append, replace_all-ident p) refl }

pub map-Parts :
    (f : String → String) → ((p : String) → Frag (f p) 0) → (ps : List String) → Parts (map f ps) 0
map-Parts f h [] = none_left
map-Parts f h (p ∷ ps) = part (h p) (map-Parts f h ps)

-- A quoted identifier closes its quotes and holds no placeholder, whatever the name is.
pub quote_ident-Frag : (name : String) → Frag (quote_ident name) 0
unfolding quote_ident split split_first scan
quote_ident-Frag name =
    join-Frag (lit "." refl) (map-Parts quote_part quote_part-Frag (split name b'.'))

pub quoted-Parts : (names : List String) → Parts (map quote_ident names) 0
quoted-Parts = map-Parts quote_ident quote_ident-Frag

pick-Frag : {xs : List String} {n : ℕ} → Parts xs n → n ≡ 0 → (d : ℕ) → Frag (pick xs d) 0
unfolding scan
pick-Frag none_left e d = lit "9" refl
pick-Frag (part f r) e zero = Frag-count (omega arith) f
pick-Frag (part f r) e (suc d) = pick-Frag r (omega arith) d

digit-Frag : (d : ℕ) → Frag (digit d) 0
unfolding scan
digit-Frag =
    pick-Frag
      (part (lit "0" refl) (
        part (lit "1" refl) (
          part (lit "2" refl) (
            part (lit "3" refl) (
              part (lit "4" refl) (
                part (lit "5" refl)
                  (part (lit "6" refl) (part (lit "7" refl) (part (lit "8" refl) none_left)))))))))
      refl

decimal-Frag : (fuel n : ℕ) → Frag (decimal fuel n) 0
unfolding decimal scan
decimal-Frag zero n = lit "" refl
decimal-Frag (suc fuel) n =
    if_cases (λ s. Frag s 0) (ltb n 10) (λ _. digit-Frag n)
      (λ _. decimal-Frag fuel (n / 10) ▹ digit-Frag (n % 10))

pub itoa-Frag : (n : ℕ) → Frag (itoa n) 0
unfolding itoa
itoa-Frag n = decimal-Frag (suc n) n
