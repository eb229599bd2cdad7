-- ===== src/Base/Decimal.antt =====
-- strconv.Itoa on the numbers that are not negative, and the decimal digits that strconv.Atoi reads.
use Prim.Native.Nat.{ℕ, zero, suc, ◌+◌, ◌-◌, ◌*◌, ◌/◌, ◌%◌, ◌<◌, ◌≤◌}
use Prim.Native.Char.{Char, code}
use Prim.Native.String.{String, ◌++◌}
use Prim.Native.String as S
use mathlib.Core.Path.{◌≡◌, refl, sym, ap, ◌∙◌}
use mathlib.Core.Bool.{◌&&◌, true}
use mathlib.Core.Option.{Option, none, some}
use native.Mathlib.Omega.{arith}
use mathlib.Core.Logic.{inl, inr}
use gocharm.Base.Int.{ℤ, pos, negsuc}
use gocharm.Base.Texts.{cut_prefix, cut_prefix-digits_only, digits_only}
use gocharm.Base.Tests.{Bool-cases, ltb, leb, if◌then◌else◌}

digit : ℕ → Char
digit zero = "0"
digit (suc zero) = "1"
digit (suc (suc zero)) = "2"
digit (suc (suc (suc zero))) = "3"
digit (suc (suc (suc (suc zero)))) = "4"
digit (suc (suc (suc (suc (suc zero))))) = "5"
digit (suc (suc (suc (suc (suc (suc zero)))))) = "6"
digit (suc (suc (suc (suc (suc (suc (suc zero))))))) = "7"
digit (suc (suc (suc (suc (suc (suc (suc (suc zero)))))))) = "8"
digit _ = "9"

-- The digits of a number before those already written. Every round removes a digit, so the number
-- itself is fuel enough.
digits : ℕ → ℕ → String → String
unfolding digit
digits zero n acc = S.◌∷◌ (digit n) acc
digits (suc f) n acc =
    let rest = digits f (n / 10) (S.◌∷◌ (digit (n % 10)) acc) in
    if ltb n 10 then S.◌∷◌ (digit n) acc else rest

unfoldable pub itoa : ℕ → String
unfolding digits
itoa n = digits n n ""

-- The value of a text of digits behind the value already read.
read_digits : ℕ → String → Option ℕ
read_digits n S.[] = some n
read_digits n (S.◌∷◌ c s) =
    let rest = read_digits (n * 10 + (code c - 48)) s in
    if leb 48 (code c) && leb (code c) 57 then rest else none

unfoldable pub atoi : String → Option ℕ
unfolding read_digits
atoi S.[] = none
atoi (S.◌∷◌ c s) = read_digits 0 (S.◌∷◌ c s)

itoa_test : itoa 65534 ≡ "65534"
unfolding itoa
itoa_test = refl

code-digit : (d : ℕ) → d < 10 → code (digit d) ≡ d + 48
unfolding digit
code-digit zero h = refl
code-digit (suc zero) h = refl
code-digit (suc (suc zero)) h = refl
code-digit (suc (suc (suc zero))) h = refl
code-digit (suc (suc (suc (suc zero)))) h = refl
code-digit (suc (suc (suc (suc (suc zero))))) h = refl
code-digit (suc (suc (suc (suc (suc (suc zero)))))) h = refl
code-digit (suc (suc (suc (suc (suc (suc (suc zero))))))) h = refl
code-digit (suc (suc (suc (suc (suc (suc (suc (suc zero)))))))) h = refl
code-digit (suc (suc (suc (suc (suc (suc (suc (suc (suc zero))))))))) h = refl
code-digit (suc (suc (suc (suc (suc (suc (suc (suc (suc (suc d)))))))))) h = absurd (omega arith)

read_digits-digits :
    (f n : ℕ) (acc : String) → n ≤ f → read_digits 0 (digits f n acc) ≡ read_digits n acc
unfolding digits read_digits
read_digits-digits zero n acc h = ground (arith, code-digit n)
read_digits-digits (suc f) n acc h = ground (
  arith,
  code-digit n,
  code-digit (n % 10),
  read_digits-digits f (n / 10) (S.◌∷◌ (digit (n % 10)) acc),
)

digits-cons : (f n : ℕ) (acc : String) → (c : Char) × (r : String) × (digits f n acc ≡ S.◌∷◌ c r)
unfolding digits
digits-cons zero n acc = (digit n, acc, refl)
digits-cons (suc f) n acc = elim (Bool-cases (ltb n 10)) [
  | inl small ↦ (digit n, acc, rw small)
  | inr large ↦ rw large (digits-cons f (n / 10) (S.◌∷◌ (digit (n % 10)) acc))
]

-- Reading the decimal digits of a number gives the number.
pub atoi-itoa : (n : ℕ) → atoi (itoa n) ≡ some n
unfolding itoa atoi
atoi-itoa n = go (itoa n) refl (digits-cons n n "")
  where
    go :
        (s : String)
        → itoa n ≡ s
        → (c : Char) × (r : String) × (itoa n ≡ S.◌∷◌ c r)
        → atoi s ≡ some n
    go S.[] e (c, r, q) = cc
    go (S.◌∷◌ c s) e _ = ap (read_digits 0) (sym e) ∙ read_digits-digits n n "" (omega arith)

pub itoa_inj : (m n : ℕ) → itoa m ≡ itoa n → m ≡ n
itoa_inj m n e = cc (atoi-itoa m, atoi-itoa n)

read_digits-digits_only : (m n : ℕ) (s : String) → read_digits m s ≡ some n → digits_only s ≡ true
unfolding read_digits
read_digits-digits_only m n S.[] h = refl
read_digits-digits_only m n (S.◌∷◌ c s) h =
    ground (arith, read_digits-digits_only (m * 10 + (code c - 48)) n s)

pub atoi-digits_only : (n : ℕ) (s : String) → atoi s ≡ some n → digits_only s ≡ true
unfolding atoi
atoi-digits_only n S.[] h = refl
atoi-digits_only n (S.◌∷◌ c s) h = read_digits-digits_only 0 n (S.◌∷◌ c s) h

abbrev pub show_int : ℤ → String
show_int (pos n) = itoa n
show_int (negsuc n) = "-" ++ itoa (suc n)

abbrev negated : ℕ → ℤ
negated zero = pos 0
negated (suc n) = negsuc n

-- Numbers of 64 bits and a sign.
abbrev up_to : ℕ → (ℕ → ℤ) → Option ℕ → Option ℤ
up_to bound f none = none
up_to bound f (some n) = if leb n bound then some (f n) else none

abbrev unsigned : String → Option String → Option ℤ
unsigned s none = up_to 9223372036854775807 pos (atoi s)
unsigned s (some r) = up_to 9223372036854775807 pos (atoi r)

abbrev signed : String → Option String → Option ℤ
signed s none = unsigned s (cut_prefix "+" s)
signed s (some r) = up_to 9223372036854775808 negated (atoi r)

-- strconv.Atoi; any error is `none`.
unfoldable pub parse_int : String → Option ℤ
parse_int s = signed s (cut_prefix "-" s)

pub parse_int-itoa : (n : ℕ) → n ≤ 9223372036854775807 → parse_int (itoa n) ≡ some (pos n)
unfolding parse_int
parse_int-itoa n h =
    let only = atoi-digits_only n (itoa n) (atoi-itoa n) in
    ground (
      arith,
      atoi-itoa n,
      cut_prefix-digits_only "-" (itoa n) only (omega arith),
      cut_prefix-digits_only "+" (itoa n) only (omega arith),
    )
