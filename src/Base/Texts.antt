-- ===== src/Base/Texts.antt =====
-- The functions of Go's package strings that the code calls, on native texts.
use Prim.Native.Nat.{ℕ, ◌<◌}
use Prim.Native.Char.{Char, code}
use Prim.Native.String.{String, ◌++◌}
use Prim.Native.String as S
use mathlib.Core.Path.{◌≡◌, refl, ap, ap₂, sym, ◌∙◌}
use mathlib.Core.Bool.{Bool, true, false, ◌||◌, ◌&&◌}
use mathlib.Core.List.{List, [], ◌∷◌}
use mathlib.Core.Option.{Option, none, some}
use native.Mathlib.Omega.{arith}
use text.Mathlib.TextEquality.{Char-path}
use text.Mathlib.TextLemmas.{nil-append, cons-append, head-eq_of_cons-eq, tail-eq_of_cons-eq}
use gocharm.Base.Tests.{◌==◌, if◌then◌else◌, str_eq, leb}

abbrev pub is_empty : String → Bool
is_empty s = str_eq s ""

-- strings.ContainsRune, and strings.Contains for a text of one character.
unfoldable pub contains_rune : String → ℕ → Bool
contains_rune S.[] c = false
contains_rune (S.◌∷◌ d s) c = code d == c || contains_rune s c

-- What is left of a text behind a prefix.
unfoldable pub cut_prefix : String → String → Option String
cut_prefix S.[] s = some s
cut_prefix (S.◌∷◌ c p) S.[] = none
cut_prefix (S.◌∷◌ c p) (S.◌∷◌ d s) = if code c == code d then cut_prefix p s else none

-- strings.HasPrefix(s, p) and strings.TrimPrefix(s, p), the text last.
unfoldable pub has_prefix : String → String → Bool
unfolding cut_prefix
has_prefix p s = elim (cut_prefix p s) [ none ↦ false | some _ ↦ true ]

unfoldable pub trim_prefix : String → String → String
unfolding cut_prefix
trim_prefix p s = elim (cut_prefix p s) [ none ↦ s | some r ↦ r ]

-- strings.HasSuffix(s, p)
unfoldable pub has_suffix : String → String → Bool
has_suffix p S.[] = str_eq S.[] p
has_suffix p (S.◌∷◌ c s) = str_eq (S.◌∷◌ c s) p || has_suffix p s

-- strings.TrimSuffix(s, p)
unfoldable pub trim_suffix : String → String → String
trim_suffix p S.[] = S.[]
trim_suffix p (S.◌∷◌ c s) = if str_eq (S.◌∷◌ c s) p then S.[] else S.◌∷◌ c (trim_suffix p s)

-- The white space that strings.TrimSpace takes off, in the Latin-1 range.
is_space : ℕ → Bool
is_space c = (leb 9 c && leb c 13) || c == 32 || c == 0x85 || c == 0xa0

trim_left : String → String
unfolding is_space
trim_left S.[] = S.[]
trim_left (S.◌∷◌ c s) = if is_space (code c) then trim_left s else S.◌∷◌ c s

trim_right : String → String
unfolding is_space
trim_right S.[] = S.[]
trim_right (S.◌∷◌ c s) =
    let rest = trim_right s in if is_space (code c) && str_eq rest S.[] then S.[] else S.◌∷◌ c rest

-- strings.TrimSpace
unfoldable pub trim_space : String → String
unfolding trim_left trim_right
trim_space s = trim_right (trim_left s)

-- strings.Join(xs, sep)
unfoldable pub join : List String → String → String
join [] sep = S.[]
join (x ∷ []) sep = x
join (x ∷ y ∷ xs) sep = x ++ (sep ++ join (y ∷ xs) sep)

-- strconv.Quote, for texts whose characters are all printable.
escaped : String → String
escaped S.[] = S.[]
escaped (S.◌∷◌ c s) =
    if code c == 0x22 || code c == 0x5c
    then S.◌∷◌ "\\" (S.◌∷◌ c (escaped s))
    else S.◌∷◌ c (escaped s)

pub quote : String → String
unfolding escaped
quote s = "\"" ++ (escaped s ++ "\"")

-- What one verb of a format puts for its argument: %q quotes, the others show the text.
verb : Char → String → String
unfolding quote
verb v a = if code v == b'q' then quote a else a

-- fmt.Sprintf over arguments that are texts already, with a verb for each.
unfoldable pub sprintf : String → List String → String
unfolding verb
sprintf S.[] args = S.[]
sprintf (S.◌∷◌ c S.[]) args = S.◌∷◌ c S.[]
sprintf (S.◌∷◌ c (S.◌∷◌ v s)) [] = S.◌∷◌ c (sprintf (S.◌∷◌ v s) [])
sprintf (S.◌∷◌ c (S.◌∷◌ v s)) (a ∷ args) =
    let shown = verb v a ++ sprintf s args in
    let kept = S.◌∷◌ c (sprintf (S.◌∷◌ v s) (a ∷ args)) in if code c == 0x25 then shown else kept

pub contains_rune-append :
    (s t : String) (c : ℕ) → contains_rune (s ++ t) c ≡ (contains_rune s c || contains_rune t c)
unfolding contains_rune
contains_rune-append S.[] t c = rw nil-append refl
contains_rune-append (S.◌∷◌ d s) t c = rw cons-append (ground (arith, contains_rune-append s t c))

pub cut_prefix-append : (p s : String) → cut_prefix p (p ++ s) ≡ some s
unfolding cut_prefix
cut_prefix-append S.[] s = rw nil-append refl
cut_prefix-append (S.◌∷◌ c p) s = rw cons-append (ground (arith, cut_prefix-append p s))

pub cut_prefix-some : (p s r : String) → cut_prefix p s ≡ some r → s ≡ p ++ r
unfolding cut_prefix
cut_prefix-some S.[] s r h = rw nil-append (ground arith)
cut_prefix-some (S.◌∷◌ c p) S.[] r h = cc
cut_prefix-some (S.◌∷◌ c p) (S.◌∷◌ d s) r h =
    rw cons-append (ground (arith, cut_prefix-some p s r, Char-path c d))

pub has_prefix-append : (p s : String) → has_prefix p (p ++ s) ≡ true
unfolding has_prefix
has_prefix-append p s = ground (arith, cut_prefix-append p s)

pub trim_prefix-append : (p s : String) → trim_prefix p (p ++ s) ≡ s
unfolding trim_prefix
trim_prefix-append p s = ground (arith, cut_prefix-append p s)

-- Names joined by a dot, as the registries are named.
abbrev pub dotted : String → String → String
dotted a s = a ++ ("." ++ s)

dot_inside : (a s : String) → contains_rune (dotted a s) b'.' ≡ true
dot_inside a s =
    rw contains_rune-append (rw contains_rune-append (unfold contains_rune in ground arith))

dotted_nil : (s : String) → dotted S.[] s ≡ S.◌∷◌ "." s
dotted_nil s = nil-append ("." ++ s) ∙ cons-append "." S.[] s ∙ ap (S.◌∷◌ ".") (nil-append s)

dotted_cons : (c : Char) (a s : String) → dotted (S.◌∷◌ c a) s ≡ S.◌∷◌ c (dotted a s)
dotted_cons c a s = cons-append c a ("." ++ s)

-- A text with no dot is not one that is joined by a dot.
pub no_dot : (s b t : String) → contains_rune s b'.' ≡ false → s ≡ dotted b t → ⊥
no_dot s b t h e = cc (dot_inside b t)

-- A name that has no dot is the part behind the last dot.
pub dotted_inj :
    (a b s t : String)
    → contains_rune s b'.' ≡ false
    → contains_rune t b'.' ≡ false
    → dotted a s ≡ dotted b t
    → (a ≡ b) × (s ≡ t)
dotted_inj S.[] S.[] s t hs ht e =
    (refl, tail-eq_of_cons-eq (sym (dotted_nil s) ∙ e ∙ dotted_nil t))
dotted_inj S.[] (S.◌∷◌ d b) s t hs ht e =
    absurd (no_dot s b t hs (tail-eq_of_cons-eq (sym (dotted_nil s) ∙ e ∙ dotted_cons d b t)))
dotted_inj (S.◌∷◌ c a) S.[] s t hs ht e =
    absurd (no_dot t a s ht (tail-eq_of_cons-eq (sym (dotted_nil t) ∙ sym e ∙ dotted_cons c a s)))
dotted_inj (S.◌∷◌ c a) (S.◌∷◌ d b) s t hs ht e =
    let e' = sym (dotted_cons c a s) ∙ e ∙ dotted_cons d b t in
    let (p, q) = dotted_inj a b s t hs ht (tail-eq_of_cons-eq e') in
    (ap₂ S.◌∷◌ (head-eq_of_cons-eq e') p, q)

-- All of a text is decimal digits.
abbrev pub digits_only : String → Bool
digits_only S.[] = true
digits_only (S.◌∷◌ c s) = leb 48 (code c) && (leb (code c) 57 && digits_only s)

trim_right-digits_only : (s : String) → digits_only s ≡ true → trim_right s ≡ s
unfolding trim_right is_space
trim_right-digits_only S.[] h = refl
trim_right-digits_only (S.◌∷◌ c s) h = ground (arith, trim_right-digits_only s)

pub trim_space-digits_only : (s : String) → digits_only s ≡ true → trim_space s ≡ s
unfolding trim_space trim_left is_space
trim_space-digits_only S.[] h = refl
trim_space-digits_only (S.◌∷◌ c s) h = ground (arith, trim_right-digits_only (S.◌∷◌ c s) h)

pub cut_prefix-digits_only :
    (p : Char) (s : String)
    → digits_only s ≡ true
    → code p < 48
    → cut_prefix (S.◌∷◌ p S.[]) s ≡ none
unfolding cut_prefix
cut_prefix-digits_only p S.[] h small = refl
cut_prefix-digits_only p (S.◌∷◌ c s) h small = ground arith
