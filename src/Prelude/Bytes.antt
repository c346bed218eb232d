-- ===== src/Prelude/Bytes.antt =====
-- Go strings as lists of bytes, with the functions of the packages `strings` and `fmt` that the
-- server calls on them.
use Prim.Native.Char.{code}
use Prim.Native.String.{String}
use Prim.Native.Nat.{ℕ}
use mathlib.Core.Path.{◌≡◌, refl, ap, ◌∙◌}
use mathlib.Core.Logic.{◌↔◌, ◌≢◌, inl, inr}
use mathlib.Core.Bool.{Bool, true, false, ◌&&◌, not, ◌||◌}
use mathlib.Core.Option.{Option, none, some}
use mathlib.Core.List.{List, [], ◌∷◌, ◌++◌, reverse}
use native.Mathlib.Omega.{arith}
use robomesh.Prelude.Tests.{◌==◌, leb, if◌then◌else◌, Bool-cases, some_inj, and_then, and_then-some}

abbrev pub Text : Type 0
Text = List ℕ

-- The bytes of an ASCII literal.
abbrev pub codes : String → Text
codes String.[] = []
codes (String.◌∷◌ c s) = code c ∷ codes s

unfoldable pub text_eq : Text → Text → Bool
text_eq [] [] = true
text_eq [] (y ∷ ys) = false
text_eq (x ∷ xs) [] = false
text_eq (x ∷ xs) (y ∷ ys) = x == y && text_eq xs ys

pub text_eq→eq : (s t : Text) → text_eq s t ≡ true → s ≡ t
unfolding text_eq
text_eq→eq [] [] h = refl
text_eq→eq [] (y ∷ ys) h = ground arith
text_eq→eq (x ∷ xs) [] h = ground arith
text_eq→eq (x ∷ xs) (y ∷ ys) h = ground (arith, text_eq→eq xs ys)

pub text_eq_refl : (s : Text) → text_eq s s ≡ true
unfolding text_eq
text_eq_refl [] = refl
text_eq_refl (x ∷ xs) = ground (arith, text_eq_refl xs)

pub text_eq_iff : (s t : Text) → (text_eq s t ≡ true) ↔ (s ≡ t)
text_eq_iff s t = (text_eq→eq s t, λ e. ground (arith, text_eq_refl s))

pub text_eq-ne : (s t : Text) → s ≢ t → text_eq s t ≡ false
text_eq-ne s t h = elim (Bool-cases (text_eq s t)) [
  | inl e ↦ absurd (h (text_eq→eq s t e))
  | inr e ↦ e
]

-- s == ""
abbrev pub is_empty : Text → Bool
is_empty [] = true
is_empty (x ∷ xs) = false

-- strings.TrimPrefix, and strings.HasPrefix as its success.
unfoldable pub strip_prefix : Text → Text → Option Text
strip_prefix [] s = some s
strip_prefix (p ∷ ps) [] = none
strip_prefix (p ∷ ps) (x ∷ xs) = if p == x then strip_prefix ps xs else none

unfoldable pub has_prefix : Text → Text → Bool
unfolding strip_prefix
has_prefix s p = elim (strip_prefix p s) [ none ↦ false | some r ↦ true ]

unfoldable pub trim_prefix : Text → Text → Text
unfolding strip_prefix
trim_prefix s p = elim (strip_prefix p s) [ none ↦ s | some r ↦ r ]

-- strings.Contains with a one-byte needle.
unfoldable pub contains : ℕ → Text → Bool
contains c [] = false
contains c (x ∷ xs) = x == c || contains c xs

-- strings.HasSuffix: the suffix stands at some position and nothing follows it.
unfoldable pub has_suffix : Text → Text → Bool
unfolding text_eq
has_suffix [] p = text_eq [] p
has_suffix (x ∷ xs) p = text_eq (x ∷ xs) p || has_suffix xs p

-- strings.TrimSuffix
unfoldable pub trim_suffix : Text → Text → Text
unfolding text_eq
trim_suffix [] p = []
trim_suffix (x ∷ xs) p = if text_eq (x ∷ xs) p then [] else x ∷ trim_suffix xs p

prepend : ℕ → Option (Text × Text) → Option (Text × Text)
prepend x none = none
prepend x (some (a, b)) = some (x ∷ a, b)

-- strings.Cut at the first occurrence of a byte.
unfoldable pub cut : ℕ → Text → Option (Text × Text)
unfolding prepend
cut c [] = none
cut c (x ∷ xs) = let rest = prepend x (cut c xs) in if x == c then some ([], xs) else rest

pub cut-append : (c : ℕ) (s t : Text) → contains c s ≡ false → cut c (s ++ c ∷ t) ≡ some (s, t)
unfolding contains cut
cut-append c [] t h = ground arith
cut-append c (x ∷ s) t h = ground (arith, cut-append c s t)

-- strings.SplitN(s, sep, 3) where it has three parts; `none` where it has fewer.
unfoldable pub split3 : ℕ → Text → Option (Text × Text × Text)
unfolding cut
split3 c s = and_then (cut c s) λ (a, r). and_then (cut c r) λ (b, d). some (a, b, d)

pub split3-append :
    (c : ℕ) (a b d : Text)
    → contains c a ≡ false
    → contains c b ≡ false
    → split3 c (a ++ c ∷ (b ++ c ∷ d)) ≡ some (a, b, d)
unfolding split3
split3-append c a b d ha hb =
    rw (cut-append c a (b ++ c ∷ d) ha, split3) (rw (cut-append c b d hb, split3))

prepend-some :
    (x : ℕ) (o : Option (Text × Text)) {a b : Text}
    → prepend x o ≡ some (a, b)
    → (d : Text) × (o ≡ some (d, b)) × (x ∷ d ≡ a)
unfolding prepend
prepend-some x none h = cc
prepend-some x (some (d, e)) h = (d, ground arith, ap (λ p. p.0) (some_inj h))

-- What a split gives is put together again by the separator.
pub cut-some : (c : ℕ) (s a b : Text) → cut c s ≡ some (a, b) → s ≡ a ++ c ∷ b
unfolding cut
cut-some c [] a b h = cc
cut-some c (x ∷ s) a b h = elim (Bool-cases (x == c)) [
  | inl e ↦ ground arith
  | inr e ↦
      let (d, f, g) = prepend-some x (cut c s) (rw (e, cut) at h) in
      ap (◌∷◌ x) (cut-some c s d b f) ∙ ap (λ t. t ++ c ∷ b) g
]

pub split3-some :
    (c : ℕ) (s : Text) {a b d : Text} → split3 c s ≡ some (a, b, d) → s ≡ a ++ c ∷ (b ++ c ∷ d)
unfolding split3
split3-some c s {a} {b} {d} h =
    let ((x, r), e, h₁) = and_then-some (cut c s) _ h in
    let ((y, z), f, h₂) = and_then-some (cut c r) _ h₁ in
    ground (arith, cut-some c s x r e, cut-some c r y z f)

-- The split at strings.LastIndex of a byte.
unfoldable pub cut_last : ℕ → Text → Option (Text × Text)
cut_last c [] = none
cut_last c (x ∷ xs) = elim (cut_last c xs) [
  | some (a, b) ↦ some (x ∷ a, b)
  | none ↦ if x == c then some ([], xs) else none
]

-- strings.TrimSpace on ASCII: tab, line feed, vertical tab, form feed, carriage return, space.
unfoldable pub is_space : ℕ → Bool
is_space c = c == 32 || (leb 9 c && leb c 13)

unfoldable pub trim_left : Text → Text
unfolding is_space
trim_left [] = []
trim_left (x ∷ xs) = if is_space x then trim_left xs else x ∷ xs

unfoldable pub trim_space : Text → Text
unfolding trim_left
trim_space s = reverse (trim_left (reverse (trim_left s)))

abbrev continues : Text → Bool
continues [] = false
continues (x ∷ xs) = not (is_space x)

abbrev push : ℕ → Bool → List Text → List Text
push c true (word ∷ words) = (c ∷ word) ∷ words
push c _ words = (c ∷ []) ∷ words

-- strings.Fields on ASCII.
unfoldable pub fields : Text → List Text
unfolding is_space
fields [] = []
fields (x ∷ xs) = let words = fields xs in if is_space x then words else push x (continues xs) words
