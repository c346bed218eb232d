-- ===== src/Examples/Codecs.antt =====
-- Codecs that decode what they encoded: a text is written after its length, one field after another.
use robomesh.Prelude.{
  ℕ, zero, suc, Option, none, some, [], ◌∷◌, ◌++◌, ◌≡◌, refl, ap, Text, length, and_then, some_inj,
}
use robomesh.Prelude.Int.{ℤ, pos, negsuc}
use robomesh.Database.Client.{Codec, RoundTrips}

-- A format for values of a type in front of any rest.
pub record Format (A : Type 0) : Type 0 where
  pub put : A → Text → Text
  pub read : Text → Option (A × Text)
  pub read-put : (a : A) (t : Text) → read (put a t) ≡ some (a, t)

unfoldable pub split : ℕ → Text → Option (Text × Text)
split zero t = some ([], t)
split (suc n) [] = none
split (suc n) (x ∷ t) = and_then (split n t) λ (a, b). some (x ∷ a, b)

split-append : (a t : Text) → split (length a) (a ++ t) ≡ some (a, t)
unfolding split
split-append [] t = refl
split-append (x ∷ a) t = rw (split-append a t, split)

unfoldable pub read_number : Text → Option (ℕ × Text)
read_number [] = none
read_number (n ∷ t) = some (n, t)

pub read_number_lem : (n : ℕ) (t : Text) → read_number (n ∷ t) ≡ some (n, t)
unfolding read_number
read_number_lem n t = refl

abbrev pub number_format : Format ℕ
number_format = record { put = ◌∷◌; read = read_number; read-put = read_number_lem }

-- A text that is missing at the end is read as empty.
unfoldable pub read_text : Text → Option (Text × Text)
unfolding split
read_text [] = some ([], [])
read_text (n ∷ t) = split n t

pub read_text_lem : (a t : Text) → read_text (length a ∷ (a ++ t)) ≡ some (a, t)
unfolding read_text
read_text_lem a t = split-append a t

abbrev pub text_format : Format Text
text_format = record {
  put = λ a t. length a ∷ (a ++ t);
  read = read_text;
  read-put = read_text_lem;
}

unfoldable pub put_int : ℤ → Text → Text
put_int (pos n) t = zero ∷ n ∷ t
put_int (negsuc n) t = 1 ∷ n ∷ t

unfoldable pub read_int : Text → Option (ℤ × Text)
read_int (zero ∷ n ∷ t) = some (pos n, t)
read_int (suc k ∷ n ∷ t) = some (negsuc n, t)
read_int _ = none

pub read_int-put_int : (i : ℤ) (t : Text) → read_int (put_int i t) ≡ some (i, t)
unfolding read_int put_int
read_int-put_int (pos n) t = refl
read_int-put_int (negsuc n) t = refl

abbrev pub int_format : Format ℤ
int_format = record { put = put_int; read = read_int; read-put = read_int-put_int }

abbrev pub pair : {A B : Type 0} → Format A → Format B → Format (A × B)
pair f g = record {
  put = λ (a, b) t. f.put a (g.put b t);
  read = λ t. and_then (f.read t) λ (a, r). and_then (g.read r) λ (b, s). some ((a, b), s);
  read-put = λ (a, b) t. rw (f.read-put a (g.put b t)) (rw (g.read-put b t));
}

-- A codec for a type that is laid out as another.
abbrev pub codec : {A R : Type 0} → Format A → (R → A) → (A → R) → Codec R
codec f out into = record {
  marshal = λ r. some (f.put (out r) []);
  unmarshal = λ t. and_then (f.read t) λ (a, rest). some (into a);
}

pub codec-RoundTrips :
    {A R : Type 0} (f : Format A) (out : R → A) (into : A → R)
    → ((r : R) → into (out r) ≡ r)
    → RoundTrips (codec f out into)
codec-RoundTrips f out into same r t e =
    rw (← some_inj e) (rw (f.read-put (out r) []) (ap some (same r)))
