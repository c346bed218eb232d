-- ===== src/DataStructures/Set.antt =====
-- What SafeSet of roboserver/shared/data_structures/set.go promises, as a list without duplicates in
-- the order of Snapshot: Add puts a new value in front. The keys here are texts.
use robomesh.Prelude.{
  Bool, false, ◌||◌, List, [], ◌∷◌, ◌≡◌, Text, text_eq, text_eq_iff, arith, if◌then◌else◌,
}

unfoldable pub mem : Text → List Text → Bool
mem x [] = false
mem x (y ∷ ys) = text_eq y x || mem x ys

unfoldable pub add : Text → List Text → List Text
unfolding mem
add x xs = if mem x xs then xs else x ∷ xs

unfoldable pub remove : Text → List Text → List Text
remove x [] = []
remove x (y ∷ ys) = let rest = remove x ys in if text_eq y x then rest else y ∷ rest

-- No value stands twice.
abbrev pub Distinct : List Text → Type 0
Distinct [] = Unit {0}
Distinct (x ∷ xs) = (mem x xs ≡ false) × Distinct xs

pub mem-add : (x y : Text) (xs : List Text) → mem y (add x xs) ≡ (text_eq x y || mem y xs)
unfolding add
mem-add x y xs = ground (arith, text_eq_iff x y)

pub mem-remove :
    (x y : Text) (xs : List Text) → mem y (remove x xs) ≡ (if text_eq x y then false else mem y xs)
unfolding mem remove
mem-remove x y [] = ground arith
mem-remove x y (z ∷ zs) =
    ground (arith, mem-remove x y zs, text_eq_iff z x, text_eq_iff z y, text_eq_iff x y)

pub add-Distinct : (x : Text) (xs : List Text) → Distinct xs → Distinct (add x xs)
unfolding add
add-Distinct x xs h = ground arith

pub remove-Distinct : (x : Text) (xs : List Text) → Distinct xs → Distinct (remove x xs)
unfolding remove
remove-Distinct x [] h = tt
remove-Distinct x (y ∷ ys) h = ground (arith, remove-Distinct x ys, mem-remove x y ys)
