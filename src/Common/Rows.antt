-- ===== src/Common/Rows.antt =====
-- Two lists of rows side by side: the rows of a table before and after a statement.
use mathlib.Core.List.{List, [], ◌∷◌, map}

-- `ys` has a row for each row of `xs`, and each pair is in `R`.
abbrev pub Rows : {A B : Type 0} → (A → B → Type 0) → List A → List B → Type 0
Rows R [] [] = Unit {0}
Rows R [] (y ∷ ys) = ⊥
Rows R (x ∷ xs) [] = ⊥
Rows R (x ∷ xs) (y ∷ ys) = R x y × Rows R xs ys

pub map-Rows :
    {A B : Type 0} (R : A → B → Type 0) (f : A → B) (xs : List A)
    → ((x : A) → R x (f x))
    → Rows R xs (map f xs)
map-Rows R f [] h = tt
map-Rows R f (x ∷ xs) h = (h x, map-Rows R f xs h)

-- A relation of rows that have been changed by `f` first.
pub Rows-map :
    {A B : Type 0} (R S : A → B → Type 0) (f : A → A) (xs : List A) (ys : List B)
    → ((x : A) (y : B) → R (f x) y → S x y)
    → Rows R (map f xs) ys
    → Rows S xs ys
Rows-map R S f [] [] k h = tt
Rows-map R S f [] (y ∷ ys) k h = h
Rows-map R S f (x ∷ xs) [] k h = h
Rows-map R S f (x ∷ xs) (y ∷ ys) k h = (k x y h.0, Rows-map R S f xs ys k h.1)
