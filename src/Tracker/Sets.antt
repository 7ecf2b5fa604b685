-- ===== src/Tracker/Sets.antt =====
-- The sets of channels of committracker.go, as lists.
use go_nfs.Base.{ℕ, ◌≡◌, refl, Bool, false, ◌||◌, List, [], ◌∷◌, ◌++◌, arith, ◌==◌, if◌then◌else◌}

unfoldable pub elem : ℕ → List ℕ → Bool
elem a [] = false
elem a (x ∷ xs) = x == a || elem a xs

-- delete(set, ch)
unfoldable pub remove : ℕ → List ℕ → List ℕ
remove a [] = []
remove a (x ∷ xs) = let rest = remove a xs in if x == a then rest else x ∷ rest

pub elem-remove :
    (a b : ℕ) (xs : List ℕ) → elem a (remove b xs) ≡ (if b == a then false else elem a xs)
unfolding elem remove
elem-remove a b [] = ground arith
elem-remove a b (x ∷ xs) = ground (arith, elem-remove a b xs)

pub elem-append : (a : ℕ) (xs ys : List ℕ) → elem a (xs ++ ys) ≡ (elem a xs || elem a ys)
unfolding elem
elem-append a [] ys = refl
elem-append a (x ∷ xs) ys = ground (arith, elem-append a xs ys)

pub remove_absent : (a : ℕ) (xs : List ℕ) → elem a xs ≡ false → remove a xs ≡ xs
unfolding elem remove
remove_absent a [] h = refl
remove_absent a (x ∷ xs) h = ground (arith, remove_absent a xs)

pub remove-append_last : (a : ℕ) (xs : List ℕ) → elem a xs ≡ false → remove a (xs ++ a ∷ []) ≡ xs
unfolding elem remove
remove-append_last a [] h = ground arith
remove-append_last a (x ∷ xs) h = ground (arith, remove-append_last a xs)
