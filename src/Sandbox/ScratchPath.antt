-- ===== src/Sandbox/ScratchPath.antt =====
-- `std::path::Path` on Unix, as far as a scratch file is named by it: two paths are one key when
-- their components are equal, so repeated and trailing separators and inner `.` do not matter.
use ember_edge.Prelude.{
  ◌≡◌, refl, ◌↔◌, Bool, true, false, ◌&&◌, ◌||◌, List, [], ◌∷◌, arith, if◌then◌else◌, Eq,
}
use ember_edge.Text.Basic.{Str, text, str_eq, str_eq_iff, is_empty, starts_with, split}

abbrev pub Components : Type 0
Components = List Str

-- The pieces that are components of their own, `..` among them.
unfoldable pub kept_pieces : List Str → Components
unfolding is_empty str_eq text
kept_pieces [] = []
kept_pieces (p ∷ ps) =
    if is_empty p || str_eq p (text ".") then kept_pieces ps else p ∷ kept_pieces ps

-- A leading `.` of a relative path is a component.
unfoldable pub relative_components : List Str → Components
unfolding kept_pieces str_eq text
relative_components [] = []
relative_components (p ∷ ps) =
    if str_eq p (text ".") then p ∷ kept_pieces ps else kept_pieces (p ∷ ps)

unfoldable pub is_absolute : Str → Bool
unfolding starts_with text
is_absolute p = starts_with (text "/") p

unfoldable pub components : Str → Components
unfolding is_absolute kept_pieces relative_components split text
components p =
    if is_absolute p
    then text "/" ∷ kept_pieces (split b'/' p)
    else relative_components (split b'/' p)

unfoldable pub components_eq : Components → Components → Bool
components_eq [] [] = true
components_eq [] (y ∷ ys) = false
components_eq (x ∷ xs) [] = false
components_eq (x ∷ xs) (y ∷ ys) = str_eq x y && components_eq xs ys

pub components_eq_iff : (a b : Components) → (components_eq a b ≡ true) ↔ (a ≡ b)
unfolding components_eq
components_eq_iff [] [] = ground arith
components_eq_iff [] (y ∷ ys) = ground arith
components_eq_iff (x ∷ xs) [] = ground arith
components_eq_iff (x ∷ xs) (y ∷ ys) = ground (arith, str_eq_iff x y, components_eq_iff xs ys)

instance abbrev pub components_Eq : Eq Components
components_Eq = record { beq = components_eq; beq_iff = components_eq_iff }

same_key : components (text "./a//b/./c/") ≡ text "." ∷ text "a" ∷ text "b" ∷ text "c" ∷ []
unfolding components text
same_key = refl
