-- ===== src/Hub/Indice/Conjunto.antt =====
-- src/hub.go: the keys of a room's map.
use greenlabs_server.Comum.{
  ◌+◌, ◌≤◌, ◌≡◌, refl, true, false, List, [], ◌∷◌, ◌++◌, if◌then◌else◌, length, length-append,
  arith, Bool-cases, inl, inr,
}
use greenlabs_server.Comum.Texto.{Texto, eq_texto, eq_texto_iff}
use greenlabs_server.Hub.{contem, incluir, remover}
use greenlabs_server.Hub.Indice.{Unicos}

pub contem-remover :
    (a x : Texto) (xs : List Texto)
    → contem x (remover a xs) ≡ (if eq_texto a x then false else contem x xs)
unfolding contem remover
contem-remover a x [] = ground arith
contem-remover a x (y ∷ ys) =
    ground (arith, eq_texto_iff a x, eq_texto_iff y a, eq_texto_iff y x, contem-remover a x ys)

contem-append :
    (a x : Texto) (xs : List Texto)
    → contem x (xs ++ (a ∷ [])) ≡ (if eq_texto a x then true else contem x xs)
unfolding contem
contem-append a x [] = refl
contem-append a x (y ∷ ys) =
    ground (arith, eq_texto_iff a x, eq_texto_iff y x, contem-append a x ys)

pub contem-incluir :
    (a x : Texto) (xs : List Texto)
    → contem x (incluir a xs) ≡ (if eq_texto a x then true else contem x xs)
unfolding incluir
contem-incluir a x xs = ground (arith, contem-append a x xs, eq_texto_iff a x)

pub length-remover-le : (a : Texto) (xs : List Texto) → length (remover a xs) ≤ length xs
unfolding remover
length-remover-le a [] = omega arith
length-remover-le a (y ∷ ys) = ground (arith, length-remover-le a ys)

pub length-incluir-le : (a : Texto) (xs : List Texto) → length (incluir a xs) ≤ length xs + 1
unfolding incluir
length-incluir-le a xs = ground (arith, length-append xs (a ∷ []))

pub remover-Unicos : (a : Texto) (xs : List Texto) → Unicos xs → Unicos (remover a xs)
unfolding remover
remover-Unicos a [] u = tt
remover-Unicos a (y ∷ ys) u =
    ground (arith, remover-Unicos a ys u.1, contem-remover a y ys, eq_texto_iff a y)

append-Unicos :
    (a : Texto) (xs : List Texto) → contem a xs ≡ false → Unicos xs → Unicos (xs ++ (a ∷ []))
unfolding contem
append-Unicos a [] n u = (refl, tt)
append-Unicos a (y ∷ ys) n u =
    ground (arith, append-Unicos a ys, contem-append a y ys, eq_texto_iff a y, eq_texto_iff y a)

pub incluir-Unicos : (a : Texto) (xs : List Texto) → Unicos xs → Unicos (incluir a xs)
unfolding incluir
incluir-Unicos a xs u = elim (Bool-cases (contem a xs)) [
  | inl c ↦ rw c u
  | inr n ↦ rw n (append-Unicos a xs n u)
]
