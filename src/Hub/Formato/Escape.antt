-- ===== src/Hub/Formato/Escape.antt =====
-- src/hub.go, textoJSON: a text cannot leave the JSON string that it stands in.
use greenlabs_server.Comum.{
  ℕ, ◌≡◌, refl, ap, ◌∙◌, Bool, false, Option, none, some, List, [], ◌∷◌, ◌++◌, ◌==◌, if◌then◌else◌,
  arith, append_assoc,
}
use greenlabs_server.Comum.Texto.{Texto}
use greenlabs_server.Hub.Formato.{utf8, escapar, escapar_texto, texto_json}

-- A reader of JSON strings, from behind the opening quote: a backslash takes the next byte with it,
-- and the first other quote ends the string. It returns what follows.
unfoldable pub fim_da_string : Bool → List ℕ → Option (List ℕ)
fim_da_string escapado [] = none
fim_da_string escapado (b ∷ bs) =
    let normal = fim_da_string (b == 92) bs in
    let depois = fim_da_string false bs in
    if escapado then depois else if b == b'"' then some bs else normal

fim_da_string-utf8 :
    (r : ℕ) (ys : List ℕ)
    → (r == b'"') ≡ false
    → (r == 92) ≡ false
    → fim_da_string false (utf8 r ++ ys) ≡ fim_da_string false ys
unfolding fim_da_string utf8
fim_da_string-utf8 r ys a b = ground arith

fim_da_string-escapar :
    (r : ℕ) (ys : List ℕ) → fim_da_string false (escapar r ++ ys) ≡ fim_da_string false ys
unfolding fim_da_string escapar
fim_da_string-escapar r ys = ground (arith, fim_da_string-utf8 r ys)

fim_da_string-escapar_texto :
    (s : Texto) (ys : List ℕ) → fim_da_string false (escapar_texto s ++ ys) ≡ fim_da_string false ys
unfolding escapar_texto
fim_da_string-escapar_texto [] ys = refl
fim_da_string-escapar_texto (r ∷ rs) ys =
    rw (append_assoc (escapar r) (escapar_texto rs) ys)
      (fim_da_string-escapar r (escapar_texto rs ++ ys) ∙ fim_da_string-escapar_texto rs ys)

-- Whatever the text holds, a JSON reader finds the end of the string that textoJSON wrote exactly
-- where it ends, before whatever bytes follow.
pub fim_da_string-texto_json :
    (s : Texto) (ys : List ℕ)
    → (corpo : List ℕ) × (texto_json s ++ ys ≡ b'"' ∷ corpo) × (fim_da_string false corpo ≡ some ys)
unfolding texto_json
fim_da_string-texto_json s ys = (
  escapar_texto s ++ (b'"' ∷ ys),
  ap (◌∷◌ b'"') (append_assoc (escapar_texto s) (b'"' ∷ []) ys),
  fim_da_string-escapar_texto s (b'"' ∷ ys) ∙ unfold fim_da_string in refl,
)
