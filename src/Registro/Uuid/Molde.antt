-- ===== src/Registro/Uuid/Molde.antt =====
-- src/util.go, novoUUID: a template of a text, the reading of hexadecimal, and both on groups of bytes.
use greenlabs_server.Comum.{
  ℕ, ◌+◌, ◌*◌, ◌/◌, ◌%◌, ◌-◌, ◌≡◌, refl, ap, ◌∙◌, Bool, true, false, ◌&&◌, ◌||◌, List, [], ◌∷◌,
  ◌++◌, leb, ltb, ◌==◌, if◌then◌else◌, All, arith,
}
use greenlabs_server.Comum.Bits.{IsByte}
use greenlabs_server.Comum.Texto.{Texto, codes}
use greenlabs_server.Hub.Formato.{digito_hex}
use greenlabs_server.Registro.Uuid.{em_hex}

-- What a place of a template takes: 'x' a digit in lower case, 'y' one of 8, 9, a and b, and every
-- other character itself.
abbrev pub cabe : ℕ → ℕ → Bool
cabe p c =
    if p == b'x'
    then (leb b'0' c && leb c b'9') || (leb b'a' c && leb c b'f')
    else if p == b'y'
    then (c == b'8') || (c == b'9') || (c == b'a') || (c == b'b')
    else p == c

unfoldable pub tem_forma : Texto → Texto → Bool
tem_forma [] [] = true
tem_forma [] (c ∷ cs) = false
tem_forma (p ∷ ps) [] = false
tem_forma (p ∷ ps) (c ∷ cs) = cabe p c && tem_forma ps cs

-- The template of a version 4 identifier.
abbrev pub forma_v4 : Texto
forma_v4 = codes "xxxxxxxx-xxxx-4xxx-yxxx-xxxxxxxxxxxx"

abbrev pub valor_hex : ℕ → ℕ
valor_hex c = if ltb c b'a' then c - 48 else c - 87

-- The bytes of an identifier.
unfoldable pub ler_uuid : Texto → List ℕ
ler_uuid [] = []
ler_uuid (c ∷ []) = []
ler_uuid (c ∷ d ∷ s) =
    let depois = ler_uuid (d ∷ s) in
    let resto = ler_uuid s in if c == b'-' then depois else (valor_hex c * 16 + valor_hex d) ∷ resto

tem_forma_byte :
    (b : ℕ) (ps s : Texto)
    → IsByte b
    → tem_forma (b'x' ∷ b'x' ∷ ps) (digito_hex (b / 16) ∷ digito_hex (b % 16) ∷ s) ≡ tem_forma ps s
unfolding tem_forma digito_hex
tem_forma_byte b ps s h = ground arith

tem_forma_versao :
    (b : ℕ) (ps s : Texto)
    → IsByte b
    → (let v = 64 + b % 16 in
        tem_forma (b'4' ∷ b'x' ∷ ps) (digito_hex (v / 16) ∷ digito_hex (v % 16) ∷ s))
      ≡ tem_forma ps s
unfolding tem_forma digito_hex
tem_forma_versao b ps s h = ground arith

tem_forma_variante :
    (b : ℕ) (ps s : Texto)
    → IsByte b
    → (let v = 128 + b % 64 in
        tem_forma (b'y' ∷ b'x' ∷ ps) (digito_hex (v / 16) ∷ digito_hex (v % 16) ∷ s))
      ≡ tem_forma ps s
unfolding tem_forma digito_hex
tem_forma_variante b ps s h = ground arith

tem_forma_traco : (ps s : Texto) → tem_forma (b'-' ∷ ps) (b'-' ∷ s) ≡ tem_forma ps s
unfolding tem_forma
tem_forma_traco ps s = refl

ler_uuid_byte :
    (b : ℕ) (s : Texto)
    → IsByte b
    → ler_uuid (digito_hex (b / 16) ∷ digito_hex (b % 16) ∷ s) ≡ b ∷ ler_uuid s
unfolding ler_uuid digito_hex
ler_uuid_byte b s h = ground arith

ler_uuid_traco : (c : ℕ) (s : Texto) → ler_uuid (b'-' ∷ c ∷ s) ≡ ler_uuid (c ∷ s)
unfolding ler_uuid
ler_uuid_traco c s = refl

abbrev pub xis : List ℕ → Texto
xis [] = []
xis (b ∷ bs) = b'x' ∷ b'x' ∷ xis bs

-- A group of bytes that are free.
pub tem_forma_grupo :
    (bs : List ℕ) (ps s : Texto)
    → All IsByte bs
    → tem_forma (xis bs ++ ps) (em_hex bs ++ s) ≡ tem_forma ps s
unfolding em_hex
tem_forma_grupo [] ps s h = refl
tem_forma_grupo (b ∷ bs) ps s h =
    tem_forma_byte b (xis bs ++ ps) (em_hex bs ++ s) h.0 ∙ tem_forma_grupo bs ps s h.1

pub ler_uuid_grupo :
    (bs : List ℕ) (s : Texto) → All IsByte bs → ler_uuid (em_hex bs ++ s) ≡ bs ++ ler_uuid s
unfolding em_hex
ler_uuid_grupo [] s h = refl
ler_uuid_grupo (b ∷ bs) s h =
    ler_uuid_byte b (em_hex bs ++ s) h.0 ∙ ap (◌∷◌ b) (ler_uuid_grupo bs s h.1)

pub ler_uuid_bloco :
    (b : ℕ) (bs : List ℕ) (s : Texto)
    → All IsByte (b ∷ bs)
    → ler_uuid (b'-' ∷ (em_hex (b ∷ bs) ++ s)) ≡ (b ∷ bs) ++ ler_uuid s
unfolding em_hex
ler_uuid_bloco b bs s h =
    ler_uuid_traco (digito_hex (b / 16)) (digito_hex (b % 16) ∷ (em_hex bs ++ s))
    ∙ ler_uuid_grupo (b ∷ bs) s h

-- The two groups that carry a fixed field, with what follows them.
pub tem_forma_versoes :
    (g h i j : ℕ) (ps s : Texto)
    → IsByte g
    → IsByte h
    → IsByte i
    → IsByte j
    → tem_forma
        (codes "4xxx-yxxx" ++ ps)
        (em_hex ((64 + g % 16) ∷ h ∷ []) ++ (b'-' ∷ (em_hex ((128 + i % 64) ∷ j ∷ []) ++ s)))
      ≡ tem_forma ps s
unfolding em_hex
tem_forma_versoes g h i j ps s hg hh hi hj =
    tem_forma_versao g (codes "xx-yxxx" ++ ps)
      (em_hex (h ∷ []) ++ (b'-' ∷ (em_hex ((128 + i % 64) ∷ j ∷ []) ++ s))) hg
    ∙ tem_forma_byte h (codes "-yxxx" ++ ps) (b'-' ∷ (em_hex ((128 + i % 64) ∷ j ∷ []) ++ s)) hh
    ∙ tem_forma_traco (codes "yxxx" ++ ps) (em_hex ((128 + i % 64) ∷ j ∷ []) ++ s)
    ∙ tem_forma_variante i (codes "xx" ++ ps) (em_hex (j ∷ []) ++ s) hi
    ∙ tem_forma_byte j ps s hj
