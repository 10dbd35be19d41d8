-- ===== src/Hub/Formato.antt =====
-- src/hub.go: the bytes that the hub writes. JSON text is written by hand there, so the messages are
-- built here piece by piece, in the source's order.
-- A text that came out of a JSON string is a list of code points; `texto_json` is json.Marshal of
-- one, with Go's escapes. An id is ASCII, so that its code points are its bytes.
pub mod Remetente
pub mod Escape
use greenlabs_server.Comum.{
  ℕ, zero, suc, ◌+◌, ◌-◌, ◌*◌, ◌/◌, ◌%◌, Bool, true, false, not, ◌&&◌, ◌||◌, List, [], ◌∷◌, ◌++◌,
  ltb, leb, ◌==◌, if◌then◌else◌, length, take, drop,
}
use greenlabs_server.Comum.Texto.{Texto, codes, trim_left, trim_right, vazio}

-- " \t\r\n", and the ASCII bytes that bytes.TrimSpace takes off. (A message that got so far is JSON,
-- which has no other blanks outside strings.)
unfoldable pub branco : ℕ → Bool
branco b = (b == 32) || (b == 9) || (b == 13) || (b == 10)

unfoldable pub espaco_ascii : ℕ → Bool
espaco_ascii b = (b == 32) || (leb 9 b && leb b 13)

abbrev pub primeiro_byte : List ℕ → ℕ
primeiro_byte [] = 0
primeiro_byte (b ∷ bs) = b

abbrev pub ultimo_byte : List ℕ → ℕ
ultimo_byte [] = 0
ultimo_byte (b ∷ []) = b
ultimo_byte (b ∷ c ∷ bs) = ultimo_byte (c ∷ bs)

unfoldable pub sufixo_from : Bool → Texto → List ℕ
sufixo_from so_chaves de =
    (if so_chaves then [] else codes ",") ++ (codes "\"from\":\"" ++ (de ++ codes "\"}"))

-- `corpo` is the message without the blanks behind it.
unfoldable pub com_corpo : List ℕ → List ℕ → Texto → List ℕ
unfolding trim_right trim_left sufixo_from
com_corpo bruto corpo de =
    let miolo = take (length corpo - 2) (drop 1 corpo) in
    if ltb (length corpo) 2 || not (primeiro_byte corpo == b'{') || not (ultimo_byte corpo == b'}')
    then bruto
    else take (length corpo - 1) corpo
      ++ sufixo_from (vazio (trim_right espaco_ascii (trim_left espaco_ascii miolo))) de

unfoldable pub com_campo_from : List ℕ → Texto → List ℕ
com_campo_from bruto de = com_corpo bruto (trim_right branco bruto) de

-- UTF-8 of one code point.
unfoldable pub utf8 : ℕ → List ℕ
utf8 r =
    if ltb r 0x80
    then r ∷ []
    else if ltb r 0x800
    then (0xc0 + r / 64) ∷ (0x80 + r % 64) ∷ []
    else if ltb r 0x10000
    then (0xe0 + r / 4096) ∷ (0x80 + r / 64 % 64) ∷ (0x80 + r % 64) ∷ []
    else (0xf0 + r / 262144) ∷ (0x80 + r / 4096 % 64) ∷ (0x80 + r / 64 % 64) ∷ (0x80 + r % 64) ∷ []

unfoldable pub digito_hex : ℕ → ℕ
digito_hex d = if ltb d 10 then 48 + d else 87 + d

-- The escapes of encoding/json, those for HTML included.
unfoldable pub escapar : ℕ → List ℕ
unfolding utf8 digito_hex
escapar r =
    if r == b'"' || r == 92
    then 92 ∷ r ∷ []
    else if r == 8
    then codes "\\b"
    else if r == 12
    then codes "\\f"
    else if r == 10
    then codes "\\n"
    else if r == 13
    then codes "\\r"
    else if r == 9
    then codes "\\t"
    else if ltb r 32 || r == b'<' || r == b'>' || r == b'&'
    then codes "\\u00" ++ (digito_hex (r / 16) ∷ digito_hex (r % 16) ∷ [])
    else if r == 0x2028
    then codes "\\u2028"
    else if r == 0x2029
    then codes "\\u2029"
    else utf8 r

unfoldable pub escapar_texto : Texto → List ℕ
unfolding escapar
escapar_texto [] = []
escapar_texto (r ∷ rs) = escapar r ++ escapar_texto rs

unfoldable pub texto_json : Texto → List ℕ
unfolding escapar_texto
texto_json s = b'"' ∷ (escapar_texto s ++ (b'"' ∷ []))

-- strconv.Itoa of a number, with one round for each digit and as many rounds at hand as the number.
unfoldable pub itoa_laco : ℕ → ℕ → Texto
itoa_laco zero n = []
itoa_laco (suc f) n =
    let antes = itoa_laco f (n / 10) in
    if ltb n 10 then (48 + n) ∷ [] else antes ++ ((48 + n % 10) ∷ [])

unfoldable pub itoa : ℕ → Texto
unfolding itoa_laco
itoa n = itoa_laco (suc n) n
