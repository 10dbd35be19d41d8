-- ===== src/Tunel/Padroes.antt =====
-- src/tunel.go: the two regular expressions, and FindString with them. Under (?i) a letter stands for
-- itself in either case, and s and k for the two code points that fold to them. A name's run ends at
-- the first '.', so the longest run is the only one that can go on to match.
pub mod Achado
use greenlabs_server.Comum.{
  ℕ, suc, ◌+◌, ◌-◌, Bool, true, false, ◌&&◌, ◌||◌, Option, none, some, List, [], ◌∷◌, ◌++◌, ◌==◌,
  leb, if◌then◌else◌, length, take,
}
use greenlabs_server.Comum.Texto.{Texto, codes, vazio, trim_prefix}

unfoldable pub dobrar : ℕ → ℕ
dobrar c =
    if leb 65 c && leb c 90
    then c + 32
    else if c == 0x17F
    then b's'
    else if c == 0x212A
    then b'k'
    else c

unfoldable pub no_nome : ℕ → Bool
unfolding dobrar
no_nome c =
    (leb b'a' (dobrar c) && leb (dobrar c) b'z') || (leb b'0' c && leb c b'9') || (c == b'-')

-- A literal at the start: what stands behind it.
unfoldable pub apos_literal : Texto → Texto → Option Texto
unfolding dobrar
apos_literal [] s = some s
apos_literal (p ∷ ps) [] = none
apos_literal (p ∷ ps) (c ∷ cs) =
    let resto = apos_literal ps cs in if dobrar c == p then resto else none

-- The longest run at the start, and behind it.
unfoldable pub trecho : (ℕ → Bool) → Texto → Texto × Texto
trecho classe [] = ([], [])
trecho classe (c ∷ cs) =
    let (a, b) = trecho classe cs in if classe c then (c ∷ a, b) else ([], c ∷ cs)

-- `(?i)https://[a-z0-9-]+` at the start: the name, and what stands behind.
unfoldable pub apos_nome : Texto → Option (Texto × Texto)
unfolding apos_literal trecho no_nome
apos_nome s = elim (apos_literal (codes "https://") s) [
  | none ↦ none
  | some depois ↦
      let (nome, resto) = trecho no_nome depois in if vazio nome then none else some (nome, resto)
]

-- padraoCloudflare at the start: the text that it takes.
unfoldable pub casar_cloudflare : Texto → Option Texto
unfolding apos_nome
casar_cloudflare s = elim (apos_nome s) [
  | none ↦ none
  | some (nome, resto) ↦ elim (apos_literal (codes ".trycloudflare.com") resto) [
    | none ↦ none
    | some fim ↦ some (take (length s - length fim) s)
  ]
]

unfoldable pub no_dominio : ℕ → Bool
unfolding no_nome
no_dominio c = no_nome c || (c == b'.')

-- `\.(app|io|dev)` at the start, as a length.
unfoldable pub final_ngrok : Texto → Option ℕ
unfolding apos_literal
final_ngrok s = elim (apos_literal (codes ".app") s) [
  | some r ↦ some 4
  | none ↦ elim (apos_literal (codes ".io") s) [
    | some r ↦ some 3
    | none ↦ elim (apos_literal (codes ".dev") s) [ some r ↦ some 4 | none ↦ none ]
  ]
]

-- `[-a-z0-9.]*\.(app|io|dev)` at the start of a run of that class: the star takes all that it can.
unfoldable pub ate_o_final : Texto → Option ℕ
unfolding final_ngrok
ate_o_final [] = none
ate_o_final (c ∷ cs) = elim (ate_o_final cs) [ some n ↦ some (suc n) | none ↦ final_ngrok (c ∷ cs) ]

-- padraoNgrok at the start.
unfoldable pub casar_ngrok : Texto → Option Texto
unfolding apos_nome ate_o_final no_dominio
casar_ngrok s = elim (apos_nome s) [
  | none ↦ none
  | some (nome, resto) ↦ elim (apos_literal (codes ".ngrok") resto) [
    | none ↦ none
    | some depois ↦ elim (ate_o_final (trecho no_dominio depois).0) [
      | none ↦ none
      | some n ↦ some (take (length s - length depois + n) s)
    ]
  ]
]

-- FindString: the leftmost place at which the expression matches; the empty text is no match.
unfoldable pub find_string : (Texto → Option Texto) → Texto → Texto
find_string casar [] = []
find_string casar (c ∷ cs) =
    let resto = find_string casar cs in
    elim (casar (c ∷ cs)) [ none ↦ resto | some achado ↦ achado ]

-- `"wss" + strings.TrimPrefix(achado, "https")`.
unfoldable pub em_wss : Texto → Texto
em_wss achado = codes "wss" ++ trim_prefix achado (codes "https")
