-- ===== src/Carga/Conexao.antt =====
-- ferramentas/carga/main.go, conectar: the client's side of the handshake. Dialling gives a socket or
-- an error; the request is written in one piece.
pub mod Aperto
use greenlabs_server.Comum.{
  ℕ, zero, suc, ◌+◌, ◌-◌, ◌*◌, ◌/◌, ◌%◌, Bool, true, false, ◌&&◌, ◌||◌, Option, none, some, List,
  [], ◌∷◌, ◌++◌, leb, ltb, ◌==◌, if◌then◌else◌, length,
}
use greenlabs_server.Comum.Texto.{Texto, codes, vazio, has_prefix, trim_space, dividir_em}
use greenlabs_server.Websocket.{Rede, Resultado, ok, err, Erro, escrita_falhou, sem_combustivel}
use greenlabs_server.Websocket.Leitura.{◌>>=◌, exigir}

-- base64.StdEncoding: the character of six bits, and the text of bytes.
unfoldable pub caractere_base64 : ℕ → ℕ
caractere_base64 n =
    if ltb n 26
    then 65 + n
    else if ltb n 52
    then 71 + n
    else if ltb n 62
    then n - 4
    else if n == 62
    then b'+'
    else b'/'

unfoldable pub base64 : List ℕ → Texto
unfolding caractere_base64
base64 [] = []
base64 (a ∷ []) = caractere_base64 (a / 4) ∷ caractere_base64 (a % 4 * 16) ∷ b'=' ∷ b'=' ∷ []
base64 (a ∷ b ∷ []) =
    caractere_base64 (a / 4)
    ∷ caractere_base64 (a % 4 * 16 + b / 16)
    ∷ caractere_base64 (b % 16 * 4)
    ∷ b'='
    ∷ []
base64 (a ∷ b ∷ c ∷ resto) =
    caractere_base64 (a / 4)
    ∷ caractere_base64 (a % 4 * 16 + b / 16)
    ∷ caractere_base64 (b % 16 * 4 + c / 64)
    ∷ caractere_base64 (c % 64)
    ∷ base64 resto

unfoldable pub pedido_de_aperto : Texto → Texto → Texto
pedido_de_aperto endereco chave =
    codes "GET / HTTP/1.1\r\nHost: "
    ++ (endereco
        ++ (codes "\r\nUpgrade: websocket\r\nConnection: Upgrade\r\nSec-WebSocket-Key: "
            ++ (chave ++ codes "\r\nSec-WebSocket-Version: 13\r\n\r\n")))

-- strings.Contains.
unfoldable pub contem_texto : Texto → Texto → Bool
contem_texto [] p = vazio p
contem_texto (c ∷ cs) p = has_prefix (c ∷ cs) p || contem_texto cs p

-- conexao.Write.
unfoldable pub escrever_tudo : List ℕ → Rede → Resultado Rede
escrever_tudo dados r =
    if leb (length dados) r.capacidade
    then ok (record r { enviado = r.enviado ++ dados; capacidade = r.capacidade - length dados })
    else err escrita_falhou

-- leitor.ReadString('\n').
unfoldable pub ler_linha_da_rede : Rede → Resultado (Texto × Rede)
ler_linha_da_rede r = elim (dividir_em 10 r.entrada) [
  | none ↦ err r.ao_fim
  | some (linha, resto) ↦ ok (linha ++ (10 ∷ []), record r { entrada = resto })
]

-- The loop that skips the headers, to the first blank line.
unfoldable pub pular_cabecalhos : ℕ → Rede → Resultado Rede
unfolding ler_linha_da_rede
pular_cabecalhos zero r = err sem_combustivel
pular_cabecalhos (suc n) r = elim (ler_linha_da_rede r) [
  | err e ↦ err e
  | ok (linha, r') ↦
      (let resto = pular_cabecalhos n r' in if vazio (trim_space linha) then ok r' else resto)
]

-- An error of the handshake: of the socket, or the status line that came instead.
pub data Falha : Type 0 where
  da_rede : Erro → Falha
  recusado : Texto → Falha

pub data Conexao : Type 0 where
  conectado : Rede → Conexao
  falhou : Falha → Conexao

unfoldable pub depois_do_status : Texto → Rede → Conexao
unfolding contem_texto pular_cabecalhos
depois_do_status status r =
    if contem_texto status (codes "101")
    then elim (pular_cabecalhos (suc (length r.entrada)) r) [
      | err e ↦ falhou (da_rede e)
      | ok r' ↦ conectado r'
    ]
    else falhou (recusado (trim_space status))

unfoldable pub conectar : Texto → List ℕ → Resultado Rede → Conexao
unfolding base64 pedido_de_aperto escrever_tudo ler_linha_da_rede depois_do_status
conectar endereco bruto discada = elim discada [
  | err e ↦ falhou (da_rede e)
  | ok r ↦ elim (escrever_tudo (pedido_de_aperto endereco (base64 bruto)) r) [
    | err e ↦ falhou (da_rede e)
    | ok r1 ↦ elim (ler_linha_da_rede r1) [
      | err e ↦ falhou (da_rede e)
      | ok (status, r2) ↦ depois_do_status status r2
    ]
  ]
]
