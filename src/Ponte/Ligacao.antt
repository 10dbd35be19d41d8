-- ===== src/Ponte/Ligacao.antt =====
-- cmd/ponte/main.go: atender from the place that was taken on, and copiar. What the network does is an
-- argument; the bytes of the request are those that net/http writes. A side of the copy has what its
-- destination got and what its origin is still going to send. The copy is a sequence of rounds of the
-- two goroutines in any order, until copiar returns.
pub mod Bytes
pub mod Lugar
use greenlabs_server.Comum.{
  ℕ, ◌+◌, ◌≡◌, min, Bool, true, false, not, ◌&&◌, ◌||◌, Option, none, some, List, [], ◌∷◌, ◌++◌,
  if◌then◌else◌, length, take, drop,
}
use greenlabs_server.Comum.Texto.{Texto, vazio}
use greenlabs_server.Ponte.{Limites, Ponte, Decisao, status, conectar, decidir, devolver}

pub data Situacao : Type 0 where
  copiando leitura_acabou escrita_falhou : Situacao

pub record Lado : Type 0 where
  pub recebido : List ℕ
  pub por_ler : List ℕ
  pub situacao : Situacao

-- A round of umLado: how many bytes Read gives, whether it gives an error too, and how many of them go
-- out when Write fails.
pub record Rodada : Type 0 where
  pub lidos : ℕ
  pub acabou : Bool
  pub falha : Option ℕ

abbrev pub tamanho_do_buffer : ℕ
tamanho_do_buffer = 32768

unfoldable pub escrever_bloco : Rodada → List ℕ → Lado → Lado
escrever_bloco r bloco l = elim r.falha [
  | none ↦ record l {
    recebido = l.recebido ++ bloco;
    situacao = if r.acabou then leitura_acabou else copiando;
  }
  | some k ↦ record l { recebido = l.recebido ++ take k bloco; situacao = escrita_falhou }
]

unfoldable pub rodada : Rodada → Lado → Lado
unfolding escrever_bloco
rodada r l =
    let n = min r.lidos tamanho_do_buffer in
    let bloco = take n l.por_ler in
    let l1 = record l { por_ler = drop n l.por_ler } in
    elim l.situacao [
      | copiando ↦
          if vazio bloco
          then record l1 { situacao = if r.acabou then leitura_acabou else copiando }
          else escrever_bloco r bloco l1
      | leitura_acabou ↦ l
      | escrita_falhou ↦ l
    ]

-- `ida` goes from the client to the target, and `volta` back.
pub record Ligacao : Type 0 where
  pub ida : Lado
  pub volta : Lado
  pub aberta : Bool

abbrev pub parou : Situacao → Bool
parou copiando = false
parou leitura_acabou = true
parou escrita_falhou = true

abbrev pub ligar : List ℕ → List ℕ → List ℕ → Ligacao
ligar escrito cliente servidor = record {
  ida = record { recebido = escrito; por_ler = cliente; situacao = copiando };
  volta = record { recebido = []; por_ler = servidor; situacao = copiando };
  aberta = true;
}

-- What the copy comes to: a round of either goroutine, or the return of copiar when one has ended, by
-- which both sockets are closed.
pub data Copia (l0 : Ligacao) : Ligacao → Type 0 where
  comeca : Copia l0 l0
  vai :
      {l : Ligacao} (r : Rodada)
      → l.aberta ≡ true
      → Copia l0 l
      → Copia l0 (record l { ida = rodada r l.ida })
  volta_uma :
      {l : Ligacao} (r : Rodada)
      → l.aberta ≡ true
      → Copia l0 l
      → Copia l0 (record l { volta = rodada r l.volta })
  fecha :
      {l : Ligacao}
      → (parou l.ida.situacao || parou l.volta.situacao) ≡ true
      → Copia l0 l
      → Copia l0 (record l { aberta = false })

-- What happens to the request behind the reservation.
pub record Alcance : Type 0 where
  pub pode_sequestrar : Bool
  pub alcanca : Bool
  pub sequestra : Bool
  pub escreve_pedido : Bool
  pub guardados : List ℕ
  pub escreve_guardados : Bool

pub data Desfecho : Type 0 where
  respondeu : ℕ → Desfecho
  largou : Desfecho
  copiou : Ligacao → Desfecho

unfoldable pub encaminhar : Alcance → List ℕ → List ℕ → List ℕ → Desfecho
encaminhar a pedido cliente servidor =
    if not a.pode_sequestrar
    then respondeu 500
    else if not a.alcanca
    then respondeu 502
    else if not a.sequestra
    then largou
    else if not a.escreve_pedido
    then largou
    else if not (vazio a.guardados) && not a.escreve_guardados
    then largou
    else copiou (ligar (pedido ++ a.guardados) cliente servidor)

-- The whole of atender, with the counters behind its deferred call.
unfoldable pub atender :
    (Texto → Option (List (List ℕ)))
    → Limites
    → Alcance
    → Texto
    → Texto
    → Texto
    → List ℕ
    → List ℕ
    → List ℕ
    → Ponte
    → Ponte × Desfecho
unfolding decidir devolver encaminhar
atender resolver lim a alvo remoto x_real_ip pedido cliente servidor p =
    let (p1, decisao) = decidir resolver lim alvo remoto x_real_ip p in
    elim decisao [
      | status n ↦ (p1, respondeu n)
      | conectar origem destino ↦ (devolver origem p1, encaminhar a pedido cliente servidor)
    ]
