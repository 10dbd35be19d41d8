-- ===== src/Websocket/Escrita.antt =====
-- src/websocket.go: the goroutine that writes, and the frames on the wire.
-- A schedule of `Evento`s stands for the interleaving of the goroutines that enqueue or close with
-- the one that writes; `drenar` runs to its end in the event in which the writer sees the closed
-- channel.
pub mod Ordem
pub mod Entrega
use Prim.Native.Nat.{bit_or}
use greenlabs_server.Comum.{
  ℕ, ◌+◌, ◌-◌, ◌*◌, ◌/◌, ◌%◌, ◌^◌, Bool, true, false, Option, none, some, List, [], ◌∷◌, ◌++◌, leb,
  if◌then◌else◌, length, take,
}
use greenlabs_server.Websocket.{
  Conn, QuadroSaida, Rede, Erro, rede_fechada, escrita_falhou, fechar, enfileirar,
}

-- binary.BigEndian.PutUint16 and PutUint64.
unfoldable pub be16 : ℕ → List ℕ
be16 n = (n / 2 ^ 8 % 256) ∷ (n % 256) ∷ []

unfoldable pub be64 : ℕ → List ℕ
be64 n =
    (n / 2 ^ 56 % 256)
    ∷ (n / 2 ^ 48 % 256)
    ∷ (n / 2 ^ 40 % 256)
    ∷ (n / 2 ^ 32 % 256)
    ∷ (n / 2 ^ 24 % 256)
    ∷ (n / 2 ^ 16 % 256)
    ∷ (n / 2 ^ 8 % 256)
    ∷ (n % 256)
    ∷ []

-- The header of a frame that is not fragmented and not masked.
unfoldable pub cabecalho : ℕ → ℕ → List ℕ
unfolding be16 be64
cabecalho opcode tamanho =
    bit_or 0x80 opcode
    ∷ (if leb tamanho 125
        then tamanho ∷ []
        else if leb tamanho 0xffff
        then 126 ∷ be16 tamanho
        else 127 ∷ be64 tamanho)

unfoldable pub bytes_do_quadro : QuadroSaida → List ℕ
bytes_do_quadro q = cabecalho q.opcode (length q.dados) ++ q.dados

-- SetWriteDeadline fails on a closed socket. The header and the body leave together by Flush; when
-- the socket takes no more, what it took is a part of the frame.
unfoldable pub escrever_quadro : QuadroSaida → Rede → Rede × Option Erro
escrever_quadro q r =
    if r.fechada
    then (r, some rede_fechada)
    else if leb (length (bytes_do_quadro q)) r.capacidade
    then (
      record r {
        enviado = r.enviado ++ bytes_do_quadro q;
        capacidade = r.capacidade - length (bytes_do_quadro q);
      },
      none,
    )
    else (
      record r { enviado = r.enviado ++ take r.capacidade (bytes_do_quadro q); capacidade = 0 },
      some escrita_falhou,
    )

-- A connection with its writer, which runs until it returns.
pub record Enlace : Type 0 where
  pub conn : Conn
  pub escrevendo : Bool

-- The head of the channel is taken and its bytes leave the count, before it is written.
unfoldable pub retirar : QuadroSaida → List QuadroSaida → Conn → Conn
retirar q resto c = record c { saida = resto; bytes_na_fila = c.bytes_na_fila - length q.dados }

-- The loop of drenar, over what the channel holds.
unfoldable pub drenar_laco : List QuadroSaida → Conn → Conn
unfolding retirar
drenar_laco [] c = c
drenar_laco (q ∷ qs) c =
    let (rede', e) = escrever_quadro q c.rede in
    let c' = record (retirar q qs c) { rede = rede' } in
    let resto = drenar_laco qs c' in elim e [ none ↦ resto | some _ ↦ c' ]

unfoldable pub drenar : Conn → Conn
unfolding drenar_laco
drenar c = drenar_laco c.saida c

-- The deferred Close of the writer.
unfoldable pub encerrar_rede : Conn → Conn
encerrar_rede c = let r = c.rede in record c { rede = record r { fechada = true } }

-- One round of Escritor that received `q`.
unfoldable pub despachar : QuadroSaida → List QuadroSaida → Conn → Enlace
unfolding retirar encerrar_rede fechar
despachar q resto c =
    let (rede', e) = escrever_quadro q c.rede in
    let c' = record (retirar q resto c) { rede = rede' } in
    elim e [
      | none ↦ record { conn = c'; escrevendo = true }
      | some _ ↦ record { conn = encerrar_rede (fechar c'); escrevendo = false }
    ]

unfoldable pub despachar_fila : List QuadroSaida → Conn → Enlace
unfolding despachar
despachar_fila [] c = record { conn = c; escrevendo = true }
despachar_fila (q ∷ resto) c = despachar q resto c

pub data Evento : Type 0 where
  enfileira : QuadroSaida → Evento
  fecha : Evento
  despacha : Evento
  desliga : Evento

-- A round of the writer happens only while it runs: with a frame at hand, or on the closed channel.
unfoldable pub passo : Evento → Enlace → Enlace
unfolding despachar_fila encerrar_rede
passo (enfileira q) l = record l { conn = (enfileirar q l.conn).0 }
passo fecha l = record l { conn = fechar l.conn }
passo despacha l = if l.escrevendo then despachar_fila l.conn.saida l.conn else l
passo desliga l =
    if l.escrevendo
    then (if l.conn.fechado
        then record { conn = encerrar_rede (drenar l.conn); escrevendo = false }
        else l)
    else l

unfoldable pub executar : List Evento → Enlace → Enlace
executar [] l = l
executar (e ∷ es) l = executar es (passo e l)

-- The frames that `enfileirar` takes in the course of a schedule.
unfoldable pub aceito : Evento → Conn → List QuadroSaida
aceito (enfileira q) c = elim (enfileirar q c).1 [ none ↦ q ∷ [] | some _ ↦ [] ]
aceito _ c = []

unfoldable pub aceitos : List Evento → Enlace → List QuadroSaida
unfolding aceito
aceitos [] l = []
aceitos (e ∷ es) l = aceito e l.conn ++ aceitos es (passo e l)
