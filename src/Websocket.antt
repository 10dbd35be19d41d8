-- ===== src/Websocket.antt =====
-- src/websocket.go: an established connection and its queue of outgoing frames.
-- `Conn` is the struct Conn; the socket behind it is a `Rede`: the bytes that the client is still
-- going to send, how reading ends when they have run out, the bytes that left, and how many more
-- the other side takes before a write fails. `Once` and channels are plain state: `fechado` is the
-- closed channel, `saida` the buffered channel, oldest frame first. AoPong is nil everywhere in the
-- repository and has no field.
pub mod Fila
pub mod Escrita
pub mod Leitura
pub mod Aperto
mod Exemplos
use greenlabs_server.Comum.{
  ℕ, ◌+◌, ◌-◌, ◌^◌, Bool, true, false, Option, none, some, List, [], ◌∷◌, ◌++◌, ltb, if◌then◌else◌,
  length,
}
use greenlabs_server.Comum.Texto.{Texto}

abbrev pub op_continuacao : ℕ
op_continuacao = 0x0

abbrev pub op_texto : ℕ
op_texto = 0x1

abbrev pub op_binario : ℕ
op_binario = 0x2

abbrev pub op_fechar : ℕ
op_fechar = 0x8

abbrev pub op_ping : ℕ
op_ping = 0x9

abbrev pub op_pong : ℕ
op_pong = 0xa

-- 1 << 20, 256 and 2 << 20.
abbrev pub tamanho_maximo_mensagem : ℕ
tamanho_maximo_mensagem = 1048576

abbrev pub tamanho_fila_saida : ℕ
tamanho_fila_saida = 256

abbrev pub bytes_maximos_fila_saida : ℕ
bytes_maximos_fila_saida = 2097152

-- The errors of the file, in its order, behind those that the socket returns. `sem_combustivel` is
-- no error of the program: a loop of the model ran out of rounds.
pub data Erro : Type 0 where
  eof eof_inesperado prazo_esgotado rede_fechada escrita_falhou : Erro
  conexao_fechada fila_cheia : Erro
  sem_upgrade sem_connection versao_nao_suportada sem_chave : Erro
  mensagem_nova continuacao_sem_inicio fragmentada_grande opcode_desconhecido : Erro
  bits_rsv controle_invalido sem_mascara quadro_grande : Erro
  sem_combustivel : Erro

pub data Resultado {ℓ} (A : Type ℓ) : Type ℓ where
  ok : A → Resultado A
  err : Erro → Resultado A

pub record QuadroSaida : Type 0 where
  pub opcode : ℕ
  pub dados : List ℕ

pub record Rede : Type 0 where
  pub fechada : Bool
  pub entrada : List ℕ
  pub ao_fim : Erro
  pub enviado : List ℕ
  pub capacidade : ℕ

pub record Conn : Type 0 where
  pub rede : Rede
  pub saida : List QuadroSaida
  pub fechado : Bool
  pub bytes_na_fila : ℕ
  pub montagem : List ℕ
  pub montando : Bool

-- What AceitarWebSocket returns over a socket.
unfoldable pub nova_conn : Rede → Conn
nova_conn r = record {
  rede = r;
  saida = [];
  fechado = false;
  bytes_na_fila = 0;
  montagem = [];
  montando = false;
}

unfoldable pub fechar : Conn → Conn
fechar c = record c { fechado = true }

-- `select` on the closed channel first; then the byte count, which is undone on every refusal; then
-- the send, which fails when the channel's buffer is full.
unfoldable pub enfileirar : QuadroSaida → Conn → Conn × Option Erro
unfolding fechar
enfileirar q c =
    if c.fechado
    then (c, some conexao_fechada)
    else if ltb bytes_maximos_fila_saida (c.bytes_na_fila + length q.dados)
    then (fechar c, some fila_cheia)
    else if ltb (length c.saida) tamanho_fila_saida
    then (
      record c { saida = c.saida ++ (q ∷ []); bytes_na_fila = c.bytes_na_fila + length q.dados },
      none,
    )
    else (fechar c, some fila_cheia)

unfoldable pub enviar_texto : List ℕ → Conn → Conn × Option Erro
enviar_texto dados c = enfileirar (record { opcode = op_texto; dados = dados }) c

unfoldable pub enviar_ping : Conn → Conn × Option Erro
enviar_ping c = enfileirar (record { opcode = op_ping; dados = [] }) c

-- 1013 in two bytes, then the reason.
unfoldable pub rejeitar : Texto → Conn → Conn
rejeitar motivo c =
    fechar (enfileirar (record { opcode = op_fechar; dados = 0x03 ∷ 0xf5 ∷ motivo }) c).0
