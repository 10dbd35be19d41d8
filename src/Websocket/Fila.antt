-- ===== src/Websocket/Fila.antt =====
-- src/websocket.go: what the queue of outgoing frames promises.
use greenlabs_server.Comum.{
  ℕ, ◌+◌, ◌≤◌, ◌<◌, ◌≡◌, ◌⊎◌, true, false, Option, none, some, List, [], ◌∷◌, ◌++◌, arith, length,
  length-append,
}
use greenlabs_server.Comum.Texto.{Texto}
use greenlabs_server.Websocket.{
  Conn, QuadroSaida, Erro, conexao_fechada, fila_cheia, nova_conn, fechar, enfileirar, rejeitar,
  Rede, tamanho_fila_saida, bytes_maximos_fila_saida, op_fechar,
}

-- The payload bytes of a queue.
unfoldable pub total : List QuadroSaida → ℕ
total [] = 0
total (q ∷ qs) = length q.dados + total qs

pub total-append : (xs ys : List QuadroSaida) → total (xs ++ ys) ≡ total xs + total ys
unfolding total
total-append [] ys = omega arith
total-append (x ∷ xs) ys = omega (arith, total-append xs ys)

pub record IsFila (c : Conn) : Type 0 where
  pub contada : c.bytes_na_fila ≡ total c.saida
  pub bytes : c.bytes_na_fila ≤ bytes_maximos_fila_saida
  pub vagas : length c.saida ≤ tamanho_fila_saida

pub nova_conn-IsFila : (r : Rede) → IsFila (nova_conn r)
unfolding nova_conn total
nova_conn-IsFila r = omega arith

pub fechar-IsFila : (c : Conn) → IsFila c → IsFila (fechar c)
unfolding fechar
fechar-IsFila c v = record { contada = v.contada; bytes = v.bytes; vagas = v.vagas }

-- The counter stays the number of payload bytes that wait, at most 2 MiB, and at most 256 frames wait.
pub enfileirar-IsFila : (q : QuadroSaida) (c : Conn) → IsFila c → IsFila (enfileirar q c).0
unfolding enfileirar total
enfileirar-IsFila q c v =
    ground (arith, total-append c.saida (q ∷ []), length-append c.saida (q ∷ []))

pub rejeitar-IsFila : (m : Texto) (c : Conn) → IsFila c → IsFila (rejeitar m c)
unfolding rejeitar
rejeitar-IsFila m c v =
    fechar-IsFila _ (enfileirar-IsFila (record { opcode = op_fechar; dados = 0x03 ∷ 0xf5 ∷ m }) c v)

-- What a call of `enfileirar` may do.
abbrev pub Enfileirou : QuadroSaida → Conn → Conn × Option Erro → Type 0
Enfileirou q c (c', e) =
    ((e ≡ none)
      × (c.fechado ≡ false)
      × (c'.fechado ≡ false)
      × (c'.rede ≡ c.rede)
      × (c'.saida ≡ c.saida ++ (q ∷ []))
      × (length c.saida < tamanho_fila_saida)
      × (c.bytes_na_fila + length q.dados ≤ bytes_maximos_fila_saida))
    ⊎ ((e ≡ some conexao_fechada) × (c.fechado ≡ true) × (c' ≡ c))
    ⊎ ((e ≡ some fila_cheia)
        × (c.fechado ≡ false)
        × (c' ≡ fechar c)
        × ((bytes_maximos_fila_saida < c.bytes_na_fila + length q.dados)
            ⊎ (tamanho_fila_saida ≤ length c.saida)))

-- `enfileirar` answers nil exactly when the connection is open and the frame fits by bytes and by
-- frames, and it then stands behind the others; a closed connection is left as it was; a queue that
-- is full either way drops the frame and closes the connection.
pub enfileirar-Enfileirou : (q : QuadroSaida) (c : Conn) → Enfileirou q c (enfileirar q c)
unfolding enfileirar
enfileirar-Enfileirou q c = ground arith
