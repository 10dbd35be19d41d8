-- ===== src/Servidor.antt =====
-- src/sinalizacao.go: the places for connections, the registry of the open ones, and the routes.
-- A connection is the text that names it. atenderWebSocket is three events of a connection: it takes
-- a place, its handshake ends, and it goes; Fechar is one, and any order of them may happen.
pub mod Vagas
pub mod Respostas
pub mod Listados
mod Exemplos
use greenlabs_server.Comum.{
  ℕ, ◌+◌, ◌-◌, Bool, true, false, List, [], ◌∷◌, ◌++◌, ltb, leb, if◌then◌else◌, length,
}
use greenlabs_server.Comum.Texto.{Texto, codes, has_prefix}
use greenlabs_server.Websocket.Aperto.{Pedido, eh_pedido_websocket}
use greenlabs_server.Hub.{contem, incluir, remover}

-- `negociando` counts the places of those that are in the handshake, `fechadas` lists the
-- connections whose socket was closed. `aceitas` lists every connection whose handshake ended, for
-- what is said of them: no operation reads it.
pub record Servidor : Type 0 where
  pub capacidade : ℕ
  pub vagas : ℕ
  pub negociando : ℕ
  pub conexoes : List Texto
  pub encerrando : Bool
  pub fechadas : List Texto
  pub aceitas : List Texto

unfoldable pub novo_servidor : ℕ → Servidor
novo_servidor capacidade = record {
  capacidade = capacidade;
  vagas = 0;
  negociando = 0;
  conexoes = [];
  encerrando = false;
  fechadas = [];
  aceitas = [];
}

-- `case s.vagas <- struct{}{}`, or 503.
unfoldable pub tomar_vaga : Servidor → Servidor
tomar_vaga s =
    if ltb s.vagas s.capacidade
    then record s { vagas = s.vagas + 1; negociando = s.negociando + 1 }
    else s

-- The handshake failed, so that the place is given back.
unfoldable pub desistir : Servidor → Servidor
desistir s =
    if leb 1 s.negociando
    then record s { vagas = s.vagas - 1; negociando = s.negociando - 1 }
    else s

-- The handshake is done: registered, or closed at once while the server closes.
unfoldable pub registrar_conexao : Texto → Servidor → Servidor
registrar_conexao id s =
    if leb 1 s.negociando
    then (if s.encerrando
        then record s {
          vagas = s.vagas - 1;
          negociando = s.negociando - 1;
          fechadas = id ∷ s.fechadas;
          aceitas = id ∷ s.aceitas;
        }
        else record s {
          negociando = s.negociando - 1;
          conexoes = id ∷ s.conexoes;
          aceitas = id ∷ s.aceitas;
        })
    else s

-- The deferred calls of a registered connection.
unfoldable pub retirar_conexao : Texto → Servidor → Servidor
retirar_conexao id s =
    if contem id s.conexoes
    then record s {
      vagas = s.vagas - 1;
      conexoes = remover id s.conexoes;
      fechadas = id ∷ s.fechadas;
    }
    else s

unfoldable pub fechar_servidor : Servidor → Servidor
fechar_servidor s = record s { encerrando = true; fechadas = s.conexoes ++ s.fechadas }

-- A new connection is another one than those before it.
pub data Evento : Type 0 where
  chega : Evento
  falha_aperto : Evento
  conclui : Texto → Evento
  sai : Texto → Evento
  encerra : Evento

unfoldable pub passo : Evento → Servidor → Servidor
passo chega s = tomar_vaga s
passo falha_aperto s = desistir s
passo (conclui id) s = if contem id s.aceitas then s else registrar_conexao id s
passo (sai id) s = retirar_conexao id s
passo encerra s = fechar_servidor s

unfoldable pub executar : List Evento → Servidor → Servidor
executar [] s = s
executar (e ∷ es) s = executar es (passo e s)

-- rotear.
pub data Rota : Type 0 where
  websocket salas estatisticas raiz : Rota

unfoldable pub rotear : Pedido → Texto → Rota
rotear p caminho =
    if eh_pedido_websocket p
    then websocket
    else if has_prefix caminho (codes "/rooms")
    then salas
    else if has_prefix caminho (codes "/stats")
    then estatisticas
    else raiz
