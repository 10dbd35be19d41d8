-- ===== src/Hub/Conversa.antt =====
-- src/sinalizacao.go, the loop of atenderWebSocket: what a connection reads goes to the hub, until a
-- read fails. Each message comes at an instant of the list; when the list is used up the loop is still
-- going, which the second result says. What other goroutines do meanwhile is left out here.
pub mod Entrada
pub mod Fim
use greenlabs_server.Comum.{ℕ, Bool, true, false, Option, none, some, List, [], ◌∷◌}
use greenlabs_server.Comum.Texto.{Texto}
use greenlabs_server.Comum.Mapa.{lookup}
use greenlabs_server.Websocket.{Resultado, ok, err, rede_fechada, fechar, enviar_ping, Conn}
use greenlabs_server.Websocket.Leitura.{ler}
use greenlabs_server.Hub.{ℤ, Peer, Hub, Retransmissor, Json, Reais, mudar_peer}
use greenlabs_server.Hub.Operacoes.{sair, tratar}

module _ {S : Type 0} where
  -- conexao.Ler; the pointer is live.
  unfoldable pub ler_do_peer : Texto → Hub S → Hub S × Resultado (List ℕ)
  ler_do_peer id h = elim (lookup id h.peers) [
    | none ↦ (h, err rede_fechada)
    | some p ↦ (let (c, r) = ler p.conexao in (mudar_peer id (λ q. record q { conexao = c }) h, r))
  ]

module _ {S : Type 0} (sfu : Retransmissor S) where
  -- The deferred calls.
  unfoldable pub despedir : Texto → Hub S → Hub S
  despedir id h = mudar_peer id (λ p. record p { conexao = fechar p.conexao }) (sair sfu id h)

module _ {S : Type 0} {F : Type 0} (sfu : Retransmissor S) (json : Json) (num : Reais F) where
  unfoldable pub conversar : List ℤ → Texto → Hub S → Hub S × Bool
  unfolding ler_do_peer despedir
  conversar [] id h = (h, false)
  conversar (agora ∷ horas) id h =
      let (h1, r) = ler_do_peer id h in
      elim r [
        | err e ↦ (despedir sfu id h1, true)
        | ok m ↦ conversar horas id (tratar sfu json num agora id m h1)
      ]
