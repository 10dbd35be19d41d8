-- ===== src/Hub/Avisos/Exemplos.antt =====
-- src/hub.go, entrar and Sair: the theorems at an input.
use greenlabs_server.Comum.{
  ◌≡◌, Bool, true, false, Option, none, some, List, [], ◌∷◌, if◌then◌else◌,
}
use greenlabs_server.Comum.Texto.{Texto, codes, eq_texto}
use greenlabs_server.Comum.Mapa.{lookup}
use greenlabs_server.Websocket.{Conn, eof, nova_conn}
use greenlabs_server.Hub.{Hub, Peer, MensagemEntrada, Retransmissor, pos, mudar_peer}
use greenlabs_server.Hub.Operacoes.{msg_left, sala_pedida, nome_pedido, sair, entrar}
use greenlabs_server.Hub.Avisos.{a_cada, com_avisos, no_peer}
use greenlabs_server.Hub.Avisos.Salas.{restantes_de, em_sala, sair_avisos}

abbrev conn_livre : Conn
conn_livre =
    nova_conn (record { fechada = false; entrada = []; ao_fim = eof; enviado = []; capacidade = 9 })

abbrev sem_sfu : Retransmissor Bool
sem_sfu = record {
  entrar = λ sala id s. (s, [], false);
  sair = λ sala id s. s;
  descricao = λ sala id tipo sdp s. (s, []);
  candidato = λ sala id candidato mid s. (s, []);
}

abbrev em : Texto → Texto → Peer
em sala id = record { id = id; conexao = conn_livre; nome = id; sala = sala; ping_ms = pos 0 }

-- "a" and "b" share a room, and "c" is in another.
abbrev hub_abc : Hub Bool
hub_abc = record {
  salas = (codes "s", codes "a" ∷ codes "b" ∷ []) ∷ (codes "t", codes "c" ∷ []) ∷ [];
  peers =
      (codes "a", em (codes "s") (codes "a"))
      ∷ (codes "b", em (codes "s") (codes "b"))
      ∷ (codes "c", em (codes "t") (codes "c"))
      ∷ [];
  limite_por_sala = 3;
  ping_sujas = [];
  sfu = none;
  total_conexoes = 3;
  total_repassadas = 0;
}

abbrev pedido_t : MensagemEntrada
pedido_t = record {
  tipo = codes "join";
  para = [];
  sala = codes "t";
  nome = codes "A";
  timestamp = [];
  rtt = [];
}

sair_avisos_example :
    lookup (codes "b") (sair sem_sfu (codes "a") hub_abc).peers
    ≡ no_peer
        (λ p.
          com_avisos
            (codes "b")
            (a_cada (msg_left (codes "a")) (restantes_de sem_sfu (codes "a") hub_abc))
            (if eq_texto (codes "a") (codes "b") then record p { sala = [] } else p))
        (lookup (codes "b") hub_abc.peers)
sair_avisos_example = sair_avisos sem_sfu (codes "a") hub_abc (codes "b")

abbrev depois_de_sair : Hub Bool
depois_de_sair =
    mudar_peer (codes "a") (em_sala (sala_pedida (codes "t")) (nome_pedido (codes "A")))
      (sair sem_sfu (codes "a") hub_abc)
