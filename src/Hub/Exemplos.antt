-- ===== src/Hub/Exemplos.antt =====
-- src/hub.go: runs of the hub, and its theorems at an input.
use greenlabs_server.Servidor.Respostas.{responder_salas}
use greenlabs_server.Servidor.Listados.{listados, responder_salas-sala_de}
use greenlabs_server.Comum.{
  ◌↔◌, ◌≢◌, ℕ, arith, ◌≡◌, refl, true, false, none, some, List, [], ◌∷◌, ◌++◌, if◌then◌else◌, ◌||◌,
}
use greenlabs_server.Comum.Texto.{Texto, codes, eq_texto, vazio, trim_space}
use greenlabs_server.Comum.Mapa.{lookup, insert}
use greenlabs_server.Websocket.{Conn, eof, nova_conn}
use greenlabs_server.Hub.{
  ℤ, pos, Hub, MensagemEntrada, Retransmissor, Json, Reais, novo_hub, novo_peer, tem_peer, Peer,
  id_do_sfu, sala_de, mudar_peer, membros_de, marcar_pings, enviar_a_todos, enviar, incluir, contem,
}
use greenlabs_server.Hub.Formato.{com_campo_from, texto_json}
use greenlabs_server.Hub.Formato.Escape.{fim_da_string, fim_da_string-texto_json}
use greenlabs_server.Hub.Formato.Remetente.{com_campo_from_intacto}
use greenlabs_server.Hub.Entrega.{Repassou, ParaOutros, tratar-Repassou, tratar_isolado}
use greenlabs_server.Hub.Operacoes.{
  tratar, admitir, recusar, entrar_no_sfu, sala_pedida, sair, entrar,
}
use greenlabs_server.Hub.Conversa.{conversar}
use greenlabs_server.Hub.Conversa.Fim.{Acabou, conversar-Acabou}
use greenlabs_server.Hub.Indice.{IsIndice}
use greenlabs_server.Hub.Indice.Sair.{Saiu, sair-Saiu}
use greenlabs_server.Hub.Indice.Entrou.{Pediu}
use greenlabs_server.Hub.Indice.Entrar.{entrar-Pediu}
use greenlabs_server.Hub.Indice.Execucao.{
  Evento, conecta, mensagem, cai, tique, passo, executar, executar-IsIndice,
}

abbrev conn_hub : Conn
conn_hub =
    nova_conn
      (record { fechada = false; entrada = []; ao_fim = eof; enviado = []; capacidade = 1000 })

-- A retransmitter that admits nobody, numbers that are never read, and a decoder of one byte.
abbrev sfu0 : Retransmissor ℕ
sfu0 = record {
  entrar = λ sala id s. (s, [], false);
  sair = λ sala id s. s;
  descricao = λ sala id tipo sdp s. (s, []);
  candidato = λ sala id candidato mid s. (s, []);
}

abbrev num0 : Reais ℕ
num0 = record {
  ler = λ t. none;
  infinito_ou_nan = λ n. false;
  nulo = λ n. false;
  negativo = λ n. false;
  truncado = pos;
  arredondado = pos;
}

abbrev entrada0 : Texto → MensagemEntrada
entrada0 tipo = record {
  tipo = tipo;
  para = [];
  sala = codes "s";
  nome = [];
  timestamp = [];
  rtt = [];
}

abbrev json0 : Json
json0 = record {
  entrada = λ b. if vazio b then none else some (entrada0 (codes "join"));
  sdp = λ b. none;
  ice = λ b. none;
}

abbrev eventos_hub : List Evento
eventos_hub =
    conecta (codes "a") conn_hub
    ∷ conecta (codes "b") conn_hub
    ∷ mensagem (codes "a") (pos 0) (1 ∷ [])
    ∷ mensagem (codes "b") (pos 0) (1 ∷ [])
    ∷ cai (codes "a")
    ∷ tique
    ∷ []

executar-IsIndice_example : IsIndice (executar sfu0 json0 num0 eventos_hub (novo_hub 6 none))
executar-IsIndice_example = executar-IsIndice sfu0 json0 num0 6 none eventos_hub

abbrev hub_a : Hub ℕ
hub_a = executar sfu0 json0 num0 (conecta (codes "a") conn_hub ∷ []) (novo_hub 6 none)

hub_a-IsIndice : IsIndice hub_a
hub_a-IsIndice = executar-IsIndice sfu0 json0 num0 6 none (conecta (codes "a") conn_hub ∷ [])

hub_a-tem_peer : tem_peer (codes "a") hub_a ≡ true
unfolding executar passo novo_hub novo_peer tem_peer lookup insert eq_texto
hub_a-tem_peer = refl

-- A participant whose connection brings one masked text frame, a join, and then ends.
abbrev conn_falante : Conn
conn_falante = nova_conn (record {
  fechada = false;
  entrada = 129 ∷ 129 ∷ 0 ∷ 0 ∷ 0 ∷ 0 ∷ 1 ∷ [];
  ao_fim = eof;
  enviado = [];
  capacidade = 1000;
})

abbrev hub_falante : Hub ℕ
hub_falante = executar sfu0 json0 num0 (conecta (codes "a") conn_falante ∷ []) (novo_hub 6 none)

abbrev peer_falante : Peer
peer_falante = record {
  id = codes "a";
  conexao = conn_falante;
  nome = [];
  sala = [];
  ping_ms = pos 0;
}

abbrev oito_horas : List ℤ
oito_horas = pos 1 ∷ pos 2 ∷ pos 3 ∷ pos 4 ∷ pos 5 ∷ pos 6 ∷ pos 7 ∷ pos 8 ∷ []

hub_falante-peer : lookup (codes "a") hub_falante.peers ≡ some peer_falante
unfolding lookup executar passo tem_peer novo_hub novo_peer insert eq_texto
hub_falante-peer = refl

conversar-Acabou_example :
    Acabou sfu0 json0 num0
      (codes "a")
      (conversar sfu0 json0 num0 oito_horas (codes "a") hub_falante)
unfolding nova_conn
conversar-Acabou_example =
    conversar-Acabou sfu0 json0 num0 oito_horas (codes "a") hub_falante peer_falante
      (executar-IsIndice sfu0 json0 num0 6 none (conecta (codes "a") conn_falante ∷ []))
      hub_falante-peer (omega arith)

entrar-Pediu_example :
    Pediu
      (codes "a")
      (sala_pedida (codes "s"))
      (sair sfu0 (codes "a") hub_a)
      (entrar sfu0 (codes "a") (entrada0 (codes "join")) hub_a)
entrar-Pediu_example =
    entrar-Pediu sfu0 (codes "a") (entrada0 (codes "join")) hub_a hub_a-IsIndice hub_a-tem_peer

sair-Saiu_example : Saiu (codes "a") hub_a (sair sfu0 (codes "a") hub_a)
sair-Saiu_example = sair-Saiu sfu0 (codes "a") hub_a hub_a-IsIndice

fim_da_string-texto_json_example :
    (corpo : List ℕ) × (texto_json (codes "a\"b") ++ codes "}" ≡ b'"' ∷ corpo)
    × (fim_da_string false corpo ≡ some (codes "}"))
fim_da_string-texto_json_example = fim_da_string-texto_json (codes "a\"b") (codes "}")

-- The blank before the object keeps the sender that the client wrote itself.
remetente_do_cliente :
    com_campo_from (b' ' ∷ codes "{\"to\":\"b\",\"from\":\"c\"}") (codes "a")
    ≡ b' ' ∷ codes "{\"to\":\"b\",\"from\":\"c\"}"
remetente_do_cliente =
    com_campo_from_intacto b' ' (codes "{\"to\":\"b\",\"from\":\"c\"}") (codes "a")
      (λ e. omega (arith, e))

-- One room with two participants.
abbrev recado : MensagemEntrada
recado = record {
  tipo = codes "offer";
  para = codes "b";
  sala = [];
  nome = [];
  timestamp = [];
  rtt = [];
}

abbrev participante : Texto → Peer
participante id = record {
  id = id;
  conexao = conn_hub;
  nome = codes "Ana";
  sala = codes "s";
  ping_ms = pos 0;
}

abbrev hub_ab : Hub ℕ
hub_ab = record {
  salas = (codes "s", codes "a" ∷ codes "b" ∷ []) ∷ [];
  peers = (codes "a", participante (codes "a")) ∷ (codes "b", participante (codes "b")) ∷ [];
  limite_por_sala = 6;
  ping_sujas = [];
  sfu = none;
  total_conexoes = 2;
  total_repassadas = 0;
}

recado_do_par : eq_texto recado.para id_do_sfu ≡ false
unfolding eq_texto
recado_do_par = refl

hub_ab_enderecado : (vazio (sala_de (codes "a") hub_ab) || vazio recado.para) ≡ false
unfolding sala_de lookup eq_texto
hub_ab_enderecado = refl

-- A decoder that reads `recado` in every text.
abbrev json_recado : Json
json_recado = record { entrada = λ b. some recado; sdp = λ b. none; ice = λ b. none }

recado-ParaOutros : ParaOutros json_recado (codes "{}") recado
unfolding eq_texto
recado-ParaOutros = (refl, refl, refl)

tratar-Repassou_example :
    Repassou
      (codes "a")
      recado
      (codes "{}")
      hub_ab
      (tratar sfu0 json_recado num0 (pos 0) (codes "a") (codes "{}") hub_ab)
tratar-Repassou_example =
    tratar-Repassou sfu0 json_recado num0 (pos 0) (codes "a") recado (codes "{}") hub_ab
      recado-ParaOutros recado_do_par hub_ab_enderecado

abbrev entra_a : List Evento
entra_a = conecta (codes "a") conn_hub ∷ mensagem (codes "a") (pos 0) (1 ∷ []) ∷ []

abbrev hub_s : Hub ℕ
hub_s = executar sfu0 json0 num0 entra_a (novo_hub 6 none)

hub_s_sala : sala_de (codes "a") hub_s ≡ codes "s"
unfolding executar passo sala_de lookup tem_peer novo_hub novo_peer insert eq_texto tratar entrar
    mudar_peer sair membros_de admitir recusar marcar_pings enviar_a_todos entrar_no_sfu enviar
    sala_pedida trim_space incluir contem
hub_s_sala = refl

hub_s_fora : sala_de (codes "b") hub_s ≡ []
unfolding executar passo sala_de lookup tem_peer novo_hub novo_peer insert eq_texto tratar entrar
    mudar_peer sair membros_de admitir recusar marcar_pings enviar_a_todos entrar_no_sfu enviar
    sala_pedida trim_space incluir contem
hub_s_fora = refl

tratar_isolado_example : tratar sfu0 json_recado num0 (pos 0) (codes "a") (codes "{}") hub_s ≡ hub_s
tratar_isolado_example =
    tratar_isolado sfu0 json_recado num0 (pos 0) (codes "a") recado (codes "{}") hub_s
      (executar-IsIndice sfu0 json0 num0 6 none entra_a) recado-ParaOutros recado_do_par
      (λ e. cc (e, hub_s_sala, hub_s_fora))

-- The hub after the day of `eventos_hub`, in which only "b" is left in the room "s".
responder_salas-sala_de_example :
    (contem (codes "b") (
        listados (
          lookup
            (codes "s")
            (responder_salas (executar sfu0 json0 num0 eventos_hub (novo_hub 6 none))).salas))
      ≡ true)
    ↔ ((sala_de (codes "b") (executar sfu0 json0 num0 eventos_hub (novo_hub 6 none)) ≡ codes "s")
        × (codes "s" ≢ []))
responder_salas-sala_de_example =
    responder_salas-sala_de (executar sfu0 json0 num0 eventos_hub (novo_hub 6 none)) (codes "s")
      (codes "b") (executar-IsIndice sfu0 json0 num0 6 none eventos_hub)
