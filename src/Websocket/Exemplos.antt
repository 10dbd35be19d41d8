-- ===== src/Websocket/Exemplos.antt =====
-- src/websocket.go: runs of the connection, and its theorems at an input.
use greenlabs_server.Comum.{ℕ, ◌≡◌, ◌≢◌, refl, Bool, true, false, List, [], ◌∷◌, ◌++◌, arith}
use greenlabs_server.Comum.Texto.{codes, eq_texto, equal_fold, trim_space}
use greenlabs_server.Websocket.{
  Conn, Rede, QuadroSaida, ok, eof, sem_combustivel, op_texto, op_continuacao, nova_conn,
  enfileirar,
}
use greenlabs_server.Websocket.Fila.{IsFila, nova_conn-IsFila, Enfileirou, enfileirar-Enfileirou}
use greenlabs_server.Websocket.Escrita.{
  Evento, enfileira, fecha, despacha, desliga, passo, executar, aceitos, bytes_do_quadro,
  escrever_quadro, drenar, cabecalho,
}
use greenlabs_server.Websocket.Escrita.Ordem.{executar-IsFila}
use greenlabs_server.Websocket.Escrita.Entrega.{
  na_linha, EmOrdem, novo_enlace, executar_novo-EmOrdem, drenar_completo,
}
use greenlabs_server.Websocket.Leitura.{ler_quadro, sobra_da_falha, ler}
use greenlabs_server.Websocket.Leitura.Quadros.{
  lendo, quadro_cliente, IsQuadro, ler_quadro-quadro_cliente,
}
use greenlabs_server.Websocket.Leitura.Limites.{IsLido, ler_quadro-IsLido}
use greenlabs_server.Websocket.Leitura.Mensagens.{IsMontagem, Leu, ler-Leu}
use greenlabs_server.Websocket.Leitura.Fragmentos.{
  pedaco, em, mensagem_cliente, ler-mensagem_cliente,
}
use greenlabs_server.Websocket.Aperto.{
  Pedido, cabecalho_contem, aceitar_websocket, responder_aperto, resposta_do_aperto, Aceitou,
  aceitar_websocket-Aceitou,
}

abbrev rede0 : Rede
rede0 = record { fechada = false; entrada = []; ao_fim = eof; enviado = []; capacidade = 1000 }

abbrev conn0 : Conn
conn0 = nova_conn rede0

abbrev oi : QuadroSaida
oi = record { opcode = op_texto; dados = codes "oi" }

abbrev mascara0 : List ℕ
mascara0 = 1 ∷ 2 ∷ 3 ∷ 4 ∷ []

abbrev mascara1 : List ℕ
mascara1 = 5 ∷ 6 ∷ 7 ∷ 8 ∷ []

abbrev mascara2 : List ℕ
mascara2 = 9 ∷ 10 ∷ 11 ∷ 255 ∷ []

-- Two frames are queued, one is written, then the connection closes and the writer drains.
abbrev eventos : List Evento
eventos = enfileira oi ∷ enfileira oi ∷ despacha ∷ fecha ∷ enfileira oi ∷ desliga ∷ []

eventos_enviado :
    (executar eventos (novo_enlace rede0)).conn.rede.enviado
    ≡ 0x81 ∷ 2 ∷ 111 ∷ 105 ∷ 0x81 ∷ 2 ∷ 111 ∷ 105 ∷ []
unfolding executar passo cabecalho bytes_do_quadro nova_conn enfileirar escrever_quadro drenar
eventos_enviado = refl

enfileirar-Enfileirou_example : Enfileirou oi conn0 (enfileirar oi conn0)
enfileirar-Enfileirou_example = enfileirar-Enfileirou oi conn0

executar-IsFila_example : IsFila (executar eventos (novo_enlace rede0)).conn
executar-IsFila_example = executar-IsFila eventos (novo_enlace rede0) (nova_conn-IsFila rede0)

executar_novo-EmOrdem_example :
    EmOrdem (executar eventos (novo_enlace rede0)) (na_linha (aceitos eventos (novo_enlace rede0)))
executar_novo-EmOrdem_example = executar_novo-EmOrdem eventos rede0 refl

abbrev conn_cheia : Conn
conn_cheia = record {
  rede = rede0;
  saida = oi ∷ oi ∷ [];
  fechado = true;
  bytes_na_fila = 4;
  montagem = [];
  montando = false;
}

drenar_completo_example :
    ((drenar conn_cheia).rede.enviado ≡ [] ++ na_linha (oi ∷ oi ∷ []))
    × ((drenar conn_cheia).saida ≡ [])
unfolding na_linha bytes_do_quadro cabecalho
drenar_completo_example = drenar_completo conn_cheia refl (omega arith)

abbrev Curto : Bool → ℕ → List ℕ → Type 0
Curto fim opcode mascara = IsQuadro fim opcode mascara (codes "oi")

primeiro_IsQuadro : Curto false op_texto mascara0
primeiro_IsQuadro = record {
  opcode_cabe = omega arith;
  controle = λ h. absurd (ground (arith, h));
  mascara_bytes = (omega arith, (omega arith, (omega arith, (omega arith, tt))));
  mascara_quatro = refl;
  dados_bytes = (omega arith, (omega arith, tt));
  cabe = omega arith;
}

meio_IsQuadro : Curto false op_continuacao mascara1
meio_IsQuadro = record {
  opcode_cabe = omega arith;
  controle = λ h. absurd (ground (arith, h));
  mascara_bytes = (omega arith, (omega arith, (omega arith, (omega arith, tt))));
  mascara_quatro = refl;
  dados_bytes = (omega arith, (omega arith, tt));
  cabe = omega arith;
}

ultimo_IsQuadro : Curto true op_continuacao mascara2
ultimo_IsQuadro = record {
  opcode_cabe = omega arith;
  controle = λ _. (refl, omega arith);
  mascara_bytes = (omega arith, (omega arith, (omega arith, (omega arith, tt))));
  mascara_quatro = refl;
  dados_bytes = (omega arith, (omega arith, tt));
  cabe = omega arith;
}

ler_quadro-quadro_cliente_example :
    ler_quadro (lendo rede0 (quadro_cliente false op_texto mascara0 (codes "oi") ++ (7 ∷ [])))
    ≡ ok (record { fim = false; opcode = op_texto; dados = codes "oi" }, lendo rede0 (7 ∷ []))
ler_quadro-quadro_cliente_example =
    ler_quadro-quadro_cliente false op_texto mascara0 (codes "oi") (7 ∷ []) rede0 refl
      primeiro_IsQuadro

ler_quadro-IsLido_example :
    IsLido
      (lendo rede0 (quadro_cliente false op_texto mascara0 (codes "oi") ++ (7 ∷ [])))
      (record { fim = false; opcode = op_texto; dados = codes "oi" })
      (lendo rede0 (7 ∷ []))
ler_quadro-IsLido_example =
    ler_quadro-IsLido
      (lendo rede0 (quadro_cliente false op_texto mascara0 (codes "oi") ++ (7 ∷ [])))
      (record { fim = false; opcode = op_texto; dados = codes "oi" }) (lendo rede0 (7 ∷ []))
      ler_quadro-quadro_cliente_example

eof_da_fonte : rede0.ao_fim ≢ sem_combustivel
eof_da_fonte = λ e. cc

conn0-IsMontagem : IsMontagem conn0
unfolding nova_conn
conn0-IsMontagem = record { cabe = omega arith; fora = λ _. refl }

ler-Leu_example : Leu (ler conn0)
ler-Leu_example =
    ler-Leu conn0 (unfold nova_conn in eof_da_fonte) conn0-IsMontagem (nova_conn-IsFila rede0)

ler-mensagem_cliente_example :
    ler (
      em conn0 rede0
        (mensagem_cliente mascara0
            (codes "oi")
            (pedaco mascara1 (codes "oi") ∷ [])
            mascara2
            (codes "oi")
          ++ (9 ∷ []))
        []
        false)
    ≡ (em conn0 rede0 (9 ∷ []) [] false, ok (codes "oi" ++ ((codes "oi" ++ []) ++ codes "oi")))
ler-mensagem_cliente_example =
    ler-mensagem_cliente conn0 rede0 mascara0 (codes "oi") (pedaco mascara1 (codes "oi") ∷ [])
      mascara2 (codes "oi") (9 ∷ []) refl primeiro_IsQuadro (meio_IsQuadro, tt) ultimo_IsQuadro
      (omega arith)

-- A frame without a mask is refused behind its header, and a header cut short is taken.
sem_mascara_resto :
    (sobra_da_falha (lendo rede0 (129 ∷ 1 ∷ 7 ∷ [])) ≡ 7 ∷ [])
    × (sobra_da_falha (lendo rede0 (129 ∷ [])) ≡ [])
unfolding sobra_da_falha
sem_mascara_resto = (refl, refl)

abbrev pedido0 : Pedido
pedido0 = record {
  upgrade = codes "WebSocket";
  connection = codes "keep-alive, Upgrade";
  versao = codes "13";
  chave = codes "k";
}

abbrev conn_aceita : Conn
conn_aceita = record {
  rede = record {
    fechada = false;
    entrada = [];
    ao_fim = eof;
    enviado =
        codes "HTTP/1.1 101 Switching Protocols\r\nUpgrade: websocket\r\nConnection: Upgrade\r\n"
        ++ codes "Sec-WebSocket-Accept: k258EAFA5-E914-47DA-95CA-C5AB0DC85B11\r\n\r\n";
    capacidade = 862;
  };
  saida = [];
  fechado = false;
  bytes_na_fila = 0;
  montagem = [];
  montando = false;
}

pedido0_aceito : (aceitar_websocket (λ t. t) pedido0 (ok rede0)).0 ≡ ok conn_aceita
unfolding aceitar_websocket responder_aperto resposta_do_aperto nova_conn equal_fold
    cabecalho_contem eq_texto trim_space
pedido0_aceito = refl

aceitar_websocket-Aceitou_example : Aceitou (λ t. t) pedido0 (ok rede0) conn_aceita
aceitar_websocket-Aceitou_example =
    aceitar_websocket-Aceitou (λ t. t) pedido0 (ok rede0) conn_aceita pedido0_aceito
