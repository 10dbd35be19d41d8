-- ===== src/Lib.antt =====
-- GreenLabs signalling server: a verification library of the Go program.
--
-- The program is a WebSocket server that introduces the participants of a room to one another and
-- relays their signalling. `src/websocket.go` is the connection: a queue of outgoing frames with a
-- goroutine that writes it, and the reading of frames and of messages made of them. `src/hub.go`
-- holds the rooms and handles each message that a connection reads (`src/sinalizacao.go` is the
-- loop that feeds it). `src/sfu.go` is one more participant, "sfu", to which the hub hands the messages
-- for it: it sends each one's media on to the others of the room. `cmd/ponte/main.go` is a separate
-- proxy that gives TLS to servers without it. `src/env.go`, `src/console.go` and `src/main.go` read the
-- settings, `src/tunel.go` and `src/cloudflared.go` open a public tunnel with another program, which
-- they download if need be, `src/util.go` has the log and the identifiers, and
-- `ferramentas/carga/main.go` is a load meter that speaks the client's side of the WebSocket.
--
-- Files and what they model:
--   Comum            tests on numbers, lists, bytes, texts (lists of code points or bytes), maps
--                    (association lists), int and strconv.Atoi
--   Websocket        Conn, its limits, enfileirar, Fechar, EnviarTexto, EnviarPing, Rejeitar
--   Websocket/Fila     the queue's limits
--   Websocket/Escrita  Escritor, drenar, escreverQuadro (`passo` is one event of any goroutine)
--   Websocket/Leitura  lerQuadro and Ler
--   Websocket/Aperto   AceitarWebSocket, cabecalhoContem
--   Carga            enviar and receber of the load meter's client, with the server's side
--   Carga/Conexao      conectar, and the handshake with the server (Carga/Conexao/Aperto)
--   Hub              Peer, Hub, NovoHub, NovoPeer, enviar
--   Hub/Formato        comCampoFrom, textoJSON
--   Hub/Operacoes      Tratar, entrar, Sair, responderPing, esvaziarPings, transmitirPings,
--                      entregarAoSFU, paraNumero
--   Hub/Indice         the rooms against the participants' own `sala`, through every handler and
--                      through whole runs (Hub/Indice/Execucao)
--   Hub/Entrega        to whom a relayed message goes
--   Hub/Avisos         what the participants of a room are told when one comes or goes
--   Hub/Conversa       the loop of atenderWebSocket: Ler and Tratar until a read fails
--   Hub/Midia          the sessions of the SFU against the rooms
--   Ponte            reservar, devolver, validar, atender up to the connection, lerFaixa
--   Ponte/Endereco     ehPublico and what is used of package net
--   Ponte/Ligacao      atender to its end, and copiar: `Copia` is the rounds of its two goroutines
--   Ambiente         CarregarEnv, ResolverPorta, limiteDoAmbiente, lerOpcoes
--   Ambiente/Console   perguntar, perguntarSimNao, perguntarConfiguracao, the start of main
--   Registro         registrar, concluirLogs and the goroutine of prepararLogs (`Curso` is how they
--                    interleave), the lines of the log; Registro/Uuid is novoUUID
--   Sfu              faixaEncaminhada, sessaoSFU, SFU of `src/sfu.go`, which sends on the media
--   Sfu/Mensagens      mensagemDeDescricao, mensagemDeCandidato, the names of the copies
--   Sfu/Sessoes        assinar, oferecer and what else happens to one session
--   Sfu/Faixas         permitirChave, insistirNaChave (Sfu/Faixas/Espaco: how far apart)
--   Sfu/Salas          Entrar, aoReceberFaixa, removerFaixa, Descricao, Candidato, Sair
--   Sfu/Chaves         pedirChave, pedirChaveDeTudo, lerRTCPDaSaida, the states of a connection
--   Sfu/Stun           descobrirIPPublico
--   Sfu/Ocorrencias    what Pion and the clock call back
--   Sfu/Chamada        the hub with the SFU in it, by way of what the hub relies on (Hub/Midia)
--   Sfu/Encaminhamento who is sent what, through every operation and whole runs
--   Servidor         the places and the registry of `src/sinalizacao.go`, Fechar, rotear
--   Tunel            EnderecosLocais, ResolverProvedor, ehCloudflared, what IniciarTunel passes on
--   Tunel/Copia        CloudflaredBaixado, BaixarCloudflared, leitorComProgresso
--   Tunel/Padroes      the two regular expressions
--   Servidor/Respostas responderSalas, responderEstatisticas, responderRaiz, enderecoRemoto
-- The file Exemplos of a component runs it at an input.
--
-- Conventions and bounds. A pointer to a Peer is its id, and `Hub.peers` is the store behind the
-- pointers. A handler of the hub, an enqueue and a round of the writer are one step each; the order
-- of the steps is any. Ranging over a Go map goes through a list in a fixed order. The loops of Ler
-- and of the load meter's receber and conectar run on fuel, one round more than the input has bytes: a
-- round takes one byte or more. The loop of atenderWebSocket takes an instant for each message, and
-- ends when there are more of them than bytes to read. No other definition needs fuel but Itoa, with
-- one round more than the number, and the search in the answer of STUN, with a round for each byte.
-- Time, deadlines and logging are left out, or are arguments. encoding/json, float64, the signature of
-- the handshake and the resolver of names are parameters. So are the
-- connections of Pion, as a type with the operations that `src/sfu.go` calls (`Pion`); `LeisPion` is
-- what is relied on of them.
--
-- Not modelled: the set-up of Pion, encoding/json behind the answers of the routes, starting the
-- tunnel's program, what is printed on the console, the request that the proxy writes, the measurement
-- of the load meter, and the copying of packets in the SFU.
pub mod Comum
pub mod Websocket
pub mod Carga
pub mod Hub
pub mod Ponte
pub mod Ambiente
pub mod Registro
pub mod Servidor
pub mod Sfu
pub mod Tunel
