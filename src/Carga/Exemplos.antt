-- ===== src/Carga/Exemplos.antt =====
-- ferramentas/carga/main.go: the theorems at an input.
use greenlabs_server.Comum.{ℕ, ◌-◌, ◌≡◌, refl, false, List, [], ◌∷◌, ◌++◌, length, arith}
use greenlabs_server.Comum.Texto.{Texto, codes}
use greenlabs_server.Websocket.{Rede, Conn, QuadroSaida, ok, eof, op_texto, op_ping, nova_conn}
use greenlabs_server.Websocket.Escrita.{bytes_do_quadro}
use greenlabs_server.Websocket.Escrita.Entrega.{na_linha}
use greenlabs_server.Websocket.Leitura.Quadros.{lendo}
use greenlabs_server.Carga.{receber}
use greenlabs_server.Websocket.Aperto.{Pedido, resposta_do_aperto, aceitar_websocket}
use greenlabs_server.Carga.Conexao.{base64, conectado, conectar}
use greenlabs_server.Carga.Conexao.Aperto.{com_pedido, conectar-aceitar_websocket}
use greenlabs_server.Carga.IdaVolta.{IsControle, receber-bytes_do_quadro}

abbrev rede1 : Rede
rede1 = record { fechada = false; entrada = []; ao_fim = eof; enviado = []; capacidade = 1000 }

abbrev pingue : QuadroSaida
pingue = record { opcode = op_ping; dados = [] }

pingue-IsControle : IsControle pingue
pingue-IsControle = (omega arith, λ e. omega (arith, e), λ e. omega (arith, e), omega arith)

receber-bytes_do_quadro_example :
    receber (
      lendo rede1 (
        na_linha (pingue ∷ [])
        ++ (bytes_do_quadro (record { opcode = op_texto; dados = codes "oi" }) ++ (9 ∷ []))))
    ≡ ok (codes "oi", lendo rede1 (9 ∷ []))
receber-bytes_do_quadro_example =
    receber-bytes_do_quadro (pingue ∷ []) (codes "oi") (9 ∷ []) rede1 (pingue-IsControle, tt)
      (omega arith)

abbrev bruto1 : List ℕ
bruto1 = 1 ∷ 2 ∷ 3 ∷ 4 ∷ 5 ∷ 6 ∷ 7 ∷ 8 ∷ 9 ∷ 10 ∷ 11 ∷ 12 ∷ 13 ∷ 14 ∷ 15 ∷ 16 ∷ []

abbrev pedido1 : Pedido
pedido1 = record {
  upgrade = codes "websocket";
  connection = codes "Upgrade";
  versao = codes "13";
  chave = base64 bruto1;
}

abbrev assinar1 : Texto → Texto
assinar1 t = codes "abc="

abbrev resposta1 : List ℕ
resposta1 = resposta_do_aperto assinar1 (base64 bruto1)

abbrev rede_do_cliente : Rede
rede_do_cliente = record rede1 { entrada = resposta1 ++ (9 ∷ []) }

abbrev conn1 : Conn
conn1 = nova_conn (record rede1 { enviado = resposta1; capacidade = 1000 - length resposta1 })

aceita1 : (aceitar_websocket assinar1 pedido1 (ok rede1)).0 ≡ ok conn1
unfolding aceitar_websocket greenlabs_server.Comum.Texto.equal_fold
    greenlabs_server.Websocket.Aperto.cabecalho_contem greenlabs_server.Comum.Texto.trim_space
    base64 resposta_do_aperto greenlabs_server.Comum.Texto.eq_texto
aceita1 = refl

conectar-aceitar_websocket_example :
    conectar (codes "h:1") bruto1 (ok rede_do_cliente)
    ≡ conectado (record (com_pedido (codes "h:1") bruto1 rede_do_cliente) { entrada = 9 ∷ [] })
unfolding greenlabs_server.Carga.Conexao.pedido_de_aperto base64 nova_conn resposta_do_aperto
conectar-aceitar_websocket_example =
    conectar-aceitar_websocket (codes "h:1") bruto1 rede_do_cliente assinar1 pedido1 rede1 conn1
      (9 ∷ []) refl refl aceita1 refl (omega arith) refl
