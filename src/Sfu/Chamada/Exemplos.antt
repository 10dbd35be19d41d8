-- ===== src/Sfu/Chamada/Exemplos.antt =====
-- A run of the hub and its SFU together, with the connection of the tests.
use greenlabs_server.Comum.{ℕ, ◌≡◌, refl, Bool, true, false, Option, none, some, List, [], ◌∷◌}
use greenlabs_server.Comum.Texto.{Texto, codes, vazio}
use greenlabs_server.Websocket.{Conn, eof, nova_conn}
use greenlabs_server.Hub.{pos, Hub, Json, Reais, novo_hub, membros_de, contem}
use greenlabs_server.Hub.Indice.Execucao.{conecta, mensagem}
use greenlabs_server.Sfu.{Sessao, Sfu, novo_sfu, sessao_de, faixas_de}
use greenlabs_server.Sfu.Salas.{criar_faixa}
use greenlabs_server.Sfu.Ocorrencias.{publica, termina}
use greenlabs_server.Sfu.Encaminhamento.{IsSessao}
use greenlabs_server.Sfu.Chamada.Execucao.{
  Acontecimento, do_hub, da_midia, executar, coerentes, executar-IsChamada,
}
use greenlabs_server.Sfu.Exemplos.{Conexao, pion_de_teste, leis_de_teste, microfone}

abbrev conexao_de_teste : Conn
conexao_de_teste =
    nova_conn (record { fechada = false; entrada = []; ao_fim = eof; enviado = []; capacidade = 9 })

-- Numbers that are never read, and a decoder to which every text is a wish to join the room "s".
abbrev reais_de_teste : Reais ℕ
reais_de_teste = record {
  ler = λ t. none;
  infinito_ou_nan = λ n. false;
  nulo = λ n. false;
  negativo = λ n. false;
  truncado = pos;
  arredondado = pos;
}

abbrev json_de_teste : Json
json_de_teste = record {
  entrada = λ b. some (record {
    tipo = codes "join";
    para = [];
    sala = codes "s";
    nome = codes "n";
    timestamp = [];
    rtt = [];
  });
  sdp = λ b. none;
  ice = λ b. none;
}

abbrev acontecimentos : List Acontecimento
acontecimentos =
    do_hub (conecta (codes "a") conexao_de_teste)
    ∷ do_hub (conecta (codes "b") conexao_de_teste)
    ∷ do_hub (mensagem (codes "a") (pos 0) (1 ∷ []))
    ∷ do_hub (mensagem (codes "b") (pos 0) (1 ∷ []))
    ∷ da_midia (publica (codes "s") (codes "a") microfone)
    ∷ []

abbrev sessao_do_a : Sessao Conexao
sessao_do_a = record {
  peer = codes "a";
  conexao = record { quieta = false; remota = false; copias = []; deve = false; fechada = false };
  saidas = [];
  fechada = false;
  candidatos_pendentes = [];
  renegociar_depois = false;
  oferecendo = false;
}

-- The first offer to b still waits for its answer.
abbrev sessao_do_b : Sessao Conexao
sessao_do_b = record {
  peer = codes "b";
  conexao = record {
    quieta = false;
    remota = false;
    copias = codes "greenlabs-a-m" ∷ [];
    deve = true;
    fechada = false;
  };
  saidas = codes "greenlabs-a-m" ∷ [];
  fechada = false;
  candidatos_pendentes = [];
  renegociar_depois = true;
  oferecendo = false;
}

abbrev sfu_de_teste : Sfu Conexao
sfu_de_teste = record {
  salas = (codes "s", (codes "a", sessao_do_a) ∷ (codes "b", sessao_do_b) ∷ []) ∷ [];
  faixas =
      (
        codes "s",
        record {
          numero = 0;
          sala = codes "s";
          dono = codes "a";
          origem = microfone;
          id = codes "greenlabs-a-m";
          fluxo = codes "s";
          ultima_chave = none;
          repetindo_chave = true;
        }
            ∷ [],
      )
      ∷ [];
  proximo_numero = 1;
}

executar-IsChamada_example :
    (contem (codes "b") (
        membros_de (codes "s") (
          executar pion_de_teste json_de_teste reais_de_teste acontecimentos
            (novo_hub 6 (some novo_sfu))))
      ≡ true)
    × IsSessao pion_de_teste leis_de_teste
        (codes "b")
        (faixas_de (codes "s") sfu_de_teste)
        sessao_do_b
unfolding greenlabs_server.Comum.Mapa.lookup greenlabs_server.Comum.Mapa.insert
    greenlabs_server.Comum.Mapa.erase greenlabs_server.Comum.Texto.eq_texto
    greenlabs_server.Comum.Texto.trim_left greenlabs_server.Comum.Texto.trim_right
    greenlabs_server.Comum.Texto.trim_space greenlabs_server.Hub.Indice.Execucao.passo
    greenlabs_server.Hub.tem_peer greenlabs_server.Hub.novo_hub greenlabs_server.Hub.novo_peer
    greenlabs_server.Hub.mudar_peer greenlabs_server.Hub.sala_de greenlabs_server.Hub.membros_de
    greenlabs_server.Hub.marcar_pings greenlabs_server.Hub.enviar
    greenlabs_server.Hub.enviar_a_todos greenlabs_server.Hub.enviar_todas
    greenlabs_server.Hub.contem greenlabs_server.Hub.incluir greenlabs_server.Hub.remover
    greenlabs_server.Hub.Operacoes.tratar greenlabs_server.Hub.Operacoes.entrar
    greenlabs_server.Hub.Operacoes.sair greenlabs_server.Hub.Operacoes.admitir
    greenlabs_server.Hub.Operacoes.entrar_no_sfu greenlabs_server.Hub.Operacoes.recusar
    greenlabs_server.Hub.Operacoes.sala_pedida greenlabs_server.Hub.Operacoes.nome_pedido
    greenlabs_server.Hub.Operacoes.entregar_do_sfu greenlabs_server.Sfu.Chamada.Execucao.executar
    greenlabs_server.Sfu.Chamada.Execucao.coerentes greenlabs_server.Sfu.Chamada.Execucao.passo
    greenlabs_server.Sfu.Ocorrencias.ocorrer greenlabs_server.Sfu.Faixas.insistir_na_chave
    greenlabs_server.Sfu.Faixas.mudar_faixa greenlabs_server.Sfu.Faixas.na_faixa
    greenlabs_server.Sfu.Mensagens.curto greenlabs_server.Sfu.Mensagens.id_do_fluxo
    greenlabs_server.Sfu.Mensagens.id_da_faixa greenlabs_server.Sfu.Salas.publicar
    greenlabs_server.Sfu.Salas.entrar greenlabs_server.Sfu.Salas.assinar_todas
    greenlabs_server.Sfu.Salas.criar_faixa greenlabs_server.Sfu.Salas.guardar
    greenlabs_server.Sfu.Salas.na_sala greenlabs_server.Sfu.Salas.para_outros
    greenlabs_server.Sfu.Salas.tem_outros greenlabs_server.Sfu.Sessoes.assinar_e_oferecer
    greenlabs_server.Sfu.Sessoes.nova_sessao greenlabs_server.Sfu.Sessoes.assinar
    greenlabs_server.Sfu.Sessoes.fazer_oferta greenlabs_server.Sfu.Sessoes.oferecer
    greenlabs_server.Sfu.novo_sfu greenlabs_server.Sfu.sessoes_de greenlabs_server.Sfu.sessao_de
    greenlabs_server.Sfu.faixas_de greenlabs_server.Sfu.Exemplos.pion_de_teste
executar-IsChamada_example =
    executar-IsChamada pion_de_teste leis_de_teste json_de_teste reais_de_teste 6 acontecimentos
      (codes "s") (codes "b") sfu_de_teste sessao_do_b refl refl refl
