-- ===== src/Sfu/Exemplos.antt =====
-- A small connection on which the laws of Pion hold, and a run of the server of media with it.
use greenlabs_server.Comum.{
  ℕ, drop, ◌≡◌, refl, Bool, true, false, none, some, List, [], ◌∷◌, if◌then◌else◌, arith,
}
use greenlabs_server.Comum.Mapa.{lookup, insert, erase}
use greenlabs_server.Comum.Texto.{Texto, codes, eq_texto}
use greenlabs_server.Hub.Formato.{digito_hex, escapar, escapar_texto, texto_json, utf8}
use greenlabs_server.Hub.{contem, incluir, remover}
use greenlabs_server.Sfu.Chaves.{
  conectada, rodada_de_chave, mudou_estado, escrever_ao_dono, insistir_em_todas, ler_rtcp_da_saida,
  perda, pedir_chave, pedir_chave_de_tudo,
}
use greenlabs_server.Sfu.Faixas.{
  achar_faixa, insistir_na_chave, mudar_faixa, na_faixa, permitir_chave,
}
use greenlabs_server.Sfu.Ocorrencias.{ocorrer, publica, termina, muda, repete, retorna}
use greenlabs_server.Sfu.Encaminhamento.Execucao.{
  ocorre, Evento, entra, descreve, candidata, executar, coerentes, passo, executar-IsSessao,
}
use greenlabs_server.Sfu.Encaminhamento.{LeisPion, IsSessao}
use greenlabs_server.Sfu.Faixas.Espaco.{Atende, pedidos, pedidos-Atende}
use greenlabs_server.Sfu.Mensagens.{
  corpo_da_descricao, curto, id_do_fluxo, id_da_faixa, mensagem_de_descricao,
}
use greenlabs_server.Sfu.Salas.{
  descricao, publicar, entrar, candidato, assinar_todas, criar_faixa, guardar, na_sala, para_outros,
  tem_outros, remover_faixa, sem_faixa,
}
use greenlabs_server.Sfu.Sessoes.{
  descrever_sessao, assinar_e_oferecer, nova_sessao, acrescentar_todos, apos_oferta, apos_resposta,
  assinar, fazer_oferta, guardar_candidato, oferecer, soltar_candidatos, tirar_saida,
}
use greenlabs_server.Sfu.Stun.{texto_do_ip, descobrir_ip_publico}
use greenlabs_server.Sfu.Stun.Resposta.{
  atributo, endereco_mapeado, resposta_stun, descobrir_ip_publico-endereco_mapeado,
}
use greenlabs_server.Sfu.{Origem, Faixa, Pion, Sessao, novo_sfu, sessoes_de, sessao_de, faixas_de}

-- Whether nothing is open, and what no offer has told of.
pub record Conexao : Type 0 where
  pub quieta : Bool
  pub remota : Bool
  pub copias : List Texto
  pub deve : Bool
  pub fechada : Bool

unfoldable pub pion_de_teste : Pion Conexao
pion_de_teste = record {
  nova = some (record { quieta = true; remota = false; copias = []; deve = true; fechada = false });
  estavel = λ c. c.quieta;
  tem_remota = λ c. c.remota;
  ofertar = λ c.
      if c.fechada
      then (c, none)
      else (record c { quieta = false; deve = false }, some (codes "v=0"));
  responder = λ c. (record c { quieta = true }, some (codes "v=1"));
  descrever = λ r sdp c. (record c { quieta = r; remota = true }, true);
  acrescentar = λ x c. c;
  copiar = λ f. true;
  enviar_faixa = λ f c.
      if c.fechada
      then (c, false)
      else (record c { copias = incluir f.id c.copias; deve = true }, true);
  tirar = λ f c.
      if contem f.id c.copias
      then (record c { copias = remover f.id c.copias; deve = true }, true)
      else (c, false);
  escrever = λ p c. c;
  fechar = λ c. record c { fechada = true };
}

tirar_de_teste :
    (f : Faixa) (c : Conexao)
    → (pion_de_teste.tirar f c).1 ≡ false
    → c.deve ≡ false
    → (pion_de_teste.tirar f c).0.deve ≡ false
unfolding pion_de_teste
tirar_de_teste f c = ground arith

pub leis_de_teste : LeisPion pion_de_teste
unfolding pion_de_teste
leis_de_teste = record {
  devendo = λ c. c.deve;
  falhou = λ c. c.fechada;
  envia = λ f c e. ground (arith, e);
  oferta_falha = λ c e. ground (arith, e);
  oferta_mantem = λ c e. ground (arith, e);
  oferta = λ c sdp q e. ground (arith, e);
  tira = λ f c e. ground (arith, e);
  tira_nada = tirar_de_teste;
  descreve = λ r sdp c. (λ e. e, λ e. e);
  responde = λ c. (λ e. e, λ e. e);
  acrescenta = λ x c. (λ e. e, λ e. e);
  escreve = λ p c. (λ e. e, λ e. e);
}

-- A microphone and a camera of ana.
abbrev pub microfone : Origem
microfone = record { id = codes "m"; fluxo = codes "s"; video = false; ssrc = 1 }

abbrev camera : Origem
camera = record { id = codes "c"; fluxo = codes "s"; video = true; ssrc = 2 }

abbrev eventos_de_teste : List Evento
eventos_de_teste =
    entra (codes "r") (codes "ana")
    ∷ candidata (codes "r") (codes "ana") (codes "x") (codes "0")
    ∷ ocorre (publica (codes "r") (codes "ana") microfone)
    ∷ entra (codes "r") (codes "bia")
    ∷ ocorre (publica (codes "r") (codes "ana") camera)
    ∷ descreve (codes "r") (codes "bia") (codes "answer") (codes "v=2")
    ∷ ocorre (muda (codes "r") (codes "bia") conectada)
    ∷ ocorre (repete 7 (codes "r") 1)
    ∷ ocorre (retorna 9 (criar_faixa (codes "r") (codes "ana") camera 1) (perda ∷ []))
    ∷ ocorre (termina (criar_faixa (codes "r") (codes "ana") microfone 0))
    ∷ []

-- Bia is sent the camera alone, and the microphone's end is to be told.
abbrev sessao_de_bia : Sessao Conexao
sessao_de_bia = record {
  peer = codes "bia";
  conexao = record {
    quieta = false;
    remota = true;
    copias = codes "greenlabs-ana-c" ∷ [];
    deve = true;
    fechada = false;
  };
  saidas = codes "greenlabs-ana-c" ∷ [];
  fechada = false;
  candidatos_pendentes = [];
  renegociar_depois = true;
  oferecendo = false;
}

executar-IsSessao_example :
    IsSessao pion_de_teste leis_de_teste
      (codes "bia")
      (faixas_de (codes "r") (executar pion_de_teste eventos_de_teste novo_sfu))
      sessao_de_bia
unfolding lookup insert erase eq_texto digito_hex escapar escapar_texto texto_json utf8 contem
    incluir remover rodada_de_chave ler_rtcp_da_saida mudou_estado achar_faixa escrever_ao_dono
    insistir_em_todas insistir_na_chave mudar_faixa na_faixa pedir_chave pedir_chave_de_tudo
    permitir_chave executar coerentes passo ocorrer corpo_da_descricao curto id_do_fluxo id_da_faixa
    mensagem_de_descricao descricao publicar entrar candidato assinar_todas criar_faixa guardar
    na_sala para_outros tem_outros remover_faixa sem_faixa descrever_sessao assinar_e_oferecer
    nova_sessao acrescentar_todos apos_oferta apos_resposta assinar fazer_oferta guardar_candidato
    oferecer soltar_candidatos tirar_saida novo_sfu sessoes_de sessao_de faixas_de pion_de_teste
executar-IsSessao_example =
    executar-IsSessao pion_de_teste leis_de_teste eventos_de_teste (codes "r") (codes "bia")
      sessao_de_bia refl refl

-- A key frame wanted at 3, 400, 600 and 1100 milliseconds.
pedidos-Atende_example :
    Atende
      (3 ∷ 400 ∷ 600 ∷ 1100 ∷ [])
      none
      (pedidos (3 ∷ 400 ∷ 600 ∷ 1100 ∷ []) (criar_faixa (codes "r") (codes "ana") camera 1))
unfolding criar_faixa
pedidos-Atende_example =
    pedidos-Atende (3 ∷ 400 ∷ 600 ∷ 1100 ∷ []) (criar_faixa (codes "r") (codes "ana") camera 1)

-- A response with a SOFTWARE attribute of three bytes before the address 203.0.113.7.
abbrev cabeca_de_teste : List ℕ
cabeca_de_teste =
    1 ∷ 1 ∷ 0 ∷ 20 ∷ 33 ∷ 18 ∷ 164 ∷ 66 ∷ 1 ∷ 2 ∷ 3 ∷ 4 ∷ 5 ∷ 6 ∷ 7 ∷ 8 ∷ 9 ∷ 10 ∷ 11 ∷ 12 ∷ []

abbrev software : List (ℕ × List ℕ)
software = (0x8022, 97 ∷ 98 ∷ 99 ∷ []) ∷ []

descobrir_ip_publico-endereco_mapeado_example :
    descobrir_ip_publico
      (λ d.
        some (resposta_stun cabeca_de_teste software (endereco_mapeado 1 2 203 0 113 7) (9 ∷ [])))
      (some (drop 8 cabeca_de_teste))
    ≡ texto_do_ip (203 ∷ 0 ∷ 113 ∷ 7 ∷ [])
unfolding atributo endereco_mapeado
descobrir_ip_publico-endereco_mapeado_example =
    descobrir_ip_publico-endereco_mapeado
      (λ d.
        some (resposta_stun cabeca_de_teste software (endereco_mapeado 1 2 203 0 113 7) (9 ∷ [])))
      (drop 8 cabeca_de_teste) cabeca_de_teste (9 ∷ []) software 1 2 203 0 113 7 refl refl
      (omega arith) (λ e. cc, tt) (omega arith, (omega arith, (omega arith, (omega arith, tt))))
