-- ===== src/Servidor/Respostas.antt =====
-- src/sinalizacao.go: what the routes /rooms, /stats and / answer, and enderecoRemoto. The answers are
-- the structs that are handed to encoding/json. A room's participants come in the order of its map.
use greenlabs_server.Comum.{ℕ, Bool, true, none, some, List, [], ◌∷◌, map, length, if◌then◌else◌}
use greenlabs_server.Comum.Texto.{Texto, codes, vazio}
use greenlabs_server.Comum.Mapa.{Mapa, lookup}
use greenlabs_server.Hub.{ℤ, pos, Hub}
use greenlabs_server.Ponte.Endereco.{split_host_port}
use greenlabs_server.Servidor.{Servidor}

pub record ParticipanteJson : Type 0 where
  pub id : Texto
  pub nome : Texto
  pub ping_ms : ℤ

pub record SalaJson : Type 0 where
  pub total : ℕ
  pub participantes : List ParticipanteJson

pub record RespostaSalas : Type 0 where
  pub ok : Bool
  pub aplicativo : Texto
  pub salas : Mapa SalaJson

pub record EstatisticasJson : Type 0 where
  pub iniciado_em : Texto
  pub total_conexoes : ℕ
  pub total_repassadas : ℕ
  pub conexoes_ativas : ℕ
  pub limite_conexoes : ℕ
  pub limite_por_sala : ℕ

pub record RespostaEstatisticas : Type 0 where
  pub ok : Bool
  pub estatisticas : EstatisticasJson
  pub salas_ativas : ℕ

pub record RespostaRaiz : Type 0 where
  pub ok : Bool
  pub mensagem : Texto
  pub salas_ativas : ℕ

module _ {S : Type 0} where
  -- Of the peer at `id`, which is the id that the peer has.
  unfoldable pub participante : Hub S → Texto → ParticipanteJson
  participante h id = elim (lookup id h.peers) [
    | none ↦ record { id = id; nome = []; ping_ms = pos 0 }
    | some p ↦ record { id = id; nome = p.nome; ping_ms = p.ping_ms }
  ]

  unfoldable pub sala_json : Hub S → List Texto → SalaJson
  unfolding participante
  sala_json h membros = record {
    total = length membros;
    participantes = map (participante h) membros;
  }

  unfoldable pub todas_as_salas : Hub S → Mapa (List Texto) → Mapa SalaJson
  unfolding sala_json
  todas_as_salas h [] = []
  todas_as_salas h ((sala, membros) ∷ m) = (sala, sala_json h membros) ∷ todas_as_salas h m

  unfoldable pub responder_salas : Hub S → RespostaSalas
  unfolding todas_as_salas
  responder_salas h = record {
    ok = true;
    aplicativo = codes "Sinalizacao GreenLabs PT-BR";
    salas = todas_as_salas h h.salas;
  }

  unfoldable pub total_salas : Hub S → ℕ
  total_salas h = length h.salas

  unfoldable pub responder_estatisticas : Texto → Servidor → Hub S → RespostaEstatisticas
  unfolding total_salas
  responder_estatisticas iniciado_em s h = record {
    ok = true;
    estatisticas = record {
      iniciado_em = iniciado_em;
      total_conexoes = h.total_conexoes;
      total_repassadas = h.total_repassadas;
      conexoes_ativas = s.vagas;
      limite_conexoes = s.capacidade;
      limite_por_sala = h.limite_por_sala;
    };
    salas_ativas = total_salas h;
  }

  unfoldable pub responder_raiz : Hub S → RespostaRaiz
  unfolding total_salas
  responder_raiz h = record {
    ok = true;
    mensagem = codes "Servidor de Sinalizacao GreenLabs Ativo";
    salas_ativas = total_salas h;
  }

unfoldable pub ou_traco : Texto → Texto
ou_traco s = if vazio s then codes "-" else s

unfoldable pub endereco_remoto : Texto → Texto
endereco_remoto remoto = elim (split_host_port remoto) [
  | none ↦ if vazio remoto then codes "-" else remoto
  | some (host, porta) ↦ host
]
