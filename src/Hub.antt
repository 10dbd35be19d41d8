-- ===== src/Hub.antt =====
-- src/hub.go: the rooms, the participants and what they share.
-- A `*Peer` is its id: `Hub.peers` is the heap that the pointers point into, and a room is the list
-- of the ids that are its map's keys. A handler of the hub runs as one step.
-- What the hub takes from elsewhere comes as an argument: encoding/json as a record of decoders,
-- float64 as a record of the operations used, and the retransmitter as `Retransmissor`, whose state
-- the hub carries.
pub mod Formato
pub mod Operacoes
pub mod Indice
pub mod Avisos
pub mod Conversa
pub mod Entrega
pub mod Midia
mod Exemplos
use greenlabs_server.Comum.{
  ℕ, suc, ◌+◌, ◌-◌, Bool, true, false, Option, none, some, List, [], ◌∷◌, ◌++◌, if◌then◌else◌,
}
use greenlabs_server.Comum.Texto.{Texto, codes, eq_texto}
use greenlabs_server.Comum.Mapa.{Mapa, lookup, insert}
pub use greenlabs_server.Comum.Inteiro.{ℤ, pos, negsuc}
use greenlabs_server.Websocket.{Conn, enviar_texto}

abbrev pub sala_padrao : Texto
sala_padrao = codes "call1"

abbrev pub tamanho_maximo_nome : ℕ
tamanho_maximo_nome = 40

abbrev pub id_do_sfu : Texto
id_do_sfu = codes "sfu"

pub record Peer : Type 0 where
  pub id : Texto
  pub conexao : Conn
  pub nome : Texto
  pub sala : Texto
  pub ping_ms : ℤ

pub record MensagemEntrada : Type 0 where
  pub tipo : Texto
  pub para : Texto
  pub sala : Texto
  pub nome : Texto
  pub timestamp : Texto
  pub rtt : Texto

-- json.Unmarshal into the structs that the hub declares: `none` is an error, and inside it a nil
-- pointer. `sdp` has the fields "sdp" and "description", `ice` the candidate and its mid.
pub record Json : Type 0 where
  pub entrada : List ℕ → Option MensagemEntrada
  pub sdp : List ℕ → Option (Option Texto × Option Texto)
  pub ice : List ℕ → Option (Option (Texto × Texto))

-- strconv.ParseFloat, the tests on its result, and the conversions to int64.
pub record Reais (F : Type 0) : Type 0 where
  pub ler : Texto → Option F
  pub infinito_ou_nan : F → Bool
  pub nulo : F → Bool
  pub negativo : F → Bool
  pub truncado : F → ℤ
  pub arredondado : F → ℤ

-- What the hub calls of the SFU. A call returns the new state and the messages that it sent to
-- participants, oldest first, through the function that `entrar` was given for each.
pub record Retransmissor (S : Type 0) : Type 0 where
  pub entrar : Texto → Texto → S → S × List (List ℕ) × Bool
  pub sair : Texto → Texto → S → S
  pub descricao : Texto → Texto → Texto → Texto → S → S × List (Texto × List ℕ)
  pub candidato : Texto → Texto → Texto → Texto → S → S × List (Texto × List ℕ)

pub record Hub (S : Type 0) : Type 0 where
  pub salas : Mapa (List Texto)
  pub peers : Mapa Peer
  pub limite_por_sala : ℕ
  pub ping_sujas : List Texto
  pub sfu : Option S
  pub total_conexoes : ℕ
  pub total_repassadas : ℕ

module _ {S : Type 0} where
  unfoldable pub novo_hub : ℕ → Option S → Hub S
  novo_hub limite sfu = record {
    salas = [];
    peers = [];
    limite_por_sala = limite;
    ping_sujas = [];
    sfu = sfu;
    total_conexoes = 0;
    total_repassadas = 0;
  }

  -- The id is the fresh UUID.
  unfoldable pub novo_peer : Texto → Conn → Hub S → Hub S
  novo_peer id c h = record h {
    peers =
        insert id (record { id = id; conexao = c; nome = []; sala = []; ping_ms = pos 0 }) h.peers;
    total_conexoes = h.total_conexoes + 1;
  }

  -- A write through the pointer `id`.
  unfoldable pub mudar_peer : Texto → (Peer → Peer) → Hub S → Hub S
  mudar_peer id f h = elim (lookup id h.peers) [
    | none ↦ h
    | some p ↦ record h { peers = insert id (f p) h.peers }
  ]

  -- Peer.Sala, of the peer at `id`.
  unfoldable pub sala_de : Texto → Hub S → Texto
  sala_de id h = elim (lookup id h.peers) [ none ↦ [] | some p ↦ p.sala ]

  -- The pointer `id` is live.
  unfoldable pub tem_peer : Texto → Hub S → Bool
  tem_peer id h = elim (lookup id h.peers) [ none ↦ false | some p ↦ true ]

  -- Reading a missing key of the map gives nil, which has no members.
  unfoldable pub membros_de : Texto → Hub S → List Texto
  membros_de sala h = elim (lookup sala h.salas) [ none ↦ [] | some ms ↦ ms ]

  -- Peer.enviar: an error is only logged.
  unfoldable pub enviar : List ℕ → Texto → Hub S → Hub S
  unfolding mudar_peer
  enviar dados id h = mudar_peer id (λ p. record p { conexao = (enviar_texto dados p.conexao).0 }) h

  -- `for _, outro := range … { outro.enviar(pacote) }`.
  unfoldable pub enviar_a_todos : List ℕ → List Texto → Hub S → Hub S
  enviar_a_todos dados [] h = h
  enviar_a_todos dados (id ∷ ids) h = enviar_a_todos dados ids (enviar dados id h)

  -- Several messages to one peer, in order.
  unfoldable pub enviar_todas : List (List ℕ) → Texto → Hub S → Hub S
  enviar_todas [] id h = h
  enviar_todas (d ∷ ds) id h = enviar_todas ds id (enviar d id h)

-- Membership, insertion and deletion of a key.
unfoldable pub contem : Texto → List Texto → Bool
contem a [] = false
contem a (x ∷ xs) = if eq_texto x a then true else contem a xs

unfoldable pub incluir : Texto → List Texto → List Texto
unfolding contem
incluir a xs = if contem a xs then xs else xs ++ (a ∷ [])

unfoldable pub remover : Texto → List Texto → List Texto
remover a [] = []
remover a (x ∷ xs) = let resto = remover a xs in if eq_texto x a then resto else x ∷ resto

module _ {S : Type 0} where
  unfoldable pub marcar_pings : Texto → Hub S → Hub S
  unfolding incluir
  marcar_pings sala h = record h { ping_sujas = incluir sala h.ping_sujas }
