-- ===== src/Sfu.antt =====
-- src/sfu.go: the sessions of the participants with the server, and the tracks that it sends on.
-- A critical section and what hangs on it is one step. A session is reached through its room's map:
-- one that was taken out is closed, and each operation on a closed session returns at once. Pion's
-- connections are a type `C` with the operations that the code calls, `Pion`. The message that an
-- operation sends a participant comes back with the participant's id, oldest first. Milliseconds of
-- the clock are an argument. Copying the packets of a track is Pion's, its end is `remover_faixa`.
pub mod Mensagens
pub mod Sessoes
pub mod Faixas
pub mod Salas
pub mod Chaves
pub mod Ocorrencias
pub mod Stun
pub mod Encaminhamento
pub mod Chamada
mod Exemplos
use greenlabs_server.Comum.{ℕ, Bool, true, false, Option, none, some, List, [], ◌∷◌}
use greenlabs_server.Comum.Texto.{Texto}
use greenlabs_server.Comum.Inteiro.{ℤ}
use greenlabs_server.Comum.Mapa.{Mapa, lookup}

-- webrtc.ICECandidateInit.
pub record Candidato : Type 0 where
  pub candidato : Texto
  pub mid : Option Texto
  pub indice : Option ℕ

-- What is read of a webrtc.TrackRemote.
pub record Origem : Type 0 where
  pub id : Texto
  pub fluxo : Texto
  pub video : Bool
  pub ssrc : ℕ

-- `numero` is the pointer, `id` and `fluxo` are those of the copy that goes out.
pub record Faixa : Type 0 where
  pub numero : ℕ
  pub sala : Texto
  pub dono : Texto
  pub origem : Origem
  pub id : Texto
  pub fluxo : Texto
  pub ultima_chave : Option ℕ
  pub repetindo_chave : Bool

-- The packets of RTCP that the server writes.
pub data Rtcp : Type 0 where
  pli : ℕ → Rtcp
  remb : ℤ → ℕ → Rtcp

-- A Boolean result is true for no error. `nova` is NewPeerConnection with its two transceivers,
-- `ofertar` is CreateOffer with SetLocalDescription, `responder` is CreateAnswer with it, and both
-- give the local description; `copiar` is NewTrackLocalStaticRTP; `descrever` is SetRemoteDescription, of an answer or of an offer;
-- `tirar` is RemoveTrack of the sender of a copy, and whether there is such a sender.
pub record Pion (C : Type 0) : Type 0 where
  pub nova : Option C
  pub estavel : C → Bool
  pub tem_remota : C → Bool
  pub ofertar : C → C × Option Texto
  pub responder : C → C × Option Texto
  pub descrever : Bool → Texto → C → C × Bool
  pub acrescentar : Candidato → C → C
  pub copiar : Faixa → Bool
  pub enviar_faixa : Faixa → C → C × Bool
  pub tirar : Faixa → C → C × Bool
  pub escrever : Rtcp → C → C
  pub fechar : C → C

pub record Sessao (C : Type 0) : Type 0 where
  pub peer : Texto
  pub conexao : C
  pub saidas : List Texto
  pub fechada : Bool
  pub candidatos_pendentes : List Candidato
  pub renegociar_depois : Bool
  pub oferecendo : Bool

pub record Sfu (C : Type 0) : Type 0 where
  pub salas : Mapa (Mapa (Sessao C))
  pub faixas : Mapa (List Faixa)
  pub proximo_numero : ℕ

module _ {C : Type 0} where
  unfoldable pub novo_sfu : Sfu C
  novo_sfu = record { salas = []; faixas = []; proximo_numero = 0 }

  -- Reading a missing key of a map gives nil.
  unfoldable pub sessoes_de : Texto → Sfu C → Mapa (Sessao C)
  sessoes_de sala s = elim (lookup sala s.salas) [ none ↦ [] | some m ↦ m ]

  unfoldable pub sessao_de : Texto → Texto → Sfu C → Option (Sessao C)
  unfolding sessoes_de
  sessao_de sala peer s = lookup peer (sessoes_de sala s)

  unfoldable pub faixas_de : Texto → Sfu C → List Faixa
  faixas_de sala s = elim (lookup sala s.faixas) [ none ↦ [] | some fs ↦ fs ]
