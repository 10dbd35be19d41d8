-- ===== src/Sfu/Encaminhamento.antt =====
-- src/sfu.go: who is sent which track, and what of it is told.
pub mod Passos
pub mod Descricoes
pub mod Busca
pub mod Chaves
pub mod Salas
pub mod Execucao
use greenlabs_server.Comum.{
  ℕ, ◌≤◌, ◌≡◌, refl, Bool, true, false, not, ◌&&◌, ◌||◌, Option, none, some, List, [], ◌∷◌, ◌==◌,
  if◌then◌else◌, length,
}
use greenlabs_server.Comum.Texto.{Texto, eq_texto}
use greenlabs_server.Hub.{contem}
use greenlabs_server.Sfu.{Candidato, Faixa, Rtcp, Pion, Sessao, Sfu, sessao_de, faixas_de}
use greenlabs_server.Sfu.Sessoes.{maximo_pendentes}

-- A call leaves a connection behind that failed if it did before, and owes no more than before.
abbrev pub Mantem : {C : Type 0} → (C → Bool) → (C → Bool) → C → C → Type 0
Mantem falhou devendo c c' =
    (falhou c ≡ true → falhou c' ≡ true) × (devendo c ≡ false → devendo c' ≡ false)

-- What is relied on of Pion. `devendo` says that a transceiver was added or taken out that no offer
-- has told of yet (WebRTC's "negotiation needed"). `falhou` says that adding a transceiver or making
-- an offer has failed, as it does on a connection that is closed: any call may fail, and a connection
-- of which one has failed is not counted as sound again.
pub record LeisPion {C : Type 0} (pion : Pion C) : Type 0 where
  pub devendo : C → Bool
  pub falhou : C → Bool
  pub envia :
      (f : Faixa) (c : C)
      → (falhou c || not (pion.enviar_faixa f c).1) ≡ true
      → falhou (pion.enviar_faixa f c).0 ≡ true
  pub oferta_falha : (c : C) → (pion.ofertar c).1 ≡ none → falhou (pion.ofertar c).0 ≡ true
  pub oferta_mantem : (c : C) → falhou c ≡ true → falhou (pion.ofertar c).0 ≡ true
  pub oferta :
      (c : C) (sdp : Texto)
      → pion.estavel c ≡ true
      → (pion.ofertar c).1 ≡ some sdp
      → devendo (pion.ofertar c).0 ≡ false
  pub tira : (f : Faixa) (c : C) → falhou c ≡ true → falhou (pion.tirar f c).0 ≡ true
  pub tira_nada :
      (f : Faixa) (c : C)
      → (pion.tirar f c).1 ≡ false
      → devendo c ≡ false
      → devendo (pion.tirar f c).0 ≡ false
  pub descreve :
      (r : Bool) (sdp : Texto) (c : C) → Mantem falhou devendo c (pion.descrever r sdp c).0
  pub responde : (c : C) → Mantem falhou devendo c (pion.responder c).0
  pub acrescenta : (x : Candidato) (c : C) → Mantem falhou devendo c (pion.acrescentar x c)
  pub escreve : (p : Rtcp) (c : C) → Mantem falhou devendo c (pion.escrever p c)

-- A track of that id is on the air whose publisher is another one.
abbrev pub oferecida : Texto → Texto → List Faixa → Bool
oferecida id peer [] = false
oferecida id peer (f ∷ fs) =
    (eq_texto f.id id && not (eq_texto f.dono peer)) || oferecida id peer fs

pub ainda_sa : {a b : Bool} → (a ≡ true → b ≡ true) → b ≡ false → a ≡ false
ainda_sa {a = true} {b = b} h e = cc (h refl, e)
ainda_sa {a = false} {b = b} h e = refl

module _ {C : Type 0} (pion : Pion C) (leis : LeisPion pion) where
  -- An open session, to which the tracks `fs` are on the air: it is sent none but those of the
  -- others, and as long as no call of its connection has failed all of them, and what no offer has told
  -- of is noted for the next one.
  pub record IsSessao (peer : Texto) (fs : List Faixa) (se : Sessao C) : Type 0 where
    pub aberta : se.fechada ≡ false
    pub livre : se.oferecendo ≡ false
    pub dos_outros : (id : Texto) → contem id se.saidas ≡ true → oferecida id peer fs ≡ true
    pub em_dia :
        leis.falhou se.conexao ≡ false → (id : Texto) → contem id se.saidas ≡ oferecida id peer fs
    pub pendentes : length se.candidatos_pendentes ≤ maximo_pendentes
    pub anunciada :
        leis.falhou se.conexao ≡ false
        → se.renegociar_depois ≡ false
        → leis.devendo se.conexao ≡ false

  -- Another state of the connection.
  pub com_conexao-IsSessao :
      (peer : Texto) (fs : List Faixa) (se : Sessao C) (c : C)
      → Mantem leis.falhou leis.devendo se.conexao c
      → IsSessao peer fs se
      → IsSessao peer fs (record se { conexao = c })
  com_conexao-IsSessao peer fs se c (f, d) v = record {
    aberta = v.aberta;
    livre = v.livre;
    dos_outros = v.dos_outros;
    em_dia = λ k. v.em_dia (ainda_sa f k);
    pendentes = v.pendentes;
    anunciada = λ k e. d (v.anunciada (ainda_sa f k) e);
  }

  abbrev pub IsTalvez : Texto → List Faixa → Option (Sessao C) → Type 0
  IsTalvez peer fs none = Unit {0}
  IsTalvez peer fs (some se) = IsSessao peer fs se

  abbrev pub IsSfu : Sfu C → Type 0
  IsSfu s = (sala peer : Texto) → IsTalvez peer (faixas_de sala s) (sessao_de sala peer s)
