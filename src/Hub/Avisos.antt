-- ===== src/Hub/Avisos.antt =====
-- src/hub.go, entrar and Sair: the messages that the others get, and those of the participant itself.
pub mod Salas
mod Exemplos
use greenlabs_server.Comum.{
  ℕ, ◌≡◌, refl, sym, ap, ◌∙◌, subst, Bool, true, false, Option, none, some, List, [], ◌∷◌, ◌++◌,
  map, if◌then◌else◌, arith, if_cases, Bool-cases, Option-cases, inl, inr, length,
}
use greenlabs_server.Comum.Texto.{Texto, eq_texto, eq_texto_iff, vazio}
use greenlabs_server.Comum.Mapa.{lookup, insert, erase, lookup-insert}
use greenlabs_server.Websocket.{enviar_texto}
use greenlabs_server.Hub.Formato.{com_campo_from}
use greenlabs_server.Hub.{
  id_do_sfu, Peer, Hub, MensagemEntrada, Retransmissor, mudar_peer, sala_de, membros_de, enviar,
  enviar_a_todos, enviar_todas, remover, incluir, marcar_pings,
}
use greenlabs_server.Hub.Entrega.{recebeu}
use greenlabs_server.Hub.Operacoes.{
  msg_left, msg_joined, msg_peer_joined, peers_de, sair_do_sfu, sair_da_sala, sair, entrar_no_sfu,
  admitir,
}

-- Messages in the order in which they are queued, each with the one that it goes to.
abbrev pub Avisos : Type 0
Avisos = List (Texto × List ℕ)

abbrev pub a_cada : List ℕ → List Texto → Avisos
a_cada d [] = []
a_cada d (x ∷ xs) = (x, d) ∷ a_cada d xs

abbrev pub todas_a : Texto → List (List ℕ) → Avisos
todas_a x [] = []
todas_a x (d ∷ ds) = (x, d) ∷ todas_a x ds

-- A participant behind those of the messages that are its own.
abbrev pub com_avisos : Texto → Avisos → Peer → Peer
com_avisos x [] p = p
com_avisos x ((y, d) ∷ ms) p = com_avisos x ms (if eq_texto y x then recebeu d p else p)

abbrev pub no_peer : (Peer → Peer) → Option Peer → Option Peer
no_peer f none = none
no_peer f (some p) = some (f p)

no_peer-igual : (o : Option Peer) → no_peer (λ p. p) o ≡ o
no_peer-igual none = refl
no_peer-igual (some p) = refl

pub com_avisos-append :
    (x : Texto) (ms ns : Avisos) (p : Peer)
    → com_avisos x (ms ++ ns) p ≡ com_avisos x ns (com_avisos x ms p)
com_avisos-append x [] ns p = refl
com_avisos-append x ((y, d) ∷ ms) ns p =
    com_avisos-append x ms ns (if eq_texto y x then recebeu d p else p)

no_peer-append :
    (x : Texto) (ms ns : Avisos) (o : Option Peer)
    → no_peer (com_avisos x ns) (no_peer (com_avisos x ms) o) ≡ no_peer (com_avisos x (ms ++ ns)) o
no_peer-append x ms ns none = refl
no_peer-append x ms ns (some p) = ap some (sym (com_avisos-append x ms ns p))

module _ {S : Type 0} where
  -- The messages were queued, each for the one that it goes to, and nothing else happened to anyone.
  abbrev pub Avisou : Avisos → Hub S → Hub S → Type 0
  Avisou ms h h' = (x : Texto) → lookup x h'.peers ≡ no_peer (com_avisos x ms) (lookup x h.peers)

  pub mudar_peer-no_peer :
      (id : Texto) (f : Peer → Peer) (h : Hub S) (x : Texto)
      → lookup x (mudar_peer id f h).peers
        ≡ no_peer (λ p. if eq_texto id x then f p else p) (lookup x h.peers)
  unfolding mudar_peer
  mudar_peer-no_peer id f h x = elim (Option-cases (lookup id h.peers)) [
    | inl e ↦ elim (Bool-cases (eq_texto id x)) [
      | inl t ↦
          let k : lookup x h.peers ≡ none =
            ap (λ (y : Texto). lookup y h.peers) (sym ((eq_texto_iff id x).0 t)) ∙ e in
          ground (arith, k)
      | inr t ↦ ground arith
    ]
    | inr (p, e) ↦ elim (Bool-cases (eq_texto id x)) [
      | inl t ↦
          let k : lookup x h.peers ≡ some p =
            ap (λ (y : Texto). lookup y h.peers) (sym ((eq_texto_iff id x).0 t)) ∙ e in
          ground (arith, k, lookup-insert id x (f p) h.peers)
      | inr t ↦ ground (arith, lookup-insert id x (f p) h.peers)
    ]
  ]

  pub Avisou-nada : (h h' : Hub S) → h'.peers ≡ h.peers → Avisou [] h h'
  Avisou-nada h h' e x = ap (lookup x) e ∙ sym (no_peer-igual (lookup x h.peers))

  pub Avisou-append :
      (ms ns : Avisos) (h h1 h2 : Hub S) → Avisou ms h h1 → Avisou ns h1 h2 → Avisou (ms ++ ns) h h2
  Avisou-append ms ns h h1 h2 a b x =
      b x ∙ ap (no_peer (com_avisos x ns)) (a x) ∙ no_peer-append x ms ns (lookup x h.peers)

  pub enviar-Avisou :
      (d : List ℕ) (id : Texto) (h : Hub S) → Avisou ((id, d) ∷ []) h (enviar d id h)
  unfolding enviar
  enviar-Avisou d id h x = mudar_peer-no_peer id (recebeu d) h x

  pub enviar_a_todos-Avisou :
      (d : List ℕ) (ids : List Texto) (h : Hub S) → Avisou (a_cada d ids) h (enviar_a_todos d ids h)
  unfolding enviar_a_todos
  enviar_a_todos-Avisou d [] h = Avisou-nada h h refl
  enviar_a_todos-Avisou d (id ∷ ids) h =
      Avisou-append ((id, d) ∷ []) (a_cada d ids) h (enviar d id h)
        (enviar_a_todos d ids (enviar d id h)) (enviar-Avisou d id h)
        (enviar_a_todos-Avisou d ids (enviar d id h))

  pub enviar_todas-Avisou :
      (ds : List (List ℕ)) (id : Texto) (h : Hub S)
      → Avisou (todas_a id ds) h (enviar_todas ds id h)
  unfolding enviar_todas
  enviar_todas-Avisou [] id h = Avisou-nada h h refl
  enviar_todas-Avisou (d ∷ ds) id h =
      Avisou-append ((id, d) ∷ []) (todas_a id ds) h (enviar d id h)
        (enviar_todas ds id (enviar d id h)) (enviar-Avisou d id h)
        (enviar_todas-Avisou ds id (enviar d id h))

  pub se_ativo :
      (b : Bool) (ds : List (List ℕ)) (id : Texto) (h : Hub S)
      → Avisou (todas_a id (if b then ds else [])) h (if b then enviar_todas ds id h else h)
  se_ativo true ds id h = enviar_todas-Avisou ds id h
  se_ativo false ds id h = Avisou-nada h h refl

  pub marcar_pings-peers : (sala : Texto) (h : Hub S) → (marcar_pings sala h).peers ≡ h.peers
  unfolding marcar_pings
  marcar_pings-peers sala h = refl

  pub peers_de-peers :
      (ids : List Texto) (h h' : Hub S) → h'.peers ≡ h.peers → peers_de ids h' ≡ peers_de ids h
  unfolding peers_de
  peers_de-peers [] h h' e = refl
  peers_de-peers (id ∷ ids) h h' e =
      ap
        (λ (o : Option Peer). elim o as (λ _. List Peer) [
          | none ↦ peers_de ids h'
          | some p ↦ p ∷ peers_de ids h'
        ])
        (ap (lookup id) e)
      ∙ ap
          (λ (ps : List Peer). elim (lookup id h.peers) as (λ _. List Peer) [
            | none ↦ ps
            | some p ↦ p ∷ ps
          ])
          (peers_de-peers ids h h' e)

  -- Hubs that have the same participants do as well.
  pub Avisou-peers :
      (ms : Avisos) (h h1 h2 h3 : Hub S)
      → h1.peers ≡ h.peers
      → Avisou ms h1 h2
      → h3.peers ≡ h2.peers
      → Avisou ms h h3
  Avisou-peers ms h h1 h2 h3 a m b x =
      ap (lookup x) b ∙ m x ∙ ap (λ o. no_peer (com_avisos x ms) o) (ap (lookup x) a)
