-- ===== src/Hub/Avisos/Salas.antt =====
-- src/hub.go, Sair and entrar: what the participants of the rooms are told.
use greenlabs_server.Comum.{
  ℕ, ◌≡◌, refl, ap, ◌∙◌, subst, Bool, true, false, Option, none, some, List, [], ◌∷◌, ◌++◌, map,
  if◌then◌else◌, if_cases, length,
}
use greenlabs_server.Comum.Texto.{Texto, eq_texto, vazio}
use greenlabs_server.Comum.Mapa.{lookup, insert, erase}
use greenlabs_server.Hub.Formato.{com_campo_from}
use greenlabs_server.Hub.{
  id_do_sfu, Peer, Hub, Retransmissor, mudar_peer, sala_de, membros_de, enviar, enviar_a_todos,
  enviar_todas, remover, incluir, marcar_pings,
}
use greenlabs_server.Hub.Operacoes.{
  msg_left, msg_joined, msg_peer_joined, peers_de, sair_do_sfu, sair_da_sala, sair, entrar_no_sfu,
  admitir, entrar,
}
use greenlabs_server.Hub.Avisos.{
  Avisos, a_cada, todas_a, com_avisos, no_peer, Avisou, Avisou-nada, Avisou-append, Avisou-peers,
  enviar-Avisou, enviar_a_todos-Avisou, se_ativo, marcar_pings-peers, peers_de-peers,
  mudar_peer-no_peer,
}

module _ {S : Type 0} (sfu : Retransmissor S) where
  sair_do_sfu-peers : (sala id : Texto) (h : Hub S) → (sair_do_sfu sfu sala id h).peers ≡ h.peers
  unfolding sair_do_sfu
  sair_do_sfu-peers sala id h = caso h.sfu
    where
      Mesmos : Hub S → Type 0
      Mesmos h' = h'.peers ≡ h.peers

      caso :
          (o : Option S)
          → Mesmos (elim o [ none ↦ h | some s ↦ record h { sfu = some (sfu.sair sala id s) } ])
      caso none = refl
      caso (some s) = refl

  entrar_no_sfu-peers :
      (sala id : Texto) (h : Hub S) → (entrar_no_sfu sfu sala id h).0.peers ≡ h.peers
  unfolding entrar_no_sfu
  entrar_no_sfu-peers sala id h = caso h.sfu
    where
      Mesmos : Hub S × List (List ℕ) × Bool → Type 0
      Mesmos r = r.0.peers ≡ h.peers

      caso :
          (o : Option S)
          → Mesmos (elim o [
            | none ↦ (h, [], false)
            | some s ↦
                (let (s', enviadas, deu_certo) = sfu.entrar sala id s in
                  (
                    record h { sfu = some s' },
                    map (λ b. com_campo_from b id_do_sfu) enviadas,
                    deu_certo,
                  ))
          ])
      caso none = refl
      caso (some s) = refl

  sair_da_sala-Avisou :
      (sala id : Texto) (membros : List Texto) (h : Hub S)
      → Avisou (a_cada (msg_left id) (remover id membros)) h (sair_da_sala sfu sala id membros h)
  unfolding sair_da_sala
  sair_da_sala-Avisou sala id membros h =
      let restantes = remover id membros in
      let h1 = record h {
        salas = if vazio restantes then erase sala h.salas else insert sala restantes h.salas;
      } in
      let h2 = sair_do_sfu sfu sala id h1 in
      let h3 = enviar_a_todos (msg_left id) restantes h2 in
      let avisou = enviar_a_todos-Avisou (msg_left id) restantes h2 in
      if_cases (Avisou (a_cada (msg_left id) restantes) h) (vazio restantes)
        (λ _.
          Avisou-peers (a_cada (msg_left id) restantes) h h2 h3 h3 (sair_do_sfu-peers sala id h1)
            avisou refl)
        (λ _.
          Avisou-peers (a_cada (msg_left id) restantes) h h2 h3 (marcar_pings sala h3)
            (sair_do_sfu-peers sala id h1) avisou (marcar_pings-peers sala h3))

  -- Those that stay behind in the room of `id`.
  abbrev pub restantes_de : Texto → Hub S → List Texto
  restantes_de id h = if vazio (sala_de id h) then [] else remover id (membros_de (sala_de id h) h)

  pub sair-Avisou :
      (id : Texto) (h : Hub S)
      → Avisou
          (a_cada (msg_left id) (restantes_de id h))
          (mudar_peer id (λ p. record p { sala = [] }) h)
          (sair sfu id h)
  unfolding sair membros_de remover
  sair-Avisou id h = caso (vazio sala)
    where
      sala : Texto
      sala = sala_de id h

      solto : Hub S
      solto = mudar_peer id (λ p. record p { sala = [] }) h

      dentro :
          (o : Option (List Texto))
          → Avisou
              (a_cada (msg_left id) (remover id (elim o [ none ↦ [] | some ms ↦ ms ])))
              solto
              (elim o [ none ↦ solto | some membros ↦ sair_da_sala sfu sala id membros solto ])
      dentro none = Avisou-nada solto solto refl
      dentro (some membros) = sair_da_sala-Avisou sala id membros solto

      caso :
          (b : Bool)
          → Avisou (a_cada (msg_left id) (if b then [] else remover id (membros_de sala h))) solto (
              if b then solto else elim (lookup sala h.salas) [
                | none ↦ solto
                | some membros ↦ sair_da_sala sfu sala id membros solto
              ])
      caso true = Avisou-nada solto solto refl
      caso false = dentro (lookup sala h.salas)

  -- What admitir queues: `joined` to the participant, what the SFU sent meanwhile, and `peer-joined`
  -- to those that were there.
  abbrev pub avisos_da_chegada : Texto → Texto → Texto → List Texto → Hub S → Avisos
  avisos_da_chegada id sala nome ja_estavam h =
      let membros = incluir id ja_estavam in
      let (_, retidas, ativo) =
        entrar_no_sfu sfu sala id (record h { salas = insert sala membros h.salas }) in
      (id, msg_joined id (peers_de ja_estavam h) (length membros) ativo)
      ∷ (todas_a id (if ativo then retidas else [])
          ++ a_cada (msg_peer_joined id nome (length membros)) ja_estavam)

  pub admitir-Avisou :
      (id sala nome : Texto) (ja_estavam : List Texto) (h : Hub S)
      → Avisou
          (avisos_da_chegada id sala nome ja_estavam h)
          h
          (admitir sfu id sala nome ja_estavam h)
  unfolding admitir
  admitir-Avisou id sala nome ja_estavam h =
      let membros = incluir id ja_estavam in
      let h0 = record h { salas = insert sala membros h.salas } in
      let (h1, retidas, ativo) = entrar_no_sfu sfu sala id h0 in
      let mesmos : h1.peers ≡ h.peers = entrar_no_sfu-peers sala id h0 in
      let joined = msg_joined id (peers_de ja_estavam h1) (length membros) ativo in
      let h2 = enviar joined id h1 in
      let h3 = if ativo then enviar_todas retidas id h2 else h2 in
      let chegou = msg_peer_joined id nome (length membros) in
      let h4 = enviar_a_todos chegou ja_estavam h3 in
      let depois = todas_a id (if ativo then retidas else []) ++ a_cada chegou ja_estavam in
      subst
        (λ (ps : List Peer).
          Avisou ((id, msg_joined id ps (length membros) ativo) ∷ depois) h (marcar_pings sala h4))
        (peers_de-peers ja_estavam h h1 mesmos)
        (Avisou-peers ((id, joined) ∷ depois) h h1 h4 (marcar_pings sala h4) mesmos
          (Avisou-append ((id, joined) ∷ []) depois h1 h2 h4 (enviar-Avisou joined id h1) (
            Avisou-append (todas_a id (if ativo then retidas else [])) (a_cada chegou ja_estavam) h2
              h3 h4 (se_ativo ativo retidas id h2) (enviar_a_todos-Avisou chegou ja_estavam h3)))
          (marcar_pings-peers sala h4))

-- A participant in a room under a name.
abbrev pub em_sala : Texto → Texto → Peer → Peer
em_sala sala nome p = record p { sala = sala; nome = nome }

no_peer_depois :
    (f g : Peer → Peer) (o : Option Peer) → no_peer f (no_peer g o) ≡ no_peer (λ p. f (g p)) o
no_peer_depois f g none = refl
no_peer_depois f g (some p) = refl

module _ {S : Type 0} (sfu : Retransmissor S) where
  -- Sair: the participant's room is the empty name behind it, each of those that stay in its room gets
  -- one `peer-left` with its id, and nothing else happens to anyone.
  pub sair_avisos :
      (id : Texto) (h : Hub S) (x : Texto)
      → lookup x (sair sfu id h).peers
        ≡ no_peer
            (λ p.
              com_avisos x
                (a_cada (msg_left id) (restantes_de sfu id h))
                (if eq_texto id x then record p { sala = [] } else p))
            (lookup x h.peers)
  sair_avisos id h x =
      let saida = com_avisos x (a_cada (msg_left id) (restantes_de sfu id h)) in
      let solta : Peer → Peer = λ p. record p { sala = [] } in
      sair-Avisou sfu id h x
      ∙ ap (no_peer saida) (mudar_peer-no_peer id solta h x)
      ∙ no_peer_depois saida (λ p. if eq_texto id x then solta p else p) (lookup x h.peers)
