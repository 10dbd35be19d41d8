-- ===== src/Servidor/Listados.antt =====
-- src/sinalizacao.go, responderSalas: the answer against the rooms of the participants.
use greenlabs_server.Comum.{
  ◌≡◌, ◌≢◌, ◌↔◌, subst, refl, sym, ◌∙◌, true, Option, none, some, List, [], ◌∷◌, map, Bool-cases,
  inl, inr, arith,
}
use greenlabs_server.Comum.Texto.{Texto, eq_texto}
use greenlabs_server.Comum.Mapa.{Mapa, lookup}
use greenlabs_server.Hub.{pos, Hub, Peer, sala_de, membros_de, contem}
use greenlabs_server.Hub.Indice.{IsIndice}
use greenlabs_server.Servidor.Respostas.{
  ParticipanteJson, SalaJson, participante, sala_json, todas_as_salas, responder_salas,
}

-- The ids listed under a room in the answer.
abbrev pub ids_de : List ParticipanteJson → List Texto
ids_de [] = []
ids_de (p ∷ ps) = p.id ∷ ids_de ps

abbrev pub listados : Option SalaJson → List Texto
listados none = []
listados (some r) = ids_de r.participantes

module _ {S : Type 0} where
  ids_de-map : (h : Hub S) (ids : List Texto) → ids_de (map (participante h) ids) ≡ ids
  unfolding participante
  ids_de-map h [] = refl
  ids_de-map h (id ∷ ids) = ground (arith, mesmo (lookup id h.peers), ids_de-map h ids)
    where
      mesmo :
          (o : Option Peer)
          → let r : ParticipanteJson = elim o [
            | none ↦ record { id = id; nome = []; ping_ms = pos 0 }
            | some p ↦ record { id = id; nome = p.nome; ping_ms = p.ping_ms }
          ] in
            r.id ≡ id
      mesmo none = refl
      mesmo (some p) = refl

  lookup-todas_as_salas :
      (h : Hub S) (sala : Texto) (m : Mapa (List Texto))
      → listados (lookup sala (todas_as_salas h m))
        ≡ (elim (lookup sala m) [ none ↦ [] | some ms ↦ ms ])
  unfolding todas_as_salas lookup sala_json
  lookup-todas_as_salas h sala [] = refl
  lookup-todas_as_salas h sala ((k, ms) ∷ m) = elim (Bool-cases (eq_texto k sala)) [
    | inl t ↦ rw t (ids_de-map h ms)
    | inr t ↦ rw t (lookup-todas_as_salas h sala m)
  ]

  listados_lem :
      (h : Hub S) (sala : Texto)
      → listados (lookup sala (responder_salas h).salas) ≡ membros_de sala h
  unfolding responder_salas membros_de
  listados_lem h sala = lookup-todas_as_salas h sala h.salas

  -- /rooms, of a hub whose rooms are the inverse of the participants' own: a participant is listed
  -- under a room exactly if that is its own room and has a name.
  pub responder_salas-sala_de :
      (h : Hub S) (sala id : Texto)
      → IsIndice h
      → (contem id (listados (lookup sala (responder_salas h).salas)) ≡ true)
        ↔ ((sala_de id h ≡ sala) × (sala ≢ []))
  unfolding contem
  responder_salas-sala_de h sala id v = (
    λ k.
        let c : contem id (membros_de sala h) ≡ true = rw (listados_lem h sala) at k in
        (v.membro id sala c, λ z. sem_nome z c),
    λ (e, n). rw (listados_lem h sala) (
        subst (λ (z : Texto). contem id (membros_de z h) ≡ true) e
          (v.presente id (λ z. n (sym e ∙ z)))),
  )
    where
      sem_nome : sala ≡ [] → contem id (membros_de sala h) ≡ true → ⊥
      sem_nome z c = ground (arith, z, c, v.sem_nome)
