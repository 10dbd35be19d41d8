-- ===== src/Hub/Indice/Entrar.antt =====
-- src/hub.go, entrar: the participant ends in the room that it asked for, or in none if it is full.
use greenlabs_server.Comum.{
  ℕ, ◌≡◌, ◌≢◌, refl, sym, ap, ◌∙◌, inl, inr, Bool, true, false, Option, none, some, List, [], ◌∷◌,
  map, if◌then◌else◌, length, leb, arith, Bool-cases, if_cases,
}
use greenlabs_server.Comum.Texto.{Texto, codes, eq_texto, eq_texto_iff, eq_texto_refl}
use greenlabs_server.Comum.Mapa.{Mapa, lookup, insert, lookup-insert}
use greenlabs_server.Websocket.{rejeitar}
use greenlabs_server.Hub.{
  Peer, Hub, MensagemEntrada, Retransmissor, mudar_peer, sala_de, tem_peer, membros_de, enviar,
  enviar_todas, enviar_a_todos, contem, incluir, id_do_sfu,
}
use greenlabs_server.Hub.Formato.{com_campo_from}
use greenlabs_server.Hub.Operacoes.{
  sala_pedida, nome_pedido, peers_de, msg_joined, msg_peer_joined, sair, entrar_no_sfu, recusar,
  admitir, entrar,
}
use greenlabs_server.Hub.Indice.{IsIndice}
use greenlabs_server.Hub.Indice.Moldura.{
  Mesma, Mesma-refl, Mesma-trans, IsIndice-Mesma, sala_de-mudar_peer, tem_peer-mudar_peer,
  salas-mudar_peer, enviar-Mesma, enviar_a_todos-Mesma, enviar_todas-Mesma, marcar_pings-Mesma,
  membros_de-insert,
}
use greenlabs_server.Hub.Indice.Sair.{sair-Saiu, sair-IsIndice}
use greenlabs_server.Hub.Indice.Entrou.{
  sala_pedida-ne, Entrou, Pediu, Entrou-Mesma, IsIndice-Entrou,
}

module _ {S : Type 0} (sfu : Retransmissor S) where
  entrar_no_sfu-Mesma : (sala id : Texto) (h : Hub S) → Mesma h (entrar_no_sfu sfu sala id h).0
  unfolding entrar_no_sfu sala_de tem_peer
  entrar_no_sfu-Mesma sala id h = troca h.sfu
    where
      troca :
          (o : Option S)
          → Mesma h (
              let r : Hub S × List (List ℕ) × Bool = elim o [
                | none ↦ (h, [], false)
                | some s ↦
                    (let (s', enviadas, deu_certo) = sfu.entrar sala id s in
                      (
                        record h { sfu = some s' },
                        map (λ b. com_campo_from b id_do_sfu) enviadas,
                        deu_certo,
                      ))
              ] in
              r.0)
      troca none = (refl, refl, λ x. refl, λ x. refl)
      troca (some s) = (refl, refl, λ x. refl, λ x. refl)

  -- The hub with the new key in the room's map.
  abbrev pub incluido : Texto → Texto → List Texto → Hub S → Hub S
  incluido id sala ms h = record h { salas = insert sala (incluir id ms) h.salas }

  pub admitir-Mesma :
      (id sala nome : Texto) (ms : List Texto) (h : Hub S)
      → Mesma (incluido id sala ms h) (admitir sfu id sala nome ms h)
  unfolding admitir
  admitir-Mesma id sala nome ms h =
      let h0 = incluido id sala ms h in
      let total = length (incluir id ms) in
      let h1 = (entrar_no_sfu sfu sala id h0).0 in
      let retidas = (entrar_no_sfu sfu sala id h0).1 in
      let ativo = (entrar_no_sfu sfu sala id h0).2 in
      let joined = msg_joined id (peers_de ms h1) total ativo in
      let h2 = enviar joined id h1 in
      let h3 = if ativo then enviar_todas retidas id h2 else h2 in
      let aviso = msg_peer_joined id nome total in
      let h4 = enviar_a_todos aviso ms h3 in
      let m1 = entrar_no_sfu-Mesma sala id h0 in
      let m2 = Mesma-trans h0 h1 h2 m1 (enviar-Mesma joined id h1) in
      let m3 : Mesma h2 h3 =
        if_cases (Mesma h2) ativo (λ _. enviar_todas-Mesma retidas id h2) (λ _. Mesma-refl h2) in
      let m4 = Mesma-trans h0 h2 h3 m2 m3 in
      let m5 = Mesma-trans h0 h3 h4 m4 (enviar_a_todos-Mesma aviso ms h3) in
      Mesma-trans h0 h4 _ m5 (marcar_pings-Mesma sala h4)

  -- The participant with its new room and name, out of all rooms' maps.
  abbrev pub nomeado : Texto → Texto → Texto → Hub S → Hub S
  nomeado id sala nome h = mudar_peer id (λ p. record p { sala = sala; nome = nome }) h

  pub sala_de-nomeado :
      (id sala nome x : Texto) (h : Hub S)
      → tem_peer id h ≡ true
      → sala_de x (nomeado id sala nome h) ≡ (if eq_texto id x then sala else sala_de x h)
  unfolding tem_peer
  sala_de-nomeado id sala nome x h t =
      sala_de-mudar_peer id x (λ p. record p { sala = sala; nome = nome }) h
      ∙ caso (lookup id h.peers) t
    where
      caso :
          (o : Option Peer)
          → ◌≡◌ {A = Bool} (elim o [ none ↦ false | some p ↦ true ]) true
          → (if eq_texto id x then elim o [ none ↦ [] | some p ↦ sala ] else sala_de x h)
            ≡ (if eq_texto id x then sala else sala_de x h)
      caso none e = cc
      caso (some p) e = refl

  salas-nomeado :
      (id sala nome : Texto) (h : Hub S)
      → ((nomeado id sala nome h).salas ≡ h.salas)
        × ((nomeado id sala nome h).limite_por_sala ≡ h.limite_por_sala)
  salas-nomeado id sala nome h = salas-mudar_peer id (λ p. record p { sala = sala; nome = nome }) h

  membros_de-nomeado :
      (id sala nome s : Texto) (h : Hub S) → membros_de s (nomeado id sala nome h) ≡ membros_de s h
  unfolding membros_de
  membros_de-nomeado id sala nome s h = rw (salas-nomeado id sala nome h).0

  incluir-ne : (id : Texto) (ms : List Texto) → incluir id ms ≢ []
  unfolding incluir contem
  incluir-ne id [] = λ e. cc
  incluir-ne id (x ∷ xs) =
      if_cases (λ (r : List Texto). r ≢ []) (contem id (x ∷ xs)) (λ _ e. cc) (λ _ e. cc)

  ocupada_incluido :
      (k s : Texto) (r : List Texto) (h : Hub S)
      → r ≢ []
      → lookup s h.salas ≢ some []
      → lookup s (insert k r h.salas) ≢ some []
  ocupada_incluido k s [] h n v = λ e. n refl
  ocupada_incluido k s (x ∷ xs) h n v = ground (arith, lookup-insert k s (x ∷ xs) h.salas)

  incluido-Entrou :
      (id sala nome : Texto) (h : Hub S)
      → IsIndice h
      → tem_peer id h ≡ true
      → Entrou id sala h
          (incluido id sala (membros_de sala (nomeado id sala nome h)) (nomeado id sala nome h))
  incluido-Entrou id sala nome h v t =
      let h1 = nomeado id sala nome h in
      let ms = membros_de sala h1 in
      (
        λ x. unfold sala_de in sala_de-nomeado id sala nome x h t,
        λ s.
            membros_de-insert sala s (incluir id ms) h1
            ∙ rw (membros_de-nomeado id sala nome sala h, membros_de-nomeado id sala nome s h),
        λ s e.
            ocupada_incluido sala s (incluir id ms) h1 (incluir-ne id ms)
              (λ g. v.ocupada s (
                ap (λ (m : Mapa (List Texto)). lookup s m) (sym (salas-nomeado id sala nome h).0)
                ∙ g))
              e,
        (salas-nomeado id sala nome h).1,
        λ x.
            unfold tem_peer in
            tem_peer-mudar_peer id x (λ p. record p { sala = sala; nome = nome }) h,
      )

  -- The room of a participant whose room is cleared, when it was in none before it asked.
  sala_de-recusado :
      (id sala nome x : Texto) (f : Peer → Peer) (h : Hub S)
      → ((p : Peer) → (f p).sala ≡ [])
      → sala_de id h ≡ []
      → sala_de x (mudar_peer id f (nomeado id sala nome h)) ≡ sala_de x h
  sala_de-recusado id sala nome x f h limpa fora =
      let h1 = nomeado id sala nome h in
      sala_de-mudar_peer id x f h1 ∙ elim (Bool-cases (eq_texto id x)) [
        | inl t ↦ rw (t, ← (eq_texto_iff id x).0 t, fora) (nenhuma (lookup id h1.peers))
        | inr t ↦
            rw (t, sala_de-mudar_peer id x (λ p. record p { sala = sala; nome = nome }) h, t) refl
      ]
    where
      nenhuma : (o : Option Peer) → ◌≡◌ {A = Texto} (elim o [ none ↦ [] | some p ↦ (f p).sala ]) []
      nenhuma none = refl
      nenhuma (some p) = limpa p

  recusar-Mesma :
      (id sala nome : Texto) (h : Hub S)
      → sala_de id h ≡ []
      → Mesma h (recusar sfu id (nomeado id sala nome h))
  unfolding recusar
  recusar-Mesma id sala nome h fora =
      let h1 = nomeado id sala nome h in
      let f : Peer → Peer =
        λ p. record p { sala = []; conexao = rejeitar (codes "Sala cheia") p.conexao } in
      (
        (salas-mudar_peer id f h1).0 ∙ (salas-nomeado id sala nome h).0,
        (salas-mudar_peer id f h1).1 ∙ (salas-nomeado id sala nome h).1,
        λ x. sala_de-recusado id sala nome x f h (λ p. refl) fora,
        λ x.
            tem_peer-mudar_peer id x f h1
            ∙ tem_peer-mudar_peer id x (λ p. record p { sala = sala; nome = nome }) h,
      )

  pedir-Pediu :
      (id sala nome : Texto) (h : Hub S)
      → IsIndice h
      → tem_peer id h ≡ true
      → sala_de id h ≡ []
      → let h1 = nomeado id sala nome h in
        Pediu id sala h (
          if leb h1.limite_por_sala (length (membros_de sala h1))
          then recusar sfu id h1
          else admitir sfu id sala nome (membros_de sala h1) h1)
  pedir-Pediu id sala nome h v t fora =
      let h1 = nomeado id sala nome h in
      let ms = membros_de sala h1 in
      let a = (salas-nomeado id sala nome h).1 in
      let b : ms ≡ membros_de sala h = membros_de-nomeado id sala nome sala h in
      if_cases (Pediu id sala h) (leb h1.limite_por_sala (length ms))
        (λ q.
          inr (ground (arith, a, b, ap (length {A = Texto}) b), recusar-Mesma id sala nome h fora))
        (λ q. inl (
          ground (arith, a, b, ap (length {A = Texto}) b),
          Entrou-Mesma id sala h (incluido id sala ms h1) _ (incluido-Entrou id sala nome h v t)
              (admitir-Mesma id sala nome ms h1),
        ))

  -- entrar, in a hub whose rooms are the inverse of the participants' own, of a live participant:
  -- it first leaves its room as `sair` does; then, if the room that it asked for (the default one
  -- for a blank) has fewer participants than the limit, it is in that room, behind those who were
  -- there, and all others are where they were; and if the room is full, no room changes.
  pub entrar-Pediu :
      (id : Texto) (m : MensagemEntrada) (h : Hub S)
      → IsIndice h
      → tem_peer id h ≡ true
      → Pediu id (sala_pedida m.sala) (sair sfu id h) (entrar sfu id m h)
  unfolding entrar
  entrar-Pediu id m h v t =
      let h0 = sair sfu id h in
      let (a, _, _, _, d) = sair-Saiu sfu id h v in
      pedir-Pediu id (sala_pedida m.sala) (nome_pedido m.nome) h0 (sair-IsIndice sfu id h v)
        (d id ∙ t) (a id ∙ rw (eq_texto_refl id))

  pub entrar-IsIndice :
      (id : Texto) (m : MensagemEntrada) (h : Hub S)
      → IsIndice h
      → tem_peer id h ≡ true
      → IsIndice (entrar sfu id m h)
  entrar-IsIndice id m h v t =
      let h0 = sair sfu id h in
      let w = sair-IsIndice sfu id h v in
      let (a, _, _, _, d) = sair-Saiu sfu id h v in
      elim (entrar-Pediu id m h v t) [
        | inl (cabe, e) ↦
            IsIndice-Entrou id (sala_pedida m.sala) h0 _ w (sala_pedida-ne m.sala)
              (a id ∙ rw (eq_texto_refl id)) cabe e
        | inr (_, e) ↦ IsIndice-Mesma h0 _ e w
      ]
