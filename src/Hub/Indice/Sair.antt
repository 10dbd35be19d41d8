-- ===== src/Hub/Indice/Sair.antt =====
-- src/hub.go, Sair: the participant is nowhere, and the others are where they were.
use greenlabs_server.Comum.{
  ◌≡◌, ◌≢◌, refl, sym, ap, ◌∙◌, true, false, Option, none, some, List, [], ◌∷◌, if◌then◌else◌,
  arith, Bool-cases, if_cases, inl, inr,
}
use greenlabs_server.Comum.Texto.{Texto, eq_texto, eq_texto_iff, vazio}
use greenlabs_server.Comum.Mapa.{Mapa, lookup, insert, erase, lookup-insert, lookup-erase}
use greenlabs_server.Hub.{
  Peer, Hub, Retransmissor, mudar_peer, sala_de, tem_peer, membros_de, enviar_a_todos, contem,
  remover,
}
use greenlabs_server.Hub.Operacoes.{msg_left, sair_do_sfu, sair_da_sala, sair}
use greenlabs_server.Hub.Indice.{IsIndice}
use greenlabs_server.Hub.Indice.Conjunto.{contem-remover, length-remover-le, remover-Unicos}
use greenlabs_server.Hub.Indice.Moldura.{
  Mesma, tem_peer-mudar_peer, Mesma-trans, sala_de-mudar_peer, salas-mudar_peer,
  enviar_a_todos-Mesma, marcar_pings-Mesma, membros_de-Mesma, membros_de-insert, membros_de-erase,
  membros_de-some, membros_de-none,
}

module _ {S : Type 0} where
  -- `id` left its room, if it was in one.
  abbrev pub Saiu : Texto → Hub S → Hub S → Type 0
  Saiu id h h' =
      ((x : Texto) → sala_de x h' ≡ (if eq_texto id x then [] else sala_de x h))
      × ((s : Texto)
          → membros_de s h'
            ≡ (if eq_texto (sala_de id h) s then remover id (membros_de s h) else membros_de s h))
      × ((s : Texto) → lookup s h'.salas ≢ some [])
      × (h'.limite_por_sala ≡ h.limite_por_sala)
      × ((x : Texto) → tem_peer x h' ≡ tem_peer x h)

  -- What Saiu shows of a hub it shows of one with the same rooms.
  Saiu-Mesma : (id : Texto) (h h' h'' : Hub S) → Saiu id h h' → Mesma h' h'' → Saiu id h h''
  Saiu-Mesma id h h' h'' (a, b, c, d, t) m = (
    λ x. m.2 x ∙ a x,
    λ s. membros_de-Mesma s h' h'' m ∙ b s,
    λ s e. c s (rw m.0 at e),
    m.1 ∙ d,
    λ x. m.3 x ∙ t x,
  )

  IsIndice-Saiu : (id : Texto) (h h' : Hub S) → IsIndice h → Saiu id h h' → IsIndice h'
  unfolding remover
  IsIndice-Saiu id h h' v (a, b, c, d, _) = record {
    membro = λ x s e. ground (
      arith,
      a x,
      b s,
      e,
      v.membro x s,
      contem-remover id x (membros_de s h),
      eq_texto_iff id x,
      eq_texto_iff (sala_de id h) s,
    );
    presente = λ x n.
        let q : eq_texto id x ≡ false = ground (arith, a x, n) in
        let e : sala_de x h' ≡ sala_de x h = a x ∙ rw q in
        let k : contem x (membros_de (sala_de x h) h) ≡ true = v.presente x (λ z. n (e ∙ z)) in
        rw (e, b (sala_de x h))
          (if_cases (λ (ms : List Texto). contem x ms ≡ true)
            (eq_texto (sala_de id h) (sala_de x h))
            (λ _. contem-remover id x (membros_de (sala_de x h) h) ∙ rw q k) (λ _. k));
    sem_nome = ground (arith, b [], v.sem_nome);
    ocupada = c;
    unicos = λ s. ground (arith, b s, v.unicos s, remover-Unicos id (membros_de s h));
    limite = λ s. ground (arith, b s, d, v.limite s, length-remover-le id (membros_de s h));
  }

  -- The hub with the participant's own room cleared.
  abbrev pub solto_de : Texto → Hub S → Hub S
  solto_de id h = mudar_peer id (λ p. record p { sala = [] }) h

  sala_de-solto :
      (id x : Texto) (h : Hub S)
      → sala_de x (solto_de id h) ≡ (if eq_texto id x then [] else sala_de x h)
  sala_de-solto id x h =
      sala_de-mudar_peer id x (λ p. record p { sala = [] }) h ∙ nada (lookup id h.peers)
    where
      nada :
          (o : Option Peer)
          → (if eq_texto id x then elim o [ none ↦ [] | some p ↦ [] ] else sala_de x h)
            ≡ (if eq_texto id x then [] else sala_de x h)
      nada none = refl
      nada (some p) = refl

  salas-solto :
      (id : Texto) (h : Hub S)
      → ((solto_de id h).salas ≡ h.salas) × ((solto_de id h).limite_por_sala ≡ h.limite_por_sala)
  salas-solto id h = salas-mudar_peer id (λ p. record p { sala = [] }) h

  membros_de-solto : (id s : Texto) (h : Hub S) → membros_de s (solto_de id h) ≡ membros_de s h
  unfolding membros_de
  membros_de-solto id s h = rw (salas-solto id h).0

  -- The hub right after the room's map was written.
  abbrev pub cortado : Texto → Texto → List Texto → Hub S → Hub S
  cortado sala id membros h = record h {
    salas =
        if vazio (remover id membros)
        then erase sala h.salas
        else insert sala (remover id membros) h.salas;
  }

  membros_de-cortado :
      (k id s : Texto) (ms : List Texto) (h : Hub S)
      → membros_de s (cortado k id ms h) ≡ (if eq_texto k s then remover id ms else membros_de s h)
  membros_de-cortado k id s ms h = caso (remover id ms)
    where
      caso :
          (r : List Texto)
          → membros_de s
              (record h { salas = if vazio r then erase k h.salas else insert k r h.salas })
            ≡ (if eq_texto k s then r else membros_de s h)
      caso [] = membros_de-erase k s h
      caso (x ∷ xs) = membros_de-insert k s (x ∷ xs) h

  ocupada_cortado :
      (k id s : Texto) (ms : List Texto) (h : Hub S)
      → lookup s h.salas ≢ some []
      → lookup s (cortado k id ms h).salas ≢ some []
  ocupada_cortado k id s ms h v = caso (remover id ms)
    where
      caso :
          (r : List Texto)
          → lookup s (if vazio r then erase k h.salas else insert k r h.salas) ≢ some []
      caso [] = ground (arith, lookup-erase k s h.salas)
      caso (x ∷ xs) = ground (arith, lookup-insert k s (x ∷ xs) h.salas)

module _ {S : Type 0} (sfu : Retransmissor S) where
  pub sair_do_sfu-Mesma : (sala id : Texto) (h : Hub S) → Mesma h (sair_do_sfu sfu sala id h)
  unfolding sair_do_sfu sala_de tem_peer
  sair_do_sfu-Mesma sala id h = troca h.sfu
    where
      troca :
          (o : Option S)
          → Mesma h (elim o [ none ↦ h | some s ↦ record h { sfu = some (sfu.sair sala id s) } ])
      troca none = (refl, refl, λ x. refl, λ x. refl)
      troca (some s) = (refl, refl, λ x. refl, λ x. refl)

  sair_da_sala-Mesma :
      (sala id : Texto) (membros : List Texto) (h : Hub S)
      → Mesma (cortado sala id membros h) (sair_da_sala sfu sala id membros h)
  unfolding sair_da_sala
  sair_da_sala-Mesma sala id membros h =
      let h1 = cortado sala id membros h in
      let h2 = sair_do_sfu sfu sala id h1 in
      let m1 = sair_do_sfu-Mesma sala id h1 in
      let h3 = enviar_a_todos (msg_left id) (remover id membros) h2 in
      let m =
        Mesma-trans h1 h2 h3 m1 (enviar_a_todos-Mesma (msg_left id) (remover id membros) h2) in
      if_cases (Mesma h1) (vazio (remover id membros)) (λ _. m)
        (λ _. Mesma-trans h1 h3 _ m (marcar_pings-Mesma sala h3))

  cortado-Saiu :
      (id : Texto) (membros : List Texto) (h : Hub S)
      → IsIndice h
      → lookup (sala_de id h) h.salas ≡ some membros
      → Saiu id h (cortado (sala_de id h) id membros (solto_de id h))
  cortado-Saiu id membros h v e = (
    λ x. unfold sala_de in sala_de-solto id x h,
    λ s.
        membros_de-cortado (sala_de id h) id s membros (solto_de id h)
        ∙ rw membros_de-solto (juntos s),
    λ s. ocupada_cortado (sala_de id h) id s membros (solto_de id h) (λ g.
        v.ocupada s (ap (λ (m : Mapa (List Texto)). lookup s m) (sym (salas-solto id h).0) ∙ g)),
    (salas-solto id h).1,
    λ x. unfold tem_peer in tem_peer-mudar_peer id x (λ p. record p { sala = [] }) h,
  )
    where
      achada : membros_de (sala_de id h) h ≡ membros
      achada = membros_de-some (sala_de id h) membros h e

      juntos :
          (s : Texto)
          → (if eq_texto (sala_de id h) s then remover id membros else membros_de s h)
            ≡ (if eq_texto (sala_de id h) s then remover id (membros_de s h) else membros_de s h)
      juntos s = elim (Bool-cases (eq_texto (sala_de id h) s)) [
        | inl t ↦ rw (t, ← (eq_texto_iff (sala_de id h) s).0 t, achada)
        | inr t ↦ rw t
      ]

  solto-Saiu :
      (id : Texto) (h : Hub S)
      → IsIndice h
      → membros_de (sala_de id h) h ≡ []
      → Saiu id h (solto_de id h)
  solto-Saiu id h v e = (
    λ x. sala_de-solto id x h,
    λ s. membros_de-solto id s h ∙ nada s,
    λ s g. v.ocupada s (ap (λ (m : Mapa (List Texto)). lookup s m) (sym (salas-solto id h).0) ∙ g),
    (salas-solto id h).1,
    λ x. tem_peer-mudar_peer id x (λ p. record p { sala = [] }) h,
  )
    where
      nada :
          (s : Texto)
          → membros_de s h
            ≡ (if eq_texto (sala_de id h) s then remover id (membros_de s h) else membros_de s h)
      nada s = elim (Bool-cases (eq_texto (sala_de id h) s)) [
        | inl t ↦ rw (t, ← (eq_texto_iff (sala_de id h) s).0 t, e) (unfold remover in refl)
        | inr t ↦ rw t
      ]

  -- Sair, from any consistent hub: the participant's room is empty and it is in no room's map, every
  -- other participant is where it was, no empty room is kept, and the rest of the maps is untouched.
  pub sair-Saiu : (id : Texto) (h : Hub S) → IsIndice h → Saiu id h (sair sfu id h)
  unfolding sair
  sair-Saiu id h v = if_cases (Saiu id h) (vazio (sala_de id h)) fora dentro
    where
      fora : vazio (sala_de id h) ≡ true → Saiu id h (solto_de id h)
      fora t = solto-Saiu id h v (sem_nome (sala_de id h) t)
        where
          sem_nome : (s : Texto) → vazio s ≡ true → membros_de s h ≡ []
          sem_nome [] _ = v.sem_nome
          sem_nome (c ∷ cs) t = cc

      dentro :
          vazio (sala_de id h) ≡ false
          → Saiu id h (elim (lookup (sala_de id h) h.salas) [
            | none ↦ solto_de id h
            | some membros ↦ sair_da_sala sfu (sala_de id h) id membros (solto_de id h)
          ])
      dentro _ = caso (lookup (sala_de id h) h.salas) refl
        where
          caso :
              (o : Option (List Texto))
              → lookup (sala_de id h) h.salas ≡ o
              → Saiu id h (elim o [
                | none ↦ solto_de id h
                | some membros ↦ sair_da_sala sfu (sala_de id h) id membros (solto_de id h)
              ])
          caso none e = solto-Saiu id h v (membros_de-none (sala_de id h) h e)
          caso (some membros) e =
              Saiu-Mesma id h _ _ (cortado-Saiu id membros h v e)
                (sair_da_sala-Mesma (sala_de id h) id membros (solto_de id h))

  pub sair-IsIndice : (id : Texto) (h : Hub S) → IsIndice h → IsIndice (sair sfu id h)
  sair-IsIndice id h v = IsIndice-Saiu id h (sair sfu id h) v (sair-Saiu id h v)
