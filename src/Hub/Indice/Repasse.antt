-- ===== src/Hub/Indice/Repasse.antt =====
-- src/hub.go: the handlers that move nobody from one room to another.
use greenlabs_server.Comum.{
  ℕ, ◌+◌, refl, ◌||◌, Option, none, some, List, [], ◌∷◌, if◌then◌else◌, if_cases,
}
use greenlabs_server.Comum.Texto.{Texto, codes, eq_texto, vazio}
use greenlabs_server.Comum.Mapa.{lookup}
use greenlabs_server.Hub.{
  ℤ, Hub, MensagemEntrada, Retransmissor, Json, Reais, mudar_peer, sala_de, tem_peer, membros_de,
  enviar, enviar_a_todos, contem, id_do_sfu,
}
use greenlabs_server.Hub.Formato.{com_campo_from}
use greenlabs_server.Hub.Operacoes.{
  transmitir_pings, transmitir_todas, esvaziar_pings, anotar_rtt, ao_menos_um, responder_ping,
  repassar_ao_par, entregar_do_sfu, entregar_ao_sfu, com_estado, repassar, hora_do_cliente,
  msg_pong, msg_pings, peers_de, para_numero, sdp_de,
}
use greenlabs_server.Hub.Indice.Moldura.{
  Mesma, Mesma-refl, Mesma-trans, mudar_peer-Mesma, enviar-Mesma, enviar_a_todos-Mesma,
  marcar_pings-Mesma,
}

module _ {S : Type 0} where
  transmitir_pings-Mesma : (s : Texto) (h : Hub S) → Mesma h (transmitir_pings s h)
  unfolding transmitir_pings
  transmitir_pings-Mesma s h = caso (lookup s h.salas)
    where
      caso :
          (o : Option (List Texto))
          → Mesma h (elim o [
            | none ↦ h
            | some [] ↦ h
            | some (m ∷ ms) ↦ enviar_a_todos (msg_pings (peers_de (m ∷ ms) h)) (m ∷ ms) h
          ])
      caso none = Mesma-refl h
      caso (some []) = Mesma-refl h
      caso (some (m ∷ ms)) = enviar_a_todos-Mesma (msg_pings (peers_de (m ∷ ms) h)) (m ∷ ms) h

  transmitir_todas-Mesma : (ss : List Texto) (h : Hub S) → Mesma h (transmitir_todas ss h)
  unfolding transmitir_todas
  transmitir_todas-Mesma [] h = Mesma-refl h
  transmitir_todas-Mesma (s ∷ ss) h =
      Mesma-trans h (transmitir_pings s h) _ (transmitir_pings-Mesma s h)
        (transmitir_todas-Mesma ss (transmitir_pings s h))

  pub esvaziar_pings-Mesma : (h : Hub S) → Mesma h (esvaziar_pings h)
  unfolding esvaziar_pings sala_de tem_peer
  esvaziar_pings-Mesma h =
      let h0 = record h { ping_sujas = [] } in
      Mesma-trans h h0 (transmitir_todas h.ping_sujas h0) (refl, refl, λ x. refl, λ x. refl)
        (transmitir_todas-Mesma h.ping_sujas h0)

module _ {S : Type 0} {F : Type 0} (num : Reais F) where
  pub responder_ping-Mesma :
      (agora : ℤ) (id : Texto) (m : MensagemEntrada) (h : Hub S)
      → Mesma h (responder_ping num agora id m h)
  unfolding responder_ping anotar_rtt
  responder_ping-Mesma agora id m h =
      let h0 = anotar_rtt num id m h in
      let pong = msg_pong (hora_do_cliente num agora m) agora in
      let h1 = enviar pong id h0 in
      let m1 = Mesma-trans h h0 h1 (caso (para_numero num m.rtt)) (enviar-Mesma pong id h0) in
      if_cases (Mesma h) (vazio (sala_de id h1)) (λ _. m1)
        (λ _. Mesma-trans h h1 _ m1 (marcar_pings-Mesma (sala_de id h1) h1))
    where
      caso :
          (o : Option F)
          → Mesma h (elim o [
            | none ↦ h
            | some v ↦
                if num.negativo v
                then h
                else mudar_peer id (λ p. record p { ping_ms = ao_menos_um (num.arredondado v) }) h
          ])
      caso none = Mesma-refl h
      caso (some v) =
          if_cases (Mesma h) (num.negativo v) (λ _. Mesma-refl h)
            (λ _.
              mudar_peer-Mesma id (λ p. record p { ping_ms = ao_menos_um (num.arredondado v) }) h
                (λ p. refl))

module _ {S : Type 0} where
  pub repassar_ao_par-Mesma :
      (sala id : Texto) (m : MensagemEntrada) (bruto : List ℕ) (h : Hub S)
      → Mesma h (repassar_ao_par sala id m bruto h)
  unfolding repassar_ao_par
  repassar_ao_par-Mesma sala id m bruto h =
      let h1 = record h { total_repassadas = h.total_repassadas + 1 } in
      if_cases (Mesma h) (contem m.para (membros_de sala h))
        (λ _.
          Mesma-trans h h1 _ (unfold sala_de tem_peer in (refl, refl, λ x. refl, λ x. refl))
            (enviar-Mesma (com_campo_from bruto id) m.para h1))
        (λ _. Mesma-refl h)

module _ {S : Type 0} (sfu : Retransmissor S) (json : Json) where
  pub entregar_do_sfu-Mesma :
      (ms : List (Texto × List ℕ)) (h : Hub S) → Mesma h (entregar_do_sfu sfu json ms h)
  unfolding entregar_do_sfu
  entregar_do_sfu-Mesma [] h = Mesma-refl h
  entregar_do_sfu-Mesma ((id, bruto) ∷ ms) h =
      let h1 = enviar (com_campo_from bruto id_do_sfu) id h in
      Mesma-trans h h1 _ (enviar-Mesma (com_campo_from bruto id_do_sfu) id h)
        (entregar_do_sfu-Mesma ms h1)

  pub com_estado-Mesma :
      (h : Hub S) (r : S × List (Texto × List ℕ)) → Mesma h (com_estado sfu json h r)
  com_estado-Mesma h (s, ms) =
      Mesma-trans h (record h { sfu = some s }) _
        (unfold sala_de tem_peer in (refl, refl, λ x. refl, λ x. refl))
        (entregar_do_sfu-Mesma ms (record h { sfu = some s }))

  entregar_ao_sfu-Mesma :
      (sala id : Texto) (m : MensagemEntrada) (bruto : List ℕ) (s : S) (h : Hub S)
      → Mesma h (entregar_ao_sfu sfu json sala id m bruto s h)
  unfolding entregar_ao_sfu
  entregar_ao_sfu-Mesma sala id m bruto s h =
      if_cases (Mesma h) (eq_texto m.tipo (codes "offer") || eq_texto m.tipo (codes "answer"))
        (λ _.
          if_cases (Mesma h) (vazio (sdp_de sfu json bruto)) (λ _. Mesma-refl h)
            (λ _. com_estado-Mesma h (sfu.descricao sala id m.tipo (sdp_de sfu json bruto) s)))
        (λ _.
          if_cases (Mesma h) (eq_texto m.tipo (codes "ice")) (λ _. caso (json.ice bruto))
            (λ _. Mesma-refl h))
    where
      caso :
          (o : Option (Option (Texto × Texto)))
          → Mesma h (elim o [
            | none ↦ h
            | some none ↦ h
            | some (some (candidato, mid)) ↦
                com_estado sfu json h (sfu.candidato sala id candidato mid s)
          ])
      caso none = Mesma-refl h
      caso (some none) = Mesma-refl h
      caso (some (some (c, mid))) = com_estado-Mesma h (sfu.candidato sala id c mid s)

  pub repassar-Mesma :
      (id : Texto) (m : MensagemEntrada) (bruto : List ℕ) (h : Hub S)
      → Mesma h (repassar sfu json id m bruto h)
  unfolding repassar
  repassar-Mesma id m bruto h =
      if_cases (Mesma h) (vazio (sala_de id h) || vazio m.para) (λ _. Mesma-refl h)
        (λ _. caso h.sfu)
    where
      caso :
          (o : Option S)
          → Mesma h (elim o [
            | none ↦ repassar_ao_par (sala_de id h) id m bruto h
            | some s ↦
                if eq_texto m.para id_do_sfu
                then entregar_ao_sfu sfu json (sala_de id h) id m bruto s h
                else repassar_ao_par (sala_de id h) id m bruto h
          ])
      caso none = repassar_ao_par-Mesma (sala_de id h) id m bruto h
      caso (some s) =
          if_cases (Mesma h) (eq_texto m.para id_do_sfu)
            (λ _. entregar_ao_sfu-Mesma (sala_de id h) id m bruto s h)
            (λ _. repassar_ao_par-Mesma (sala_de id h) id m bruto h)
