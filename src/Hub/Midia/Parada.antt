-- ===== src/Hub/Midia/Parada.antt =====
-- src/hub.go: what does not touch the SFU.
use greenlabs_server.Comum.{ℕ, ◌≡◌, refl, ◌∙◌, Option, none, some, List, [], ◌∷◌, arith}
use greenlabs_server.Comum.Texto.{Texto}
use greenlabs_server.Comum.Mapa.{lookup}
use greenlabs_server.Hub.{
  ℤ, Peer, Hub, MensagemEntrada, Retransmissor, Json, Reais, mudar_peer, enviar, enviar_a_todos,
  enviar_todas, marcar_pings, id_do_sfu,
}
use greenlabs_server.Hub.Formato.{com_campo_from}
use greenlabs_server.Hub.Operacoes.{
  transmitir_pings, transmitir_todas, esvaziar_pings, anotar_rtt, responder_ping, repassar_ao_par,
  entregar_do_sfu, msg_pings, peers_de,
}

module _ {S : Type 0} where
  pub sfu-mudar_peer : (id : Texto) (f : Peer → Peer) (h : Hub S) → (mudar_peer id f h).sfu ≡ h.sfu
  unfolding mudar_peer
  sfu-mudar_peer id f h = ground arith

  pub sfu-enviar : (d : List ℕ) (id : Texto) (h : Hub S) → (enviar d id h).sfu ≡ h.sfu
  unfolding enviar mudar_peer
  sfu-enviar d id h = ground arith

  pub sfu-enviar_a_todos :
      (d : List ℕ) (ids : List Texto) (h : Hub S) → (enviar_a_todos d ids h).sfu ≡ h.sfu
  unfolding enviar_a_todos
  sfu-enviar_a_todos d [] h = refl
  sfu-enviar_a_todos d (id ∷ ids) h = sfu-enviar_a_todos d ids (enviar d id h) ∙ sfu-enviar d id h

  pub sfu-enviar_todas :
      (ds : List (List ℕ)) (id : Texto) (h : Hub S) → (enviar_todas ds id h).sfu ≡ h.sfu
  unfolding enviar_todas
  sfu-enviar_todas [] id h = refl
  sfu-enviar_todas (d ∷ ds) id h = sfu-enviar_todas ds id (enviar d id h) ∙ sfu-enviar d id h

  sfu-transmitir_pings : (s : Texto) (h : Hub S) → (transmitir_pings s h).sfu ≡ h.sfu
  unfolding transmitir_pings
  sfu-transmitir_pings s h = caso (lookup s h.salas)
    where
      caso :
          (o : Option (List Texto))
          → let r : Hub S = elim o [
            | none ↦ h
            | some [] ↦ h
            | some (m ∷ ms) ↦ enviar_a_todos (msg_pings (peers_de (m ∷ ms) h)) (m ∷ ms) h
          ] in
            r.sfu ≡ h.sfu
      caso none = refl
      caso (some []) = refl
      caso (some (m ∷ ms)) = sfu-enviar_a_todos (msg_pings (peers_de (m ∷ ms) h)) (m ∷ ms) h

  sfu-transmitir_todas : (ss : List Texto) (h : Hub S) → (transmitir_todas ss h).sfu ≡ h.sfu
  unfolding transmitir_todas
  sfu-transmitir_todas [] h = refl
  sfu-transmitir_todas (s ∷ ss) h =
      sfu-transmitir_todas ss (transmitir_pings s h) ∙ sfu-transmitir_pings s h

  pub sfu-esvaziar_pings : (h : Hub S) → (esvaziar_pings h).sfu ≡ h.sfu
  unfolding esvaziar_pings
  sfu-esvaziar_pings h = sfu-transmitir_todas h.ping_sujas (record h { ping_sujas = [] })

  pub sfu-repassar_ao_par :
      (sala id : Texto) (m : MensagemEntrada) (bruto : List ℕ) (h : Hub S)
      → (repassar_ao_par sala id m bruto h).sfu ≡ h.sfu
  unfolding repassar_ao_par enviar mudar_peer
  sfu-repassar_ao_par sala id m bruto h = ground arith

module _ {S : Type 0} {F : Type 0} (num : Reais F) where
  pub sfu-responder_ping :
      (agora : ℤ) (id : Texto) (m : MensagemEntrada) (h : Hub S)
      → (responder_ping num agora id m h).sfu ≡ h.sfu
  unfolding responder_ping anotar_rtt marcar_pings enviar mudar_peer
  sfu-responder_ping agora id m h = ground arith

module _ {S : Type 0} (sfu : Retransmissor S) (json : Json) where
  pub sfu-entregar_do_sfu :
      (ms : List (Texto × List ℕ)) (h : Hub S) → (entregar_do_sfu sfu json ms h).sfu ≡ h.sfu
  unfolding entregar_do_sfu
  sfu-entregar_do_sfu [] h = refl
  sfu-entregar_do_sfu ((id, bruto) ∷ ms) h =
      sfu-entregar_do_sfu ms (enviar (com_campo_from bruto id_do_sfu) id h)
      ∙ sfu-enviar (com_campo_from bruto id_do_sfu) id h
