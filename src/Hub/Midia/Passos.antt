-- ===== src/Hub/Midia/Passos.antt =====
-- src/hub.go: the state of the SFU behind leaving and joining.
use greenlabs_server.Comum.{
  ℕ, ◌≡◌, ◌≢◌, refl, ap, ◌∙◌, Bool, true, false, Option, none, some, List, [], map, if◌then◌else◌,
  if_cases, Bool-cases, inl, inr, length, arith,
}
use greenlabs_server.Comum.Texto.{Texto, vazio}
use greenlabs_server.Comum.Mapa.{lookup}
use greenlabs_server.Hub.{
  Hub, Retransmissor, sala_de, membros_de, enviar, enviar_todas, marcar_pings, id_do_sfu, contem,
  incluir, remover,
}
use greenlabs_server.Hub.Formato.{com_campo_from}
use greenlabs_server.Hub.Operacoes.{
  sair, sair_da_sala, sair_do_sfu, entrar_no_sfu, admitir, msg_left, msg_joined, msg_peer_joined,
  peers_de,
}
use greenlabs_server.Hub.Indice.{IsIndice}
use greenlabs_server.Hub.Indice.Moldura.{membros_de-none}
use greenlabs_server.Hub.Indice.Sair.{solto_de, cortado}
use greenlabs_server.Hub.Indice.Entrar.{incluido}
use greenlabs_server.Hub.Midia.Parada.{
  sfu-mudar_peer, sfu-enviar, sfu-enviar_a_todos, sfu-enviar_todas,
}

module _ {S : Type 0} (sfu : Retransmissor S) where
  abbrev pub sem_sessao : Texto → Texto → Option S → Option S
  sem_sessao sala id none = none
  sem_sessao sala id (some s) = some (sfu.sair sala id s)

  abbrev pub com_sessao : Texto → Texto → Option S → Option S
  com_sessao sala id none = none
  com_sessao sala id (some s) = some (sfu.entrar sala id s).0

  sfu-sair_do_sfu :
      (sala id : Texto) (h : Hub S) → (sair_do_sfu sfu sala id h).sfu ≡ sem_sessao sala id h.sfu
  unfolding sair_do_sfu
  sfu-sair_do_sfu sala id h = caso h.sfu refl
    where
      caso :
          (o : Option S)
          → h.sfu ≡ o
          → let r : Hub S = elim o [
            | none ↦ h
            | some s ↦ record h { sfu = some (sfu.sair sala id s) }
          ] in
            r.sfu ≡ sem_sessao sala id o
      caso none e = e
      caso (some s) e = refl

  sfu-sair_da_sala :
      (sala id : Texto) (ms : List Texto) (h : Hub S)
      → (sair_da_sala sfu sala id ms h).sfu ≡ sem_sessao sala id h.sfu
  unfolding sair_da_sala marcar_pings
  sfu-sair_da_sala sala id ms h =
      let h1 = cortado sala id ms h in
      let h2 = sair_do_sfu sfu sala id h1 in
      let m = sfu-enviar_a_todos (msg_left id) (remover id ms) h2 ∙ sfu-sair_do_sfu sala id h1 in
      if_cases (λ (r : Hub S). r.sfu ≡ sem_sessao sala id h.sfu) (vazio (remover id ms)) (λ _. m)
        (λ _. m)

  -- A participant in a room is in the room's map.
  sala_na_mapa :
      (id : Texto) (h : Hub S)
      → IsIndice h
      → vazio (sala_de id h) ≡ false
      → lookup (sala_de id h) h.salas ≢ none
  unfolding contem
  sala_na_mapa id h v n e =
      let k : contem id (membros_de (sala_de id h) h) ≡ true =
        v.presente id (λ z. ground (arith, z, n)) in
      absurd (ground (arith, k, membros_de-none (sala_de id h) h e))

  pub sfu-sair :
      (id : Texto) (h : Hub S)
      → IsIndice h
      → (sair sfu id h).sfu
        ≡ (if vazio (sala_de id h) then h.sfu else sem_sessao (sala_de id h) id h.sfu)
  unfolding sair
  sfu-sair id h v = elim (Bool-cases (vazio (sala_de id h))) [
    | inl t ↦ rw t (sfu-mudar_peer id (λ p. record p { sala = [] }) h)
    | inr t ↦ rw t (dentro (lookup (sala_de id h) h.salas) (sala_na_mapa id h v t))
  ]
    where
      dentro :
          (o : Option (List Texto))
          → o ≢ none
          → let r : Hub S = elim o [
            | none ↦ solto_de id h
            | some membros ↦ sair_da_sala sfu (sala_de id h) id membros (solto_de id h)
          ] in
            r.sfu ≡ sem_sessao (sala_de id h) id h.sfu
      dentro none n = absurd (n refl)
      dentro (some ms) n =
          sfu-sair_da_sala (sala_de id h) id ms (solto_de id h)
          ∙ ap (sem_sessao (sala_de id h) id) (sfu-mudar_peer id (λ p. record p { sala = [] }) h)

  sfu-entrar_no_sfu :
      (sala id : Texto) (h : Hub S) → (entrar_no_sfu sfu sala id h).0.sfu ≡ com_sessao sala id h.sfu
  unfolding entrar_no_sfu
  sfu-entrar_no_sfu sala id h = caso h.sfu refl
    where
      caso :
          (o : Option S)
          → h.sfu ≡ o
          → let r : Hub S × List (List ℕ) × Bool = elim o [
            | none ↦ (h, [], false)
            | some s ↦
                (let (s', enviadas, deu_certo) = sfu.entrar sala id s in
                  (
                    record h { sfu = some s' },
                    map (λ b. com_campo_from b id_do_sfu) enviadas,
                    deu_certo,
                  ))
          ] in
            r.0.sfu ≡ com_sessao sala id o
      caso none e = e
      caso (some s) e = refl

  pub sfu-admitir :
      (id sala nome : Texto) (ms : List Texto) (h : Hub S)
      → (admitir sfu id sala nome ms h).sfu ≡ com_sessao sala id h.sfu
  unfolding admitir marcar_pings
  sfu-admitir id sala nome ms h =
      let h0 = incluido sfu id sala ms h in
      let total = length (incluir id ms) in
      let r = entrar_no_sfu sfu sala id h0 in
      let joined = msg_joined id (peers_de ms r.0) total r.2 in
      let h2 = enviar joined id r.0 in
      let h3 = if r.2 then enviar_todas r.1 id h2 else h2 in
      let m3 : h3.sfu ≡ h2.sfu =
        if_cases (λ (z : Hub S). z.sfu ≡ h2.sfu) r.2 (λ _. sfu-enviar_todas r.1 id h2)
          (λ _. refl) in
      sfu-enviar_a_todos (msg_peer_joined id nome total) ms h3
      ∙ m3
      ∙ sfu-enviar joined id r.0
      ∙ sfu-entrar_no_sfu sala id h0
