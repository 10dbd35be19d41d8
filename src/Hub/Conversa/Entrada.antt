-- ===== src/Hub/Conversa/Entrada.antt =====
-- src/hub.go: the handlers leave what the connections have still to read as it is.
use greenlabs_server.Comum.{
  ℕ, ◌+◌, ◌≡◌, refl, ap, ◌∙◌, Bool, true, false, ◌||◌, Option, none, some, List, [], ◌∷◌,
  if◌then◌else◌, if_cases, leb, length,
}
use greenlabs_server.Comum.Texto.{Texto, codes, eq_texto, vazio}
use greenlabs_server.Comum.Mapa.{lookup}
use greenlabs_server.Websocket.{Conn, Rede, enviar_texto, rejeitar, fechar}
use greenlabs_server.Websocket.Leitura.Consumo.{enfileirar-rede}
use greenlabs_server.Hub.{
  ℤ, Peer, Hub, MensagemEntrada, Retransmissor, Json, Reais, mudar_peer, sala_de, membros_de,
  enviar, marcar_pings, contem, id_do_sfu,
}
use greenlabs_server.Hub.Formato.{com_campo_from}
use greenlabs_server.Hub.Entrega.{recebeu}
use greenlabs_server.Hub.Avisos.{Avisos, a_cada, com_avisos, no_peer, Avisou, mudar_peer-no_peer}
use greenlabs_server.Hub.Avisos.Salas.{
  restantes_de, avisos_da_chegada, em_sala, sair-Avisou, admitir-Avisou,
}
use greenlabs_server.Hub.Operacoes.{
  msg_pong, para_numero, msg_left, sala_pedida, nome_pedido, sair, entrar, admitir, recusar,
  ao_menos_um, hora_do_cliente, anotar_rtt, responder_ping, repassar_ao_par, entregar_do_sfu,
  com_estado, sdp_de, entregar_ao_sfu, repassar, tratar,
}

-- What the connection of a participant has still to read.
abbrev pub por_ler : Option Peer → Option (List ℕ)
por_ler none = none
por_ler (some p) = some p.conexao.rede.entrada

module _ {S : Type 0} where
  abbrev pub lida : Texto → Hub S → Option (List ℕ)
  lida x h = por_ler (lookup x h.peers)

  abbrev pub Intacta : Hub S → Hub S → Type 0
  Intacta h h' = (x : Texto) → lida x h' ≡ lida x h

por_ler-no_peer :
    (f : Peer → Peer) (o : Option Peer)
    → ((p : Peer) → (f p).conexao.rede ≡ p.conexao.rede)
    → por_ler (no_peer f o) ≡ por_ler o
por_ler-no_peer f none e = refl
por_ler-no_peer f (some p) e = ap (λ (r : Rede). some r.entrada) (e p)

enviar_texto-rede : (d : List ℕ) (c : Conn) → (enviar_texto d c).0.rede ≡ c.rede
unfolding enviar_texto
enviar_texto-rede d c = enfileirar-rede _ c

com_avisos-rede :
    (x : Texto) (ms : Avisos) (p : Peer) → (com_avisos x ms p).conexao.rede ≡ p.conexao.rede
com_avisos-rede x [] p = refl
com_avisos-rede x ((y, d) ∷ ms) p =
    com_avisos-rede x ms (if eq_texto y x then recebeu d p else p) ∙ talvez (eq_texto y x)
  where
    talvez : (b : Bool) → (if b then recebeu d p else p).conexao.rede ≡ p.conexao.rede
    talvez true = enviar_texto-rede d p.conexao
    talvez false = refl

module _ {S : Type 0} where
  pub Avisou-Intacta : (ms : Avisos) (h h' : Hub S) → Avisou ms h h' → Intacta h h'
  Avisou-Intacta ms h h' a x =
      ap por_ler (a x) ∙ por_ler-no_peer (com_avisos x ms) (lookup x h.peers) (com_avisos-rede x ms)

  pub mudar_peer-Intacta :
      (id : Texto) (f : Peer → Peer) (h : Hub S)
      → ((p : Peer) → (f p).conexao.rede ≡ p.conexao.rede)
      → Intacta h (mudar_peer id f h)
  mudar_peer-Intacta id f h e x =
      ap por_ler (mudar_peer-no_peer id f h x)
      ∙ por_ler-no_peer (λ p. if eq_texto id x then f p else p) (lookup x h.peers) talvez
    where
      talvez : (p : Peer) → (if eq_texto id x then f p else p).conexao.rede ≡ p.conexao.rede
      talvez p =
          if_cases (λ (q : Peer). q.conexao.rede ≡ p.conexao.rede) (eq_texto id x) (λ _. e p)
            (λ _. refl)

  enviar-Intacta : (d : List ℕ) (id : Texto) (h : Hub S) → Intacta h (enviar d id h)
  unfolding enviar
  enviar-Intacta d id h = mudar_peer-Intacta id (recebeu d) h (λ p. enviar_texto-rede d p.conexao)

  repassar_ao_par-Intacta :
      (sala id : Texto) (m : MensagemEntrada) (bruto : List ℕ) (h : Hub S)
      → Intacta h (repassar_ao_par sala id m bruto h)
  unfolding repassar_ao_par
  repassar_ao_par-Intacta sala id m bruto h =
      if_cases (Intacta h) (contem m.para (membros_de sala h))
        (λ _ x.
          enviar-Intacta (com_campo_from bruto id) m.para
            (record h { total_repassadas = h.total_repassadas + 1 }) x)
        (λ _ x. refl)

  responder_ping-Intacta :
      {F : Type 0} (num : Reais F) (agora : ℤ) (id : Texto) (m : MensagemEntrada) (h : Hub S)
      → Intacta h (responder_ping num agora id m h)
  unfolding responder_ping marcar_pings anotar_rtt para_numero
  responder_ping-Intacta {F = F} num agora id m h x =
      let h1 = anotar_rtt num id m h in
      let pong = msg_pong (hora_do_cliente num agora m) agora in
      let h2 = enviar pong id h1 in
      if_cases (λ (h' : Hub S). lida x h' ≡ lida x h2) (vazio (sala_de id h2)) (λ _. refl)
        (λ _. refl)
      ∙ enviar-Intacta pong id h1 x
      ∙ anotou (para_numero num m.rtt)
    where
      anotou :
          (o : Option F)
          → lida x (elim o as (λ _. Hub S) [
            | none ↦ h
            | some v ↦
                if num.negativo v
                then h
                else mudar_peer id (λ p. record p { ping_ms = ao_menos_um (num.arredondado v) }) h
          ])
            ≡ lida x h
      anotou none = refl
      anotou (some v) =
          if_cases (λ (h' : Hub S). lida x h' ≡ lida x h) (num.negativo v) (λ _. refl)
            (λ _.
              mudar_peer-Intacta id (λ p. record p { ping_ms = ao_menos_um (num.arredondado v) }) h
                (λ p. refl) x)

rejeitar-rede : (motivo : Texto) (c : Conn) → (rejeitar motivo c).rede ≡ c.rede
unfolding rejeitar fechar
rejeitar-rede motivo c = enfileirar-rede _ c

module _ {S : Type 0} (sfu : Retransmissor S) where
  sair-Intacta : (id : Texto) (h : Hub S) → Intacta h (sair sfu id h)
  sair-Intacta id h x =
      Avisou-Intacta (a_cada (msg_left id) (restantes_de sfu id h))
        (mudar_peer id (λ p. record p { sala = [] }) h) (sair sfu id h) (sair-Avisou sfu id h) x
      ∙ mudar_peer-Intacta id (λ p. record p { sala = [] }) h (λ p. refl) x

  entrar-Intacta : (id : Texto) (m : MensagemEntrada) (h : Hub S) → Intacta h (entrar sfu id m h)
  unfolding entrar recusar
  entrar-Intacta id m h x =
      let sala = sala_pedida m.sala in
      let nome = nome_pedido m.nome in
      let h1 = mudar_peer id (em_sala sala nome) (sair sfu id h) in
      let membros = membros_de sala h1 in
      if_cases (λ (h' : Hub S). lida x h' ≡ lida x h1) (leb h1.limite_por_sala (length membros))
        (λ _.
          mudar_peer-Intacta id
            (λ p. record p { sala = []; conexao = rejeitar (codes "Sala cheia") p.conexao }) h1
            (λ p. rejeitar-rede (codes "Sala cheia") p.conexao) x)
        (λ _.
          Avisou-Intacta (avisos_da_chegada sfu id sala nome membros h1) h1
            (admitir sfu id sala nome membros h1) (admitir-Avisou sfu id sala nome membros h1) x)
      ∙ mudar_peer-Intacta id (em_sala sala nome) (sair sfu id h) (λ p. refl) x
      ∙ sair-Intacta id h x

module _ {S : Type 0} (sfu : Retransmissor S) (json : Json) where
  entregar_do_sfu-Intacta :
      (ms : List (Texto × List ℕ)) (h : Hub S) → Intacta h (entregar_do_sfu sfu json ms h)
  unfolding entregar_do_sfu
  entregar_do_sfu-Intacta [] h x = refl
  entregar_do_sfu-Intacta ((id, bruto) ∷ ms) h x =
      let d = com_campo_from bruto id_do_sfu in
      entregar_do_sfu-Intacta ms (enviar d id h) x ∙ enviar-Intacta d id h x

  com_estado-Intacta :
      (h : Hub S) (r : S × List (Texto × List ℕ)) → Intacta h (com_estado sfu json h r)
  com_estado-Intacta h (s, ms) x = entregar_do_sfu-Intacta ms (record h { sfu = some s }) x

  entregar_ao_sfu-Intacta :
      (sala id : Texto) (m : MensagemEntrada) (bruto : List ℕ) (s : S) (h : Hub S)
      → Intacta h (entregar_ao_sfu sfu json sala id m bruto s h)
  unfolding entregar_ao_sfu
  entregar_ao_sfu-Intacta sala id m bruto s h =
      if_cases (Intacta h) (eq_texto m.tipo (codes "offer") || eq_texto m.tipo (codes "answer"))
        (λ _.
          if_cases (Intacta h) (vazio (sdp_de sfu json bruto)) (λ _ x. refl)
            (λ _. com_estado-Intacta h (sfu.descricao sala id m.tipo (sdp_de sfu json bruto) s)))
        (λ _.
          if_cases (Intacta h) (eq_texto m.tipo (codes "ice")) (λ _. gelo (json.ice bruto))
            (λ _ x. refl))
    where
      gelo :
          (o : Option (Option (Texto × Texto)))
          → Intacta h (elim o [
            | none ↦ h
            | some none ↦ h
            | some (some (candidato, mid)) ↦
                com_estado sfu json h (sfu.candidato sala id candidato mid s)
          ])
      gelo none x = refl
      gelo (some none) x = refl
      gelo (some (some (candidato, mid))) x =
          com_estado-Intacta h (sfu.candidato sala id candidato mid s) x

  repassar-Intacta :
      (id : Texto) (m : MensagemEntrada) (bruto : List ℕ) (h : Hub S)
      → Intacta h (repassar sfu json id m bruto h)
  unfolding repassar
  repassar-Intacta id m bruto h =
      if_cases (Intacta h) (vazio (sala_de id h) || vazio m.para) (λ _ x. refl) (λ _. para (h.sfu))
    where
      para :
          (o : Option S)
          → Intacta h (elim o [
            | none ↦ repassar_ao_par (sala_de id h) id m bruto h
            | some s ↦
                if eq_texto m.para id_do_sfu
                then entregar_ao_sfu sfu json (sala_de id h) id m bruto s h
                else repassar_ao_par (sala_de id h) id m bruto h
          ])
      para none = repassar_ao_par-Intacta (sala_de id h) id m bruto h
      para (some s) =
          if_cases (Intacta h) (eq_texto m.para id_do_sfu)
            (λ _. entregar_ao_sfu-Intacta (sala_de id h) id m bruto s h)
            (λ _. repassar_ao_par-Intacta (sala_de id h) id m bruto h)

  pub tratar-Intacta :
      {F : Type 0} (num : Reais F) (agora : ℤ) (id : Texto) (bruto : List ℕ) (h : Hub S)
      → Intacta h (tratar sfu json num agora id bruto h)
  unfolding tratar
  tratar-Intacta num agora id bruto h = caso (json.entrada bruto)
    where
      caso :
          (o : Option MensagemEntrada)
          → Intacta h (elim o [
            | none ↦ h
            | some m ↦
                if eq_texto m.tipo (codes "ping")
                then responder_ping num agora id m h
                else if eq_texto m.tipo (codes "join")
                then entrar sfu id m h
                else repassar sfu json id m bruto h
          ])
      caso none = λ x. refl
      caso (some m) =
          if_cases (Intacta h) (eq_texto m.tipo (codes "ping"))
            (λ _. responder_ping-Intacta num agora id m h)
            (λ _.
              if_cases (Intacta h) (eq_texto m.tipo (codes "join")) (λ _. entrar-Intacta sfu id m h)
                (λ _. repassar-Intacta id m bruto h))
