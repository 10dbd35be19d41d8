-- ===== src/Hub/Operacoes.antt =====
-- src/hub.go: the handlers. `sair` is Sair, `entrar` is entrar, `responder_ping` is responderPing,
-- `tratar` is Tratar, `entregar_ao_sfu` is entregarAoSFU, `esvaziar_pings` is a round of the
-- goroutine of that name. Logging is left out, and the clock is an argument.
use greenlabs_server.Comum.{
  ℕ, suc, ◌+◌, Bool, false, ◌||◌, Option, none, some, List, [], ◌∷◌, ◌++◌, map, ltb, leb, ◌==◌,
  if◌then◌else◌, length, take,
}
use greenlabs_server.Comum.Texto.{Texto, codes, eq_texto, vazio, trim_space, trim_left, trim_right}
use greenlabs_server.Comum.Mapa.{lookup, insert, erase}
use greenlabs_server.Websocket.{rejeitar}
use greenlabs_server.Hub.{
  ℤ, pos, negsuc, Peer, MensagemEntrada, Json, Reais, Retransmissor, Hub, sala_padrao,
  tamanho_maximo_nome, id_do_sfu, mudar_peer, sala_de, membros_de, enviar, enviar_a_todos,
  enviar_todas, contem, incluir, remover, marcar_pings,
}
use greenlabs_server.Hub.Formato.{com_campo_from, texto_json, itoa}

-- strconv.FormatInt.
unfoldable pub format_int : ℤ → Texto
format_int (pos n) = itoa n
format_int (negsuc n) = codes "-" ++ itoa (suc n)

-- The messages.
unfoldable pub msg_left : Texto → List ℕ
msg_left id = codes "{\"type\":\"peer-left\",\"peerId\":" ++ (texto_json id ++ codes "}")

unfoldable pub msg_peer_joined : Texto → Texto → ℕ → List ℕ
msg_peer_joined id nome total =
    codes "{\"type\":\"peer-joined\",\"peerId\":"
    ++ (texto_json id
        ++ (codes ",\"name\":"
            ++ (texto_json nome ++ (codes ",\"count\":" ++ (itoa total ++ codes "}")))))

unfoldable pub item_joined : Peer → List ℕ
item_joined p =
    codes "{\"peerId\":"
    ++ (texto_json p.id
        ++ (codes ",\"name\":"
            ++ (texto_json p.nome
                ++ (codes ",\"pingMs\":" ++ (format_int p.ping_ms ++ codes "}")))))

unfoldable pub item_pings : Peer → List ℕ
item_pings p = texto_json p.id ++ (codes ":" ++ format_int p.ping_ms)

-- The items with a comma before each but the first.
unfoldable pub com_virgulas : List (List ℕ) → List ℕ
com_virgulas [] = []
com_virgulas (x ∷ []) = x
com_virgulas (x ∷ y ∷ ys) = x ++ (codes "," ++ com_virgulas (y ∷ ys))

unfoldable pub msg_joined : Texto → List Peer → ℕ → Bool → List ℕ
msg_joined id outros total sfu_ativo =
    codes "{\"type\":\"joined\",\"peerId\":"
    ++ (texto_json id
        ++ (codes ",\"peers\":["
            ++ (com_virgulas (map item_joined outros)
                ++ (codes "],\"count\":"
                    ++ (itoa total
                        ++ ((if sfu_ativo then codes ",\"sfu\":true" else []) ++ codes "}"))))))

unfoldable pub msg_pong : ℤ → ℤ → List ℕ
msg_pong hora_cliente agora =
    codes "{\"type\":\"pong\",\"timestamp\":"
    ++ (format_int hora_cliente ++ (codes ",\"serverTime\":" ++ (format_int agora ++ codes "}")))

unfoldable pub msg_pings : List Peer → List ℕ
msg_pings ps =
    codes "{\"type\":\"room-pings\",\"pings\":{" ++ (com_virgulas (map item_pings ps) ++ codes "}}")

-- The name and the room as `entrar` cleans them.
unfoldable pub sala_pedida : Texto → Texto
sala_pedida s = let sala = trim_space s in if vazio sala then sala_padrao else sala

unfoldable pub nome_pedido : Texto → Texto
nome_pedido s =
    let nome = if vazio s then codes "Usuario" else s in
    if ltb tamanho_maximo_nome (length nome) then take tamanho_maximo_nome nome else nome

-- paraNumero.
unfoldable pub para_numero : {F : Type 0} → Reais F → Texto → Option F
para_numero num bruto =
    let s = trim_space bruto in
    let aspas = λ (c : ℕ). c == b'"' in
    if vazio s || eq_texto s (codes "null")
    then none
    else elim (num.ler (trim_right aspas (trim_left aspas s))) [
      | none ↦ none
      | some v ↦ if num.infinito_ou_nan v then none else some v
    ]

module _ {S : Type 0} where
  -- The peers behind the ids of a room, in its order.
  unfoldable pub peers_de : List Texto → Hub S → List Peer
  peers_de [] h = []
  peers_de (id ∷ ids) h = elim (lookup id h.peers) [
    | none ↦ peers_de ids h
    | some p ↦ p ∷ peers_de ids h
  ]

  -- transmitirPings.
  unfoldable pub transmitir_pings : Texto → Hub S → Hub S
  unfolding peers_de
  transmitir_pings sala h = elim (lookup sala h.salas) [
    | none ↦ h
    | some [] ↦ h
    | some (m ∷ ms) ↦ enviar_a_todos (msg_pings (peers_de (m ∷ ms) h)) (m ∷ ms) h
  ]

  unfoldable pub transmitir_todas : List Texto → Hub S → Hub S
  transmitir_todas [] h = h
  transmitir_todas (s ∷ ss) h = transmitir_todas ss (transmitir_pings s h)

  unfoldable pub esvaziar_pings : Hub S → Hub S
  esvaziar_pings h = transmitir_todas h.ping_sujas (record h { ping_sujas = [] })

module _ {S : Type 0} (sfu : Retransmissor S) where
  -- `if h.sfu != nil { h.sfu.Sair(sala, p.id) }`.
  unfoldable pub sair_do_sfu : Texto → Texto → Hub S → Hub S
  sair_do_sfu sala id h = elim h.sfu [
    | none ↦ h
    | some s ↦ record h { sfu = some (sfu.sair sala id s) }
  ]

  -- Sair from the critical section on: `membros` is the room's map.
  unfoldable pub sair_da_sala : Texto → Texto → List Texto → Hub S → Hub S
  sair_da_sala sala id membros h =
      let restantes = remover id membros in
      let h1 = record h {
        salas = if vazio restantes then erase sala h.salas else insert sala restantes h.salas;
      } in
      let h2 = enviar_a_todos (msg_left id) restantes (sair_do_sfu sala id h1) in
      if vazio restantes then h2 else marcar_pings sala h2

  unfoldable pub sair : Texto → Hub S → Hub S
  sair id h =
      let sala = sala_de id h in
      let solto = mudar_peer id (λ p. record p { sala = [] }) h in
      if vazio sala then solto else elim (lookup sala h.salas) [
        | none ↦ solto
        | some membros ↦ sair_da_sala sala id membros solto
      ]

  -- The session is made before `joined` is queued; what it sends meanwhile is held back, with the
  -- SFU as its sender.
  unfoldable pub entrar_no_sfu : Texto → Texto → Hub S → Hub S × List (List ℕ) × Bool
  entrar_no_sfu sala id h = elim h.sfu [
    | none ↦ (h, [], false)
    | some s ↦
        (let (s', enviadas, deu_certo) = sfu.entrar sala id s in
          (record h { sfu = some s' }, map (λ b. com_campo_from b id_do_sfu) enviadas, deu_certo))
  ]

  -- entrar behind the lock, in a full room and in one with a place.
  unfoldable pub recusar : Texto → Hub S → Hub S
  recusar id h =
      mudar_peer id (λ p. record p { sala = []; conexao = rejeitar (codes "Sala cheia") p.conexao })
        h

  unfoldable pub admitir : Texto → Texto → Texto → List Texto → Hub S → Hub S
  admitir id sala nome ja_estavam h =
      let membros = incluir id ja_estavam in
      let total = length membros in
      let (h1, retidas, ativo) =
        entrar_no_sfu sala id (record h { salas = insert sala membros h.salas }) in
      let h2 = enviar (msg_joined id (peers_de ja_estavam h1) total ativo) id h1 in
      let h3 = if ativo then enviar_todas retidas id h2 else h2 in
      marcar_pings sala (enviar_a_todos (msg_peer_joined id nome total) ja_estavam h3)

  unfoldable pub entrar : Texto → MensagemEntrada → Hub S → Hub S
  entrar id m h =
      let sala = sala_pedida m.sala in
      let nome = nome_pedido m.nome in
      let h1 = mudar_peer id (λ p. record p { sala = sala; nome = nome }) (sair id h) in
      let membros = membros_de sala h1 in
      if leb h1.limite_por_sala (length membros)
      then recusar id h1
      else admitir id sala nome membros h1

-- `if ms < 1 { ms = 1 }`.
unfoldable pub ao_menos_um : ℤ → ℤ
ao_menos_um (pos n) = if ltb n 1 then pos 1 else pos n
ao_menos_um (negsuc n) = pos 1

unfoldable pub hora_do_cliente : {F : Type 0} → Reais F → ℤ → MensagemEntrada → ℤ
hora_do_cliente num agora m = elim (para_numero num m.timestamp) [
  | none ↦ agora
  | some v ↦ if num.nulo v then agora else num.truncado v
]

module _ {S : Type 0} {F : Type 0} (num : Reais F) where
  unfoldable pub anotar_rtt : Texto → MensagemEntrada → Hub S → Hub S
  anotar_rtt id m h = elim (para_numero num m.rtt) [
    | none ↦ h
    | some v ↦
        if num.negativo v
        then h
        else mudar_peer id (λ p. record p { ping_ms = ao_menos_um (num.arredondado v) }) h
  ]

  unfoldable pub responder_ping : ℤ → Texto → MensagemEntrada → Hub S → Hub S
  responder_ping agora id m h =
      let h1 = enviar (msg_pong (hora_do_cliente num agora m) agora) id (anotar_rtt id m h) in
      let sala = sala_de id h1 in if vazio sala then h1 else marcar_pings sala h1

module _ {S : Type 0} where
  -- Tratar when the message is for another participant.
  unfoldable pub repassar_ao_par : Texto → Texto → MensagemEntrada → List ℕ → Hub S → Hub S
  repassar_ao_par sala id m bruto h =
      if contem m.para (membros_de sala h)
      then enviar (com_campo_from bruto id) m.para
          (record h { total_repassadas = h.total_repassadas + 1 })
      else h

module _ {S : Type 0} (sfu : Retransmissor S) (json : Json) where
  -- What the SFU sends goes out with the SFU as its sender.
  unfoldable pub entregar_do_sfu : List (Texto × List ℕ) → Hub S → Hub S
  entregar_do_sfu [] h = h
  entregar_do_sfu ((id, bruto) ∷ ms) h =
      entregar_do_sfu ms (enviar (com_campo_from bruto id_do_sfu) id h)

  abbrev pub com_estado : Hub S → S × List (Texto × List ℕ) → Hub S
  com_estado h (s, ms) = entregar_do_sfu ms (record h { sfu = some s })

  -- "sdp" before "description".
  unfoldable pub sdp_de : List ℕ → Texto
  sdp_de bruto = elim (json.sdp bruto) [
    | none ↦ []
    | some (some sdp, _) ↦ sdp
    | some (none, some descricao) ↦ descricao
    | some (none, none) ↦ []
  ]

  unfoldable pub entregar_ao_sfu : Texto → Texto → MensagemEntrada → List ℕ → S → Hub S → Hub S
  unfolding entregar_do_sfu
  entregar_ao_sfu sala id m bruto s h =
      if eq_texto m.tipo (codes "offer") || eq_texto m.tipo (codes "answer")
      then (if vazio (sdp_de bruto)
          then h
          else com_estado h (sfu.descricao sala id m.tipo (sdp_de bruto) s))
      else if eq_texto m.tipo (codes "ice")
      then elim (json.ice bruto) [
        | none ↦ h
        | some none ↦ h
        | some (some (candidato, mid)) ↦ com_estado h (sfu.candidato sala id candidato mid s)
      ]
      else h

  unfoldable pub repassar : Texto → MensagemEntrada → List ℕ → Hub S → Hub S
  repassar id m bruto h =
      let sala = sala_de id h in
      if vazio sala || vazio m.para then h else elim h.sfu [
        | none ↦ repassar_ao_par sala id m bruto h
        | some s ↦
            if eq_texto m.para id_do_sfu
            then entregar_ao_sfu sala id m bruto s h
            else repassar_ao_par sala id m bruto h
      ]

  unfoldable pub tratar : {F : Type 0} → Reais F → ℤ → Texto → List ℕ → Hub S → Hub S
  tratar num agora id bruto h = elim (json.entrada bruto) [
    | none ↦ h
    | some m ↦
        if eq_texto m.tipo (codes "ping")
        then responder_ping num agora id m h
        else if eq_texto m.tipo (codes "join")
        then entrar sfu id m h
        else repassar id m bruto h
  ]
