-- ===== src/Hub/Entrega.antt =====
-- src/hub.go, Tratar: to whom a relayed message goes.
use greenlabs_server.Comum.{
  ℕ, ◌≢◌, subst, ◌+◌, ◌≡◌, refl, sym, ap, ◌∙◌, Bool, true, false, ◌||◌, Option, none, some, List,
  if◌then◌else◌, arith, if_cases, Bool-cases, Option-cases, inl, inr,
}
use greenlabs_server.Comum.Texto.{Texto, codes, eq_texto, eq_texto_iff, vazio}
use greenlabs_server.Comum.Mapa.{lookup, lookup-insert}
use greenlabs_server.Websocket.{enviar_texto}
use greenlabs_server.Hub.{
  ℤ, Peer, Hub, MensagemEntrada, Retransmissor, Json, Reais, id_do_sfu, mudar_peer, sala_de,
  membros_de, enviar, contem,
}
use greenlabs_server.Hub.Formato.{com_campo_from}
use greenlabs_server.Hub.Operacoes.{
  repassar_ao_par, entregar_ao_sfu, repassar, responder_ping, entrar, tratar,
}
use greenlabs_server.Hub.Indice.{IsIndice}

-- The participant with one more message queued.
abbrev pub recebeu : List ℕ → Peer → Peer
recebeu d p = record p { conexao = (enviar_texto d p.conexao).0 }

module _ {S : Type 0} where
  -- Only `para` got a message, and nobody else changed.
  abbrev pub SoPara : Texto → List ℕ → Hub S → Hub S → Type 0
  SoPara para d h h' =
      (x : Texto)
      → lookup x h'.peers ≡ (
          if eq_texto para x
          then elim (lookup x h.peers) [ none ↦ none | some p ↦ some (recebeu d p) ]
          else lookup x h.peers)

  pub enviar-SoPara : (d : List ℕ) (para : Texto) (h : Hub S) → SoPara para d h (enviar d para h)
  unfolding enviar mudar_peer
  enviar-SoPara d para h x = elim (Option-cases (lookup para h.peers)) [
    | inl e ↦ elim (Bool-cases (eq_texto para x)) [
      | inl t ↦
          let k : lookup x h.peers ≡ none =
            ap (λ (y : Texto). lookup y h.peers) (sym ((eq_texto_iff para x).0 t)) ∙ e in
          ground (arith, k)
      | inr t ↦ ground arith
    ]
    | inr (p, e) ↦ elim (Bool-cases (eq_texto para x)) [
      | inl t ↦
          let k : lookup x h.peers ≡ some p =
            ap (λ (y : Texto). lookup y h.peers) (sym ((eq_texto_iff para x).0 t)) ∙ e in
          ground (arith, k, lookup-insert para x (recebeu d p) h.peers)
      | inr t ↦ ground (arith, lookup-insert para x (recebeu d p) h.peers)
    ]
  ]

  -- A message of `id` to another participant: it is relayed if the two share a room, and the count
  -- goes up by one; if not, nothing at all happens.
  abbrev pub Repassou : Texto → MensagemEntrada → List ℕ → Hub S → Hub S → Type 0
  Repassou id m bruto h h' =
      (if contem m.para (membros_de (sala_de id h) h)
        then SoPara m.para (com_campo_from bruto id) h h'
          × (h'.total_repassadas ≡ h.total_repassadas + 1)
          × (h'.salas ≡ h.salas)
        else (h' ≡ h))

  total-enviar :
      (d : List ℕ) (para : Texto) (h : Hub S)
      → ((enviar d para h).total_repassadas ≡ h.total_repassadas)
        × ((enviar d para h).salas ≡ h.salas)
  unfolding enviar mudar_peer
  total-enviar d para h = ground arith

  repassar_ao_par-Repassou :
      (id : Texto) (m : MensagemEntrada) (bruto : List ℕ) (h : Hub S)
      → Repassou id m bruto h (repassar_ao_par (sala_de id h) id m bruto h)
  unfolding repassar_ao_par
  repassar_ao_par-Repassou id m bruto h = caso (contem m.para (membros_de (sala_de id h) h))
    where
      caso :
          (b : Bool)
          → let h1 = record h { total_repassadas = h.total_repassadas + 1 } in
            let h' = if b then enviar (com_campo_from bruto id) m.para h1 else h in
            (if b
              then SoPara m.para (com_campo_from bruto id) h h'
                × (h'.total_repassadas ≡ h.total_repassadas + 1)
                × (h'.salas ≡ h.salas)
              else (h' ≡ h))
      caso false = refl
      caso true =
          let h1 = record h { total_repassadas = h.total_repassadas + 1 } in
          let (a, b) = total-enviar (com_campo_from bruto id) m.para h1 in
          (enviar-SoPara (com_campo_from bruto id) m.para h1, a, b)

module _ {S : Type 0} (sfu : Retransmissor S) (json : Json) where
  repassar-repassar_ao_par :
      (id : Texto) (m : MensagemEntrada) (bruto : List ℕ) (h : Hub S)
      → eq_texto m.para id_do_sfu ≡ false
      → repassar sfu json id m bruto h ≡ (
          if vazio (sala_de id h) || vazio m.para
          then h
          else repassar_ao_par (sala_de id h) id m bruto h)
  unfolding repassar
  repassar-repassar_ao_par id m bruto h e =
      ap (λ (r : Hub S). if vazio (sala_de id h) || vazio m.para then h else r) (caso h.sfu)
    where
      caso :
          (o : Option S)
          → elim o [
            | none ↦ repassar_ao_par (sala_de id h) id m bruto h
            | some s ↦
                if eq_texto m.para id_do_sfu
                then entregar_ao_sfu sfu json (sala_de id h) id m bruto s h
                else repassar_ao_par (sala_de id h) id m bruto h
          ]
            ≡ repassar_ao_par (sala_de id h) id m bruto h
      caso none = refl
      caso (some s) = rw e refl

  repassar-Repassou :
      (id : Texto) (m : MensagemEntrada) (bruto : List ℕ) (h : Hub S)
      → eq_texto m.para id_do_sfu ≡ false
      → (vazio (sala_de id h) || vazio m.para) ≡ false
      → Repassou id m bruto h (repassar sfu json id m bruto h)
  repassar-Repassou id m bruto h e f =
      subst (Repassou id m bruto h)
        (sym (
          repassar-repassar_ao_par id m bruto h e
          ∙ ap (λ (b : Bool). if b then h else repassar_ao_par (sala_de id h) id m bruto h) f))
        (repassar_ao_par-Repassou id m bruto h)

  repassar_isolado :
      (id : Texto) (m : MensagemEntrada) (bruto : List ℕ) (h : Hub S)
      → IsIndice h
      → eq_texto m.para id_do_sfu ≡ false
      → sala_de m.para h ≢ sala_de id h
      → repassar sfu json id m bruto h ≡ h
  repassar_isolado id m bruto h v e n =
      repassar-repassar_ao_par id m bruto h e
      ∙ if_cases (λ (r : Hub S). r ≡ h) (vazio (sala_de id h) || vazio m.para) (λ _. refl)
          (λ _. longe)
    where
      longe : repassar_ao_par (sala_de id h) id m bruto h ≡ h
      longe = elim (Bool-cases (contem m.para (membros_de (sala_de id h) h))) [
        | inl t ↦ absurd (n (v.membro m.para (sala_de id h) t))
        | inr f ↦ unfold repassar_ao_par in rw f refl
      ]

-- What Tratar reads is a message for others: neither a ping nor a join.
abbrev pub ParaOutros : Json → List ℕ → MensagemEntrada → Type 0
ParaOutros json bruto m =
    (json.entrada bruto ≡ some m)
    × (eq_texto m.tipo (codes "ping") ≡ false)
    × (eq_texto m.tipo (codes "join") ≡ false)

module _ {S : Type 0} {F : Type 0} (sfu : Retransmissor S) (json : Json) (num : Reais F) where
  tratar-repassar :
      (agora : ℤ) (id : Texto) (m : MensagemEntrada) (bruto : List ℕ) (h : Hub S)
      → ParaOutros json bruto m
      → tratar sfu json num agora id bruto h ≡ repassar sfu json id m bruto h
  unfolding tratar
  tratar-repassar agora id m bruto h (e, p, j) =
      ap
        (λ (o : Option MensagemEntrada). elim o as (λ _. Hub S) [
          | none ↦ h
          | some m ↦
              if eq_texto m.tipo (codes "ping")
              then responder_ping num agora id m h
              else if eq_texto m.tipo (codes "join")
              then entrar sfu id m h
              else repassar sfu json id m bruto h
        ])
        e
      ∙ rw (p, j) refl

  -- Tratar, of a message that is neither a ping nor a join, from a participant in a room to a named
  -- participant that is not the SFU: if the room's map has the named one, that one and nobody else
  -- gets the message as comCampoFrom makes it for the sender, the count of relayed messages goes up
  -- by one and no room changes; if not, nothing changes.
  pub tratar-Repassou :
      (agora : ℤ) (id : Texto) (m : MensagemEntrada) (bruto : List ℕ) (h : Hub S)
      → ParaOutros json bruto m
      → eq_texto m.para id_do_sfu ≡ false
      → (vazio (sala_de id h) || vazio m.para) ≡ false
      → Repassou id m bruto h (tratar sfu json num agora id bruto h)
  tratar-Repassou agora id m bruto h l e f =
      subst (Repassou id m bruto h) (sym (tratar-repassar agora id m bruto h l))
        (repassar-Repassou sfu json id m bruto h e f)

  -- Tratar, in a hub whose rooms are the inverse of the participants' own: a message that is neither
  -- a ping nor a join, and not for the SFU, changes nothing at all unless the one that it names is in
  -- the sender's own room.
  pub tratar_isolado :
      (agora : ℤ) (id : Texto) (m : MensagemEntrada) (bruto : List ℕ) (h : Hub S)
      → IsIndice h
      → ParaOutros json bruto m
      → eq_texto m.para id_do_sfu ≡ false
      → sala_de m.para h ≢ sala_de id h
      → tratar sfu json num agora id bruto h ≡ h
  tratar_isolado agora id m bruto h v l e n =
      tratar-repassar agora id m bruto h l ∙ repassar_isolado sfu json id m bruto h v e n
