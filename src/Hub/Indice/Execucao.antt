-- ===== src/Hub/Indice/Execucao.antt =====
-- src/hub.go and src/sinalizacao.go: the hub through a whole run, in any order of its events.
use greenlabs_server.Comum.{
  ℕ, inl, inr, ◌≡◌, refl, sym, ap, ◌∙◌, Bool, true, false, Option, none, some, List, [], ◌∷◌,
  if◌then◌else◌, arith, Bool-cases, if_cases,
}
use greenlabs_server.Comum.Texto.{Texto, codes, eq_texto, eq_texto_iff}
use greenlabs_server.Comum.Mapa.{lookup, lookup-insert}
use greenlabs_server.Websocket.{Conn}
use greenlabs_server.Hub.{
  ℤ, pos, Peer, Hub, MensagemEntrada, Retransmissor, Json, Reais, novo_hub, novo_peer, mudar_peer,
  sala_de, tem_peer, membros_de, contem,
}
use greenlabs_server.Hub.Operacoes.{
  esvaziar_pings, sair, entrar, responder_ping, entregar_do_sfu, repassar, tratar,
}
use greenlabs_server.Hub.Indice.{IsIndice}
use greenlabs_server.Hub.Indice.Moldura.{IsIndice-Mesma, mudar_peer-Mesma}
use greenlabs_server.Hub.Indice.Sair.{sair-IsIndice}
use greenlabs_server.Hub.Indice.Entrar.{entrar-IsIndice}
use greenlabs_server.Hub.Indice.Repasse.{
  esvaziar_pings-Mesma, responder_ping-Mesma, repassar-Mesma, entregar_do_sfu-Mesma,
}

-- What the server and the network do to the hub: a connection accepted, a message read from it, the
-- end of its goroutine, a round of the ping goroutine, messages of the SFU's own goroutines, and
-- anything that a connection's own goroutines do to it.
pub data Evento : Type 0 where
  conecta : Texto → Conn → Evento
  mensagem : Texto → ℤ → List ℕ → Evento
  cai : Texto → Evento
  tique : Evento
  do_sfu : List (Texto × List ℕ) → Evento
  rede : Texto → (Conn → Conn) → Evento

module _ {S : Type 0} {F : Type 0} (sfu : Retransmissor S) (json : Json) (num : Reais F) where
  -- A new id is fresh; only a participant that connected sends messages.
  unfoldable pub passo : Evento → Hub S → Hub S
  passo (conecta id c) h = if tem_peer id h then h else novo_peer id c h
  passo (mensagem id agora bruto) h =
      if tem_peer id h then tratar sfu json num agora id bruto h else h
  passo (cai id) h = sair sfu id h
  passo tique h = esvaziar_pings h
  passo (do_sfu ms) h = entregar_do_sfu sfu json ms h
  passo (rede id f) h = mudar_peer id (λ p. record p { conexao = f p.conexao }) h

  unfoldable pub executar : List Evento → Hub S → Hub S
  executar [] h = h
  executar (e ∷ es) h = executar es (passo e h)

module _ {S : Type 0} where
  vazio_em : (id : Texto) (h : Hub S) → tem_peer id h ≡ false → lookup id h.peers ≡ none
  unfolding tem_peer
  vazio_em id h = caso (lookup id h.peers)
    where
      caso :
          (o : Option Peer)
          → ◌≡◌ {A = Bool} (elim o [ none ↦ false | some p ↦ true ]) false
          → o ≡ none
      caso none e = refl
      caso (some p) e = cc

  pub sala_de-novo_peer :
      (id x : Texto) (c : Conn) (h : Hub S)
      → tem_peer id h ≡ false
      → sala_de x (novo_peer id c h) ≡ sala_de x h
  unfolding sala_de novo_peer
  sala_de-novo_peer id x c h t = elim (Bool-cases (eq_texto id x)) [
    | inl q ↦
        let e : lookup x h.peers ≡ none =
          ap (λ (y : Texto). lookup y h.peers) (sym ((eq_texto_iff id x).0 q)) ∙ vazio_em id h t in
        ground (arith, lookup-insert id x novo h.peers)
    | inr q ↦ ground (arith, lookup-insert id x novo h.peers)
  ]
    where
      novo : Peer
      novo = record { id = id; conexao = c; nome = []; sala = []; ping_ms = pos 0 }

  -- A participant that connects is in no room.
  novo_peer-IsIndice :
      (id : Texto) (c : Conn) (h : Hub S)
      → tem_peer id h ≡ false
      → IsIndice h
      → IsIndice (novo_peer id c h)
  novo_peer-IsIndice id c h t v = record {
    membro = λ x s e. sala_de-novo_peer id x c h t ∙ v.membro x s (rw (mesmos s) at e);
    presente = λ x n.
        rw (sala_de-novo_peer id x c h t, mesmos (sala_de x h))
          (v.presente x (λ e. n (sala_de-novo_peer id x c h t ∙ e)));
    sem_nome = mesmos [] ∙ v.sem_nome;
    ocupada = unfold novo_peer in v.ocupada;
    unicos = λ s. rw (mesmos s) (v.unicos s);
    limite = unfold novo_peer membros_de in v.limite;
  }
    where
      mesmos : (s : Texto) → membros_de s (novo_peer id c h) ≡ membros_de s h
      mesmos s = unfold novo_peer membros_de in refl

module _ {S : Type 0} {F : Type 0} (sfu : Retransmissor S) (json : Json) (num : Reais F) where
  pub tratar-IsIndice :
      (agora : ℤ) (id : Texto) (bruto : List ℕ) (h : Hub S)
      → IsIndice h
      → tem_peer id h ≡ true
      → IsIndice (tratar sfu json num agora id bruto h)
  unfolding tratar
  tratar-IsIndice agora id bruto h v t = caso (json.entrada bruto)
    where
      caso :
          (o : Option MensagemEntrada)
          → IsIndice (elim o [
            | none ↦ h
            | some m ↦
                if eq_texto m.tipo (codes "ping")
                then responder_ping num agora id m h
                else if eq_texto m.tipo (codes "join")
                then entrar sfu id m h
                else repassar sfu json id m bruto h
          ])
      caso none = v
      caso (some m) =
          if_cases IsIndice (eq_texto m.tipo (codes "ping"))
            (λ _. IsIndice-Mesma h _ (responder_ping-Mesma num agora id m h) v)
            (λ _.
              if_cases IsIndice (eq_texto m.tipo (codes "join"))
                (λ _. entrar-IsIndice sfu id m h v t)
                (λ _. IsIndice-Mesma h _ (repassar-Mesma sfu json id m bruto h) v))

  pub passo-IsIndice : (e : Evento) (h : Hub S) → IsIndice h → IsIndice (passo sfu json num e h)
  unfolding passo
  passo-IsIndice (conecta id c) h v =
      if_cases IsIndice (tem_peer id h) (λ _. v) (λ f. novo_peer-IsIndice id c h f v)
  passo-IsIndice (mensagem id agora bruto) h v =
      if_cases IsIndice (tem_peer id h) (λ t. tratar-IsIndice agora id bruto h v t) (λ _. v)
  passo-IsIndice (cai id) h v = sair-IsIndice sfu id h v
  passo-IsIndice tique h v = IsIndice-Mesma h _ (esvaziar_pings-Mesma h) v
  passo-IsIndice (do_sfu ms) h v = IsIndice-Mesma h _ (entregar_do_sfu-Mesma sfu json ms h) v
  passo-IsIndice (rede id f) h v =
      IsIndice-Mesma h _
        (mudar_peer-Mesma id (λ p. record p { conexao = f p.conexao }) h (λ p. refl)) v

  executa-IsIndice :
      (es : List Evento) (h : Hub S) → IsIndice h → IsIndice (executar sfu json num es h)
  unfolding executar
  executa-IsIndice [] h v = v
  executa-IsIndice (e ∷ es) h v =
      executa-IsIndice es (passo sfu json num e h) (passo-IsIndice e h v)

  pub novo_hub-IsIndice : (limite : ℕ) (o : Option S) → IsIndice (novo_hub limite o)
  unfolding novo_hub membros_de contem sala_de lookup
  novo_hub-IsIndice limite o = record {
    membro = λ id s e. cc;
    presente = λ id n. absurd (n refl);
    sem_nome = refl;
    ocupada = λ s e. cc;
    unicos = λ s. tt {0};
    limite = λ s. omega arith;
  }

  -- From a new hub, after any sequence of connections, messages, hang-ups, ping rounds and messages
  -- of the SFU, in any order: a room's map holds exactly the live participants whose own room it is,
  -- each once, never more than the limit; no empty room is kept, and no room has the empty name.
  pub executar-IsIndice :
      (limite : ℕ) (o : Option S) (es : List Evento)
      → IsIndice (executar sfu json num es (novo_hub limite o))
  executar-IsIndice limite o es =
      executa-IsIndice es (novo_hub limite o) (novo_hub-IsIndice limite o)
