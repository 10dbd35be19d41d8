-- ===== src/Hub/Indice/Moldura.antt =====
-- src/hub.go: what a write through a pointer, a message sent and a mark leave of the rooms.
use greenlabs_server.Comum.{
  ℕ, ◌≡◌, refl, sym, ap, ◌∙◌, true, Option, none, some, List, [], ◌∷◌, if◌then◌else◌, arith,
  Option-cases, Bool-cases, inl, inr,
}
use greenlabs_server.Comum.Texto.{Texto, eq_texto, eq_texto_iff}
use greenlabs_server.Comum.Mapa.{lookup, insert, erase, lookup-insert, lookup-erase}
use greenlabs_server.Websocket.{enviar_texto}
use greenlabs_server.Hub.{
  Peer, Hub, mudar_peer, sala_de, tem_peer, membros_de, enviar, enviar_a_todos, enviar_todas,
  marcar_pings,
}
use greenlabs_server.Hub.Indice.{IsIndice}

abbrev pub sala_do : Option Peer → Texto
sala_do o = elim o [ none ↦ [] | some p ↦ p.sala ]

module _ {S : Type 0} where
  -- The rooms, the limit and everybody's own room are as before.
  abbrev pub Mesma : Hub S → Hub S → Type 0
  Mesma h h' =
      (h'.salas ≡ h.salas)
      × (h'.limite_por_sala ≡ h.limite_por_sala)
      × ((x : Texto) → sala_de x h' ≡ sala_de x h)
      × ((x : Texto) → tem_peer x h' ≡ tem_peer x h)

  pub Mesma-refl : (h : Hub S) → Mesma h h
  Mesma-refl h = (refl, refl, λ x. refl, λ x. refl)

  pub Mesma-trans : (h h' h'' : Hub S) → Mesma h h' → Mesma h' h'' → Mesma h h''
  Mesma-trans h h' h'' (a, b, c, d) (a', b', c', d') =
      (a' ∙ a, b' ∙ b, λ x. c' x ∙ c x, λ x. d' x ∙ d x)

  pub sala_de-mudar_peer :
      (id x : Texto) (f : Peer → Peer) (h : Hub S)
      → sala_de x (mudar_peer id f h) ≡ (
          if eq_texto id x
          then elim (lookup id h.peers) [ none ↦ [] | some p ↦ (f p).sala ]
          else sala_de x h)
  unfolding sala_de mudar_peer
  sala_de-mudar_peer id x f h = elim (Option-cases (lookup id h.peers)) [
    | inl e ↦
        let c : eq_texto id x ≡ true → lookup x h.peers ≡ none =
          λ t. ap (λ (y : Texto). lookup y h.peers) (sym ((eq_texto_iff id x).0 t)) ∙ e in
        elim (Bool-cases (eq_texto id x)) [ inl t ↦ ground (arith, c t) | inr t ↦ ground arith ]
    | inr (p, e) ↦ ground (arith, lookup-insert id x (f p) h.peers, eq_texto_iff id x)
  ]

  pub salas-mudar_peer :
      (id : Texto) (f : Peer → Peer) (h : Hub S)
      → ((mudar_peer id f h).salas ≡ h.salas)
        × ((mudar_peer id f h).limite_por_sala ≡ h.limite_por_sala)
  unfolding mudar_peer
  salas-mudar_peer id f h = ground arith

  pub tem_peer-mudar_peer :
      (id x : Texto) (f : Peer → Peer) (h : Hub S) → tem_peer x (mudar_peer id f h) ≡ tem_peer x h
  unfolding tem_peer mudar_peer
  tem_peer-mudar_peer id x f h = elim (Option-cases (lookup id h.peers)) [
    | inl e ↦ ground arith
    | inr (p, e) ↦
        let c : eq_texto id x ≡ true → lookup x h.peers ≡ some p =
          λ t. ap (λ (y : Texto). lookup y h.peers) (sym ((eq_texto_iff id x).0 t)) ∙ e in
        elim (Bool-cases (eq_texto id x)) [
          | inl t ↦ ground (arith, c t, lookup-insert id x (f p) h.peers)
          | inr t ↦ ground (arith, lookup-insert id x (f p) h.peers)
        ]
  ]

  -- A write that leaves the peer's room alone.
  pub mudar_peer-Mesma :
      (id : Texto) (f : Peer → Peer) (h : Hub S)
      → ((p : Peer) → (f p).sala ≡ p.sala)
      → Mesma h (mudar_peer id f h)
  mudar_peer-Mesma id f h k =
      let (a, b) = salas-mudar_peer id f h in
      (a, b, λ x. sala_de-mudar_peer id x f h ∙ igual x, λ x. tem_peer-mudar_peer id x f h)
    where
      igual :
          (x : Texto)
          → (if eq_texto id x
              then elim (lookup id h.peers) [ none ↦ [] | some p ↦ (f p).sala ]
              else sala_de x h)
            ≡ sala_de x h
      igual x = elim (Bool-cases (eq_texto id x)) [
        | inl t ↦ rw (t, ← (eq_texto_iff id x).0 t) (unfold sala_de in antes (lookup id h.peers))
        | inr t ↦ rw t
      ]
        where
          antes :
              (o : Option Peer)
              → ◌≡◌ {A = Texto}
                  (elim o [ none ↦ [] | some p ↦ (f p).sala ])
                  (elim o [ none ↦ [] | some p ↦ p.sala ])
          antes none = refl
          antes (some p) = k p

  pub enviar-Mesma : (d : List ℕ) (id : Texto) (h : Hub S) → Mesma h (enviar d id h)
  unfolding enviar
  enviar-Mesma d id h =
      mudar_peer-Mesma id (λ p. record p { conexao = (enviar_texto d p.conexao).0 }) h (λ p. refl)

  pub enviar_a_todos-Mesma :
      (d : List ℕ) (ids : List Texto) (h : Hub S) → Mesma h (enviar_a_todos d ids h)
  unfolding enviar_a_todos
  enviar_a_todos-Mesma d [] h = Mesma-refl h
  enviar_a_todos-Mesma d (id ∷ ids) h =
      Mesma-trans h (enviar d id h) _ (enviar-Mesma d id h)
        (enviar_a_todos-Mesma d ids (enviar d id h))

  pub enviar_todas-Mesma :
      (ds : List (List ℕ)) (id : Texto) (h : Hub S) → Mesma h (enviar_todas ds id h)
  unfolding enviar_todas
  enviar_todas-Mesma [] id h = Mesma-refl h
  enviar_todas-Mesma (d ∷ ds) id h =
      Mesma-trans h (enviar d id h) _ (enviar-Mesma d id h)
        (enviar_todas-Mesma ds id (enviar d id h))

  pub marcar_pings-Mesma : (s : Texto) (h : Hub S) → Mesma h (marcar_pings s h)
  unfolding marcar_pings sala_de tem_peer
  marcar_pings-Mesma s h = (refl, refl, λ x. refl, λ x. refl)

  pub membros_de-Mesma : (s : Texto) (h h' : Hub S) → Mesma h h' → membros_de s h' ≡ membros_de s h
  unfolding membros_de
  membros_de-Mesma s h h' (a, _, _, _) = rw a

  -- What shows the same rooms has the same invariant.
  pub IsIndice-Mesma : (h h' : Hub S) → Mesma h h' → IsIndice h → IsIndice h'
  IsIndice-Mesma h h' m v = record {
    membro = λ id s c. m.2 id ∙ v.membro id s (rw (membros_de-Mesma s h h' m) at c);
    presente = λ id n.
        rw (m.2 id, membros_de-Mesma (sala_de id h) h h' m) (v.presente id (λ e. n (m.2 id ∙ e)));
    sem_nome = membros_de-Mesma [] h h' m ∙ v.sem_nome;
    ocupada = λ s e. v.ocupada s (rw m.0 at e);
    unicos = λ s. rw (membros_de-Mesma s h h' m) (v.unicos s);
    limite = λ s. rw (membros_de-Mesma s h h' m, m.1) (v.limite s);
  }

  -- The room's entry written, or taken out.
  pub membros_de-insert :
      (k s : Texto) (ms : List Texto) (h : Hub S)
      → membros_de s (record h { salas = insert k ms h.salas })
        ≡ (if eq_texto k s then ms else membros_de s h)
  unfolding membros_de
  membros_de-insert k s ms h = ground (arith, lookup-insert k s ms h.salas)

  pub membros_de-erase :
      (k s : Texto) (h : Hub S)
      → membros_de s (record h { salas = erase k h.salas })
        ≡ (if eq_texto k s then [] else membros_de s h)
  unfolding membros_de
  membros_de-erase k s h = ground (arith, lookup-erase k s h.salas)

  pub membros_de-some :
      (s : Texto) (ms : List Texto) (h : Hub S) → lookup s h.salas ≡ some ms → membros_de s h ≡ ms
  unfolding membros_de
  membros_de-some s ms h e = ground arith

  pub membros_de-none : (s : Texto) (h : Hub S) → lookup s h.salas ≡ none → membros_de s h ≡ []
  unfolding membros_de
  membros_de-none s h e = ground arith
