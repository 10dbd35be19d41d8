-- ===== src/Hub/Midia/Ligada.antt =====
-- src/hub.go: the sessions of the SFU through entrar and Sair.
use greenlabs_server.Comum.{
  ◌≡◌, ◌≢◌, subst, refl, sym, ◌∙◌, true, false, ◌&&◌, ◌||◌, Option, none, some, List, [], ◌∷◌,
  if◌then◌else◌, if_cases, Bool-cases, inl, inr, leb, length, arith,
}
use greenlabs_server.Comum.Texto.{Texto, codes, eq_texto, eq_texto_iff, eq_texto_refl, vazio}
use greenlabs_server.Comum.Mapa.{lookup}
use greenlabs_server.Websocket.{rejeitar}
use greenlabs_server.Hub.{Peer, Hub, MensagemEntrada, Retransmissor, sala_de, tem_peer, membros_de}
use greenlabs_server.Hub.Operacoes.{sair, entrar, admitir, recusar, sala_pedida, nome_pedido}
use greenlabs_server.Hub.Indice.{IsIndice}
use greenlabs_server.Hub.Indice.Moldura.{Mesma, sala_de-mudar_peer}
use greenlabs_server.Hub.Indice.Sair.{sair-Saiu}
use greenlabs_server.Hub.Indice.Entrou.{sala_pedida-ne}
use greenlabs_server.Hub.Indice.Entrar.{nomeado, sala_de-nomeado, admitir-Mesma}
use greenlabs_server.Hub.Midia.{LeisRetransmissor, IsLigada, IsLigadaA}
use greenlabs_server.Hub.Midia.Parada.{sfu-mudar_peer}
use greenlabs_server.Hub.Midia.Passos.{sem_sessao, com_sessao, sfu-sair, sfu-admitir}

module _ {S : Type 0} (sfu : Retransmissor S) (leis : LeisRetransmissor sfu) where
  pub IsLigadaA-igual :
      (f g : Texto → Texto) (o : Option S)
      → ((y : Texto) → g y ≡ f y)
      → IsLigadaA sfu leis f o
      → IsLigadaA sfu leis g o
  IsLigadaA-igual f g none e w = tt
  IsLigadaA-igual f g (some s) e (a, b) = (a, λ x y k. let (c, d) = b x y k in (c, e y ∙ d))

  -- The rooms and the SFU are as before.
  pub IsLigada-Mesma :
      (h h' : Hub S) → Mesma h h' → h'.sfu ≡ h.sfu → IsLigada sfu leis h → IsLigada sfu leis h'
  IsLigada-Mesma h h' m e v =
      subst (IsLigadaA sfu leis (λ y. sala_de y h')) (sym e)
        (IsLigadaA-igual (λ y. sala_de y h) (λ y. sala_de y h') h.sfu m.2 v)

  -- One participant that is in no room goes into one, or stays where it is.
  muda_de_sala-IsLigada :
      (id r : Texto) (h h' : Hub S)
      → sala_de id h ≡ []
      → ((y : Texto) → sala_de y h' ≡ (if eq_texto id y then r else sala_de y h))
      → h'.sfu ≡ h.sfu
      → IsLigada sfu leis h
      → IsLigada sfu leis h'
  muda_de_sala-IsLigada id r h h' z m e v =
      subst (IsLigadaA sfu leis (λ y. sala_de y h')) (sym e) (caso h.sfu v)
    where
      caso :
          (o : Option S)
          → IsLigadaA sfu leis (λ y. sala_de y h) o
          → IsLigadaA sfu leis (λ y. sala_de y h') o
      caso none w = tt
      caso (some s) (a, b) =
          (a, λ x y k. let (c, d) = b x y k in (c, ground (arith, c, d, m y, z, eq_texto_iff id y)))

  pub sair-IsLigada :
      (id : Texto) (h : Hub S)
      → IsIndice h
      → IsLigada sfu leis h
      → IsLigada sfu leis (sair sfu id h)
  sair-IsLigada id h v w =
      subst (IsLigadaA sfu leis (λ y. sala_de y h')) (sym (sfu-sair sfu id h v)) (caso h.sfu w)
    where
      h' : Hub S
      h' = sair sfu id h

      onde : (y : Texto) → sala_de y h' ≡ (if eq_texto id y then [] else sala_de y h)
      onde = (sair-Saiu sfu id h v).0

      caso :
          (o : Option S)
          → IsLigadaA sfu leis (λ y. sala_de y h) o
          → IsLigadaA sfu leis
              (λ y. sala_de y h')
              (if vazio (sala_de id h) then o else sem_sessao sfu (sala_de id h) id o)
      caso none w =
          if_cases (IsLigadaA sfu leis (λ y. sala_de y h')) (vazio (sala_de id h)) (λ _. tt)
            (λ _. tt)
      caso (some s) (a, b) =
          if_cases (IsLigadaA sfu leis (λ y. sala_de y h')) (vazio (sala_de id h))
            (λ t. (
              a,
              λ x y k.
                  let (c, d) = b x y k in (c, ground (arith, c, d, t, onde y, eq_texto_iff id y)),
            ))
            (λ t. (
              leis.sai_valida (sala_de id h) id s a,
              λ x y k.
                  let q = leis.sai (sala_de id h) id x y s in
                  let (c, d) = b x y (ground (arith, q, k)) in
                  (
                    c,
                    ground (
                      arith,
                      c,
                      d,
                      q,
                      k,
                      onde y,
                      eq_texto_iff id y,
                      eq_texto_iff (sala_de id h) x,
                    ),
                  ),
            ))

  vazio-ne : (s : Texto) → s ≢ [] → vazio s ≡ false
  vazio-ne [] n = absurd (n refl)
  vazio-ne (c ∷ cs) n = refl

  -- The session that is opened is of a participant that is in that room already.
  com_sessao-IsLigadaA :
      (sala id : Texto) (onde : Texto → Texto) (o : Option S)
      → vazio sala ≡ false
      → onde id ≡ sala
      → IsLigadaA sfu leis onde o
      → IsLigadaA sfu leis onde (com_sessao sfu sala id o)
  com_sessao-IsLigadaA sala id onde none n e w = tt
  com_sessao-IsLigadaA sala id onde (some s) n e (a, b) =
      (leis.entra_valida sala id s a, λ x y k. caso x y (leis.entra sala id x y s k))
    where
      caso :
          (x y : Texto)
          → ((eq_texto sala x && eq_texto id y) || leis.tem_sessao x y s) ≡ true
          → (vazio x ≡ false) × (onde y ≡ x)
      caso x y k = elim (Bool-cases (eq_texto sala x && eq_texto id y)) [
        | inl t ↦
            let p : sala ≡ x = (eq_texto_iff sala x).0 (ground arith) in
            let q : id ≡ y = (eq_texto_iff id y).0 (ground arith) in (rw p at n, rw⁻¹ q (e ∙ p))
        | inr t ↦ b x y (ground arith)
      ]

  pub entrar-IsLigada :
      (id : Texto) (m : MensagemEntrada) (h : Hub S)
      → IsIndice h
      → tem_peer id h ≡ true
      → IsLigada sfu leis h
      → IsLigada sfu leis (entrar sfu id m h)
  unfolding entrar
  entrar-IsLigada id m h v t w =
      if_cases (IsLigada sfu leis) (leb h1.limite_por_sala (length (membros_de sala h1)))
        (λ _. recusada) (λ _. admitida)
    where
      sala : Texto
      sala = sala_pedida m.sala

      h0 : Hub S
      h0 = sair sfu id h

      h1 : Hub S
      h1 = nomeado sfu id sala (nome_pedido m.nome) h0

      sem_sala : sala_de id h0 ≡ []
      sem_sala = (sair-Saiu sfu id h v).0 id ∙ rw (eq_texto_refl id)

      ativo : tem_peer id h0 ≡ true
      ativo = (sair-Saiu sfu id h v).4 id ∙ t

      onde : (y : Texto) → sala_de y h1 ≡ (if eq_texto id y then sala else sala_de y h0)
      onde y = sala_de-nomeado sfu id sala (nome_pedido m.nome) y h0 ativo

      mesmo : h1.sfu ≡ h0.sfu
      mesmo = sfu-mudar_peer id (λ p. record p { sala = sala; nome = nome_pedido m.nome }) h0

      w1 : IsLigada sfu leis h1
      w1 = muda_de_sala-IsLigada id sala h0 h1 sem_sala onde mesmo (sair-IsLigada id h v w)

      recusada : IsLigada sfu leis (recusar sfu id h1)
      recusada =
          muda_de_sala-IsLigada id [] h0 (recusar sfu id h1) sem_sala
            (λ y.
              unfold recusar in
              sala_de-mudar_peer id y
                (λ p. record p { sala = []; conexao = rejeitar (codes "Sala cheia") p.conexao }) h1
              ∙ nada y (lookup id h1.peers))
            (unfold recusar in
              sfu-mudar_peer id
                (λ p. record p { sala = []; conexao = rejeitar (codes "Sala cheia") p.conexao }) h1
              ∙ mesmo)
            (sair-IsLigada id h v w)
        where
          nada :
              (y : Texto) (o : Option Peer)
              → (if eq_texto id y then elim o [ none ↦ [] | some p ↦ [] ] else sala_de y h1)
                ≡ (if eq_texto id y then [] else sala_de y h0)
          nada y none = ground (arith, onde y)
          nada y (some p) = ground (arith, onde y)

      admitida :
          IsLigada sfu leis (admitir sfu id sala (nome_pedido m.nome) (membros_de sala h1) h1)
      admitida =
          subst (IsLigadaA sfu leis (λ y. sala_de y h2))
            (sym (sfu-admitir sfu id sala (nome_pedido m.nome) ms h1))
            (com_sessao-IsLigadaA sala id (λ y. sala_de y h2) h1.sfu
              (vazio-ne sala (sala_pedida-ne m.sala)) (iguais id ∙ onde id ∙ rw (eq_texto_refl id))
              (IsLigadaA-igual (λ y. sala_de y h1) (λ y. sala_de y h2) h1.sfu iguais w1))
        where
          ms : List Texto
          ms = membros_de sala h1

          h2 : Hub S
          h2 = admitir sfu id sala (nome_pedido m.nome) ms h1

          iguais : (y : Texto) → sala_de y h2 ≡ sala_de y h1
          iguais y =
              (admitir-Mesma sfu id sala (nome_pedido m.nome) ms h1).2 y ∙ (unfold sala_de in refl)
