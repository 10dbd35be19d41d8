-- ===== src/Sfu/Chamada/Execucao.antt =====
-- src/hub.go with src/sfu.go: runs of the hub and its SFU together.
use greenlabs_server.Comum.{
  ℕ, ◌≡◌, subst, ap, Bool, true, false, ◌&&◌, Option, none, some, List, [], ◌∷◌, arith,
}
use greenlabs_server.Comum.Texto.{Texto, vazio}
use greenlabs_server.Comum.Mapa.{lookup}
use greenlabs_server.Hub.{Hub, Json, Reais, novo_hub, sala_de, membros_de, contem}
use greenlabs_server.Hub.Operacoes.{com_estado}
use greenlabs_server.Hub.Indice.{IsIndice}
use greenlabs_server.Hub.Indice.Moldura.{IsIndice-Mesma}
use greenlabs_server.Hub.Indice.Repasse.{com_estado-Mesma}
use greenlabs_server.Hub.Indice.Execucao as HubExecucao
use greenlabs_server.Hub.Midia.{IsLigada, IsLigadaA}
use greenlabs_server.Hub.Midia.Repasse.{com_estado-IsLigada}
use greenlabs_server.Hub.Midia.Execucao.{passo-IsLigada}
use greenlabs_server.Sfu.{Pion, Sessao, Sfu, novo_sfu, sessoes_de, sessao_de, faixas_de}
use greenlabs_server.Sfu.Ocorrencias.{Ocorrencia, ocorrer}
use greenlabs_server.Sfu.Encaminhamento.{LeisPion, IsSessao, IsTalvez}
use greenlabs_server.Sfu.Encaminhamento.Execucao.{coerente_em, ocorrer-IsSfu, novo_sfu-IsSfu}
use greenlabs_server.Sfu.Chamada.Sessoes.{tem_sessao, ha}
use greenlabs_server.Sfu.Chamada.Ocorrencias.{ocorrer-SemNova}
use greenlabs_server.Sfu.Chamada.Retransmissor.{retransmissor, leis_do_retransmissor}

-- An event of the hub, or one of the media whose messages the hub sends on.
pub data Acontecimento : Type 0 where
  do_hub : HubExecucao.Evento → Acontecimento
  da_midia : Ocorrencia → Acontecimento

module _ {C : Type 0} {F : Type 0} (pion : Pion C) (json : Json) (num : Reais F) where
  unfoldable pub passo : Acontecimento → Hub (Sfu C) → Hub (Sfu C)
  passo (do_hub e) h = HubExecucao.passo (retransmissor pion) json num e h
  passo (da_midia o) h = elim h.sfu [
    | none ↦ h
    | some s ↦ com_estado (retransmissor pion) json h (ocorrer pion o s)
  ]

  unfoldable pub executar : List Acontecimento → Hub (Sfu C) → Hub (Sfu C)
  unfolding passo
  executar [] h = h
  executar (a ∷ es) h = executar es (passo a h)

  -- A track that ends is coherent with those on the air.
  abbrev pub e_coerente : Acontecimento → Hub (Sfu C) → Bool
  e_coerente (do_hub e) h = true
  e_coerente (da_midia o) h = elim h.sfu [ none ↦ true | some s ↦ coerente_em o s ]

  unfoldable pub coerentes : List Acontecimento → Hub (Sfu C) → Bool
  unfolding passo
  coerentes [] h = true
  coerentes (a ∷ es) h = e_coerente a h && coerentes es (passo a h)

module _ {C : Type 0} {F : Type 0} (pion : Pion C) (leis : LeisPion pion) (json : Json)
    (num : Reais F) where
  abbrev IsLigadaAqui : Hub (Sfu C) → Type 0
  IsLigadaAqui h = IsLigada (retransmissor pion) (leis_do_retransmissor pion leis) h

  passo-IsIndice :
      (a : Acontecimento) (h : Hub (Sfu C)) → IsIndice h → IsIndice (passo pion json num a h)
  unfolding passo
  passo-IsIndice (do_hub e) h v = HubExecucao.passo-IsIndice (retransmissor pion) json num e h v
  passo-IsIndice (da_midia o) h v = caso h.sfu
    where
      caso :
          (q : Option (Sfu C))
          → IsIndice (elim q [
            | none ↦ h
            | some s ↦ com_estado (retransmissor pion) json h (ocorrer pion o s)
          ])
      caso none = v
      caso (some s) =
          IsIndice-Mesma h (com_estado (retransmissor pion) json h (ocorrer pion o s))
            (com_estado-Mesma (retransmissor pion) json h (ocorrer pion o s)) v

  passo-IsLigadaAqui :
      (a : Acontecimento) (h : Hub (Sfu C))
      → e_coerente pion json num a h ≡ true
      → IsIndice h
      → IsLigadaAqui h
      → IsLigadaAqui (passo pion json num a h)
  unfolding passo
  passo-IsLigadaAqui (do_hub e) h k v w =
      passo-IsLigada (retransmissor pion) (leis_do_retransmissor pion leis) json num e h v w
  passo-IsLigadaAqui (da_midia o) h k v w = caso h.sfu k w
    where
      caso :
          (q : Option (Sfu C))
          → ◌≡◌ {A = Bool} (elim q [ none ↦ true | some s ↦ coerente_em o s ]) true
          → IsLigadaA (retransmissor pion) (leis_do_retransmissor pion leis) (λ y. sala_de y h) q
          → IsLigadaAqui (elim q [
            | none ↦ h
            | some s ↦ com_estado (retransmissor pion) json h (ocorrer pion o s)
          ])
      caso none k u = w
      caso (some s) k (a, b) =
          com_estado-IsLigada (retransmissor pion) (leis_do_retransmissor pion leis) json h s
            (ocorrer pion o s) (ocorrer-SemNova pion o s) (ocorrer-IsSfu pion leis o s k) (a, b)

  executar-Ligada :
      (es : List Acontecimento) (h : Hub (Sfu C))
      → coerentes pion json num es h ≡ true
      → IsIndice h
      → IsLigadaAqui h
      → IsIndice (executar pion json num es h) × IsLigadaAqui (executar pion json num es h)
  unfolding executar coerentes
  executar-Ligada [] h k v w = (v, w)
  executar-Ligada (a ∷ es) h k v w =
      executar-Ligada es (passo pion json num a h) (ground arith) (passo-IsIndice a h v)
        (passo-IsLigadaAqui a h (ground arith) v w)

  -- From a new hub with a new server of media, over a Pion that keeps its laws, after any sequence of
  -- events of both in which a track that ends shares neither its pointer nor its id with another on
  -- the air: a participant has a session in a room only if it is one of those of that room in the hub,
  -- and the session is open, no offer is being made in it, it is sent no track but those of the others
  -- in the room and keeps at most 256 candidates waiting; and as long as neither adding a transceiver
  -- nor an offer has failed on its connection it is sent all of those tracks and, unless a
  -- renegotiation is noted, has offered all that it sends.
  pub executar-IsChamada :
      (limite : ℕ) (es : List Acontecimento) (sala peer : Texto) (s : Sfu C) (se : Sessao C)
      → coerentes pion json num es (novo_hub limite (some novo_sfu)) ≡ true
      → (executar pion json num es (novo_hub limite (some novo_sfu))).sfu ≡ some s
      → sessao_de sala peer s ≡ some se
      → (contem peer (membros_de sala (executar pion json num es (novo_hub limite (some novo_sfu))))
          ≡ true)
        × IsSessao pion leis peer (faixas_de sala s) se
  unfolding novo_hub
  executar-IsChamada limite es sala peer s se k q e =
      let h0 : Hub (Sfu C) = novo_hub limite (some novo_sfu) in
      let (v, w) =
        executar-Ligada es h0 k
          (HubExecucao.novo_hub-IsIndice (retransmissor pion) json num limite (some novo_sfu))
          (novo_sfu-IsSfu pion leis, nenhuma) in
      let (a, b) =
        subst
          (IsLigadaA (retransmissor pion) (leis_do_retransmissor pion leis)
            (λ y. sala_de y (executar pion json num es h0)))
          q w in
      let (c, d) = b sala peer (ap ha e) in
      (
        na_sala (executar pion json num es h0) v c d,
        subst (IsTalvez pion leis peer (faixas_de sala s)) e (a sala peer),
      )
    where
      nenhuma :
          (x y : Texto)
          → tem_sessao x y (novo_sfu {C = C}) ≡ true
          → (vazio x ≡ false) × (sala_de y (novo_hub limite (some (novo_sfu {C = C}))) ≡ x)
      nenhuma x y k = absurd (unfold novo_sfu sessao_de sessoes_de lookup in cc)

      na_sala :
          (h : Hub (Sfu C))
          → IsIndice h
          → vazio sala ≡ false
          → sala_de peer h ≡ sala
          → contem peer (membros_de sala h) ≡ true
      na_sala h v c d =
          subst (λ (z : Texto). contem peer (membros_de z h) ≡ true) d
            (v.presente peer (λ z. ground (arith, z, d, c)))
