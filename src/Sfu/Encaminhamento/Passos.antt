-- ===== src/Sfu/Encaminhamento/Passos.antt =====
-- src/sfu.go: what offers, subscriptions and the end of a track keep of a session.
use greenlabs_server.Comum.{
  ℕ, ◌≤◌, ◌≡◌, subst, refl, sym, ◌∙◌, Bool, true, false, not, ◌&&◌, ◌||◌, List, [], ◌∷◌, ◌++◌,
  if◌then◌else◌, if_cases, inl, inr, Option-cases, length, arith,
}
use greenlabs_server.Comum.Texto.{Texto, eq_texto, eq_texto_iff}
use greenlabs_server.Hub.{contem, incluir, remover}
use greenlabs_server.Hub.Indice.Conjunto.{contem-incluir, contem-remover}
use greenlabs_server.Sfu.{Faixa, Pion, Sessao}
use greenlabs_server.Sfu.Sessoes.{
  maximo_pendentes, assinar, fazer_oferta, oferecer, assinar_e_oferecer, tirar_saida,
}
use greenlabs_server.Sfu.Salas.{assinar_todas}
use greenlabs_server.Sfu.Encaminhamento.{LeisPion, oferecida, IsSessao, ainda_sa}

pub oferecida-append :
    (id peer : Texto) (fs : List Faixa) (f : Faixa)
    → oferecida id peer (fs ++ (f ∷ []))
      ≡ (oferecida id peer fs || (eq_texto f.id id && not (eq_texto f.dono peer)))
oferecida-append id peer [] f = ground arith
oferecida-append id peer (g ∷ fs) f = ground (arith, oferecida-append id peer fs f)

module _ {C : Type 0} (pion : Pion C) (leis : LeisPion pion) where
  -- A session that may owe an offer which is noted nowhere.
  pub record IsInscrita (peer : Texto) (fs : List Faixa) (se : Sessao C) : Type 0 where
    pub aberta : se.fechada ≡ false
    pub livre : se.oferecendo ≡ false
    pub dos_outros : (id : Texto) → contem id se.saidas ≡ true → oferecida id peer fs ≡ true
    pub em_dia :
        leis.falhou se.conexao ≡ false → (id : Texto) → contem id se.saidas ≡ oferecida id peer fs
    pub pendentes : length se.candidatos_pendentes ≤ maximo_pendentes

  fazer_oferta_estado :
      (se : Sessao C)
      → (fazer_oferta pion se).0
        ≡ record se { conexao = (pion.ofertar se.conexao).0; oferecendo = false }
  unfolding fazer_oferta
  fazer_oferta_estado se = ground arith

  -- oferecer pays what is owed, or notes it.
  pub oferecer-IsSessao :
      (peer : Texto) (fs : List Faixa) (se : Sessao C)
      → IsInscrita peer fs se
      → IsSessao pion leis peer fs (oferecer pion se).0
  unfolding oferecer
  oferecer-IsSessao peer fs se v =
      if_cases Boa se.fechada (λ t. absurd (ground (arith, v.aberta)))
        (λ _.
          if_cases Boa (se.oferecendo || not (pion.estavel se.conexao))
            (λ _. record {
              aberta = v.aberta;
              livre = v.livre;
              dos_outros = v.dos_outros;
              em_dia = v.em_dia;
              pendentes = v.pendentes;
              anunciada = λ _ e. cc;
            })
            (λ e.
              subst (IsSessao pion leis peer fs)
                (sym (fazer_oferta_estado (record se { oferecendo = true })))
                (record {
                  aberta = v.aberta;
                  livre = refl;
                  dos_outros = v.dos_outros;
                  em_dia = λ k. v.em_dia (ainda_sa (leis.oferta_mantem se.conexao) k);
                  pendentes = v.pendentes;
                  anunciada = λ k _. contada (ground arith) k;
                })))
    where
      Boa : Sessao C × List (List ℕ) × Bool → Type 0
      Boa r = IsSessao pion leis peer fs r.0

      contada :
          pion.estavel se.conexao ≡ true
          → leis.falhou (pion.ofertar se.conexao).0 ≡ false
          → leis.devendo (pion.ofertar se.conexao).0 ≡ false
      contada q k = elim (Option-cases (pion.ofertar se.conexao).1) [
        | inl e ↦ absurd (ground (arith, leis.oferta_falha se.conexao e, k))
        | inr (sdp, e) ↦ leis.oferta se.conexao sdp q e
      ]

  -- What a subscription leaves alone, and what it adds.
  abbrev pub Inscreveu : (Texto → Bool) → Sessao C → Sessao C → Type 0
  Inscreveu novas se se' =
      (se'.fechada ≡ se.fechada)
      × (se'.oferecendo ≡ se.oferecendo)
      × (se'.candidatos_pendentes ≡ se.candidatos_pendentes)
      × (leis.falhou se.conexao ≡ true → leis.falhou se'.conexao ≡ true)
      × ((id : Texto) → contem id se'.saidas ≡ true → (contem id se.saidas || novas id) ≡ true)
      × (leis.falhou se'.conexao ≡ false
          → (id : Texto) → contem id se'.saidas ≡ (contem id se.saidas || novas id))

  pub assinar-Inscreveu :
      (f : Faixa) (se : Sessao C)
      → se.fechada ≡ false
      → Inscreveu (λ id. eq_texto f.id id) se (assinar pion f se)
  unfolding assinar
  assinar-Inscreveu f se a =
      if_cases (Inscreveu (λ id. eq_texto f.id id) se) (se.fechada || contem f.id se.saidas)
        (λ t. (
          refl,
          refl,
          refl,
          λ k. k,
          λ id k. ground (arith, k),
          λ _ id. ground (arith, eq_texto_iff f.id id),
        ))
        (λ t. caso (pion.enviar_faixa f se.conexao) (leis.envia f se.conexao))
    where
      caso :
          (r : C × Bool)
          → ((leis.falhou se.conexao || not r.1) ≡ true → leis.falhou r.0 ≡ true)
          → Inscreveu
              (λ id. eq_texto f.id id)
              se
              (if r.1
                then record se { conexao = r.0; saidas = incluir f.id se.saidas }
                else record se { conexao = r.0 })
      caso (c, true) e =
          let soma : (id : Texto)
              → contem id (incluir f.id se.saidas) ≡ (contem id se.saidas || eq_texto f.id id) =
            λ id. contem-incluir f.id id se.saidas ∙ ground arith in
          (refl, refl, refl, λ k. e (ground (arith, k)), λ id k. sym (soma id) ∙ k, λ _. soma)
      caso (c, false) e = (
        refl,
        refl,
        refl,
        λ k. e (ground (arith, k)),
        λ id k. ground (arith, k),
        λ k. absurd (ground (arith, e (ground arith), k)),
      )

  -- One track more, of the participant itself or not, and then the rest.
  mais_uma-Inscreveu :
      (propria : Bool) (f : Faixa) (resto : Texto → Bool) (se se' : Sessao C)
      → se.fechada ≡ false
      → Inscreveu resto (if propria then se else assinar pion f se) se'
      → Inscreveu (λ id. (eq_texto f.id id && not propria) || resto id) se se'
  mais_uma-Inscreveu true f resto se se' a (b, c, d, m, l, e) =
      (b, c, d, m, λ id k. ground (arith, l id k), λ k id. ground (arith, e k id))
  mais_uma-Inscreveu false f resto se se' a (b, c, d, m, l, e) =
      let (b', c', d', m', l', e') = assinar-Inscreveu f se a in
      (
        b ∙ b',
        c ∙ c',
        d ∙ d',
        λ k. m (m' k),
        λ id k. ground (arith, l id k, l' id),
        λ k id. ground (arith, e k id, e' (ainda_sa m k) id),
      )

  ainda_aberta :
      (propria : Bool) (f : Faixa) (se : Sessao C)
      → se.fechada ≡ false
      → (if propria then se else assinar pion f se).fechada ≡ false
  ainda_aberta true f se a = a
  ainda_aberta false f se a = (assinar-Inscreveu f se a).0 ∙ a

  pub assinar_todas-Inscreveu :
      (peer : Texto) (fs : List Faixa) (se : Sessao C)
      → se.fechada ≡ false
      → Inscreveu (λ id. oferecida id peer fs) se (assinar_todas pion peer fs se)
  unfolding assinar_todas
  assinar_todas-Inscreveu peer [] se a =
      (refl, refl, refl, λ k. k, λ id k. ground (arith, k), λ _ id. ground arith)
  assinar_todas-Inscreveu peer (f ∷ fs) se a =
      let se1 = if eq_texto f.dono peer then se else assinar pion f se in
      mais_uma-Inscreveu (eq_texto f.dono peer) f (λ id. oferecida id peer fs) se
        (assinar_todas pion peer fs se1) a
        (assinar_todas-Inscreveu peer fs se1 (ainda_aberta (eq_texto f.dono peer) f se a))

  pub assinar_e_oferecer-IsSessao :
      (peer : Texto) (f : Faixa) (fs : List Faixa) (se : Sessao C)
      → eq_texto f.dono peer ≡ false
      → IsSessao pion leis peer fs se
      → IsSessao pion leis peer (fs ++ (f ∷ [])) (assinar_e_oferecer pion f se).0
  unfolding assinar_e_oferecer
  assinar_e_oferecer-IsSessao peer f fs se n v =
      let (b, c, d, m, l, e) = assinar-Inscreveu f se v.aberta in
      oferecer-IsSessao peer (fs ++ (f ∷ [])) (assinar pion f se) (record {
        aberta = b ∙ v.aberta;
        livre = c ∙ v.livre;
        dos_outros =
            λ id k. ground (arith, l id k, v.dos_outros id, oferecida-append id peer fs f, n);
        em_dia = λ k id.
            ground (arith, e k id, v.em_dia (ainda_sa m k) id, oferecida-append id peer fs f, n);
        pendentes = rw d v.pendentes;
      })

  -- The copy goes from the session and from what is on the air.
  pub tirar_saida-IsSessao :
      (peer : Texto) (f : Faixa) (fs gs : List Faixa) (se : Sessao C)
      → ((id : Texto)
          → oferecida id peer gs ≡ (if eq_texto f.id id then false else oferecida id peer fs))
      → IsSessao pion leis peer fs se
      → IsSessao pion leis peer gs (tirar_saida pion f se).0
  unfolding tirar_saida
  tirar_saida-IsSessao peer f fs gs se h v =
      let c = (pion.tirar f se.conexao).0 in
      let s1 : Sessao C = record se { saidas = remover f.id se.saidas; conexao = c } in
      let sai : (id : Texto) → contem id s1.saidas ≡ true → oferecida id peer gs ≡ true =
        λ id k. ground (arith, contem-remover f.id id se.saidas, k, v.dos_outros id, h id) in
      let sa : leis.falhou c ≡ false → leis.falhou se.conexao ≡ false =
        ainda_sa (leis.tira f se.conexao) in
      let dia : leis.falhou c ≡ false → (id : Texto) → contem id s1.saidas ≡ oferecida id peer gs =
        λ k id. contem-remover f.id id se.saidas ∙ ground (arith, v.em_dia (sa k) id, h id) in
      if_cases (λ (r : Sessao C × List (List ℕ)). IsSessao pion leis peer gs r.0)
        (pion.tirar f se.conexao).1
        (λ _. oferecer-IsSessao peer gs s1 (record {
          aberta = v.aberta;
          livre = v.livre;
          dos_outros = sai;
          em_dia = dia;
          pendentes = v.pendentes;
        }))
        (λ e. record {
          aberta = v.aberta;
          livre = v.livre;
          dos_outros = sai;
          em_dia = dia;
          pendentes = v.pendentes;
          anunciada = λ k q. leis.tira_nada f se.conexao e (v.anunciada (sa k) q);
        })
