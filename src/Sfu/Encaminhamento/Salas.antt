-- ===== src/Sfu/Encaminhamento/Salas.antt =====
-- src/sfu.go: what the calls of the hub, and a track that comes or goes, keep of every session.
use greenlabs_server.Comum.{
  ℕ, ◌≡◌, subst, ◌+◌, refl, Bool, true, false, not, ◌||◌, Option, none, some, List, [], ◌∷◌, ◌++◌,
  if◌then◌else◌, if_cases, inl, inr, arith,
}
use greenlabs_server.Comum.Texto.{Texto, codes, eq_texto, eq_texto_iff, vazio}
use greenlabs_server.Hub.{contem}
use greenlabs_server.Sfu.{
  Candidato, Origem, Faixa, Pion, Sessao, Sfu, sessoes_de, sessao_de, sessoes_de, faixas_de,
}
use greenlabs_server.Sfu.Sessoes.{
  nova_sessao, assinar_e_oferecer, tirar_saida, descrever_sessao, guardar_candidato, oferecer,
}
use greenlabs_server.Sfu.Salas.{
  criar_faixa, tem_outros, sem_faixa, na_sala, assinar_todas, entrar, publicar, remover_faixa,
  descricao, candidato, sair, guardar, Enviadas, para_peer,
}
use greenlabs_server.Sfu.Chaves.{Estado, conectada, falhou, fechou, intermediario, mudou_estado}
use greenlabs_server.Sfu.Encaminhamento.{LeisPion, oferecida, IsSessao, IsTalvez, IsSfu}
use greenlabs_server.Sfu.Encaminhamento.Passos.{
  IsInscrita, oferecida-append, assinar_todas-Inscreveu, oferecer-IsSessao,
  assinar_e_oferecer-IsSessao, tirar_saida-IsSessao,
}
use greenlabs_server.Sfu.Encaminhamento.Descricoes.{
  descrever_sessao-IsSessao, guardar_candidato-IsSessao,
}
use greenlabs_server.Sfu.Encaminhamento.Busca.{
  coerente, oferecida-sem_faixa, oferecida-sem_faixa_dono, mudada, sessao_de-na_sala,
  faixas_de-na_sala, com_faixas, sessao_de-com_faixas, faixas_de-com_faixas, sair-cases,
}
use greenlabs_server.Sfu.Encaminhamento.Chaves.{
  insistir_na_chave-IsSfu, IsTalvez-mesmas, guardar-IsSfu, pedir_chave_de_tudo-IsSfu,
}

module _ {C : Type 0} (pion : Pion C) (leis : LeisPion pion) where
  pub entrar-IsSfu :
      (sala peer : Texto) (s : Sfu C)
      → IsSfu pion leis s
      → IsSfu pion leis (entrar pion sala peer s).0
  unfolding entrar nova_sessao contem
  entrar-IsSfu sala peer s v = caso pion.nova
    where
      nova : C → Sessao C
      nova c = assinar_todas pion peer (faixas_de sala s) (nova_sessao peer c)

      nova-IsInscrita : (c : C) → IsInscrita pion leis peer (faixas_de sala s) (nova c)
      nova-IsInscrita c =
          let (a, b, d, m, l, e) =
            assinar_todas-Inscreveu pion leis peer (faixas_de sala s) (nova_sessao peer c) refl in
          record {
            aberta = a;
            livre = b;
            dos_outros = λ id k. ground (arith, l id k);
            em_dia = λ k id. e k id;
            pendentes = rw d (ground arith);
          }

      caso :
          (o : Option C)
          → let r : Sfu C × List (List ℕ) × Bool = elim o [
            | none ↦ (s, [], false)
            | some c ↦
                (let (se, ms, certo) = oferecer pion (nova c) in
                  (guardar sala peer se s, ms, certo))
          ] in
            IsSfu pion leis r.0
      caso none = v
      caso (some c) =
          guardar-IsSfu pion leis sala peer (oferecer pion (nova c)).0 s
            (oferecer-IsSessao pion leis peer (faixas_de sala s) (nova c) (nova-IsInscrita c)) v

  -- What is done to each session but the publisher's, over other tracks of the room.
  na_sala-IsSfu :
      (sala dono : Texto) (g : Sessao C → Sessao C × List (List ℕ)) (gs : List Faixa) (n : ℕ)
      (s : Sfu C)
      → ((y id : Texto)
          → eq_texto y dono ≡ true
          → oferecida id y gs ≡ oferecida id y (faixas_de sala s))
      → ((y : Texto) (se : Sessao C)
          → eq_texto y dono ≡ false
          → IsSessao pion leis y (faixas_de sala s) se
          → IsSessao pion leis y gs (g se).0)
      → IsSfu pion leis s
      → IsSfu pion leis (na_sala sala dono g (com_faixas sala gs n s)).0
  na_sala-IsSfu sala dono g gs n s hd hg v x y =
      rw
        (
          sessao_de-na_sala sala dono x y g (com_faixas sala gs n s),
          faixas_de-na_sala sala dono x g (com_faixas sala gs n s),
          sessao_de-com_faixas sala x y gs n s,
          faixas_de-com_faixas sala x gs n s,
        )
        (fora (eq_texto sala x) (λ t. (eq_texto_iff sala x).0 t))
    where
      dentro :
          (o : Option (Sessao C))
          → IsTalvez pion leis y (faixas_de sala s) o
          → IsTalvez pion leis y gs (mudada dono g y o)
      dentro none w = tt
      dentro (some se) w =
          if_cases (IsTalvez pion leis y gs) (eq_texto y dono)
            (λ t. IsTalvez-mesmas pion leis y (faixas_de sala s) gs (some se) (λ id. hd y id t) w)
            (λ t. hg y se t w)

      fora :
          (b : Bool)
          → (b ≡ true → sala ≡ x)
          → IsTalvez pion leis y
              (if b then gs else faixas_de x s)
              (if b then mudada dono g y (sessao_de x y s) else sessao_de x y s)
      fora true e =
          subst (λ (z : Texto). IsTalvez pion leis y gs (mudada dono g y (sessao_de z y s)))
            (e refl) (dentro (sessao_de sala y s) (v sala y))
      fora false e = v x y

  pub publicar-IsSfu :
      (sala dono : Texto) (o : Origem) (s : Sfu C)
      → IsSfu pion leis s
      → IsSfu pion leis (publicar pion sala dono o s).0
  unfolding publicar criar_faixa
  publicar-IsSfu sala dono o s v =
      let f = criar_faixa sala dono o s.proximo_numero in
      let fs = faixas_de sala s in
      let s2 : Sfu C =
        (na_sala sala dono (assinar_e_oferecer pion f)
          (com_faixas sala (fs ++ (f ∷ [])) (s.proximo_numero + 1) s)).0 in
      let w : IsSfu pion leis s2 =
        na_sala-IsSfu sala dono (assinar_e_oferecer pion f) (fs ++ (f ∷ [])) (s.proximo_numero + 1)
          s
          (λ y id t.
            ground (arith, oferecida-append id y fs f, eq_texto_iff y dono, eq_texto_iff dono y))
          (λ y se n w.
            assinar_e_oferecer-IsSessao pion leis y f fs se
              (ground (arith, eq_texto_iff y dono, eq_texto_iff dono y)) w)
          v in
      if_cases (λ (r : Sfu C × Enviadas). IsSfu pion leis r.0) (not (pion.copiar f)) (λ _. v)
        (λ _.
          if_cases (IsSfu pion leis) (tem_outros dono (sessoes_de sala s))
            (λ _. insistir_na_chave-IsSfu pion leis sala f s2 w) (λ _. w))

  pub remover_faixa-IsSfu :
      (f : Faixa) (s : Sfu C)
      → coerente f (faixas_de f.sala s) ≡ true
      → IsSfu pion leis s
      → IsSfu pion leis (remover_faixa pion f s).0
  unfolding remover_faixa
  remover_faixa-IsSfu f s k v =
      let fs = faixas_de f.sala s in
      na_sala-IsSfu f.sala f.dono (tirar_saida pion f) (sem_faixa f.numero fs) s.proximo_numero s
        (λ y id t. oferecida-sem_faixa_dono f fs id y k t)
        (λ y se n w.
          tirar_saida-IsSessao pion leis y f fs (sem_faixa f.numero fs) se
            (λ id. oferecida-sem_faixa f fs id y k n) w)
        v

  pub descricao-IsSfu :
      (sala peer tipo sdp : Texto) (s : Sfu C)
      → IsSfu pion leis s
      → IsSfu pion leis (descricao pion sala peer tipo sdp s).0
  unfolding descricao
  descricao-IsSfu sala peer tipo sdp s v = caso (sessao_de sala peer s) (v sala peer)
    where
      r : Bool
      r = eq_texto tipo (codes "answer")

      caso :
          (o : Option (Sessao C))
          → IsTalvez pion leis peer (faixas_de sala s) o
          → let q : Sfu C × Enviadas = elim o [
            | none ↦ (s, [])
            | some se ↦
                if r || eq_texto tipo (codes "offer")
                then (let (se', ms) = descrever_sessao pion r sdp se in
                    (guardar sala peer se' s, para_peer peer ms))
                else (s, [])
          ] in
            IsSfu pion leis q.0
      caso none w = v
      caso (some se) w =
          if_cases (λ (q : Sfu C × Enviadas). IsSfu pion leis q.0)
            (r || eq_texto tipo (codes "offer"))
            (λ _.
              guardar-IsSfu pion leis sala peer (descrever_sessao pion r sdp se).0 s
                (descrever_sessao-IsSessao pion leis r sdp peer (faixas_de sala s) se w) v)
            (λ _. v)

  pub candidato-IsSfu :
      (sala peer texto mid : Texto) (s : Sfu C)
      → IsSfu pion leis s
      → IsSfu pion leis (candidato pion sala peer texto mid s).0
  unfolding candidato
  candidato-IsSfu sala peer texto mid s v = caso (sessao_de sala peer s) (v sala peer)
    where
      x : Candidato
      x = record { candidato = texto; mid = some mid; indice = some 0 }

      caso :
          (o : Option (Sessao C))
          → IsTalvez pion leis peer (faixas_de sala s) o
          → let q : Sfu C × Enviadas = elim o [
            | none ↦ (s, [])
            | some se ↦
                if vazio texto
                then (s, [])
                else (guardar sala peer (guardar_candidato pion x se) s, [])
          ] in
            IsSfu pion leis q.0
      caso none w = v
      caso (some se) w =
          if_cases (λ (q : Sfu C × Enviadas). IsSfu pion leis q.0) (vazio texto) (λ _. v)
            (λ _.
              guardar-IsSfu pion leis sala peer (guardar_candidato pion x se) s
                (guardar_candidato-IsSessao pion leis x peer (faixas_de sala s) se w) v)

  pub sair-IsSfu :
      (sala peer : Texto) (s : Sfu C)
      → IsSfu pion leis s
      → IsSfu pion leis (sair pion sala peer s).0
  sair-IsSfu sala peer s v x y = elim (sair-cases pion sala peer x y s) [
    | inl e ↦ rw e tt
    | inr (e, h) ↦ rw (e, h) (v x y)
  ]

  pub mudou_estado-IsSfu :
      (sala peer : Texto) (e : Estado) (s : Sfu C)
      → IsSfu pion leis s
      → IsSfu pion leis (mudou_estado pion sala peer e s)
  unfolding mudou_estado
  mudou_estado-IsSfu sala peer conectada s v = pedir_chave_de_tudo-IsSfu pion leis sala peer s v
  mudou_estado-IsSfu sala peer falhou s v = sair-IsSfu sala peer s v
  mudou_estado-IsSfu sala peer fechou s v = sair-IsSfu sala peer s v
  mudou_estado-IsSfu sala peer intermediario s v = v
