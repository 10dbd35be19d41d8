-- ===== src/Sfu/Chamada/Retransmissor.antt =====
-- src/hub.go with src/sfu.go: the SFU is a retransmitter such as the hub relies on.
use greenlabs_server.Comum.{
  ℕ, ◌≡◌, refl, Bool, true, false, ◌&&◌, ◌||◌, Option, none, some, List, [], if◌then◌else◌,
  if_cases, arith,
}
use greenlabs_server.Comum.Texto.{Texto, codes, eq_texto, vazio}
use greenlabs_server.Sfu.{Candidato, Pion, Sessao, Sfu, sessao_de, faixas_de}
use greenlabs_server.Sfu.Sessoes.{nova_sessao, oferecer, descrever_sessao, guardar_candidato}
use greenlabs_server.Sfu.Salas.{
  Enviadas, para_peer, guardar, assinar_todas, entrar, descricao, candidato, sair,
}
use greenlabs_server.Hub.{Retransmissor}
use greenlabs_server.Hub.Midia.{LeisRetransmissor}
use greenlabs_server.Sfu.Encaminhamento.{LeisPion, IsSfu}
use greenlabs_server.Sfu.Encaminhamento.Salas.{
  entrar-IsSfu, sair-IsSfu, descricao-IsSfu, candidato-IsSfu,
}
use greenlabs_server.Sfu.Chamada.Ocorrencias.{sair-tem_sessao}
use greenlabs_server.Sfu.Chamada.Sessoes.{tem_sessao, Iguais, guardar-tem_sessao, guardar-Iguais}

module _ {C : Type 0} (pion : Pion C) where
  -- What NovoHub is given.
  abbrev pub retransmissor : Retransmissor (Sfu C)
  retransmissor = record {
    entrar = entrar pion;
    sair = λ sala peer s. (sair pion sala peer s).0;
    descricao = descricao pion;
    candidato = candidato pion;
  }

  pub entrar-tem_sessao :
      (sala peer x y : Texto) (s : Sfu C)
      → tem_sessao x y (entrar pion sala peer s).0 ≡ true
      → ((eq_texto sala x && eq_texto peer y) || tem_sessao x y s) ≡ true
  unfolding entrar
  entrar-tem_sessao sala peer x y s = caso pion.nova
    where
      nova : C → Sessao C
      nova c = assinar_todas pion peer (faixas_de sala s) (nova_sessao peer c)

      caso :
          (o : Option C)
          → let r : Sfu C × List (List ℕ) × Bool = elim o [
            | none ↦ (s, [], false)
            | some c ↦
                (let (se, ms, certo) = oferecer pion (nova c) in
                  (guardar sala peer se s, ms, certo))
          ] in
            tem_sessao x y r.0 ≡ true
            → ((eq_texto sala x && eq_texto peer y) || tem_sessao x y s) ≡ true
      caso none k = ground (arith, k)
      caso (some c) k =
          ground (arith, k, guardar-tem_sessao sala peer x y (oferecer pion (nova c)).0 s)

  pub descricao-Iguais :
      (sala peer tipo sdp : Texto) (s : Sfu C) → Iguais s (descricao pion sala peer tipo sdp s).0
  unfolding descricao
  descricao-Iguais sala peer tipo sdp s = caso (sessao_de sala peer s) refl
    where
      r : Bool
      r = eq_texto tipo (codes "answer")

      caso :
          (o : Option (Sessao C))
          → sessao_de sala peer s ≡ o
          → let q : Sfu C × Enviadas = elim o [
            | none ↦ (s, [])
            | some se ↦
                if r || eq_texto tipo (codes "offer")
                then (let (se', ms) = descrever_sessao pion r sdp se in
                    (guardar sala peer se' s, para_peer peer ms))
                else (s, [])
          ] in
            Iguais s q.0
      caso none e = λ x y. refl
      caso (some se) e =
          if_cases (λ (q : Sfu C × Enviadas). Iguais s q.0) (r || eq_texto tipo (codes "offer"))
            (λ _. guardar-Iguais sala peer se (descrever_sessao pion r sdp se).0 s e)
            (λ _ x y. refl)

  pub candidato-Iguais :
      (sala peer texto mid : Texto) (s : Sfu C) → Iguais s (candidato pion sala peer texto mid s).0
  unfolding candidato
  candidato-Iguais sala peer texto mid s = caso (sessao_de sala peer s) refl
    where
      c : Candidato
      c = record { candidato = texto; mid = some mid; indice = some 0 }

      caso :
          (o : Option (Sessao C))
          → sessao_de sala peer s ≡ o
          → let q : Sfu C × Enviadas = elim o [
            | none ↦ (s, [])
            | some se ↦
                if vazio texto
                then (s, [])
                else (guardar sala peer (guardar_candidato pion c se) s, [])
          ] in
            Iguais s q.0
      caso none e = λ x y. refl
      caso (some se) e =
          if_cases (λ (q : Sfu C × Enviadas). Iguais s q.0) (vazio texto) (λ _ x y. refl)
            (λ _. guardar-Iguais sala peer se (guardar_candidato pion c se) s e)

module _ {C : Type 0} (pion : Pion C) (leis : LeisPion pion) where
  abbrev pub leis_do_retransmissor : LeisRetransmissor (retransmissor pion)
  leis_do_retransmissor = record {
    IsValida = IsSfu pion leis;
    tem_sessao = tem_sessao;
    entra = entrar-tem_sessao pion;
    sai = sair-tem_sessao pion;
    descreve = λ sala peer tipo sdp x y s. descricao-Iguais pion sala peer tipo sdp s x y;
    candidata = λ sala peer texto mid x y s. candidato-Iguais pion sala peer texto mid s x y;
    entra_valida = entrar-IsSfu pion leis;
    sai_valida = sair-IsSfu pion leis;
    descreve_valida = descricao-IsSfu pion leis;
    candidata_valida = candidato-IsSfu pion leis;
  }
