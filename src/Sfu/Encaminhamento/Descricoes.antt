-- ===== src/Sfu/Encaminhamento/Descricoes.antt =====
-- src/sfu.go: what descriptions and candidates keep of a session.
use greenlabs_server.Comum.{
  ℕ, Bool, false, not, Option, none, some, List, [], ◌∷◌, ltb, if_cases, length, length-append,
  arith,
}
use greenlabs_server.Comum.Texto.{Texto, codes}
use greenlabs_server.Sfu.{Candidato, Faixa, Pion, Sessao}
use greenlabs_server.Sfu.Mensagens.{mensagem_de_descricao}
use greenlabs_server.Sfu.Sessoes.{
  maximo_pendentes, acrescentar_todos, soltar_candidatos, apos_resposta, apos_oferta,
  descrever_sessao, guardar_candidato,
}
use greenlabs_server.Sfu.Encaminhamento.{LeisPion, Mantem, IsSessao, com_conexao-IsSessao}
use greenlabs_server.Sfu.Encaminhamento.Passos.{oferecer-IsSessao}

module _ {C : Type 0} (pion : Pion C) (leis : LeisPion pion) where
  acrescentar_todos-Mantem :
      (xs : List Candidato) (c : C)
      → Mantem leis.falhou leis.devendo c (acrescentar_todos pion xs c)
  unfolding acrescentar_todos
  acrescentar_todos-Mantem [] c = (λ k. k, λ k. k)
  acrescentar_todos-Mantem (x ∷ xs) c =
      let (a, b) = leis.acrescenta x c in
      let (a', b') = acrescentar_todos-Mantem xs (pion.acrescentar x c) in
      (λ k. a' (a k), λ k. b' (b k))

  soltar_candidatos-IsSessao :
      (peer : Texto) (fs : List Faixa) (se : Sessao C)
      → IsSessao pion leis peer fs se
      → IsSessao pion leis peer fs (soltar_candidatos pion se)
  unfolding soltar_candidatos
  soltar_candidatos-IsSessao peer fs se v =
      let w =
        com_conexao-IsSessao pion leis peer fs se
          (acrescentar_todos pion se.candidatos_pendentes se.conexao)
          (acrescentar_todos-Mantem se.candidatos_pendentes se.conexao) v in
      record {
        aberta = w.aberta;
        livre = w.livre;
        dos_outros = w.dos_outros;
        em_dia = w.em_dia;
        pendentes = omega arith;
        anunciada = w.anunciada;
      }

  apos_resposta-IsSessao :
      (peer : Texto) (fs : List Faixa) (se : Sessao C)
      → IsSessao pion leis peer fs se
      → IsSessao pion leis peer fs (apos_resposta pion se).0
  unfolding apos_resposta
  apos_resposta-IsSessao peer fs se v =
      if_cases (λ (r : Sessao C × List (List ℕ)). IsSessao pion leis peer fs r.0)
        se.renegociar_depois
        (λ _.
          oferecer-IsSessao pion leis peer fs (record se { renegociar_depois = false })
            (record {
              aberta = v.aberta;
              livre = v.livre;
              dos_outros = v.dos_outros;
              em_dia = v.em_dia;
              pendentes = v.pendentes;
            }))
        (λ f. record {
          aberta = v.aberta;
          livre = v.livre;
          dos_outros = v.dos_outros;
          em_dia = v.em_dia;
          pendentes = v.pendentes;
          anunciada = λ k _. v.anunciada k f;
        })

  apos_oferta-IsSessao :
      (peer : Texto) (fs : List Faixa) (se : Sessao C)
      → IsSessao pion leis peer fs se
      → IsSessao pion leis peer fs (apos_oferta pion se).0
  unfolding apos_oferta
  apos_oferta-IsSessao peer fs se v = caso (pion.responder se.conexao) (leis.responde se.conexao)
    where
      caso :
          (r : C × Option Texto)
          → Mantem leis.falhou leis.devendo se.conexao r.0
          → let s' : Sessao C × List (List ℕ) = elim r.1 [
            | none ↦ (record se { conexao = r.0 }, [])
            | some sdp ↦
                (record se { conexao = r.0 }, mensagem_de_descricao (codes "answer") sdp ∷ [])
          ] in
            IsSessao pion leis peer fs s'.0
      caso (c, none) k = com_conexao-IsSessao pion leis peer fs se c k v
      caso (c, some sdp) k = com_conexao-IsSessao pion leis peer fs se c k v

  pub descrever_sessao-IsSessao :
      (r : Bool) (sdp peer : Texto) (fs : List Faixa) (se : Sessao C)
      → IsSessao pion leis peer fs se
      → IsSessao pion leis peer fs (descrever_sessao pion r sdp se).0
  unfolding descrever_sessao
  descrever_sessao-IsSessao r sdp peer fs se v =
      let c = (pion.descrever r sdp se.conexao).0 in
      let s1 : Sessao C = record se { conexao = c } in
      let w = com_conexao-IsSessao pion leis peer fs se c (leis.descreve r sdp se.conexao) v in
      let u = soltar_candidatos-IsSessao peer fs s1 w in
      if_cases Boa (pion.descrever r sdp se.conexao).1
        (λ _.
          if_cases Boa r (λ _. apos_resposta-IsSessao peer fs (soltar_candidatos pion s1) u)
            (λ _. apos_oferta-IsSessao peer fs (soltar_candidatos pion s1) u))
        (λ _. w)
    where
      Boa : Sessao C × List (List ℕ) → Type 0
      Boa q = IsSessao pion leis peer fs q.0

  pub guardar_candidato-IsSessao :
      (x : Candidato) (peer : Texto) (fs : List Faixa) (se : Sessao C)
      → IsSessao pion leis peer fs se
      → IsSessao pion leis peer fs (guardar_candidato pion x se)
  unfolding guardar_candidato
  guardar_candidato-IsSessao x peer fs se v =
      if_cases (IsSessao pion leis peer fs) se.fechada (λ _. v)
        (λ _.
          if_cases (IsSessao pion leis peer fs) (not (pion.tem_remota se.conexao))
            (λ _.
              if_cases (IsSessao pion leis peer fs)
                (ltb (length se.candidatos_pendentes) maximo_pendentes)
                (λ e. record {
                  aberta = v.aberta;
                  livre = v.livre;
                  dos_outros = v.dos_outros;
                  em_dia = v.em_dia;
                  anunciada = v.anunciada;
                  pendentes = ground (arith, length-append se.candidatos_pendentes (x ∷ []));
                })
                (λ _. v))
            (λ _.
              com_conexao-IsSessao pion leis peer fs se (pion.acrescentar x se.conexao)
                (leis.acrescenta x se.conexao) v))
