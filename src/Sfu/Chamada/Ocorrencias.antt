-- ===== src/Sfu/Chamada/Ocorrencias.antt =====
-- src/sfu.go: the sessions behind what Pion and the clock call back.
use greenlabs_server.Comum.{
  ℕ, ◌≡◌, refl, ap, ◌∙◌, false, not, ◌&&◌, ◌||◌, Option, none, some, List, [], ◌∷◌, ◌++◌, ◌+◌,
  if◌then◌else◌, if_cases, arith,
}
use greenlabs_server.Comum.Texto.{Texto, eq_texto}
use greenlabs_server.Comum.Inteiro.{ℤ, pos, leb_int}
use greenlabs_server.Sfu.{
  Origem, Faixa, Rtcp, pli, remb, Pion, Sessao, Sfu, sessoes_de, sessao_de, faixas_de,
}
use greenlabs_server.Sfu.Sessoes.{assinar_e_oferecer, tirar_saida}
use greenlabs_server.Sfu.Faixas.{
  permitir_chave, achar_faixa, na_faixa, insistir_na_chave, parar_de_insistir,
}
use greenlabs_server.Sfu.Salas.{
  Enviadas, criar_faixa, tem_outros, na_sala, sem_faixa, publicar, remover_faixa, sair,
}
use greenlabs_server.Sfu.Chaves.{
  Estado, conectada, falhou, fechou, intermediario, Retorno, perda, estimativa, outro,
  pedir_chave_de_tudo, escrever_ao_dono, pedir_chave, rodada_de_chave, encaminhar_remb, apos_pedido,
  ler_rtcp_da_saida, mudou_estado,
}
use greenlabs_server.Sfu.Ocorrencias.{
  Ocorrencia, publica, termina, muda, repete, desiste, retorna, ocorrer,
}
use greenlabs_server.Sfu.Encaminhamento.Busca.{com_faixas, sessao_de-com_faixas, sessao_de-sair}
use greenlabs_server.Sfu.Encaminhamento.Chaves.{sessao_de-na_faixa}
use greenlabs_server.Sfu.Chamada.Sessoes.{
  ha, tem_sessao, Iguais, SemNova, SemNova-Iguais, Iguais-trans, na_faixa-Iguais, ha-if,
  guardar-Iguais, na_sala-Iguais, insistir_na_chave-Iguais, pedir_chave_de_tudo-Iguais,
}

module _ {C : Type 0} (pion : Pion C) where
  escrever_ao_dono-Iguais :
      (sala dono : Texto) (p : Rtcp) (a se : Sessao C) (s : Sfu C)
      → sessao_de sala dono s ≡ some a
      → Iguais s (escrever_ao_dono pion sala dono p se s)
  unfolding escrever_ao_dono
  escrever_ao_dono-Iguais sala dono p a se s e =
      guardar-Iguais sala dono a (record se { conexao = pion.escrever p se.conexao }) s e

  pedir_chave-Iguais :
      (agora : ℕ) (sala : Texto) (f : Faixa) (s : Sfu C)
      → Iguais s (pedir_chave pion agora sala f s)
  unfolding pedir_chave
  pedir_chave-Iguais agora sala f s =
      if_cases (Iguais s) (not f.origem.video) (λ _ x y. refl)
        (λ _. caso (sessao_de sala f.dono s) refl)
    where
      anotada : Sfu C
      anotada = na_faixa sala f.numero (λ g. record g { ultima_chave = some agora }) s

      caso :
          (o : Option (Sessao C))
          → sessao_de sala f.dono s ≡ o
          → Iguais s (elim o [
            | none ↦ s
            | some se ↦
                if (permitir_chave agora f).1
                then escrever_ao_dono pion sala f.dono (pli f.origem.ssrc) se anotada
                else s
          ])
      caso none e = λ x y. refl
      caso (some se) e =
          if_cases (Iguais s) (permitir_chave agora f).1
            (λ _.
              Iguais-trans s anotada
                (escrever_ao_dono pion sala f.dono (pli f.origem.ssrc) se anotada)
                (na_faixa-Iguais sala f.numero (λ g. record g { ultima_chave = some agora }) s)
                (escrever_ao_dono-Iguais sala f.dono (pli f.origem.ssrc) se se anotada (
                  sessao_de-na_faixa sala sala f.dono f.numero
                    (λ g. record g { ultima_chave = some agora }) s
                  ∙ e)))
            (λ _ x y. refl)

  rodada_de_chave-Iguais :
      (agora : ℕ) (sala : Texto) (n : ℕ) (s : Sfu C)
      → Iguais s (rodada_de_chave pion agora sala n s)
  unfolding rodada_de_chave
  rodada_de_chave-Iguais agora sala n s = caso (achar_faixa n (faixas_de sala s))
    where
      caso :
          (o : Option Faixa)
          → Iguais s (elim o [ none ↦ s | some f ↦ pedir_chave pion agora sala f s ])
      caso none = λ x y. refl
      caso (some f) = pedir_chave-Iguais agora sala f s

  encaminhar_remb-Iguais :
      (f : Faixa) (bitrate : ℤ) (s : Sfu C) → Iguais s (encaminhar_remb pion f bitrate s)
  unfolding encaminhar_remb
  encaminhar_remb-Iguais f bitrate s =
      if_cases (Iguais s) (not f.origem.video || leb_int bitrate (pos 0)) (λ _ x y. refl)
        (λ _. caso (sessao_de f.sala f.dono s) refl)
    where
      caso :
          (o : Option (Sessao C))
          → sessao_de f.sala f.dono s ≡ o
          → Iguais s (elim o [
            | none ↦ s
            | some se ↦ escrever_ao_dono pion f.sala f.dono (remb bitrate f.origem.ssrc) se s
          ])
      caso none e = λ x y. refl
      caso (some se) e =
          escrever_ao_dono-Iguais f.sala f.dono (remb bitrate f.origem.ssrc) se se s e

  ler_rtcp_da_saida-Iguais :
      (agora : ℕ) (f : Faixa) (ps : List Retorno) (s : Sfu C)
      → Iguais s (ler_rtcp_da_saida pion agora f ps s)
  unfolding ler_rtcp_da_saida
  ler_rtcp_da_saida-Iguais agora f [] s = λ x y. refl
  ler_rtcp_da_saida-Iguais agora f (perda ∷ ps) s =
      let s1 = pedir_chave pion agora f.sala f s in
      Iguais-trans s s1 (ler_rtcp_da_saida pion agora (apos_pedido agora f.sala f s) ps s1)
        (pedir_chave-Iguais agora f.sala f s)
        (ler_rtcp_da_saida-Iguais agora (apos_pedido agora f.sala f s) ps s1)
  ler_rtcp_da_saida-Iguais agora f (estimativa b ∷ ps) s =
      let s1 = encaminhar_remb pion f b s in
      Iguais-trans s s1 (ler_rtcp_da_saida pion agora f ps s1) (encaminhar_remb-Iguais f b s)
        (ler_rtcp_da_saida-Iguais agora f ps s1)
  ler_rtcp_da_saida-Iguais agora f (outro ∷ ps) s = ler_rtcp_da_saida-Iguais agora f ps s

  publicar-Iguais :
      (sala dono : Texto) (o : Origem) (s : Sfu C) → Iguais s (publicar pion sala dono o s).0
  unfolding publicar
  publicar-Iguais sala dono o s =
      let f = criar_faixa sala dono o s.proximo_numero in
      let s1 : Sfu C = com_faixas sala (faixas_de sala s ++ (f ∷ [])) (s.proximo_numero + 1) s in
      let s2 : Sfu C = (na_sala sala dono (assinar_e_oferecer pion f) s1).0 in
      let a : Iguais s s2 =
        Iguais-trans s s1 s2
          (λ x y.
            ap ha (
              sessao_de-com_faixas sala x y (faixas_de sala s ++ (f ∷ [])) (s.proximo_numero + 1)
                s))
          (na_sala-Iguais sala dono (assinar_e_oferecer pion f) s1) in
      if_cases (λ (r : Sfu C × Enviadas). Iguais s r.0) (not (pion.copiar f)) (λ _ x y. refl)
        (λ _.
          if_cases (Iguais s) (tem_outros dono (sessoes_de sala s))
            (λ _.
              Iguais-trans s s2 (insistir_na_chave sala f s2).0 a
                (insistir_na_chave-Iguais sala f s2))
            (λ _. a))

  remover_faixa-Iguais : (f : Faixa) (s : Sfu C) → Iguais s (remover_faixa pion f s).0
  unfolding remover_faixa
  remover_faixa-Iguais f s =
      let gs = sem_faixa f.numero (faixas_de f.sala s) in
      let s1 : Sfu C = com_faixas f.sala gs s.proximo_numero s in
      Iguais-trans s s1 (na_sala f.sala f.dono (tirar_saida pion f) s1).0
        (λ x y. ap ha (sessao_de-com_faixas f.sala x y gs s.proximo_numero s))
        (na_sala-Iguais f.sala f.dono (tirar_saida pion f) s1)

  pub sair-tem_sessao :
      (sala peer x y : Texto) (s : Sfu C)
      → tem_sessao x y (sair pion sala peer s).0
        ≡ (if eq_texto sala x && eq_texto peer y then false else tem_sessao x y s)
  sair-tem_sessao sala peer x y s =
      ap ha (sessao_de-sair pion sala peer x y s)
      ∙ ha-if (eq_texto sala x && eq_texto peer y) none (sessao_de x y s)

  sair-SemNova : (sala peer : Texto) (s : Sfu C) → SemNova s (sair pion sala peer s).0
  sair-SemNova sala peer s x y k = ground (arith, sair-tem_sessao sala peer x y s, k)

  mudou_estado-SemNova :
      (sala peer : Texto) (e : Estado) (s : Sfu C) → SemNova s (mudou_estado pion sala peer e s)
  unfolding mudou_estado
  mudou_estado-SemNova sala peer conectada s =
      SemNova-Iguais s (pedir_chave_de_tudo sala peer s) (pedir_chave_de_tudo-Iguais sala peer s)
  mudou_estado-SemNova sala peer falhou s = sair-SemNova sala peer s
  mudou_estado-SemNova sala peer fechou s = sair-SemNova sala peer s
  mudou_estado-SemNova sala peer intermediario s = λ x y k. k

  pub ocorrer-SemNova : (o : Ocorrencia) (s : Sfu C) → SemNova s (ocorrer pion o s).0
  unfolding ocorrer
  ocorrer-SemNova (publica sala dono o) s = SemNova-Iguais s _ (publicar-Iguais sala dono o s)
  ocorrer-SemNova (termina f) s = SemNova-Iguais s _ (remover_faixa-Iguais f s)
  ocorrer-SemNova (muda sala peer e) s = mudou_estado-SemNova sala peer e s
  ocorrer-SemNova (repete agora sala n) s =
      SemNova-Iguais s _ (rodada_de_chave-Iguais agora sala n s)
  ocorrer-SemNova (desiste sala n) s =
      unfold parar_de_insistir in
      SemNova-Iguais s _ (na_faixa-Iguais sala n (λ g. record g { repetindo_chave = false }) s)
  ocorrer-SemNova (retorna agora f ps) s =
      SemNova-Iguais s _ (ler_rtcp_da_saida-Iguais agora f ps s)
