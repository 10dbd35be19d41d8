-- ===== src/Sfu/Encaminhamento/Chaves.antt =====
-- src/sfu.go: key frames, against who publishes what and who is sent it.
use greenlabs_server.Comum.{
  ℕ, subst₂, ◌≡◌, refl, sym, ap, ◌∙◌, Bool, true, false, not, ◌&&◌, ◌||◌, Option, none, some, List,
  [], ◌∷◌, if◌then◌else◌, if_cases, Bool-cases, Option-cases, inl, inr, arith,
}
use greenlabs_server.Comum.Texto.{Texto, eq_texto, eq_texto_iff}
use greenlabs_server.Comum.Inteiro.{ℤ, pos, leb_int}
use greenlabs_server.Comum.Mapa.{lookup, lookup-insert}
use greenlabs_server.Hub.{contem}
use greenlabs_server.Sfu.{
  Faixa, Rtcp, pli, remb, Pion, Sessao, Sfu, sessao_de, sessoes_de, faixas_de,
}
use greenlabs_server.Sfu.Chaves.{
  Retorno, perda, estimativa, outro, apos_pedido, ler_rtcp_da_saida, insistir_em_todas,
  pedir_chave_de_tudo, escrever_ao_dono, pedir_chave, rodada_de_chave, encaminhar_remb,
}
use greenlabs_server.Sfu.Faixas.{
  mudar_faixa, achar_faixa, na_faixa, insistir_na_chave, parar_de_insistir, permitir_chave,
}
use greenlabs_server.Sfu.Encaminhamento.{
  LeisPion, oferecida, IsSessao, IsTalvez, IsSfu, com_conexao-IsSessao,
}
use greenlabs_server.Sfu.Encaminhamento.Busca.{sessao_de-guardar, faixas_de-guardar}
use greenlabs_server.Sfu.Salas.{guardar}

-- The pointer's track keeps its id and its publisher.
abbrev pub Conserva : (Faixa → Faixa) → Type 0
Conserva g = (f : Faixa) → ((g f).id ≡ f.id) × ((g f).dono ≡ f.dono)

oferecida-mudar_faixa :
    (n : ℕ) (g : Faixa → Faixa) (fs : List Faixa) (id peer : Texto)
    → Conserva g
    → oferecida id peer (mudar_faixa n g fs) ≡ oferecida id peer fs
unfolding mudar_faixa
oferecida-mudar_faixa n g [] id peer k = refl
oferecida-mudar_faixa n g (f ∷ fs) id peer k =
    ground (arith, oferecida-mudar_faixa n g fs id peer k, (k f).0, (k f).1)

module _ {C : Type 0} where
  pub sessao_de-na_faixa :
      (sala x y : Texto) (n : ℕ) (g : Faixa → Faixa) (s : Sfu C)
      → sessao_de x y (na_faixa sala n g s) ≡ sessao_de x y s
  unfolding sessao_de sessoes_de na_faixa
  sessao_de-na_faixa sala x y n g s = ground arith

  oferecida-na_faixa :
      (sala x : Texto) (n : ℕ) (g : Faixa → Faixa) (s : Sfu C) (id peer : Texto)
      → Conserva g
      → oferecida id peer (faixas_de x (na_faixa sala n g s)) ≡ oferecida id peer (faixas_de x s)
  unfolding faixas_de na_faixa
  oferecida-na_faixa sala x n g s id peer k = elim (Option-cases (lookup sala s.faixas)) [
    | inl e ↦ ground arith
    | inr (fs, e) ↦ elim (Bool-cases (eq_texto sala x)) [
      | inl t ↦
          let u : lookup x s.faixas ≡ some fs =
            ap (λ (z : Texto). lookup z s.faixas) (sym ((eq_texto_iff sala x).0 t)) ∙ e in
          ground (
            arith,
            u,
            lookup-insert sala x (mudar_faixa n g fs) s.faixas,
            oferecida-mudar_faixa n g fs id peer k,
          )
      | inr t ↦ ground (arith, lookup-insert sala x (mudar_faixa n g fs) s.faixas)
    ]
  ]

module _ {C : Type 0} (pion : Pion C) (leis : LeisPion pion) where
  -- The same tracks on the air, by id and publisher.
  pub IsTalvez-mesmas :
      (peer : Texto) (fs gs : List Faixa) (o : Option (Sessao C))
      → ((id : Texto) → oferecida id peer gs ≡ oferecida id peer fs)
      → IsTalvez pion leis peer fs o
      → IsTalvez pion leis peer gs o
  IsTalvez-mesmas peer fs gs none h v = tt
  IsTalvez-mesmas peer fs gs (some se) h v = record {
    aberta = v.aberta;
    livre = v.livre;
    dos_outros = λ id k. h id ∙ v.dos_outros id k;
    em_dia = λ k id. v.em_dia k id ∙ sym (h id);
    pendentes = v.pendentes;
    anunciada = v.anunciada;
  }

  na_faixa-IsSfu :
      (sala : Texto) (n : ℕ) (g : Faixa → Faixa) (s : Sfu C)
      → Conserva g
      → IsSfu pion leis s
      → IsSfu pion leis (na_faixa sala n g s)
  na_faixa-IsSfu sala n g s k v x y = rw (sessao_de-na_faixa sala x y n g s) (
      IsTalvez-mesmas y (faixas_de x s) (faixas_de x (na_faixa sala n g s)) (sessao_de x y s)
        (λ id. oferecida-na_faixa sala x n g s id y k) (v x y))

  pub insistir_na_chave-IsSfu :
      (sala : Texto) (f : Faixa) (s : Sfu C)
      → IsSfu pion leis s
      → IsSfu pion leis (insistir_na_chave sala f s).0
  unfolding insistir_na_chave
  insistir_na_chave-IsSfu sala f s v =
      if_cases (λ (r : Sfu C × Bool). IsSfu pion leis r.0) f.repetindo_chave (λ _. v)
        (λ _.
          na_faixa-IsSfu sala f.numero (λ g. record g { repetindo_chave = true }) s
            (λ g. (refl, refl)) v)

  pub parar_de_insistir-IsSfu :
      (sala : Texto) (n : ℕ) (s : Sfu C)
      → IsSfu pion leis s
      → IsSfu pion leis (parar_de_insistir sala n s)
  unfolding parar_de_insistir
  parar_de_insistir-IsSfu sala n s v =
      na_faixa-IsSfu sala n (λ g. record g { repetindo_chave = false }) s (λ g. (refl, refl)) v

  insistir_em_todas-IsSfu :
      (sala peer : Texto) (se : Sessao C) (fs : List Faixa) (s : Sfu C)
      → IsSfu pion leis s
      → IsSfu pion leis (insistir_em_todas sala peer se fs s)
  unfolding insistir_em_todas
  insistir_em_todas-IsSfu sala peer se [] s v = v
  insistir_em_todas-IsSfu sala peer se (f ∷ fs) s v = insistir_em_todas-IsSfu sala peer se fs _ (
      if_cases (IsSfu pion leis) (eq_texto f.dono peer || not (contem f.id se.saidas)) (λ _. v)
        (λ _. insistir_na_chave-IsSfu sala f s v))

  pub pedir_chave_de_tudo-IsSfu :
      (sala peer : Texto) (s : Sfu C)
      → IsSfu pion leis s
      → IsSfu pion leis (pedir_chave_de_tudo sala peer s)
  unfolding pedir_chave_de_tudo
  pedir_chave_de_tudo-IsSfu sala peer s v = caso (sessao_de sala peer s)
    where
      caso :
          (o : Option (Sessao C))
          → IsSfu pion leis
              (elim o [ none ↦ s | some se ↦ insistir_em_todas sala peer se (faixas_de sala s) s ])
      caso none = v
      caso (some se) = insistir_em_todas-IsSfu sala peer se (faixas_de sala s) s v

  -- A session is written back, from one that is as it should be.
  pub guardar-IsSfu :
      (sala peer : Texto) (se : Sessao C) (s : Sfu C)
      → IsSessao pion leis peer (faixas_de sala s) se
      → IsSfu pion leis s
      → IsSfu pion leis (guardar sala peer se s)
  guardar-IsSfu sala peer se s w v x y =
      rw (sessao_de-guardar sala peer x y se s, faixas_de-guardar sala peer x se s)
        (if_cases (IsTalvez pion leis y (faixas_de x s)) (eq_texto sala x && eq_texto peer y)
          (λ t.
            subst₂ (λ (a b : Texto). IsSessao pion leis b (faixas_de a s) se)
              ((eq_texto_iff sala x).0 (ground arith)) ((eq_texto_iff peer y).0 (ground arith)) w)
          (λ _. v x y))

  escrever_ao_dono-IsSfu :
      (sala dono : Texto) (p : Rtcp) (se : Sessao C) (s : Sfu C)
      → IsSessao pion leis dono (faixas_de sala s) se
      → IsSfu pion leis s
      → IsSfu pion leis (escrever_ao_dono pion sala dono p se s)
  unfolding escrever_ao_dono
  escrever_ao_dono-IsSfu sala dono p se s w v =
      guardar-IsSfu sala dono (record se { conexao = pion.escrever p se.conexao }) s
        (com_conexao-IsSessao pion leis dono (faixas_de sala s) se (pion.escrever p se.conexao)
          (leis.escreve p se.conexao) w)
        v

  pub pedir_chave-IsSfu :
      (agora : ℕ) (sala : Texto) (f : Faixa) (s : Sfu C)
      → IsSfu pion leis s
      → IsSfu pion leis (pedir_chave pion agora sala f s)
  unfolding pedir_chave
  pedir_chave-IsSfu agora sala f s v =
      if_cases (IsSfu pion leis) (not f.origem.video) (λ _. v)
        (λ _. caso (sessao_de sala f.dono s) (v sala f.dono))
    where
      s1 : Sfu C
      s1 = na_faixa sala f.numero (λ g. record g { ultima_chave = some agora }) s

      caso :
          (o : Option (Sessao C))
          → IsTalvez pion leis f.dono (faixas_de sala s) o
          → IsSfu pion leis (elim o [
            | none ↦ s
            | some se ↦
                if (permitir_chave agora f).1
                then escrever_ao_dono pion sala f.dono (pli f.origem.ssrc) se s1
                else s
          ])
      caso none w = v
      caso (some se) w =
          let k : Conserva (λ g. record g { ultima_chave = some agora }) = λ g. (refl, refl) in
          if_cases (IsSfu pion leis) (permitir_chave agora f).1
            (λ _.
              escrever_ao_dono-IsSfu sala f.dono (pli f.origem.ssrc) se s1
                (IsTalvez-mesmas f.dono (faixas_de sala s) (faixas_de sala s1) (some se)
                  (λ id.
                    oferecida-na_faixa sala sala f.numero
                      (λ g. record g { ultima_chave = some agora }) s id f.dono k)
                  w)
                (na_faixa-IsSfu sala f.numero (λ g. record g { ultima_chave = some agora }) s k v))
            (λ _. v)

  pub rodada_de_chave-IsSfu :
      (agora : ℕ) (sala : Texto) (n : ℕ) (s : Sfu C)
      → IsSfu pion leis s
      → IsSfu pion leis (rodada_de_chave pion agora sala n s)
  unfolding rodada_de_chave
  rodada_de_chave-IsSfu agora sala n s v = caso (achar_faixa n (faixas_de sala s))
    where
      caso :
          (o : Option Faixa)
          → IsSfu pion leis (elim o [ none ↦ s | some f ↦ pedir_chave pion agora sala f s ])
      caso none = v
      caso (some f) = pedir_chave-IsSfu agora sala f s v

  pub encaminhar_remb-IsSfu :
      (f : Faixa) (bitrate : ℤ) (s : Sfu C)
      → IsSfu pion leis s
      → IsSfu pion leis (encaminhar_remb pion f bitrate s)
  unfolding encaminhar_remb
  encaminhar_remb-IsSfu f bitrate s v =
      if_cases (IsSfu pion leis) (not f.origem.video || leb_int bitrate (pos 0)) (λ _. v)
        (λ _. caso (sessao_de f.sala f.dono s) (v f.sala f.dono))
    where
      caso :
          (o : Option (Sessao C))
          → IsTalvez pion leis f.dono (faixas_de f.sala s) o
          → IsSfu pion leis (elim o [
            | none ↦ s
            | some se ↦ escrever_ao_dono pion f.sala f.dono (remb bitrate f.origem.ssrc) se s
          ])
      caso none w = v
      caso (some se) w = escrever_ao_dono-IsSfu f.sala f.dono (remb bitrate f.origem.ssrc) se s w v

  pub ler_rtcp_da_saida-IsSfu :
      (agora : ℕ) (f : Faixa) (ps : List Retorno) (s : Sfu C)
      → IsSfu pion leis s
      → IsSfu pion leis (ler_rtcp_da_saida pion agora f ps s)
  unfolding ler_rtcp_da_saida
  ler_rtcp_da_saida-IsSfu agora f [] s v = v
  ler_rtcp_da_saida-IsSfu agora f (perda ∷ ps) s v =
      ler_rtcp_da_saida-IsSfu agora (apos_pedido agora f.sala f s) ps
        (pedir_chave pion agora f.sala f s) (pedir_chave-IsSfu agora f.sala f s v)
  ler_rtcp_da_saida-IsSfu agora f (estimativa b ∷ ps) s v =
      ler_rtcp_da_saida-IsSfu agora f ps (encaminhar_remb pion f b s)
        (encaminhar_remb-IsSfu f b s v)
  ler_rtcp_da_saida-IsSfu agora f (outro ∷ ps) s v = ler_rtcp_da_saida-IsSfu agora f ps s v
