-- ===== src/Sfu/Encaminhamento/Execucao.antt =====
-- src/sfu.go: runs of the server of media, whose events are the calls of the hub and what Pion
-- reports.
use greenlabs_server.Comum.{◌≡◌, subst, Bool, true, ◌&&◌, some, List, [], ◌∷◌, arith}
use greenlabs_server.Comum.Texto.{Texto}
use greenlabs_server.Comum.Mapa.{lookup}
use greenlabs_server.Sfu.{Pion, Sessao, Sfu, novo_sfu, sessoes_de, sessao_de, faixas_de}
use greenlabs_server.Sfu.Salas.{entrar, descricao, candidato, sair}
use greenlabs_server.Sfu.Ocorrencias.{
  Ocorrencia, publica, termina, muda, repete, desiste, retorna, ocorrer,
}
use greenlabs_server.Sfu.Encaminhamento.{LeisPion, IsSessao, IsTalvez, IsSfu}
use greenlabs_server.Sfu.Encaminhamento.Busca.{coerente}
use greenlabs_server.Sfu.Encaminhamento.Chaves.{
  parar_de_insistir-IsSfu, rodada_de_chave-IsSfu, ler_rtcp_da_saida-IsSfu,
}
use greenlabs_server.Sfu.Encaminhamento.Salas.{
  entrar-IsSfu, publicar-IsSfu, remover_faixa-IsSfu, descricao-IsSfu, candidato-IsSfu, sair-IsSfu,
  mudou_estado-IsSfu,
}

-- The calls of the hub, and what is called back.
pub data Evento : Type 0 where
  entra sai : Texto → Texto → Evento
  descreve candidata : Texto → Texto → Texto → Texto → Evento
  ocorre : Ocorrencia → Evento

module _ {C : Type 0} (pion : Pion C) where
  unfoldable pub passo : Evento → Sfu C → Sfu C
  passo (entra sala peer) s = (entrar pion sala peer s).0
  passo (sai sala peer) s = (sair pion sala peer s).0
  passo (descreve sala peer tipo sdp) s = (descricao pion sala peer tipo sdp s).0
  passo (candidata sala peer texto mid) s = (candidato pion sala peer texto mid s).0
  passo (ocorre o) s = (ocorrer pion o s).0

  unfoldable pub executar : List Evento → Sfu C → Sfu C
  unfolding passo
  executar [] s = s
  executar (e ∷ es) s = executar es (passo e s)

module _ {C : Type 0} where
  -- A track that ends shares neither its pointer nor its id with another that is on the air.
  abbrev pub coerente_em : Ocorrencia → Sfu C → Bool
  coerente_em (termina f) s = coerente f (faixas_de f.sala s)
  coerente_em (publica sala dono o) s = true
  coerente_em (muda sala peer e) s = true
  coerente_em (repete agora sala n) s = true
  coerente_em (desiste sala n) s = true
  coerente_em (retorna agora f ps) s = true

  abbrev pub evento_coerente : Evento → Sfu C → Bool
  evento_coerente (ocorre o) s = coerente_em o s
  evento_coerente (entra sala peer) s = true
  evento_coerente (sai sala peer) s = true
  evento_coerente (descreve sala peer tipo sdp) s = true
  evento_coerente (candidata sala peer texto mid) s = true

module _ {C : Type 0} (pion : Pion C) where
  unfoldable pub coerentes : List Evento → Sfu C → Bool
  unfolding passo
  coerentes [] s = true
  coerentes (e ∷ es) s = evento_coerente e s && coerentes es (passo pion e s)

module _ {C : Type 0} (pion : Pion C) (leis : LeisPion pion) where
  pub ocorrer-IsSfu :
      (o : Ocorrencia) (s : Sfu C)
      → coerente_em o s ≡ true
      → IsSfu pion leis s
      → IsSfu pion leis (ocorrer pion o s).0
  unfolding ocorrer
  ocorrer-IsSfu (publica sala dono o) s k v = publicar-IsSfu pion leis sala dono o s v
  ocorrer-IsSfu (termina f) s k v = remover_faixa-IsSfu pion leis f s k v
  ocorrer-IsSfu (muda sala peer e) s k v = mudou_estado-IsSfu pion leis sala peer e s v
  ocorrer-IsSfu (repete agora sala n) s k v = rodada_de_chave-IsSfu pion leis agora sala n s v
  ocorrer-IsSfu (desiste sala n) s k v = parar_de_insistir-IsSfu pion leis sala n s v
  ocorrer-IsSfu (retorna agora f ps) s k v = ler_rtcp_da_saida-IsSfu pion leis agora f ps s v

  passo-IsSfu :
      (e : Evento) (s : Sfu C)
      → evento_coerente e s ≡ true
      → IsSfu pion leis s
      → IsSfu pion leis (passo pion e s)
  unfolding passo
  passo-IsSfu (entra sala peer) s k v = entrar-IsSfu pion leis sala peer s v
  passo-IsSfu (sai sala peer) s k v = sair-IsSfu pion leis sala peer s v
  passo-IsSfu (descreve sala peer tipo sdp) s k v = descricao-IsSfu pion leis sala peer tipo sdp s v
  passo-IsSfu (candidata sala peer texto mid) s k v =
      candidato-IsSfu pion leis sala peer texto mid s v
  passo-IsSfu (ocorre o) s k v = ocorrer-IsSfu o s k v

  executar-IsSfu :
      (es : List Evento) (s : Sfu C)
      → coerentes pion es s ≡ true
      → IsSfu pion leis s
      → IsSfu pion leis (executar pion es s)
  unfolding executar coerentes
  executar-IsSfu [] s k v = v
  executar-IsSfu (e ∷ es) s k v =
      executar-IsSfu es (passo pion e s) (ground arith) (passo-IsSfu e s (ground arith) v)

  pub novo_sfu-IsSfu : IsSfu pion leis novo_sfu
  unfolding novo_sfu sessao_de sessoes_de lookup
  novo_sfu-IsSfu x y = tt

  -- From a new server of media, over a Pion that keeps its laws, after any sequence of events in which
  -- a track that ends shares neither its pointer nor its id with another on the air: the session of
  -- any participant in any room is open, no offer is being made in it, it is sent no track but those on
  -- the air in that room whose publisher is another, and at most 256 candidates wait; and as long as
  -- neither adding a transceiver nor an offer has failed on its connection it is sent all of those
  -- tracks, and unless a renegotiation is noted an offer has told of all that is sent.
  pub executar-IsSessao :
      (es : List Evento) (sala peer : Texto) (se : Sessao C)
      → coerentes pion es novo_sfu ≡ true
      → sessao_de sala peer (executar pion es novo_sfu) ≡ some se
      → IsSessao pion leis peer (faixas_de sala (executar pion es novo_sfu)) se
  executar-IsSessao es sala peer se k e =
      subst (IsTalvez pion leis peer (faixas_de sala (executar pion es novo_sfu))) e
        (executar-IsSfu es novo_sfu k novo_sfu-IsSfu sala peer)
