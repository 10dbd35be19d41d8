-- ===== src/Sfu/Ocorrencias.antt =====
-- src/sfu.go: what Pion and the clock call back.
use greenlabs_server.Comum.{ℕ, List, []}
use greenlabs_server.Comum.Texto.{Texto}
use greenlabs_server.Sfu.{Origem, Faixa, Pion, Sfu}
use greenlabs_server.Sfu.Faixas.{parar_de_insistir}
use greenlabs_server.Sfu.Salas.{Enviadas, publicar, remover_faixa}
use greenlabs_server.Sfu.Chaves.{Estado, Retorno, mudou_estado, rodada_de_chave, ler_rtcp_da_saida}

-- A track comes or goes, a connection changes its state, insistirNaChave has a round or ends, and a
-- viewer sends feedback.
pub data Ocorrencia : Type 0 where
  publica : Texto → Texto → Origem → Ocorrencia
  termina : Faixa → Ocorrencia
  muda : Texto → Texto → Estado → Ocorrencia
  repete : ℕ → Texto → ℕ → Ocorrencia
  desiste : Texto → ℕ → Ocorrencia
  retorna : ℕ → Faixa → List Retorno → Ocorrencia

module _ {C : Type 0} (pion : Pion C) where
  unfoldable pub ocorrer : Ocorrencia → Sfu C → Sfu C × Enviadas
  unfolding publicar remover_faixa mudou_estado rodada_de_chave parar_de_insistir ler_rtcp_da_saida
  ocorrer (publica sala dono o) s = publicar pion sala dono o s
  ocorrer (termina f) s = remover_faixa pion f s
  ocorrer (muda sala peer e) s = (mudou_estado pion sala peer e s, [])
  ocorrer (repete agora sala n) s = (rodada_de_chave pion agora sala n s, [])
  ocorrer (desiste sala n) s = (parar_de_insistir sala n s, [])
  ocorrer (retorna agora f ps) s = (ler_rtcp_da_saida pion agora f ps s, [])
