-- ===== src/Sfu/Chaves.antt =====
-- src/sfu.go: key frames and the bitrate that the viewers ask of a publisher. The three rounds of
-- insistirNaChave are events; the bitrate is a whole number.
use greenlabs_server.Comum.{ℕ, not, ◌||◌, none, some, List, [], ◌∷◌, if◌then◌else◌}
use greenlabs_server.Comum.Texto.{Texto, eq_texto}
use greenlabs_server.Comum.Inteiro.{ℤ, pos, leb_int}
use greenlabs_server.Hub.{contem}
use greenlabs_server.Sfu.{Faixa, Rtcp, pli, remb, Pion, Sessao, Sfu, sessao_de, faixas_de}
use greenlabs_server.Sfu.Faixas.{permitir_chave, achar_faixa, na_faixa, insistir_na_chave}
use greenlabs_server.Sfu.Salas.{guardar, sair}

-- webrtc.PeerConnectionState.
pub data Estado : Type 0 where
  conectada falhou fechou intermediario : Estado

-- What a viewer sends back: a PLI or a FIR, a REMB, and all else.
pub data Retorno : Type 0 where
  perda : Retorno
  estimativa : ℤ → Retorno
  outro : Retorno

module _ {C : Type 0} where
  -- pedirChaveDeTudo, over the tracks that were there.
  unfoldable pub insistir_em_todas : Texto → Texto → Sessao C → List Faixa → Sfu C → Sfu C
  unfolding insistir_na_chave
  insistir_em_todas sala peer se [] s = s
  insistir_em_todas sala peer se (f ∷ fs) s = insistir_em_todas sala peer se fs (
      if eq_texto f.dono peer || not (contem f.id se.saidas)
      then s
      else (insistir_na_chave sala f s).0)

  unfoldable pub pedir_chave_de_tudo : Texto → Texto → Sfu C → Sfu C
  unfolding insistir_em_todas
  pedir_chave_de_tudo sala peer s = elim (sessao_de sala peer s) [
    | none ↦ s
    | some se ↦ insistir_em_todas sala peer se (faixas_de sala s) s
  ]

  -- The track, through its pointer, behind pedir_chave.
  unfoldable pub apos_pedido : ℕ → Texto → Faixa → Sfu C → Faixa
  unfolding permitir_chave
  apos_pedido agora sala f s =
      if not f.origem.video
      then f
      else elim (sessao_de sala f.dono s) [ none ↦ f | some se ↦ (permitir_chave agora f).0 ]

module _ {C : Type 0} (pion : Pion C) where
  -- WriteRTCP to the publisher.
  unfoldable pub escrever_ao_dono : Texto → Texto → Rtcp → Sessao C → Sfu C → Sfu C
  unfolding guardar
  escrever_ao_dono sala dono p se s =
      guardar sala dono (record se { conexao = pion.escrever p se.conexao }) s

  unfoldable pub pedir_chave : ℕ → Texto → Faixa → Sfu C → Sfu C
  unfolding permitir_chave na_faixa escrever_ao_dono
  pedir_chave agora sala f s = if not f.origem.video then s else elim (sessao_de sala f.dono s) [
    | none ↦ s
    | some se ↦
        if (permitir_chave agora f).1
        then escrever_ao_dono sala f.dono (pli f.origem.ssrc) se
            (na_faixa sala f.numero (λ g. record g { ultima_chave = some agora }) s)
        else s
  ]

  -- A round of insistirNaChave, while the track is on the air.
  unfoldable pub rodada_de_chave : ℕ → Texto → ℕ → Sfu C → Sfu C
  unfolding achar_faixa pedir_chave
  rodada_de_chave agora sala n s = elim (achar_faixa n (faixas_de sala s)) [
    | none ↦ s
    | some f ↦ pedir_chave agora sala f s
  ]

  unfoldable pub encaminhar_remb : Faixa → ℤ → Sfu C → Sfu C
  unfolding escrever_ao_dono
  encaminhar_remb f bitrate s =
      if not f.origem.video || leb_int bitrate (pos 0)
      then s
      else elim (sessao_de f.sala f.dono s) [
        | none ↦ s
        | some se ↦ escrever_ao_dono f.sala f.dono (remb bitrate f.origem.ssrc) se s
      ]

  -- lerRTCPDaSaida, of the packets that one read gives; pedirChaveParaFaixa is pedir_chave.
  unfoldable pub ler_rtcp_da_saida : ℕ → Faixa → List Retorno → Sfu C → Sfu C
  unfolding pedir_chave apos_pedido encaminhar_remb
  ler_rtcp_da_saida agora f [] s = s
  ler_rtcp_da_saida agora f (perda ∷ ps) s =
      ler_rtcp_da_saida agora (apos_pedido agora f.sala f s) ps (pedir_chave agora f.sala f s)
  ler_rtcp_da_saida agora f (estimativa b ∷ ps) s =
      ler_rtcp_da_saida agora f ps (encaminhar_remb f b s)
  ler_rtcp_da_saida agora f (outro ∷ ps) s = ler_rtcp_da_saida agora f ps s

  -- OnConnectionStateChange.
  unfoldable pub mudou_estado : Texto → Texto → Estado → Sfu C → Sfu C
  unfolding pedir_chave_de_tudo
  mudou_estado sala peer conectada s = pedir_chave_de_tudo sala peer s
  mudou_estado sala peer falhou s = (sair pion sala peer s).0
  mudou_estado sala peer fechou s = (sair pion sala peer s).0
  mudou_estado sala peer intermediario s = s
