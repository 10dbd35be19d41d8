-- ===== src/Sfu/Sessoes.antt =====
-- src/sfu.go: what happens to one session. `assinar` is assinar, `oferecer` is oferecer, and the
-- others are the parts of Descricao, Candidato and removerFaixa behind the search of the session.
use greenlabs_server.Comum.{
  ℕ, Bool, true, false, not, ◌||◌, none, some, List, [], ◌∷◌, ◌++◌, ltb, if◌then◌else◌, length,
}
use greenlabs_server.Comum.Texto.{Texto, codes}
use greenlabs_server.Hub.{contem, incluir, remover}
use greenlabs_server.Sfu.{Candidato, Faixa, Pion, Sessao}
use greenlabs_server.Sfu.Mensagens.{mensagem_de_descricao}

abbrev pub maximo_pendentes : ℕ
maximo_pendentes = 256

module _ {C : Type 0} where
  unfoldable pub nova_sessao : Texto → C → Sessao C
  nova_sessao peer c = record {
    peer = peer;
    conexao = c;
    saidas = [];
    fechada = false;
    candidatos_pendentes = [];
    renegociar_depois = false;
    oferecendo = false;
  }

module _ {C : Type 0} (pion : Pion C) where
  -- A transceiver that cannot be added takes the entry out again.
  unfoldable pub assinar : Faixa → Sessao C → Sessao C
  assinar f s =
      if s.fechada || contem f.id s.saidas
      then s
      else (let (c, entregue) = pion.enviar_faixa f s.conexao in
          if entregue
          then record s { conexao = c; saidas = incluir f.id s.saidas }
          else record s { conexao = c })

  -- The offers that are sent, and whether there was no error. `oferecendo` is up only inside.
  unfoldable pub fazer_oferta : Sessao C → Sessao C × List (List ℕ) × Bool
  fazer_oferta s =
      let (c, oferta) = pion.ofertar s.conexao in
      elim oferta [
        | none ↦ (record s { conexao = c; oferecendo = false }, [], false)
        | some sdp ↦ (
          record s { conexao = c; oferecendo = false },
          mensagem_de_descricao (codes "offer") sdp ∷ [],
          true,
        )
      ]

  unfoldable pub oferecer : Sessao C → Sessao C × List (List ℕ) × Bool
  unfolding fazer_oferta
  oferecer s =
      if s.fechada
      then (s, [], true)
      else if s.oferecendo || not (pion.estavel s.conexao)
      then (record s { renegociar_depois = true }, [], true)
      else fazer_oferta (record s { oferecendo = true })

  -- assinarComChave, less the key frame.
  unfoldable pub assinar_e_oferecer : Faixa → Sessao C → Sessao C × List (List ℕ)
  unfolding assinar oferecer
  assinar_e_oferecer f s = let (s', ms, _) = oferecer (assinar f s) in (s', ms)

  -- The copy is taken out, and the participant told if it was being sent.
  unfoldable pub tirar_saida : Faixa → Sessao C → Sessao C × List (List ℕ)
  unfolding oferecer
  tirar_saida f s =
      let (c, tinha) = pion.tirar f s.conexao in
      let s1 = record s { saidas = remover f.id s.saidas; conexao = c } in
      if tinha then (let (s2, ms, _) = oferecer s1 in (s2, ms)) else (s1, [])

  unfoldable pub acrescentar_todos : List Candidato → C → C
  acrescentar_todos [] c = c
  acrescentar_todos (x ∷ xs) c = acrescentar_todos xs (pion.acrescentar x c)

  -- Behind a remote description that was taken: the candidates that waited for it.
  unfoldable pub soltar_candidatos : Sessao C → Sessao C
  unfolding acrescentar_todos
  soltar_candidatos s = record s {
    conexao = acrescentar_todos s.candidatos_pendentes s.conexao;
    candidatos_pendentes = [];
  }

  unfoldable pub apos_resposta : Sessao C → Sessao C × List (List ℕ)
  unfolding oferecer
  apos_resposta s =
      let s1 = record s { renegociar_depois = false } in
      if s.renegociar_depois then (let (s2, ms, _) = oferecer s1 in (s2, ms)) else (s1, [])

  unfoldable pub apos_oferta : Sessao C → Sessao C × List (List ℕ)
  apos_oferta s =
      let (c, resposta) = pion.responder s.conexao in
      elim resposta [
        | none ↦ (record s { conexao = c }, [])
        | some sdp ↦ (record s { conexao = c }, mensagem_de_descricao (codes "answer") sdp ∷ [])
      ]

  unfoldable pub descrever_sessao : Bool → Texto → Sessao C → Sessao C × List (List ℕ)
  unfolding soltar_candidatos apos_resposta apos_oferta
  descrever_sessao eh_resposta sdp s =
      let (c, aceita) = pion.descrever eh_resposta sdp s.conexao in
      let s1 = record s { conexao = c } in
      if aceita
      then (if eh_resposta
          then apos_resposta (soltar_candidatos s1)
          else apos_oferta (soltar_candidatos s1))
      else (s1, [])

  unfoldable pub guardar_candidato : Candidato → Sessao C → Sessao C
  guardar_candidato x s =
      if s.fechada
      then s
      else if not (pion.tem_remota s.conexao)
      then (if ltb (length s.candidatos_pendentes) maximo_pendentes
          then record s { candidatos_pendentes = s.candidatos_pendentes ++ (x ∷ []) }
          else s)
      else record s { conexao = pion.acrescentar x s.conexao }

  unfoldable pub fechar_sessao : Sessao C → Sessao C
  fechar_sessao s = record s { fechada = true; conexao = pion.fechar s.conexao }
