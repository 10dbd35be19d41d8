-- ===== src/Sfu/Salas.antt =====
-- src/sfu.go: Entrar, aoReceberFaixa, removerFaixa, Descricao, Candidato and Sair.
use greenlabs_server.Comum.{
  ℕ, ◌+◌, Bool, false, not, ◌||◌, Option, none, some, List, [], ◌∷◌, ◌++◌, ◌==◌, map, if◌then◌else◌,
}
use greenlabs_server.Comum.Texto.{Texto, codes, eq_texto, vazio}
use greenlabs_server.Comum.Mapa.{Mapa, lookup, insert, erase}
use greenlabs_server.Sfu.{Origem, Faixa, Pion, Sessao, Sfu, sessoes_de, sessao_de, faixas_de}
use greenlabs_server.Sfu.Mensagens.{id_da_faixa, id_do_fluxo}
use greenlabs_server.Sfu.Faixas.{insistir_na_chave}
use greenlabs_server.Sfu.Sessoes.{
  nova_sessao, assinar, oferecer, assinar_e_oferecer, tirar_saida, descrever_sessao,
  guardar_candidato, fechar_sessao,
}

abbrev pub Enviadas : Type 0
Enviadas = List (Texto × List ℕ)

abbrev pub para_peer : Texto → List (List ℕ) → Enviadas
para_peer peer ms = map (λ d. (peer, d)) ms

-- The tracks without the one that a pointer points to.
unfoldable pub sem_faixa : ℕ → List Faixa → List Faixa
sem_faixa n [] = []
sem_faixa n (f ∷ fs) = let resto = sem_faixa n fs in if f.numero == n then resto else f ∷ resto

-- The copy of a track, with its pointer.
unfoldable pub criar_faixa : Texto → Texto → Origem → ℕ → Faixa
criar_faixa sala dono o n = record {
  numero = n;
  sala = sala;
  dono = dono;
  origem = o;
  id = id_da_faixa dono o;
  fluxo = id_do_fluxo dono o;
  ultima_chave = none;
  repetindo_chave = false;
}

module _ {C : Type 0} where
  -- One session written back, and the sessions of a room but one's, each in turn.
  unfoldable pub guardar : Texto → Texto → Sessao C → Sfu C → Sfu C
  guardar sala peer se s = record s {
    salas = insert sala (insert peer se (sessoes_de sala s)) s.salas;
  }

  unfoldable pub tem_outros : Texto → Mapa (Sessao C) → Bool
  tem_outros dono [] = false
  tem_outros dono ((peer, se) ∷ m) = not (eq_texto peer dono) || tem_outros dono m

  unfoldable pub para_outros :
      Texto → (Sessao C → Sessao C × List (List ℕ)) → Mapa (Sessao C) → Mapa (Sessao C) × Enviadas
  para_outros dono f [] = ([], [])
  para_outros dono f ((peer, se) ∷ m) =
      let (m', resto) = para_outros dono f m in
      let (se', ms) = f se in
      if eq_texto peer dono
      then ((peer, se) ∷ m', resto)
      else ((peer, se') ∷ m', para_peer peer ms ++ resto)

  -- A room that is not there has no sessions, and none is made.
  unfoldable pub na_sala :
      Texto → Texto → (Sessao C → Sessao C × List (List ℕ)) → Sfu C → Sfu C × Enviadas
  unfolding para_outros
  na_sala sala dono f s = elim (lookup sala s.salas) [
    | none ↦ (s, [])
    | some m ↦
        (let (m', ms) = para_outros dono f m in (record s { salas = insert sala m' s.salas }, ms))
  ]

module _ {C : Type 0} (pion : Pion C) where
  -- Those of the others.
  unfoldable pub assinar_todas : Texto → List Faixa → Sessao C → Sessao C
  assinar_todas peer [] se = se
  assinar_todas peer (f ∷ fs) se =
      assinar_todas peer fs (if eq_texto f.dono peer then se else assinar pion f se)

  -- The session stays in the room when the offer fails.
  unfoldable pub entrar : Texto → Texto → Sfu C → Sfu C × List (List ℕ) × Bool
  unfolding assinar_todas guardar
  entrar sala peer s = elim pion.nova [
    | none ↦ (s, [], false)
    | some c ↦
        (let nova = assinar_todas peer (faixas_de sala s) (nova_sessao peer c) in
          let (se, ms, certo) = oferecer pion nova in (guardar sala peer se s, ms, certo))
  ]

  -- aoReceberFaixa up to the copying. Of the calls of insistirNaChave, one for each of the others, the
  -- first alone does something.
  unfoldable pub publicar : Texto → Texto → Origem → Sfu C → Sfu C × Enviadas
  unfolding criar_faixa na_sala insistir_na_chave tem_outros
  publicar sala dono o s =
      let f = criar_faixa sala dono o s.proximo_numero in
      let s1 = record s {
        faixas = insert sala (faixas_de sala s ++ (f ∷ [])) s.faixas;
        proximo_numero = s.proximo_numero + 1;
      } in
      let (s2, ms) = na_sala sala dono (assinar_e_oferecer pion f) s1 in
      if not (pion.copiar f)
      then (s, [])
      else (if tem_outros dono (sessoes_de sala s) then (insistir_na_chave sala f s2).0 else s2, ms)

  unfoldable pub remover_faixa : Faixa → Sfu C → Sfu C × Enviadas
  unfolding na_sala sem_faixa
  remover_faixa f s =
      let s1 = record s {
        faixas = insert f.sala (sem_faixa f.numero (faixas_de f.sala s)) s.faixas;
      } in
      na_sala f.sala f.dono (tirar_saida pion f) s1

  unfoldable pub descricao : Texto → Texto → Texto → Texto → Sfu C → Sfu C × Enviadas
  unfolding guardar
  descricao sala peer tipo sdp s = elim (sessao_de sala peer s) [
    | none ↦ (s, [])
    | some se ↦
        if eq_texto tipo (codes "answer") || eq_texto tipo (codes "offer")
        then (let (se', ms) = descrever_sessao pion (eq_texto tipo (codes "answer")) sdp se in
            (guardar sala peer se' s, para_peer peer ms))
        else (s, [])
  ]

  unfoldable pub candidato : Texto → Texto → Texto → Texto → Sfu C → Sfu C × Enviadas
  unfolding guardar
  candidato sala peer texto mid s = elim (sessao_de sala peer s) [
    | none ↦ (s, [])
    | some se ↦ if vazio texto then (s, []) else (
      guardar sala peer
          (guardar_candidato pion (record { candidato = texto; mid = some mid; indice = some 0 })
            se)
          s,
      [],
    )
  ]

  -- The room goes with its last session, and its tracks with it. The second result is the session
  -- that was closed.
  unfoldable pub sair : Texto → Texto → Sfu C → Sfu C × Option (Sessao C)
  sair sala peer s =
      let resto = erase peer (sessoes_de sala s) in
      (
        if vazio resto
            then record s { salas = erase sala s.salas; faixas = erase sala s.faixas }
            else record s { salas = insert sala resto s.salas },
        elim (sessao_de sala peer s) [ none ↦ none | some se ↦ some (fechar_sessao pion se) ],
      )
