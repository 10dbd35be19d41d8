-- ===== src/Hub/Midia/Repasse.antt =====
-- src/hub.go: the sessions of the SFU through the relaying of a message.
use greenlabs_server.Comum.{
  ℕ, ◌≡◌, sym, ◌∙◌, true, ◌||◌, Option, none, some, List, if◌then◌else◌, if_cases,
}
use greenlabs_server.Comum.Texto.{Texto, codes, eq_texto, vazio}
use greenlabs_server.Hub.{Hub, MensagemEntrada, Retransmissor, Json, sala_de, id_do_sfu}
use greenlabs_server.Hub.Operacoes.{
  repassar, repassar_ao_par, entregar_ao_sfu, entregar_do_sfu, com_estado, sdp_de,
}
use greenlabs_server.Hub.Indice.Repasse.{repassar_ao_par-Mesma, entregar_do_sfu-Mesma}
use greenlabs_server.Hub.Midia.{LeisRetransmissor, IsLigada, IsLigadaA}
use greenlabs_server.Hub.Midia.Parada.{sfu-repassar_ao_par, sfu-entregar_do_sfu}
use greenlabs_server.Hub.Midia.Ligada.{IsLigada-Mesma}

module _ {S : Type 0} (sfu : Retransmissor S) (leis : LeisRetransmissor sfu) (json : Json) where
  -- What SFU has behind a call that opens and closes no session, and what it sent.
  pub com_estado-IsLigada :
      (h : Hub S) (s : S) (r : S × List (Texto × List ℕ))
      → ((x y : Texto) → leis.tem_sessao x y r.0 ≡ true → leis.tem_sessao x y s ≡ true)
      → (leis.IsValida s → leis.IsValida r.0)
      → IsLigadaA sfu leis (λ y. sala_de y h) (some s)
      → IsLigada sfu leis (com_estado sfu json h r)
  com_estado-IsLigada h s (s', ms) e k (a, b) =
      let h1 : Hub S = record h { sfu = some s' } in
      IsLigada-Mesma sfu leis h1 (entregar_do_sfu sfu json ms h1)
        (entregar_do_sfu-Mesma sfu json ms h1) (sfu-entregar_do_sfu sfu json ms h1)
        (unfold sala_de in (k a, λ x y q. b x y (e x y q)))

  entregar_ao_sfu-IsLigada :
      (sala id : Texto) (m : MensagemEntrada) (bruto : List ℕ) (s : S) (h : Hub S)
      → IsLigada sfu leis h
      → IsLigadaA sfu leis (λ y. sala_de y h) (some s)
      → IsLigada sfu leis (entregar_ao_sfu sfu json sala id m bruto s h)
  unfolding entregar_ao_sfu
  entregar_ao_sfu-IsLigada sala id m bruto s h v w =
      if_cases (IsLigada sfu leis)
        (eq_texto m.tipo (codes "offer") || eq_texto m.tipo (codes "answer"))
        (λ _.
          if_cases (IsLigada sfu leis) (vazio (sdp_de sfu json bruto)) (λ _. v)
            (λ _.
              com_estado-IsLigada h s (sfu.descricao sala id m.tipo (sdp_de sfu json bruto) s)
                (λ x y q. sym (leis.descreve sala id m.tipo (sdp_de sfu json bruto) x y s) ∙ q)
                (leis.descreve_valida sala id m.tipo (sdp_de sfu json bruto) s) w))
        (λ _.
          if_cases (IsLigada sfu leis) (eq_texto m.tipo (codes "ice")) (λ _. caso (json.ice bruto))
            (λ _. v))
    where
      caso :
          (o : Option (Option (Texto × Texto)))
          → IsLigada sfu leis (elim o [
            | none ↦ h
            | some none ↦ h
            | some (some (c, mid)) ↦ com_estado sfu json h (sfu.candidato sala id c mid s)
          ])
      caso none = v
      caso (some none) = v
      caso (some (some (c, mid))) =
          com_estado-IsLigada h s (sfu.candidato sala id c mid s)
            (λ x y q. sym (leis.candidata sala id c mid x y s) ∙ q)
            (leis.candidata_valida sala id c mid s) w

  pub repassar-IsLigada :
      (id : Texto) (m : MensagemEntrada) (bruto : List ℕ) (h : Hub S)
      → IsLigada sfu leis h
      → IsLigada sfu leis (repassar sfu json id m bruto h)
  unfolding repassar
  repassar-IsLigada id m bruto h v =
      if_cases (IsLigada sfu leis) (vazio (sala_de id h) || vazio m.para) (λ _. v)
        (λ _. caso h.sfu v)
    where
      ao_par : IsLigada sfu leis (repassar_ao_par (sala_de id h) id m bruto h)
      ao_par =
          IsLigada-Mesma sfu leis h (repassar_ao_par (sala_de id h) id m bruto h)
            (repassar_ao_par-Mesma (sala_de id h) id m bruto h)
            (sfu-repassar_ao_par (sala_de id h) id m bruto h) v

      caso :
          (o : Option S)
          → IsLigadaA sfu leis (λ y. sala_de y h) o
          → IsLigada sfu leis (elim o [
            | none ↦ repassar_ao_par (sala_de id h) id m bruto h
            | some s ↦
                if eq_texto m.para id_do_sfu
                then entregar_ao_sfu sfu json (sala_de id h) id m bruto s h
                else repassar_ao_par (sala_de id h) id m bruto h
          ])
      caso none w = ao_par
      caso (some s) w =
          if_cases (IsLigada sfu leis) (eq_texto m.para id_do_sfu)
            (λ _. entregar_ao_sfu-IsLigada (sala_de id h) id m bruto s h v w) (λ _. ao_par)
