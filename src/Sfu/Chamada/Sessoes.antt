-- ===== src/Sfu/Chamada/Sessoes.antt =====
-- src/sfu.go: which operations open and close sessions.
use greenlabs_server.Comum.{
  ℕ, ◌≡◌, refl, sym, ap, ◌∙◌, subst₂, Bool, true, false, not, ◌&&◌, ◌||◌, Option, none, some, List,
  [], ◌∷◌, if◌then◌else◌, if_cases, Bool-cases, inl, inr, arith,
}
use greenlabs_server.Comum.Texto.{Texto, eq_texto, eq_texto_iff}
use greenlabs_server.Hub.{contem}
use greenlabs_server.Sfu.{Faixa, Sessao, Sfu, sessao_de, faixas_de}
use greenlabs_server.Sfu.Faixas.{na_faixa, insistir_na_chave}
use greenlabs_server.Sfu.Salas.{guardar, na_sala}
use greenlabs_server.Sfu.Chaves.{insistir_em_todas, pedir_chave_de_tudo}
use greenlabs_server.Sfu.Encaminhamento.Busca.{mudada, sessao_de-na_sala, sessao_de-guardar}
use greenlabs_server.Sfu.Encaminhamento.Chaves.{sessao_de-na_faixa}

module _ {C : Type 0} where
  abbrev pub ha : Option (Sessao C) → Bool
  ha none = false
  ha (some se) = true

  -- The participant has a session in the room.
  abbrev pub tem_sessao : Texto → Texto → Sfu C → Bool
  tem_sessao sala peer s = ha (sessao_de sala peer s)

  -- The same sessions, and no other than before.
  abbrev pub Iguais : Sfu C → Sfu C → Type 0
  Iguais s s' = (x y : Texto) → tem_sessao x y s' ≡ tem_sessao x y s

  abbrev pub SemNova : Sfu C → Sfu C → Type 0
  SemNova s s' = (x y : Texto) → tem_sessao x y s' ≡ true → tem_sessao x y s ≡ true

  pub SemNova-Iguais : (s s' : Sfu C) → Iguais s s' → SemNova s s'
  SemNova-Iguais s s' e x y k = sym (e x y) ∙ k

  pub Iguais-trans : (s s' s'' : Sfu C) → Iguais s s' → Iguais s' s'' → Iguais s s''
  Iguais-trans s s' s'' a b x y = b x y ∙ a x y

  pub na_faixa-Iguais :
      (sala : Texto) (n : ℕ) (g : Faixa → Faixa) (s : Sfu C) → Iguais s (na_faixa sala n g s)
  na_faixa-Iguais sala n g s x y = ap ha (sessao_de-na_faixa sala x y n g s)

  pub ha-if :
      (b : Bool) (o o' : Option (Sessao C)) → ha (if b then o else o') ≡ (if b then ha o else ha o')
  ha-if true o o' = refl
  ha-if false o o' = refl

  pub guardar-tem_sessao :
      (sala peer x y : Texto) (se : Sessao C) (s : Sfu C)
      → tem_sessao x y (guardar sala peer se s)
        ≡ (if eq_texto sala x && eq_texto peer y then true else tem_sessao x y s)
  guardar-tem_sessao sala peer x y se s =
      ap ha (sessao_de-guardar sala peer x y se s)
      ∙ ha-if (eq_texto sala x && eq_texto peer y) (some se) (sessao_de x y s)

  -- One that is there is written back.
  pub guardar-Iguais :
      (sala peer : Texto) (a se : Sessao C) (s : Sfu C)
      → sessao_de sala peer s ≡ some a
      → Iguais s (guardar sala peer se s)
  guardar-Iguais sala peer a se s e x y =
      guardar-tem_sessao sala peer x y se s
      ∙ (elim (Bool-cases (eq_texto sala x && eq_texto peer y)) [
        | inl t ↦ rw t (
            sym (
              subst₂ (λ (b d : Texto). tem_sessao b d s ≡ true)
                ((eq_texto_iff sala x).0 (ground arith)) ((eq_texto_iff peer y).0 (ground arith))
                (ap ha e)))
        | inr t ↦ rw t
      ])

  pub na_sala-Iguais :
      (sala dono : Texto) (g : Sessao C → Sessao C × List (List ℕ)) (s : Sfu C)
      → Iguais s (na_sala sala dono g s).0
  na_sala-Iguais sala dono g s x y =
      ap ha (sessao_de-na_sala sala dono x y g s) ∙ conserva (eq_texto sala x) (sessao_de x y s)
    where
      conserva : (b : Bool) (o : Option (Sessao C)) → ha (if b then mudada dono g y o else o) ≡ ha o
      conserva true none = refl
      conserva true (some se) = ha-if (eq_texto y dono) (some se) (some (g se).0) ∙ ground arith
      conserva false o = refl

  pub insistir_na_chave-Iguais :
      (sala : Texto) (f : Faixa) (s : Sfu C) → Iguais s (insistir_na_chave sala f s).0
  unfolding insistir_na_chave
  insistir_na_chave-Iguais sala f s =
      if_cases (λ (r : Sfu C × Bool). Iguais s r.0) f.repetindo_chave (λ _ x y. refl)
        (λ _. na_faixa-Iguais sala f.numero (λ g. record g { repetindo_chave = true }) s)

  pub insistir_em_todas-Iguais :
      (sala peer : Texto) (se : Sessao C) (fs : List Faixa) (s : Sfu C)
      → Iguais s (insistir_em_todas sala peer se fs s)
  unfolding insistir_em_todas
  insistir_em_todas-Iguais sala peer se [] s = λ x y. refl
  insistir_em_todas-Iguais sala peer se (f ∷ fs) s =
      let p : Bool = eq_texto f.dono peer || not (contem f.id se.saidas) in
      let s1 : Sfu C = if p then s else (insistir_na_chave sala f s).0 in
      Iguais-trans s s1 (insistir_em_todas sala peer se fs s1)
        (if_cases (Iguais s) p (λ _ x y. refl) (λ _. insistir_na_chave-Iguais sala f s))
        (insistir_em_todas-Iguais sala peer se fs s1)

  pub pedir_chave_de_tudo-Iguais :
      (sala peer : Texto) (s : Sfu C) → Iguais s (pedir_chave_de_tudo sala peer s)
  unfolding pedir_chave_de_tudo
  pedir_chave_de_tudo-Iguais sala peer s = caso (sessao_de sala peer s)
    where
      caso :
          (o : Option (Sessao C))
          → Iguais s
              (elim o [ none ↦ s | some se ↦ insistir_em_todas sala peer se (faixas_de sala s) s ])
      caso none = λ x y. refl
      caso (some se) = insistir_em_todas-Iguais sala peer se (faixas_de sala s) s
