-- ===== src/Sfu/Encaminhamento/Busca.antt =====
-- src/sfu.go: what the operations on rooms do to the session of any participant of any room.
use greenlabs_server.Comum.{
  ℕ, Option-cases, ◌≡◌, refl, sym, ap, ◌∙◌, Bool, true, false, not, ◌&&◌, ◌==◌, Option, none, some,
  List, [], ◌∷◌, if◌then◌else◌, Bool-cases, inl, inr, ◌⊎◌, arith,
}
use greenlabs_server.Comum.Texto.{Texto, eq_texto, eq_texto_iff, vazio}
use greenlabs_server.Comum.Mapa.{Mapa, lookup, insert, erase, lookup-insert, lookup-erase}
use greenlabs_server.Sfu.{Faixa, Pion, Sessao, Sfu, sessoes_de, sessao_de, faixas_de}
use greenlabs_server.Sfu.Salas.{guardar, para_outros, na_sala, sem_faixa, sair}
use greenlabs_server.Sfu.Encaminhamento.{oferecida}

-- Where two tracks have one pointer or one id, they are one track.
abbrev pub coerente : Faixa → List Faixa → Bool
coerente f [] = true
coerente f (g ∷ gs) =
    (if g.numero == f.numero
      then eq_texto g.id f.id && eq_texto g.dono f.dono
      else not (eq_texto g.id f.id))
    && coerente f gs

pub oferecida-sem_faixa :
    (f : Faixa) (fs : List Faixa) (id peer : Texto)
    → coerente f fs ≡ true
    → eq_texto peer f.dono ≡ false
    → oferecida id peer (sem_faixa f.numero fs)
      ≡ (if eq_texto f.id id then false else oferecida id peer fs)
unfolding sem_faixa
oferecida-sem_faixa f [] id peer c n = ground arith
oferecida-sem_faixa f (g ∷ gs) id peer c n = ground (
  arith,
  oferecida-sem_faixa f gs id peer,
  eq_texto_iff g.id f.id,
  eq_texto_iff f.id id,
  eq_texto_iff g.id id,
)

-- The publisher itself was never sent it.
pub oferecida-sem_faixa_dono :
    (f : Faixa) (fs : List Faixa) (id peer : Texto)
    → coerente f fs ≡ true
    → eq_texto peer f.dono ≡ true
    → oferecida id peer (sem_faixa f.numero fs) ≡ oferecida id peer fs
unfolding sem_faixa
oferecida-sem_faixa_dono f [] id peer c n = refl
oferecida-sem_faixa_dono f (g ∷ gs) id peer c n = ground (
  arith,
  oferecida-sem_faixa_dono f gs id peer,
  eq_texto_iff peer f.dono,
  eq_texto_iff g.dono f.dono,
  eq_texto_iff g.dono peer,
)

module _ {C : Type 0} where
  -- Every session but one's.
  abbrev pub mudada :
      Texto → (Sessao C → Sessao C × List (List ℕ)) → Texto → Option (Sessao C) → Option (Sessao C)
  mudada dono g peer none = none
  mudada dono g peer (some se) = if eq_texto peer dono then some se else some (g se).0

  lookup-para_outros :
      (dono x : Texto) (g : Sessao C → Sessao C × List (List ℕ)) (m : Mapa (Sessao C))
      → lookup x (para_outros dono g m).0 ≡ mudada dono g x (lookup x m)
  unfolding para_outros lookup
  lookup-para_outros dono x g [] = refl
  lookup-para_outros dono x g ((k, se) ∷ m) = elim (Bool-cases (eq_texto k x)) [
    | inl t ↦ elim (Bool-cases (eq_texto k dono)) [
      | inl u ↦ ground (arith, eq_texto_iff k x, eq_texto_iff k dono, eq_texto_iff x dono)
      | inr u ↦ ground (arith, eq_texto_iff k x, eq_texto_iff k dono, eq_texto_iff x dono)
    ]
    | inr t ↦ elim (Bool-cases (eq_texto k dono)) [
      | inl u ↦ ground (arith, lookup-para_outros dono x g m)
      | inr u ↦ ground (arith, lookup-para_outros dono x g m)
    ]
  ]

  lookup_vazio : (y : Texto) → ◌≡◌ {A = Option (Sessao C)} (lookup y []) none
  unfolding lookup
  lookup_vazio y = refl

  lookup_de_vazio : (y : Texto) (m : Mapa (Sessao C)) → vazio m ≡ true → lookup y m ≡ none
  unfolding lookup
  lookup_de_vazio y [] e = refl
  lookup_de_vazio y (p ∷ m) e = cc

  pub sessao_de-na_sala :
      (sala dono x y : Texto) (g : Sessao C → Sessao C × List (List ℕ)) (s : Sfu C)
      → sessao_de x y (na_sala sala dono g s).0
        ≡ (if eq_texto sala x then mudada dono g y (sessao_de x y s) else sessao_de x y s)
  unfolding sessao_de sessoes_de na_sala
  sessao_de-na_sala sala dono x y g s = elim (Option-cases (lookup sala s.salas)) [
    | inl e ↦ elim (Bool-cases (eq_texto sala x)) [
      | inl t ↦
          let k : lookup x s.salas ≡ none =
            ap (λ (z : Texto). lookup z s.salas) (sym ((eq_texto_iff sala x).0 t)) ∙ e in
          ground (arith, k, lookup_vazio y)
      | inr t ↦ ground arith
    ]
    | inr (m, e) ↦ elim (Bool-cases (eq_texto sala x)) [
      | inl t ↦
          let k : lookup x s.salas ≡ some m =
            ap (λ (z : Texto). lookup z s.salas) (sym ((eq_texto_iff sala x).0 t)) ∙ e in
          ground (
            arith,
            k,
            lookup-insert sala x (para_outros dono g m).0 s.salas,
            lookup-para_outros dono y g m,
          )
      | inr t ↦ ground (arith, lookup-insert sala x (para_outros dono g m).0 s.salas)
    ]
  ]

  pub faixas_de-na_sala :
      (sala dono x : Texto) (g : Sessao C → Sessao C × List (List ℕ)) (s : Sfu C)
      → faixas_de x (na_sala sala dono g s).0 ≡ faixas_de x s
  unfolding faixas_de na_sala
  faixas_de-na_sala sala dono x g s = ground arith

  pub sessao_de-guardar :
      (sala peer x y : Texto) (se : Sessao C) (s : Sfu C)
      → sessao_de x y (guardar sala peer se s)
        ≡ (if eq_texto sala x && eq_texto peer y then some se else sessao_de x y s)
  unfolding sessao_de sessoes_de guardar
  sessao_de-guardar sala peer x y se s = ground (
    arith,
    lookup-insert sala x (insert peer se (sessoes_de sala s)) s.salas,
    lookup-insert peer y se (sessoes_de sala s),
    eq_texto_iff sala x,
  )

  pub faixas_de-guardar :
      (sala peer x : Texto) (se : Sessao C) (s : Sfu C)
      → faixas_de x (guardar sala peer se s) ≡ faixas_de x s
  unfolding faixas_de guardar
  faixas_de-guardar sala peer x se s = refl

  -- Other tracks of one room.
  abbrev pub com_faixas : Texto → List Faixa → ℕ → Sfu C → Sfu C
  com_faixas sala gs n s = record {
    salas = s.salas;
    faixas = insert sala gs s.faixas;
    proximo_numero = n;
  }

  pub sessao_de-com_faixas :
      (sala x y : Texto) (gs : List Faixa) (n : ℕ) (s : Sfu C)
      → sessao_de x y (com_faixas sala gs n s) ≡ sessao_de x y s
  unfolding sessao_de sessoes_de
  sessao_de-com_faixas sala x y gs n s = refl

  pub faixas_de-com_faixas :
      (sala x : Texto) (gs : List Faixa) (n : ℕ) (s : Sfu C)
      → faixas_de x (com_faixas sala gs n s) ≡ (if eq_texto sala x then gs else faixas_de x s)
  unfolding faixas_de
  faixas_de-com_faixas sala x gs n s = ground (arith, lookup-insert sala x gs s.faixas)

module _ {C : Type 0} (pion : Pion C) where
  pub sessao_de-sair :
      (sala peer x y : Texto) (s : Sfu C)
      → sessao_de x y (sair pion sala peer s).0
        ≡ (if eq_texto sala x && eq_texto peer y then none else sessao_de x y s)
  unfolding sessao_de sessoes_de sair
  sessao_de-sair sala peer x y s =
      let m : Mapa (Sessao C) = sessoes_de sala s in
      let resto = erase peer m in
      elim (Bool-cases (vazio resto)) [
        | inl t ↦ ground (
          arith,
          lookup-erase sala x s.salas,
          lookup-erase peer y m,
          lookup_de_vazio y resto t,
          lookup_vazio y,
          eq_texto_iff sala x,
        )
        | inr t ↦
            ground (
              arith,
              lookup-insert sala x resto s.salas,
              lookup-erase peer y m,
              eq_texto_iff sala x,
            )
      ]

  esvaziou :
      (sala peer x y : Texto) (s : Sfu C)
      → eq_texto sala x ≡ true
      → vazio (erase peer (sessoes_de sala s)) ≡ true
      → sessao_de x y (sair pion sala peer s).0 ≡ none
  unfolding sessao_de sessoes_de
  esvaziou sala peer x y s u t =
      let m : Mapa (Sessao C) = sessoes_de sala s in
      sessao_de-sair sala peer x y s
      ∙ ground
          (arith, lookup-erase peer y m, lookup_de_vazio y (erase peer m) t, eq_texto_iff sala x)

  mesmas_faixas :
      (sala peer x : Texto) (s : Sfu C)
      → (eq_texto sala x && vazio (erase peer (sessoes_de sala s))) ≡ false
      → faixas_de x (sair pion sala peer s).0 ≡ faixas_de x s
  unfolding faixas_de sair
  mesmas_faixas sala peer x s n = elim (Bool-cases (vazio (erase peer (sessoes_de sala s)))) [
    | inl t ↦ ground (arith, lookup-erase sala x s.faixas)
    | inr t ↦ ground arith
  ]

  -- A session that stays keeps the tracks of its room.
  pub sair-cases :
      (sala peer x y : Texto) (s : Sfu C)
      → (sessao_de x y (sair pion sala peer s).0 ≡ none)
        ⊎ ((sessao_de x y (sair pion sala peer s).0 ≡ sessao_de x y s)
            × (faixas_de x (sair pion sala peer s).0 ≡ faixas_de x s))
  sair-cases sala peer x y s = elim (Bool-cases (eq_texto sala x)) [
    | inl u ↦ elim (Bool-cases (vazio (erase peer (sessoes_de sala s)))) [
      | inl t ↦ inl (esvaziou sala peer x y s u t)
      | inr t ↦ elim (Bool-cases (eq_texto peer y)) [
        | inl w ↦ inl (ground (arith, sessao_de-sair sala peer x y s))
        | inr w ↦ inr (
          ground (arith, sessao_de-sair sala peer x y s),
          mesmas_faixas sala peer x s (ground arith),
        )
      ]
    ]
    | inr u ↦
        inr (
          ground (arith, sessao_de-sair sala peer x y s),
          mesmas_faixas sala peer x s (ground arith),
        )
  ]
