-- ===== src/Hub/Indice/Entrou.antt =====
-- src/hub.go, entrar: a participant that ends in a room, and what the rooms are then.
use greenlabs_server.Comum.{
  ℕ, ◌≤◌, ◌<◌, ◌≡◌, ◌≢◌, refl, sym, ap, ◌∙◌, ◌⊎◌, inl, inr, true, false, some, [], ◌∷◌,
  if◌then◌else◌, length, ltb, take, length-take, arith, Bool-cases,
}
use greenlabs_server.Comum.Texto.{
  Texto, codes, eq_texto, eq_texto_iff, eq_texto_refl, vazio, trim_space,
}
use greenlabs_server.Comum.Mapa.{lookup}
use greenlabs_server.Hub.{
  Hub, sala_padrao, tamanho_maximo_nome, sala_de, tem_peer, membros_de, contem, incluir,
}
use greenlabs_server.Hub.Operacoes.{sala_pedida, nome_pedido}
use greenlabs_server.Hub.Indice.{IsIndice}
use greenlabs_server.Hub.Indice.Conjunto.{contem-incluir, length-incluir-le, incluir-Unicos}
use greenlabs_server.Hub.Indice.Moldura.{Mesma, membros_de-Mesma}

pub sala_pedida-ne : (s : Texto) → sala_pedida s ≢ []
unfolding sala_pedida
sala_pedida-ne s = caso (trim_space s)
  where
    caso : (t : Texto) → (if vazio t then sala_padrao else t) ≢ []
    caso [] = λ e. cc
    caso (c ∷ cs) = λ e. cc

corte_bounds :
    (k : ℕ) (nome : Texto)
    → 1 ≤ k
    → 1 ≤ length nome
    → let r = if ltb k (length nome) then take k nome else nome in (1 ≤ length r) × (length r ≤ k)
corte_bounds k nome hk hn = ground (arith, length-take k nome)

-- A name is never empty and has at most 40 code points.
pub nome_pedido_bounds :
    (s : Texto) → (1 ≤ length (nome_pedido s)) × (length (nome_pedido s) ≤ tamanho_maximo_nome)
unfolding nome_pedido
nome_pedido_bounds [] =
    corte_bounds tamanho_maximo_nome (codes "Usuario") (omega arith) (omega arith)
nome_pedido_bounds (c ∷ cs) = corte_bounds tamanho_maximo_nome (c ∷ cs) (omega arith) (omega arith)

module _ {S : Type 0} where
  -- `id`, which was in no room, is in `sala` behind those who were.
  abbrev pub Entrou : Texto → Texto → Hub S → Hub S → Type 0
  Entrou id sala h h' =
      ((x : Texto) → sala_de x h' ≡ (if eq_texto id x then sala else sala_de x h))
      × ((s : Texto)
          → membros_de s h'
            ≡ (if eq_texto sala s then incluir id (membros_de sala h) else membros_de s h))
      × ((s : Texto) → lookup s h'.salas ≢ some [])
      × (h'.limite_por_sala ≡ h.limite_por_sala)
      × ((x : Texto) → tem_peer x h' ≡ tem_peer x h)

  -- A participant that has left its room asks for `sala`: it is in it if there was a place, and
  -- nothing of the rooms changes if there was none.
  abbrev pub Pediu : Texto → Texto → Hub S → Hub S → Type 0
  Pediu id sala h h' =
      ((length (membros_de sala h) < h.limite_por_sala) × Entrou id sala h h')
      ⊎ ((h.limite_por_sala ≤ length (membros_de sala h)) × Mesma h h')

  pub Entrou-Mesma :
      (id sala : Texto) (h h' h'' : Hub S)
      → Entrou id sala h h'
      → Mesma h' h''
      → Entrou id sala h h''
  Entrou-Mesma id sala h h' h'' (a, b, c, d, t) m = (
    λ x. m.2 x ∙ a x,
    λ s. membros_de-Mesma s h' h'' m ∙ b s,
    λ s e. c s (rw m.0 at e),
    m.1 ∙ d,
    λ x. m.3 x ∙ t x,
  )

  -- A participant without a room is in no room's map.
  fora_de_todas :
      (id s : Texto) (h : Hub S)
      → IsIndice h
      → sala_de id h ≡ []
      → contem id (membros_de s h) ≡ false
  fora_de_todas id s h v e = elim (Bool-cases (contem id (membros_de s h))) [
    | inr f ↦ f
    | inl t ↦
        let w : s ≡ [] = sym (v.membro id s t) ∙ e in
        let u : membros_de s h ≡ [] = ap (λ (y : Texto). membros_de y h) w ∙ v.sem_nome in
        ap (contem id) u ∙ unfold contem in refl
  ]

  pub IsIndice-Entrou :
      (id sala : Texto) (h h' : Hub S)
      → IsIndice h
      → sala ≢ []
      → sala_de id h ≡ []
      → length (membros_de sala h) < h.limite_por_sala
      → Entrou id sala h h'
      → IsIndice h'
  IsIndice-Entrou id sala h h' v ns fora cabe (a, b, c, d, _) = record {
    membro = λ x s e. membro' x s (Bool-cases (eq_texto sala s)) (Bool-cases (eq_texto id x)) e;
    presente = λ x n. presente' x n (Bool-cases (eq_texto id x));
    sem_nome = ground (arith, b [], v.sem_nome, eq_texto_iff sala []);
    ocupada = c;
    unicos =
        λ s. ground (arith, b s, v.unicos s, incluir-Unicos id (membros_de sala h), v.unicos sala);
    limite = λ s. ground (arith, b s, d, v.limite s, length-incluir-le id (membros_de sala h));
  }
    where
      membro' :
          (x s : Texto)
          → (eq_texto sala s ≡ true) ⊎ (eq_texto sala s ≡ false)
          → (eq_texto id x ≡ true) ⊎ (eq_texto id x ≡ false)
          → contem x (membros_de s h') ≡ true
          → sala_de x h' ≡ s
      membro' x s (inl t) (inl u) e = a x ∙ rw u ((eq_texto_iff sala s).0 t)
      membro' x s (inl t) (inr u) e =
          let k : contem x (membros_de sala h) ≡ true =
            sym (contem-incluir id x (membros_de sala h) ∙ rw u) ∙ (rw (b s, t) at e) in
          a x ∙ rw u (v.membro x sala k ∙ (eq_texto_iff sala s).0 t)
      membro' x s (inr t) (inl u) e =
          let k : contem id (membros_de s h) ≡ true = rw (b s, t, ← (eq_texto_iff id x).0 u) at e in
          let f = fora_de_todas id s h v fora in cc
      membro' x s (inr t) (inr u) e = a x ∙ rw u (v.membro x s (rw (b s, t) at e))

      presente' :
          (x : Texto)
          → sala_de x h' ≢ []
          → (eq_texto id x ≡ true) ⊎ (eq_texto id x ≡ false)
          → contem x (membros_de (sala_de x h') h') ≡ true
      presente' x n (inl u) =
          let g : sala_de x h' ≡ sala = a x ∙ rw u in
          rw (g, b sala, eq_texto_refl sala) (contem-incluir id x (membros_de sala h) ∙ rw u)
      presente' x n (inr u) =
          let g : sala_de x h' ≡ sala_de x h = a x ∙ rw u in
          let k : contem x (membros_de (sala_de x h) h) ≡ true = v.presente x (λ z. n (g ∙ z)) in
          rw (g, b (sala_de x h))
            (elim (Bool-cases (eq_texto sala (sala_de x h))) [
              | inl t ↦
                  rw (t, contem-incluir id x (membros_de sala h), u)
                    (ap (λ (y : Texto). contem x (membros_de y h))
                        ((eq_texto_iff sala (sala_de x h)).0 t)
                      ∙ k)
              | inr t ↦ rw t k
            ])
