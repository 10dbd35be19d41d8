-- ===== src/Sfu/Stun/Rodadas.antt =====
-- src/sfu.go, descobrirIPPublico: the rounds of the loop over the attributes.
use greenlabs_server.Comum.{
  ℕ, zero, suc, ◌+◌, ◌*◌, ◌-◌, ◌≤◌, ◌≡◌, refl, List, [], ◌∷◌, length, drop, length-drop, arith,
}
use greenlabs_server.Sfu.Stun.{alinhar, procurar}

-- The loop of descobrirIPPublico over the attributes, on any body whatever: with as many rounds as the
-- body has bytes it ends of itself, and more rounds change nothing.
pub procurar_basta :
    (j k : ℕ) (corpo : List ℕ)
    → length corpo ≤ j
    → length corpo ≤ k
    → procurar j corpo ≡ procurar k corpo
unfolding procurar
procurar_basta zero zero corpo a b = refl
procurar_basta zero (suc k) [] a b = refl
procurar_basta zero (suc k) (x ∷ xs) a b = absurd (omega (arith, a))
procurar_basta (suc j) zero [] a b = refl
procurar_basta (suc j) zero (x ∷ xs) a b = absurd (omega (arith, b))
procurar_basta (suc j) (suc k) [] a b = refl
procurar_basta (suc j) (suc k) (w ∷ []) a b = refl
procurar_basta (suc j) (suc k) (w ∷ x ∷ []) a b = refl
procurar_basta (suc j) (suc k) (w ∷ x ∷ y ∷ []) a b = refl
procurar_basta (suc j) (suc k) (w ∷ x ∷ y ∷ z ∷ resto) a b =
    let n = alinhar (4 + (y * 256 + z)) - 4 in
    let menor = length-drop n resto in
    rw (procurar_basta j k (drop n resto) (omega (arith, menor, a)) (omega (arith, menor, b))) refl
