-- ===== src/Ambiente/Portas.antt =====
-- src/env.go: the port and the limits that come out of the environment.
use greenlabs_server.Comum.{
  ◌≡◌, ◌⊎◌, refl, true, not, ◌||◌, Option, none, some, List, [], ◌∷◌, arith, if◌then◌else◌,
  if_cases, inl, inr,
}
use greenlabs_server.Comum.Texto.{Texto, codes, trim_space}
use greenlabs_server.Comum.Inteiro.{ℤ, pos, leb_int, atoi}
use greenlabs_server.Ambiente.{
  Ambiente, getenv, porta_valida, porta_do_ambiente, resolver_porta, limite_do_ambiente,
}

porta_do_ambiente-valida :
    (chaves : List Texto) (amb : Ambiente) → porta_valida (porta_do_ambiente chaves amb) ≡ true
unfolding porta_do_ambiente
porta_do_ambiente-valida [] amb = unfold porta_valida in refl
porta_do_ambiente-valida (chave ∷ chaves) amb =
    caso (porta_do_ambiente-valida chaves amb) (atoi (trim_space (getenv chave amb)))
  where
    caso :
        porta_valida (porta_do_ambiente chaves amb) ≡ true
        → (o : Option ℤ)
        → porta_valida (elim o [
          | none ↦ porta_do_ambiente chaves amb
          | some n ↦ if porta_valida n then n else porta_do_ambiente chaves amb
        ])
          ≡ true
    caso r none = r
    caso r (some n) = if_cases (λ (m : ℤ). porta_valida m ≡ true) (porta_valida n) (λ e. e) (λ _. r)

-- ResolverPorta gives a port in 1..65535 whatever the environment holds, and the preferred one if it
-- is such a port itself.
pub resolver_porta-valida :
    (amb : Ambiente) (preferida : ℤ)
    → (porta_valida (resolver_porta amb preferida) ≡ true)
      × (porta_valida preferida ≡ true → resolver_porta amb preferida ≡ preferida)
unfolding resolver_porta
resolver_porta-valida amb preferida = (
  if_cases (λ (m : ℤ). porta_valida m ≡ true) (porta_valida preferida) (λ e. e)
      (λ _. porta_do_ambiente-valida (codes "PORT" ∷ codes "SERVER_PORT" ∷ []) amb),
  λ e. rw e,
)

-- limiteDoAmbiente, with a default in 1..maximo, gives a limit in 1..maximo, and it is the default
-- or the number that the variable holds.
pub limite_do_ambiente_bounds :
    (amb : Ambiente) (chave : Texto) (padrao maximo : ℤ)
    → leb_int (pos 1) padrao ≡ true
    → leb_int padrao maximo ≡ true
    → let n = limite_do_ambiente amb chave padrao maximo in
      (leb_int (pos 1) n ≡ true)
      × (leb_int n maximo ≡ true)
      × ((n ≡ padrao) ⊎ (atoi (trim_space (getenv chave amb)) ≡ some n))
unfolding limite_do_ambiente
limite_do_ambiente_bounds amb chave padrao maximo a b = caso (atoi (trim_space (getenv chave amb)))
  where
    Bom : Option ℤ → ℤ → Type 0
    Bom o n = (leb_int (pos 1) n ≡ true) × (leb_int n maximo ≡ true) × ((n ≡ padrao) ⊎ (o ≡ some n))

    caso :
        (o : Option ℤ)
        → Bom o (elim o [
          | none ↦ padrao
          | some n ↦ if not (leb_int (pos 1) n) || not (leb_int n maximo) then padrao else n
        ])
    caso none = (a, b, inl refl)
    caso (some n) =
        if_cases (Bom (some n)) (not (leb_int (pos 1) n) || not (leb_int n maximo))
          (λ _. (a, b, inl refl)) (λ e. (ground arith, ground arith, inr refl))
