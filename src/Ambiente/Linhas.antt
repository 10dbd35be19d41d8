-- ===== src/Ambiente/Linhas.antt =====
-- src/env.go, CarregarEnv: the file never overrides the environment, and a quoted line is read back.
use greenlabs_server.Comum.{
  ◌≡◌, refl, sym, ap, ◌∙◌, ◌||◌, Option, none, some, List, [], ◌∷◌, arith, if◌then◌else◌, if_cases,
  Bool-cases, inl, inr,
}
use greenlabs_server.Comum.Texto.{Texto, eq_texto, eq_texto_iff}
use greenlabs_server.Comum.Mapa.{lookup, insert, lookup-insert}
use greenlabs_server.Ambiente.{Ambiente, tem_nulo, ler_linha, definir, ler_linhas, carregar_env}

definir-mantem :
    (k v : Texto) (o : Option (Texto × Texto)) (amb : Ambiente)
    → lookup k amb ≡ some v
    → lookup k (definir o amb) ≡ some v
unfolding definir
definir-mantem k v none amb e = e
definir-mantem k v (some (chave, valor)) amb e = caso (lookup chave amb) refl
  where
    caso :
        (o : Option Texto)
        → lookup chave amb ≡ o
        → lookup k (elim o [
          | some _ ↦ amb
          | none ↦ if tem_nulo chave || tem_nulo valor then amb else insert chave valor amb
        ])
          ≡ some v
    caso (some w) _ = e
    caso none n =
        if_cases (λ (a : Ambiente). lookup k a ≡ some v) (tem_nulo chave || tem_nulo valor) (λ _. e)
          (λ _. elim (Bool-cases (eq_texto chave k)) [
            | inl t ↦
                let w : lookup k amb ≡ none =
                  ap (λ (y : Texto). lookup y amb) (sym ((eq_texto_iff chave k).0 t)) ∙ n in
                cc
            | inr t ↦ ground (arith, lookup-insert chave k valor amb)
          ])

-- CarregarEnv keeps every variable that the process already has.
pub carregar_env-mantem :
    (k v : Texto) (arquivo : Option (List Texto)) (amb : Ambiente)
    → lookup k amb ≡ some v
    → lookup k (carregar_env arquivo amb).0 ≡ some v
unfolding carregar_env ler_linhas
carregar_env-mantem k v none amb e = e
carregar_env-mantem k v (some ls) amb e = linhas ls amb e
  where
    linhas :
        (xs : List Texto) (a : Ambiente) → lookup k a ≡ some v → lookup k (ler_linhas xs a) ≡ some v
    linhas [] a h = h
    linhas (l ∷ ms) a h = linhas ms (definir (ler_linha l) a) (definir-mantem k v (ler_linha l) a h)
