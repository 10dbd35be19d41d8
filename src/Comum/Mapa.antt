-- ===== src/Comum/Mapa.antt =====
-- Go's map[string]V as an association list, one entry to a key where only `insert` and `erase`
-- build it. `range` over a map goes through the list; Go leaves its order open.
use Prim.Native.Nat.{◌+◌, ◌≤◌}
use mathlib.Core.Path.{◌≡◌, refl}
use mathlib.Core.Option.{Option, none, some}
use mathlib.Core.List.{List, [], ◌∷◌}
use native.Mathlib.Omega.{arith}
use greenlabs_server.Comum.Testes.{if◌then◌else◌}
use greenlabs_server.Comum.Listas.{length}
use greenlabs_server.Comum.Texto.{Texto, eq_texto, eq_texto_iff}

abbrev pub Mapa {ℓ} : Type ℓ → Type ℓ
Mapa V = List (Texto × V)

module _ {ℓ} {V : Type ℓ} where
  unfoldable pub lookup : Texto → Mapa V → Option V
  lookup chave [] = none
  lookup chave (e ∷ resto) =
      let adiante = lookup chave resto in if eq_texto e.0 chave then some e.1 else adiante

  unfoldable pub insert : Texto → V → Mapa V → Mapa V
  insert chave valor [] = (chave, valor) ∷ []
  insert chave valor (e ∷ resto) =
      let adiante = insert chave valor resto in
      if eq_texto e.0 chave then (chave, valor) ∷ resto else e ∷ adiante

  unfoldable pub erase : Texto → Mapa V → Mapa V
  erase chave [] = []
  erase chave (e ∷ resto) =
      let adiante = erase chave resto in if eq_texto e.0 chave then adiante else e ∷ adiante

  -- What a write and a deletion do to every key.
  pub lookup-insert :
      (a b : Texto) (valor : V) (mapa : Mapa V)
      → lookup b (insert a valor mapa) ≡ (if eq_texto a b then some valor else lookup b mapa)
  unfolding insert lookup
  lookup-insert a b valor [] = refl
  lookup-insert a b valor (e ∷ resto) = ground (
    arith,
    lookup-insert a b valor resto,
    eq_texto_iff e.0 a,
    eq_texto_iff e.0 b,
    eq_texto_iff a b,
  )

  pub lookup-erase :
      (a b : Texto) (mapa : Mapa V)
      → lookup b (erase a mapa) ≡ (if eq_texto a b then none else lookup b mapa)
  unfolding erase lookup
  lookup-erase a b [] = ground arith
  lookup-erase a b (e ∷ resto) =
      ground
        (arith, lookup-erase a b resto, eq_texto_iff e.0 a, eq_texto_iff e.0 b, eq_texto_iff a b)

  pub length-erase-le : (k : Texto) (m : Mapa V) → length (erase k m) ≤ length m
  unfolding erase
  length-erase-le k [] = omega arith
  length-erase-le k (e ∷ m) = ground (arith, length-erase-le k m)

  pub length-insert-le : (k : Texto) (v : V) (m : Mapa V) → length (insert k v m) ≤ length m + 1
  unfolding insert
  length-insert-le k v [] = omega arith
  length-insert-le k v (e ∷ m) = ground (arith, length-insert-le k v m)
