-- ===== src/Sfu/Faixas.antt =====
-- src/sfu.go: permitirChave, insistirNaChave and the writes through a pointer to a track. A pointer is
-- its number, and a write through it changes the one on the air; one that is off the air is seen by
-- nobody.
pub mod Espaco
use greenlabs_server.Comum.{
  ℕ, ◌+◌, Bool, true, false, Option, none, some, List, [], ◌∷◌, ◌==◌, ltb, if◌then◌else◌,
}
use greenlabs_server.Comum.Texto.{Texto}
use greenlabs_server.Comum.Mapa.{lookup, insert}
use greenlabs_server.Sfu.{Faixa, Sfu}

abbrev pub intervalo_de_chave : ℕ
intervalo_de_chave = 500

-- permitirChave; the zero time is `none`.
unfoldable pub permitir_chave : ℕ → Faixa → Faixa × Bool
permitir_chave agora f = elim f.ultima_chave [
  | none ↦ (record f { ultima_chave = some agora }, true)
  | some antes ↦
      if ltb agora (antes + intervalo_de_chave)
      then (f, false)
      else (record f { ultima_chave = some agora }, true)
]

-- A write through the pointer `n`.
unfoldable pub mudar_faixa : ℕ → (Faixa → Faixa) → List Faixa → List Faixa
mudar_faixa n g [] = []
mudar_faixa n g (f ∷ fs) =
    let resto = mudar_faixa n g fs in if f.numero == n then g f ∷ resto else f ∷ resto

unfoldable pub achar_faixa : ℕ → List Faixa → Option Faixa
achar_faixa n [] = none
achar_faixa n (f ∷ fs) = let resto = achar_faixa n fs in if f.numero == n then some f else resto

module _ {C : Type 0} where
  unfoldable pub na_faixa : Texto → ℕ → (Faixa → Faixa) → Sfu C → Sfu C
  unfolding mudar_faixa
  na_faixa sala n g s = elim (lookup sala s.faixas) [
    | none ↦ s
    | some fs ↦ record s { faixas = insert sala (mudar_faixa n g fs) s.faixas }
  ]

  -- insistirNaChave: the second result is whether a goroutine starts.
  unfoldable pub insistir_na_chave : Texto → Faixa → Sfu C → Sfu C × Bool
  unfolding na_faixa
  insistir_na_chave sala f s =
      if f.repetindo_chave
      then (s, false)
      else (na_faixa sala f.numero (λ g. record g { repetindo_chave = true }) s, true)

  unfoldable pub parar_de_insistir : Texto → ℕ → Sfu C → Sfu C
  unfolding na_faixa
  parar_de_insistir sala n s = na_faixa sala n (λ g. record g { repetindo_chave = false }) s
