-- ===== src/Hub/Midia.antt =====
-- src/hub.go with the SFU: what the hub relies on of the retransmitter, and its sessions against the
-- rooms.
pub mod Parada
pub mod Passos
pub mod Ligada
pub mod Repasse
pub mod Execucao
use greenlabs_server.Comum.{
  ℕ, ◌≡◌, Bool, true, false, ◌&&◌, ◌||◌, Option, none, some, if◌then◌else◌,
}
use greenlabs_server.Comum.Texto.{Texto, eq_texto, vazio}
use greenlabs_server.Hub.{Hub, Retransmissor, sala_de}

-- A retransmitter that opens and closes just the session that it is told to, and what it keeps.
pub record LeisRetransmissor {S : Type 0} (sfu : Retransmissor S) : Type 1 where
  pub IsValida : S → Type 0
  pub tem_sessao : Texto → Texto → S → Bool
  pub entra :
      (sala id x y : Texto) (s : S)
      → tem_sessao x y (sfu.entrar sala id s).0 ≡ true
      → ((eq_texto sala x && eq_texto id y) || tem_sessao x y s) ≡ true
  pub sai :
      (sala id x y : Texto) (s : S)
      → tem_sessao x y (sfu.sair sala id s)
        ≡ (if eq_texto sala x && eq_texto id y then false else tem_sessao x y s)
  pub descreve :
      (sala id tipo sdp x y : Texto) (s : S)
      → tem_sessao x y (sfu.descricao sala id tipo sdp s).0 ≡ tem_sessao x y s
  pub candidata :
      (sala id texto mid x y : Texto) (s : S)
      → tem_sessao x y (sfu.candidato sala id texto mid s).0 ≡ tem_sessao x y s
  pub entra_valida : (sala id : Texto) (s : S) → IsValida s → IsValida (sfu.entrar sala id s).0
  pub sai_valida : (sala id : Texto) (s : S) → IsValida s → IsValida (sfu.sair sala id s)
  pub descreve_valida :
      (sala id tipo sdp : Texto) (s : S)
      → IsValida s
      → IsValida (sfu.descricao sala id tipo sdp s).0
  pub candidata_valida :
      (sala id texto mid : Texto) (s : S)
      → IsValida s
      → IsValida (sfu.candidato sala id texto mid s).0

module _ {S : Type 0} (sfu : Retransmissor S) (leis : LeisRetransmissor sfu) where
  -- A session is of a participant in that room, which has a name.
  abbrev pub IsLigadaA : (Texto → Texto) → Option S → Type 0
  IsLigadaA sala_do none = Unit {0}
  IsLigadaA sala_do (some s) =
      leis.IsValida s
      × ((x y : Texto) → leis.tem_sessao x y s ≡ true → (vazio x ≡ false) × (sala_do y ≡ x))

  abbrev pub IsLigada : Hub S → Type 0
  IsLigada h = IsLigadaA (λ y. sala_de y h) h.sfu
