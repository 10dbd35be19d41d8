-- ===== src/Hub/Indice.antt =====
-- src/hub.go: the rooms are the inverse of the participants' own `sala`, through every handler.
pub mod Conjunto
pub mod Moldura
pub mod Sair
pub mod Entrou
pub mod Entrar
pub mod Repasse
pub mod Execucao
use greenlabs_server.Comum.{ℕ, ◌≤◌, ◌≡◌, ◌≢◌, Bool, true, false, some, List, [], ◌∷◌, length}
use greenlabs_server.Comum.Texto.{Texto}
use greenlabs_server.Comum.Mapa.{lookup}
use greenlabs_server.Hub.{Hub, sala_de, membros_de, contem}

-- No id stands twice.
abbrev pub Unicos : List Texto → Type 0
Unicos [] = Unit {0}
Unicos (x ∷ xs) = (contem x xs ≡ false) × Unicos xs

-- A room holds exactly the participants that say they are in it, once each, at most as many as the
-- limit; there is no empty room and none without a name.
pub record IsIndice {S : Type 0} (h : Hub S) : Type 0 where
  pub membro : (id s : Texto) → contem id (membros_de s h) ≡ true → sala_de id h ≡ s
  pub presente : (id : Texto) → sala_de id h ≢ [] → contem id (membros_de (sala_de id h) h) ≡ true
  pub sem_nome : membros_de [] h ≡ []
  pub ocupada : (s : Texto) → lookup s h.salas ≢ some []
  pub unicos : (s : Texto) → Unicos (membros_de s h)
  pub limite : (s : Texto) → length (membros_de s h) ≤ h.limite_por_sala
