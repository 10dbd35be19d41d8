-- ===== src/Servidor/Vagas.antt =====
-- src/sinalizacao.go: the places taken are those in use, and Fechar misses nobody.
use greenlabs_server.Comum.{◌+◌, ◌≤◌, ◌≡◌, true, ◌||◌, length}
use greenlabs_server.Comum.Texto.{Texto}
use greenlabs_server.Hub.{contem}
use greenlabs_server.Hub.Indice.{Unicos}
use greenlabs_server.Servidor.{Servidor}

-- The places are those of handshakes and of registered connections, at most as many as there are;
-- a connection whose handshake ended is registered or closed, and while the server closes it is closed.
pub record IsServidor (s : Servidor) : Type 0 where
  pub contadas : s.vagas ≡ s.negociando + length s.conexoes
  pub cabem : s.vagas ≤ s.capacidade
  pub unicas : Unicos s.conexoes
  pub registradas : (id : Texto) → contem id s.conexoes ≡ true → contem id s.aceitas ≡ true
  pub acompanhadas :
      (id : Texto)
      → contem id s.aceitas ≡ true
      → (contem id s.conexoes || contem id s.fechadas) ≡ true
  pub nenhuma_aberta :
      s.encerrando ≡ true → (id : Texto) → contem id s.aceitas ≡ true → contem id s.fechadas ≡ true
