-- ===== src/Sfu/Chamada.antt =====
-- src/hub.go with src/sfu.go: the hub over the server of media that the program gives it.
pub mod Sessoes
pub mod Ocorrencias
pub mod Retransmissor
pub mod Execucao
mod Exemplos
