-- ===== src/Servidor/Exemplos.antt =====
-- src/sinalizacao.go: the registry at an input.
use greenlabs_server.Comum.{List, [], ◌∷◌}
use greenlabs_server.Comum.Texto.{codes}
use greenlabs_server.Servidor.{Evento, chega, falha_aperto, conclui, sai, encerra}

abbrev dia : List Evento
dia =
    chega
    ∷ chega
    ∷ chega
    ∷ conclui (codes "a")
    ∷ falha_aperto
    ∷ encerra
    ∷ chega
    ∷ conclui (codes "b")
    ∷ sai (codes "a")
    ∷ []
