-- ===== src/Ambiente/Argumentos.antt =====
-- src/main.go, lerOpcoes: the two spellings of an option with a value.
use greenlabs_server.Comum.{◌≡◌, refl, List, [], ◌∷◌, ◌++◌}
use greenlabs_server.Comum.Texto.{Texto, codes, eq_texto, has_prefix}
use greenlabs_server.Ambiente.{Opcoes, ler_argumento, ler_opcoes}

-- `--port N` and `--port=N` do the same, and so do `--publico X` and `--publico=X`, wherever they
-- stand among the arguments.
pub ler_opcoes_grafias :
    (valor : Texto) (resto : List Texto) (o : Opcoes)
    → (ler_opcoes (codes "--port" ∷ valor ∷ resto) o
        ≡ ler_opcoes ((codes "--port=" ++ valor) ∷ resto) o)
      × (ler_opcoes (codes "--publico" ∷ valor ∷ resto) o
          ≡ ler_opcoes ((codes "--publico=" ++ valor) ∷ resto) o)
unfolding ler_opcoes ler_argumento has_prefix eq_texto
ler_opcoes_grafias valor [] o = (refl, refl)
ler_opcoes_grafias valor (p ∷ resto) o = (refl, refl)
