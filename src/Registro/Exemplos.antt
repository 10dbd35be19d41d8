-- ===== src/Registro/Exemplos.antt =====
-- src/util.go: runs of the log, and its theorems at an input.
use mathlib.Core.List.{Sublist}
use greenlabs_server.Comum.{ℕ, ◌<◌, ◌≡◌, ◌↔◌, refl, true, none, some, List, [], ◌∷◌, map, arith}
use greenlabs_server.Comum.Texto.{Texto, codes}
use greenlabs_server.Registro.{
  Logs, novos_logs, cortar, registrar, concluir_logs, escrever_log, linha_do_log, Curso, inicio,
  registra, escreve,
}
use greenlabs_server.Registro.Conclusao.{fechado, Segue, aqui, concluir_logs-IsFechado}
use greenlabs_server.Registro.Fila.{IsLogs, Curso-IsLogs}
use greenlabs_server.Registro.Ordem.{textos, Curso-sublist}
use greenlabs_server.Registro.Uuid.{bytes_sorteados, novo_uuid}
use greenlabs_server.Registro.Uuid.Molde.{forma_v4, tem_forma, ler_uuid}
use greenlabs_server.Registro.Uuid.Forma.{com_campos, novo_uuid_forma}

-- The time stamp of a day in February.
linha_de_fevereiro :
    linha_do_log (63907880709047000000, codes "oi") ≡ codes "[2026-02-28T13:05:09.047Z] oi\n"
unfolding linha_do_log
linha_de_fevereiro = refl

-- A text is logged three times, and the repeat at once is not written.
abbrev repetido : Logs
repetido = escrever_log 63907880709000000000 (
    escrever_log 63907880702000000000 (
      escrever_log 63907880701000000000
        (registrar (codes "a") (registrar (codes "a") (registrar (codes "a") novos_logs)))))

abbrev escritos : List (ℕ × Texto)
escritos = (63907880709000000000, codes "a") ∷ (63907880701000000000, codes "a") ∷ []

repetido_saida : repetido.saida ≡ escritos
unfolding escrever_log greenlabs_server.Registro.tratar_registro registrar
    greenlabs_server.Comum.Texto.eq_texto
repetido_saida = refl

repetido-Curso : Curso (codes "a" ∷ codes "a" ∷ codes "a" ∷ []) repetido
repetido-Curso = escreve 63907880709000000000 (
    escreve 63907880702000000000 (
      escreve 63907880701000000000
        (registra (codes "a") (registra (codes "a") (registra (codes "a") inicio)))))

Curso-IsLogs_example : IsLogs repetido
Curso-IsLogs_example = Curso-IsLogs repetido-Curso

Curso-sublist_example :
    Sublist (textos repetido) (map cortar (codes "a" ∷ codes "a" ∷ codes "a" ∷ []))
Curso-sublist_example = Curso-sublist repetido-Curso

abbrev um_a_espera : Logs
um_a_espera = registrar (codes "a") novos_logs

concluir_logs-IsFechado_example :
    (fechado 7 (escrever_log 9 (escrever_log 8 (concluir_logs 7 um_a_espera).0)).fechados ≡ true)
    ↔ (1 < 2)
unfolding registrar
concluir_logs-IsFechado_example =
    concluir_logs-IsFechado 7 2 um_a_espera
      (escrever_log 9 (escrever_log 8 (concluir_logs 7 um_a_espera).0)) refl refl refl
      (Segue.escreve 9 (Segue.escreve 8 aqui))

novo_uuid_forma_example :
    (tem_forma forma_v4 (novo_uuid none 1700000000000000000 4321) ≡ true)
    × (ler_uuid (novo_uuid none 1700000000000000000 4321)
        ≡ com_campos (bytes_sorteados none 1700000000000000000 4321))
novo_uuid_forma_example = novo_uuid_forma none 1700000000000000000 4321 tt
