-- ===== src/Registro.antt =====
-- src/util.go: the log of the server. Instants are nanoseconds since the year 1, which is Go's zero
-- time; the clock that gives them does not go back. `saida` holds the lines written, the last one
-- first, and `fechados` the channels that were closed.
pub mod Conclusao
mod Exemplos
pub mod Fila
pub mod Ordem
pub mod Uuid
use greenlabs_server.Comum.{
  ℕ, zero, suc, ◌+◌, ◌-◌, ◌*◌, ◌/◌, ◌%◌, Bool, true, false, ◌&&◌, Option, none, some, List, [], ◌∷◌,
  ◌++◌, ltb, if◌then◌else◌, length, take,
}
use greenlabs_server.Comum.Texto.{Texto, codes, eq_texto}

abbrev pub tamanho_da_fila_de_logs : ℕ
tamanho_da_fila_de_logs = 128

abbrev pub tamanho_maximo_do_log : ℕ
tamanho_maximo_do_log = 2048

abbrev pub intervalo_de_repeticao : ℕ
intervalo_de_repeticao = 5000000000

-- The channel that concluirLogs waits for, by a number.
pub record RegistroLog : Type 0 where
  pub texto : Texto
  pub concluido : Option ℕ

-- filaLogs, and the goroutine of prepararLogs.
pub record Logs : Type 0 where
  pub fila : List RegistroLog
  pub ultimo : Texto
  pub ultimo_instante : ℕ
  pub saida : List (ℕ × Texto)
  pub fechados : List ℕ

abbrev pub novos_logs : Logs
novos_logs = record { fila = []; ultimo = []; ultimo_instante = 0; saida = []; fechados = [] }

abbrev pub ha_lugar : Logs → Bool
ha_lugar l = ltb (length l.fila) tamanho_da_fila_de_logs

abbrev pub por_na_fila : RegistroLog → Logs → Logs
por_na_fila r l = record l { fila = l.fila ++ (r ∷ []) }

abbrev pub cortar : Texto → Texto
cortar texto =
    if ltb tamanho_maximo_do_log (length texto) then take tamanho_maximo_do_log texto else texto

unfoldable pub registrar : Texto → Logs → Logs
registrar texto l =
    if ha_lugar l then por_na_fila (record { texto = cortar texto; concluido = none }) l else l

-- `debug` is what GREENLABS_DEBUG holds.
unfoldable pub registrar_detalhado : Texto → Texto → Logs → Logs
unfolding registrar
registrar_detalhado debug texto l = if eq_texto debug (codes "1") then registrar texto l else l

-- A try of concluirLogs at putting its mark into the queue, and whether the mark went in: it tries
-- until then or its deadline.
unfoldable pub concluir_logs : ℕ → Logs → Logs × Bool
concluir_logs c l =
    if ha_lugar l
    then (por_na_fila (record { texto = []; concluido = some c }) l, true)
    else (l, false)

-- What the goroutine does with the record that it took.
unfoldable pub tratar_registro : ℕ → RegistroLog → Logs → Logs
tratar_registro agora r l = elim r.concluido [
  | some c ↦ record l { fechados = c ∷ l.fechados }
  | none ↦
      if eq_texto r.texto l.ultimo && ltb (agora - l.ultimo_instante) intervalo_de_repeticao
      then l
      else record l {
        ultimo = r.texto;
        ultimo_instante = agora;
        saida = (agora, r.texto) ∷ l.saida;
      }
]

-- A round of the goroutine; with an empty queue it waits.
unfoldable pub escrever_log : ℕ → Logs → Logs
unfolding tratar_registro
escrever_log agora l = elim l.fila [
  | [] ↦ l
  | r ∷ resto ↦ tratar_registro agora r (record l { fila = resto })
]

-- The last `k` decimal digits of `n`.
unfoldable pub digitos : ℕ → ℕ → Texto
digitos zero n = []
digitos (suc k) n = digitos k (n / 10) ++ ((48 + n % 10) ∷ [])

-- Year, month and day of a day counted from the year 1, in the Gregorian calendar: the count is taken
-- from a first of March, so that the leap day is the last of its year.
unfoldable pub data_do_dia : ℕ → ℕ × ℕ × ℕ
data_do_dia dias =
    let z = dias + 306 in
    let era = z / 146097 in
    let d = z % 146097 in
    let a = (d - d / 1460 + d / 36524 - d / 146096) / 365 in
    let n = d - (365 * a + a / 4 - a / 100) in
    let m = (5 * n + 2) / 153 in
    let dia = n - (153 * m + 2) / 5 + 1 in
    if ltb m 10 then (400 * era + a, m + 3, dia) else (400 * era + a + 1, m - 9, dia)

-- Format("2006-01-02T15:04:05.000Z") of a time in UTC, for a year of four digits.
unfoldable pub carimbo : ℕ → Texto
unfolding digitos data_do_dia
carimbo agora =
    let ms = agora / 1000000 in
    let (ano, mes, dia) = data_do_dia (ms / 86400000) in
    digitos 4 ano
    ++ (codes "-"
        ++ (digitos 2 mes
            ++ (codes "-"
                ++ (digitos 2 dia
                    ++ (codes "T"
                        ++ (digitos 2 (ms / 3600000 % 24)
                            ++ (codes ":"
                                ++ (digitos 2 (ms / 60000 % 60)
                                    ++ (codes ":"
                                        ++ (digitos 2 (ms / 1000 % 60)
                                            ++ (codes "."
                                                ++ (digitos 3 (ms % 1000) ++ codes "Z"))))))))))))

-- A line of standard output.
unfoldable pub linha_do_log : ℕ × Texto → Texto
unfolding carimbo
linha_do_log (agora, texto) = codes "[" ++ (carimbo agora ++ (codes "] " ++ (texto ++ codes "\n")))

-- The states that the log comes to, with the texts that it was given, the last one first.
pub data Curso : List Texto → Logs → Type 0 where
  inicio : Curso [] novos_logs
  registra : {ps : List Texto} {l : Logs} (t : Texto) → Curso ps l → Curso (t ∷ ps) (registrar t l)
  detalha :
      {ps : List Texto} {l : Logs} (debug t : Texto)
      → Curso ps l
      → Curso (t ∷ ps) (registrar_detalhado debug t l)
  conclui : {ps : List Texto} {l : Logs} (c : ℕ) → Curso ps l → Curso ps (concluir_logs c l).0
  escreve : {ps : List Texto} {l : Logs} (agora : ℕ) → Curso ps l → Curso ps (escrever_log agora l)
